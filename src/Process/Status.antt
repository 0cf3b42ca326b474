-- ===== src/Process/Status.antt =====
-- What ProcessSuspend, ProcessWakeup and ProcessDestroy of flat/os/process.c do to a process's status and to the
-- queues.
use os_lab.Prelude.{
  ℕ, ◌<◌, ◌^◌, ◌≡◌, ◌≢◌, refl, ap, ◌∙◌, some, List, [], ◌∷◌, ◌++◌, ◌==◌, ltb, if◌then◌else◌,
  bit_and, bit_or, arith, true, ==_iff,
}
use os_lab.Prelude.Bits.{bit, bit-le, bit-pow, bit-bit_and, bit-bit_or, each_below, each_below_at}
use os_lab.Os.{ok, ◌>>◌}
use os_lab.Queue.{free_links}
use os_lab.Queue.Seg.{put_self}
use os_lab.Queue.Model.{Models}
use os_lab.Queue.Insertion.{Insertion, last_insertion, first_insertion}
use os_lab.Queue.Remove.{AreShort}
use os_lab.Process.{
  System, Pcb, process_status_unmask, run_queue, wait_queue, zombie_queue, set_pcb,
  process_set_status, leave_queue, new_link, enter_queue, process_suspend, process_wakeup,
  process_destroy,
}
use os_lab.Process.Moves.{transfer}

unmask_table : each_below (λ j. bit j process_status_unmask == (if ltb j 6 then 0 else 1)) 32 ≡ true
unfolding each_below bit
unmask_table = refl

-- The flags with status bit `k`, and no other of the six status bits.
abbrev pub HasStatus : ℕ → ℕ → ℕ → Type 0
HasStatus k old flags =
    (j : ℕ) → j < 32 → bit j flags ≡ (if j == k then 1 else if ltb j 6 then 0 else bit j old)

set_status :
    (k flags : ℕ) → k < 6 → HasStatus k flags (bit_or (bit_and flags process_status_unmask) (2 ^ k))
set_status k flags h j lt =
    let unmasked = (==_iff _ _).0 (
      each_below_at (λ i. bit i process_status_unmask == (if ltb i 6 then 0 else 1)) 32 unmask_table
        lt) in
    rw
      (
        bit-bit_or j (bit_and flags process_status_unmask) (2 ^ k),
        bit-bit_and j flags process_status_unmask,
        bit-pow j k,
        unmasked,
      )
      (ground (arith, bit-le j flags))

-- Process `p`, whose link `l` stood behind `xs` and before `ys` in queue `q`, is now in queue `to`, with link `l'`.
-- Link `l` went to the end of the free links, and `l'` was their first one.
pub record IsTransferred (s s' : System) (m m' : ℕ → List ℕ) (p q l l' : ℕ) (xs ys : List ℕ)
    (to : ℕ) (list : List ℕ) (k : ℕ) : Type 0 where
  pub models : Models s'.store m'
  pub left : m' q ≡ xs ++ ys
  pub entered : m' to ≡ list
  pub recycled : m free_links ++ (l ∷ []) ≡ l' ∷ m' free_links
  pub others : (r : ℕ) → q ≢ r → to ≢ r → free_links ≢ r → m' r ≡ m r
  pub link : (s'.pcbs p).l ≡ some l'
  pub object : (s'.store.links l').object ≡ some p
  pub status : HasStatus k (s.pcbs p).flags (s'.pcbs p).flags

module _ (i : Insertion) (s : System) {m : ℕ → List ℕ} (h : Models s.store m) (short : AreShort m)
    (k p q l : ℕ) (xs ys : List ℕ) (to : ℕ) where
  marked : System
  marked =
      set_pcb p
        (record (s.pcbs p) {
          flags = bit_or (bit_and (s.pcbs p).flags process_status_unmask) (2 ^ k);
        })
        s

  mark_and_transfer :
      k < 6
      → m q ≡ xs ++ (l ∷ ys)
      → (s.pcbs p).l ≡ some l
      → q ≢ to
      → q ≢ free_links
      → to ≢ free_links
      → (l' : ℕ) × (s' : System) × (m' : ℕ → List ℕ) × ((process_set_status p (2 ^ k)
              >> (leave_queue p >> (new_link p >> enter_queue i.insert to p)))
            s
          ≡ ok tt s')
        × IsTransferred s s' m m' p q l l' xs ys to (i.add l' (m to)) k
  unfolding marked process_set_status
  mark_and_transfer small at mine apart used_q used_to =
      let b : Pcb = record (s.pcbs p) {
        flags = bit_or (bit_and (s.pcbs p).flags process_status_unmask) (2 ^ k);
      } in
      let self = put_self s.pcbs p b in
      let (l', s', m', ran, models, left, entered, recycled, others, link, object, flags) =
        transfer i (set_pcb p b s) h short p q l xs ys to at (ap (λ c. c.l) self ∙ mine) apart
          used_q used_to in
      (
        l',
        s',
        m',
        ran,
        record {
          models = models;
          left = left;
          entered = entered;
          recycled = recycled;
          others = others;
          link = link;
          object = object;
          status = λ j lt.
              rw (flags ∙ ap (λ c. c.flags) self) (set_status k (s.pcbs p).flags small j lt);
        },
      )

module _ (s : System) {m : ℕ → List ℕ} (h : Models s.store m) (short : AreShort m) (p l : ℕ)
    (xs ys : List ℕ) (mine : (s.pcbs p).l ≡ some l) where
  -- ProcessSuspend of a process in the run queue, wherever it stands there, never ends the system: the
  -- process leaves the run queue and is the last of the wait queue, by a link whose object it is, and
  -- "waiting" is its only status. No other queue changes but for the free links.
  pub process_suspend_lem :
      m run_queue ≡ xs ++ (l ∷ ys)
      → (l' : ℕ) × (s' : System) × (m' : ℕ → List ℕ) × (process_suspend p s ≡ ok tt s')
        × IsTransferred s s' m m' p run_queue l l' xs ys wait_queue (m wait_queue ++ (l' ∷ [])) 2
  unfolding process_suspend
  process_suspend_lem at =
      mark_and_transfer last_insertion s h short 2 p run_queue l xs ys wait_queue (omega arith) at
        mine (omega arith) (omega arith) (omega arith)

  -- ProcessWakeup of a process in the wait queue takes it to the end of the run queue in the same way, as
  -- "runnable".
  pub process_wakeup_lem :
      m wait_queue ≡ xs ++ (l ∷ ys)
      → (l' : ℕ) × (s' : System) × (m' : ℕ → List ℕ) × (process_wakeup p s ≡ ok tt s')
        × IsTransferred s s' m m' p wait_queue l l' xs ys run_queue (m run_queue ++ (l' ∷ [])) 1
  unfolding process_wakeup
  process_wakeup_lem at =
      mark_and_transfer last_insertion s h short 1 p wait_queue l xs ys run_queue (omega arith) at
        mine (omega arith) (omega arith) (omega arith)

  -- ProcessDestroy of a process in any queue but the zombies' takes it to the front of the zombie
  -- queue in the same way, as a "zombie".
  pub process_destroy_lem :
      (q : ℕ)
      → m q ≡ xs ++ (l ∷ ys)
      → q ≢ zombie_queue
      → q ≢ free_links
      → (l' : ℕ) × (s' : System) × (m' : ℕ → List ℕ) × (process_destroy p s ≡ ok tt s')
        × IsTransferred s s' m m' p q l l' xs ys zombie_queue (l' ∷ m zombie_queue) 4
  unfolding process_destroy
  process_destroy_lem q at apart used =
      mark_and_transfer first_insertion s h short 4 p q l xs ys zombie_queue (omega arith) at mine
        apart used (omega arith)
