-- ===== src/Process/Schedule.antt =====
-- ProcessSchedule of flat/os/process.c takes the runnable processes in turn.
use mathlib.Core.List.{append_assoc}
use os_lab.Prelude.{
  ℕ, zero, suc, ◌+◌, ◌<◌, ◌≡◌, ap, ◌∙◌, subst, none, some, List, [], ◌∷◌, ◌++◌, length,
  length-append, arith, ne→==,
}
use os_lab.Prelude.Word.{word_mod}
use os_lab.Os.{Cmd, ok, pure, gets, modify, ◌>>◌, ◌>>=◌}
use os_lab.Queue.{Store, put, queue_length, queue_first, queue_last, queue_move_after}
use os_lab.Queue.Seg.{head_or, put_self}
use os_lab.Queue.Objects.{SameObjects}
use os_lab.Queue.Model.{Models}
use os_lab.Queue.Move.{queue_move_after-rotate}
use os_lab.Queue.Remove.{AreShort, put-AreShort, put-put}
use os_lab.Process.{
  System, in_queues, run_queue, zombie_queue, first_object, zombie_loop, process_schedule,
}
use os_lab.Process.Moves.{first_of}

-- A queue that is not empty, past the test.
schedule_some :
    (s : System) (n : ℕ)
    → (s.store.queues run_queue).nitems ≡ suc n
    → process_schedule s
      ≡ (in_queues (
              queue_move_after
                (some run_queue)
                (queue_last run_queue s.store)
                (queue_first run_queue s.store))
            >> (first_object run_queue >>= λ pcb.
                modify (λ t. record t { current_pcb = pcb })
                >> (gets (λ t. queue_length zombie_queue t.store) >>= zombie_loop)))
          s
unfolding process_schedule
schedule_some s n e = rw (e, ne→== (suc n) 0 (λ z. absurd (omega (arith, z))))

zombie_loop-none :
    (s : System) → (s.store.queues zombie_queue).nitems ≡ 0 → zombie_loop 0 s ≡ ok tt s
unfolding zombie_loop
zombie_loop-none s e = rw e

module _ (s : System) {m : ℕ → List ℕ} (h : Models s.store m) (short : AreShort m)
    (no_zombies : m zombie_queue ≡ []) where
  -- ProcessSchedule with a runnable process and without zombies succeeds. The first process of the
  -- run queue becomes the last, the one that is first then becomes the current one, and no other
  -- queue, process or page changes.
  pub process_schedule_lem :
      (l : ℕ) (xs : List ℕ)
      → m run_queue ≡ l ∷ xs
      → (f : ℕ) × (fs : List ℕ) × (t : Store) × (xs ++ (l ∷ []) ≡ f ∷ fs)
        × (process_schedule s ≡ ok tt (record s { store = t; current_pcb = (t.links f).object }))
        × Models t (put m run_queue (xs ++ (l ∷ [])))
        × SameObjects s.store t
  unfolding first_object
  process_schedule_lem l xs at =
      let (f, fs, first) = first_of xs l in
      let (t, ran, models, same) = queue_move_after-rotate h short run_queue l xs at in
      let some_item : (s.store.queues run_queue).nitems ≡ suc (length xs) =
        (h run_queue).nitems ∙ ap length at in
      let front : (t.queues run_queue).first ≡ some f =
        (models run_queue).first ∙ ap (λ zs. head_or zs none) first in
      let zombies : (t.queues zombie_queue).nitems ≡ 0 =
        (models zombie_queue).nitems ∙ ap length no_zombies in
      (
        f,
        fs,
        t,
        first,
        schedule_some s (length xs) some_item
            ∙ rw (ran, front, zombies) (zombie_loop-none _ zombies),
        models,
        same,
      )

-- So many calls of ProcessSchedule in a row.
abbrev pub schedules : ℕ → Cmd System (Unit {0})
schedules zero = pure tt
schedules (suc n) = process_schedule >> schedules n

-- Every runnable process gets its turn: with no zombies, after as many calls of ProcessSchedule as there
-- are processes before it in the run queue (one at least), the process at a link of the run queue is the
-- current one. The run queue is then rotated to begin with that link, and no other queue has changed.
pub process_schedule-turn :
    (xs : List ℕ) (s : System) (m : ℕ → List ℕ) (x l : ℕ) (ys : List ℕ)
    → Models s.store m
    → AreShort m
    → m zombie_queue ≡ []
    → m run_queue ≡ (x ∷ xs) ++ (l ∷ ys)
    → (t : System) × (schedules (length (x ∷ xs)) s ≡ ok tt t)
      × (t.current_pcb ≡ (s.store.links l).object)
      × Models t.store (put m run_queue ((l ∷ ys) ++ (x ∷ xs)))
      × SameObjects s.store t.store
process_schedule-turn [] s m x l ys h short no_zombies at =
    let (f, fs, t, first, ran, models, same) =
      process_schedule_lem s h short no_zombies x (l ∷ ys) at in
    let front : f ≡ l = cc in
    (
      record s { store = t; current_pcb = (t.links f).object },
      rw ran,
      same f ∙ ap (λ k. (s.store.links k).object) front,
      models,
      same,
    )
process_schedule-turn (y ∷ xs) s m x l ys h short no_zombies at =
    let (f, fs, t, first, ran, models, same) =
      process_schedule_lem s h short no_zombies x ((y ∷ xs) ++ (l ∷ ys)) at in
    let rotated = ((y ∷ xs) ++ (l ∷ ys)) ++ (x ∷ []) in
    let size : length (m run_queue) ≡ length ((x ∷ y ∷ xs) ++ (l ∷ ys)) = ap length at in
    let room : length rotated + 1 < word_mod =
      omega (arith, short run_queue, size, length-append ((y ∷ xs) ++ (l ∷ ys)) (x ∷ [])) in
    let s₁ = record s { store = t; current_pcb = (t.links f).object } in
    let m₁ = put m run_queue rotated in
    let (u, ran', now, models', same') =
      process_schedule-turn xs s₁ m₁ y l (ys ++ (x ∷ [])) models
        (put-AreShort m short run_queue rotated room) no_zombies
        (put_self m run_queue rotated ∙ append_assoc (y ∷ xs) (l ∷ ys) (x ∷ [])) in
    let list : (l ∷ (ys ++ (x ∷ []))) ++ (y ∷ xs) ≡ (l ∷ ys) ++ (x ∷ y ∷ xs) =
      append_assoc (l ∷ ys) (x ∷ []) (y ∷ xs) in
    let all =
      put-put m run_queue rotated ((l ∷ (ys ++ (x ∷ []))) ++ (y ∷ xs))
      ∙ ap (λ zs. put m run_queue zs) list in
    (
      u,
      rw (ran, ran'),
      now ∙ same l,
      subst (λ n. Models u.store n) all models',
      (λ k. same' k ∙ same k),
    )
