-- ===== src/Process/Moves.antt =====
-- ProcessSuspend, ProcessWakeup and ProcessDestroy of flat/os/process.c take a process from one queue
-- to another.
use os_lab.Prelude.{
  ℕ, ◌+◌, ◌<◌, ◌≡◌, ◌≢◌, refl, sym, ap, ◌∙◌, none, some, List, [], ◌∷◌, ◌++◌, length, length-append,
  arith,
}
use os_lab.Prelude.Word.{word_mod}
use os_lab.Os.{ok, ◌>>◌}
use os_lab.Queue.{Store, put, free_links}
use os_lab.Queue.Seg.{NotIn, put-ne, put_self}
use os_lab.Queue.Objects.{SameObjects}
use os_lab.Queue.Model.{Models, NotIn-other}
use os_lab.Queue.Insertion.{Insertion}
use os_lab.Queue.Remove.{AreShort, queue_remove_lem, queue_alloc_link_lem}
use os_lab.Process.{System, Pcb, set_pcb, leave_queue, new_link, enter_queue}

-- The lists after link `l`, at the place behind `xs` of queue `q`, has been given back.
abbrev given_back : (ℕ → List ℕ) → ℕ → ℕ → List ℕ → List ℕ → ℕ → List ℕ
given_back m q l xs ys =
    put (put m q (xs ++ ys)) free_links (put m q (xs ++ ys) free_links ++ (l ∷ []))

-- A list that ends has a first element.
pub first_of : (xs : List ℕ) (l : ℕ) → (f : ℕ) × (fs : List ℕ) × (xs ++ (l ∷ []) ≡ f ∷ fs)
first_of [] l = (l, [], refl)
first_of (x ∷ xs) l = (x, xs ++ (l ∷ []), refl)

module _ (s : System) {m : ℕ → List ℕ} (h : Models s.store m) (short : AreShort m) (p q l : ℕ)
    (xs ys : List ℕ) (at : m q ≡ xs ++ (l ∷ ys)) (mine : (s.pcbs p).l ≡ some l) where
  leave_queue_lem :
      (t : Store) × (leave_queue p s
        ≡ ok tt (set_pcb p (record (s.pcbs p) { l = none }) (record s { store = t })))
      × Models t (given_back m q l xs ys)
      × SameObjects s.store t
  unfolding leave_queue
  leave_queue_lem =
      let (t, ran, models, same) = queue_remove_lem h short q l xs ys at in
      (t, rw (mine, ran), models, same)

pub new_link_lem :
    (s : System) {m : ℕ → List ℕ} (h : Models s.store m) (p l : ℕ) (ls : List ℕ)
    → length (m free_links) < word_mod
    → m free_links ≡ l ∷ ls
    → (t : Store) × (new_link p s
        ≡ ok tt (set_pcb p (record (s.pcbs p) { l = some l }) (record s { store = t })))
      × Models t (put m free_links ls)
      × ((t.links l).queue ≡ none)
      × ((t.links l).object ≡ some p)
unfolding new_link
new_link_lem s h p l ls fits at =
    let (t, ran, models, fields, _) = queue_alloc_link_lem h l ls (some p) fits at in
    (t, rw ran, models, ap (λ w. w.queue) fields, ap (λ w. w.object) fields)

module _ (i : Insertion) where
  pub enter_queue_lem :
      (s : System) {m : ℕ → List ℕ} (h : Models s.store m) (to p l : ℕ)
      → (s.pcbs p).l ≡ some l
      → (s.store.links l).queue ≡ none
      → length (m to) + 1 < word_mod
      → (t : Store) × (enter_queue i.insert to p s ≡ ok tt (record s { store = t }))
        × Models t (put m to (i.add l (m to)))
        × SameObjects s.store t
  unfolding enter_queue
  enter_queue_lem s {m} h to p l mine loose room =
      let fresh : (r : ℕ) → NotIn l (m r) =
        λ r. NotIn-other s.store.links l r none (m r) none (λ e. cc) (h r).seg in
      let (t, ran, models, same) = i.insert_lem s.store m h to l fresh room in
      (t, rw (mine, ran), models, same)

  -- The three calls in a row.
  pub transfer :
      (s : System) {m : ℕ → List ℕ} (h : Models s.store m) (short : AreShort m) (p q l : ℕ)
      (xs ys : List ℕ) (to : ℕ)
      → m q ≡ xs ++ (l ∷ ys)
      → (s.pcbs p).l ≡ some l
      → q ≢ to
      → q ≢ free_links
      → to ≢ free_links
      → (l' : ℕ) × (s' : System) × (m' : ℕ → List ℕ) × ((leave_queue p
              >> (new_link p >> enter_queue i.insert to p))
            s
          ≡ ok tt s')
        × Models s'.store m'
        × (m' q ≡ xs ++ ys)
        × (m' to ≡ i.add l' (m to))
        × (m free_links ++ (l ∷ []) ≡ l' ∷ m' free_links)
        × ((r : ℕ) → q ≢ r → to ≢ r → free_links ≢ r → m' r ≡ m r)
        × ((s'.pcbs p).l ≡ some l')
        × ((s'.store.links l').object ≡ some p)
        × ((s'.pcbs p).flags ≡ (s.pcbs p).flags)
  transfer s {m} h short p q l xs ys to at mine apart used_q used_to =
      let (t, ran, models, _) = leave_queue_lem s h short p q l xs ys at mine in
      let b₁ : Pcb = record (s.pcbs p) { l = none } in
      let s₁ = set_pcb p b₁ (record s { store = t }) in
      let g = given_back m q l xs ys in
      let (f, fs, first) = first_of (m free_links) l in
      let back : g free_links ≡ m free_links ++ (l ∷ []) =
        ap (λ zs. zs ++ (l ∷ [])) (put-ne m q free_links (xs ++ ys) used_q) in
      let size : length (g free_links) ≡ length (m free_links ++ (l ∷ [])) = ap length back in
      let fits : length (g free_links) < word_mod =
        omega (arith, size, length-append (m free_links) (l ∷ []), short free_links) in
      let (t₂, ran₂, models₂, loose, holds) = new_link_lem s₁ models p f fs fits (back ∙ first) in
      let b₂ : Pcb = record (s₁.pcbs p) { l = some f } in
      let s₂ = set_pcb p b₂ (record s₁ { store = t₂ }) in
      let m₂ = put g free_links fs in
      let kept : (r : ℕ) → free_links ≢ r → q ≢ r → m₂ r ≡ m r = λ r ne ne'.
        put-ne g free_links r fs ne
        ∙ put-ne (put m q (xs ++ ys)) free_links r (put m q (xs ++ ys) free_links ++ (l ∷ [])) ne
        ∙ put-ne m q r (xs ++ ys) ne' in
      let same_to = kept to (λ e. used_to (sym e)) apart in
      let owns : (s₂.pcbs p).l ≡ some f = ap (λ b. b.l) (put_self s₁.pcbs p b₂) in
      let to_size : length (m₂ to) ≡ length (m to) = ap length same_to in
      let (t₃, ran₃, models₃, same) =
        enter_queue_lem s₂ models₂ to p f owns loose (omega (arith, to_size, short to)) in
      let grown = i.add f (m₂ to) in
      (
        f,
        record s₂ { store = t₃ },
        put m₂ to grown,
        rw (ran, ran₂, ran₃),
        models₃,
        put-ne m₂ to q grown (λ e. apart (sym e))
            ∙ put-ne g free_links q fs (λ e. used_q (sym e))
            ∙ put-ne (put m q (xs ++ ys)) free_links q (put m q (xs ++ ys) free_links ++ (l ∷ []))
                (λ e. used_q (sym e))
            ∙ put_self m q (xs ++ ys),
        put_self m₂ to grown ∙ ap (i.add f) same_to,
        first ∙ ap (λ zs. f ∷ zs) (sym (put-ne m₂ to free_links grown used_to)),
        (λ r ne_q ne_to ne_free. put-ne m₂ to r grown ne_to ∙ kept r ne_free ne_q),
        owns,
        same f ∙ holds,
        ap (λ b. b.flags) (put_self s₁.pcbs p b₂) ∙ ap (λ b. b.flags) (put_self s.pcbs p b₁),
      )
