-- ===== src/Queue/Remove.antt =====
-- AQueueRemove and AQueueAllocLink of flat/os/queue.c take a link out of the list of its queue.
use os_lab.Prelude.{
  ℕ, suc, ◌+◌, ◌≡◌, ◌≢◌, ◌<◌, ap, sym, ◌∙◌, subst, none, some, List, [], ◌∷◌, ◌++◌, if◌then◌else◌,
  length, arith, ==_refl, ne→==, ℕ_discrete,
}
use mathlib.Core.Path.{fun_ext}
use os_lab.Prelude.Word.{word_mod, sub32}
use os_lab.Os.{Run, ok, pure, ◌>>◌}
use os_lab.Queue.{
  Ptr, Link, Queue, Store, free_links, put, same, set_links, queue_success, drop_ends, count_down,
  bypass, take_free, queue_alloc_link, remove_from, queue_remove,
}
use os_lab.Queue.Seg.{head_or, last_or, NotIn, put-ne, put_self, Seg-put}
use os_lab.Queue.Splice.{
  head_or-append, IsBetween, IsBetween-of_with, IsBetween-IsDistinct, Seg-split,
}
use os_lab.Queue.Relink.{neighbours, bypass-Seg, bypass_frame}
use os_lab.Queue.Objects.{SameObjects, bypass-object}
use os_lab.Queue.Model.{
  Holds, Holds-Seg, Models, Models-put, NotIn-other, AreApart-other, AreApart-sym, pick_head,
  pick_last, last_or-append, length_cons,
}
use os_lab.Queue.Insert.{queue_insert_last_lem}

pub some_inj : {a b : ℕ} → some a ≡ some b → a ≡ b
some_inj e = cc

pub put-put : {A : Type 0} (f : ℕ → A) (i : ℕ) (v w : A) → put (put f i v) i w ≡ put f i w
put-put f i v w = fun_ext (λ j. elim (ℕ_discrete i j) [
  | yes e ↦ rw (sym e, ==_refl i)
  | no ne ↦ rw (ne→== j i (λ e. ne (sym e)))
])

pub put_same : {A : Type 0} (f : ℕ → A) (i : ℕ) (v : A) → f i ≡ v → f ≡ put f i v
put_same f i v h = fun_ext (λ j. elim (ℕ_discrete i j) [
  | yes e ↦ rw (sym e, ==_refl i) h
  | no ne ↦ rw (ne→== j i (λ e. ne (sym e)))
])

-- A link of queue `q` that is not in a list is nowhere when the list is what the queue holds.
pub put-NotIn :
    {s : Store} {m : ℕ → List ℕ} (h : Models s m) (q l : ℕ)
    → (s.links l).queue ≡ some q
    → (xs : List ℕ) → NotIn l xs
    → (r : ℕ) → NotIn l (put m q xs r)
put-NotIn {s} {m} h q l mine xs out r = elim (ℕ_discrete q r) [
  | yes e ↦ subst (λ k. NotIn l (put m q xs k)) e (rw (put_self m q xs) out)
  | no ne ↦
      rw (put-ne m q r xs ne)
        (NotIn-other s.links l r none (m r) none (λ e. ne (some_inj (sym mine ∙ e))) (h r).seg)
]

-- The queue's own fields when link `l`, whose fields are `k`, has left.
abbrev without : Queue → ℕ → Link → Queue
without d l k = record d {
  first = if same d.first (some l) then k.next else d.first;
  last = if same d.last (some l) then k.prev else d.last;
  nitems = sub32 d.nitems 1;
}

abbrev taken : ℕ → ℕ → Store → Store
taken q l s = record {
  links = bypass l s.links;
  queues = put s.queues q (without (s.queues q) l (s.links l));
}

-- The code assigns to the ends and to the count one after the other.
count_down-drop_ends :
    (q l : ℕ) (s : Store) → count_down q (set_links (bypass l) (drop_ends q l s)) ≡ taken q l s
unfolding drop_ends
count_down-drop_ends q l s =
    let d : Queue = record (s.queues q) {
      first = if same (s.queues q).first (some l) then (s.links l).next else (s.queues q).first;
      last = if same (s.queues q).last (some l) then (s.links l).prev else (s.queues q).last;
    } in
    let counted : Queue → Store = λ e. record {
      links = bypass l s.links;
      queues = put (put s.queues q d) q (record e { nitems = sub32 e.nitems 1 });
    } in
    let stored : (ℕ → Queue) → Store = λ qs. record { links = bypass l s.links; queues = qs } in
    ap counted (put_self s.queues q d)
    ∙ ap stored (put-put s.queues q d (without (s.queues q) l (s.links l)))

module _ {d : Queue} {f : ℕ → Link} {q : ℕ} (l : ℕ) (xs ys : List ℕ) where
  without-Holds :
      Holds d f q (xs ++ (l ∷ ys))
      → length (xs ++ (l ∷ ys)) < word_mod
      → Holds (without d l (f l)) (bypass l f) q (xs ++ ys)
  without-Holds h short =
      let b = IsBetween-of_with l xs ys h.distinct in
      let (_, prev, next, _) = neighbours f q b h.seg in
      let top : d.first ≡ head_or xs (some l) = h.first ∙ head_or-append xs (l ∷ ys) none in
      let tail : d.last ≡ last_or (some l) ys = h.last ∙ last_or-append none xs (l ∷ ys) in
      record {
        first =
            rw (top, next)
              (pick_head l xs (head_or ys none) b.not_left ∙ sym (head_or-append xs ys none));
        last =
            rw (tail, prev)
              (pick_last l ys (last_or none xs) b.not_right ∙ sym (last_or-append none xs ys));
        nitems = rw (h.nitems) (omega (arith, length_cons xs ys l));
        seg = (bypass-Seg f q b h.seg).0;
        distinct = (IsBetween-IsDistinct b).1;
      }

module _ {s : Store} {m : ℕ → List ℕ} (h : Models s m) (q l : ℕ) (xs ys : List ℕ)
    (at : m q ≡ xs ++ (l ∷ ys)) (short : length (m q) < word_mod) where
  here : Holds (s.queues q) s.links q (xs ++ (l ∷ ys))
  here = subst (λ zs. Holds (s.queues q) s.links q zs) at (h q)

  between : IsBetween l xs ys
  between = IsBetween-of_with l xs ys here.distinct

  taken-Models : Models (taken q l s) (put m q (xs ++ ys))
  taken-Models =
      Models-put h q (without (s.queues q) l (s.links l)) (bypass l s.links) (xs ++ ys)
        (without-Holds l xs ys here (subst (λ zs. length zs < word_mod) at short))
        (λ r ne.
          let (left, right) = Seg-split s.links q none xs (l ∷ ys) none here.seg in
          bypass_frame between s.links r (m r)
            (AreApart-other s.links q r none xs _ (m r) ne left (h r).seg)
            (AreApart-sym ys (m r)
              (AreApart-other s.links q r _ ys none (m r) ne right.3 (h r).seg))
            (h r).seg q here.seg)

  taken_fresh : (r : ℕ) → NotIn l (put m q (xs ++ ys) r)
  taken_fresh =
      let (_, _, _, mine) = neighbours s.links q between here.seg in
      put-NotIn h q l mine (xs ++ ys) (IsBetween-IsDistinct between).2

-- A link on no queue is nobody's: its fields may change.
pub put-Models :
    {s : Store} {m : ℕ → List ℕ}
    → Models s m
    → (l : ℕ) (v : Link) → ((r : ℕ) → NotIn l (m r))
    → Models (record s { links = put s.links l v }) m
put-Models {s} {m} h l v fresh r =
    Holds-Seg (h r) (Seg-put s.links r none (m r) none l v (fresh r) (h r).seg)

-- Every queue is shorter than its counter allows.
abbrev pub AreShort : (ℕ → List ℕ) → Type 0
AreShort m = (q : ℕ) → length (m q) + 1 < word_mod

pub put-AreShort :
    (m : ℕ → List ℕ)
    → AreShort m
    → (q : ℕ) (xs : List ℕ) → length xs + 1 < word_mod
    → AreShort (put m q xs)
put-AreShort m short q xs h r = elim (ℕ_discrete q r) [
  | yes e ↦
      let at : length (put m q xs q) + 1 < word_mod = rw (put_self m q xs) h in
      subst (λ k. length (put m q xs k) + 1 < word_mod) e at
  | no ne ↦ rw (put-ne m q r xs ne) (short r)
]

-- The two functions past their tests.
queue_remove-some :
    (q l : ℕ) (s : Store)
    → (s.links l).queue ≡ some q
    → queue_remove (some l) s ≡ (remove_from q l >> pure (queue_success, none)) s
unfolding queue_remove
queue_remove-some q l s e = rw (e, queue_remove)

queue_alloc_link-some :
    (l n : ℕ) (object : Ptr) (s : Store)
    → (s.queues free_links).nitems ≡ suc n
    → (s.queues free_links).first ≡ some l
    → queue_alloc_link object s ≡ take_free l object s
unfolding queue_alloc_link
queue_alloc_link-some l n object s e f = rw (e, f, ne→== (suc n) 0 (λ z. absurd (omega (arith, z))))

module _ {s : Store} {m : ℕ → List ℕ} (h : Models s m) (short : AreShort m) where
  -- AQueueRemove of a link takes it out of its queue's list, whichever queue it is on and wherever it
  -- stands there, and appends it to the list of free links. All other queues stay, and the caller's
  -- pointer becomes NULL; the links' objects stay.
  pub queue_remove_lem :
      (q l : ℕ) (xs ys : List ℕ)
      → m q ≡ xs ++ (l ∷ ys)
      → (s' : Store) × (queue_remove (some l) s ≡ ok (queue_success, none) s')
        × Models s'
            (put (put m q (xs ++ ys)) free_links (put m q (xs ++ ys) free_links ++ (l ∷ [])))
        × SameObjects s s'
  unfolding remove_from
  queue_remove_lem q l xs ys at =
      let fits : length (m q) < word_mod = omega (arith, short q) in
      let less = length_cons xs ys l in
      let before : length (m q) ≡ length (xs ++ (l ∷ ys)) = ap length at in
      let room = put-AreShort m short q (xs ++ ys) (omega (arith, short q)) free_links in
      let (s', ran, models, same) =
        queue_insert_last_lem (taken-Models h q l xs ys at fits) free_links l
          (taken_fresh h q l xs ys at fits) room in
      let (_, _, _, mine) =
        neighbours s.links q (between h q l xs ys at fits) (here h q l xs ys at fits).seg in
      let run : (remove_from q l >> pure (queue_success, none)) s ≡ ok (queue_success, none) s' =
        rw (count_down-drop_ends q l s, ran) in
      (s', queue_remove-some q l s mine ∙ run, models, (λ k. same k ∙ bypass-object l s.links k))

module _ {s : Store} {m : ℕ → List ℕ} (h : Models s m) where
  -- AQueueAllocLink takes the first free link out of the list of free links; it then has the given
  -- object and is on no queue. All queues but the free list stay, and
  -- so do the other links' objects.
  pub queue_alloc_link_lem :
      (l : ℕ) (ys : List ℕ) (object : Ptr)
      → length (m free_links) < word_mod
      → m free_links ≡ l ∷ ys
      → (s' : Store) × (queue_alloc_link object s ≡ ok (some l) s')
        × Models s' (put m free_links ys)
        × (s'.links l ≡ record { next = none; prev = none; queue = none; object = object })
        × ((k : ℕ) → l ≢ k → (s'.links k).object ≡ (s.links k).object)
  unfolding take_free
  queue_alloc_link_lem l ys object fits at =
      let e = here h free_links l [] ys at fits in
      let t = taken free_links l s in
      let v : Link = record { next = none; prev = none; queue = none; object = object } in
      let end : Store → Run Store Ptr = λ u. ok (some l) (set_links (λ f. put f l v) u) in
      (
        set_links (λ f. put f l v) t,
        queue_alloc_link-some l _ object s e.nitems e.first
            ∙ (ap end (count_down-drop_ends free_links l s)),
        put-Models (taken-Models h free_links l [] ys at fits) l v
            (taken_fresh h free_links l [] ys at fits),
        put_self t.links l v,
        (λ k ne. ap (λ w. w.object) (put-ne t.links l k v ne) ∙ bypass-object l s.links k),
      )

  -- With no free link AQueueAllocLink gives NULL and changes nothing.
  pub queue_alloc_link-none :
      (object : Ptr) → m free_links ≡ [] → queue_alloc_link object s ≡ ok none s
  unfolding queue_alloc_link
  queue_alloc_link-none object at =
      let e : (s.queues free_links).nitems ≡ 0 = (h free_links).nitems ∙ ap length at in rw e
