-- ===== src/Queue/Insert.antt =====
-- AQueueInsertAfter, AQueueInsertBefore, AQueueInsertFirst and AQueueInsertLast of flat/os/queue.c put
-- a link into the list of its queue.
use os_lab.Prelude.{
  ℕ, ◌+◌, ◌≡◌, ◌≢◌, ◌<◌, refl, ap, sym, ◌∙◌, subst, none, some, List, [], ◌∷◌, ◌++◌, if◌then◌else◌,
  length, arith, ==_refl,
}
use mathlib.Core.List.{append-nil}
use os_lab.Prelude.Word.{word_mod, add32}
use os_lab.Os.{ok}
use os_lab.Queue.{
  Link, Queue, Store, put, same, set_links, queue_success, queue_insert_after, queue_insert_before,
  queue_insert_first, queue_insert_last, link_after, link_before, enter_after, enter_before,
  next_of, prev_of,
}
use os_lab.Queue.Seg.{head_or, last_or, Seg, NotIn, Avoids, AreApart}
use os_lab.Queue.Splice.{
  head_or-append, IsBetween, IsBetween-of_without, IsBetween-IsDistinct, Seg-split, Avoids-last,
  Avoids-head,
}
use os_lab.Queue.Relink.{
  next_of_last, link_after-Seg, link_before-Seg, link_after_frame, link_before_frame,
}
use os_lab.Queue.Objects.{SameObjects, link_after-object, link_before-object}
use os_lab.Queue.Model.{
  Holds, Models, Models-put, AreApart-other, AreApart-sym, pick_head, pick_last, last_or-append,
  last_some, length_cons,
}

-- What is left over of the other queues' facts.
module _ {s : Store} {m : ℕ → List ℕ} (h : Models s m) (q l : ℕ) (xs ys : List ℕ)
    (at : m q ≡ xs ++ ys) (fresh : (r : ℕ) → NotIn l (m r)) where
  here : Holds (s.queues q) s.links q (xs ++ ys)
  here = subst (λ zs. Holds (s.queues q) s.links q zs) at (h q)

  pub between : IsBetween l xs ys
  between = IsBetween-of_without l xs ys here.distinct (subst (λ zs. NotIn l zs) at (fresh q))

  above : (r : ℕ) → q ≢ r → AreApart xs (m r)
  above r ne =
      let (left, _) = Seg-split s.links q none xs ys none here.seg in
      AreApart-other s.links q r none xs _ (m r) ne left (h r).seg

  below : (r : ℕ) → q ≢ r → AreApart (m r) ys
  below r ne =
      let (_, right) = Seg-split s.links q none xs ys none here.seg in
      AreApart-sym ys (m r) (AreApart-other s.links q r _ ys none (m r) ne right (h r).seg)

-- The other queues' links stay.
module _ {s : Store} {m : ℕ → List ℕ} (h : Models s m) (q l : ℕ) (xs ys : List ℕ)
    (at : m q ≡ xs ++ ys) (fresh : (r : ℕ) → NotIn l (m r)) (r : ℕ) (ne : q ≢ r) where
  pub others_after :
      next_of (last_or none xs) s.links ≡ head_or ys none
      → Seg (link_after q (last_or none xs) l s.links) r none (m r) none
  others_after next =
      link_after_frame (between h q l xs ys at fresh) s.links r (m r)
        (above h q l xs ys at fresh r ne) (below h q l xs ys at fresh r ne) (h r).seg q next
        (fresh r)

  others_before :
      prev_of (head_or ys none) s.links ≡ last_or none xs
      → Seg (link_before q (head_or ys none) l s.links) r none (m r) none
  others_before prev =
      link_before_frame (between h q l xs ys at fresh) s.links r (m r)
        (above h q l xs ys at fresh r ne) (below h q l xs ys at fresh r ne) (h r).seg q prev
        (fresh r)

-- Into an empty queue.
module _ {s : Store} {m : ℕ → List ℕ} (h : Models s m) (q l : ℕ) (at : m q ≡ [])
    (fresh : (r : ℕ) → NotIn l (m r)) where
  alone :
      (g : ℕ → Link)
      → Seg g q none (l ∷ []) none
      → Holds (record { first = some l; last = some l; nitems = 1 }) g q (l ∷ [])
  alone g t = record {
    first = refl;
    last = refl;
    nitems = omega arith;
    seg = t;
    distinct = (tt, tt);
  }

  queue_insert_after-empty :
      (s' : Store) × (queue_insert_after (some q) none (some l) s ≡ ok queue_success s')
      × Models s' (put m q (l ∷ []))
      × SameObjects s s'
  unfolding queue_insert_after
  queue_insert_after-empty =
      let e = here h q l [] [] at fresh in
      let t = link_after-Seg s.links q (between h q l [] [] at fresh) refl tt in
      (
        enter_after q none l (set_links (link_after q none l) s),
        rw (e.first, e.last, e.nitems),
        Models-put h q _ (link_after q none l s.links) (l ∷ []) (alone _ t)
            (λ r ne. others_after h q l [] [] at fresh r ne refl),
        link_after-object q none l s.links,
      )

  queue_insert_before-empty :
      (s' : Store) × (queue_insert_before (some q) none (some l) s ≡ ok queue_success s')
      × Models s' (put m q (l ∷ []))
      × SameObjects s s'
  unfolding queue_insert_before
  queue_insert_before-empty =
      let e = here h q l [] [] at fresh in
      let t = link_before-Seg s.links q (between h q l [] [] at fresh) refl tt in
      (
        enter_before q none l (set_links (link_before q none l) s),
        rw (e.first, e.last, e.nitems),
        Models-put h q _ (link_before q none l s.links) (l ∷ []) (alone _ t)
            (λ r ne. others_before h q l [] [] at fresh r ne refl),
        link_before-object q none l s.links,
      )

-- The fields of the queue after an insertion behind link `a`, the last of `x ∷ xs`, and before link `a`.
module _ {d : Queue} {f g : ℕ → Link} {q : ℕ} (l a : ℕ) where
  pub after_Holds :
      (x : ℕ) (xs ys : List ℕ)
      → last_or (some x) xs ≡ some a
      → IsBetween l (x ∷ xs) ys
      → length ((x ∷ xs) ++ ys) + 1 < word_mod
      → Holds d f q ((x ∷ xs) ++ ys)
      → Seg g q none ((x ∷ xs) ++ (l ∷ ys)) none
      → Holds
          (record d {
            last = if same d.last (some a) then some l else d.last;
            nitems = add32 d.nitems 1;
          })
          g
          q
          ((x ∷ xs) ++ (l ∷ ys))
  after_Holds x xs ys end b short h t =
      let tail : d.last ≡ last_or (some a) ys =
        h.last ∙ last_or-append (some x) xs ys ∙ ap (λ p. last_or p ys) end in
      let out : NotIn a ys = subst (λ p. Avoids p ys) end (Avoids-last (x ∷ xs) ys b.apart) in
      record {
        first = h.first;
        last = rw tail (pick_last a ys (some l) out ∙ sym (last_or-append (some x) xs (l ∷ ys)));
        nitems = rw (h.nitems, length_cons (x ∷ xs) ys l) (omega arith);
        seg = t;
        distinct = (IsBetween-IsDistinct b).0;
      }

  before_Holds :
      (xs ys : List ℕ)
      → IsBetween l xs (a ∷ ys)
      → length (xs ++ (a ∷ ys)) + 1 < word_mod
      → Holds d f q (xs ++ (a ∷ ys))
      → Seg g q none (xs ++ (l ∷ a ∷ ys)) none
      → Holds
          (record d {
            first = if same d.first (some a) then some l else d.first;
            nitems = add32 d.nitems 1;
          })
          g
          q
          (xs ++ (l ∷ a ∷ ys))
  before_Holds xs ys b short h t =
      let top : d.first ≡ head_or xs (some a) = h.first ∙ head_or-append xs (a ∷ ys) none in
      let out : NotIn a xs = Avoids-head xs (a ∷ ys) b.apart in
      record {
        first = rw top (pick_head a xs (some l) out ∙ sym (head_or-append xs (l ∷ a ∷ ys) none));
        last = h.last ∙ last_or-append none xs (a ∷ ys) ∙ sym (last_or-append none xs (l ∷ a ∷ ys));
        nitems = rw (h.nitems, length_cons xs (a ∷ ys) l) (omega arith);
        seg = t;
        distinct = (IsBetween-IsDistinct b).0;
      }

-- Behind a link of the queue, and before one.
module _ {s : Store} {m : ℕ → List ℕ} (h : Models s m) (q l : ℕ) (fresh : (r : ℕ) → NotIn l (m r))
    (short : length (m q) + 1 < word_mod) where
  -- AQueueInsertAfter of a link that is on no queue, behind a link of the queue, puts it right behind
  -- that link in the queue's list and leaves all other queues, provided that the queue's count does not overflow.
  pub queue_insert_after_lem :
      (a : ℕ) (xs ys : List ℕ)
      → m q ≡ xs ++ ys
      → last_or none xs ≡ some a
      → (s' : Store) × (queue_insert_after (some q) (some a) (some l) s ≡ ok queue_success s')
        × Models s' (put m q (xs ++ (l ∷ ys)))
        × SameObjects s s'
  unfolding queue_insert_after
  queue_insert_after_lem a [] ys at end = cc
  queue_insert_after_lem a (x ∷ xs) ys at end =
      let e = here h q l (x ∷ xs) ys at fresh in
      let (left, _) = Seg-split s.links q none (x ∷ xs) ys none e.seg in
      let next = next_of_last s.links q none x xs _ left in
      let (z, last, mine) = last_some s.links q none x xs _ left in
      let b = between h q l (x ∷ xs) ys at fresh in
      let knows : (s.links a).queue ≡ some q = cc in
      let t =
        subst (λ p. Seg (link_after q p l s.links) q none ((x ∷ xs) ++ (l ∷ ys)) none) end
          (link_after-Seg s.links q b next e.seg) in
      (
        enter_after q (some a) l (set_links (link_after q (some a) l) s),
        rw (knows, ==_refl q),
        Models-put h q _ (link_after q (some a) l s.links) _
            (after_Holds l a x xs ys end b (subst (λ zs. length zs + 1 < word_mod) at short) e t)
            (λ r ne.
              subst (λ p. Seg (link_after q p l s.links) r none (m r) none) end
                (others_after h q l (x ∷ xs) ys at fresh r ne next)),
        link_after-object q (some a) l s.links,
      )

  pub queue_insert_before_lem :
      (a : ℕ) (xs ys : List ℕ)
      → m q ≡ xs ++ (a ∷ ys)
      → (s' : Store) × (queue_insert_before (some q) (some a) (some l) s ≡ ok queue_success s')
        × Models s' (put m q (xs ++ (l ∷ a ∷ ys)))
        × SameObjects s s'
  unfolding queue_insert_before
  queue_insert_before_lem a xs ys at =
      let e = here h q l xs (a ∷ ys) at fresh in
      let (left, right) = Seg-split s.links q none xs (a ∷ ys) none e.seg in
      let b = between h q l xs (a ∷ ys) at fresh in
      (
        enter_before q (some a) l (set_links (link_before q (some a) l) s),
        rw (right.2, ==_refl q),
        Models-put h q _ (link_before q (some a) l s.links) _
            (before_Holds l a xs ys b (subst (λ zs. length zs + 1 < word_mod) at short) e
              (link_before-Seg s.links q b right.0 e.seg))
            (λ r ne. others_before h q l xs (a ∷ ys) at fresh r ne right.0),
        link_before-object q (some a) l s.links,
      )

  insert_last_at :
      (xs : List ℕ)
      → m q ≡ xs
      → (s' : Store) × (queue_insert_after (some q) (last_or none xs) (some l) s
          ≡ ok queue_success s')
        × Models s' (put m q (xs ++ (l ∷ [])))
        × SameObjects s s'
  insert_last_at [] at = queue_insert_after-empty h q l at fresh
  insert_last_at (x ∷ xs) at =
      let (a, last, _) =
        last_some s.links q none x xs none
          (subst (λ zs. Seg s.links q none zs none) at (h q).seg) in
      rw last (queue_insert_after_lem a (x ∷ xs) [] (at ∙ sym (append-nil (x ∷ xs))) last)

  insert_first_at :
      (xs : List ℕ)
      → m q ≡ xs
      → (s' : Store) × (queue_insert_before (some q) (head_or xs none) (some l) s
          ≡ ok queue_success s')
        × Models s' (put m q (l ∷ xs))
        × SameObjects s s'
  insert_first_at [] at = queue_insert_before-empty h q l at fresh
  insert_first_at (x ∷ xs) at = queue_insert_before_lem x [] xs at

  -- AQueueInsertLast of a link that is on no queue appends it to the queue's list and leaves all
  -- other queues and the links' objects, provided that the queue's count does not overflow.
  pub queue_insert_last_lem :
      (s' : Store) × (queue_insert_last (some q) (some l) s ≡ ok queue_success s')
      × Models s' (put m q (m q ++ (l ∷ [])))
      × SameObjects s s'
  unfolding queue_insert_last
  queue_insert_last_lem = rw ((h q).last) (insert_last_at (m q) refl)

  -- AQueueInsertFirst of a link that is on no queue puts it in front of the queue's list and leaves
  -- all other queues, provided that the queue's count does not overflow.
  pub queue_insert_first_lem :
      (s' : Store) × (queue_insert_first (some q) (some l) s ≡ ok queue_success s')
      × Models s' (put m q (l ∷ m q))
      × SameObjects s s'
  unfolding queue_insert_first
  queue_insert_first_lem = rw ((h q).first) (insert_first_at (m q) refl)
