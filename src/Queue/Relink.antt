-- ===== src/Queue/Relink.antt =====
-- The assignments of flat/os/queue.c to links, as changes of doubly linked segments: what goes into
-- a queue, what goes out of it, and that other queues stay.
use os_lab.Prelude.{ℕ, ◌≡◌, refl, ap, ◌∙◌, none, some, List, [], ◌∷◌, ◌++◌}
use os_lab.Queue.{
  Ptr, Link, put, set_next, set_prev, bypass, unlink, link_after, link_before, next_of, prev_of,
}
use os_lab.Queue.Seg.{
  head_or, last_or, Seg, NotIn, AreApart, put_self, Seg-put, Seg-set_next, Seg-set_prev,
  Seg-set_next_last, Seg-set_prev_head,
}
use os_lab.Queue.Splice.{
  Seg-split, Seg-join, IsBetween, Avoids-last, Avoids-head, Misses-last, Misses-head, set_next-ne,
  set_prev-ne,
}

-- What the `next` of the last link, and the `prev` of the first one, say.
pub next_of_last :
    (f : ℕ → Link) (q : ℕ) (before : Ptr) (x : ℕ) (xs : List ℕ) (end : Ptr)
    → Seg f q before (x ∷ xs) end
    → next_of (last_or (some x) xs) f ≡ end
next_of_last f q before x [] end s = s.1
next_of_last f q before x (y ∷ xs) end s = next_of_last f q (some x) y xs end s.3

-- Two segments of one queue, and the pointers where they meet.
pub record AreParts (f : ℕ → Link) (q : ℕ) (xs ys : List ℕ) (end before : Ptr) : Type 0 where
  pub left : Seg f q none xs end
  pub right : Seg f q before ys none

module _ {l q : ℕ} {xs ys : List ℕ} (b : IsBetween l xs ys) {end before : Ptr} where
  step_put :
      (f : ℕ → Link) (v : Link)
      → AreParts f q xs ys end before
      → AreParts (put f l v) q xs ys end before
  step_put f v p = record {
    left = Seg-put f q none xs end l v b.not_left p.left;
    right = Seg-put f q before ys none l v b.not_right p.right;
  }

  step_next :
      (f : ℕ → Link) (v : Ptr)
      → AreParts f q xs ys end before
      → AreParts (set_next (last_or none xs) v f) q xs ys v before
  step_next f v p = record {
    left = Seg-set_next_last f q none xs end v b.left p.left;
    right = Seg-set_next f q before ys none _ v (Avoids-last xs ys b.apart) p.right;
  }

  step_prev :
      (f : ℕ → Link) (v : Ptr)
      → AreParts f q xs ys end before
      → AreParts (set_prev (head_or ys none) v f) q xs ys end v
  step_prev f v p = record {
    left = Seg-set_prev f q none xs end _ v (Avoids-head xs ys b.apart) p.left;
    right = Seg-set_prev_head f q before ys none v b.right p.right;
  }

module _ {l : ℕ} {xs ys : List ℕ} (b : IsBetween l xs ys) (f : ℕ → Link) (v : Ptr) where
  step_next-ne : set_next (last_or none xs) v f l ≡ f l
  step_next-ne = set_next-ne _ v f l (Misses-last l xs b.not_left)

  step_prev-ne : set_prev (head_or ys none) v f l ≡ f l
  step_prev-ne = set_prev-ne _ v f l (Misses-head l ys b.not_right)

-- The segment with the link put between.
join_with :
    (f : ℕ → Link) (q l : ℕ) (xs ys : List ℕ) {v : Link}
    → f l ≡ v
    → v.prev ≡ last_or none xs
    → v.next ≡ head_or ys none
    → v.queue ≡ some q
    → AreParts f q xs ys (some l) (some l)
    → Seg f q none (xs ++ (l ∷ ys)) none
join_with f q l xs ys at prev next queue p =
    Seg-join f q none xs (l ∷ ys) none p.left (
      ap (λ w. w.prev) at ∙ prev,
      ap (λ w. w.next) at ∙ next,
      ap (λ w. w.queue) at ∙ queue,
      p.right,
    )

-- What the assignments come to, by the lists that the link lies between.
abbrev entered : (ℕ → Link) → ℕ → ℕ → List ℕ → List ℕ → Link
entered f q l xs ys = record (f l) {
  queue = some q;
  prev = last_or none xs;
  next = head_or ys none;
}

abbrev after_form : (ℕ → Link) → ℕ → ℕ → List ℕ → List ℕ → ℕ → Link
after_form f q l xs ys =
    set_prev (head_or ys none) (some l)
      (set_next (last_or none xs) (some l) (put f l (entered f q l xs ys)))

abbrev before_form : (ℕ → Link) → ℕ → ℕ → List ℕ → List ℕ → ℕ → Link
before_form f q l xs ys =
    set_next (last_or none xs) (some l)
      (set_prev (head_or ys none) (some l) (put f l (entered f q l xs ys)))

abbrev bypass_form : (ℕ → Link) → List ℕ → List ℕ → ℕ → Link
bypass_form f xs ys =
    set_prev (head_or ys none) (last_or none xs) (set_next (last_or none xs) (head_or ys none) f)

abbrev unlink_form : (ℕ → Link) → List ℕ → List ℕ → ℕ → Link
unlink_form f xs ys =
    set_next (last_or none xs) (head_or ys none) (set_prev (head_or ys none) (last_or none xs) f)

module _ (f : ℕ → Link) (q : ℕ) {l : ℕ} {xs ys : List ℕ} (b : IsBetween l xs ys) where
  link_after_lem :
      next_of (last_or none xs) f ≡ head_or ys none
      → link_after q (last_or none xs) l f ≡ after_form f q l xs ys
  unfolding link_after
  link_after_lem at =
      let g = put f l (entered f q l xs ys) in
      let hl = step_next-ne b g (some l) ∙ put_self f l (entered f q l xs ys) in
      rw (at, ap (λ w. w.next) hl)

  link_before_lem :
      prev_of (head_or ys none) f ≡ last_or none xs
      → link_before q (head_or ys none) l f ≡ before_form f q l xs ys
  unfolding link_before
  link_before_lem at =
      let g = put f l (entered f q l xs ys) in
      let hl = step_prev-ne b g (some l) ∙ put_self f l (entered f q l xs ys) in
      rw (at, ap (λ w. w.prev) hl)

module _ (f : ℕ → Link) {l : ℕ} {xs ys : List ℕ} (b : IsBetween l xs ys)
    (prev : (f l).prev ≡ last_or none xs) (next : (f l).next ≡ head_or ys none) where
  bypass_lem : bypass l f ≡ bypass_form f xs ys
  unfolding bypass
  bypass_lem =
      let gl = step_next-ne b f (head_or ys none) in
      rw (prev, next, ap (λ w. w.next) gl ∙ next, ap (λ w. w.prev) gl ∙ prev)

  unlink_lem : unlink l f ≡ unlink_form f xs ys
  unfolding unlink
  unlink_lem =
      let gl = step_prev-ne b f (last_or none xs) in
      rw (prev, next, ap (λ w. w.next) gl ∙ next, ap (λ w. w.prev) gl ∙ prev)

module _ (f : ℕ → Link) (q : ℕ) {l : ℕ} {xs ys : List ℕ} (b : IsBetween l xs ys) where
  -- AQueueInsertAfter and AQueueInsertBefore put the link between two parts of a queue.
  pub link_after-Seg :
      next_of (last_or none xs) f ≡ head_or ys none
      → Seg f q none (xs ++ ys) none
      → Seg (link_after q (last_or none xs) l f) q none (xs ++ (l ∷ ys)) none
  link_after-Seg at s =
      let (left, right) = Seg-split f q none xs ys none s in
      let v = entered f q l xs ys in
      let h = set_next (last_or none xs) (some l) (put f l v) in
      let p = step_next b _ (some l) (step_put b f v (record { left = left; right = right })) in
      let kl = step_prev-ne b h (some l) ∙ step_next-ne b _ (some l) ∙ put_self f l v in
      rw (link_after_lem f q b at)
        (join_with _ q l xs ys kl refl refl refl (step_prev b h (some l) p))

  pub link_before-Seg :
      prev_of (head_or ys none) f ≡ last_or none xs
      → Seg f q none (xs ++ ys) none
      → Seg (link_before q (head_or ys none) l f) q none (xs ++ (l ∷ ys)) none
  link_before-Seg at s =
      let (left, right) = Seg-split f q none xs ys none s in
      let v = entered f q l xs ys in
      let h = set_prev (head_or ys none) (some l) (put f l v) in
      let p = step_prev b _ (some l) (step_put b f v (record { left = left; right = right })) in
      let kl = step_next-ne b h (some l) ∙ step_prev-ne b _ (some l) ∙ put_self f l v in
      rw (link_before_lem f q b at)
        (join_with _ q l xs ys kl refl refl refl (step_next b h (some l) p))

  -- The neighbours of a link in a queue.
  pub neighbours :
      Seg f q none (xs ++ (l ∷ ys)) none
      → AreParts f q xs ys (some l) (some l)
        × ((f l).prev ≡ last_or none xs)
        × ((f l).next ≡ head_or ys none)
        × ((f l).queue ≡ some q)
  neighbours s =
      let (left, right) = Seg-split f q none xs (l ∷ ys) none s in
      (record { left = left; right = right.3 }, right.0, right.1, right.2)

  -- AQueueRemove and AQueueAllocLink close the list around the link, and leave the link as it is.
  pub bypass-Seg :
      Seg f q none (xs ++ (l ∷ ys)) none
      → Seg (bypass l f) q none (xs ++ ys) none × (bypass l f l ≡ f l)
  bypass-Seg s =
      let (p, prev, next, _) = neighbours s in
      let p' =
        step_prev b (set_next (last_or none xs) (head_or ys none) f) (last_or none xs)
          (step_next b f (head_or ys none) p) in
      let same =
        step_prev-ne b (set_next (last_or none xs) (head_or ys none) f) (last_or none xs)
        ∙ step_next-ne b f (head_or ys none) in
      let all : Seg (bypass_form f xs ys) q none (xs ++ ys) none × (bypass_form f xs ys l ≡ f l) =
        (Seg-join (bypass_form f xs ys) q none xs ys none p'.left p'.right, same) in
      rw (bypass_lem f b prev next) all

  -- AQueueMoveAfter does the same in the other order.
  pub unlink-Seg :
      Seg f q none (xs ++ (l ∷ ys)) none
      → Seg (unlink l f) q none (xs ++ ys) none × (unlink l f l ≡ f l)
  unlink-Seg s =
      let (p, prev, next, _) = neighbours s in
      let p' =
        step_next b (set_prev (head_or ys none) (last_or none xs) f) (head_or ys none)
          (step_prev b f (last_or none xs) p) in
      let same =
        step_next-ne b (set_prev (head_or ys none) (last_or none xs) f) (head_or ys none)
        ∙ step_prev-ne b f (last_or none xs) in
      let all : Seg (unlink_form f xs ys) q none (xs ++ ys) none × (unlink_form f xs ys l ≡ f l) =
        (Seg-join (unlink_form f xs ys) q none xs ys none p'.left p'.right, same) in
      rw (unlink_lem f b prev next) all

-- A segment that neither the link nor its queue is in stays.
module _ {l : ℕ} {xs ys : List ℕ} (b : IsBetween l xs ys) (f : ℕ → Link) (r : ℕ) (zs : List ℕ)
    (above : AreApart xs zs) (below : AreApart zs ys) (s : Seg f r none zs none) where
  pub link_after_frame :
      (q : ℕ)
      → next_of (last_or none xs) f ≡ head_or ys none
      → NotIn l zs
      → Seg (link_after q (last_or none xs) l f) r none zs none
  link_after_frame q at out =
      let t = Seg-put f r none zs none l (entered f q l xs ys) out s in
      let t' = Seg-set_next _ r none zs none _ (some l) (Avoids-last xs zs above) t in
      rw (link_after_lem f q b at)
        (Seg-set_prev _ r none zs none _ (some l) (Avoids-head zs ys below) t')

  pub link_before_frame :
      (q : ℕ)
      → prev_of (head_or ys none) f ≡ last_or none xs
      → NotIn l zs
      → Seg (link_before q (head_or ys none) l f) r none zs none
  link_before_frame q at out =
      let t = Seg-put f r none zs none l (entered f q l xs ys) out s in
      let t' = Seg-set_prev _ r none zs none _ (some l) (Avoids-head zs ys below) t in
      rw (link_before_lem f q b at)
        (Seg-set_next _ r none zs none _ (some l) (Avoids-last xs zs above) t')

  module _ (q : ℕ) (t : Seg f q none (xs ++ (l ∷ ys)) none) where
    pub bypass_frame : Seg (bypass l f) r none zs none
    bypass_frame =
        let (_, prev, next, _) = neighbours f q b t in
        let u = Seg-set_next f r none zs none _ (head_or ys none) (Avoids-last xs zs above) s in
        rw (bypass_lem f b prev next)
          (Seg-set_prev _ r none zs none _ (last_or none xs) (Avoids-head zs ys below) u)

    pub unlink_frame : Seg (unlink l f) r none zs none
    unlink_frame =
        let (_, prev, next, _) = neighbours f q b t in
        let u = Seg-set_prev f r none zs none _ (last_or none xs) (Avoids-head zs ys below) s in
        rw (unlink_lem f b prev next)
          (Seg-set_next _ r none zs none _ (head_or ys none) (Avoids-last xs zs above) u)
