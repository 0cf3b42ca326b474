-- ===== src/Queue/Move.antt =====
-- AQueueMoveAfter of flat/os/queue.c moves a link inside its queue.
use os_lab.Prelude.{
  ℕ, ◌+◌, ◌≡◌, ◌≢◌, ◌<◌, refl, ap, sym, ◌∙◌, subst, none, some, List, [], ◌∷◌, ◌++◌, if◌then◌else◌,
  length, arith, ==_refl, ne→==,
}
use mathlib.Core.List.{append-nil}
use os_lab.Prelude.Word.{word_mod, sub32}
use os_lab.Os.{ok}
use os_lab.Queue.{
  Ptr, Link, Queue, Store, put, same, set_next, set_prev, set_links, queue_success, unlink, relink,
  link_after, move_ends, move_after, queue_move_after, queue_first, queue_last, next_of,
}
use os_lab.Queue.Seg.{head_or, last_or, Seg, NotIn, put-ne, put_self, last-ne}
use os_lab.Queue.Splice.{
  head_or-append, IsBetween, IsBetween-of_with, IsBetween-of_without, IsBetween-IsDistinct,
  Seg-split, Misses, Misses-last, NotIn-append,
}
use os_lab.Queue.Relink.{neighbours, unlink-Seg, unlink_frame, link_after-Seg, next_of_last}
use os_lab.Queue.Objects.{SameObjects, relink-object}
use os_lab.Queue.Model.{
  Holds, Models, Models-put, AreApart-other, AreApart-sym, pick_head, last_or-append, last_some,
  length_cons,
}
use os_lab.Queue.Insert.{after_Holds, others_after}
use os_lab.Queue.Remove.{some_inj, put_same, put-NotIn, AreShort}

-- Pointers move, the other fields stay.
set_next-queue : (p v : Ptr) (f : ℕ → Link) (k : ℕ) → (set_next p v f k).queue ≡ (f k).queue
unfolding set_next
set_next-queue none v f k = refl
set_next-queue (some i) v f k = ground arith

set_prev-queue : (p v : Ptr) (f : ℕ → Link) (k : ℕ) → (set_prev p v f k).queue ≡ (f k).queue
unfolding set_prev
set_prev-queue none v f k = refl
set_prev-queue (some i) v f k = ground arith

unlink-queue : (l : ℕ) (f : ℕ → Link) (k : ℕ) → (unlink l f k).queue ≡ (f k).queue
unfolding unlink
unlink-queue l f k = set_next-queue _ _ _ k ∙ set_prev-queue _ _ f k

-- The link goes in behind `a` as AQueueInsertAfter would put it.
relink-link_after :
    (q a l : ℕ) (f : ℕ → Link)
    → (unlink l f l).queue ≡ some q
    → relink a l f ≡ link_after q (some a) l (unlink l f)
unfolding relink link_after
relink-link_after q a l f e =
    let h = unlink l f in
    let linked : Ptr → ℕ → Link = λ p.
      let k =
        put h l (record { next = (h a).next; prev = some a; queue = p; object = (h l).object }) in
      let m = set_next (some a) (some l) k in set_prev (m l).next (some l) m in
    ap linked e

-- The queue while the link is out of it.
abbrev left_behind : Queue → ℕ → Link → Queue
left_behind d l k = record d {
  first = if same d.first (some l) then k.next else d.first;
  nitems = sub32 d.nitems 1;
}

abbrev unlinked : ℕ → ℕ → Store → Store
unlinked q l s = record {
  links = unlink l s.links;
  queues = put s.queues q (left_behind (s.queues q) l (s.links l));
}

module _ {s : Store} {m : ℕ → List ℕ} (h : Models s m) (short : AreShort m) (q l : ℕ) (xs : List ℕ)
    (y : ℕ) (ys : List ℕ) (at : m q ≡ xs ++ (l ∷ y ∷ ys)) where
  here : Holds (s.queues q) s.links q (xs ++ (l ∷ y ∷ ys))
  here = subst (λ zs. Holds (s.queues q) s.links q zs) at (h q)

  between : IsBetween l xs (y ∷ ys)
  between = IsBetween-of_with l xs (y ∷ ys) here.distinct

  fits : length (xs ++ (l ∷ y ∷ ys)) < word_mod
  fits = let e : length (m q) ≡ length (xs ++ (l ∷ y ∷ ys)) = ap length at in omega (arith, short q)

  -- The last link is not the one that moves.
  not_last : (z : ℕ) × ((s.queues q).last ≡ some z) × (l ≢ z)
  not_last =
      let (z, last, other) = last-ne l y ys between.not_right in
      (z, here.last ∙ last_or-append none xs (l ∷ y ∷ ys) ∙ last, other)

  left_Holds : Holds (left_behind (s.queues q) l (s.links l)) (unlink l s.links) q (xs ++ (y ∷ ys))
  left_Holds =
      let (_, prev, next, _) = neighbours s.links q between here.seg in
      let top : (s.queues q).first ≡ head_or xs (some l) =
        here.first ∙ head_or-append xs (l ∷ y ∷ ys) none in
      record {
        first =
            rw (top, next)
              (pick_head l xs (some y) between.not_left ∙ sym (head_or-append xs (y ∷ ys) none));
        last =
            here.last ∙ last_or-append none xs (l ∷ y ∷ ys) ∙ sym (last_or-append none xs (y ∷ ys));
        nitems = rw (here.nitems) (omega (arith, fits, length_cons xs (y ∷ ys) l));
        seg = (unlink-Seg s.links q between here.seg).0;
        distinct = (IsBetween-IsDistinct between).1;
      }

  unlinked-Models : Models (unlinked q l s) (put m q (xs ++ (y ∷ ys)))
  unlinked-Models =
      Models-put h q (left_behind (s.queues q) l (s.links l)) (unlink l s.links) (xs ++ (y ∷ ys))
        left_Holds
        (λ r ne.
          let (left, right) = Seg-split s.links q none xs (l ∷ y ∷ ys) none here.seg in
          unlink_frame between s.links r (m r)
            (AreApart-other s.links q r none xs _ (m r) ne left (h r).seg)
            (AreApart-sym (y ∷ ys) (m r)
              (AreApart-other s.links q r _ (y ∷ ys) none (m r) ne right.3 (h r).seg))
            (h r).seg q here.seg)

  module _ (a u : ℕ) (us vs : List ℕ) (rest : xs ++ (y ∷ ys) ≡ (u ∷ us) ++ vs)
      (end : last_or (some u) us ≡ some a) where
    split_Holds :
        Holds (left_behind (s.queues q) l (s.links l)) (unlink l s.links) q ((u ∷ us) ++ vs)
    split_Holds =
        subst (λ zs. Holds (left_behind (s.queues q) l (s.links l)) (unlink l s.links) q zs) rest
          left_Holds

    not_in : NotIn l ((u ∷ us) ++ vs)
    not_in = subst (λ zs. NotIn l zs) rest ((IsBetween-IsDistinct between).2)

    target :
        (a ≢ l)
        × ((s.links a).queue ≡ some q)
        × (next_of (some a) (unlink l s.links) ≡ head_or vs none)
    target =
        let (left, _) = Seg-split (unlink l s.links) q none (u ∷ us) vs none split_Holds.seg in
        let (z, last, mine) = last_some (unlink l s.links) q none u us _ left in
        let same : z ≡ a = some_inj (sym last ∙ end) in
        let out : Misses l (last_or none (u ∷ us)) =
          Misses-last l (u ∷ us) ((NotIn-append l (u ∷ us) vs not_in).0) in
        (
          subst (λ p. Misses l p) end out,
          sym (unlink-queue l s.links a)
              ∙ subst (λ k. (unlink l s.links k).queue ≡ some q) same mine,
          subst (λ p. next_of p (unlink l s.links) ≡ head_or vs none) end
              (next_of_last (unlink l s.links) q none u us _ left),
        )

    behind : IsBetween l (u ∷ us) vs
    behind = IsBetween-of_without l (u ∷ us) vs split_Holds.distinct not_in

    same_length : length ((u ∷ us) ++ (l ∷ vs)) ≡ length (xs ++ (l ∷ y ∷ ys))
    same_length =
        let e : length (xs ++ (y ∷ ys)) ≡ length ((u ∷ us) ++ vs) = ap length rest in
        omega (arith, e, length_cons xs (y ∷ ys) l, length_cons (u ∷ us) vs l)

    relinked : relink a l s.links ≡ link_after q (some a) l (unlink l s.links)
    relinked =
        let (_, _, _, mine) = neighbours s.links q between here.seg in
        relink-link_after q a l s.links (unlink-queue l s.links l ∙ mine)

    relink-Seg : Seg (relink a l s.links) q none ((u ∷ us) ++ (l ∷ vs)) none
    relink-Seg =
        let t =
          link_after-Seg (unlink l s.links) q behind
            (subst (λ p. next_of p (unlink l s.links) ≡ head_or vs none) (sym end) target.2)
            split_Holds.seg in
        subst (λ f. Seg f q none ((u ∷ us) ++ (l ∷ vs)) none) (sym relinked)
          (subst (λ p. Seg (link_after q p l (unlink l s.links)) q none ((u ∷ us) ++ (l ∷ vs)) none)
            end t)

    moved : Queue
    moved = record (s.queues q) {
      first = if same (s.queues q).first (some l) then (s.links l).next else (s.queues q).first;
      last = if same (s.queues q).last (some a) then some l else (s.queues q).last;
    }

    moved-Holds : Holds moved (relink a l s.links) q ((u ∷ us) ++ (l ∷ vs))
    unfolding moved
    moved-Holds =
        let room : length ((u ∷ us) ++ vs) + 1 < word_mod =
          omega (arith, fits, same_length, length_cons (u ∷ us) vs l) in
        let w =
          after_Holds {g = relink a l s.links} l a u us vs end behind room split_Holds relink-Seg in
        record {
          first = w.first;
          last = w.last;
          nitems = here.nitems ∙ sym same_length;
          seg = relink-Seg;
          distinct = w.distinct;
        }

    others : (r : ℕ) → q ≢ r → Seg (relink a l s.links) r none (m r) none
    others r ne =
        let m' = put m q (xs ++ (y ∷ ys)) in
        let same' : m' r ≡ m r = put-ne m q r (xs ++ (y ∷ ys)) ne in
        let (_, _, _, mine) = neighbours s.links q between here.seg in
        let fresh = put-NotIn h q l mine (xs ++ (y ∷ ys)) (IsBetween-IsDistinct between).2 in
        let t =
          others_after unlinked-Models q l (u ∷ us) vs (put_self m q (xs ++ (y ∷ ys)) ∙ rest) fresh
            r ne (subst (λ p. next_of p (unlink l s.links) ≡ head_or vs none) (sym end) target.2) in
        let t' = subst (λ p. Seg (link_after q p l (unlink l s.links)) r none (m' r) none) end t in
        subst (λ f. Seg f r none (m r) none) (sym relinked)
          (subst (λ zs. Seg (link_after q (some a) l (unlink l s.links)) r none zs none) same' t')

    -- AQueueMoveAfter of a link of the queue, not its last, behind another link of the queue succeeds: the
    -- queue's list loses the link and has it again right behind the other one. All other queues stay,
    -- and so do the links' objects.
    pub queue_move_after_lem :
        (s' : Store) × (queue_move_after (some q) (some a) (some l) s ≡ ok queue_success s')
        × Models s' (put m q ((u ∷ us) ++ (l ∷ vs)))
        × SameObjects s s'
    unfolding queue_move_after move_after moved
    queue_move_after_lem =
        let (_, _, _, mine) = neighbours s.links q between here.seg in
        let (differs, knows, _) = target in
        let (z, last, other) = not_last in
        (
          set_links (relink a l) (move_ends q a l s),
          rw (mine, knows, last, ==_refl q, ne→== a l differs, ne→== z l (λ e. other (sym e))),
          Models-put h q moved (relink a l s.links) ((u ∷ us) ++ (l ∷ vs)) moved-Holds others,
          relink-object a l s.links,
        )

module _ {s : Store} {m : ℕ → List ℕ} (h : Models s m) (short : AreShort m) (q l : ℕ) where
  -- ProcessSchedule's call of AQueueMoveAfter: the first link of a queue goes behind the last. The
  -- other queues stay, and so do the links' objects.
  pub queue_move_after-rotate :
      (xs : List ℕ)
      → m q ≡ l ∷ xs
      → (s' : Store) × (queue_move_after (some q) (queue_last q s) (queue_first q s) s
          ≡ ok queue_success s')
        × Models s' (put m q (xs ++ (l ∷ [])))
        × SameObjects s s'
  unfolding queue_move_after move_after
  queue_move_after-rotate [] at =
      let e = subst (λ zs. Holds (s.queues q) s.links q zs) at (h q) in
      (
        s,
        rw (e.first, e.last, e.seg.2, ==_refl q, ==_refl l),
        subst (λ n. Models s n) (put_same m q (l ∷ []) at) h,
        (λ k. refl),
      )
  queue_move_after-rotate (y ∷ ys) at =
      let e = subst (λ zs. Holds (s.queues q) s.links q zs) at (h q) in
      let (a, last, _) = last_some s.links q (some l) y ys none e.seg.3 in
      let (s', ran, models, same) =
        queue_move_after_lem h short q l [] y ys at a y ys [] (sym (append-nil (y ∷ ys))) last in
      (s', rw (e.first, e.last, last) ran, models, same)
