-- ===== src/Queue/Splice.antt =====
-- A link goes into a doubly linked segment, or out of it: the assignments of flat/os/queue.c to links.
use os_lab.Prelude.{ℕ, ◌≡◌, ◌≢◌, refl, sym, ◌∙◌, none, some, List, [], ◌∷◌, ◌++◌}
use os_lab.Queue.{Ptr, Link, set_next, set_prev}
use os_lab.Queue.Seg.{head_or, last_or, Seg, NotIn, Avoids, IsDistinct, AreApart, put-ne}

pub head_or-append :
    (xs ys : List ℕ) (end : Ptr) → head_or (xs ++ ys) end ≡ head_or xs (head_or ys end)
head_or-append [] ys end = refl
head_or-append (x ∷ xs) ys end = refl

pub Seg-split :
    (f : ℕ → Link) (q : ℕ) (before : Ptr) (xs ys : List ℕ) (end : Ptr)
    → Seg f q before (xs ++ ys) end
    → Seg f q before xs (head_or ys end) × Seg f q (last_or before xs) ys end
Seg-split f q before [] ys end s = (tt, s)
Seg-split f q before (x ∷ xs) ys end s =
    let (left, right) = Seg-split f q (some x) xs ys end s.3 in
    ((s.0, s.1 ∙ head_or-append xs ys end, s.2, left), right)

pub Seg-join :
    (f : ℕ → Link) (q : ℕ) (before : Ptr) (xs ys : List ℕ) (end : Ptr)
    → Seg f q before xs (head_or ys end)
    → Seg f q (last_or before xs) ys end
    → Seg f q before (xs ++ ys) end
Seg-join f q before [] ys end s t = t
Seg-join f q before (x ∷ xs) ys end s t =
    (s.0, s.1 ∙ sym (head_or-append xs ys end), s.2, Seg-join f q (some x) xs ys end s.3 t)

-- A link that lies between two lists, all of them different.
pub record IsBetween (l : ℕ) (xs ys : List ℕ) : Type 0 where
  pub left : IsDistinct xs
  pub right : IsDistinct ys
  pub apart : AreApart xs ys
  pub not_left : NotIn l xs
  pub not_right : NotIn l ys

pub NotIn-append : (a : ℕ) (xs ys : List ℕ) → NotIn a (xs ++ ys) → NotIn a xs × NotIn a ys
NotIn-append a [] ys out = (tt, out)
NotIn-append a (x ∷ xs) ys out = let (l, r) = NotIn-append a xs ys out.1 in ((out.0, l), r)

append-NotIn : (a : ℕ) (xs ys : List ℕ) → NotIn a xs → NotIn a ys → NotIn a (xs ++ ys)
append-NotIn a [] ys l r = r
append-NotIn a (x ∷ xs) ys l r = (l.0, append-NotIn a xs ys l.1 r)

IsDistinct-append :
    (xs ys : List ℕ) → IsDistinct (xs ++ ys) → IsDistinct xs × IsDistinct ys × AreApart xs ys
IsDistinct-append [] ys d = (tt, d, tt)
IsDistinct-append (x ∷ xs) ys d =
    let (l, r) = NotIn-append x xs ys d.0 in
    let (dl, dr, apart) = IsDistinct-append xs ys d.1 in ((l, dl), dr, (r, apart))

append-IsDistinct :
    (xs ys : List ℕ) → IsDistinct xs → IsDistinct ys → AreApart xs ys → IsDistinct (xs ++ ys)
append-IsDistinct [] ys l r apart = r
append-IsDistinct (x ∷ xs) ys l r apart =
    (append-NotIn x xs ys l.0 apart.0, append-IsDistinct xs ys l.1 r apart.1)

AreApart-cons : (y : ℕ) (xs ys : List ℕ) → AreApart xs (y ∷ ys) → NotIn y xs × AreApart xs ys
AreApart-cons y [] ys apart = (tt, tt)
AreApart-cons y (x ∷ xs) ys apart =
    let (out, rest) = AreApart-cons y xs ys apart.1 in
    ((λ e. apart.0.0 (sym e), out), (apart.0.1, rest))

cons-AreApart : (y : ℕ) (xs ys : List ℕ) → NotIn y xs → AreApart xs ys → AreApart xs (y ∷ ys)
cons-AreApart y [] ys out apart = tt
cons-AreApart y (x ∷ xs) ys out apart =
    ((λ e. out.0 (sym e), apart.0), cons-AreApart y xs ys out.1 apart.1)

-- The same facts, read off a list with the link and off one without it.
pub IsBetween-of_with : (l : ℕ) (xs ys : List ℕ) → IsDistinct (xs ++ (l ∷ ys)) → IsBetween l xs ys
IsBetween-of_with l xs ys d =
    let (left, right, apart) = IsDistinct-append xs (l ∷ ys) d in
    let (out, rest) = AreApart-cons l xs ys apart in
    record { left = left; right = right.1; apart = rest; not_left = out; not_right = right.0 }

pub IsBetween-of_without :
    (l : ℕ) (xs ys : List ℕ) → IsDistinct (xs ++ ys) → NotIn l (xs ++ ys) → IsBetween l xs ys
IsBetween-of_without l xs ys d out =
    let (left, right, apart) = IsDistinct-append xs ys d in
    let (not_left, not_right) = NotIn-append l xs ys out in
    record { left = left; right = right; apart = apart; not_left = not_left; not_right = not_right }

pub IsBetween-IsDistinct :
    {l : ℕ} {xs ys : List ℕ}
    → IsBetween l xs ys
    → IsDistinct (xs ++ (l ∷ ys)) × IsDistinct (xs ++ ys) × NotIn l (xs ++ ys)
IsBetween-IsDistinct {l} {xs} {ys} b = (
  append-IsDistinct xs (l ∷ ys) b.left (b.not_right, b.right)
      (cons-AreApart l xs ys b.not_left b.apart),
  append-IsDistinct xs ys b.left b.right b.apart,
  append-NotIn l xs ys b.not_left b.not_right,
)

pub Avoids-last : (xs ys : List ℕ) → AreApart xs ys → Avoids (last_or none xs) ys
Avoids-last [] ys apart = tt
Avoids-last (x ∷ []) ys apart = apart.0
Avoids-last (x ∷ w ∷ xs) ys apart = Avoids-last (w ∷ xs) ys apart.1

pub Avoids-head : (xs ys : List ℕ) → AreApart xs ys → Avoids (head_or ys none) xs
Avoids-head xs [] apart = tt
Avoids-head xs (y ∷ ys) apart = (AreApart-cons y xs ys apart).0

-- A pointer does not lead to `l`.
abbrev pub Misses : ℕ → Ptr → Type 0
Misses l none = Unit {0}
Misses l (some a) = a ≢ l

pub Misses-last : (l : ℕ) (xs : List ℕ) → NotIn l xs → Misses l (last_or none xs)
Misses-last l [] out = tt
Misses-last l (x ∷ []) out = λ e. out.0 (sym e)
Misses-last l (x ∷ w ∷ xs) out = Misses-last l (w ∷ xs) out.1

pub Misses-head : (l : ℕ) (ys : List ℕ) → NotIn l ys → Misses l (head_or ys none)
Misses-head l [] out = tt
Misses-head l (y ∷ ys) out = λ e. out.0 (sym e)

pub set_next-ne : (p v : Ptr) (f : ℕ → Link) (l : ℕ) → Misses l p → set_next p v f l ≡ f l
unfolding set_next
set_next-ne none v f l h = refl
set_next-ne (some a) v f l h = put-ne f a l (record (f a) { next = v }) h

pub set_prev-ne : (p v : Ptr) (f : ℕ → Link) (l : ℕ) → Misses l p → set_prev p v f l ≡ f l
unfolding set_prev
set_prev-ne none v f l h = refl
set_prev-ne (some a) v f l h = put-ne f a l (record (f a) { prev = v }) h
