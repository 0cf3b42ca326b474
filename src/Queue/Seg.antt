-- ===== src/Queue/Seg.antt =====
-- Doubly linked segments: the links that the `next` and `prev` pointers of a queue lead through.
use os_lab.Prelude.{ℕ, ◌≡◌, ◌≢◌, refl, sym, none, some, List, [], ◌∷◌, ne→==, ==_refl}
use os_lab.Queue.{Ptr, Link, put, set_next, set_prev}

-- The first link of a list, or else what follows the list; and the last, or what stands before.
abbrev pub head_or : List ℕ → Ptr → Ptr
head_or [] end = end
head_or (x ∷ xs) end = some x

abbrev pub last_or : Ptr → List ℕ → Ptr
last_or before [] = before
last_or before (x ∷ xs) = last_or (some x) xs

-- Through the links `xs` of queue `q`, from the one before them to the one behind them.
abbrev pub Seg : (ℕ → Link) → ℕ → Ptr → List ℕ → Ptr → Type 0
Seg f q before [] end = Unit {0}
Seg f q before (x ∷ xs) end =
    ((f x).prev ≡ before)
    × ((f x).next ≡ head_or xs end)
    × ((f x).queue ≡ some q)
    × Seg f q (some x) xs end

abbrev pub NotIn : ℕ → List ℕ → Type 0
NotIn a [] = Unit {0}
NotIn a (x ∷ xs) = (a ≢ x) × NotIn a xs

-- What a pointer leads to is not in the list.
abbrev pub Avoids : Ptr → List ℕ → Type 0
Avoids none xs = Unit {0}
Avoids (some a) xs = NotIn a xs

abbrev pub IsDistinct : List ℕ → Type 0
IsDistinct [] = Unit {0}
IsDistinct (x ∷ xs) = NotIn x xs × IsDistinct xs

abbrev pub AreApart : List ℕ → List ℕ → Type 0
AreApart [] ys = Unit {0}
AreApart (x ∷ xs) ys = NotIn x ys × AreApart xs ys

pub put-ne : {A : Type 0} (f : ℕ → A) (i j : ℕ) (v : A) → i ≢ j → put f i v j ≡ f j
put-ne f i j v h = rw (ne→== j i (λ e. h (sym e)))

pub put_self : {A : Type 0} (f : ℕ → A) (i : ℕ) (v : A) → put f i v i ≡ v
put_self f i v = rw (==_refl i)

-- A change of a link outside a segment leaves it.
pub Seg-put :
    (f : ℕ → Link) (q : ℕ) (before : Ptr) (xs : List ℕ) (end : Ptr) (a : ℕ) (v : Link)
    → NotIn a xs
    → Seg f q before xs end
    → Seg (put f a v) q before xs end
Seg-put f q before [] end a v out s = tt
Seg-put f q before (x ∷ xs) end a v out s =
    rw (put-ne f a x v out.0) (s.0, s.1, s.2, Seg-put f q (some x) xs end a v out.1 s.3)

pub Seg-set_next :
    (f : ℕ → Link) (q : ℕ) (before : Ptr) (xs : List ℕ) (end p v : Ptr)
    → Avoids p xs
    → Seg f q before xs end
    → Seg (set_next p v f) q before xs end
unfolding set_next
Seg-set_next f q before xs end none v out s = s
Seg-set_next f q before xs end (some a) v out s = Seg-put f q before xs end a _ out s

pub Seg-set_prev :
    (f : ℕ → Link) (q : ℕ) (before : Ptr) (xs : List ℕ) (end p v : Ptr)
    → Avoids p xs
    → Seg f q before xs end
    → Seg (set_prev p v f) q before xs end
unfolding set_prev
Seg-set_prev f q before xs end none v out s = s
Seg-set_prev f q before xs end (some a) v out s = Seg-put f q before xs end a _ out s

-- The last link of a list is another one than what the list does not have.
pub last-ne :
    (x y : ℕ) (ys : List ℕ) → NotIn x (y ∷ ys) → (z : ℕ) × (last_or (some y) ys ≡ some z) × (x ≢ z)
last-ne x y [] out = (y, refl, out.0)
last-ne x y (w ∷ ys) out = last-ne x w ys out.1

-- The end of a segment is moved by assigning the `next` of its last link.
pub Seg-set_next_last :
    (f : ℕ → Link) (q : ℕ) (before : Ptr) (xs : List ℕ) (end v : Ptr)
    → IsDistinct xs
    → Seg f q before xs end
    → Seg (set_next (last_or none xs) v f) q before xs v
unfolding set_next
Seg-set_next_last f q before [] end v d s = tt
Seg-set_next_last f q before (x ∷ []) end v d s =
    rw (put_self f x (record (f x) { next = v })) (s.0, refl, s.2, tt)
Seg-set_next_last f q before (x ∷ y ∷ ys) end v d s =
    let (z, last, other) = last-ne x y ys d.0 in
    let rest = Seg-set_next_last f q (some x) (y ∷ ys) end v d.1 s.3 in
    let rest' = rw last at rest in
    rw (last, put-ne f z x (record (f z) { next = v }) (λ e. other (sym e))) (s.0, s.1, s.2, rest')

-- The beginning is moved by assigning the `prev` of its first link.
pub Seg-set_prev_head :
    (f : ℕ → Link) (q : ℕ) (before : Ptr) (xs : List ℕ) (end v : Ptr)
    → IsDistinct xs
    → Seg f q before xs end
    → Seg (set_prev (head_or xs none) v f) q v xs end
unfolding set_prev
Seg-set_prev_head f q before [] end v d s = tt
Seg-set_prev_head f q before (x ∷ xs) end v d s =
    let rest = Seg-put f q (some x) xs end x (record (f x) { prev = v }) d.0 s.3 in
    rw (put_self f x (record (f x) { prev = v })) (refl, s.1, s.2, rest)
