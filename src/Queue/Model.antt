-- ===== src/Queue/Model.antt =====
-- What the queues of flat/os/queue.c stand for: each queue is a list of links, and no link is on two.
use os_lab.Prelude.{
  ℕ, ◌+◌, ◌≡◌, ◌≢◌, refl, ap, sym, ◌∙◌, subst, none, some, List, [], ◌∷◌, ◌++◌, if◌then◌else◌,
  length, length-append, arith, ℕ_discrete, ne→==, ==_refl,
}
use os_lab.Queue.{Ptr, Link, Queue, Store, put, same}
use os_lab.Queue.Seg.{head_or, last_or, Seg, NotIn, IsDistinct, AreApart, put-ne, put_self, last-ne}

-- The queue's own fields and its links agree with the list `xs`.
pub record Holds (d : Queue) (f : ℕ → Link) (q : ℕ) (xs : List ℕ) : Type 0 where
  pub first : d.first ≡ head_or xs none
  pub last : d.last ≡ last_or none xs
  pub nitems : d.nitems ≡ length xs
  pub seg : Seg f q none xs none
  pub distinct : IsDistinct xs

-- All queues of the system, queue `q` as the list `m q`.
abbrev pub Models : Store → (ℕ → List ℕ) → Type 0
Models s m = (q : ℕ) → Holds (s.queues q) s.links q (m q)

pub Holds-Seg :
    {d : Queue} {f g : ℕ → Link} {q : ℕ} {xs : List ℕ}
    → Holds d f q xs
    → Seg g q none xs none
    → Holds d g q xs
Holds-Seg h s = record {
  first = h.first;
  last = h.last;
  nitems = h.nitems;
  seg = s;
  distinct = h.distinct;
}

-- One queue gets new fields; the others hold what they should.
pub place-Models :
    (s : Store) (m : ℕ → List ℕ) (q : ℕ) (d : Queue) (g : ℕ → Link) (xs : List ℕ)
    → Holds d g q xs
    → ((r : ℕ) → q ≢ r → Holds (s.queues r) g r (m r))
    → Models (record { links = g; queues = put s.queues q d }) (put m q xs)
place-Models s m q d g xs h others r = elim (ℕ_discrete q r) [
  | yes e ↦
      let at : Holds (put s.queues q d q) g q (put m q xs q) =
        rw (put_self s.queues q d, put_self m q xs) h in
      subst (λ k. Holds (put s.queues q d k) g k (put m q xs k)) e at
  | no ne ↦ rw (put-ne s.queues q r d ne, put-ne m q r xs ne) (others r ne)
]

-- A change of one queue that leaves the others' links.
pub Models-put :
    {s : Store} {m : ℕ → List ℕ} (h : Models s m) (q : ℕ) (d : Queue) (g : ℕ → Link) (xs : List ℕ)
    → Holds d g q xs
    → ((r : ℕ) → q ≢ r → Seg g r none (m r) none)
    → Models (record { links = g; queues = put s.queues q d }) (put m q xs)
Models-put {s} {m} models q d g xs h others =
    place-Models s m q d g xs h (λ r ne. Holds-Seg (models r) (others r ne))

-- A link of one queue is on no other.
pub NotIn-other :
    (f : ℕ → Link) (a r : ℕ) (before : Ptr) (zs : List ℕ) (end : Ptr)
    → (f a).queue ≢ some r
    → Seg f r before zs end
    → NotIn a zs
NotIn-other f a r before [] end h s = tt
NotIn-other f a r before (z ∷ zs) end h s =
    ((λ e. h (ap (λ k. (f k).queue) e ∙ s.2)), NotIn-other f a r (some z) zs end h s.3)

pub AreApart-other :
    (f : ℕ → Link) (q r : ℕ) (before : Ptr) (xs : List ℕ) (end : Ptr) (zs : List ℕ)
    → q ≢ r
    → Seg f q before xs end
    → Seg f r none zs none
    → AreApart xs zs
AreApart-other f q r before [] end zs h s t = tt
AreApart-other f q r before (x ∷ xs) end zs h s t =
    let away : (f x).queue ≢ some r = λ e. h (cc) in
    (NotIn-other f x r none zs none away t, AreApart-other f q r (some x) xs end zs h s.3 t)

AreApart-nil : (xs : List ℕ) → AreApart xs []
AreApart-nil [] = tt
AreApart-nil (x ∷ xs) = (tt, AreApart-nil xs)

AreApart-snoc : (y : ℕ) (xs ys : List ℕ) → NotIn y xs → AreApart xs ys → AreApart xs (y ∷ ys)
AreApart-snoc y [] ys out apart = tt
AreApart-snoc y (x ∷ xs) ys out apart =
    (((λ e. out.0 (sym e)), apart.0), AreApart-snoc y xs ys out.1 apart.1)

pub AreApart-sym : (xs ys : List ℕ) → AreApart xs ys → AreApart ys xs
AreApart-sym [] ys apart = AreApart-nil ys
AreApart-sym (x ∷ xs) ys apart = AreApart-snoc x ys xs apart.0 (AreApart-sym xs ys apart.1)

-- The tests of the code that move an end of a queue away from a link, or to it.
pub pick_head :
    (l : ℕ) (xs : List ℕ) (v : Ptr)
    → NotIn l xs
    → (if same (head_or xs (some l)) (some l) then v else head_or xs (some l)) ≡ head_or xs v
pick_head l [] v out = rw (==_refl l)
pick_head l (x ∷ xs) v out = rw (ne→== x l (λ e. out.0 (sym e)))

pub pick_last :
    (l : ℕ) (ys : List ℕ) (v : Ptr)
    → NotIn l ys
    → (if same (last_or (some l) ys) (some l) then v else last_or (some l) ys) ≡ last_or v ys
pick_last l [] v out = rw (==_refl l)
pick_last l (y ∷ ys) v out =
    let (z, last, other) = last-ne l y ys out in rw (last, ne→== z l (λ e. other (sym e)))

pub last_or-append :
    (before : Ptr) (xs ys : List ℕ) → last_or before (xs ++ ys) ≡ last_or (last_or before xs) ys
last_or-append before [] ys = refl
last_or-append before (x ∷ xs) ys = last_or-append (some x) xs ys

-- The last link of a queue that has one, and that it knows its queue.
pub last_some :
    (f : ℕ → Link) (q : ℕ) (before : Ptr) (x : ℕ) (xs : List ℕ) (end : Ptr)
    → Seg f q before (x ∷ xs) end
    → (a : ℕ) × (last_or (some x) xs ≡ some a) × ((f a).queue ≡ some q)
last_some f q before x [] end s = (x, refl, s.2)
last_some f q before x (y ∷ xs) end s = last_some f q (some x) y xs end s.3

pub length_cons : (xs ys : List ℕ) (l : ℕ) → length (xs ++ (l ∷ ys)) ≡ length (xs ++ ys) + 1
length_cons xs ys l = omega (arith, length-append xs ys, length-append xs (l ∷ ys))
