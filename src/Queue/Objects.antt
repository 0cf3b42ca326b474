-- ===== src/Queue/Objects.antt =====
-- The operations of flat/os/queue.c move links and leave what they hold.
use os_lab.Prelude.{ℕ, ◌≡◌, refl, ◌∙◌, none, some, ℕ_discrete, arith}
use os_lab.Queue.{
  Ptr, Link, Store, put, set_next, set_prev, bypass, unlink, relink, link_after, link_before,
}

abbrev pub SameObjects : Store → Store → Type 0
SameObjects s t = (k : ℕ) → (t.links k).object ≡ (s.links k).object

-- A link is given the object that it has.
put-object :
    (f : ℕ → Link) (i : ℕ) (v : Link)
    → v.object ≡ (f i).object
    → (k : ℕ) → (put f i v k).object ≡ (f k).object
put-object f i v h k = elim (ℕ_discrete k i) [ yes e ↦ ground arith | no ne ↦ ground arith ]

set_next-object : (p v : Ptr) (f : ℕ → Link) (k : ℕ) → (set_next p v f k).object ≡ (f k).object
unfolding set_next
set_next-object none v f k = refl
set_next-object (some i) v f k = put-object f i _ refl k

set_prev-object : (p v : Ptr) (f : ℕ → Link) (k : ℕ) → (set_prev p v f k).object ≡ (f k).object
unfolding set_prev
set_prev-object none v f k = refl
set_prev-object (some i) v f k = put-object f i _ refl k

pub link_after-object :
    (q : ℕ) (after : Ptr) (l : ℕ) (f : ℕ → Link) (k : ℕ)
    → (link_after q after l f k).object ≡ (f k).object
unfolding link_after
link_after-object q after l f k =
    set_prev-object _ _ _ k ∙ set_next-object _ _ _ k ∙ put-object f l _ refl k

pub link_before-object :
    (q : ℕ) (before : Ptr) (l : ℕ) (f : ℕ → Link) (k : ℕ)
    → (link_before q before l f k).object ≡ (f k).object
unfolding link_before
link_before-object q before l f k =
    set_next-object _ _ _ k ∙ set_prev-object _ _ _ k ∙ put-object f l _ refl k

pub bypass-object : (l : ℕ) (f : ℕ → Link) (k : ℕ) → (bypass l f k).object ≡ (f k).object
unfolding bypass
bypass-object l f k = set_prev-object _ _ _ k ∙ set_next-object _ _ f k

unlink-object : (l : ℕ) (f : ℕ → Link) (k : ℕ) → (unlink l f k).object ≡ (f k).object
unfolding unlink
unlink-object l f k = set_next-object _ _ _ k ∙ set_prev-object _ _ f k

pub relink-object : (a l : ℕ) (f : ℕ → Link) (k : ℕ) → (relink a l f k).object ≡ (f k).object
unfolding relink
relink-object a l f k =
    set_prev-object _ _ _ k
    ∙ set_next-object _ _ _ k
    ∙ put-object (unlink l f) l _ refl k
    ∙ unlink-object l f k
