-- ===== src/Misc/Names.antt =====
-- What dstrncmp of flat/os/misc.c decides when it is called as DfsInodeFilenameExists calls it.
use os_lab.Prelude.{
  ℕ, zero, suc, ◌≡◌, ◌≢◌, ◌<◌, ◌≤◌, ◌↔◌, refl, ◌==◌, if◌then◌else◌, Bool, true, false, ◌&&◌, ◌||◌,
  some, List, [], ◌∷◌, ◌++◌, length, drop, arith, ℕ_discrete, ne→==,
}
use os_lab.Misc.{dstrlen, order_of, dstrncmp, dstrncpy}

-- The characters of a C string: those in front of the first NUL.
abbrev pub chars : List ℕ → List ℕ
chars [] = []
chars (c ∷ s) = if c == 0 then [] else c ∷ chars s

abbrev pub is_prefix : List ℕ → List ℕ → Bool
is_prefix [] ys = true
is_prefix (x ∷ xs) [] = false
is_prefix (x ∷ xs) (y ∷ ys) = (x == y) && is_prefix xs ys

-- A list without NUL.
abbrev pub IsText : List ℕ → Type 0
IsText [] = Unit {0}
IsText (c ∷ s) = (c ≢ 0) × IsText s

-- The C string of a text, with whatever lies behind it in memory.
pub dstrlen-text : (a r : List ℕ) → IsText a → dstrlen (a ++ (0 ∷ r)) ≡ some (length a)
unfolding dstrlen
dstrlen-text [] r t = refl
dstrlen-text (c ∷ a) r t = ground (arith, dstrlen-text a r t.1)

-- dstrncmp over the length of its first string says "equal" exactly when one of the two strings is a
-- prefix of the other. The first has no NUL before its length, and the second's buffer is at least
-- as long.
pub dstrncmp-prefix :
    (a r buffer : List ℕ)
    → IsText a
    → length a ≤ length buffer
    → (dstrncmp (a ++ (0 ∷ r)) buffer (length a) ≡ some 0)
      ↔ ((is_prefix a (chars buffer) || is_prefix (chars buffer) a) ≡ true)
unfolding dstrncmp
dstrncmp-prefix [] r buffer t h = ((λ _. refl), (λ _. refl))
dstrncmp-prefix (c ∷ a) r [] t h = absurd (omega arith)
dstrncmp-prefix (c ∷ a) r (d ∷ buffer) t h =
    ground (arith, dstrncmp-prefix a r buffer t.1 (omega arith))

-- dstrncpy of a text into a buffer with room for it and its NUL.
pub dstrncpy-text :
    (a r to : List ℕ) (n : ℕ)
    → IsText a
    → length a < length to
    → length a < n
    → (b : List ℕ) × (dstrncpy to (a ++ (0 ∷ r)) n ≡ some b)
      × (chars b ≡ a)
      × (length b ≡ length to)
unfolding dstrncpy
dstrncpy-text a r to zero t h k = absurd (omega arith)
dstrncpy-text [] r [] (suc n) t h k = absurd (omega arith)
dstrncpy-text [] r (x ∷ to) (suc n) t h k = (0 ∷ to, refl, refl, refl)
dstrncpy-text (c ∷ a) r [] (suc n) t h k = absurd (omega arith)
dstrncpy-text (c ∷ a) r (x ∷ to) (suc n) t h k =
    let (b, copied, same, len) = dstrncpy-text a r to n t.1 (omega arith) (omega arith) in
    (c ∷ b, ground arith, ground arith, omega arith)

-- The file system's notion of the same name: one of the two is a prefix of the other.
abbrev pub agree : List ℕ → List ℕ → Bool
agree a buffer = is_prefix a (chars buffer) || is_prefix (chars buffer) a

pub dstrncmp-agree :
    (a r buffer : List ℕ)
    → IsText a
    → length a ≤ length buffer
    → (v : ℕ) × (dstrncmp (a ++ (0 ∷ r)) buffer (length a) ≡ some v) × ((v == 0) ≡ agree a buffer)
unfolding dstrncmp
dstrncmp-agree [] r buffer t h = (0, refl, refl)
dstrncmp-agree (c ∷ a) r [] t h = absurd (omega arith)
dstrncmp-agree (c ∷ a) r (d ∷ buffer) t h = elim (ℕ_discrete d 0) [
  | yes e ↦ (0, ground arith, ground arith)
  | no ne ↦ elim (ℕ_discrete c d) [
    | yes e ↦
        let (v, same, means) = dstrncmp-agree a r buffer t.1 (omega arith) in
        (v, ground arith, ground arith)
    | no other ↦ (order_of c d, ground arith, ground arith)
  ]
]

is_prefix_refl : (a : List ℕ) → is_prefix a a ≡ true
is_prefix_refl [] = refl
is_prefix_refl (c ∷ a) = ground (arith, is_prefix_refl a)

pub agree_of_chars : (a buffer : List ℕ) → chars buffer ≡ a → agree a buffer ≡ true
agree_of_chars a buffer e = rw (e, is_prefix_refl a)

-- dstrncpy of just the characters of a text: no NUL is written, and the end of the buffer stays.
pub dstrncpy-exact :
    (a r to : List ℕ)
    → IsText a
    → length a ≤ length to
    → dstrncpy to (a ++ (0 ∷ r)) (length a) ≡ some (a ++ drop (length a) to)
unfolding dstrncpy
dstrncpy-exact [] r to t h = refl
dstrncpy-exact (c ∷ a) r [] t h = absurd (omega arith)
dstrncpy-exact (c ∷ a) r (x ∷ to) t h = rw (ne→== c 0 t.0, dstrncpy-exact a r to t.1 (omega arith))
