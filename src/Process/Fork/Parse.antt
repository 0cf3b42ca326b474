-- ===== src/Process/Fork/Parse.antt =====
-- What get_argument of flat/os/process.c finds in a string of arguments.
use mathlib.Core.List.{append_assoc}
use os_lab.Prelude.{
  ℕ, zero, suc, ◌+◌, ◌-◌, ◌≡◌, ◌<◌, ◌∙◌, ap, refl, sym, none, some, List, [], ◌∷◌, ◌++◌, length,
  length-append, drop, drop-append, drop-cons, get_elem?, arith, ne→==, lt→leb,
}
use os_lab.Misc.Names.{IsText}
use os_lab.Process.{Arguments, next_argument, parse_from, get_argument}

-- The words of a string of arguments, each with its NUL.
abbrev pub join : List (List ℕ) → List ℕ
join [] = []
join (w ∷ ws) = w ++ (0 ∷ join ws)

-- A word is not empty, and has no NUL.
abbrev pub AreWords : List (List ℕ) → Type 0
AreWords [] = Unit {0}
AreWords (w ∷ ws) = (0 < length w) × IsText w × AreWords ws

-- Where the words begin, from an offset on.
abbrev pub offsets : ℕ → List (List ℕ) → List ℕ
offsets o [] = []
offsets o (w ∷ ws) = o ∷ offsets (o + length w + 1) ws

next_argument_lem :
    (w str rest : List ℕ) (n location : ℕ)
    → IsText w
    → drop location str ≡ w ++ (0 ∷ rest)
    → length w < n
    → (next_argument n str location ≡ some (location + length w + 1))
      × (drop (location + length w + 1) str ≡ rest)
unfolding next_argument
next_argument_lem w str rest zero location t at lt = absurd (omega (arith, lt))
next_argument_lem [] str rest (suc n) location t at lt =
    let (here, behind) = drop-cons str location at in
    let e : location + 0 + 1 ≡ location + 1 = omega arith in
    (rw (here, next_argument, e) refl, rw e behind)
next_argument_lem (c ∷ w) str rest (suc n) location t at lt =
    let (here, behind) = drop-cons str location at in
    let (found, left) =
      next_argument_lem w str rest n (location + 1) t.1 behind (omega (arith, lt)) in
    let e : location + suc (length w) + 1 ≡ location + 1 + length w + 1 = omega arith in
    (rw (here, next_argument, ne→== c 0 t.0, e) found, rw e left)

-- get_argument at a word that ends before position 100 gives the word's position, and goes on behind it.
pub get_argument-word :
    (a : Arguments) (w rest : List ℕ)
    → 0 < length w
    → IsText w
    → drop a.location a.str ≡ w ++ (0 ∷ rest)
    → a.location + length w < 100
    → (get_argument none a ≡ some (a.location, record a { location = a.location + length w + 1 }))
      × (drop (a.location + length w + 1) a.str ≡ rest)
unfolding get_argument
get_argument-word a [] rest some_char t at room = absurd (omega (arith, some_char))
get_argument-word a (c ∷ w) rest some_char t at room =
    let (here, behind) = drop-cons a.str a.location at in
    let (found, left) =
      next_argument_lem (c ∷ w) a.str rest (100 - a.location) a.location t at
        (omega (arith, room)) in
    (
      rw (here, parse_from, ne→== c 0 t.0, lt→leb a.location 99 (omega (arith, room)), found) refl,
      left,
    )

-- At an empty word it gives 0 and stays.
pub get_argument-end :
    (a : Arguments) (rest : List ℕ)
    → drop a.location a.str ≡ 0 ∷ rest
    → get_argument none a ≡ some (0, a)
unfolding get_argument
get_argument-end a rest at =
    let (here, behind) = drop-cons a.str a.location at in rw (here, parse_from) refl

-- Each word stands where its offset says.
pub drop-offsets :
    (ws : List (List ℕ)) (front rest : List ℕ) (i o : ℕ) (v : List ℕ)
    → get_elem? (offsets (length front) ws) i ≡ some o
    → get_elem? ws i ≡ some v
    → (behind : List ℕ) × (drop o (front ++ (join ws ++ rest)) ≡ v ++ (0 ∷ behind))
drop-offsets [] front rest i o v h k = cc
drop-offsets (w ∷ ws) front rest zero o v h k =
    let same_offset : length front ≡ o = cc in
    let same_word : w ≡ v = cc in
    (
      join ws ++ rest,
      drop-append o front ((w ++ (0 ∷ join ws)) ++ rest) same_offset
          ∙ append_assoc w (0 ∷ join ws) rest
          ∙ ap (λ z. z ++ (0 ∷ (join ws ++ rest))) same_word,
    )
drop-offsets (w ∷ ws) front rest (suc i) o v h k =
    let front' = front ++ (w ++ (0 ∷ [])) in
    let size : length front' ≡ length front + length w + 1 =
      omega (arith, length-append front (w ++ (0 ∷ [])), length-append w (0 ∷ [])) in
    let (behind, at) =
      drop-offsets ws front' rest i o v (ap (λ n. get_elem? (offsets n ws) i) size ∙ h) k in
    let parts : front ++ ((w ++ (0 ∷ join ws)) ++ rest) ≡ front' ++ (join ws ++ rest) =
      ap (λ z. front ++ z)
        (append_assoc w (0 ∷ join ws) rest ∙ sym (append_assoc w (0 ∷ []) (join ws ++ rest)))
      ∙ sym (append_assoc front (w ++ (0 ∷ [])) (join ws ++ rest)) in
    (behind, ap (drop o) parts ∙ at)
