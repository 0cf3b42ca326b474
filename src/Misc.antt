-- ===== src/Misc.antt =====
-- The string routines of flat/os/misc.c that the file system calls. A `char` buffer is the list of
-- its bytes, and `none` is an access past its end.
pub mod Names
pub mod Numbers
pub mod Strings
use os_lab.Prelude.{
  ℕ, zero, suc, ◌+◌, ◌%◌, ◌^◌, Bool, true, false, ◌==◌, ltb, if◌then◌else◌, Option, none, some,
  List, [], ◌∷◌,
}
use mathlib.Core.Option

unfoldable pub dstrlen : List ℕ → Option ℕ
dstrlen [] = none
dstrlen (c ∷ s) = if c == 0 then some 0 else Option.map suc (dstrlen s)

-- The value after the loop has stopped at two different characters.
abbrev pub order_of : ℕ → ℕ → ℕ
order_of c1 c2 = if ltb c1 c2 then 0xFFFF_FFFF else if c1 == c2 then 0 else 1

-- `n` is the number of characters left to compare. Characters are ordered as numbers, which is C's
-- order of the characters below 128.
unfoldable pub dstrncmp : List ℕ → List ℕ → ℕ → Option ℕ
dstrncmp s1 s2 zero = some 0
dstrncmp s1 [] (suc n) = none
dstrncmp [] (c2 ∷ s2) (suc n) = if c2 == 0 then some 0 else none
dstrncmp (c1 ∷ s1) (c2 ∷ s2) (suc n) =
    if c2 == 0 then some 0 else if c1 == c2 then dstrncmp s1 s2 n else some (order_of c1 c2)

-- The buffer `to` after the copy.
unfoldable pub dstrncpy : List ℕ → List ℕ → ℕ → Option (List ℕ)
dstrncpy to from zero = some to
dstrncpy to [] (suc n) = none
dstrncpy [] (c ∷ from) (suc n) = none
dstrncpy (t ∷ to) (c ∷ from) (suc n) =
    if c == 0 then some (0 ∷ to) else Option.map (λ rest. c ∷ rest) (dstrncpy to from n)

-- The buffer `to` after dstrcpy.
pub dstrcpy : List ℕ → List ℕ → Option (List ℕ)
dstrcpy to [] = none
dstrcpy [] (c ∷ from) = none
dstrcpy (t ∷ to) (c ∷ from) =
    if c == 0 then some (0 ∷ to) else Option.map (λ rest. c ∷ rest) (dstrcpy to from)

pub dstrcat : List ℕ → List ℕ → Option (List ℕ)
dstrcat [] addn = none
dstrcat (c ∷ onto) addn =
    if c == 0 then dstrcpy (c ∷ onto) addn else Option.map (λ rest. c ∷ rest) (dstrcat onto addn)

-- A pointer into the string is its distance from the start, counted from `i`; the null pointer is
-- `none`.
unfoldable pub dindex : List ℕ → ℕ → ℕ → Option (Option ℕ)
dindex [] c i = none
dindex (x ∷ s) c i =
    if x == 0 then some none else if x == c then some (some i) else dindex s c (i + 1)

-- The inner loop of dmindex: whether a character is one of `match`.
unfoldable pub matches_one : ℕ → List ℕ → Option Bool
matches_one x [] = none
matches_one x (c ∷ match) =
    if c == 0 then some false else if x == c then some true else matches_one x match

-- The outer loop, which does not advance, for so many rounds; `none` is an access past the end of a
-- string, and `some none` a loop that has not ended.
pub dmindex : ℕ → List ℕ → List ℕ → Option (Option (Option ℕ))
dmindex zero s match = some none
dmindex (suc n) [] match = none
dmindex (suc n) (x ∷ s) match =
    let rest = dmindex n (x ∷ s) match in
    if x == 0 then some (some none) else elim (matches_one x match) [
      | none ↦ none
      | some true ↦ some (some (some 0))
      | some false ↦ rest
    ]

unfoldable pub bzero : List ℕ → ℕ → Option (List ℕ)
bzero dst zero = some dst
bzero [] (suc count) = none
bzero (x ∷ dst) (suc count) = Option.map (λ rest. 0 ∷ rest) (bzero dst count)

-- The loop of dstrstr: a pointer into the string is its distance from the start, counted from `i`.
pub search_pattern : List ℕ → List ℕ → ℕ → ℕ → Option (Option ℕ)
search_pattern [] pattern n i = none
search_pattern (c ∷ buf) pattern n i =
    let rest = search_pattern buf pattern n (i + 1) in
    if c == 0 then some none else elim (dstrncmp (c ∷ buf) pattern n) [
      | none ↦ none
      | some r ↦ if r == 0 then some (some i) else rest
    ]

pub dstrstr : List ℕ → List ℕ → Option (Option ℕ)
dstrstr buf pattern = elim (dstrlen pattern) [
  | none ↦ none
  | some n ↦ search_pattern buf pattern n 0
]

-- The order of `int`s by their 32-bit patterns.
abbrev int_lt : ℕ → ℕ → Bool
int_lt a b = ltb ((a + 2 ^ 31) % 2 ^ 32) ((b + 2 ^ 31) % 2 ^ 32)

pub min_int : ℕ → ℕ → ℕ
min_int a b = if int_lt a b then a else b

pub max_int : ℕ → ℕ → ℕ
max_int a b = if int_lt b a then a else b
