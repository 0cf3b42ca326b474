-- ===== src/Misc/Numbers.antt =====
-- ditoa and dstrtol of flat/os/misc.c. An `int` is its 32-bit pattern. In dstrtol `none` is an access past
-- the end of a string, or an `int` that overflows.
mod Digits
pub mod RoundTrip
use os_lab.Prelude.{
  ℕ, zero, suc, ◌+◌, ◌-◌, ◌*◌, ◌/◌, ◌%◌, ◌^◌, Bool, true, false, ◌&&◌, ◌||◌, Option, none, some,
  List, [], ◌∷◌, ◌++◌, ◌==◌, ltb, leb, if◌then◌else◌,
}
use mathlib.Core.Option

abbrev pub int_min : ℕ
int_min = 2 ^ 31

-- What ditoa and its loops give: a result, an `int` that overflows, a write past the end of the buffer,
-- or a loop that is not through with its fuel.
pub data Outcome (A : Type 0) : Type 0 where
  done : A → Outcome A
  overflow overrun out_of_fuel : Outcome A

-- The loop that looks for a power of ten above `n`, with a round of fuel for each power.
pub grow_power : ℕ → ℕ → ℕ → Outcome ℕ
grow_power zero k n = out_of_fuel
grow_power (suc fuel) k n =
    let rest = if ltb (k * 10) int_min then grow_power fuel (k * 10) n else overflow in
    if leb k n then rest else done k

-- The loop that writes the digits below the power `k`.
pub digits_below : ℕ → ℕ → ℕ → List ℕ
digits_below zero k n = []
digits_below (suc fuel) k n =
    let rest = digits_below fuel (k / 10) (n % (k / 10)) in
    (n / (k / 10) + b'0') ∷ (if ltb 1 (k / 10) then rest else [])

-- The digits, once the power is found.
abbrev pub written_below : ℕ → Outcome ℕ → Outcome (List ℕ)
written_below n (done k) = done (digits_below 10 k n)
written_below n overflow = overflow
written_below n overrun = overrun
written_below n out_of_fuel = out_of_fuel

-- The characters that ditoa writes in front of the NUL. `-n` overflows for the least `int` alone.
pub ditoa_chars : ℕ → Outcome (List ℕ)
ditoa_chars n =
    if n == int_min
    then overflow
    else if ltb int_min n
    then done (b'-' ∷ [])
    else if n == 0
    then done (b'0' ∷ [])
    else written_below n (grow_power 10 1 n)

-- A buffer after characters have been written to its front.
pub write_chars : List ℕ → List ℕ → Option (List ℕ)
write_chars buf [] = some buf
write_chars [] (c ∷ cs) = none
write_chars (b ∷ buf) (c ∷ cs) = Option.map (λ rest. c ∷ rest) (write_chars buf cs)

abbrev pub within : Option (List ℕ) → Outcome (List ℕ)
within none = overrun
within (some buf) = done buf

abbrev pub put_chars : List ℕ → Outcome (List ℕ) → Outcome (List ℕ)
put_chars buf (done cs) = within (write_chars buf (cs ++ (0 ∷ [])))
put_chars buf overflow = overflow
put_chars buf overrun = overrun
put_chars buf out_of_fuel = out_of_fuel

-- A buffer behind ditoa. One that overflows in the middle leaves no result.
pub ditoa : ℕ → List ℕ → Outcome (List ℕ)
ditoa n buf = put_chars buf (ditoa_chars n)

pub skip_blanks : List ℕ → Option (List ℕ)
skip_blanks [] = none
skip_blanks (c ∷ s) = if (c == b' ') || ((c == 9) || (c == 10)) then skip_blanks s else some (c ∷ s)

pub after_sign : List ℕ → Option (Bool × List ℕ)
after_sign [] = none
after_sign (c ∷ s) = some (if c == b'-' then (true, s) else (false, c ∷ s))

abbrev prefix_of : List ℕ → Option (ℕ × List ℕ)
prefix_of [] = none
prefix_of (c ∷ s) = some (if (c == b'x') || (c == b'X') then (16, s) else (8, c ∷ s))

-- The base to read in, and the string behind the prefix that says so.
pub base_of : ℕ → List ℕ → Option (ℕ × List ℕ)
base_of (suc base) s = some (suc base, s)
base_of zero [] = none
base_of zero (c ∷ s) = if c == b'0' then prefix_of s else some (10, c ∷ s)

abbrev pub between : ℕ → ℕ → ℕ → Bool
between a b c = leb a c && leb c b

pub digit : ℕ → ℕ
digit c =
    if between b'0' b'9' c
    then c - b'0'
    else if between b'a' b'z' c
    then c + 10 - b'a'
    else if between b'A' b'Z' c
    then c + 10 - b'A'
    else 1000

-- The loop over the digits, with the value so far: the value, and the string that is left.
pub read_digits : ℕ → List ℕ → ℕ → Option (ℕ × List ℕ)
read_digits base [] v = none
read_digits base (c ∷ s) v =
    let d = digit c in
    let more = ltb d base in
    let rest = if ltb (v * base + d) int_min then read_digits base s (v * base + d) else none in
    if more then rest else some (v, c ∷ s)

abbrev negate_if : Bool → ℕ → ℕ
negate_if true v = (2 ^ 32 - v) % 2 ^ 32
negate_if false v = v

abbrev read_number : List ℕ → Bool → ℕ × List ℕ → Option (ℕ × List ℕ)
read_number start neg b =
    if (b.0 == 0) || ltb 16 b.0
    then some (0, start)
    else Option.map (λ r. (negate_if neg r.0, r.1)) (read_digits b.0 b.1 0)

-- Behind the blanks.
abbrev read_signed : List ℕ → ℕ → Option (ℕ × List ℕ)
read_signed [] base = none
read_signed (c ∷ s) base = if c == 0 then some (0, c ∷ s) else elim (after_sign (c ∷ s)) [
  | none ↦ none
  | some signed ↦ elim (base_of base signed.1) [
    | none ↦ none
    | some b ↦ read_number (c ∷ s) signed.0 b
  ]
]

-- The number, and the string behind it (`*newpos`).
pub dstrtol : List ℕ → ℕ → Option (ℕ × List ℕ)
dstrtol c base = elim (skip_blanks c) [ none ↦ none | some s ↦ read_signed s base ]
