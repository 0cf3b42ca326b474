-- ===== src/Misc/Numbers/Digits.antt =====
-- What the loops of ditoa and dstrtol compute.
use Prim.Native.Nat.{◌≤◌}
use native.Mathlib.Nat.{div-lt_iff_lt-mul, div-add-mod', mod-lt, mul-div_cancel_left}
use os_lab.Prelude.{
  ℕ, zero, suc, ◌+◌, ◌*◌, ◌/◌, ◌%◌, ◌≡◌, ◌<◌, ◌∙◌, ap, refl, some, List, [], ◌∷◌, ◌++◌, arith,
  dec_lt, lt→ltb, lt→leb, le→leb,
}
use os_lab.Misc.Numbers.{int_min, done, grow_power, digits_below, digit, read_digits}

abbrev pub power : ℕ → ℕ
power zero = 1
power (suc j) = 10 * power j

pub power-pos : (j : ℕ) → 0 < power j
power-pos zero = omega arith
power-pos (suc j) = omega (arith, power-pos j)

pub power_mono : (i j : ℕ) → i ≤ j → power i ≤ power j
power_mono zero j h = power-pos j
power_mono (suc i) zero h = absurd (omega (arith, h))
power_mono (suc i) (suc j) h = omega (arith, power_mono i j (omega arith))

grow_power-stops : (fuel k n : ℕ) → 0 < fuel → n < k → grow_power fuel k n ≡ done k
unfolding grow_power
grow_power-stops zero k n h lt = absurd (omega (arith, h))
grow_power-stops (suc fuel) k n h lt = rw (lt→leb n k lt) refl

grow_power-goes :
    (fuel k n : ℕ)
    → k ≤ n
    → k * 10 < int_min
    → grow_power (suc fuel) k n ≡ grow_power fuel (k * 10) n
unfolding grow_power
grow_power-goes fuel k n le room = rw (le→leb k n le, lt→ltb _ _ room) refl

-- The loop for the power ends above `n`, one step behind the last power that is not.
pub grow_power_lem :
    (fuel i n : ℕ)
    → i + fuel ≡ 10
    → power i ≤ n
    → n < power 9
    → (j : ℕ) × (grow_power fuel (power i) n ≡ done (power (suc j)))
      × (power j ≤ n)
      × (n < power (suc j))
      × (j < 9)
grow_power_lem zero i n sum le small =
    absurd (omega (arith, power_mono 9 i (omega (arith, sum)), le, small))
grow_power_lem (suc fuel) i n sum le small =
    let low : i < 9 = elim (dec_lt i 9) [
      | yes h ↦ h
      | no h ↦ absurd (omega (arith, power_mono 9 i (omega (arith, h)), le, small))
    ] in
    let room : power i * 10 < int_min = omega (arith, power_mono (suc i) 9 (omega (arith, low))) in
    let next : power i * 10 ≡ power (suc i) = omega arith in
    let goes : grow_power (suc fuel) (power i) n ≡ grow_power fuel (power (suc i)) n =
      grow_power-goes fuel (power i) n le room ∙ ap (λ k. grow_power fuel k n) next in
    elim (dec_lt n (power (suc i))) [
      | yes above ↦ (
        i,
        goes ∙ grow_power-stops fuel (power (suc i)) n (omega (arith, sum, low)) above,
        le,
        above,
        low,
      )
      | no not_above ↦
          let (j, found, reached, under, few) =
            grow_power_lem fuel (suc i) n (omega (arith, sum)) (omega (arith, not_above)) small in
          (j, goes ∙ found, reached, under, few)
    ]

digit-char : (d : ℕ) → d < 10 → digit (d + b'0') ≡ d
unfolding digit
digit-char d h = ground arith

-- One round of the loop over the digits.
read_digit :
    (v d : ℕ) (s : List ℕ)
    → d < 10
    → v * 10 + d < int_min
    → read_digits 10 ((d + b'0') ∷ s) v ≡ read_digits 10 s (v * 10 + d)
unfolding read_digits
read_digit v d s low fits = rw (digit-char d low, lt→ltb d 10 low, lt→ltb _ _ fits) refl

read_stop : (v : ℕ) (s : List ℕ) → read_digits 10 (0 ∷ s) v ≡ some (v, 0 ∷ s)
unfolding read_digits digit
read_stop v s = refl

-- One round of the loop that writes them.
pub digits_below_step :
    (fuel p n : ℕ)
    → 1 < p
    → digits_below (suc fuel) (10 * p) n ≡ (n / p + b'0') ∷ digits_below fuel p (n % p)
unfolding digits_below
digits_below_step fuel p n h =
    let tenth : 10 * p / 10 ≡ p = mul-div_cancel_left p (omega arith) in
    rw (tenth, lt→ltb 1 p h) refl

-- The value of a number by its first digit.
spread : (v d p m n : ℕ) → d * p + m ≡ n → (v * 10 + d) * p + m ≡ v * (10 * p) + n
spread v d p m n h = grind arith

prefix_fits : (a p m : ℕ) → 0 < p → a * p + m < int_min → a < int_min
prefix_fits a p m pos h = grind arith

pub last_digit : (fuel n : ℕ) → digits_below (suc fuel) 10 n ≡ (n + b'0') ∷ []
unfolding digits_below
last_digit fuel n = let one : n / 1 ≡ n = omega arith in rw one refl

-- The digits of a number below a power of ten are read back behind any value, in base ten.
pub read_digits-digits_below :
    (j fuel v n : ℕ) (rest : List ℕ)
    → j < fuel
    → n < power (suc j)
    → v * power (suc j) + n < int_min
    → read_digits 10 (digits_below fuel (power (suc j)) n ++ (0 ∷ rest)) v
      ≡ some (v * power (suc j) + n, 0 ∷ rest)
read_digits-digits_below j zero v n rest lt small fits = absurd (omega (arith, lt))
read_digits-digits_below zero (suc fuel) v n rest lt small fits =
    let one : digits_below (suc fuel) 10 n ≡ (n + b'0') ∷ [] = last_digit fuel n in
    rw one (read_digit v n (0 ∷ rest) small fits ∙ read_stop (v * 10 + n) rest)
read_digits-digits_below (suc j) (suc fuel) v n rest lt small fits =
    let p = power (suc j) in
    let d = n / p in
    let pos : 0 < p = power-pos (suc j) in
    let big : 1 < p = omega (arith, power-pos j) in
    let low : d < 10 = (div-lt_iff_lt-mul {x = n} pos).1 small in
    let below : n % p < p = mod-lt n pos in
    let value : (v * 10 + d) * p + n % p ≡ v * (10 * p) + n =
      spread v d p (n % p) n (div-add-mod' n p) in
    let fits' : (v * 10 + d) * p + n % p < int_min = omega (arith, value, fits) in
    let fits_digit : v * 10 + d < int_min = prefix_fits (v * 10 + d) p (n % p) pos fits' in
    rw (digits_below_step fuel p n big) (
      read_digit v d (digits_below fuel p (n % p) ++ (0 ∷ rest)) low fits_digit
      ∙ read_digits-digits_below j fuel (v * 10 + d) (n % p) rest (omega (arith, lt)) below fits'
      ∙ ap (λ t. some (t, 0 ∷ rest)) value)
