-- ===== src/Misc/Numbers/RoundTrip.antt =====
-- A number written by ditoa is read back by dstrtol.
use native.Mathlib.Nat.{div-lt_iff_lt-mul, le-div_iff_mul-le}
use os_lab.Prelude.{
  ℕ, zero, suc, ◌+◌, ◌*◌, ◌/◌, ◌%◌, ◌^◌, ◌≡◌, ◌<◌, ◌≤◌, ◌⊎◌, ◌∙◌, ap, refl, sym, subst, inl, inr,
  some, false, ◌==◌, List, [], ◌∷◌, ◌++◌, arith, dec_lt, lt→ltb, ge→ltb, length, drop, ne→==,
  length-append,
}
use mathlib.Core.List.{append_assoc}
use os_lab.Misc.Numbers.{
  int_min, done, overflow, grow_power, digits_below, digit, read_digits, ditoa, ditoa_chars,
  write_chars, dstrtol, skip_blanks, after_sign, base_of,
}
use os_lab.Misc.Numbers.Digits.{
  power, power-pos, grow_power_lem, digits_below_step, read_digits-digits_below, last_digit,
}

write_chars_lem :
    (buf cs : List ℕ)
    → length cs ≤ length buf
    → write_chars buf cs ≡ some (cs ++ drop (length cs) buf)
unfolding write_chars
write_chars_lem buf [] h = refl
write_chars_lem [] (c ∷ cs) h = absurd (omega arith)
write_chars_lem (b ∷ buf) (c ∷ cs) h = rw (write_chars_lem buf cs (omega arith)) refl

length-digits_below :
    (j fuel n : ℕ) → j < fuel → length (digits_below fuel (power (suc j)) n) ≡ suc j
length-digits_below j zero n lt = absurd (omega (arith, lt))
length-digits_below zero (suc fuel) n lt = rw (last_digit fuel n) refl
length-digits_below (suc j) (suc fuel) n lt =
    let big : 1 < power (suc j) = omega (arith, power-pos j) in
    rw (digits_below_step fuel (power (suc j)) n big)
      (ap suc (length-digits_below j fuel (n % power (suc j)) (omega (arith, lt))))

-- The first digit is not 0.
first_digit :
    (j fuel n : ℕ)
    → power j ≤ n
    → n < power (suc j)
    → (d : ℕ) × (s : List ℕ) × (digits_below (suc fuel) (power (suc j)) n ≡ (d + b'0') ∷ s)
      × (0 < d)
      × (d < 10)
first_digit zero fuel n le lt = (n, [], last_digit fuel n, omega (arith, le), omega (arith, lt))
first_digit (suc j) fuel n le lt =
    let p = power (suc j) in
    let pos : 0 < p = power-pos (suc j) in
    (
      n / p,
      digits_below fuel p (n % p),
      digits_below_step fuel p n (omega (arith, power-pos j)),
      (le-div_iff_mul-le {x = 1} {y = n} pos).1 (omega (arith, le)),
      (div-lt_iff_lt-mul {x = n} pos).1 lt,
    )

-- A digit other than 0 is no other character.
digit-ne : (d c : ℕ) → 0 < d → c < 49 → ((d + b'0') == c) ≡ false
digit-ne d c pos lt = ne→== _ c (λ e. absurd (omega (arith, e, pos, lt)))

-- A string that begins with a digit other than 0 is read in base ten, for the bases 10 and 0.
dstrtol-digit :
    (d base v : ℕ) (s rest : List ℕ)
    → 0 < d
    → (base ≡ 10) ⊎ (base ≡ 0)
    → read_digits 10 ((d + b'0') ∷ s) 0 ≡ some (v, rest)
    → dstrtol ((d + b'0') ∷ s) base ≡ some (v, rest)
unfolding dstrtol skip_blanks after_sign base_of
dstrtol-digit d base v s rest pos (inl ten) read = rw ten (ground arith)
dstrtol-digit d base v s rest pos (inr none_given) read = rw none_given (ground arith)

dstrtol-zero :
    (base : ℕ) (s : List ℕ)
    → (base ≡ 10) ⊎ (base ≡ 0)
    → dstrtol (b'0' ∷ 0 ∷ s) base ≡ some (0, 0 ∷ s)
unfolding dstrtol skip_blanks after_sign base_of read_digits digit
dstrtol-zero base s (inl ten) = rw ten refl
dstrtol-zero base s (inr none_given) = rw none_given refl

ditoa-chars :
    (n : ℕ) (cs buf : List ℕ)
    → ditoa_chars n ≡ done cs
    → length cs < length buf
    → ditoa n buf ≡ done (cs ++ (0 ∷ drop (suc (length cs)) buf))
unfolding ditoa
ditoa-chars n cs buf written room =
    let size : length (cs ++ (0 ∷ [])) ≡ suc (length cs) =
      omega (arith, length-append cs (0 ∷ [])) in
    rw (written, ditoa, write_chars_lem buf (cs ++ (0 ∷ [])) (omega (arith, size, room)), size)
      (ap done (append_assoc cs (0 ∷ []) (drop (suc (length cs)) buf)))

ditoa_chars-pos :
    (n k : ℕ)
    → 0 < n
    → n < 10 ^ 9
    → grow_power 10 1 n ≡ done k
    → ditoa_chars n ≡ done (digits_below 10 k n)
unfolding ditoa_chars
ditoa_chars-pos n k pos small grown =
    rw
      (
        ne→== n int_min (λ e. absurd (omega (arith, e, small))),
        ge→ltb int_min n (omega (arith, small)),
        ne→== n 0 (λ e. absurd (omega (arith, e, pos))),
        grown,
      )
      refl

ditoa_chars-zero : ditoa_chars 0 ≡ done (b'0' ∷ [])
unfolding ditoa_chars
ditoa_chars-zero = refl

-- A number from 0 to 999999999 is read back from what ditoa writes into a buffer of ten characters
-- or more, in base 10 and when dstrtol finds the base itself; dstrtol then stops at the NUL.
pub dstrtol-ditoa :
    (n base : ℕ) (buf : List ℕ)
    → n < 10 ^ 9
    → 10 ≤ length buf
    → (base ≡ 10) ⊎ (base ≡ 0)
    → (out rest : List ℕ) × (ditoa n buf ≡ done out) × (dstrtol out base ≡ some (n, 0 ∷ rest))
dstrtol-ditoa zero base buf small room bases = (
  b'0' ∷ 0 ∷ drop 2 buf,
  drop 2 buf,
  ditoa-chars 0 (b'0' ∷ []) buf ditoa_chars-zero (omega (arith, room)),
  dstrtol-zero base (drop 2 buf) bases,
)
dstrtol-ditoa (suc m) base buf small room bases =
    let n = suc m in
    let (j, grown, reached, under, few) =
      grow_power_lem 10 0 n refl (omega arith) (omega (arith, small)) in
    let cs = digits_below 10 (power (suc j)) n in
    let size : length cs ≡ suc j = length-digits_below j 10 n (omega (arith, few)) in
    let written = ditoa_chars-pos n (power (suc j)) (omega arith) small grown in
    let rest = drop (suc (length cs)) buf in
    let (d, s, first, pos, low) = first_digit j 9 n reached under in
    let zero_value : 0 * power (suc j) + n ≡ n = omega arith in
    let read : read_digits 10 (cs ++ (0 ∷ rest)) 0 ≡ some (n, 0 ∷ rest) =
      read_digits-digits_below j 10 0 n rest (omega (arith, few)) under
        (omega (arith, zero_value, small))
      ∙ ap (λ v. some (v, 0 ∷ rest)) zero_value in
    (
      cs ++ (0 ∷ rest),
      rest,
      ditoa-chars n cs buf written (omega (arith, size, few, room)),
      subst (λ t. dstrtol (t ++ (0 ∷ rest)) base ≡ some (n, 0 ∷ rest)) (sym first)
          (dstrtol-digit d base n (s ++ (0 ∷ rest)) (0 ∷ rest) pos bases
            (subst (λ t. read_digits 10 (t ++ (0 ∷ rest)) 0 ≡ some (n, 0 ∷ rest)) first read)),
    )

grow_power-overflow : (n : ℕ) → 10 ^ 9 ≤ n → grow_power 10 1 n ≡ overflow
unfolding grow_power
grow_power-overflow n h = ground arith

ditoa_chars-overflow : (n : ℕ) → 10 ^ 9 ≤ n → n ≤ int_min → ditoa_chars n ≡ overflow
unfolding ditoa_chars
ditoa_chars-overflow n h small = ground (arith, grow_power-overflow n h)

ditoa_chars-negative : (n : ℕ) → int_min < n → ditoa_chars n ≡ done (b'-' ∷ [])
unfolding ditoa_chars
ditoa_chars-negative n h =
    rw (ne→== n int_min (λ e. absurd (omega (arith, e, h))), lt→ltb int_min n h) refl

ditoa_chars-small :
    (n : ℕ) → n < 10 ^ 9 → (cs : List ℕ) × (ditoa_chars n ≡ done cs) × (length cs < 10)
ditoa_chars-small zero small = (b'0' ∷ [], ditoa_chars-zero, omega arith)
ditoa_chars-small (suc m) small =
    let n = suc m in
    let (j, grown, reached, under, few) =
      grow_power_lem 10 0 n refl (omega arith) (omega (arith, small)) in
    (
      digits_below 10 (power (suc j)) n,
      ditoa_chars-pos n (power (suc j)) (omega arith) small grown,
      omega (arith, length-digits_below j 10 n (omega (arith, few)), few),
    )

length-written :
    (cs buf : List ℕ)
    → length cs < length buf
    → length (cs ++ (0 ∷ drop (suc (length cs)) buf)) ≡ length buf
length-written cs [] lt = absurd (omega (arith, lt))
length-written [] (b ∷ buf) lt = refl
length-written (c ∷ cs) (b ∷ buf) lt = ap suc (length-written cs buf (omega (arith, lt)))

ditoa-done :
    (n : ℕ) (cs buf : List ℕ)
    → ditoa_chars n ≡ done cs
    → length cs < length buf
    → (out : List ℕ) × (ditoa n buf ≡ done out) × (length out ≡ length buf)
ditoa-done n cs buf written room = (
  cs ++ (0 ∷ drop (suc (length cs)) buf),
  ditoa-chars n cs buf written room,
  length-written cs buf room,
)

-- Into a buffer of ten characters or more, ditoa of an `int` overflows if the pattern is from 10 ^ 9 to
-- 2 ^ 31, which are the numbers with ten digits and the least `int`. Of every other `int` it ends and
-- stays inside the buffer.
pub ditoa-bounds :
    (n : ℕ) (buf : List ℕ)
    → 10 ≤ length buf
    → ((10 ^ 9 ≤ n) × (n ≤ int_min) × (ditoa n buf ≡ overflow))
      ⊎ (((n < 10 ^ 9) ⊎ (int_min < n))
          × (out : List ℕ) × (ditoa n buf ≡ done out)
          × (length out ≡ length buf))
unfolding ditoa
ditoa-bounds n buf room = elim (dec_lt int_min n) [
  | yes negative ↦
      let (out, ran, same) =
        ditoa-done n (b'-' ∷ []) buf (ditoa_chars-negative n negative) (omega (arith, room)) in
      inr (inr negative, out, ran, same)
  | no not_negative ↦ elim (dec_lt n (10 ^ 9)) [
    | yes small ↦
        let (cs, written, few) = ditoa_chars-small n small in
        let (out, ran, same) = ditoa-done n cs buf written (omega (arith, few, room)) in
        inr (inl small, out, ran, same)
    | no big ↦
        let least : n ≤ int_min = omega (arith, not_negative) in
        let ten : 10 ^ 9 ≤ n = omega (arith, big) in
        inl (ten, least, rw (ditoa_chars-overflow n ten least) refl)
  ]
]
