-- ===== src/Memory/Map.antt =====
-- The map of free pages of flat/os/memory.c as a set of pages, and what it counts.
use os_lab.Prelude.{
  ℕ, zero, suc, ◌+◌, ◌*◌, ◌/◌, ◌%◌, ◌^◌, ◌<◌, bit_and, bit_or, bit_xor, ◌≡◌, ◌≢◌, refl, ◌==◌, ltb,
  if◌then◌else◌, get_or, arith, ℕ_discrete, ==_iff, true,
}
use os_lab.Prelude.Bits.{
  bit, bit-le, bit-pow, bit-bit_xor, bit-bit_and, bit-bit_or, each_below, each_below_at, pow-lt_pow,
}
use native.Mathlib.Nat.{pow-suc}
use os_lab.Prelude.Word.{word_mod}
use os_lab.Memory.{Memory, invert, negativeone}

-- The sum of a function's values below `n`.
abbrev pub sum_below : ℕ → (ℕ → ℕ) → ℕ
sum_below zero f = 0
sum_below (suc n) f = sum_below n f + f n

-- Two functions that differ at one number, by one.
pub sum_below-more :
    (n j : ℕ) (f g : ℕ → ℕ)
    → ((k : ℕ) → k < n → k ≢ j → f k ≡ g k)
    → f j + 1 ≡ g j
    → sum_below n f + (if ltb j n then 1 else 0) ≡ sum_below n g
sum_below-more zero j f g others one = ground arith
sum_below-more (suc n) j f g others one =
    let below = sum_below-more n j f g (λ k p ne. others k (omega arith) ne) one in
    elim (ℕ_discrete n j) [
      | yes e ↦ let here : f n + 1 ≡ g n = rw e one in ground arith
      | no ne ↦ let here = others n (omega arith) ne in ground arith
    ]

-- A sum that is not 0 has a summand that is not 0.
pub sum_below-pos : (n : ℕ) (f : ℕ → ℕ) → sum_below n f ≢ 0 → (k : ℕ) × (k < n) × (f k ≢ 0)
sum_below-pos zero f h = absurd (h refl)
sum_below-pos (suc n) f h = elim (ℕ_discrete (f n) 0) [
  | yes e ↦
      let (k, lt, pos) = sum_below-pos n f (λ z. h (omega (arith, e, z))) in (k, omega arith, pos)
  | no ne ↦ (n, omega arith, ne)
]

pub sum_below-zero : (n : ℕ) (f : ℕ → ℕ) → sum_below n f ≡ 0 → (k : ℕ) → k < n → f k ≡ 0
sum_below-zero zero f h k p = absurd (omega arith)
sum_below-zero (suc n) f h k p = elim (ℕ_discrete k n) [
  | yes e ↦ rw e (omega (arith, h))
  | no ne ↦ sum_below-zero n f (omega (arith, h)) k (omega (arith, p, ne))
]

-- A word is the sum of bits, and 0 if it has none.
pub no_bits : (n w : ℕ) → w < 2 ^ n → ((j : ℕ) → j < n → bit j w ≡ 0) → w ≡ 0
unfolding bit
no_bits zero w h none_set = omega arith
no_bits (suc n) w h none_set = omega (
  arith,
  none_set 0 (omega arith),
  no_bits n (w / 2) (omega (arith, h, pow-suc 2 n)) (λ j p. none_set (suc j) (omega arith)),
)

ones_table : each_below (λ k. bit k negativeone == 1) 32 ≡ true
unfolding each_below bit
ones_table = refl

bit-ones : (j : ℕ) → j < 32 → bit j negativeone ≡ 1
bit-ones j h = (==_iff _ 1).0 (each_below_at (λ k. bit k negativeone == 1) 32 ones_table h)

-- The bits of `w & ~(1 << b)` and of `w & ~(1 << b) | 1 << b`.
pub bit-cleared :
    (w b k : ℕ) → k < 32 → bit k (bit_and w (invert (2 ^ b))) ≡ (if k == b then 0 else bit k w)
unfolding invert
bit-cleared w b k h =
    rw
      (
        bit-bit_and k w (bit_xor (2 ^ b) negativeone),
        bit-bit_xor k (2 ^ b) negativeone,
        bit-pow k b,
        bit-ones k h,
      )
      (ground (arith, bit-le k w))

abbrev pub with_bit : ℕ → ℕ → ℕ
with_bit w b = bit_or (bit_and w (invert (2 ^ b))) (1 * 2 ^ b % word_mod)

pub bit-with_bit :
    (w b k : ℕ) → k < 32 → b < 32 → bit k (with_bit w b) ≡ (if k == b then 1 else bit k w)
bit-with_bit w b k h p =
    let small : 1 * 2 ^ b % word_mod ≡ 2 ^ b = omega (arith, pow-lt_pow b 32 p) in
    rw (small, bit-bit_or k (bit_and w (invert (2 ^ b))) (2 ^ b), bit-cleared w b k h, bit-pow k b)
      (ground (arith, bit-le k w))

-- How many pages a word, and a map, has free.
unfoldable pub ones : ℕ → ℕ
ones w = sum_below 32 (λ j. bit j w)

abbrev pub word : Memory → ℕ → ℕ
word m i = get_or m.freepages i 0

abbrev pub free_pages : Memory → ℕ
free_pages m = sum_below m.freemapmax (λ i. ones (word m i))

-- 1 for a free page, 0 for one in use.
abbrev pub free_bit : Memory → ℕ → ℕ
free_bit m p = bit (p % 32) (word m (p / 32))

pub ones-more :
    (v w b : ℕ)
    → b < 32
    → ((k : ℕ) → k < 32 → k ≢ b → bit k v ≡ bit k w)
    → bit b v + 1 ≡ bit b w
    → ones v + 1 ≡ ones w
unfolding ones
ones-more v w b h others one =
    let more = sum_below-more 32 b (λ j. bit j v) (λ j. bit j w) others one in
    let inside : ltb b 32 ≡ true = ground arith in rw inside at more

pub ones-zero : (w : ℕ) → w ≡ 0 → ones w ≡ 0
unfolding ones bit
ones-zero w e = rw e

-- A word that is not 0 has a bit.
pub ones-ne : (w : ℕ) → w < 2 ^ 32 → w ≢ 0 → (j : ℕ) × (j < 32) × (bit j w ≢ 0)
ones-ne w h ne =
    sum_below-pos 32 (λ j. bit j w)
      (λ z. ne (no_bits 32 w h (λ j p. sum_below-zero 32 (λ k. bit k w) z j p)))
