-- ===== src/Prelude/Bits.antt =====
-- The bits of a number, and what `&` and `^` do to each of them.
use Prim.Native.Nat.{
  ℕ, zero, suc, ◌+◌, ◌-◌, ◌*◌, ◌/◌, ◌%◌, ◌^◌, ◌≤◌, ◌<◌, min, max, differ, bit_and, bit_or, bit_xor,
  digits, bit_and-bitwise, bit_or-bitwise, bit_xor-bitwise,
}
use mathlib.Core.Path.{◌≡◌, refl, ap, ◌∙◌}
use mathlib.Core.Bool.{Bool, true, ◌&&◌}
use native.Mathlib.Omega.{arith}
use native.Mathlib.Nat.{pow-suc}
use os_lab.Prelude.Tests.{◌==◌, if◌then◌else◌}

-- The binary digit of `w` of weight `2 ^ j`.
unfoldable pub bit : ℕ → ℕ → ℕ
bit zero w = w % 2
bit (suc j) w = bit j (w / 2)

pub bit-le : (j w : ℕ) → bit j w ≤ 1
unfolding bit
bit-le zero w = omega arith
bit-le (suc j) w = bit-le j (w / 2)

pub bit-zero : (j : ℕ) → bit j 0 ≡ 0
unfolding bit
bit-zero zero = refl
bit-zero (suc j) = bit-zero j

-- Rounds of `digits` beyond the first number's size change nothing.
module _ (rest : ℕ → ℕ) (join : ℕ → ℕ → ℕ) where
  digits-more : (m n a b : ℕ) → a ≤ n → n ≤ m → digits rest join m a b ≡ digits rest join n a b
  digits-more (suc m) (suc n) (suc a) b h more =
      ap (λ t. t * 2 + join (suc a % 2) (b % 2))
        (digits-more m n (suc a / 2) (b / 2) (omega arith) (omega arith))
  digits-more (suc m) (suc n) zero b h more = refl
  digits-more (suc m) zero zero b h more = refl
  digits-more zero zero zero b h more = refl
  digits-more zero (suc n) a b h more = absurd (omega arith)
  digits-more m zero (suc a) b h more = absurd (omega arith)

  digits-halves :
      (a b : ℕ)
      → digits rest join (suc a) (suc a) b
        ≡ digits rest join (suc a / 2) (suc a / 2) (b / 2) * 2 + join (suc a % 2) (b % 2)
  digits-halves a b =
      let half = suc a / 2 in
      ap (λ t. t * 2 + join (suc a % 2) (b % 2))
        (digits-more a half half (b / 2) (omega arith) (omega arith))

pub and-halves : (b a : ℕ) → bit_and a b ≡ 2 * bit_and (a / 2) (b / 2) + min (a % 2) (b % 2)
and-halves b (suc a) =
    let whole = bit_and-bitwise (suc a) b in
    let half = bit_and-bitwise (suc a / 2) (b / 2) in
    omega (arith, whole, half, digits-halves (λ _. 0) min a b)
and-halves b zero = omega (arith, bit_and-bitwise 0 b, bit_and-bitwise 0 (b / 2))

-- No bit is in 0.
digits-nothing : (n a : ℕ) → digits (λ _. 0) min n a 0 ≡ 0
digits-nothing zero zero = refl
digits-nothing zero (suc a) = refl
digits-nothing (suc n) zero = refl
digits-nothing (suc n) (suc a) = omega (arith, digits-nothing n (suc a / 2))

and-nothing : (a : ℕ) → bit_and a 0 ≡ 0
and-nothing a = bit_and-bitwise a 0 ∙ digits-nothing a a

xor-halves : (b a : ℕ) → bit_xor a b ≡ 2 * bit_xor (a / 2) (b / 2) + (a % 2 + b % 2) % 2
xor-halves b (suc a) =
    let whole = bit_xor-bitwise (suc a) b in
    let half = bit_xor-bitwise (suc a / 2) (b / 2) in
    let sum = differ_digits (suc a % 2) (b % 2) (omega arith) (omega arith) in
    omega (arith, whole, half, sum, digits-halves (λ t. t) differ a b)
  where
    differ_digits : (x y : ℕ) → x < 2 → y < 2 → differ x y ≡ (x + y) % 2
    differ_digits zero y p q = omega arith
    differ_digits (suc zero) zero p q = refl
    differ_digits (suc zero) (suc y) p q = omega arith
    differ_digits (suc (suc x)) y p q = absurd (omega arith)
xor-halves b zero = omega (arith, bit_xor-bitwise 0 b, bit_xor-bitwise 0 (b / 2))

half_of_pow : (n : ℕ) → (2 ^ suc n / 2 ≡ 2 ^ n) × (2 ^ suc n % 2 ≡ 0)
half_of_pow n = omega (arith, pow-suc 2 n)

half-lt : (n a : ℕ) → a < 2 ^ suc n → a / 2 < 2 ^ n
half-lt n a h = omega (arith, pow-suc 2 n)

last_bit : (a : ℕ) → bit_and a 1 ≡ a % 2
last_bit a = and-halves 1 a ∙ omega (arith, and-nothing (a / 2))

-- `a & 2 ^ j` picks out one bit.
pub bit_and-pow : (j a : ℕ) → bit_and a (2 ^ j) ≡ 2 ^ j * bit j a
unfolding bit
bit_and-pow zero a = omega (arith, last_bit a)
bit_and-pow (suc j) a = omega (
  arith,
  and-halves (2 ^ suc j) a,
  ap (bit_and (a / 2)) (half_of_pow j).0,
  half_of_pow j,
  bit_and-pow j (a / 2),
  ap (λ (t : ℕ). t * bit j (a / 2)) (pow-suc 2 j),
)

pub pow-pos : (k : ℕ) → 0 < 2 ^ k
pow-pos zero = omega arith
pow-pos (suc k) = omega (arith, pow-suc 2 k, pow-pos k)

mask_test : (p b : ℕ) → 0 < p → b ≤ 1 → (p * b == 0) ≡ (b == 0)
mask_test p zero h k = ground arith
mask_test p (suc zero) h k = ground arith
mask_test p (suc (suc b)) h k = absurd (omega arith)

-- The C test `(a & (1 << j)) == 0` reads bit `j`.
pub bit_test : (j a : ℕ) → (bit_and a (2 ^ j) == 0) ≡ (bit j a == 0)
bit_test j a = rw (bit_and-pow j a) (mask_test (2 ^ j) (bit j a) (pow-pos j) (bit-le j a))

-- The bits of `2 ^ k`.
pub bit-pow : (j k : ℕ) → bit j (2 ^ k) ≡ (if j == k then 1 else 0)
unfolding bit
bit-pow zero zero = refl
bit-pow zero (suc k) = ground (arith, half_of_pow k)
bit-pow (suc j) zero = ground (arith, bit-zero j)
bit-pow (suc j) (suc k) = rw ((half_of_pow k).0) (ground (arith, bit-pow j k))

pub bit-bit_xor : (j a b : ℕ) → bit j (bit_xor a b) ≡ (bit j a + bit j b) % 2
unfolding bit
bit-bit_xor zero a b = omega (arith, xor-halves b a)
bit-bit_xor (suc j) a b =
    let half : bit_xor a b / 2 ≡ bit_xor (a / 2) (b / 2) = omega (arith, xor-halves b a) in
    rw half (bit-bit_xor j (a / 2) (b / 2))

pub bit_xor-lt : (n a b : ℕ) → a < 2 ^ n → b < 2 ^ n → bit_xor a b < 2 ^ n
bit_xor-lt zero zero zero p q = omega arith
bit_xor-lt zero zero (suc b) p q = absurd (omega arith)
bit_xor-lt zero (suc a) b p q = absurd (omega arith)
bit_xor-lt (suc n) a b p q = omega (
  arith,
  xor-halves b a,
  pow-suc 2 n,
  bit_xor-lt n (a / 2) (b / 2) (half-lt n a p) (half-lt n b q),
)

-- A number below `2 ^ n` all of whose `n` bits are set.
pub all_ones : (n w : ℕ) → w < 2 ^ n → ((j : ℕ) → j < n → bit j w ≡ 1) → w + 1 ≡ 2 ^ n
unfolding bit
all_ones zero w h ones = omega arith
all_ones (suc n) w h ones = omega (
  arith,
  ones 0 (omega arith),
  pow-suc 2 n,
  all_ones n (w / 2) (half-lt n w h) (λ j p. ones (suc j) (omega arith)),
)

-- A test of every number below a bound.
unfoldable pub each_below : (ℕ → Bool) → ℕ → Bool
each_below test zero = true
each_below test (suc bound) = each_below test bound && test bound

pub each_below_at :
    (test : ℕ → Bool) (bound : ℕ) {x : ℕ} → each_below test bound ≡ true → x < bound → test x ≡ true
unfolding each_below
each_below_at test (suc bound) {x} all lt = ground (arith, each_below_at test bound {x = x})
each_below_at test zero all lt = absurd (omega arith)

-- `^` by the same mask twice gives the word back.
pub bit_xor-bit_xor : (n w m : ℕ) → w < 2 ^ n → m < 2 ^ n → bit_xor (bit_xor w m) m ≡ w
bit_xor-bit_xor zero zero zero p q = refl
bit_xor-bit_xor zero zero (suc m) p q = absurd (omega arith)
bit_xor-bit_xor zero (suc w) m p q = absurd (omega arith)
bit_xor-bit_xor (suc n) w m p q =
    let half : bit_xor w m / 2 ≡ bit_xor (w / 2) (m / 2) = omega (arith, xor-halves m w) in
    omega (
      arith,
      xor-halves m w,
      xor-halves m (bit_xor w m),
      ap (λ t. bit_xor t (m / 2)) half,
      bit_xor-bit_xor n (w / 2) (m / 2) (half-lt n w p) (half-lt n m q),
    )

pub pow-lt_pow : (j k : ℕ) → j < k → 2 ^ j < 2 ^ k
pow-lt_pow j zero h = absurd (omega arith)
pow-lt_pow zero (suc k) h = omega (arith, pow-suc 2 k, pow-pos k)
pow-lt_pow (suc j) (suc k) h = omega (arith, pow-suc 2 j, pow-suc 2 k, pow-lt_pow j k (omega arith))

pub or-halves : (b a : ℕ) → bit_or a b ≡ 2 * bit_or (a / 2) (b / 2) + max (a % 2) (b % 2)
or-halves b (suc a) =
    let whole = bit_or-bitwise (suc a) b in
    let half = bit_or-bitwise (suc a / 2) (b / 2) in
    omega (arith, whole, half, digits-halves (λ t. t) max a b)
or-halves b zero = omega (arith, bit_or-bitwise 0 b, bit_or-bitwise 0 (b / 2))

pub bit-bit_and : (j a b : ℕ) → bit j (bit_and a b) ≡ min (bit j a) (bit j b)
unfolding bit
bit-bit_and zero a b = omega (arith, and-halves b a)
bit-bit_and (suc j) a b =
    let half : bit_and a b / 2 ≡ bit_and (a / 2) (b / 2) = omega (arith, and-halves b a) in
    rw half (bit-bit_and j (a / 2) (b / 2))

pub bit-bit_or : (j a b : ℕ) → bit j (bit_or a b) ≡ max (bit j a) (bit j b)
unfolding bit
bit-bit_or zero a b = omega (arith, or-halves b a)
bit-bit_or (suc j) a b =
    let half : bit_or a b / 2 ≡ bit_or (a / 2) (b / 2) = omega (arith, or-halves b a) in
    rw half (bit-bit_or j (a / 2) (b / 2))

pub bit_and-lt : (n a b : ℕ) → a < 2 ^ n → bit_and a b < 2 ^ n
bit_and-lt zero zero b p = omega (arith, bit_and-bitwise 0 b)
bit_and-lt zero (suc a) b p = absurd (omega arith)
bit_and-lt (suc n) a b p =
    omega (arith, and-halves b a, pow-suc 2 n, bit_and-lt n (a / 2) (b / 2) (half-lt n a p))

pub bit_or-lt : (n a b : ℕ) → a < 2 ^ n → b < 2 ^ n → bit_or a b < 2 ^ n
bit_or-lt zero zero zero p q = omega arith
bit_or-lt zero zero (suc b) p q = absurd (omega arith)
bit_or-lt zero (suc a) b p q = absurd (omega arith)
bit_or-lt (suc n) a b p q =
    let halves = bit_or-lt n (a / 2) (b / 2) (half-lt n a p) (half-lt n b q) in
    omega (arith, or-halves b a, pow-suc 2 n, halves)

digits-keep : (n a : ℕ) → a ≤ n → digits (λ t. t) max n a 0 ≡ a
digits-keep zero zero h = refl
digits-keep zero (suc a) h = absurd (omega arith)
digits-keep (suc n) zero h = refl
digits-keep (suc n) (suc a) h = omega (arith, digits-keep n (suc a / 2) (omega arith))

pub or-nothing : (a : ℕ) → bit_or a 0 ≡ a
or-nothing a = bit_or-bitwise a 0 ∙ digits-keep a a (omega arith)

-- `&` with a mask of ones keeps what is below it.
pub bit_and-ones : (n a : ℕ) → a < 2 ^ n → bit_and a (2 ^ n - 1) ≡ a
bit_and-ones zero zero h = and-nothing 0
bit_and-ones zero (suc a) h = absurd (omega arith)
bit_and-ones (suc n) a h =
    let half : (2 ^ suc n - 1) / 2 ≡ 2 ^ n - 1 = omega (arith, pow-suc 2 n, pow-pos n) in
    omega (
      arith,
      and-halves (2 ^ suc n - 1) a,
      ap (bit_and (a / 2)) half,
      pow-suc 2 n,
      pow-pos n,
      bit_and-ones n (a / 2) (half-lt n a h),
    )
