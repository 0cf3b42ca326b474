-- ===== src/Dfs/Fbv/Bits.antt =====
-- The blocks that a free block vector marks as in use, independently of the code's masks, and what
-- find_Open_Bit and the masks do to them.
use os_lab.Prelude.{
  ℕ, zero, suc, ◌-◌, ◌/◌, ◌%◌, ◌^◌, ◌≤◌, ◌<◌, ◌≡◌, ◌≢◌, refl, ◌⊎◌, inl, inr, bit_xor, List, ◌==◌,
  if◌then◌else◌, get_or, set, length, arith, Bool-cases, dec_lt, ℕ_discrete, get_or-set_self,
  get_or-set_ne,
}
use os_lab.Prelude.Bits.{bit, bit-le, bit_test, bit-pow, bit-bit_xor, all_ones}
use os_lab.Dfs.Fbv.{find_bit, find_open_bit}

-- 1 if block `b` is in use, 0 if it is free.
unfoldable pub used : List ℕ → ℕ → ℕ
used fbv b = bit (31 - b % 32) (get_or fbv (b / 32) 0)

pub used-le : (fbv : List ℕ) (b : ℕ) → used fbv b ≤ 1
unfolding used
used-le fbv b = bit-le (31 - b % 32) (get_or fbv (b / 32) 0)

-- What find_Open_Bit has found when it stops: the highest clear bit, as its distance from bit 31.
pub record Found (top w : ℕ) (r : ℕ) : Type 0 where
  pub at : ℕ
  pub below : at < top
  pub result : r ≡ 31 - at
  pub clear : bit at w ≡ 0
  pub above : (k : ℕ) → at < k → k < top → bit k w ≡ 1

find_bit_cases : (i w : ℕ) → i ≤ 32 → Found i w (find_bit i w) ⊎ ((k : ℕ) → k < i → bit k w ≡ 1)
unfolding find_bit
find_bit_cases zero w h = inr (λ k p. absurd (omega arith))
find_bit_cases (suc i) w h = elim (Bool-cases (bit i w == 0)) [
  | inl e ↦
      rw (bit_test i w, e)
        (inl (record {
          at = i;
          below = omega arith;
          result = refl;
          clear = ground arith;
          above = λ k p q. absurd (omega arith);
        }))
  | inr e ↦
      rw (bit_test i w, e) (step (ground (arith, bit-le i w)) (find_bit_cases i w (omega arith)))
]
  where
    set_above : bit i w ≡ 1 → (k : ℕ) → k < suc i → (k < i → bit k w ≡ 1) → bit k w ≡ 1
    set_above e k q rest = elim (dec_lt k i) [
      | yes p ↦ rest p
      | no p ↦ let same : k ≡ i = omega arith in rw same e
    ]

    step :
        bit i w ≡ 1
        → Found i w (find_bit i w) ⊎ ((k : ℕ) → k < i → bit k w ≡ 1)
        → Found (suc i) w (find_bit i w) ⊎ ((k : ℕ) → k < suc i → bit k w ≡ 1)
    step e (inl f) = inl (record {
      at = f.at;
      below = omega arith;
      result = f.result;
      clear = f.clear;
      above = λ k p q. set_above e k q (λ r. f.above k p r);
    })
    step e (inr all) = inr (λ k q. set_above e k q (all k))

-- find_Open_Bit finds the highest clear bit of a word that is not all ones.
pub find_open_bit-Found : (w : ℕ) → w < 2 ^ 32 → w ≢ 0xFFFF_FFFF → Found 32 w (find_open_bit w)
unfolding find_open_bit
find_open_bit-Found w h ne = elim (find_bit_cases 32 w (omega arith)) [
  | inl f ↦ f
  | inr all ↦ absurd (omega (arith, all_ones 32 w h all))
]

-- What toggling block `p` does to every block of the vector.
pub used-toggle :
    (fbv : List ℕ) (p b : ℕ)
    → p / 32 < length fbv
    → used (set fbv (p / 32) (bit_xor (get_or fbv (p / 32) 0) (2 ^ (31 - p % 32)))) b
      ≡ (if p == b then 1 - used fbv b else used fbv b)
unfolding used
used-toggle fbv p b h = elim (ℕ_discrete (p / 32) (b / 32)) [
  | yes e ↦
      rw (← e, get_or-set_self fbv (p / 32) toggled 0 h, bit-bit_xor j word (2 ^ (31 - p % 32)))
        (ground (arith, bit-pow j (31 - p % 32), bit-le j word))
  | no ne ↦ rw (get_or-set_ne fbv (p / 32) (b / 32) toggled 0 ne) (ground arith)
]
  where
    j : ℕ
    j = 31 - b % 32

    word : ℕ
    word = get_or fbv (p / 32) 0

    toggled : ℕ
    toggled = bit_xor word (2 ^ (31 - p % 32))
