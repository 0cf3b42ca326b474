-- ===== src/Tests/Numbers.antt =====
-- Numbers as text, and the theorems on ditoa and dstrtol.
use os_lab.Prelude.{
  ℕ, ◌≡◌, ◌<◌, ◌≤◌, ◌⊎◌, ◌^◌, inr, refl, some, List, ◌∷◌, replicate, length, arith,
}
use os_lab.Misc.Numbers.{int_min, done, overflow, ditoa, dstrtol}
use os_lab.Misc.Numbers.RoundTrip.{dstrtol-ditoa, ditoa-bounds}

abbrev buffer : List ℕ
buffer = replicate 12 7

room : 10 ≤ length buffer
room = omega arith

dstrtol-ditoa_example :
    (out rest : List ℕ) × (ditoa 1234 buffer ≡ done out) × (dstrtol out 0 ≡ some (1234, 0 ∷ rest))
dstrtol-ditoa_example = dstrtol-ditoa 1234 0 buffer (omega arith) room (inr refl)

-- A number of ten digits.
ditoa-bounds_example :
    ((10 ^ 9 ≤ 1234567890) × (1234567890 ≤ int_min) × (ditoa 1234567890 buffer ≡ overflow))
    ⊎ (((1234567890 < 10 ^ 9) ⊎ (int_min < 1234567890))
        × (out : List ℕ) × (ditoa 1234567890 buffer ≡ done out)
        × (length out ≡ length buffer))
ditoa-bounds_example = ditoa-bounds 1234567890 buffer room
