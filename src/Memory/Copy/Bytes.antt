-- ===== src/Memory/Copy/Bytes.antt =====
-- A copy of bytes between ranges that do not meet.
use os_lab.Prelude.{ℕ, zero, suc, ◌+◌, ◌≡◌, ◌≢◌, ◌<◌, ◌∙◌, refl, arith}
use os_lab.Queue.{put}
use os_lab.Queue.Seg.{put-ne, put_self}
use os_lab.Memory.Copy.{Ram, copy_bytes}

-- An address behind the range keeps its byte, and the others get theirs.
pub copy_bytes-other :
    (n src dst : ℕ) (ram : Ram) (a : ℕ)
    → ((i : ℕ) → i < n → a ≢ dst + i)
    → copy_bytes n src dst ram a ≡ ram a
unfolding copy_bytes
copy_bytes-other zero src dst ram a out = refl
copy_bytes-other (suc n) src dst ram a out =
    let first : dst ≢ a = λ e. out 0 (omega arith) (omega (arith, e)) in
    copy_bytes-other n (src + 1) (dst + 1) (put ram dst (ram src)) a
      (λ i lt. λ e. out (suc i) (omega (arith, lt)) (omega (arith, e)))
    ∙ put-ne ram dst a (ram src) first

pub copy_bytes_lem :
    (n src dst : ℕ) (ram : Ram)
    → ((i j : ℕ) → i < n → j < n → src + i ≢ dst + j)
    → (i : ℕ) → i < n
    → copy_bytes n src dst ram (dst + i) ≡ ram (src + i)
unfolding copy_bytes
copy_bytes_lem zero src dst ram apart i lt = absurd (omega (arith, lt))
copy_bytes_lem (suc n) src dst ram apart zero lt =
    let dst0 : dst + 0 ≡ dst = omega arith in
    let src0 : src + 0 ≡ src = omega arith in
    rw (dst0, src0)
      (copy_bytes-other n (src + 1) (dst + 1) (put ram dst (ram src)) dst
          (λ i h. λ e. absurd (omega (arith, e)))
        ∙ put_self ram dst (ram src))
copy_bytes_lem (suc n) src dst ram apart (suc i) lt =
    let next_dst : dst + suc i ≡ dst + 1 + i = omega arith in
    let next_src : src + suc i ≡ src + 1 + i = omega arith in
    let kept : dst ≢ src + 1 + i = λ e. apart (suc i) 0 lt (omega arith) (omega (arith, e)) in
    rw (next_dst, next_src)
      (copy_bytes_lem n (src + 1) (dst + 1) (put ram dst (ram src))
          (λ j k hj hk.
            λ e. apart (suc j) (suc k) (omega (arith, hj)) (omega (arith, hk)) (omega (arith, e)))
          i (omega (arith, lt))
        ∙ put-ne ram dst (src + 1 + i) (ram src) kept)
