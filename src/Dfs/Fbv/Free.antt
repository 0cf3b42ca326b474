-- ===== src/Dfs/Fbv/Free.antt =====
-- DfsFreeBlock and block_allocated of flat/os/dfs.c.
use os_lab.Prelude.{
  ℕ, ◌-◌, ◌*◌, ◌/◌, ◌%◌, ◌^◌, ◌<◌, ◌≡◌, ap, false, bit_xor, List, ◌∷◌, ◌==◌, if◌then◌else◌, get_or,
  length, arith, ℕ_discrete, length-set, Bool-cases, inl, inr, get_elem?-eq_get_or, lt→ltb,
  get_or-set_self, set-set, set-get_or,
}
use os_lab.Prelude.Bits.{bit-le, bit_test, bit_xor-bit_xor, pow-lt_pow}
use os_lab.Os.{ok, ◌>>=◌, fbv_lock, acquire, Env}
use os_lab.Dfs.{State, dfs_fail, dfs_success, call, shift_one, Succeeds}
use os_lab.Dfs.Fbv.{block_allocated, dfs_free_block, dfs_allocate_block}
use os_lab.Dfs.Fbv.Bits.{used, used-le, used-toggle}
use os_lab.Dfs.Fbv.Alloc.{
  toggled, locked, MasksShift, IsMounted, dfs_allocate_block-first, release_return-ok,
}

mask-block : (env : Env) (b : ℕ) → shift_one env (31 - b % 32) ≡ 2 ^ (31 - b % 32)
unfolding shift_one
mask-block env b = rw (lt→ltb (31 - b % 32) 32 (omega arith))

-- block_allocated reads the bit of the block, and changes nothing.
pub block_allocated-used :
    (env : Env) (b : ℕ) (s : State)
    → b / 32 < length s.fbv
    → block_allocated env b s ≡ ok (used s.fbv b == 1) s
unfolding block_allocated used
block_allocated-used env b s h =
    rw
      (
        get_elem?-eq_get_or s.fbv (b / 32) 0 h,
        mask-block env b,
        bit_test (31 - b % 32) (get_or s.fbv (b / 32) 0),
      )
      (ap (λ t. ok t s) (ground (arith, bit-le (31 - b % 32) (get_or s.fbv (b / 32) 0))))

-- The vector with block `b` free.
abbrev pub freed : List ℕ → ℕ → List ℕ
freed fbv b = if used fbv b == 1 then toggled fbv b else fbv

toggled-toggled :
    (fbv : List ℕ) (p : ℕ)
    → get_or fbv (p / 32) 0 < 2 ^ 32
    → p / 32 < length fbv
    → toggled (toggled fbv p) p ≡ fbv
toggled-toggled fbv p small h =
    rw
      (
        get_or-set_self fbv (p / 32) (bit_xor (get_or fbv (p / 32) 0) (2 ^ (31 - p % 32))) 0 h,
        set-set,
        bit_xor-bit_xor 32 (get_or fbv (p / 32) 0) (2 ^ (31 - p % 32)) small
            (pow-lt_pow (31 - p % 32) 32 (omega arith)),
      )
      (set-get_or fbv (p / 32) 0)

pub used-freed :
    (fbv : List ℕ) (b : ℕ)
    → b / 32 < length fbv
    → (c : ℕ) → used (freed fbv b) c ≡ (if b == c then 0 else used fbv c)
used-freed fbv b h c = elim (Bool-cases (used fbv b == 1)) [
  | inl e ↦ rw e (ground (arith, used-toggle fbv b c h))
  | inr e ↦ rw e (same e (ℕ_discrete b c))
]
  where
    same : (used fbv b == 1) ≡ false → Dec (b ≡ c) → used fbv c ≡ (if b == c then 0 else used fbv c)
    same e (yes q) = rw (← q) (ground (arith, used-le fbv b))
    same e (no ne) = ground arith

module _ (env : Env) (succeeds : Succeeds env) where
  -- DfsFreeBlock on a block of the vector: it returns DFS_SUCCESS if the block was in use and
  -- DFS_FAIL if it was free already. Afterwards the block is free, every other block is as it was,
  -- the lock has been taken and given back, and nothing else has changed. Every lock call succeeds.
  pub dfs_free_block_lem :
      (b : ℕ) (s : State)
      → b / 32 < length s.fbv
      → (dfs_free_block env b s
          ≡ ok
              (if used s.fbv b == 1 then dfs_success else dfs_fail)
              (record (locked fbv_lock s) { fbv = freed s.fbv b }))
        × ((c : ℕ) → used (freed s.fbv b) c ≡ (if b == c then 0 else used s.fbv c))
  unfolding dfs_free_block call
  dfs_free_block_lem b s h = (
    rw
        (
          succeeds (acquire fbv_lock ∷ s.history),
          block_allocated-used env b (record s { history = acquire fbv_lock ∷ s.history }) h,
        )
        (elim (Bool-cases (used s.fbv b == 1)) [
          | inl e ↦
              rw (e, get_elem?-eq_get_or s.fbv (b / 32) 0 h, mask-block env b)
                (release_return-ok env succeeds fbv_lock dfs_success _)
          | inr e ↦ rw e (release_return-ok env succeeds fbv_lock dfs_fail _)
        ]),
    used-freed s.fbv b h,
  )

  -- A block that DfsAllocateBlock has handed out can be given back: DfsFreeBlock succeeds and the
  -- free block vector is the one before the allocation, word for word. The file system is mounted
  -- and has a free block. Every lock call succeeds, and the machine's shifts use the low five bits
  -- of their count.
  pub dfs_free_block-dfs_allocate_block :
      (s : State) (p : ℕ)
      → MasksShift env
      → IsMounted s
      → p < 32 * (s.sb.num_blocks / 32)
      → used s.fbv p ≡ 0
      → ((b : ℕ) → b < p → used s.fbv b ≡ 1)
      → (dfs_allocate_block env >>= dfs_free_block env) s
        ≡ ok dfs_success (locked fbv_lock (locked fbv_lock s))
  dfs_free_block-dfs_allocate_block s p masks v hi free below =
      let (done, bits) = dfs_allocate_block-first env succeeds masks s p v hi free below in
      let taken : used (toggled s.fbv p) p ≡ 1 = ground (arith, bits p) in
      let inside : p / 32 < length s.fbv = omega (arith, v.in_array) in
      rw (
        done,
        (dfs_free_block_lem p (record (locked fbv_lock s) { fbv = toggled s.fbv p })
            (rw (length-set s.fbv (p / 32) _) inside)).0,
        taken,
        toggled-toggled s.fbv p (v.words (p / 32)) inside,
      )
