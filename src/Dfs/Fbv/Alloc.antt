-- ===== src/Dfs/Fbv/Alloc.antt =====
-- DfsAllocateBlock of flat/os/dfs.c takes the first free block.
use os_lab.Prelude.{
  ℕ, zero, suc, ◌+◌, ◌-◌, ◌*◌, ◌/◌, ◌%◌, ◌^◌, ◌≤◌, ◌<◌, ◌≡◌, ◌≢◌, refl, ap, true, false, bit_xor,
  List, ◌∷◌, ◌==◌, if◌then◌else◌, get_or, set, length, arith, inl, inr, Bool-cases,
  get_elem?-eq_get_or, lt→ltb, dec_lt, ℕ_discrete, ==_iff,
}
use os_lab.Prelude.Word.{sub32}
use os_lab.Prelude.Bits.{bit, each_below, each_below_at}
use os_lab.Os.{ok, Event, Lock, fbv_lock, acquire, release, Env}
use os_lab.Dfs.{
  State, dfs_fail, dfs_success, negativeone, dfs_check_system, call, shift_one, Succeeds,
}
use os_lab.Dfs.Fbv.{
  release_return, take_block, allocate_loop, dfs_allocate_block, find_open_block, find_open_bit,
}
use os_lab.Dfs.Fbv.Bits.{used, Found, find_open_bit-Found, used-toggle}

-- The machine uses the low five bits of a shift count.
abbrev pub MasksShift : Env → Type 0
MasksShift env = (c : ℕ) → env.shift_out c ≡ 2 ^ (c % 32)

-- A mounted file system, whose vector of 32-bit words has all the blocks of the superblock.
pub record IsMounted (s : State) : Type 0 where
  pub valid : s.sb.valid ≢ 0
  pub opened : s.is_open ≡ true
  pub words : (i : ℕ) → get_or s.fbv i 0 < 2 ^ 32
  pub in_array : s.sb.num_blocks / 32 ≤ length s.fbv
  pub small : s.sb.num_blocks < 2 ^ 32

pub dfs_check_system-valid :
    (s : State) → s.sb.valid ≢ 0 → s.is_open ≡ true → dfs_check_system s ≡ ok dfs_success s
unfolding dfs_check_system
dfs_check_system-valid s v o = ground arith

pub dfs_check_system-IsMounted : {s : State} → IsMounted s → dfs_check_system s ≡ ok dfs_success s
unfolding dfs_check_system
dfs_check_system-IsMounted v = ground arith

pub history-IsMounted :
    {s : State} (h : List Event) → IsMounted s → IsMounted (record s { history = h })
history-IsMounted h v = record {
  valid = v.valid;
  opened = v.opened;
  words = v.words;
  in_array = v.in_array;
  small = v.small;
}

-- The state after block `p` changes hands: its bit is toggled, and the lock was taken and given back.
abbrev pub toggled : List ℕ → ℕ → List ℕ
toggled fbv p = set fbv (p / 32) (bit_xor (get_or fbv (p / 32) 0) (2 ^ (31 - p % 32)))

ones_used_table : each_below (λ j. bit j 0xFFFF_FFFF == 1) 32 ≡ true
unfolding each_below bit
ones_used_table = refl

bit_ones : (j : ℕ) → j < 32 → bit j 0xFFFF_FFFF ≡ 1
bit_ones j h = (==_iff _ 1).0 (each_below_at _ 32 {x = j} ones_used_table h)

pub shift_one-mask :
    (env : Env) (p : ℕ)
    → MasksShift env
    → p < 2 ^ 32
    → shift_one env (sub32 31 p) ≡ 2 ^ (31 - p % 32)
unfolding shift_one
shift_one-mask env p masks h = elim (dec_lt p 32) [
  | yes q ↦
      let low : sub32 31 p ≡ 31 - p % 32 = omega arith in
      rw (low, lt→ltb (31 - p % 32) 32 (omega arith))
  | no q ↦
      let high : sub32 31 p ≡ 2 ^ 32 + 31 - p = omega arith in
      rw (high, masks (2 ^ 32 + 31 - p)) (ground (arith, exponent))
]
  where
    exponent : (2 ^ 32 + 31 - p) % 32 ≡ 31 - p % 32
    exponent = omega arith

-- The state when a function that held one lock throughout has given it back.
abbrev pub locked : Lock → State → State
locked l s = record s { history = release l ∷ acquire l ∷ s.history }

used_at :
    (fbv : List ℕ) (q at : ℕ) → at < 32 → used fbv (32 * q + (31 - at)) ≡ bit at (get_or fbv q 0)
unfolding used
used_at fbv q at h =
    let word : (32 * q + (31 - at)) / 32 ≡ q = omega arith in
    let place : 31 - (32 * q + (31 - at)) % 32 ≡ at = omega arith in rw (word, place)

used_full : (fbv : List ℕ) (i p : ℕ) → get_or fbv i 0 ≡ negativeone → p / 32 ≡ i → used fbv p ≡ 1
unfolding used
used_full fbv i p full e = rw (e, full) (bit_ones (31 - p % 32) (omega arith))

-- The first word that is not full, at or before the first free block, gives that block.
find_open_block-first :
    (fbv : List ℕ) (i p : ℕ)
    → get_or fbv i 0 < 2 ^ 32
    → get_or fbv i 0 ≢ 0xFFFF_FFFF
    → 32 * i ≤ p
    → used fbv p ≡ 0
    → ((b : ℕ) → b < p → used fbv b ≡ 1)
    → (find_open_block i (get_or fbv i 0) ≡ p) × (i ≡ p / 32)
unfolding find_open_block
find_open_block-first fbv i p small gap lo free below =
    place (find_open_bit-Found (get_or fbv i 0) small gap)
  where
    not_after :
        (f : Found 32 (get_or fbv i 0) (find_open_bit (get_or fbv i 0)))
        → p < 32 * i + (31 - f.at)
        → ⊥
    not_after f lt =
        let same : p ≡ 32 * i + (31 - (31 - p % 32)) = omega arith in
        omega (
          arith,
          free,
          ap (used fbv) same,
          used_at fbv i (31 - p % 32) (omega arith),
          f.above (31 - p % 32) (omega arith) (omega arith),
        )

    place :
        Found 32 (get_or fbv i 0) (find_open_bit (get_or fbv i 0))
        → (32 * i + find_open_bit (get_or fbv i 0) ≡ p) × (i ≡ p / 32)
    place f = elim (dec_lt (32 * i + (31 - f.at)) p) [
      | yes lt ↦ absurd (omega (arith, f.clear, below _ lt, used_at fbv i f.at f.below))
      | no ge ↦ elim (dec_lt p (32 * i + (31 - f.at))) [
        | yes lt ↦ absurd (not_after f lt)
        | no le ↦ omega (arith, f.result, f.below)
      ]
    ]

module _ (env : Env) (succeeds : Succeeds env) where
  pub release_return-ok :
      (l : Lock) (r : ℕ) (s : State)
      → release_return env l r s ≡ ok r (record s { history = release l ∷ s.history })
  unfolding release_return call
  release_return-ok l r s = rw (succeeds (release l ∷ s.history))

  module _ (masks : MasksShift env) where
    take_block-ok :
        (s : State) (p : ℕ)
        → p < 2 ^ 32
        → take_block env (p / 32) (get_or s.fbv (p / 32) 0) p s
          ≡ ok p (record s { fbv = toggled s.fbv p; history = release fbv_lock ∷ s.history })
    unfolding take_block
    take_block-ok s p h = rw (shift_one-mask env p masks h, release_return-ok)

    allocate_loop-first :
        (n i : ℕ) (s : State) (p : ℕ)
        → ((i : ℕ) → get_or s.fbv i 0 < 2 ^ 32)
        → i + n ≤ length s.fbv
        → 32 * i ≤ p
        → p < 32 * (i + n)
        → p < 2 ^ 32
        → used s.fbv p ≡ 0
        → ((b : ℕ) → b < p → used s.fbv b ≡ 1)
        → allocate_loop env n i s
          ≡ ok p (record s { fbv = toggled s.fbv p; history = release fbv_lock ∷ s.history })
    unfolding allocate_loop
    allocate_loop-first zero i s p words room lo hi small free below = absurd (omega arith)
    allocate_loop-first (suc n) i s p words room lo hi small free below =
        rw (get_elem?-eq_get_or s.fbv i 0 (omega arith))
          (elim (Bool-cases (get_or s.fbv i 0 == negativeone)) [
            | inl full ↦ rw full (
                allocate_loop-first n (i + 1) s p words (omega arith)
                  (past ((==_iff (get_or s.fbv i 0) negativeone).0 full)) (omega arith) small free
                  below)
            | inr gap ↦
                found (find_open_block-first s.fbv i p (words i) (ground arith) lo free below) gap
          ])
      where
        past : get_or s.fbv i 0 ≡ negativeone → 32 * (i + 1) ≤ p
        past full = elim (dec_lt p (32 * (i + 1))) [
          | yes lt ↦ absurd (omega (arith, free, used_full s.fbv i p full (omega arith)))
          | no ge ↦ omega arith
        ]

        found :
            (find_open_block i (get_or s.fbv i 0) ≡ p) × (i ≡ p / 32)
            → (get_or s.fbv i 0 == negativeone) ≡ false
            → (if get_or s.fbv i 0 == negativeone
                  then allocate_loop env n (i + 1)
                  else take_block env i (get_or s.fbv i 0) (find_open_block i (get_or s.fbv i 0)))
                s
              ≡ ok p (record s { fbv = toggled s.fbv p; history = release fbv_lock ∷ s.history })
        found (block, at) gap = rw (gap, block, at) (take_block-ok s p small)

    -- DfsAllocateBlock on a mounted file system whose first free block is `p`: it returns `p`, marks
    -- `p` as in use, leaves every other block as it was, takes and gives back the lock, and changes
    -- nothing else. Every lock call succeeds, and the machine's shifts use the low five bits of
    -- their count.
    pub dfs_allocate_block-first :
        (s : State) (p : ℕ)
        → IsMounted s
        → p < 32 * (s.sb.num_blocks / 32)
        → used s.fbv p ≡ 0
        → ((b : ℕ) → b < p → used s.fbv b ≡ 1)
        → (dfs_allocate_block env s ≡ ok p (record (locked fbv_lock s) { fbv = toggled s.fbv p }))
          × ((b : ℕ) → used (toggled s.fbv p) b ≡ (if p == b then 1 else used s.fbv b))
    unfolding dfs_allocate_block call
    dfs_allocate_block-first s p v hi free below = (
      rw (dfs_check_system-IsMounted v, succeeds (acquire fbv_lock ∷ s.history))
          (allocate_loop-first (s.sb.num_blocks / 32) 0
            (record s { history = acquire fbv_lock ∷ s.history }) p v.words
            (omega (arith, v.in_array)) (omega arith) (omega arith) (omega (arith, v.small)) free
            below),
      λ b. ground (arith, used-toggle s.fbv p b (omega (arith, v.in_array)), free),
    )

  allocate_loop-full :
      (n i : ℕ) (s : State)
      → ((i : ℕ) → get_or s.fbv i 0 < 2 ^ 32)
      → i + n ≤ length s.fbv
      → ((b : ℕ) → b < 32 * (i + n) → used s.fbv b ≡ 1)
      → allocate_loop env n i s ≡ ok dfs_fail (record s { history = release fbv_lock ∷ s.history })
  unfolding allocate_loop
  allocate_loop-full zero i s words room all = release_return-ok fbv_lock dfs_fail s
  allocate_loop-full (suc n) i s words room all =
      rw
        (
          get_elem?-eq_get_or s.fbv i 0 (omega arith),
          full (ℕ_discrete (get_or s.fbv i 0) negativeone),
        )
        (allocate_loop-full n (i + 1) s words (omega arith) (λ b p. all b (omega arith)))
    where
      full : Dec (get_or s.fbv i 0 ≡ negativeone) → (get_or s.fbv i 0 == negativeone) ≡ true
      full (yes e) = (==_iff (get_or s.fbv i 0) negativeone).1 e
      full (no ne) = absurd (clear (find_open_bit-Found (get_or s.fbv i 0) (words i) ne))
        where
          clear : Found 32 (get_or s.fbv i 0) (find_open_bit (get_or s.fbv i 0)) → ⊥
          clear f = omega (
            arith,
            f.clear,
            f.below,
            used_at s.fbv i f.at f.below,
            all (32 * i + (31 - f.at)) (omega (arith, f.below)),
          )

  -- DfsAllocateBlock on a mounted file system all of whose blocks are in use: it returns DFS_FAIL
  -- and changes nothing but that it took and gave back the lock. Every lock call succeeds.
  pub dfs_allocate_block-full :
      (s : State)
      → IsMounted s
      → ((b : ℕ) → b < 32 * (s.sb.num_blocks / 32) → used s.fbv b ≡ 1)
      → dfs_allocate_block env s ≡ ok dfs_fail (locked fbv_lock s)
  unfolding dfs_allocate_block call
  dfs_allocate_block-full s v all =
      rw (dfs_check_system-IsMounted v, succeeds (acquire fbv_lock ∷ s.history))
        (allocate_loop-full (s.sb.num_blocks / 32) 0
          (record s { history = acquire fbv_lock ∷ s.history }) v.words (omega (arith, v.in_array))
          (λ b p. all b (omega arith)))
