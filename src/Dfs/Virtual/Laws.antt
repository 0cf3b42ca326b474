-- ===== src/Dfs/Virtual/Laws.antt =====
-- What DfsInodeAllocateVirtualBlock and DfsInodeTranslateVirtualToFilesys of flat/os/dfs.c promise.
use os_lab.Prelude.{
  ℕ, ◌*◌, ◌/◌, ◌≤◌, ◌<◌, ◌≡◌, ◌==◌, if◌then◌else◌, some, get_elem?, set, arith, lt→ltb, ne→==,
  get_elem?-set_self, get_elem?-set_ne, get_elem?-lt, ℕ_discrete,
}
use os_lab.Os.{ok, Env, fbv_lock}
use os_lab.Dfs.{State, Inode, dfs_fail, dfs_success, dfs_check_system, Succeeds}
use os_lab.Dfs.Fbv.Bits.{used}
use os_lab.Dfs.Fbv.Alloc.{
  IsMounted, MasksShift, dfs_check_system-IsMounted, dfs_check_system-valid, toggled, locked,
  dfs_allocate_block-first,
}
use os_lab.Dfs.Virtual.{
  start_indirect, extend_indirect, dfs_inode_allocate_virtual_block, dfs_inode_translate,
}

start_indirect-fails :
    (env : Env) (handle v : ℕ) (s : State) (r : ℕ) (u : State)
    → start_indirect env handle v s ≡ ok r u
    → r ≡ dfs_fail
unfolding start_indirect
start_indirect-fails env handle v s r u h = ground arith

extend_indirect-fails :
    (env : Env) (handle v : ℕ) (s : State) (r : ℕ) (u : State)
    → extend_indirect env handle v s ≡ ok r u
    → r ≡ dfs_fail
unfolding extend_indirect
extend_indirect-fails env handle v s r u h = ground arith

-- For a virtual block in the indirect range, DfsInodeAllocateVirtualBlock returns nothing but
-- DFS_FAIL.
pub allocate_virtual-indirect :
    (env : Env) (handle v : ℕ) (s : State) {r : ℕ} {u : State}
    → 10 ≤ v
    → dfs_inode_allocate_virtual_block env handle v s ≡ ok r u
    → r ≡ dfs_fail
unfolding dfs_inode_allocate_virtual_block dfs_check_system
allocate_virtual-indirect env handle v s {r} {u} far h =
    ground
      (arith, start_indirect-fails env handle v s r u, extend_indirect-fails env handle v s r u)

-- The state after block `p`, the first free one, became virtual block `v` of inode `handle`.
abbrev pub entered : State → ℕ → Inode → ℕ → ℕ → State
entered s handle n v p = record (locked fbv_lock s) {
  fbv = toggled s.fbv p;
  inodes = set s.inodes handle (record n { vb_translation_table = set n.vb_translation_table v p });
}

module _ (env : Env) (succeeds : Succeeds env) (masks : MasksShift env) where
  pub allocate_virtual-direct :
      (s : State) (handle v p : ℕ) {n : Inode}
      → IsMounted s
      → p < 32 * (s.sb.num_blocks / 32)
      → used s.fbv p ≡ 0
      → ((b : ℕ) → b < p → used s.fbv b ≡ 1)
      → get_elem? s.inodes handle ≡ some n
      → v < 10
      → dfs_inode_allocate_virtual_block env handle v s ≡ ok dfs_success (entered s handle n v p)
  unfolding dfs_inode_allocate_virtual_block
  allocate_virtual-direct s handle v p m hi free below at low =
      let (taken, bits) = dfs_allocate_block-first env succeeds masks s p m hi free below in
      rw (
        dfs_check_system-IsMounted m,
        lt→ltb v 10 low,
        taken,
        ne→== p dfs_fail (omega (arith, m.small)),
        at,
      )

  -- DfsInodeAllocateVirtualBlock for one of the first ten virtual blocks of an inode, on a mounted
  -- file system whose first free block is `p`: it succeeds, the free block vector then has `p` as in
  -- use, and DfsInodeTranslateVirtualToFilesys then gives `p` for that virtual block, and for each
  -- other one of the ten what the table had. Every lock call succeeds, and the machine's shifts use
  -- the low five bits of their count.
  pub translate-allocate_virtual :
      (s : State) (handle v p w b : ℕ) {n : Inode}
      → IsMounted s
      → p < 32 * (s.sb.num_blocks / 32)
      → used s.fbv p ≡ 0
      → ((b : ℕ) → b < p → used s.fbv b ≡ 1)
      → get_elem? s.inodes handle ≡ some n
      → v < 10
      → w < 10
      → get_elem? n.vb_translation_table w ≡ some b
      → (dfs_inode_allocate_virtual_block env handle v s ≡ ok dfs_success (entered s handle n v p))
        × (used (entered s handle n v p).fbv p ≡ 1)
        × (dfs_inode_translate env handle w (entered s handle n v p)
            ≡ ok (if w == v then p else b) (entered s handle n v p))
  unfolding dfs_inode_translate
  translate-allocate_virtual s handle v p w b {n} m hi free below at low lo old =
      let (taken, bits) = dfs_allocate_block-first env succeeds masks s p m hi free below in
      (
        allocate_virtual-direct s handle v p m hi free below at low,
        ground (arith, bits p),
        rw (
          get_elem?-set_self s.inodes handle
              (record n { vb_translation_table = set n.vb_translation_table v p })
              (get_elem?-lt s.inodes handle at),
          entered-check m,
          lt→ltb w 10 lo,
          entry (ℕ_discrete v w),
        ),
      )
    where
      entered-check :
          IsMounted s
          → dfs_check_system (entered s handle n v p) ≡ ok dfs_success (entered s handle n v p)
      entered-check m = dfs_check_system-valid (entered s handle n v p) m.valid m.opened

      entry :
          Dec (v ≡ w)
          → get_elem? (set n.vb_translation_table v p) w ≡ some (if w == v then p else b)
      entry (yes e) =
          rw
            (
              ← e,
              get_elem?-set_self n.vb_translation_table v p
                  (rw e (get_elem?-lt n.vb_translation_table w old)),
            )
            (ground arith)
      entry (no ne) = rw (get_elem?-set_ne n.vb_translation_table p ne, old) (ground arith)
