-- ===== src/Dfs/Block/Errors.antt =====
-- The error returns of DfsReadBlock and DfsWriteBlock of flat/os/dfs.c.
use os_lab.Prelude.{ℕ, ◌/◌, ◌<◌, ◌≡◌, true, List, ◌∷◌, length}
use os_lab.Os.{ok, block_lock, acquire, Env}
use os_lab.Dfs.{State, dfs_fail, call}
use os_lab.Dfs.Fbv.Bits.{used}
use os_lab.Dfs.Fbv.Alloc.{IsMounted, dfs_check_system-IsMounted}
use os_lab.Dfs.Fbv.Free.{block_allocated-used}
use os_lab.Dfs.Block.{dfs_read_block, dfs_write_block}

-- The state with the block lock taken.
abbrev pub block_locked : State → State
block_locked s = record s { history = acquire block_lock ∷ s.history }

-- DfsReadBlock and DfsWriteBlock of a block that is not in use, on a mounted file system, where the
-- block lock can be had: both return DFS_FAIL, the buffer is as it was, the disk is not touched, and the
-- lock stays taken.
pub dfs_read_block_unallocated :
    (env : Env) (blocknum : ℕ) (buffer : List ℕ) (s : State)
    → env.answer (acquire block_lock ∷ s.history) ≡ true
    → IsMounted s
    → blocknum / 32 < length s.fbv
    → used s.fbv blocknum ≡ 0
    → (dfs_read_block env blocknum buffer s ≡ ok (dfs_fail, buffer) (block_locked s))
      × (dfs_write_block env blocknum buffer s ≡ ok dfs_fail (block_locked s))
unfolding dfs_read_block dfs_write_block call
dfs_read_block_unallocated env blocknum buffer s got v inside free =
    let check = dfs_check_system-IsMounted v in
    let test = block_allocated-used env blocknum (block_locked s) inside in
    (rw (check, got, test, free), rw (check, got, test, free))
