-- ===== src/Dfs/Fbv.antt =====
-- The free block vector of flat/os/dfs.c: DfsAllocateBlock, DfsFreeBlock and their helpers. A set
-- bit is a block in use, and block b is bit 31 - b % 32 of word b / 32.
pub mod Bits
pub mod Alloc
pub mod Free
use os_lab.Prelude.{
  ℕ, zero, suc, ◌+◌, ◌-◌, ◌*◌, ◌/◌, ◌%◌, ◌^◌, bit_and, bit_xor, Bool, not, ◌==◌, if◌then◌else◌,
}
use os_lab.Prelude.Word.{sub32}
use os_lab.Os.{Cmd, pure, gets, ◌>>=◌, ◌>>◌, Lock, fbv_lock, acquire, release, Env}
use os_lab.Dfs.{
  State, dfs_fail, dfs_success, negativeone, get_fbv, set_fbv, dfs_check_system, call, shift_one,
}

-- The loop of find_Open_Bit, with the bits above the first argument done.
unfoldable pub find_bit : ℕ → ℕ → ℕ
find_bit zero n = 0
find_bit (suc i) n = if bit_and n (2 ^ i) == 0 then 31 - i else find_bit i n

unfoldable pub find_open_bit : ℕ → ℕ
find_open_bit n = find_bit 32 n

unfoldable pub find_open_block : ℕ → ℕ → ℕ
find_open_block index block_value = 32 * index + find_open_bit block_value

module _ (env : Env) where
  -- `if(LockHandleRelease(l) != SYNC_SUCCESS) return DFS_FAIL; return r;`
  unfoldable pub release_return : Lock → ℕ → Cmd State ℕ
  release_return l r = do done ← call env (release l); pure (if done then r else dfs_fail)

  -- Take block `p`, the first free one, whose word is `w`.
  unfoldable pub take_block : ℕ → ℕ → ℕ → Cmd State ℕ
  take_block i w p = do
    set_fbv i (bit_xor w (shift_one env (sub32 31 p)))
    release_return fbv_lock p

  -- The loop of DfsAllocateBlock from word `i`, with the number of words left first.
  unfoldable pub allocate_loop : ℕ → ℕ → Cmd State ℕ
  allocate_loop zero i = release_return fbv_lock dfs_fail
  allocate_loop (suc n) i = do
    w ← get_fbv i
    if w == negativeone then allocate_loop n (i + 1) else take_block i w (find_open_block i w)

  unfoldable pub dfs_allocate_block : Cmd State ℕ
  dfs_allocate_block = do
    c ← dfs_check_system
    if c == dfs_fail then pure dfs_fail else do
      got ← call env (acquire fbv_lock)
      if not got
          then pure dfs_fail
          else do words ← gets (λ s. s.sb.num_blocks / 32); allocate_loop words 0

  unfoldable pub block_allocated : ℕ → Cmd State Bool
  block_allocated blocknum = do
    w ← get_fbv (blocknum / 32)
    pure (not (bit_and w (shift_one env (31 - blocknum % 32)) == 0))

  unfoldable pub dfs_free_block : ℕ → Cmd State ℕ
  dfs_free_block blocknum = do
    got ← call env (acquire fbv_lock)
    if not got then pure dfs_fail else do
      used ← block_allocated blocknum
      if not used then release_return fbv_lock dfs_fail else do
        w ← get_fbv (blocknum / 32)
        set_fbv (blocknum / 32) (bit_xor w (shift_one env (31 - blocknum % 32)))
        release_return fbv_lock dfs_success
