-- ===== src/Dfs/Block.antt =====
-- DfsReadBlock and DfsWriteBlock of flat/os/dfs.c: one file system block is one or more disk blocks.
pub mod Laws
pub mod Errors
use os_lab.Prelude.{
  ℕ, zero, suc, ◌+◌, ◌*◌, ◌/◌, ◌%◌, Option, none, some, List, ◌++◌, ◌==◌, leb, if◌then◌else◌, not,
  take, drop, length,
}
use os_lab.Prelude.Word.{word_mod}
use os_lab.Os.{Cmd, pure, gets, ◌>>=◌, ◌>>◌, block_lock, acquire, Env}
use os_lab.Dfs.{State, from_array, dfs_fail, disk_blocksize, dfs_check_system, call}
use os_lab.Disk.{disk_bytes_per_block, disk_fail, disk_read_block, disk_write_block}
use os_lab.Dfs.Fbv.{release_return, block_allocated}

-- `bcopy(&b[at], …, len)`: the bytes of a buffer, `none` past its end.
abbrev pub slice : List ℕ → ℕ → ℕ → Option (List ℕ)
slice b at len = if leb (at + len) (length b) then some (take len (drop at b)) else none

-- `bcopy(bytes, &b[at], …)`: a buffer with some bytes replaced, `none` past its end.
abbrev pub overwrite : List ℕ → ℕ → List ℕ → Option (List ℕ)
overwrite b at bytes =
    if leb (at + length bytes) (length b)
    then some (take at b ++ (bytes ++ drop (at + length bytes) b))
    else none

-- What follows a disk read: on with the bytes, or out.
abbrev pub read_into : {A : Type 0} → Option (List ℕ) → (List ℕ → A) → A → A
read_into none next out = out
read_into (some bytes) next out = next bytes

module _ (env : Env) where
  -- The loop of DfsReadBlock: rounds left, `i`, the bytes counted so far and the buffer.
  unfoldable pub read_loop : ℕ → ℕ → ℕ → ℕ → ℕ → List ℕ → Cmd State (ℕ × List ℕ)
  read_loop zero blocknum byte_ratio i bytes_written b = do
    r ← release_return env block_lock bytes_written
    pure (r, b)
  read_loop (suc n) blocknum byte_ratio i bytes_written b = do
    got ← disk_read_block env ((blocknum * byte_ratio + i) % word_mod)
    read_into got
        (λ bytes. do
          b' ← from_array (overwrite b (i * disk_bytes_per_block) bytes)
          read_loop n blocknum byte_ratio (i + 1)
              ((bytes_written + disk_bytes_per_block) % word_mod) b')
        (pure (dfs_fail, b))

  -- The result, and the caller's buffer `b` as the call leaves it.
  unfoldable pub dfs_read_block : ℕ → List ℕ → Cmd State (ℕ × List ℕ)
  dfs_read_block blocknum b = do
    byte_ratio ← gets (λ s. s.sb.block_size / disk_bytes_per_block)
    c ← dfs_check_system
    if c == dfs_fail then pure (dfs_fail, b) else do
      got ← call env (acquire block_lock)
      if not got then pure (dfs_fail, b) else do
        allocated ← block_allocated env blocknum
        if not allocated then pure (dfs_fail, b) else read_loop byte_ratio blocknum byte_ratio 0 0 b

  unfoldable pub write_loop : ℕ → ℕ → ℕ → ℕ → ℕ → List ℕ → Cmd State ℕ
  write_loop zero blocknum byte_ratio i bytes_written b =
      release_return env block_lock bytes_written
  write_loop (suc n) blocknum byte_ratio i bytes_written b = do
    db ← from_array (slice b (i * disk_bytes_per_block) disk_bytes_per_block)
    r ← disk_write_block env ((blocknum * byte_ratio + i) % word_mod) db
    if r == disk_fail
        then pure dfs_fail
        else write_loop n blocknum byte_ratio (i + 1)
            ((bytes_written + disk_bytes_per_block) % word_mod) b

  unfoldable pub dfs_write_block : ℕ → List ℕ → Cmd State ℕ
  dfs_write_block blocknum b = do
    byte_ratio ← gets (λ s. s.sb.block_size / disk_bytes_per_block)
    c ← dfs_check_system
    if c == dfs_fail then pure dfs_fail else do
      got ← call env (acquire block_lock)
      if not got then pure dfs_fail else do
        allocated ← block_allocated env blocknum
        if not allocated then pure dfs_fail else write_loop byte_ratio blocknum byte_ratio 0 0 b
