-- ===== src/Disk.antt =====
-- The disk driver, flat/os/disk.c: blocks of 512 bytes in a host file, reached by the calls of
-- filesys.c. Whether such a call succeeds is the environment's answer; an open that succeeds gives a new
-- descriptor at the start of the file.
pub mod Laws
use os_lab.Prelude.{ℕ, ◌+◌, ◌*◌, Bool, Option, none, some, List, ◌==◌, leb, if◌then◌else◌, not}
use os_lab.Os.{
  Cmd, pure, gets, modify, exited, ◌>>=◌, ◌>>◌, disable_intrs, restore_intrs, fs_open, fs_close,
  fs_seek, fs_read, fs_write, Env,
}
use os_lab.Dfs.{State, dfs_fail, disk_blocksize, disk_numblocks, call}

-- `DISK_FAIL`.
abbrev pub disk_fail : ℕ
disk_fail = 0xFFFF_FFFF

unfoldable pub disk_bytes_per_block : ℕ
disk_bytes_per_block = disk_blocksize

unfoldable pub disk_size : ℕ
disk_size = disk_blocksize * disk_numblocks

-- Put the bytes of a block on the disk.
abbrev pub put_block : ℕ → List ℕ → State → State
put_block n bytes s = record s { disk = λ m. if m == n then bytes else s.disk m }

-- Where a transfer goes: a seek that fails, which the driver does not notice, leaves the file at the start,
-- where FsOpen has put it.
abbrev pub block_at : Bool → ℕ → ℕ
block_at sought blocknum = if sought then blocknum else 0

module _ (env : Env) where
  -- `GracefulExit` if the twelfth character of the disk's name is an X; the name is `b` there.
  abbrev pub check_filename : ℕ → Cmd State (Unit {0})
  check_filename c s = if c == b'X' then exited else pure tt s

  unfoldable pub disk_write_block : ℕ → List ℕ → Cmd State ℕ
  disk_write_block blocknum bytes = if leb disk_numblocks blocknum then pure disk_fail else do
    check_filename b'0'
    call env disable_intrs
    opened ← call env fs_open
    if not opened then pure disk_fail else do
      sought ← call env (fs_seek (blocknum * disk_blocksize))
      let place = block_at sought blocknum
      written ← call env fs_write
      if not written
          then (do
            modify (λ s. put_block place (env.torn s.history (s.disk place)) s)
            call env fs_close
            pure disk_fail)
          else (do
            modify (put_block place bytes)
            call env fs_close
            call env restore_intrs
            pure disk_blocksize)

  -- The bytes read, or `none` for `DISK_FAIL`. The name is tested through a null pointer here.
  unfoldable pub disk_read_block : ℕ → Cmd State (Option (List ℕ))
  disk_read_block blocknum = if leb disk_numblocks blocknum then pure none else do
    check_filename (env.byte_at 11)
    call env disable_intrs
    opened ← call env fs_open
    if not opened then pure none else do
      sought ← call env (fs_seek (blocknum * disk_blocksize))
      done ← call env fs_read
      if not done then (do call env fs_close; pure none) else (do
        bytes ← gets (λ s. s.disk (block_at sought blocknum))
        call env fs_close
        call env restore_intrs
        pure (some bytes))
