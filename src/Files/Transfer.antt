-- ===== src/Files/Transfer.antt =====
-- FileRead, FileWrite and FileSeek of flat/os/files.c. Arguments are 32-bit patterns.
use os_lab.Prelude.{ℕ, ◌^◌, Bool, true, not, ◌&&◌, List, ◌==◌, ltb, if◌then◌else◌}
use os_lab.Prelude.Word.{add32, sub32}
use os_lab.Os.{Cmd, pure, ◌>>=◌, ◌>>◌, Env}
use os_lab.Dfs.{dfs_fail}
use os_lab.Dfs.Inodes.{dfs_inode_filesize}
use os_lab.Dfs.Bytes.{dfs_inode_read_bytes, dfs_inode_write_bytes}
use os_lab.Files.{
  Kernel, may_read, may_write, file_fail, file_eof, file_success, file_max_readwrite_bytes, in_dfs,
  get_file, set_file, get_current_pid, acquire_file_lock, release_file_lock, file_release_return,
}

-- The constants of files_shared.h that say where a seek starts.
abbrev pub file_seek_set : ℕ
file_seek_set = 1

abbrev pub file_seek_end : ℕ
file_seek_end = 2

abbrev pub file_seek_cur : ℕ
file_seek_cur = 3

-- `num_bytes > FILE_MAX_READWRITE_BYTES` for an `int`: a pattern from 2 ^ 31 on is negative.
abbrev pub too_many : ℕ → Bool
too_many num_bytes = ltb file_max_readwrite_bytes num_bytes && ltb num_bytes (2 ^ 31)

module _ (env : Env) where
  -- FileRead after DfsInodeReadBytes.
  unfoldable pub finish_read : ℕ → ℕ → List ℕ → Cmd Kernel (ℕ × List ℕ)
  finish_read handle bytes_read memory =
      if bytes_read == dfs_fail
      then (do x ← file_release_return env file_fail; pure (x, memory))
      else (do
        g ← get_file handle
        set_file handle (record g { current_position = add32 g.current_position bytes_read })
        done ← release_file_lock env
        pure (if not done then file_fail else if g.eof then file_eof else bytes_read, memory))

  -- The result, and the caller's memory.
  unfoldable pub file_read : ℕ → List ℕ → ℕ → Cmd Kernel (ℕ × List ℕ)
  file_read handle mem num_bytes = do
    pid ← get_current_pid
    f ← get_file handle
    if not (pid == f.owner_id)
        then pure (file_fail, mem)
        else if not (may_read f.mode)
        then pure (file_fail, mem)
        else if too_many num_bytes
        then pure (file_fail, mem)
        else do
          got ← acquire_file_lock env
          if not got then pure (file_fail, mem) else do
            size ← in_dfs (dfs_inode_filesize f.inode_handle)
            let past = ltb size (add32 f.current_position num_bytes)
            set_file handle (if past then record f { eof = true } else f)
            let count = if past then sub32 size f.current_position else num_bytes
            (bytes_read, memory) ←
                in_dfs (dfs_inode_read_bytes env f.inode_handle mem f.current_position count)
            finish_read handle bytes_read memory

  -- The `if` on the end of the file has an empty body, so that the flag is always set.
  unfoldable pub file_write : ℕ → List ℕ → ℕ → Cmd Kernel ℕ
  file_write handle mem num_bytes = do
    pid ← get_current_pid
    f ← get_file handle
    if not (pid == f.owner_id)
        then pure file_fail
        else if not (may_write f.mode)
        then pure file_fail
        else if too_many num_bytes
        then pure file_fail
        else do
          got ← acquire_file_lock env
          if not got then pure file_fail else do
            size ← in_dfs (dfs_inode_filesize f.inode_handle)
            set_file handle (record f { eof = true })
            (bytes_written, memory) ←
                in_dfs (dfs_inode_write_bytes env f.inode_handle mem f.current_position num_bytes)
            if bytes_written == dfs_fail then file_release_return env file_fail else do
              g ← get_file handle
              set_file handle
                  (record g { current_position = add32 g.current_position bytes_written })
              file_release_return env bytes_written

  -- The checks after the `switch` of FileSeek; their error returns keep the lock.
  unfoldable pub check_cursor : ℕ → Cmd Kernel ℕ
  check_cursor handle = do
    f ← get_file handle
    if ltb f.current_position 0 then pure file_fail else do
      size ← in_dfs (dfs_inode_filesize f.inode_handle)
      if ltb size f.current_position then pure file_fail else do
        set_file handle (record f { eof = f.current_position == size })
        file_release_return env file_success

  unfoldable pub file_seek : ℕ → ℕ → ℕ → Cmd Kernel ℕ
  file_seek handle num_bytes from_where = do
    pid ← get_current_pid
    f ← get_file handle
    if not (pid == f.owner_id) then pure file_fail else do
      got ← acquire_file_lock env
      if not got
          then pure file_fail
          else if from_where == file_seek_cur
          then (set_file handle (record f { current_position = add32 f.current_position num_bytes })
              >> check_cursor handle)
          else if from_where == file_seek_set
          then (set_file handle (record f { current_position = num_bytes }) >> check_cursor handle)
          else if from_where == file_seek_end
          then (do
            size ← in_dfs (dfs_inode_filesize f.inode_handle)
            set_file handle (record f { current_position = add32 size num_bytes })
            check_cursor handle)
          else file_release_return env file_fail
