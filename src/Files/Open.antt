-- ===== src/Files/Open.antt =====
-- FileOpen and FileDelete of flat/os/files.c.
pub mod Laws
use os_lab.Prelude.{ℕ, zero, suc, ◌+◌, Bool, true, false, not, List, ◌==◌, if◌then◌else◌}
use os_lab.Os.{Cmd, pure, ◌>>=◌, ◌>>◌, Env}
use os_lab.Dfs.{dfs_fail, dfs_success, from_array}
use os_lab.Dfs.Inodes.{dfs_inode_filename_exists, dfs_inode_open}
use os_lab.Dfs.Delete.{dfs_inode_delete}
use os_lab.Misc.{dstrlen, dstrncpy}
use os_lab.Files.{
  Kernel, ModeStatus, undefined, w, same_mode, file_fail, file_success, file_max_open_files, in_dfs,
  get_file, set_file, get_current_pid, get_file_mode, nullify_file_entry, acquire_file_lock,
  release_file_lock, file_release_return,
}

-- The loop that looks for an entry of the inode, with the number of entries left first. It gives
-- `file_fail` for none; false is the error return from within. The entry of another owner only
-- releases the lock.
module _ (env : Env) where
  unfoldable pub find_entry : ℕ → ℕ → ℕ → Cmd Kernel (Bool × ℕ)
  find_entry zero i inode_handle = pure (true, file_fail)
  find_entry (suc n) i inode_handle =
      let rest = find_entry n (i + 1) inode_handle in
      do
        f ← get_file i
        if not (f.inode_handle == inode_handle) then rest else do
          pid ← get_current_pid
          if f.owner_id == pid
              then pure (true, i)
              else do done ← release_file_lock env; pure (done, i)

  -- The case of mode `w`: the file's inode is deleted and a new one opened. It gives the inode's handle;
  -- false is the error return from within.
  unfoldable pub overwrite_file : List ℕ → ℕ → Cmd Kernel (Bool × ℕ)
  overwrite_file filename inode_handle = do
    deleted ←
        (if inode_handle == dfs_fail
          then pure dfs_success
          else in_dfs (dfs_inode_delete env inode_handle))
    if not (deleted == dfs_success) then (release_file_lock env >> pure (false, file_fail)) else do
      handle ← in_dfs (dfs_inode_open env filename)
      if handle == dfs_fail
          then (release_file_lock env >> pure (false, file_fail))
          else pure (true, handle)

  -- The loop that looks for a free entry.
  unfoldable pub find_free : ℕ → ℕ → Cmd Kernel ℕ
  find_free zero i = pure file_fail
  find_free (suc n) i =
      let rest = find_free n (i + 1) in
      do f ← get_file i; if f.inode_handle == file_fail then pure i else rest

  -- The assignments at the end of FileOpen, which returns with the lock held.
  unfoldable pub enter_file : ℕ → List ℕ → ℕ → ModeStatus → Cmd Kernel ℕ
  enter_file file_handle filename inode_handle file_mode = do
    f ← get_file file_handle
    len ← in_dfs (from_array (dstrlen filename))
    name ← in_dfs (from_array (dstrncpy f.filename filename len))
    pid ← get_current_pid
    set_file file_handle (record f {
      filename = name;
      inode_handle = inode_handle;
      owner_id = pid;
      mode = file_mode;
      current_position = 0;
      eof = false;
    })
    pure file_handle

  unfoldable pub file_open : List ℕ → List ℕ → Cmd Kernel ℕ
  file_open filename mode = do
    file_mode ← get_file_mode mode
    got ← acquire_file_lock env
    if not got
        then pure file_fail
        else if same_mode file_mode undefined
        then file_release_return env file_fail
        else do
          known ← in_dfs (dfs_inode_filename_exists filename)
          (go, entry) ←
              (if known == dfs_fail
                then pure (true, file_fail)
                else find_entry file_max_open_files 0 known)
          if not go then pure file_fail else do
            (go2, inode_handle) ←
                (if same_mode file_mode w
                  then overwrite_file filename known
                  else pure (true, known))
            if not go2 then pure file_fail else do
              file_handle ←
                  (if entry == file_fail then find_free file_max_open_files 0 else pure entry)
              go3 ← (if file_handle == file_fail then release_file_lock env else pure true)
              if not go3
                  then pure file_fail
                  else enter_file file_handle filename inode_handle file_mode

  unfoldable pub file_delete : List ℕ → Cmd Kernel ℕ
  file_delete filename = do
    got ← acquire_file_lock env
    if not got then pure file_fail else do
      inode_handle ← in_dfs (dfs_inode_filename_exists filename)
      if inode_handle == dfs_fail then pure file_fail else do
        (go, file_handle) ← find_entry file_max_open_files 0 inode_handle
        if not go
            then pure file_fail
            else if file_handle == dfs_fail
            then file_release_return env file_success
            else do
              deleted ← in_dfs (dfs_inode_delete env inode_handle)
              if not (deleted == dfs_success)
                  then pure file_fail
                  else do nullify_file_entry file_handle; file_release_return env file_success
