-- ===== src/Dfs/Inodes.antt =====
-- The inode table of flat/os/dfs.c: finding and making the inode of a file name, its size, and the
-- check of a transfer's arguments. A file name is the buffer that the pointer leads to.
pub mod Find
pub mod Open
use os_lab.Prelude.{
  ℕ, zero, suc, ◌+◌, ◌^◌, ◌<◌, Bool, not, List, ◌==◌, ltb, leb, if◌then◌else◌, replicate,
}
use os_lab.Os.{Cmd, pure, gets, ◌>>=◌, ◌>>◌, inode_lock, acquire, release, Env}
use os_lab.Dfs.{
  State, Inode, dfs_fail, dfs_success, dfs_filename_size, dfs_vb_translation_table_size,
  dfs_inode_max_num, from_array, get_inode, set_inode, dfs_check_system, call,
}
use os_lab.Dfs.Fbv.{release_return}
use os_lab.Misc.{dstrlen, dstrncmp, dstrncpy}

-- The test of one inode in use by DfsInodeFilenameExists.
unfoldable pub name_matches : List ℕ → Inode → Cmd State Bool
name_matches filename inode = do
  len ← from_array (dstrlen filename)
  order ← from_array (dstrncmp filename inode.filename len)
  pure (order == 0)

-- The loop of DfsInodeFilenameExists, with the number of inodes left first.
unfoldable pub exists_loop : ℕ → ℕ → List ℕ → Cmd State ℕ
exists_loop zero i filename = pure dfs_fail
exists_loop (suc n) i filename =
    let rest = exists_loop n (i + 1) filename in
    do
      inode ← get_inode i
      if inode.inuse == 1
          then (do matches ← name_matches filename inode; if matches then pure i else rest)
          else rest

unfoldable pub dfs_inode_filename_exists : List ℕ → Cmd State ℕ
dfs_inode_filename_exists filename = do
  c ← dfs_check_system
  if c == dfs_fail then pure dfs_fail else do
    len ← from_array (dstrlen filename)
    if ltb dfs_filename_size len
        then pure dfs_fail
        else do n ← gets (λ s. s.sb.size_inodes_array); exists_loop n 0 filename

-- The inode that DfsInodeOpen makes; `name` is its filename after the copy.
abbrev pub fresh_inode : List ℕ → Inode
fresh_inode name = record {
  inuse = 1;
  size = 0;
  filename = name;
  vb_translation_table = replicate dfs_vb_translation_table_size 0;
  block_num_indirect_index = 0;
}

-- The loop of DfsInodeOpen: the index at which it stops, and the handle.
unfoldable pub open_loop : ℕ → ℕ → List ℕ → Cmd State (ℕ × ℕ)
open_loop zero i filename = pure (i, dfs_fail)
open_loop (suc n) i filename =
    let rest = open_loop n (i + 1) filename in
    do
      inode ← get_inode i
      if inode.inuse == 0
          then (do
            name ← from_array (dstrncpy inode.filename filename dfs_filename_size)
            set_inode i (fresh_inode name)
            pure (i, i))
          else rest

unfoldable pub dfs_inode_filesize : ℕ → Cmd State ℕ
dfs_inode_filesize handle = do
  c ← dfs_check_system
  if c == dfs_fail then pure dfs_fail else do inode ← get_inode handle; pure inode.size

-- Arguments are 32-bit patterns: a pattern from 2 ^ 31 on is a negative `int`.
unfoldable pub validate_input : ℕ → ℕ → ℕ → Cmd State ℕ
validate_input handle start_byte num_bytes = do
  c ← dfs_check_system
  if c == dfs_fail then pure dfs_fail else do
    inode ← get_inode handle
    if inode.inuse == 0
        then pure dfs_fail
        else if leb (2 ^ 31) start_byte
        then pure dfs_fail
        else if leb (2 ^ 31) num_bytes
        then pure dfs_fail
        else pure dfs_success

module _ (env : Env) where
  unfoldable pub dfs_inode_open : List ℕ → Cmd State ℕ
  dfs_inode_open filename = do
    c ← dfs_check_system
    if c == dfs_fail then pure dfs_fail else do
      known ← dfs_inode_filename_exists filename
      if not (known == dfs_fail) then pure known else do
        len ← from_array (dstrlen filename)
        if ltb dfs_filename_size len then pure dfs_fail else do
          got ← call env (acquire inode_lock)
          if not got then pure dfs_fail else do
            n ← gets (λ s. s.sb.size_inodes_array)
            (i, handle) ← open_loop n 0 filename
            done ← call env (release inode_lock)
            if not done
                then pure dfs_fail
                else if i == dfs_inode_max_num
                then pure dfs_fail
                else pure handle
