-- ===== src/Dfs/Delete.antt =====
-- DfsInodeDelete of flat/os/dfs.c.
pub mod Laws
use os_lab.Prelude.{
  ℕ, zero, suc, ◌+◌, ◌/◌, Bool, true, false, not, Option, none, some, List, [], ◌∷◌, ◌==◌,
  if◌then◌else◌, get_elem?, set, replicate,
}
use mathlib.Core.Option
use os_lab.Os.{Cmd, pure, gets, ◌>>=◌, ◌>>◌, inode_lock, acquire, Env}
use os_lab.Dfs.{
  State, Inode, dfs_fail, dfs_success, dfs_vb_translation_table_size, dfs_filename_size, from_array,
  get_inode, set_inode, dfs_check_system, call,
}
use os_lab.Dfs.Fbv.{release_return, dfs_free_block}
use os_lab.Dfs.Block.{dfs_read_block}
use os_lab.Dfs.Virtual.{uninitialised, load_vector, write_vector}

module _ (env : Env) where
  -- The loop over the translation table from entry `i`; false is a DfsFreeBlock that failed.
  unfoldable pub free_direct : ℕ → ℕ → ℕ → Cmd State Bool
  free_direct zero handle i = pure true
  free_direct (suc n) handle i =
      let rest = free_direct n handle (i + 1) in
      do
        inode ← get_inode handle
        entry ← from_array (get_elem? inode.vb_translation_table i)
        if entry == 0 then pure true else do
          r ← dfs_free_block env entry
          if r == dfs_fail then pure false else do
            set_inode handle
                (record inode { vb_translation_table = set inode.vb_translation_table i 0 })
            rest

  -- The loop over the indirect vector: the vector with every entry cleared.
  unfoldable pub free_vector : List ℕ → Cmd State (Option (List ℕ))
  free_vector [] = pure (some [])
  free_vector (entry ∷ entries) =
      let rest = (do cleared ← free_vector entries; pure (Option.map (λ ws. 0 ∷ ws) cleared)) in
      if entry == 0
      then rest
      else do r ← dfs_free_block env entry; if r == dfs_fail then pure none else rest

  -- What follows that loop: the vector goes back to the disk, and the inode drops its index.
  unfoldable pub write_cleared : ℕ → ℕ → List ℕ → Option (List ℕ) → Cmd State Bool
  write_cleared handle index block none = pure false
  write_cleared handle index block (some vector) = do
    w ← write_vector env index vector block
    if w == dfs_fail then pure false else do
      inode ← get_inode handle
      set_inode handle (record inode { block_num_indirect_index = 0 })
      pure true

  -- The part about the indirect block; false is a failure.
  unfoldable pub free_indirect : ℕ → Cmd State Bool
  free_indirect handle = do
    inode ← get_inode handle
    if inode.block_num_indirect_index == 0 then pure true else do
      buffer ← uninitialised env 1
      (r, block) ← dfs_read_block env inode.block_num_indirect_index buffer
      if r == dfs_fail then pure false else do
        vector ← load_vector env block
        cleared ← free_vector vector
        write_cleared handle inode.block_num_indirect_index block cleared

  unfoldable pub dfs_inode_delete : ℕ → Cmd State ℕ
  dfs_inode_delete handle = do
    c ← dfs_check_system
    if c == dfs_fail then pure dfs_fail else do
      got ← call env (acquire inode_lock)
      if not got
          then pure dfs_fail
          else if handle == dfs_fail
          then release_return env inode_lock dfs_fail
          else (do
            inode ← get_inode handle
            if inode.inuse == 0 then release_return env inode_lock dfs_fail else do
              direct ← free_direct dfs_vb_translation_table_size handle 0
              if not direct then pure dfs_fail else do
                indirect ← free_indirect handle
                if not indirect then pure dfs_fail else do
                  old ← get_inode handle
                  set_inode handle
                      (record old { inuse = 0; size = 0; filename = replicate dfs_filename_size 0 })
                  release_return env inode_lock dfs_success)
