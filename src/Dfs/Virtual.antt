-- ===== src/Dfs/Virtual.antt =====
-- The translation tables of flat/os/dfs.c: allocating and finding the file system block of a virtual
-- block. The first ten are in the inode, the others in the words of the inode's indirect block.
pub mod Laws
use os_lab.Prelude.{
  ℕ, zero, suc, ◌+◌, ◌-◌, ◌*◌, ◌/◌, List, [], ◌∷◌, ◌++◌, ◌==◌, ltb, if◌then◌else◌, get_elem?, set,
  replicate,
}
use os_lab.Os.{Cmd, pure, gets, ◌>>=◌, ◌>>◌, Env}
use os_lab.Dfs.{
  State, Inode, dfs_fail, dfs_success, dfs_vb_translation_table_size, from_array, get_inode,
  set_inode, dfs_check_system,
}
use os_lab.Dfs.Fbv.{dfs_allocate_block}
use os_lab.Dfs.Block.{slice, overwrite, dfs_read_block, dfs_write_block}

module _ (env : Env) where
  -- The words that lie in a list of bytes, and the bytes of words.
  unfoldable pub words_of : List ℕ → List ℕ
  words_of (a ∷ b ∷ c ∷ d ∷ rest) = env.load_word (a ∷ b ∷ c ∷ d ∷ []) ∷ words_of rest
  words_of _ = []

  unfoldable pub bytes_of : List ℕ → List ℕ
  bytes_of [] = []
  bytes_of (w ∷ ws) = env.store_word w ++ bytes_of ws

  -- The bytes of the `k`-th local array of a function, which C does not initialise.
  abbrev pub uninitialised : ℕ → Cmd State (List ℕ)
  uninitialised k = gets (λ s. env.garbage k s.history)

  -- `bcopy(block.data, vector, sb.block_size)`, where the vector has that many bytes.
  unfoldable pub load_vector : List ℕ → Cmd State (List ℕ)
  load_vector block = do
    size ← gets (λ s. s.sb.block_size)
    bytes ← from_array (slice block 0 size)
    pure (words_of bytes)

  -- `v[i] = w` on such a vector.
  unfoldable pub set_word : List ℕ → ℕ → ℕ → Cmd State (List ℕ)
  set_word v i w = do old ← from_array (get_elem? v i); pure (set v i w)

  -- `bcopy(vector, block.data, sb.block_size)` and DfsWriteBlock.
  unfoldable pub write_vector : ℕ → List ℕ → List ℕ → Cmd State ℕ
  write_vector blocknum vector block = do
    bytes ← from_array (overwrite block 0 (bytes_of vector))
    dfs_write_block env blocknum bytes

  -- The branch of DfsInodeAllocateVirtualBlock for an inode with no indirect block.
  unfoldable pub start_indirect : ℕ → ℕ → Cmd State ℕ
  start_indirect handle virtual_blocknum = do
    garbage ← uninitialised 0
    vector ← load_vector garbage
    block ← uninitialised 1
    block_handle ← dfs_allocate_block env
    if block_handle == dfs_fail then pure dfs_fail else do
      inode ← get_inode handle
      set_inode handle (record inode { block_num_indirect_index = block_handle })
      vector' ← set_word vector (virtual_blocknum - dfs_vb_translation_table_size) block_handle
      size ← gets (λ s. s.sb.block_size)
      cleared ← from_array (overwrite block 0 (replicate size 0))
      dfs_write_block env block_handle cleared
      write_vector block_handle vector' cleared
      pure dfs_fail

  -- The branch for an inode that has one.
  unfoldable pub extend_indirect : ℕ → ℕ → Cmd State ℕ
  extend_indirect handle virtual_blocknum = do
    block_handle ← dfs_allocate_block env
    if block_handle == dfs_fail then pure dfs_fail else do
      inode ← get_inode handle
      buffer ← uninitialised 1
      (r, block) ← dfs_read_block env inode.block_num_indirect_index buffer
      if r == dfs_fail then pure dfs_fail else do
        vector ← load_vector block
        vector' ← set_word vector (virtual_blocknum - dfs_vb_translation_table_size) block_handle
        write_vector inode.block_num_indirect_index vector' block
        pure dfs_fail

  -- A transfer of the vector that fails and one that succeeds both lead to `return DFS_FAIL`.
  unfoldable pub dfs_inode_allocate_virtual_block : ℕ → ℕ → Cmd State ℕ
  dfs_inode_allocate_virtual_block handle virtual_blocknum = do
    c ← dfs_check_system
    if c == dfs_fail
        then pure dfs_fail
        else if ltb virtual_blocknum 10
        then (do
          block_handle ← dfs_allocate_block env
          if block_handle == dfs_fail then pure dfs_fail else do
            inode ← get_inode handle
            set_inode handle (record inode {
              vb_translation_table = set inode.vb_translation_table virtual_blocknum block_handle;
            })
            pure dfs_success)
        else (do
          inode ← get_inode handle
          if inode.block_num_indirect_index == 0
              then start_indirect handle virtual_blocknum
              else extend_indirect handle virtual_blocknum)

  unfoldable pub dfs_inode_translate : ℕ → ℕ → Cmd State ℕ
  dfs_inode_translate handle virtual_blocknum = do
    inode ← get_inode handle
    c ← dfs_check_system
    if c == dfs_fail
        then pure dfs_fail
        else if ltb virtual_blocknum 10
        then from_array (get_elem? inode.vb_translation_table virtual_blocknum)
        else if inode.block_num_indirect_index == 0
        then pure dfs_fail
        else (do
          buffer ← uninitialised 1
          (r, block) ← dfs_read_block env inode.block_num_indirect_index buffer
          if r == dfs_fail then pure dfs_fail else do
            vector ← load_vector block
            from_array (get_elem? vector (virtual_blocknum - dfs_vb_translation_table_size)))
