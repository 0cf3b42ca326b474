-- ===== src/Dfs/Mount.antt =====
-- DfsModuleInit, DfsOpenFileSystem and DfsCloseFileSystem of flat/os/dfs.c: the metadata in memory and
-- its bytes on the disk. The source copies the raw bytes of its arrays; since the model keeps
-- fields, it says which bytes those are: structures lie in memory field after field, without padding, each
-- word in the machine's byte order.
pub mod Layout
pub mod Stored
pub mod Save
pub mod Close
use os_lab.Prelude.{
  ℕ, zero, suc, ◌+◌, ◌-◌, ◌*◌, ◌/◌, ◌%◌, Bool, true, false, not, Option, none, some, List, [], ◌∷◌,
  ◌++◌, ◌==◌, if◌then◌else◌, take, drop, replicate,
}
use os_lab.Prelude.Word.{word_mod}
use os_lab.Os.{Cmd, pure, gets, modify, ◌>>=◌, ◌>>◌, Env, undefined_behaviour}
use os_lab.Disk.{disk_bytes_per_block, disk_fail, disk_read_block, disk_write_block}
use os_lab.Dfs.{
  State, Superblock, Inode, dfs_fail, dfs_success, from_array, dfs_check_system, dfs_invalidate,
}
use os_lab.Dfs.Block.{slice, overwrite, read_into}
use os_lab.Dfs.Virtual.{words_of, bytes_of}

-- `sizeof(dfs_superblock)` and `sizeof(dfs_inode)`.
abbrev pub superblock_bytes : ℕ
superblock_bytes = 28

abbrev pub inode_bytes : ℕ
inode_bytes = 96

abbrev pub superblock_words : Superblock → List ℕ
superblock_words sb =
    sb.valid ∷ sb.block_size ∷ sb.num_blocks ∷ sb.start_block_num_inodes_array
    ∷ sb.size_inodes_array ∷ sb.start_block_num_fbv ∷ sb.data_block_start ∷ []

abbrev pub superblock_of : List ℕ → Option Superblock
superblock_of (valid ∷ size ∷ blocks ∷ inodes ∷ number ∷ vector ∷ start ∷ []) = some (record {
  valid = valid;
  block_size = size;
  num_blocks = blocks;
  start_block_num_inodes_array = inodes;
  size_inodes_array = number;
  start_block_num_fbv = vector;
  data_block_start = start;
})
superblock_of _ = none

module _ (env : Env) where
  unfoldable pub bytes_of_inode : Inode → List ℕ
  bytes_of_inode n =
      bytes_of env (n.inuse ∷ n.size ∷ [])
      ++ (n.filename ++ bytes_of env (n.vb_translation_table ++ (n.block_num_indirect_index ∷ [])))

  -- The first word of some bytes, and the inode that lies in 96 bytes.
  abbrev word_at : List ℕ → ℕ → ℕ
  word_at bytes at = env.load_word (take 4 (drop at bytes))

  unfoldable pub inode_of_bytes : List ℕ → Inode
  inode_of_bytes bytes = record {
    inuse = word_at bytes 0;
    size = word_at bytes 4;
    filename = take 44 (drop 8 bytes);
    vb_translation_table = words_of env (take 40 (drop 52 bytes));
    block_num_indirect_index = word_at bytes 92;
  }

  -- The array of inodes as bytes, and `n` inodes from bytes.
  unfoldable pub bytes_of_inodes : List Inode → List ℕ
  bytes_of_inodes [] = []
  bytes_of_inodes (n ∷ ns) = bytes_of_inode n ++ bytes_of_inodes ns

  unfoldable pub inodes_of_bytes : List Inode → List ℕ → List Inode
  inodes_of_bytes [] bytes = []
  inodes_of_bytes (_ ∷ ns) bytes =
      inode_of_bytes bytes ∷ inodes_of_bytes ns (drop inode_bytes bytes)

  -- `bcopy(buffer.data, ptr, diskblocksize)` with `ptr` that many bytes into an array.
  unfoldable pub store_inodes : ℕ → List ℕ → Cmd State (Unit {0})
  store_inodes at bytes = do
    old ← gets (λ s. s.inodes)
    memory ← from_array (overwrite (bytes_of_inodes old) at bytes)
    modify (λ s. record s { inodes = inodes_of_bytes old memory })

  unfoldable pub store_fbv : ℕ → List ℕ → Cmd State (Unit {0})
  store_fbv at bytes = do
    old ← gets (λ s. s.fbv)
    memory ← from_array (overwrite (bytes_of env old) at bytes)
    modify (λ s. record s { fbv = words_of env memory })

  -- The same bytes the other way.
  unfoldable pub load_inodes : ℕ → Cmd State (List ℕ)
  load_inodes at s = from_array (slice (bytes_of_inodes s.inodes) at disk_bytes_per_block) s

  unfoldable pub load_fbv : ℕ → Cmd State (List ℕ)
  load_fbv at s = from_array (slice (bytes_of env s.fbv) at disk_bytes_per_block) s

  -- One disk block on its way in or out; false is an error return. `at` is how far the pointer has come.
  abbrev pub read_disk_block : (ℕ → List ℕ → Cmd State (Unit {0})) → ℕ → ℕ → Cmd State Bool
  read_disk_block store number at = do
    got ← disk_read_block env number
    read_into got (λ bytes. store at bytes >> pure true) (pure false)

  abbrev pub write_disk_block : (ℕ → Cmd State (List ℕ)) → ℕ → ℕ → Cmd State Bool
  write_disk_block load number at = do
    bytes ← load at
    w ← disk_write_block env number bytes
    pure (w == disk_bytes_per_block)

  -- The two nested loops of a transfer: over the disk blocks of one file system block, and over the
  -- file system blocks from block `i`.
  unfoldable pub inner_loop : (ℕ → ℕ → Cmd State Bool) → ℕ → ℕ → ℕ → ℕ → Cmd State Bool
  inner_loop move zero base j at = pure true
  inner_loop move (suc n) base j at =
      let rest = inner_loop move n base (j + 1) (at + disk_bytes_per_block) in
      do fine ← move ((base + j) % word_mod) at; if fine then rest else pure false

  unfoldable pub outer_loop : (ℕ → ℕ → Cmd State Bool) → ℕ → ℕ → ℕ → ℕ → Cmd State Bool
  outer_loop move zero byte_ratio i at = pure true
  outer_loop move (suc n) byte_ratio i at =
      let rest = outer_loop move n byte_ratio (i + 1) (at + byte_ratio * disk_bytes_per_block) in
      do fine ← inner_loop move byte_ratio (byte_ratio * i) 0 at; if fine then rest else pure false

  -- `(sizeof(inodes[0]) * sb.size_inodes_array) / sb.block_size`
  abbrev inodes_blocks : Superblock → ℕ
  inodes_blocks sb = inode_bytes * sb.size_inodes_array % word_mod / sb.block_size

  -- The loops over the array of inodes and over the free block vector.
  unfoldable pub move_inodes : (ℕ → ℕ → Cmd State Bool) → Cmd State Bool
  move_inodes move = do
    sb ← gets (λ s. s.sb)
    outer_loop move (inodes_blocks sb) (sb.block_size / disk_bytes_per_block)
        sb.start_block_num_inodes_array 0

  unfoldable pub move_fbv : (ℕ → ℕ → Cmd State Bool) → Cmd State Bool
  move_fbv move = do
    sb ← gets (λ s. s.sb)
    outer_loop move (sb.data_block_start - sb.start_block_num_fbv)
        (sb.block_size / disk_bytes_per_block) sb.start_block_num_fbv 0

  -- The superblock goes to disk block 1, behind it zeros.
  unfoldable pub write_superblock : Cmd State Bool
  write_superblock = do
    sb ← gets (λ s. s.sb)
    buffer ←
        from_array
          (overwrite (replicate disk_bytes_per_block 0) 0 (bytes_of env (superblock_words sb)))
    w ← disk_write_block env 1 buffer
    pure (not (w == disk_fail))

  -- What DfsOpenFileSystem does with the superblock's block.
  unfoldable pub load_metadata : List ℕ → Cmd State ℕ
  load_metadata buffer = do
    head ← from_array (slice buffer 0 superblock_bytes)
    sb ← from_array (superblock_of (words_of env head))
    modify (λ s. record s { sb = sb })
    if sb.block_size == 0
        then (modify (λ s. record s { is_open = false }) >> pure dfs_fail)
        else (do
          inodes_read ← move_inodes (read_disk_block store_inodes)
          if not inodes_read then pure dfs_fail else do
            vector_read ← move_fbv (read_disk_block store_fbv)
            if not vector_read then pure dfs_fail else do
              dfs_invalidate
              written ← write_superblock
              if not written then pure dfs_fail else do
                modify (λ s. record s { sb = record (s.sb) { valid = 1 } })
                pure dfs_success)

  unfoldable pub dfs_open_file_system : Cmd State ℕ
  dfs_open_file_system = do
    already ← gets (λ s. s.is_open)
    if already then pure dfs_fail else do
      modify (λ s. record s { is_open = true })
      got ← disk_read_block env 1
      read_into got load_metadata (pure dfs_fail)

  unfoldable pub dfs_close_file_system : Cmd State ℕ
  dfs_close_file_system = do
    c ← dfs_check_system
    if c == dfs_fail then pure dfs_fail else do
      size ← gets (λ s. s.sb.block_size)
      if size == 0 then undefined_behaviour else do
        inodes_written ← move_inodes (write_disk_block load_inodes)
        if not inodes_written then pure dfs_fail else do
          vector_written ← move_fbv (write_disk_block load_fbv)
          if not vector_written then pure dfs_fail else do
            written ← write_superblock
            if not written
                then pure dfs_fail
                else do dfs_invalidate; modify (λ s. record s { is_open = false }); pure dfs_success

  -- Without its last statements, LockCreate for the three locks.
  unfoldable pub dfs_module_init : Cmd State (Unit {0})
  dfs_module_init = do dfs_invalidate; dfs_open_file_system; pure tt
