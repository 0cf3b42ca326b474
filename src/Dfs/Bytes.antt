-- ===== src/Dfs/Bytes.antt =====
-- DfsInodeReadBytes and DfsInodeWriteBytes of flat/os/dfs.c. Arguments are 32-bit patterns, and sums
-- and differences wrap as the machine's do.
pub mod Laws
pub mod FirstBlock
use os_lab.Prelude.{
  ℕ, zero, suc, ◌+◌, ◌/◌, ◌%◌, ◌^◌, Bool, true, false, not, Option, none, some, List, ◌==◌, ltb,
  leb, if◌then◌else◌, replicate,
}
use os_lab.Prelude.Word.{add32, sub32}
use os_lab.Os.{Cmd, pure, gets, ◌>>=◌, ◌>>◌, inode_lock, acquire, Env, undefined_behaviour}
use os_lab.Dfs.{State, Inode, dfs_fail, from_array, get_inode, set_inode, dfs_check_system, call}
use os_lab.Dfs.Fbv.{release_return}
use os_lab.Dfs.Block.{slice, overwrite, dfs_read_block, dfs_write_block}
use os_lab.Dfs.Inodes.{validate_input}
use os_lab.Dfs.Virtual.{uninitialised, dfs_inode_allocate_virtual_block, dfs_inode_translate}

-- The locals that both functions compute from a range of bytes.
pub record Range : Type 0 where
  pub starting_bytes : ℕ
  pub ending_bytes : ℕ
  pub mid_blocks : ℕ
  pub first_block : ℕ
  pub one_block : Bool

unfoldable pub range_of : ℕ → ℕ → ℕ → Range
range_of block_size start_byte num_bytes =
    let starting = sub32 block_size start_byte % block_size in
    let ending = add32 start_byte num_bytes % block_size in
    let one = ltb num_bytes (add32 starting ending) in
    record {
      starting_bytes = starting;
      ending_bytes = ending;
      mid_blocks = if one then 0 else sub32 (sub32 num_bytes starting) ending / block_size;
      first_block = start_byte / block_size;
      one_block = one;
    }

-- `bcopy(&src[from], &dst[to], count)`: the destination after the copy. A negative count copies nothing.
abbrev pub copied : Option (List ℕ) → List ℕ → ℕ → Option (List ℕ)
copied none dst to = none
copied (some bytes) dst to = overwrite dst to bytes

unfoldable pub bcopy : List ℕ → ℕ → List ℕ → ℕ → ℕ → Option (List ℕ)
bcopy src from dst to count =
    if leb (2 ^ 31) count then some dst else copied (slice src from count) dst to

-- How far a transfer has come: the block that is next, the bytes done, the local block buffer, and
-- the caller's memory.
pub record Transfer : Type 0 where
  pub current_block : ℕ
  pub bytes : ℕ
  pub data_block : List ℕ
  pub memory : List ℕ

abbrev pub advance : Transfer → Transfer
advance t = record t { current_block = add32 t.current_block 1 }

-- `bzero(data_block.data, sb.block_size)`
unfoldable pub clear_block : Transfer → Cmd State Transfer
clear_block t = do
  size ← gets (λ s. s.sb.block_size)
  block ← from_array (overwrite t.data_block 0 (replicate size 0))
  pure (record t { data_block = block })

-- `if((start_byte + num_bytes) > inodes[handle].size) inodes[handle].size = start_byte + num_bytes`
abbrev pub grow : ℕ → ℕ → Cmd State (Unit {0})
grow handle end = do
  inode ← get_inode handle
  if ltb inode.size end then set_inode handle (record inode { size = end }) else pure tt

-- A step of a transfer says whether it has not failed.
abbrev pub Step : Type 0
Step = Transfer → Cmd State (Bool × Transfer)

-- The loop over the whole blocks, and the sequence of parts; `part from count` moves `count` bytes at
-- offset `from` of the current block.
unfoldable pub mid_loop : (ℕ → ℕ → Step) → ℕ → ℕ → Step
mid_loop part block_size zero t = pure (true, t)
mid_loop part block_size (suc n) t = do
  (fine, t') ← part 0 block_size t
  if fine then mid_loop part block_size n (advance t') else pure (false, t')

unfoldable pub start_part : (ℕ → ℕ → Step) → ℕ → ℕ → Step
start_part part block_size starting_bytes t = if starting_bytes == 0 then pure (true, t) else do
  (fine, t') ← part (sub32 block_size starting_bytes) starting_bytes t
  pure (fine, if fine then advance t' else t')

unfoldable pub end_part : (ℕ → ℕ → Step) → ℕ → Step
end_part part ending_bytes t =
    if ending_bytes == 0 then pure (true, t) else do t' ← clear_block t; part 0 ending_bytes t'

-- What both functions do once the blocks are there, over their own `part`. The case of one block
-- returns from within, with the inode lock held.
unfoldable pub move_range : (ℕ → ℕ → Step) → ℕ → ℕ → Range → Step
move_range part block_size num_bytes range t0 = do
  t ← clear_block t0
  if range.one_block
      then (if num_bytes == 0
          then pure (true, t)
          else part (sub32 block_size num_bytes) num_bytes t)
      else (do
        (fine, t1) ← start_part part block_size range.starting_bytes t
        if not fine then pure (false, t1) else do
          (fine2, t2) ← mid_loop part block_size range.mid_blocks t1
          if not fine2 then pure (false, t2) else end_part part range.ending_bytes t2)

module _ (env : Env) where
  -- One part of a read: from a block of the file system into the caller's memory.
  unfoldable pub read_part : ℕ → ℕ → Step
  read_part from count t = do
    (r, block) ← dfs_read_block env t.current_block t.data_block
    if r == dfs_fail then pure (false, record t { data_block = block }) else do
      memory ← from_array (bcopy block from t.memory t.bytes count)
      pure (true, record t { data_block = block; memory = memory; bytes = add32 t.bytes count })

  -- One part of a write: the block is read, changed and written back.
  unfoldable pub write_part : ℕ → ℕ → Step
  write_part from count t = do
    (r, old) ← dfs_read_block env t.current_block t.data_block
    if r == dfs_fail then pure (false, record t { data_block = old }) else do
      block ← from_array (bcopy t.memory t.bytes old from count)
      w ← dfs_write_block env t.current_block block
      pure (not (w == dfs_fail), record t { data_block = block; bytes = add32 t.bytes count })

  -- `for(i = 0; i <= …; i++)` over the virtual blocks of a read; false is the error return.
  unfoldable pub verify_loop : ℕ → ℕ → ℕ → Cmd State Bool
  verify_loop zero handle i = pure true
  verify_loop (suc n) handle i =
      let rest = verify_loop n handle (i + 1) in
      do
        block_handle ← dfs_inode_translate env handle i
        if block_handle == 0 then pure false else rest

  -- The same loop of a write.
  unfoldable pub allocate_blocks : ℕ → ℕ → ℕ → Cmd State Bool
  allocate_blocks zero handle i = pure true
  allocate_blocks (suc n) handle i =
      let rest = allocate_blocks n handle (i + 1) in
      do
        block_handle ← dfs_inode_allocate_virtual_block env handle i
        if not (block_handle == 0) then rest else do
          again ← dfs_inode_allocate_virtual_block env handle i
          if again == dfs_fail then pure false else rest

  -- The end of both functions: the size, the lock, the count.
  unfoldable pub finish : ℕ → ℕ → Bool → Bool × Transfer → Cmd State (ℕ × List ℕ)
  finish handle end one_block (false, t) = pure (dfs_fail, t.memory)
  finish handle end true (true, t) = pure (t.bytes, t.memory)
  finish handle end false (true, t) = do
    grow handle end
    r ← release_return env inode_lock t.bytes
    pure (r, t.memory)

  -- What both functions do first; `ready` is the loop over the virtual blocks.
  unfoldable pub transfer_bytes :
      (ℕ → ℕ → ℕ → Cmd State Bool) → (ℕ → ℕ → Step) → ℕ → List ℕ → ℕ → ℕ → Cmd State (ℕ × List ℕ)
  transfer_bytes ready part handle mem start_byte num_bytes = do
    block_size ← gets (λ s. s.sb.block_size)
    if block_size == 0 then undefined_behaviour else do
      c ← dfs_check_system
      if c == dfs_fail then pure (dfs_fail, mem) else do
        got ← call env (acquire inode_lock)
        if not got then pure (dfs_fail, mem) else do
          validated ← validate_input handle start_byte num_bytes
          if validated == 0 then pure (dfs_fail, mem) else do
            there ← ready (add32 start_byte num_bytes / block_size + 1) handle 0
            if not there then pure (dfs_fail, mem) else do
              block ← uninitialised env 0
              let range = range_of block_size start_byte num_bytes
              moved ← move_range part block_size num_bytes range (record {
                current_block = range.first_block;
                bytes = 0;
                data_block = block;
                memory = mem;
              })
              finish handle (add32 start_byte num_bytes) range.one_block moved

  -- The result, and the caller's memory.
  unfoldable pub dfs_inode_read_bytes : ℕ → List ℕ → ℕ → ℕ → Cmd State (ℕ × List ℕ)
  dfs_inode_read_bytes = transfer_bytes verify_loop read_part

  unfoldable pub dfs_inode_write_bytes : ℕ → List ℕ → ℕ → ℕ → Cmd State (ℕ × List ℕ)
  dfs_inode_write_bytes = transfer_bytes allocate_blocks write_part
