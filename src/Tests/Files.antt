-- ===== src/Tests/Files.antt =====
-- Open files of the sample file system.
use os_lab.Prelude.{
  ℕ, zero, suc, ◌<◌, ◌≡◌, ◌≢◌, refl, true, false, [], ◌∷◌, ◌++◌, some, replicate, arith, get_elem?,
}
use os_lab.Os.{Run, ok, fault, exited}
use os_lab.Dfs.{State, Inode, dfs_fail, dfs_check_system, call}
use os_lab.Dfs.Fbv.Alloc.{IsMounted, history-IsMounted}
use os_lab.Misc.Names.{IsText}
use os_lab.Misc.{dstrlen}
use os_lab.Dfs.Inodes.{validate_input}
use os_lab.Dfs.Fbv.{
  release_return, block_allocated, dfs_allocate_block, allocate_loop, take_block, find_open_block,
  find_open_bit, find_bit,
}
use os_lab.Dfs.{shift_one}
use os_lab.Dfs.Block.{dfs_read_block, read_loop, dfs_write_block, write_loop}
use os_lab.Disk.{disk_bytes_per_block, disk_read_block, disk_write_block}
use os_lab.Dfs.Virtual.{
  dfs_inode_allocate_virtual_block, dfs_inode_translate, load_vector, words_of,
}
use os_lab.Dfs.Bytes.{
  dfs_inode_read_bytes, dfs_inode_write_bytes, transfer_bytes, verify_loop, move_range, clear_block,
  range_of, read_part, write_part, allocate_blocks, bcopy, end_part, finish, mid_loop, start_part,
}
use os_lab.Dfs.Inodes.Find.{IsTable, dfs_inode_filename_exists-first}
use os_lab.Files.{
  Kernel, FileDescriptor, ModeStatus, same_mode, may_read, may_write, file_fail, null_entry,
  get_file_mode,
}
use os_lab.Files.Laws.{
  moved, locked_files, unlocked_files, file_seek_lem, file_read_lem, file_write_lem,
}
use os_lab.Files.Transfer.{file_read, file_write, file_seek, file_seek_end}
use os_lab.Files.Open.{file_open}
use os_lab.Files.Open.Laws.{
  IsFirstEntry, taken, entry_of, found_by_owner, file_open-known, file_open-unknown,
}
use os_lab.Tests.Samples.{
  machine, machine-Succeeds, sample, sample-IsMounted, sample-IsTable, hell, hello, world,
  hell_inode,
}

-- Process 5 has the file `hell` open as entry 0; `pid` is the process that runs.
abbrev open_hell : FileDescriptor
open_hell = record {
  filename = hell ++ replicate 40 0;
  inode_handle = 0;
  current_position = 0;
  eof = false;
  mode = ModeStatus.rw;
  file_permissions = 0;
  owner_id = 5;
}

abbrev free_entry : FileDescriptor
free_entry = null_entry (replicate 44 0)

abbrev pub desk : ℕ → Kernel
desk pid = record { dfs = sample; files = open_hell ∷ replicate 14 free_entry; current_pid = pid }

-- The file is empty: its end is byte 0, and byte 7 is past it.
file_seek_lem_example :
    file_seek machine 0 7 file_seek_end (desk 5)
    ≡ ok file_fail (moved (locked_files (desk 5)) 0 open_hell 7 false)
file_seek_lem_example =
    file_seek_lem machine machine-Succeeds 0 7 file_seek_end (desk 5) sample-IsMounted refl refl
      refl (omega arith) (omega arith)

hello-IsText : IsText hello
hello-IsText = omega arith

world-IsText : IsText world
world-IsText = omega arith

read_mode : (k : Kernel) → get_file_mode (b'r' ∷ 0 ∷ []) k ≡ ok ModeStatus.r k
unfolding get_file_mode dstrlen
read_mode k = refl

read_mode-reads : may_read ModeStatus.r ≡ true
unfolding may_read same_mode
read_mode-reads = refl

hell-IsFirstEntry : IsFirstEntry (desk 6).files 0 0 open_hell
hell-IsFirstEntry = record { at = refl; same = refl; before = λ j g lt. absurd (omega arith) }

-- The free entry that a file which is not there gets.
second-IsFirstEntry : IsFirstEntry (desk 6).files file_fail 1 free_entry
second-IsFirstEntry = record { at = refl; same = refl; before = before }
  where
    before :
        (j : ℕ) (g : FileDescriptor)
        → j < 1
        → get_elem? (desk 6).files j ≡ some g
        → g.inode_handle ≢ file_fail
    before zero g lt e same = ground arith
    before (suc j) g lt e same = absurd (omega arith)

sample_locked-IsTable : IsTable (locked_files (desk 6)).dfs
sample_locked-IsTable = record { size = refl; names = sample-IsTable.names }

file_open-unknown_example :
    (file_open machine (world ++ (0 ∷ [])) (b'r' ∷ 0 ∷ []) (desk 6)
      ≡ ok 1 (taken (locked_files (desk 6)) 1 free_entry world dfs_fail ModeStatus.r))
    × IsFirstEntry
        (taken (locked_files (desk 6)) 1 free_entry world dfs_fail ModeStatus.r).files
        file_fail
        1
        (entry_of 6 free_entry world dfs_fail ModeStatus.r)
file_open-unknown_example =
    file_open-unknown machine machine-Succeeds world [] world-IsText (b'r' ∷ 0 ∷ []) ModeStatus.r 1
      (desk 6) (read_mode (desk 6)) read_mode-reads
      (dfs_inode_filename_exists-first world [] world-IsText (omega arith)
        (locked_files (desk 6)).dfs (history-IsMounted _ sample-IsMounted) sample_locked-IsTable)
      second-IsFirstEntry (omega arith) (omega arith)

-- Process 6 opens `hello` and gets the entry that process 5 has for `hell`.
file_open-known_example :
    file_open machine (hello ++ (0 ∷ [])) (b'r' ∷ 0 ∷ []) (desk 6)
    ≡ ok 0
        (taken (found_by_owner (locked_files (desk 6)) open_hell) 0 open_hell hello 0 ModeStatus.r)
file_open-known_example =
    file_open-known machine machine-Succeeds hello [] hello-IsText (b'r' ∷ 0 ∷ []) ModeStatus.r 0 0
      (desk 6) (read_mode (desk 6)) read_mode-reads
      (dfs_inode_filename_exists-first hello [] hello-IsText (omega arith)
        (locked_files (desk 6)).dfs (history-IsMounted _ sample-IsMounted) sample_locked-IsTable)
      (omega arith) hell-IsFirstEntry (omega arith) (omega arith)

-- The file `hell` with 10 bytes in block 20, open to process 5 at byte 2.
abbrev ten_bytes : Inode
ten_bytes = record hell_inode { size = 10; vb_translation_table = 20 ∷ replicate 9 0 }

abbrev reader : FileDescriptor
reader = record open_hell { current_position = 2 }

abbrev shelf : Kernel
shelf = record {
  dfs = record sample { inodes = ten_bytes ∷ [] };
  files = reader ∷ [];
  current_pid = 5;
}

shelf-IsMounted : IsMounted shelf.dfs
shelf-IsMounted = record {
  valid = sample-IsMounted.valid;
  opened = refl;
  words = sample-IsMounted.words;
  in_array = omega arith;
  small = omega arith;
}

abbrev final_state : {A : Type 0} → Run State A → State
final_state (ok a s) = s
final_state fault = sample
final_state exited = sample

read_run :
    dfs_inode_read_bytes machine 0 (9 ∷ 9 ∷ 9 ∷ []) 2 3 (locked_files shelf).dfs
    ≡ ok
        (3, 0 ∷ 0 ∷ 0 ∷ [])
        (final_state (dfs_inode_read_bytes machine 0 (9 ∷ 9 ∷ 9 ∷ []) 2 3 (locked_files shelf).dfs))
unfolding dfs_inode_read_bytes transfer_bytes dfs_check_system call validate_input verify_loop
    dfs_inode_translate move_range clear_block range_of read_part dfs_read_block block_allocated
    shift_one read_loop disk_bytes_per_block disk_read_block release_return bcopy end_part finish
    mid_loop start_part load_vector words_of
read_run = refl

open_modes : (may_read ModeStatus.rw ≡ true) × (may_write ModeStatus.rw ≡ true)
unfolding may_read may_write same_mode
open_modes = (refl, refl)

abbrev after_read : State
after_read =
    final_state (dfs_inode_read_bytes machine 0 (9 ∷ 9 ∷ 9 ∷ []) 2 3 (locked_files shelf).dfs)

file_read_lem_example :
    file_read machine 0 (9 ∷ 9 ∷ 9 ∷ []) 3 shelf
    ≡ ok
        (3, 0 ∷ 0 ∷ 0 ∷ [])
        (unlocked_files (moved (record shelf { dfs = after_read }) 0 reader 5 false))
file_read_lem_example =
    file_read_lem machine machine-Succeeds 0 (9 ∷ 9 ∷ 9 ∷ []) 3 3 shelf shelf-IsMounted refl refl
      refl open_modes.0 (omega arith) (omega arith) (omega arith) read_run

-- Four bytes at byte 2 of the file: the block that is free becomes its first one.
abbrev after_write : State
after_write =
    final_state (dfs_inode_write_bytes machine 0 (9 ∷ 9 ∷ 9 ∷ 9 ∷ []) 2 4 (locked_files shelf).dfs)

write_run :
    dfs_inode_write_bytes machine 0 (9 ∷ 9 ∷ 9 ∷ 9 ∷ []) 2 4 (locked_files shelf).dfs
    ≡ ok (4, 9 ∷ 9 ∷ 9 ∷ 9 ∷ []) after_write
unfolding dfs_inode_write_bytes transfer_bytes dfs_check_system call validate_input allocate_blocks
    dfs_inode_allocate_virtual_block dfs_allocate_block allocate_loop take_block find_open_block
    find_open_bit find_bit move_range clear_block range_of write_part dfs_read_block block_allocated
    shift_one read_loop dfs_write_block write_loop disk_bytes_per_block disk_read_block
    disk_write_block release_return bcopy end_part finish mid_loop start_part
write_run = refl

file_write_lem_example :
    file_write machine 0 (9 ∷ 9 ∷ 9 ∷ 9 ∷ []) 4 shelf
    ≡ ok 4 (unlocked_files (moved (record shelf { dfs = after_write }) 0 reader 6 true))
file_write_lem_example =
    file_write_lem machine machine-Succeeds 0 (9 ∷ 9 ∷ 9 ∷ 9 ∷ []) 4 4 shelf shelf-IsMounted refl
      refl refl open_modes.1 (omega arith) write_run
