-- ===== src/Tests/FileCalls.antt =====
-- A file_open, a file_write and a disk_write_block through their traps, and the theorems on them.
use os_lab.Prelude.{
  ℕ, ◌≡◌, ◌<◌, ◌≤◌, ◌==◌, ◌++◌, length, drop, length-replicate, replicate, if◌then◌else◌, refl,
  false, none, some, List, [], ◌∷◌, arith,
}
use os_lab.Os.{ok, exited}
use os_lab.Disk.{disk_write_block}
use os_lab.Files.{in_dfs, file_fail, file_max_filename_length}
use os_lab.Files.Open.{file_open}
use os_lab.Files.Transfer.{file_write}
use os_lab.Traps.Create.{Space}
use os_lab.Traps.FileCalls.{
  max_mode_length, trap_file_open_handler, trap_file_write_handler, trap_disk_write_block_handler,
}
use os_lab.Traps.FileCalls.Laws.{
  trap_file_open_handler_lem, trap_file_write_handler_lem, trap_disk_write_block_handler_lem,
  BytesAt,
}
use os_lab.Tests.Samples.{machine}
use os_lab.Tests.Files.{desk}

-- The arguments of a file_open of "ab" with mode "r" at address 100, and those of a file_write to entry 0 of
-- the two bytes of "ab" at address 200.
abbrev caller : Space
caller = record {
  byte = λ a.
      if a == 10
      then some b'a'
      else if a == 11
      then some b'b'
      else if a == 20
      then some b'r'
      else some 0;
  word = λ a.
      if a == 100
      then some 10
      else if a == 104
      then some 20
      else if a == 204
      then some 10
      else if a == 208
      then some 2
      else some 0;
}

abbrev ab : List ℕ
ab = b'a' ∷ b'b' ∷ []

abbrev read_only : List ℕ
read_only = b'r' ∷ []

trap_file_open_handler_lem_example :
    (length ab < file_max_filename_length
      → length read_only < max_mode_length
      → trap_file_open_handler caller machine false 100 [] [] (desk 5)
        ≡ file_open machine (ab ++ (0 ∷ [])) (read_only ++ (0 ∷ [])) (desk 5))
    × (file_max_filename_length ≤ length ab
        → trap_file_open_handler caller machine false 100 [] [] (desk 5) ≡ exited)
    × (length ab < file_max_filename_length
        → max_mode_length ≤ length read_only
        → trap_file_open_handler caller machine false 100 [] [] (desk 5) ≡ exited)
trap_file_open_handler_lem_example =
    trap_file_open_handler_lem caller machine 100 10 (desk 5) 20 ab read_only [] [] refl refl
      (omega arith) (omega arith) (refl, (refl, refl)) (refl, refl)

trap_file_write_handler_lem_example :
    (2 ≤ 4096
      → trap_file_write_handler caller machine false 200 (replicate 4096 0) (desk 5)
        ≡ file_write machine 0 (ab ++ drop 2 (replicate 4096 0)) 2 (desk 5))
    × (4096 < 2
        → trap_file_write_handler caller machine false 200 (replicate 4096 0) (desk 5)
          ≡ ok file_fail (desk 5))
trap_file_write_handler_lem_example =
    trap_file_write_handler_lem caller machine 200 10 (desk 5) 0 2 ab (replicate 4096 0) refl refl
      refl (refl, (refl, tt)) refl (length-replicate {A = ℕ} 4096 0) (omega arith)

-- The block at address 10, and what the kernel's local array held.
abbrev block : List ℕ
block = ab ++ replicate 510 0

abbrev garbage : List ℕ
garbage = replicate 512 7

trap_disk_write_block_handler_lem_example :
    (BytesAt caller 10 block
      → trap_disk_write_block_handler caller machine false 200 garbage (desk 5)
        ≡ in_dfs (disk_write_block machine 0 block) (desk 5))
    × (caller.byte 10 ≡ none
        → trap_disk_write_block_handler caller machine false 200 garbage (desk 5)
          ≡ in_dfs (disk_write_block machine 0 garbage) (desk 5))
trap_disk_write_block_handler_lem_example =
    trap_disk_write_block_handler_lem caller machine 200 10 (desk 5) 0 block garbage refl refl refl
      refl
