-- ===== src/Memory/Copy.antt =====
-- moveBetweenSpaces of flat/os/memory.c, over the machine's memory as a function from addresses to bytes.
-- The process is given by the size of its page table and the table.
mod Bytes
pub mod Pages
mod Move
pub mod Laws
use os_lab.Prelude.{
  ℕ, zero, suc, ◌+◌, ◌-◌, ◌%◌, ◌^◌, Bool, true, false, ◌&&◌, ◌||◌, Option, none, some, List, ◌==◌,
  ltb, leb, min, if◌then◌else◌,
}
use os_lab.Os.{Cmd, ok, fault, pure, modify, undefined_behaviour, ◌>>=◌, ◌>>◌}
use os_lab.Queue.{put}
use os_lab.Memory.{memory_page_size, memory_translate_user_to_system}

abbrev pub Ram : Type 0
Ram = ℕ → ℕ

-- bcopy, forwards byte by byte, so that later bytes are read behind the earlier writes.
pub copy_bytes : ℕ → ℕ → ℕ → Ram → Ram
copy_bytes zero src dst ram = ram
copy_bytes (suc count) src dst ram = copy_bytes count (src + 1) (dst + 1) (put ram dst (ram src))

-- The bytes of one round: what is left on the page, or what is left to copy.
abbrev pub bytes_to_copy : ℕ → ℕ → ℕ
bytes_to_copy cur_user n =
    let left = memory_page_size - cur_user % memory_page_size in if ltb n left then n else left

-- The `while` loop; `true` copies from system space (`s`) to user space (`u`). The fuel is the number of
-- rounds that are left, each of which copies at least one byte.
pub move_loop : ℕ → ℕ → List ℕ → Bool → ℕ → ℕ → ℕ → ℕ → Cmd Ram ℕ
move_loop zero npages pagetable dir s u n bytes_copied =
    if n == 0 then pure bytes_copied else undefined_behaviour
move_loop (suc fuel) npages pagetable dir s u n bytes_copied =
    let rest =
      λ (b : ℕ). move_loop fuel npages pagetable dir (s + b) (u + b) (n - b) (bytes_copied + b) in
    if n == 0
    then pure bytes_copied
    else elim (memory_translate_user_to_system npages pagetable u) [
      | none ↦ undefined_behaviour
      | some zero ↦ pure bytes_copied
      | some (suc c) ↦
          let b = bytes_to_copy (suc c) n in
          modify (λ ram. if dir then copy_bytes b s (suc c) ram else copy_bytes b (suc c) s ram)
          >> rest b
    ]

-- A count that is negative as an `int` copies nothing.
pub move_between_spaces : ℕ → List ℕ → Bool → ℕ → ℕ → ℕ → Cmd Ram ℕ
move_between_spaces npages pagetable dir s u n =
    let rounds = if leb (2 ^ 31) n then 0 else n in
    move_loop rounds npages pagetable dir s u rounds 0

pub memory_copy_system_to_user : ℕ → List ℕ → ℕ → ℕ → ℕ → Cmd Ram ℕ
memory_copy_system_to_user npages pagetable from to n =
    move_between_spaces npages pagetable true from to n

pub memory_copy_user_to_system : ℕ → List ℕ → ℕ → ℕ → ℕ → Cmd Ram ℕ
memory_copy_user_to_system npages pagetable from to n =
    move_between_spaces npages pagetable false to from n
