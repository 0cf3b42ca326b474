-- ===== src/Traps/FileCalls.antt =====
-- The handlers of flat/os/traps.c that copy the arguments of the file calls, and of disk_write_block,
-- between the caller and flat/os/files.c or flat/os/disk.c. Uninitialised local arrays are arguments.
pub mod Laws
use os_lab.Prelude.{
  ℕ, zero, suc, ◌+◌, ◌*◌, ◌^◌, Bool, true, false, Option, none, some, List, [], ◌∷◌, ◌++◌, ◌==◌,
  leb, if◌then◌else◌, length, take, drop,
}
use mathlib.Core.Option
use os_lab.Os.{Cmd, ok, exited, pure, undefined_behaviour, ◌>>=◌, ◌>>◌, Env}
use os_lab.Dfs.{disk_blocksize}
use os_lab.Disk.{disk_write_block}
use os_lab.Files.{Kernel, in_dfs, file_fail, file_max_filename_length, file_close}
use os_lab.Files.Open.{file_open, file_delete}
use os_lab.Files.Transfer.{file_read, file_write, file_seek, too_many}
use os_lab.Traps.Create.{Space, copied}

-- The size of the local array for the mode.
abbrev pub max_mode_length : ℕ
max_mode_length = 10

abbrev pub bytes_of_count : ℕ → ℕ
bytes_of_count n = if leb (2 ^ 31) n then 0 else n

abbrev pub defined_value : {A : Type 0} → Option A → Cmd Kernel A
defined_value none = undefined_behaviour
defined_value (some a) = pure a

module _ (space : Space) where
  -- The characters at an address, up to a NUL or so many, and whether there was a NUL.
  pub copy_text : ℕ → ℕ → Option (List ℕ × Bool)
  copy_text zero address = some ([], false)
  copy_text (suc n) address =
      let rest = copy_text n (address + 1) in
      elim (space.byte address) [
        | none ↦ none
        | some c ↦
            if c == 0
            then some ([], true)
            else Option.map (λ (s : List ℕ × Bool). (c ∷ s.0, s.1)) rest
      ]

  -- An array after a copy of so many bytes, which ends at a page that is not there; `none` is a write
  -- behind the array.
  pub copy_block : ℕ → ℕ → List ℕ → Option (List ℕ)
  copy_block zero address mem = some mem
  copy_block (suc n) address [] = none
  copy_block (suc n) address (m ∷ mem) =
      let rest = copy_block n (address + 1) mem in
      elim (space.byte address) [
        | none ↦ some (m ∷ mem)
        | some c ↦ Option.map (λ (s : List ℕ). c ∷ s) rest
      ]

  -- An argument of the trap, into a variable that is not initialised, or is a null pointer.
  abbrev pub argument : ℕ → ℕ → Cmd Kernel ℕ
  argument trap_args i = defined_value (space.word (trap_args + 4 * i))

  abbrev pub pointer_argument : ℕ → ℕ → ℕ
  pointer_argument trap_args i = copied (space.word (trap_args + 4 * i)) 0

  -- A string that is too long ends the system in user mode; in system mode its array has no NUL.
  pub fetch_text : Bool → ℕ → List ℕ → ℕ → Cmd Kernel (List ℕ)
  fetch_text sys_mode size array address = elim (copy_text size address) [
    | none ↦ undefined_behaviour
    | some s ↦
        if s.1
        then pure (s.0 ++ (0 ∷ drop (suc (length s.0)) array))
        else (if sys_mode then pure s.0 else λ k. exited)
  ]

  module _ (env : Env) (sys_mode : Bool) (trap_args : ℕ) where
    pub trap_file_open_handler : List ℕ → List ℕ → Cmd Kernel ℕ
    trap_file_open_handler filename mode = do
      name ← fetch_text sys_mode file_max_filename_length filename (pointer_argument trap_args 0)
      how ← fetch_text sys_mode max_mode_length mode (pointer_argument trap_args 1)
      file_open env name how

    pub trap_file_close_handler : Cmd Kernel ℕ
    trap_file_close_handler = do handle ← argument trap_args 0; file_close env handle

    pub trap_file_delete_handler : List ℕ → Cmd Kernel ℕ
    trap_file_delete_handler filename = do
      name ← fetch_text sys_mode file_max_filename_length filename (pointer_argument trap_args 0)
      file_delete env name

    -- The result, and what is then copied to which address of the caller: `num_bytes` bytes, whatever
    -- FileRead returns.
    pub trap_file_read_handler : List ℕ → Cmd Kernel (ℕ × Option (ℕ × List ℕ))
    trap_file_read_handler mem = do
      handle ← argument trap_args 0
      user_mem ← argument trap_args 1
      num_bytes ← argument trap_args 2
      if too_many num_bytes then pure (file_fail, none) else do
        r ← file_read env handle mem num_bytes
        if r.0 == file_fail
            then pure (file_fail, none)
            else pure (r.0, some (user_mem, take (bytes_of_count num_bytes) r.1))

    pub trap_file_write_handler : List ℕ → Cmd Kernel ℕ
    trap_file_write_handler mem = do
      handle ← argument trap_args 0
      user_mem ← argument trap_args 1
      num_bytes ← argument trap_args 2
      if too_many num_bytes then pure file_fail else do
        bytes ← defined_value (copy_block (bytes_of_count num_bytes) user_mem mem)
        file_write env handle bytes num_bytes

    pub trap_file_seek_handler : Cmd Kernel ℕ
    trap_file_seek_handler = do
      handle ← argument trap_args 0
      num_bytes ← argument trap_args 1
      from_where ← argument trap_args 2
      file_seek env handle num_bytes from_where

    -- A block whose address is not there leaves the local block as it was, and that is written.
    pub trap_disk_write_block_handler : List ℕ → Cmd Kernel ℕ
    trap_disk_write_block_handler b = do
      blocknum ← argument trap_args 0
      block ← defined_value (copy_block disk_blocksize (pointer_argument trap_args 1) b)
      in_dfs (disk_write_block env blocknum block)
