-- ===== src/Dfs.antt =====
-- The DLX file system driver, flat/os/dfs.c: its state and what every function uses.
pub mod Fbv
pub mod Block
pub mod Inodes
pub mod Virtual
pub mod Delete
pub mod Bytes
pub mod Mount
use os_lab.Prelude.{
  ℕ, ◌^◌, ◌-◌, ◌≡◌, Bool, true, false, Option, none, some, List, ◌∷◌, ◌==◌, ltb, if◌then◌else◌,
  length, get_elem?, set,
}
use os_lab.Os.{
  Run, ok, fault, Cmd, pure, gets, modify, ◌>>=◌, ◌>>◌, Lock, Event, acquire, release, Env,
  undefined_behaviour,
}

-- `DFS_FAIL`, -1 as an unsigned word, and the other constants of dfs_shared.h.
abbrev pub dfs_fail : ℕ
dfs_fail = 0xFFFF_FFFF

abbrev pub dfs_success : ℕ
dfs_success = 1

abbrev pub negativeone : ℕ
negativeone = 0xFFFF_FFFF

abbrev pub dfs_blocksize : ℕ
dfs_blocksize = 1024

abbrev pub dfs_filename_size : ℕ
dfs_filename_size = 44

abbrev pub dfs_vb_translation_table_size : ℕ
dfs_vb_translation_table_size = 10

abbrev pub dfs_inode_max_num : ℕ
dfs_inode_max_num = 192

abbrev pub disk_blocksize : ℕ
disk_blocksize = 512

abbrev pub disk_numblocks : ℕ
disk_numblocks = 0x8000

pub record Superblock : Type 0 where
  pub valid : ℕ
  pub block_size : ℕ
  pub num_blocks : ℕ
  pub start_block_num_inodes_array : ℕ
  pub size_inodes_array : ℕ
  pub start_block_num_fbv : ℕ
  pub data_block_start : ℕ

pub record Inode : Type 0 where
  pub inuse : ℕ
  pub size : ℕ
  pub filename : List ℕ
  pub vb_translation_table : List ℕ
  pub block_num_indirect_index : ℕ

-- The statics of dfs.c, the blocks of the host file that is the disk, and the calls made so far,
-- newest first.
pub record State : Type 0 where
  pub sb : Superblock
  pub inodes : List Inode
  pub fbv : List ℕ
  pub is_open : Bool
  pub disk : ℕ → List ℕ
  pub history : List Event

-- An array access out of range is undefined behaviour.
abbrev pub from_array : {A : Type 0} → Option A → Cmd State A
from_array none = undefined_behaviour
from_array (some a) = pure a

abbrev pub get_fbv : ℕ → Cmd State ℕ
get_fbv i s = from_array (get_elem? s.fbv i) s

abbrev pub set_fbv : ℕ → ℕ → Cmd State (Unit {0})
set_fbv i w = modify (λ s. record s { fbv = set s.fbv i w })

abbrev pub get_inode : ℕ → Cmd State Inode
get_inode i s = from_array (get_elem? s.inodes i) s

abbrev pub set_inode : ℕ → Inode → Cmd State (Unit {0})
set_inode i n = modify (λ s. record s { inodes = set s.inodes i n })

unfoldable pub dfs_check_system : Cmd State ℕ
dfs_check_system s =
    if s.sb.valid == 0 then ok dfs_fail s else if s.is_open then ok dfs_success s else ok dfs_fail s

unfoldable pub dfs_invalidate : Cmd State (Unit {0})
dfs_invalidate = modify (λ s. record s { sb = record (s.sb) { valid = 0 } })

module _ (env : Env) where
  -- A call out of the modelled code: it is recorded, and the environment says how it went.
  unfoldable pub call : Event → Cmd State Bool
  call e s = ok (env.answer (e ∷ s.history)) (record s { history = e ∷ s.history })

  -- `0x1 << c`, where C defines it, and where it does not.
  unfoldable pub shift_one : ℕ → ℕ
  shift_one c = if ltb c 32 then 2 ^ c else env.shift_out c

-- Every lock call and host call succeeds.
abbrev pub Succeeds : Env → Type 0
Succeeds env = (h : List Event) → env.answer h ≡ true
