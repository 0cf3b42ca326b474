-- ===== src/Files.antt =====
-- The file API, flat/os/files.c: the table of open files, and closing one. FileOpen and FileDelete are
-- in Files/Open, FileRead, FileWrite and FileSeek in Files/Transfer.
pub mod Open
pub mod Transfer
pub mod Laws
use os_lab.Prelude.{
  ℕ, zero, suc, ◌+◌, Bool, true, false, not, ◌||◌, List, ◌==◌, ltb, if◌then◌else◌, get_elem?, set,
  replicate, some, none,
}
use os_lab.Os.{
  Cmd, ok, fault, exited, Run, pure, gets, modify, ◌>>=◌, ◌>>◌, file_lock, acquire, release, Env,
  undefined_behaviour,
}
use os_lab.Dfs.{State, from_array, call}
use os_lab.Dfs.Block.{overwrite}
use os_lab.Misc.{dstrlen}

-- `FILE_FAIL`, which is also `FILE_EOF`, and the other constants of files.h and files_shared.h.
abbrev pub file_fail : ℕ
file_fail = 0xFFFF_FFFF

abbrev pub file_eof : ℕ
file_eof = 0xFFFF_FFFF

abbrev pub file_success : ℕ
file_success = 1

abbrev pub file_max_open_files : ℕ
file_max_open_files = 15

abbrev pub file_max_filename_length : ℕ
file_max_filename_length = 44

abbrev pub file_max_readwrite_bytes : ℕ
file_max_readwrite_bytes = 4096

pub data ModeStatus : Type 0 where
  r w rw undefined : ModeStatus

unfoldable pub same_mode : ModeStatus → ModeStatus → Bool
same_mode r r = true
same_mode w w = true
same_mode rw rw = true
same_mode undefined undefined = true
same_mode _ _ = false

-- The modes that FileRead and FileWrite accept.
unfoldable pub may_read : ModeStatus → Bool
may_read mode = same_mode mode r || same_mode mode rw

unfoldable pub may_write : ModeStatus → Bool
may_write mode = same_mode mode w || same_mode mode rw

pub record FileDescriptor : Type 0 where
  pub filename : List ℕ
  pub inode_handle : ℕ
  pub current_position : ℕ
  pub eof : Bool
  pub mode : ModeStatus
  pub file_permissions : ℕ
  pub owner_id : ℕ

-- The statics of files.c over those of dfs.c, and the process that runs (`GetCurrentPid()`).
pub record Kernel : Type 0 where
  pub dfs : State
  pub files : List FileDescriptor
  pub current_pid : ℕ

-- A command of the file system driver, run inside the kernel.
abbrev pub lift_run : {A : Type 0} → Kernel → Run State A → Run Kernel A
lift_run k (ok a s) = ok a (record k { dfs = s })
lift_run k fault = fault
lift_run k exited = exited

abbrev pub in_dfs : {A : Type 0} → Cmd State A → Cmd Kernel A
in_dfs m k = lift_run k (m k.dfs)

-- `files[i]`: an index past the table is undefined behaviour.
abbrev pub get_file : ℕ → Cmd Kernel FileDescriptor
get_file i k = in_dfs (from_array (get_elem? k.files i)) k

abbrev pub set_file : ℕ → FileDescriptor → Cmd Kernel (Unit {0})
set_file i f = modify (λ k. record k { files = set k.files i f })

abbrev pub get_current_pid : Cmd Kernel ℕ
get_current_pid = gets (λ k. k.current_pid)

unfoldable pub get_file_mode : List ℕ → Cmd Kernel ModeStatus
get_file_mode mode = do
  len ← in_dfs (from_array (dstrlen mode))
  if ltb 2 len
      then pure undefined
      else if len == 1
      then (do
        c ← in_dfs (from_array (get_elem? mode 0))
        pure (if c == b'r' then r else if c == b'w' then w else undefined))
      else if len == 2
      then (do
        c ← in_dfs (from_array (get_elem? mode 0))
        d ← in_dfs (from_array (get_elem? mode 1))
        pure (if c == b'r' then (if d == b'w' then rw else undefined) else undefined))
      else pure undefined

-- An entry after FileModuleInit or NullifyFileEntry; `name` is its filename after `bzero`.
abbrev pub null_entry : List ℕ → FileDescriptor
null_entry name = record {
  filename = name;
  inode_handle = file_fail;
  current_position = 0;
  eof = false;
  mode = undefined;
  file_permissions = 0;
  owner_id = file_fail;
}

unfoldable pub nullify_file_entry : ℕ → Cmd Kernel (Unit {0})
nullify_file_entry handle = do
  f ← get_file handle
  name ← in_dfs (from_array (overwrite f.filename 0 (replicate file_max_filename_length 0)))
  set_file handle (null_entry name)

-- The loop of FileModuleInit. Its last statement, LockCreate, is not modelled.
unfoldable pub file_module_init : Cmd Kernel (Unit {0})
file_module_init = init_loop file_max_open_files 0
  where
    init_loop : ℕ → ℕ → Cmd Kernel (Unit {0})
    init_loop zero i = pure tt
    init_loop (suc n) i = nullify_file_entry i >> init_loop n (i + 1)

module _ (env : Env) where
  -- `if(LockHandleAcquire(file_lock) != SYNC_SUCCESS) return FILE_FAIL;`, the rest, and the same for
  -- the release.
  abbrev pub acquire_file_lock : Cmd Kernel Bool
  acquire_file_lock = in_dfs (call env (acquire file_lock))

  abbrev pub release_file_lock : Cmd Kernel Bool
  release_file_lock = in_dfs (call env (release file_lock))

  unfoldable pub file_release_return : ℕ → Cmd Kernel ℕ
  file_release_return x = do done ← release_file_lock; pure (if done then x else file_fail)

  unfoldable pub file_close : ℕ → Cmd Kernel ℕ
  file_close handle = do
    pid ← get_current_pid
    f ← get_file handle
    if not (pid == f.owner_id) then pure file_fail else do
      got ← acquire_file_lock
      if not got
          then pure file_fail
          else do nullify_file_entry handle; file_release_return file_success
