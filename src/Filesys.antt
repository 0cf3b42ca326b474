-- ===== src/Filesys.antt =====
-- The open files of flat/os/filesys.c, over the host's files (file system 0) and the stubs of the DLX
-- file system (file system 1). An `int` is its 32-bit pattern, a name the bytes from its first
-- character on.
mod Laws
pub mod Slots
pub mod Open
pub mod Calls
pub mod Init
pub mod Follows
pub mod Start
use os_lab.Prelude.{
  ℕ, zero, suc, ◌+◌, ◌^◌, bit_and, bit_or, Bool, true, false, not, ◌&&◌, Option, none, some, List,
  [], ◌∷◌, ◌==◌, ltb, leb, if◌then◌else◌, get_elem?, get_or, set, length, take, drop,
}
use os_lab.Os.{Run, Cmd, ok, pure, gets, modify, undefined_behaviour, ◌>>=◌, ◌>>◌}
use os_lab.Misc.{dstrncmp}

abbrev pub fs_mode_rw : ℕ
fs_mode_rw = bit_or 0x1 0x2

abbrev pub fs_max_open_files : ℕ
fs_max_open_files = 32

abbrev pub minus_one : ℕ
minus_one = 0xFFFF_FFFF

abbrev pub is_negative : ℕ → Bool
is_negative n = leb (2 ^ 31) n

-- An entry without its buffer, which nothing uses. The two members of the union, the host's descriptor
-- and the position in a DLX file, are one `int`.
pub record OpenFile : Type 0 where
  pub fs : ℕ
  pub flags : ℕ
  pub u : ℕ

-- The two sets of functions that an entry of `fs` can hold.
pub data Driver : Type 0 where
  unix dlx : Driver

-- The calls of the simulator's file traps.
pub data HostCall : Type 0 where
  host_open : List ℕ → ℕ → HostCall
  host_read : ℕ → ℕ → HostCall
  host_write : ℕ → List ℕ → ℕ → HostCall
  host_lseek : ℕ → ℕ → ℕ → HostCall
  host_close : ℕ → HostCall

-- What the host answers to the newest call of the history, and what a read leaves in its buffer.
pub record Host : Type 0 where
  pub result : List HostCall → ℕ
  pub filled : List HostCall → List ℕ → List ℕ

-- The statics of the file, and the calls made so far, newest first. A driver is `none` until
-- FsModuleInit sets it.
pub record Files : Type 0 where
  pub openfiles : List OpenFile
  pub drivers : List (Option Driver)
  pub calls : List HostCall

abbrev pub closed : OpenFile
closed = record { fs = 0; flags = 0; u = 0 }

abbrev pub entry : ℕ → Files → OpenFile
entry x t = get_or t.openfiles x closed

abbrev pub set_entry : ℕ → OpenFile → Files → Files
set_entry x f t = record t { openfiles = set t.openfiles x f }

-- An access to an element of an array, or a call of a function; undefined if there is none.
abbrev pub existing : {A : Type 0} → Option A → Cmd Files A
existing none = undefined_behaviour
existing (some a) = pure a

pub fd_valid : ℕ → Files → Bool
fd_valid fd t =
    (ltb 0 fd && not (is_negative fd))
    && (ltb fd fs_max_open_files && not ((entry fd t).flags == 0))

pub fs_free_entry : ℕ → Cmd Files (Unit {0})
fs_free_entry x = modify (λ t. set_entry x (record (entry x t) { flags = 0 }) t)

module _ (host : Host) where
  -- A call of the simulator with its result.
  pub trap : HostCall → Cmd Files ℕ
  trap c t = ok (host.result (c ∷ t.calls)) (record t { calls = c ∷ t.calls })

  pub fs_unix_open : ℕ → List ℕ → ℕ → Cmd Files ℕ
  fs_unix_open x name mode = do
    fd ← trap (host_open name mode)
    modify (λ t. set_entry x (record (entry x t) { u = fd }) t)
    if is_negative fd then pure fd else pure 1

  -- The reads return what is in the buffer behind them. A count beyond the buffer, a negative one
  -- included, is an access past its end.
  pub fs_unix_read : ℕ → List ℕ → ℕ → Cmd Files (ℕ × List ℕ)
  fs_unix_read x buf n = if ltb (length buf) n then undefined_behaviour else (do
    r ← gets (entry x) >>= λ f. trap (host_read f.u n)
    filled ← gets (λ t. host.filled t.calls buf)
    pure (r, filled))

  pub fs_unix_write : ℕ → List ℕ → ℕ → Cmd Files ℕ
  fs_unix_write x buf n =
      if ltb (length buf) n
      then undefined_behaviour
      else gets (entry x) >>= λ f. trap (host_write f.u (take n buf) n)

  pub fs_unix_seek : ℕ → ℕ → ℕ → Cmd Files ℕ
  fs_unix_seek x offset where_from = gets (entry x) >>= λ f. trap (host_lseek f.u offset where_from)

  pub fs_unix_close : ℕ → Cmd Files ℕ
  fs_unix_close x = gets (entry x) >>= λ f. trap (host_close f.u)

abbrev pub fs_unix_delete : List ℕ → Cmd Files ℕ
fs_unix_delete name = pure minus_one

abbrev pub fs_dlx_io : List ℕ → ℕ → ℕ → Cmd Files (ℕ × List ℕ)
fs_dlx_io buf n which = pure (1, buf)

pub fs_dlx_open : ℕ → Cmd Files ℕ
fs_dlx_open f = modify (λ t. set_entry f (record (entry f t) { u = 0 }) t) >> pure 1

-- The seek leaves the position as it is, whatever it is asked for.
pub fs_dlx_seek : ℕ → Cmd Files ℕ
fs_dlx_seek f = gets (λ t. (entry f t).u)

abbrev pub fs_dlx_close : Cmd Files ℕ
fs_dlx_close = pure 1

abbrev pub fs_dlx_delete : List ℕ → Cmd Files ℕ
fs_dlx_delete file = pure 1

-- The loop of FsOpen: the first entry that is not in use.
pub find_slot : List OpenFile → ℕ → Option ℕ
find_slot [] i = none
find_slot (f ∷ fs) i = if f.flags == 0 then some i else find_slot fs (i + 1)

-- "dlx:" with its NUL.
abbrev pub dlx_prefix : List ℕ
dlx_prefix = b'd' ∷ b'l' ∷ b'x' ∷ b':' ∷ 0 ∷ []

-- The file system that a name asks for, and the name there; `none` is a read past the name's end.
pub which_fs : List ℕ → Option (ℕ × List ℕ)
which_fs name = elim (dstrncmp name dlx_prefix 4) [
  | none ↦ none
  | some r ↦ some (if r == 0 then (1, drop 4 name) else (0, name))
]

-- The driver of a file system.
abbrev pub driver : ℕ → Files → Option Driver
driver k t = elim (get_elem? t.drivers k) [ none ↦ none | some d ↦ d ]

module _ (host : Host) where
  abbrev pub open_by : Driver → ℕ → List ℕ → ℕ → Cmd Files ℕ
  open_by unix x name mode = fs_unix_open host x name mode
  open_by dlx x name mode = fs_dlx_open x

  abbrev pub read_by : Driver → ℕ → List ℕ → ℕ → Cmd Files (ℕ × List ℕ)
  read_by unix x buf n = fs_unix_read host x buf n
  read_by dlx x buf n = fs_dlx_io buf n 0

  abbrev pub write_by : Driver → ℕ → List ℕ → ℕ → Cmd Files ℕ
  write_by unix x buf n = fs_unix_write host x buf n
  write_by dlx x buf n = fs_dlx_io buf n 1 >>= λ r. pure r.0

  abbrev pub seek_by : Driver → ℕ → ℕ → ℕ → Cmd Files ℕ
  seek_by unix x offset whence = fs_unix_seek host x offset whence
  seek_by dlx x offset whence = fs_dlx_seek x

  abbrev pub close_by : Driver → ℕ → Cmd Files ℕ
  close_by unix x = fs_unix_close host x
  close_by dlx x = fs_dlx_close

  -- The driver of an entry's file system.
  abbrev pub driver_of : ℕ → Cmd Files Driver
  driver_of x t = existing (driver (entry x t).fs t) t

  -- FsOpen behind its search.
  pub open_slot : ℕ → List ℕ → ℕ → Cmd Files ℕ
  open_slot i name mode = do
    modify (λ t. set_entry i (record (entry i t) { flags = mode }) t)
    w ← existing (which_fs name)
    modify (λ t. set_entry i (record (entry i t) { fs = w.0 }) t)
    d ← driver_of i
    retval ← open_by d i w.1 mode
    if is_negative retval then fs_free_entry i >> pure retval else pure i

  pub fs_open : List ℕ → ℕ → Cmd Files ℕ
  fs_open name mode = if bit_and mode fs_mode_rw == 0 then pure minus_one else do
    slot ← gets (λ t. find_slot t.openfiles 0)
    elim slot [ none ↦ pure minus_one | some i ↦ open_slot i name (bit_and mode fs_mode_rw) ]

  pub fs_close : ℕ → Cmd Files ℕ
  fs_close fd = do
    valid ← gets (fd_valid fd)
    if not valid
        then pure minus_one
        else do d ← driver_of fd; retval ← close_by d fd; fs_free_entry fd; pure retval

  pub fs_read : ℕ → List ℕ → ℕ → Cmd Files (ℕ × List ℕ)
  fs_read fd buf n = do
    valid ← gets (fd_valid fd)
    if not valid then pure (minus_one, buf) else driver_of fd >>= λ d. read_by d fd buf n

  pub fs_write : ℕ → List ℕ → ℕ → Cmd Files ℕ
  fs_write fd buf n = do
    valid ← gets (fd_valid fd)
    if not valid then pure minus_one else driver_of fd >>= λ d. write_by d fd buf n

  pub fs_seek : ℕ → ℕ → ℕ → Cmd Files ℕ
  fs_seek fd offset whence = do
    valid ← gets (fd_valid fd)
    if not valid then pure minus_one else driver_of fd >>= λ d. seek_by d fd offset whence

abbrev pub delete_by : Driver → List ℕ → Cmd Files ℕ
delete_by unix name = fs_unix_delete name
delete_by dlx name = fs_dlx_delete name

pub fs_delete : List ℕ → Cmd Files ℕ
fs_delete name = do
  w ← existing (which_fs name)
  d ← (λ t. existing (driver w.0 t) t)
  delete_by d w.1

pub close_all : List OpenFile → List OpenFile
close_all [] = []
close_all (f ∷ fs) = record f { flags = 0 } ∷ close_all fs

pub fs_module_init : Cmd Files (Unit {0})
fs_module_init =
    modify
      (λ t. record t { openfiles = close_all t.openfiles; drivers = some unix ∷ some dlx ∷ [] })
