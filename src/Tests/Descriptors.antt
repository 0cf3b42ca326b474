-- ===== src/Tests/Descriptors.antt =====
-- A table of host files, empty and full, and the theorems on flat/os/filesys.c.
use os_lab.Prelude.{
  ℕ, zero, suc, ◌≡◌, ◌≢◌, ◌<◌, ◌⊎◌, bit_and, refl, ap, true, some, List, [], ◌∷◌, get_or,
  length-replicate, replicate, arith,
}
use os_lab.Os.{ok}
use os_lab.Filesys.{
  Host, Files, OpenFile, unix, dlx, closed, entry, is_negative, minus_one, fs_mode_rw,
  fs_max_open_files, fs_open, fs_close, fs_read, fs_write, fs_seek,
}
use os_lab.Filesys.Slots.{IsTable}
use os_lab.Filesys.Open.{fs_open_lem}
use os_lab.Filesys.Calls.{
  Call, HaveBuffers, AreFileCalls, init_call, write_call, open_call, read_call, close_call,
  delete_call, performs,
}
use os_lab.Filesys.Start.{fs_open-lost}

abbrev host : Host
host = record { result = λ cs. 3; filled = λ cs buf. buf }

abbrev in_use : OpenFile
in_use = record { fs = 1; flags = 3; u = 0 }

abbrev table_of : OpenFile → Files
table_of f = record {
  openfiles = replicate fs_max_open_files f;
  drivers = some unix ∷ some dlx ∷ [];
  calls = [];
}

get_or-replicate_self : (f : OpenFile) (n x : ℕ) → x < n → get_or (replicate n f) x closed ≡ f
get_or-replicate_self f zero x h = absurd (omega (arith, h))
get_or-replicate_self f (suc n) zero h = refl
get_or-replicate_self f (suc n) (suc x) h = get_or-replicate_self f n x (omega (arith, h))

get_or-replicate_kind :
    (f : OpenFile) (n x : ℕ) → f.fs < 2 → (get_or (replicate n f) x closed).fs < 2
get_or-replicate_kind f zero x h = omega arith
get_or-replicate_kind f (suc n) zero h = h
get_or-replicate_kind f (suc n) (suc x) h = get_or-replicate_kind f n x h

table_of-IsTable : (f : OpenFile) → f.fs < 2 → IsTable (table_of f)
table_of-IsTable f h = record {
  size = length-replicate fs_max_open_files f;
  installed = refl;
  kinds = λ x. get_or-replicate_kind f fs_max_open_files x h;
}

all_in_use : (x : ℕ) → x < fs_max_open_files → (entry x (table_of in_use)).flags ≢ 0
all_in_use x h = λ e. absurd (
    omega (
      arith,
      e,
      ap (λ (f : OpenFile). f.flags) (get_or-replicate_self in_use fs_max_open_files x h),
    ))

asked : bit_and 1 fs_mode_rw ≢ 0
asked = λ e. absurd (omega (arith, e))

-- "a" for reading.
fs_open_lem_example :
    (r : ℕ) × (u : Files) × (fs_open host (97 ∷ 0 ∷ []) 1 (table_of closed) ≡ ok r u)
    × IsTable u
    × (((r < fs_max_open_files)
          × ((entry r (table_of closed)).flags ≡ 0)
          × ((p : ℕ) → p < r → (entry p (table_of closed)).flags ≢ 0)
          × ((entry r u).flags ≡ bit_and 1 fs_mode_rw)
          × ((y : ℕ) → r ≢ y → entry y u ≡ entry y (table_of closed)))
        ⊎ ((is_negative r ≡ true)
            × ((y : ℕ) → (entry y u).flags ≡ (entry y (table_of closed)).flags)))
fs_open_lem_example =
    fs_open_lem host (table_of closed) (table_of-IsTable closed (omega arith)) (97 ∷ []) [] 1 5
      asked (omega arith) refl

abbrev file_calls : List Call
file_calls =
    open_call (97 ∷ []) [] 1
    ∷ open_call (b'd' ∷ b'l' ∷ b'x' ∷ b':' ∷ []) [] 3
    ∷ read_call 1 (7 ∷ 7 ∷ []) 2
    ∷ write_call 1 (7 ∷ 7 ∷ []) 1
    ∷ close_call 1
    ∷ close_call 40
    ∷ delete_call (97 ∷ []) []
    ∷ []

abbrev some_calls : List Call
some_calls = init_call ∷ file_calls

file_calls-HaveBuffers : HaveBuffers file_calls
file_calls-HaveBuffers = (tt, (tt, (omega arith, (omega arith, (tt, (tt, (tt, tt)))))))

file_calls-AreFileCalls : AreFileCalls file_calls
file_calls-AreFileCalls = (
  (λ e. ground arith),
  (
    (λ e. ground arith),
    (
      (λ e. ground arith),
      (
        (λ e. ground arith),
        ((λ e. ground arith), ((λ e. ground arith), ((λ e. ground arith), tt))),
      ),
    ),
  ),
)

fs_open-lost_example :
    (r : ℕ) × (u : Files) × (fs_open host (97 ∷ 0 ∷ []) 1 (table_of closed) ≡ ok r u)
    × ((is_negative r ≡ true)
        ⊎ ((r ≡ 0)
            × (v : Files) × (performs host file_calls u ≡ ok tt v)
            × ((entry 0 v).flags ≢ 0)
            × (fs_close host 0 v ≡ ok minus_one v)
            × (fs_read host 0 (7 ∷ []) 1 v ≡ ok (minus_one, 7 ∷ []) v)
            × (fs_write host 0 (7 ∷ []) 1 v ≡ ok minus_one v)
            × (fs_seek host 0 4 0 v ≡ ok minus_one v)))
fs_open-lost_example =
    fs_open-lost host (table_of closed) (table_of-IsTable closed (omega arith)) (97 ∷ []) [] 1 asked
      refl file_calls file_calls-HaveBuffers file_calls-AreFileCalls (7 ∷ []) 1 4 0
