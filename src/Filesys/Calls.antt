-- ===== src/Filesys/Calls.antt =====
-- Any sequence of calls of flat/os/filesys.c.
use os_lab.Prelude.{ℕ, ◌≤◌, ◌⊎◌, length, ◌≡◌, ◌≢◌, refl, inl, inr, List, [], ◌∷◌, ◌++◌, arith}
use os_lab.Os.{Cmd, ok, pure, ◌>>◌}
use os_lab.Filesys.{
  Host, Files, entry, fs_open, fs_close, fs_read, fs_write, fs_seek, fs_delete, fs_module_init,
}
use os_lab.Filesys.Slots.{IsTable}
use os_lab.Filesys.Init.{fs_module_init_lem}
use os_lab.Filesys.Follows.{
  Follows, same-Follows, open-Follows, close-Follows, read-Follows, write-Follows, seek-Follows,
  delete-Follows,
}

-- A call of one of the functions that filesys.h declares and filesys.c defines. A name is a C string: some characters, a NUL, and what
-- lies behind it.
pub data Call : Type 0 where
  init_call : Call
  open_call : List ℕ → List ℕ → ℕ → Call
  close_call : ℕ → Call
  read_call : ℕ → List ℕ → ℕ → Call
  write_call : ℕ → List ℕ → ℕ → Call
  seek_call : ℕ → ℕ → ℕ → Call
  delete_call : List ℕ → List ℕ → Call

-- The buffer of a read or a write is as long as the count says.
abbrev pub HasBuffer : Call → Type 0
HasBuffer init_call = Unit {0}
HasBuffer (open_call a s mode) = Unit {0}
HasBuffer (close_call fd) = Unit {0}
HasBuffer (read_call fd buf n) = n ≤ length buf
HasBuffer (write_call fd buf n) = n ≤ length buf
HasBuffer (seek_call fd offset whence) = Unit {0}
HasBuffer (delete_call a s) = Unit {0}

abbrev pub HaveBuffers : List Call → Type 0
HaveBuffers [] = Unit {0}
HaveBuffers (c ∷ cs) = HasBuffer c × HaveBuffers cs

-- The call is not FsModuleInit.
abbrev pub IsFileCall : Call → Type 0
IsFileCall c = c ≢ init_call

abbrev pub AreFileCalls : List Call → Type 0
AreFileCalls [] = Unit {0}
AreFileCalls (c ∷ cs) = IsFileCall c × AreFileCalls cs

module _ (host : Host) where
  abbrev pub perform : Call → Cmd Files (Unit {0})
  perform init_call = fs_module_init
  perform (open_call a s mode) = fs_open host (a ++ (0 ∷ s)) mode >> pure tt
  perform (close_call fd) = fs_close host fd >> pure tt
  perform (read_call fd buf n) = fs_read host fd buf n >> pure tt
  perform (write_call fd buf n) = fs_write host fd buf n >> pure tt
  perform (seek_call fd offset whence) = fs_seek host fd offset whence >> pure tt
  perform (delete_call a s) = fs_delete (a ++ (0 ∷ s)) >> pure tt

  abbrev pub performs : List Call → Cmd Files (Unit {0})
  performs [] = pure tt
  performs (c ∷ cs) = perform c >> performs cs

module _ (host : Host) (t : Files) (h : IsTable t) where
  perform-Follows :
      (c : Call)
      → HasBuffer c
      → IsFileCall c
      → (u : Files) × (perform host c t ≡ ok tt u) × Follows t u
  perform-Follows init_call room other = absurd (other refl)
  perform-Follows (open_call a s mode) room other =
      let (r, u, ran, follows) = open-Follows host t h a s mode in (u, rw ran refl, follows)
  perform-Follows (close_call fd) room other =
      let (r, u, ran, follows) = close-Follows host t h fd in (u, rw ran refl, follows)
  perform-Follows (read_call fd buf n) room other =
      let (r, u, ran, follows) = read-Follows host t h fd buf n room in (u, rw ran refl, follows)
  perform-Follows (write_call fd buf n) room other =
      let (r, u, ran, follows) = write-Follows host t h fd buf n room in (u, rw ran refl, follows)
  perform-Follows (seek_call fd offset whence) room other =
      let (r, u, ran, follows) = seek-Follows host t h fd offset whence in (u, rw ran refl, follows)
  perform-Follows (delete_call a s) room other =
      let (r, ran) = delete-Follows host t h a s in (t, rw ran refl, same-Follows h)

init_or : (c : Call) → (c ≡ init_call) ⊎ IsFileCall c
init_or init_call = inl refl
init_or (open_call a s mode) = inr (λ e. ground arith)
init_or (close_call fd) = inr (λ e. ground arith)
init_or (read_call fd buf n) = inr (λ e. ground arith)
init_or (write_call fd buf n) = inr (λ e. ground arith)
init_or (seek_call fd offset whence) = inr (λ e. ground arith)
init_or (delete_call a s) = inr (λ e. ground arith)

perform-IsTable :
    (host : Host) (t : Files)
    → IsTable t
    → (c : Call) → HasBuffer c
    → (u : Files) × (perform host c t ≡ ok tt u)
      × IsTable u
      × (IsFileCall c → (entry 0 t).flags ≢ 0 → (entry 0 u).flags ≢ 0)
perform-IsTable host t h c room = elim (init_or c) [
  | inl init ↦
      let (u, ran, table, free) = fs_module_init_lem t h.size h.kinds in
      (u, rw init ran, table, λ other. absurd (other init))
  | inr other ↦
      let (u, ran, follows) = perform-Follows host t h c room other in
      (u, ran, follows.table, λ _. follows.zero_stays)
]

pub performs_lem :
    (host : Host) (t : Files)
    → IsTable t
    → (cs : List Call) → HaveBuffers cs
    → (u : Files) × (performs host cs t ≡ ok tt u)
      × IsTable u
      × (AreFileCalls cs → (entry 0 t).flags ≢ 0 → (entry 0 u).flags ≢ 0)
performs_lem host t h [] room = (t, refl, h, λ _ used. used)
performs_lem host t h (c ∷ cs) room =
    let (u, ran, table, stays) = perform-IsTable host t h c room.0 in
    let (v, ran', table', stays') = performs_lem host u table cs room.1 in
    (v, rw ran ran', table', λ calls used. stays' calls.1 (stays calls.0 used))
