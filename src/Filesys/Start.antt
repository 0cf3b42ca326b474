-- ===== src/Filesys/Start.antt =====
-- The file of flat/os/filesys.c that is opened first behind FsModuleInit.
use os_lab.Prelude.{
  ℕ, ◌≡◌, ◌≢◌, ◌⊎◌, ◌∙◌, sym, subst, bit_and, refl, true, inl, inr, List, ◌∷◌, ◌++◌, arith, dec_lt,
}
use os_lab.Os.{ok}
use os_lab.Filesys.{
  Host, Files, entry, is_negative, minus_one, fs_mode_rw, fd_valid, fs_open, fs_close, fs_read,
  fs_write, fs_seek,
}
use os_lab.Filesys.Slots.{IsTable}
use os_lab.Filesys.Open.{fs_open_lem}
use os_lab.Filesys.Calls.{Call, HaveBuffers, AreFileCalls, performs, performs_lem}

-- The descriptor 0.
zero_refused :
    (host : Host) (t : Files) (buf : List ℕ) (n offset whence : ℕ)
    → (fs_close host 0 t ≡ ok minus_one t)
      × (fs_read host 0 buf n t ≡ ok (minus_one, buf) t)
      × (fs_write host 0 buf n t ≡ ok minus_one t)
      × (fs_seek host 0 offset whence t ≡ ok minus_one t)
unfolding fs_close fs_read fs_write fs_seek fd_valid
zero_refused host t buf n offset whence = (refl, refl, refl, refl)

-- The file that FsOpen puts into slot 0 is lost until FsModuleInit. If slot 0 of a whole table is free (as
-- it is behind FsModuleInit), FsOpen of a C string in a mode with the read or the write bit fails with a
-- negative number or returns 0. If it returns 0, then after any further calls of FsOpen, FsClose, FsRead,
-- FsWrite, FsSeek and FsDelete, with buffers as long as they say, slot 0 is still in use, and FsClose,
-- FsRead, FsWrite and FsSeek refuse the descriptor 0 and change nothing.
pub fs_open-lost :
    (host : Host) (t : Files)
    → IsTable t
    → (a s : List ℕ) (mode : ℕ) → bit_and mode fs_mode_rw ≢ 0
    → (entry 0 t).flags ≡ 0
    → (cs : List Call) → HaveBuffers cs
    → AreFileCalls cs
    → (buf : List ℕ) (n offset whence : ℕ)
    → (r : ℕ) × (u : Files) × (fs_open host (a ++ (0 ∷ s)) mode t ≡ ok r u)
      × ((is_negative r ≡ true)
          ⊎ ((r ≡ 0)
              × (v : Files) × (performs host cs u ≡ ok tt v)
              × ((entry 0 v).flags ≢ 0)
              × (fs_close host 0 v ≡ ok minus_one v)
              × (fs_read host 0 buf n v ≡ ok (minus_one, buf) v)
              × (fs_write host 0 buf n v ≡ ok minus_one v)
              × (fs_seek host 0 offset whence v ≡ ok minus_one v)))
fs_open-lost host t h a s mode asked free cs room calls buf n offset whence =
    let (r, u, ran, table, done) = fs_open_lem host t h a s mode 0 asked (omega arith) free in
    (
      r,
      u,
      ran,
      elim done [
        | inl (lt, was_free, first, now, others) ↦
            let is_zero : r ≡ 0 = elim (dec_lt 0 r) [
              | yes pos ↦ absurd (first 0 pos free)
              | no not_pos ↦ omega arith
            ] in
            let (v, ran', table', stays) = performs_lem host u table cs room in
            let used : (entry 0 u).flags ≢ 0 = λ e.
              asked
                (sym (subst (λ k. (entry k u).flags ≡ bit_and mode fs_mode_rw) is_zero now) ∙ e) in
            let (closes, reads, writes, seeks) = zero_refused host v buf n offset whence in
            inr (is_zero, v, ran', stays calls used, closes, reads, writes, seeks)
        | inr (bad, flags) ↦ inl bad
      ],
    )
