-- ===== src/Filesys/Follows.antt =====
-- One call of flat/os/filesys.c.
use os_lab.Prelude.{
  ℕ, ◌≤◌, length, take, ge→ltb, ◌≡◌, ◌≢◌, ◌<◌, ◌∙◌, ap, sym, subst, bit_and, refl, true, Bool-cases,
  inl, inr, Option-cases, List, ◌∷◌, ◌++◌, arith, ℕ_discrete,
}
use os_lab.Os.{ok}
use os_lab.Filesys.{
  Host, HostCall, Files, OpenFile, Driver, unix, dlx, entry, trap, minus_one, fs_mode_rw,
  fs_max_open_files, find_slot, fd_valid, read_by, write_by, seek_by, fs_unix_read, fs_unix_write,
  fs_unix_seek, fs_dlx_seek, fs_open, fs_close, fs_read, fs_write, fs_seek, fs_delete, delete_by,
  host_read, host_write, host_lseek,
}
use os_lab.Filesys.Slots.{IsTable, driver-some, find_slot-some, which_fs-string}
use os_lab.Filesys.Laws.{calls-IsTable}
use os_lab.Filesys.Open.{fs_open_lem, fs_open-none, fs_close_lem}

-- The table is whole, and slot 0 stays in use once it is.
pub record Follows (t u : Files) : Type 0 where
  pub table : IsTable u
  pub zero_stays : (entry 0 t).flags ≢ 0 → (entry 0 u).flags ≢ 0

abbrev pub same-Follows : {t : Files} → IsTable t → Follows t t
same-Follows h = record { table = h; zero_stays = λ used. used }

abbrev calls-Follows :
    {t : Files} (cs : List HostCall) → IsTable t → Follows t (record t { calls = cs })
calls-Follows cs h = record { table = calls-IsTable _ cs h; zero_stays = λ used. used }

valid-parts :
    (t : Files) (fd : ℕ)
    → fd_valid fd t ≡ true
    → (0 < fd) × (fd < fs_max_open_files) × ((entry fd t).flags ≢ 0)
unfolding fd_valid
valid-parts t fd h = (ground arith, ground arith, ground arith)

module _ (host : Host) (t : Files) (h : IsTable t) where
  unasked :
      (a s : List ℕ) (mode : ℕ)
      → bit_and mode fs_mode_rw ≡ 0
      → fs_open host (a ++ (0 ∷ s)) mode t ≡ ok minus_one t
  unfolding fs_open
  unasked a s mode z = rw z refl

  pub open-Follows :
      (a s : List ℕ) (mode : ℕ)
      → (r : ℕ) × (u : Files) × (fs_open host (a ++ (0 ∷ s)) mode t ≡ ok r u) × Follows t u
  open-Follows a s mode = elim (Option-cases (find_slot t.openfiles 0)) [
    | inl full ↦ (minus_one, t, fs_open-none host t h (a ++ (0 ∷ s)) mode full, same-Follows h)
    | inr (i, found) ↦ elim (ℕ_discrete (bit_and mode fs_mode_rw) 0) [
      | yes no_mode ↦ (minus_one, t, unasked a s mode no_mode, same-Follows h)
      | no asked ↦
          let (j, at, inside, empty, before) = find_slot-some t.openfiles 0 i found in
          let (r, u, ran, table, done) =
            fs_open_lem host t h a s mode j asked (omega (arith, inside, h.size)) empty in
          (
            r,
            u,
            ran,
            record {
              table = table;
              zero_stays = λ used. elim done [
                | inl (lt, was_free, first, now, others) ↦
                    let other : r ≢ 0 = λ e. used (subst (λ n. (entry n t).flags ≡ 0) e was_free) in
                    (λ e. used (ap (λ (f : OpenFile). f.flags) (sym (others 0 other)) ∙ e))
                | inr (bad, flags) ↦ (λ e. used (sym (flags 0) ∙ e))
              ];
            },
          )
    ]
  ]

  pub close-Follows : (fd : ℕ) → (r : ℕ) × (u : Files) × (fs_close host fd t ≡ ok r u) × Follows t u
  unfolding fs_close
  close-Follows fd = elim (Bool-cases (fd_valid fd t)) [
    | inl valid ↦
        let (pos, lt, used) = valid-parts t fd valid in
        let (r, u, ran, table, gone, others) = fs_close_lem host t h fd pos lt used in
        let other : fd ≢ 0 = λ e. absurd (omega (arith, e, pos)) in
        (
          r,
          u,
          ran,
          record {
            table = table;
            zero_stays = λ zero_used.
                λ e. zero_used (ap (λ (f : OpenFile). f.flags) (sym (others 0 other)) ∙ e);
          },
        )
    | inr invalid ↦ (minus_one, t, rw invalid refl, same-Follows h)
  ]

  read_by-Follows :
      (d : Driver) (x : ℕ) (buf : List ℕ) (n : ℕ)
      → n ≤ length buf
      → (r : ℕ × List ℕ) × (u : Files) × (read_by host d x buf n t ≡ ok r u) × Follows t u
  unfolding fs_unix_read trap
  read_by-Follows unix x buf n room =
      let cs = host_read (entry x t).u n ∷ t.calls in
      (
        (host.result cs, host.filled cs buf),
        record t { calls = cs },
        rw (ge→ltb (length buf) n room) refl,
        calls-Follows cs h,
      )
  read_by-Follows dlx x buf n room = ((1, buf), t, refl, same-Follows h)

  pub read-Follows :
      (fd : ℕ) (buf : List ℕ) (n : ℕ)
      → n ≤ length buf
      → (r : ℕ × List ℕ) × (u : Files) × (fs_read host fd buf n t ≡ ok r u) × Follows t u
  unfolding fs_read
  read-Follows fd buf n room = elim (Bool-cases (fd_valid fd t)) [
    | inl valid ↦
        let (d, found) = driver-some t (entry fd t).fs h (h.kinds fd) in
        let (r, u, ran, follows) = read_by-Follows d fd buf n room in
        (r, u, rw (valid, found) ran, follows)
    | inr invalid ↦ ((minus_one, buf), t, rw invalid refl, same-Follows h)
  ]

  write_by-Follows :
      (d : Driver) (x : ℕ) (buf : List ℕ) (n : ℕ)
      → n ≤ length buf
      → (r : ℕ) × (u : Files) × (write_by host d x buf n t ≡ ok r u) × Follows t u
  unfolding fs_unix_write trap
  write_by-Follows unix x buf n room =
      let cs = host_write (entry x t).u (take n buf) n ∷ t.calls in
      (
        host.result cs,
        record t { calls = cs },
        rw (ge→ltb (length buf) n room) refl,
        calls-Follows cs h,
      )
  write_by-Follows dlx x buf n room = (1, t, refl, same-Follows h)

  pub write-Follows :
      (fd : ℕ) (buf : List ℕ) (n : ℕ)
      → n ≤ length buf
      → (r : ℕ) × (u : Files) × (fs_write host fd buf n t ≡ ok r u) × Follows t u
  unfolding fs_write
  write-Follows fd buf n room = elim (Bool-cases (fd_valid fd t)) [
    | inl valid ↦
        let (d, found) = driver-some t (entry fd t).fs h (h.kinds fd) in
        let (r, u, ran, follows) = write_by-Follows d fd buf n room in
        (r, u, rw (valid, found) ran, follows)
    | inr invalid ↦ (minus_one, t, rw invalid refl, same-Follows h)
  ]

  seek_by-Follows :
      (d : Driver) (x offset whence : ℕ)
      → (r : ℕ) × (u : Files) × (seek_by host d x offset whence t ≡ ok r u) × Follows t u
  unfolding fs_unix_seek trap fs_dlx_seek
  seek_by-Follows unix x offset whence =
      let cs = host_lseek (entry x t).u offset whence ∷ t.calls in
      (host.result cs, record t { calls = cs }, refl, calls-Follows cs h)
  seek_by-Follows dlx x offset whence = ((entry x t).u, t, refl, same-Follows h)

  pub seek-Follows :
      (fd offset whence : ℕ)
      → (r : ℕ) × (u : Files) × (fs_seek host fd offset whence t ≡ ok r u) × Follows t u
  unfolding fs_seek
  seek-Follows fd offset whence = elim (Bool-cases (fd_valid fd t)) [
    | inl valid ↦
        let (d, found) = driver-some t (entry fd t).fs h (h.kinds fd) in
        let (r, u, ran, follows) = seek_by-Follows d fd offset whence in
        (r, u, rw (valid, found) ran, follows)
    | inr invalid ↦ (minus_one, t, rw invalid refl, same-Follows h)
  ]

  delete_by-Follows : (d : Driver) (name : List ℕ) → (r : ℕ) × (delete_by d name t ≡ ok r t)
  delete_by-Follows unix name = (minus_one, refl)
  delete_by-Follows dlx name = (1, refl)

  pub delete-Follows : (a s : List ℕ) → (r : ℕ) × (fs_delete (a ++ (0 ∷ s)) t ≡ ok r t)
  unfolding fs_delete
  delete-Follows a s =
      let (k, name, which, small) = which_fs-string a s in
      let (d, found) = driver-some t k h small in
      let (r, ran) = delete_by-Follows d name in (r, rw (which, found) ran)
