-- ===== src/Filesys/Open.antt =====
-- What FsOpen and FsClose of flat/os/filesys.c do to the table of open files.
use os_lab.Prelude.{
  ℕ, ◌≡◌, ◌≢◌, ◌<◌, ◌⊎◌, ◌∙◌, ap, sym, subst, bit_and, refl, true, inl, inr, Option-cases, none,
  some, List, ◌∷◌, ◌++◌, arith, ℕ_discrete, ne→==,
}
use os_lab.Os.{ok}
use os_lab.Filesys.{
  Host, Files, OpenFile, Driver, unix, dlx, entry, set_entry, trap, host_close, is_negative,
  minus_one, fs_mode_rw, fs_max_open_files, find_slot, fd_valid, close_by, fs_unix_close,
  fs_free_entry, fs_open, fs_close, open_slot,
}
use os_lab.Filesys.Slots.{
  IsTable, entry-set_self, driver-some, find_slot-some, find_slot-none, which_fs-string,
}
use os_lab.Filesys.Laws.{calls-IsTable, set_entry-SameElse, open_slot_lem}

-- A positive slot with a file is a valid descriptor.
pub fd_valid-some :
    (t : Files) (x : ℕ)
    → 0 < x
    → x < fs_max_open_files
    → (entry x t).flags ≢ 0
    → fd_valid x t ≡ true
unfolding fd_valid
fd_valid-some t x pos lt used = rw (ne→== _ 0 used) (ground arith)

module _ (host : Host) (t : Files) (h : IsTable t) where
  fs_open-slot :
      (a s : List ℕ) (mode i : ℕ)
      → bit_and mode fs_mode_rw ≢ 0
      → find_slot t.openfiles 0 ≡ some i
      → fs_open host (a ++ (0 ∷ s)) mode t
        ≡ open_slot host i (a ++ (0 ∷ s)) (bit_and mode fs_mode_rw) t
  unfolding fs_open
  fs_open-slot a s mode i asked found = rw (ne→== _ 0 asked, found) refl

  -- FsOpen of a C string in a mode that has the read or the write bit, on a whole table with a
  -- free slot, returns, and the table stays whole. Either it gives the first free slot, which then
  -- has the mode's two bits, and changes no other slot; or it returns a negative number, and the
  -- flags of each slot are as they were before.
  pub fs_open_lem :
      (a s : List ℕ) (mode x : ℕ)
      → bit_and mode fs_mode_rw ≢ 0
      → x < fs_max_open_files
      → (entry x t).flags ≡ 0
      → (r : ℕ) × (u : Files) × (fs_open host (a ++ (0 ∷ s)) mode t ≡ ok r u)
        × IsTable u
        × (((r < fs_max_open_files)
              × ((entry r t).flags ≡ 0)
              × ((p : ℕ) → p < r → (entry p t).flags ≢ 0)
              × ((entry r u).flags ≡ bit_and mode fs_mode_rw)
              × ((y : ℕ) → r ≢ y → entry y u ≡ entry y t))
            ⊎ ((is_negative r ≡ true) × ((y : ℕ) → (entry y u).flags ≡ (entry y t).flags)))
  fs_open_lem a s mode x asked lt free = elim (Option-cases (find_slot t.openfiles 0)) [
    | inl full ↦ absurd (find_slot-none t.openfiles 0 x full (omega (arith, h.size)) free)
    | inr (i, found) ↦
        let (j, at, inside, empty, before) = find_slot-some t.openfiles 0 i found in
        let same : j ≡ i = omega (arith, at) in
        let (k, name, which, small) = which_fs-string a s in
        let room : i < fs_max_open_files = omega (arith, same, inside, h.size) in
        let empty_i : (entry i t).flags ≡ 0 = subst (λ n. (entry n t).flags ≡ 0) same empty in
        let (r, u, ran, same_else, done) =
          open_slot_lem host t i h room (a ++ (0 ∷ s)) (bit_and mode fs_mode_rw) k name which
            small in
        (
          r,
          u,
          fs_open-slot a s mode i asked found ∙ ran,
          same_else.table,
          elim done [
            | inl (is_slot, flags) ↦ inl (
              omega (arith, is_slot, room),
              subst (λ n. (entry n t).flags ≡ 0) (sym is_slot) empty_i,
              λ p before_r. before p (omega (arith, same, is_slot, before_r)),
              subst (λ n. (entry n u).flags ≡ bit_and mode fs_mode_rw) (sym is_slot) flags,
              λ y ne. same_else.others y (λ e. ne (is_slot ∙ e)),
            )
            | inr (bad, flags) ↦ inr (
              bad,
              λ y. elim (ℕ_discrete i y) [
                | yes e ↦ subst (λ n. (entry n u).flags ≡ (entry n t).flags) e (flags ∙ sym empty_i)
                | no ne ↦ ap (λ (f : OpenFile). f.flags) (same_else.others y ne)
              ],
            )
          ],
        )
  ]

  -- Without a free slot FsOpen returns -1 and changes nothing.
  pub fs_open-none :
      (name : List ℕ) (mode : ℕ)
      → find_slot t.openfiles 0 ≡ none
      → fs_open host name mode t ≡ ok minus_one t
  unfolding fs_open
  fs_open-none name mode none_free = elim (ℕ_discrete (bit_and mode fs_mode_rw) 0) [
    | yes z ↦ rw z refl
    | no asked ↦ rw (ne→== _ 0 asked, none_free) refl
  ]

  -- With every slot of the table in use FsOpen returns -1 and changes nothing, whatever the name
  -- and the mode.
  fs_open-full :
      (name : List ℕ) (mode : ℕ)
      → ((x : ℕ) → x < fs_max_open_files → (entry x t).flags ≢ 0)
      → fs_open host name mode t ≡ ok minus_one t
  fs_open-full name mode full = elim (Option-cases (find_slot t.openfiles 0)) [
    | inl none_free ↦ fs_open-none name mode none_free
    | inr (i, found) ↦
        let (j, at, inside, empty, before) = find_slot-some t.openfiles 0 i found in
        absurd (full j (omega (arith, inside, h.size)) empty)
  ]

  close_by_lem :
      (d : Driver) (x : ℕ)
      → (r : ℕ) × (u : Files) × (close_by host d x t ≡ ok r u)
        × IsTable u
        × ((y : ℕ) → entry y u ≡ entry y t)
  unfolding fs_unix_close trap
  close_by_lem unix x =
      let cs = host_close (entry x t).u ∷ t.calls in
      (host.result cs, record t { calls = cs }, refl, calls-IsTable t cs h, λ y. refl)
  close_by_lem dlx x = (1, t, refl, h, λ y. refl)

  -- FsClose of a positive slot with a file gives the slot back, whatever the driver answers, and
  -- changes no other slot.
  pub fs_close_lem :
      (x : ℕ)
      → 0 < x
      → x < fs_max_open_files
      → (entry x t).flags ≢ 0
      → (r : ℕ) × (u : Files) × (fs_close host x t ≡ ok r u)
        × IsTable u
        × ((entry x u).flags ≡ 0)
        × ((y : ℕ) → x ≢ y → entry y u ≡ entry y t)
  unfolding fs_close fs_free_entry
  fs_close_lem x pos lt used =
      let (d, found) = driver-some t (entry x t).fs h (h.kinds x) in
      let (r, u, ran, table, same) = close_by_lem d x in
      let f : OpenFile = record (entry x u) { flags = 0 } in
      let after = set_entry-SameElse u x f (table.kinds x) table in
      (
        r,
        set_entry x f u,
        rw (fd_valid-some t x pos lt used, found, ran) refl,
        after.table,
        ap (λ (g : OpenFile). g.flags) (entry-set_self u x f table lt),
        λ y ne. after.others y ne ∙ same y,
      )
