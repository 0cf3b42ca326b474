-- ===== src/Filesys/Laws.antt =====
-- FsOpen and FsClose of flat/os/filesys.c: which slot a file gets, and what becomes of it.
use os_lab.Prelude.{
  ℕ, ◌≡◌, ◌≢◌, ◌<◌, ◌⊎◌, ◌∙◌, ap, refl, true, Bool-cases, inl, inr, some, List, ◌∷◌, if◌then◌else◌,
}
use os_lab.Os.{ok, pure, ◌>>◌}
use os_lab.Filesys.{
  Host, Files, OpenFile, Driver, unix, dlx, entry, set_entry, trap, HostCall, host_open,
  is_negative, fs_max_open_files, which_fs, fs_unix_open, fs_dlx_open, fs_free_entry, open_by,
  open_slot,
}
use os_lab.Filesys.Slots.{IsTable, entry-set_self, entry-set_ne, set_entry-IsTable, driver-some}

-- Nothing but the entry of a slot and the history of calls differs.
pub record SameElse (x : ℕ) (t u : Files) : Type 0 where
  pub table : IsTable u
  pub others : (y : ℕ) → x ≢ y → entry y u ≡ entry y t

-- The entry's flags are as they were, too.
record Keeps (x : ℕ) (t u : Files) : Type 0 where
  pub same_else : SameElse x t u
  pub same_flags : (entry x u).flags ≡ (entry x t).flags

pub SameElse-trans : {x : ℕ} {t u v : Files} → SameElse x t u → SameElse x u v → SameElse x t v
SameElse-trans a b = record { table = b.table; others = λ y ne. b.others y ne ∙ a.others y ne }

-- A write of the entry.
pub set_entry-SameElse :
    (t : Files) (x : ℕ) (f : OpenFile) → f.fs < 2 → IsTable t → SameElse x t (set_entry x f t)
set_entry-SameElse t x f k h = record {
  table = set_entry-IsTable t x f k h;
  others = λ y ne. entry-set_ne t x y f ne;
}

set_entry-Keeps :
    (t : Files) (x u : ℕ)
    → IsTable t
    → x < fs_max_open_files
    → Keeps x t (set_entry x (record (entry x t) { u = u }) t)
set_entry-Keeps t x u h lt =
    let f : OpenFile = record (entry x t) { u = u } in
    record {
      same_else = set_entry-SameElse t x f (h.kinds x) h;
      same_flags = ap (λ (g : OpenFile). g.flags) (entry-set_self t x f h lt);
    }

-- The history of calls is not part of the table.
pub calls-IsTable : (t : Files) (cs : List HostCall) → IsTable t → IsTable (record t { calls = cs })
calls-IsTable t cs h = record { size = h.size; installed = h.installed; kinds = h.kinds }

calls-Keeps :
    {x : ℕ} {t u : Files} (cs : List HostCall) → Keeps x (record t { calls = cs }) u → Keeps x t u
calls-Keeps cs k = record {
  same_else = record { table = k.same_else.table; others = k.same_else.others };
  same_flags = k.same_flags;
}

module _ (host : Host) (t : Files) (x : ℕ) (h : IsTable t) (lt : x < fs_max_open_files) where
  open_by_lem :
      (d : Driver) (name : List ℕ) (mode : ℕ)
      → (r : ℕ) × (u : Files) × (open_by host d x name mode t ≡ ok r u) × Keeps x t u
  unfolding fs_unix_open trap fs_dlx_open
  open_by_lem unix name mode =
      let cs = host_open name mode ∷ t.calls in
      let fd = host.result cs in
      let u = set_entry x (record (entry x t) { u = fd }) (record t { calls = cs }) in
      let keeps =
        calls-Keeps cs (set_entry-Keeps (record t { calls = cs }) x fd (calls-IsTable t cs h) lt) in
      elim (Bool-cases (is_negative fd)) [
        | inl bad ↦ (fd, u, rw bad, keeps)
        | inr good ↦ (1, u, rw good, keeps)
      ]
  open_by_lem dlx name mode =
      (1, set_entry x (record (entry x t) { u = 0 }) t, refl, set_entry-Keeps t x 0 h lt)

module _ (host : Host) (t : Files) (x : ℕ) (h : IsTable t) (lt : x < fs_max_open_files) where
  -- The rest of FsOpen on a slot: it succeeds and the slot has the mode, or it fails and the slot is
  -- free again.
  pub open_slot_lem :
      (name : List ℕ) (mode k : ℕ) (rest : List ℕ)
      → which_fs name ≡ some (k, rest)
      → k < 2
      → (r : ℕ) × (u : Files) × (open_slot host x name mode t ≡ ok r u)
        × SameElse x t u
        × (((r ≡ x) × ((entry x u).flags ≡ mode))
            ⊎ ((is_negative r ≡ true) × ((entry x u).flags ≡ 0)))
  unfolding open_slot fs_free_entry
  open_slot_lem name mode k rest which small =
      let f₁ : OpenFile = record (entry x t) { flags = mode } in
      let t₁ = set_entry x f₁ t in
      let same₁ = set_entry-SameElse t x f₁ (h.kinds x) h in
      let f₂ : OpenFile = record (entry x t₁) { fs = k } in
      let t₂ = set_entry x f₂ t₁ in
      let same₂ = SameElse-trans same₁ (set_entry-SameElse t₁ x f₂ small same₁.table) in
      let at₂ : entry x t₂ ≡ f₂ = entry-set_self t₁ x f₂ same₁.table lt in
      let mode₂ : (entry x t₂).flags ≡ mode =
        ap (λ (g : OpenFile). g.flags) at₂
        ∙ ap (λ (g : OpenFile). g.flags) (entry-set_self t x f₁ h lt) in
      let kind₂ : (entry x t₂).fs ≡ k = ap (λ (g : OpenFile). g.fs) at₂ in
      let (d, found) = driver-some t₂ k same₂.table small in
      let (r, u, ran, keeps) = open_by_lem host t₂ x same₂.table lt d rest mode in
      let same = SameElse-trans same₂ keeps.same_else in
      let after : open_slot host x name mode t
          ≡ (if is_negative r then (fs_free_entry x >> pure {S = Files} r) else pure x) u =
        rw (which, kind₂, found, ran) refl in
      let f₃ : OpenFile = record (entry x u) { flags = 0 } in
      elim (Bool-cases (is_negative r)) [
        | inl bad ↦ (
          r,
          set_entry x f₃ u,
          after ∙ rw bad refl,
          SameElse-trans same
              (set_entry-SameElse u x f₃ (keeps.same_else.table.kinds x) keeps.same_else.table),
          inr (
            bad,
            ap (λ (g : OpenFile). g.flags) (entry-set_self u x f₃ keeps.same_else.table lt),
          ),
        )
        | inr good ↦ (x, u, after ∙ rw good refl, same, inl (refl, keeps.same_flags ∙ mode₂))
      ]
