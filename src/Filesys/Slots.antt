-- ===== src/Filesys/Slots.antt =====
-- The table of open files of flat/os/filesys.c: its slots, and what is true of it between the calls.
use os_lab.Prelude.{
  ℕ, zero, suc, ◌+◌, ◌≡◌, ◌≢◌, ◌<◌, refl, Bool-cases, ◌==◌, inl, inr, none, some, List, [], ◌∷◌,
  ◌++◌, length, length-set, get_or, get_or-set_self, get_or-set_ne, set, drop, arith, ℕ_discrete,
}
use os_lab.Misc.{dstrncmp, order_of}
use os_lab.Filesys.{
  OpenFile, Files, Driver, unix, dlx, closed, entry, set_entry, find_slot, driver, which_fs,
  dlx_prefix, fs_max_open_files,
}

-- The slots are all there, each for a file system that has a driver.
pub record IsTable (t : Files) : Type 0 where
  pub size : length t.openfiles ≡ fs_max_open_files
  pub installed : t.drivers ≡ some unix ∷ some dlx ∷ []
  pub kinds : (x : ℕ) → (entry x t).fs < 2

pub entry-set_self :
    (t : Files) (x : ℕ) (f : OpenFile)
    → IsTable t
    → x < fs_max_open_files
    → entry x (set_entry x f t) ≡ f
entry-set_self t x f h lt = get_or-set_self t.openfiles x f closed (omega (arith, h.size))

pub entry-set_ne :
    (t : Files) (x y : ℕ) (f : OpenFile) → x ≢ y → entry y (set_entry x f t) ≡ entry y t
entry-set_ne t x y f ne = get_or-set_ne t.openfiles x y f closed ne

get_or-set_kinds :
    (fs : List OpenFile) (x y : ℕ) (f : OpenFile)
    → f.fs < 2
    → (get_or fs y closed).fs < 2
    → (get_or (set fs x f) y closed).fs < 2
get_or-set_kinds [] x y f k h = omega arith
get_or-set_kinds (g ∷ fs) zero zero f k h = k
get_or-set_kinds (g ∷ fs) zero (suc y) f k h = h
get_or-set_kinds (g ∷ fs) (suc x) zero f k h = h
get_or-set_kinds (g ∷ fs) (suc x) (suc y) f k h = get_or-set_kinds fs x y f k h

-- A write of an entry keeps the table.
pub set_entry-IsTable :
    (t : Files) (x : ℕ) (f : OpenFile) → f.fs < 2 → IsTable t → IsTable (set_entry x f t)
set_entry-IsTable t x f k h = record {
  size = omega (arith, length-set t.openfiles x f, h.size);
  installed = h.installed;
  kinds = λ y. get_or-set_kinds t.openfiles x y f k (h.kinds y);
}

-- The driver of each of the two file systems.
pub driver-some : (t : Files) (k : ℕ) → IsTable t → k < 2 → (d : Driver) × (driver k t ≡ some d)
driver-some t zero h lt = (unix, rw h.installed)
driver-some t (suc zero) h lt = (dlx, rw h.installed)
driver-some t (suc (suc k)) h lt = absurd (omega arith)

-- The first slot that is not in use.
pub find_slot-some :
    (fs : List OpenFile) (i k : ℕ)
    → find_slot fs i ≡ some k
    → (j : ℕ) × (k ≡ i + j)
      × (j < length fs)
      × ((get_or fs j closed).flags ≡ 0)
      × ((p : ℕ) → p < j → (get_or fs p closed).flags ≢ 0)
unfolding find_slot
find_slot-some [] i k h = cc
find_slot-some (f ∷ fs) i k h = elim (ℕ_discrete f.flags 0) [
  | yes z ↦ (0, ground arith, omega arith, z, λ p lt. absurd (omega (arith, lt)))
  | no used ↦
      let (j, at, inside, free, before) = find_slot-some fs (i + 1) k (ground arith) in
      (suc j, omega (arith, at), omega (arith, inside), free, later f fs j used before)
]
  where
    later :
        (f : OpenFile) (fs : List OpenFile) (j : ℕ)
        → f.flags ≢ 0
        → ((p : ℕ) → p < j → (get_or fs p closed).flags ≢ 0)
        → (p : ℕ) → p < suc j
        → (get_or (f ∷ fs) p closed).flags ≢ 0
    later f fs j used before zero lt = used
    later f fs j used before (suc p) lt = before p (omega arith)

pub find_slot-none :
    (fs : List OpenFile) (i x : ℕ)
    → find_slot fs i ≡ none
    → x < length fs
    → (get_or fs x closed).flags ≢ 0
unfolding find_slot
find_slot-none [] i x h lt = absurd (omega (arith, lt))
find_slot-none (f ∷ fs) i zero h lt = ground arith
find_slot-none (f ∷ fs) i (suc x) h lt =
    find_slot-none fs (i + 1) x (ground arith) (omega (arith, lt))

-- Two strings are compared without a read past the end of either.
dstrncmp-string :
    (a r b s : List ℕ) (n : ℕ) → (v : ℕ) × (dstrncmp (a ++ (0 ∷ r)) (b ++ (0 ∷ s)) n ≡ some v)
unfolding dstrncmp
dstrncmp-string a r b s zero = (0, refl)
dstrncmp-string [] r [] s (suc n) = (0, refl)
dstrncmp-string (c ∷ a) r [] s (suc n) = (0, refl)
dstrncmp-string [] r (d ∷ b) s (suc n) = elim (Bool-cases (d == 0)) [
  | inl z ↦ (0, rw z)
  | inr other ↦ (order_of 0 d, ground arith)
]
dstrncmp-string (c ∷ a) r (d ∷ b) s (suc n) =
    let (v, e) = dstrncmp-string a r b s n in
    elim (Bool-cases (d == 0)) [
      | inl z ↦ (0, rw z)
      | inr other ↦ elim (Bool-cases (c == d)) [
        | inl same ↦ (v, rw (other, same, e))
        | inr differ ↦ (order_of c d, rw (other, differ))
      ]
    ]

-- A C string names a file of one of the two file systems.
pub which_fs-string :
    (a r : List ℕ)
    → (k : ℕ) × (name : List ℕ) × (which_fs (a ++ (0 ∷ r)) ≡ some (k, name)) × (k < 2)
unfolding which_fs
which_fs-string a r =
    let (v, same_string) = dstrncmp-string a r (b'd' ∷ b'l' ∷ b'x' ∷ b':' ∷ []) [] 4 in
    let e : dstrncmp (a ++ (0 ∷ r)) dlx_prefix 4 ≡ some v = same_string in
    elim (Bool-cases (v == 0)) [
      | inl same ↦ (1, drop 4 (a ++ (0 ∷ r)), ground arith, omega arith)
      | inr differ ↦ (0, a ++ (0 ∷ r), ground arith, omega arith)
    ]
