-- ===== src/Files/Open/Laws.antt =====
-- What FileOpen of flat/os/files.c does in the modes `r` and `rw`.
use os_lab.Prelude.{
  ℕ, zero, suc, ◌+◌, ◌≤◌, ◌<◌, ◌≡◌, ◌≢◌, refl, true, false, List, ◌∷◌, ◌++◌, ◌==◌, if◌then◌else◌,
  some, length, drop, get_elem?, set, arith, ne→==, eq→==, ℕ_discrete, get_elem?-drop, get_elem?-lt,
  get_elem?-set_self, get_elem?-set_ne, sym, ◌∙◌, Bool-cases, inl, inr,
}
use os_lab.Os.{ok, Env, file_lock, acquire, release}
use os_lab.Misc.Names.{IsText, dstrlen-text, dstrncpy-exact}
use os_lab.Dfs.{dfs_fail, call, Succeeds}
use os_lab.Dfs.Inodes.{dfs_inode_filename_exists}
use os_lab.Files.{
  Kernel, FileDescriptor, ModeStatus, may_read, same_mode, undefined, w, file_fail, get_file_mode,
}
use os_lab.Files.Laws.{locked_files, unlocked_files}
use os_lab.Files.Open.{find_entry, find_free, enter_file, file_open}

-- Entry `i` of the table is the first one with that inode handle.
pub record IsFirstEntry (fs : List FileDescriptor) (h i : ℕ) (f : FileDescriptor) : Type 0 where
  pub at : get_elem? fs i ≡ some f
  pub same : f.inode_handle ≡ h
  pub before : (j : ℕ) (g : FileDescriptor) → j < i → get_elem? fs j ≡ some g → g.inode_handle ≢ h

find_free-first :
    (env : Env) (n j i : ℕ) (k : Kernel) {f : FileDescriptor}
    → IsFirstEntry k.files file_fail i f
    → j ≤ i
    → i < j + n
    → find_free env n j k ≡ ok i k
unfolding find_free
find_free-first env zero j i k first lo hi = absurd (omega arith)
find_free-first env (suc n) j i k first lo hi = elim (ℕ_discrete j i) [
  | yes e ↦ rw (e, first.at, eq→== _ file_fail first.same)
  | no ne ↦
      let (g, at, rest) =
        get_elem?-drop k.files j (omega (arith, get_elem?-lt k.files i first.at)) in
      rw (at, ne→== g.inode_handle file_fail (first.before j g (omega arith) at))
        (find_free-first env n (j + 1) i k first (omega arith) (omega arith))
]

-- The kernel after the entry was found: an entry of another owner has given the lock back.
abbrev pub found_by_owner : Kernel → FileDescriptor → Kernel
found_by_owner k f = if f.owner_id == k.current_pid then k else unlocked_files k

found_by_owner-files : (k : Kernel) (f : FileDescriptor) → (found_by_owner k f).files ≡ k.files
found_by_owner-files k f = elim (Bool-cases (f.owner_id == k.current_pid)) [
  | inl mine ↦ rw mine refl
  | inr other ↦ rw other refl
]

find_entry-first :
    (env : Env)
    → Succeeds env
    → (n j h i : ℕ) (k : Kernel) {f : FileDescriptor} → IsFirstEntry k.files h i f
    → j ≤ i
    → i < j + n
    → find_entry env n j h k ≡ ok (true, i) (found_by_owner k f)
unfolding find_entry call
find_entry-first env succeeds zero j h i k first lo hi = absurd (omega arith)
find_entry-first env succeeds (suc n) j h i k {f} first lo hi = elim (ℕ_discrete j i) [
  | yes e ↦
      rw (e, first.at, eq→== _ h first.same)
        (elim (Bool-cases (f.owner_id == k.current_pid)) [
          | inl mine ↦ rw mine refl
          | inr other ↦ rw (other, succeeds (release file_lock ∷ k.dfs.history))
        ])
  | no ne ↦
      let (g, at, rest) =
        get_elem?-drop k.files j (omega (arith, get_elem?-lt k.files i first.at)) in
      rw (at, ne→== g.inode_handle h (first.before j g (omega arith) at))
        (find_entry-first env succeeds n (j + 1) h i k first (omega arith) (omega arith))
]

-- An entry that a process has taken, and the table with it as entry `i`.
abbrev pub entry_of : ℕ → FileDescriptor → List ℕ → ℕ → ModeStatus → FileDescriptor
entry_of pid f a h mode = record f {
  filename = a ++ drop (length a) f.filename;
  inode_handle = h;
  owner_id = pid;
  mode = mode;
  current_position = 0;
  eof = false;
}

abbrev pub taken : Kernel → ℕ → FileDescriptor → List ℕ → ℕ → ModeStatus → Kernel
taken k i f a h mode = record k { files = set k.files i (entry_of k.current_pid f a h mode) }

enter_file-ok :
    (env : Env) (i : ℕ) (a tail : List ℕ) (h : ℕ) (mode : ModeStatus) (k : Kernel)
    {f : FileDescriptor}
    → IsText a
    → length a ≤ length f.filename
    → get_elem? k.files i ≡ some f
    → enter_file env i (a ++ (0 ∷ tail)) h mode k ≡ ok i (taken k i f a h mode)
unfolding enter_file
enter_file-ok env i a tail h mode k {f} text room at =
    rw (at, dstrlen-text a tail text, dstrncpy-exact a tail f.filename text room)

may_read-modes :
    (mode : ModeStatus)
    → may_read mode ≡ true
    → (same_mode mode undefined ≡ false) × (same_mode mode w ≡ false)
unfolding may_read same_mode
may_read-modes mode h = ground arith

module _ (env : Env) (succeeds : Succeeds env) (a tail : List ℕ) (text : IsText a) where
  -- FileOpen in mode `r` or `rw` of a name that the file system has, as inode `h`, where entry `i`
  -- is the first of the table with that inode: it returns `i`, whoever owns the entry. The running
  -- process becomes its owner, the cursor is at the start. The file lock stays taken if the process
  -- owned the entry before, and is given back if another one did. Entry `i` is one of the first 15,
  -- its name buffer has room for the name, and every lock call succeeds.
  pub file_open-known :
      (mode : List ℕ) (m : ModeStatus) (h i : ℕ) (k : Kernel) {f : FileDescriptor}
      → get_file_mode mode k ≡ ok m k
      → may_read m ≡ true
      → dfs_inode_filename_exists (a ++ (0 ∷ tail)) (locked_files k).dfs ≡ ok h (locked_files k).dfs
      → h ≢ dfs_fail
      → IsFirstEntry k.files h i f
      → i < 15
      → length a ≤ length f.filename
      → file_open env (a ++ (0 ∷ tail)) mode k
        ≡ ok i (taken (found_by_owner (locked_files k) f) i f a h m)
  unfolding file_open call
  file_open-known mode m h i k {f} is_mode reads known valid first inside room =
      let (defined, not_w) = may_read-modes m reads in
      rw
        (
          is_mode,
          succeeds (acquire file_lock ∷ k.dfs.history),
          defined,
          known,
          ne→== h dfs_fail valid,
          find_entry-first env succeeds 15 0 h i (locked_files k) first (omega arith) (omega arith),
          not_w,
          ne→== i file_fail (omega arith),
        )
        (rw (ne→== i file_fail (omega arith)) (
          enter_file-ok env i a tail h m (found_by_owner (locked_files k) f) {f = f} text room
            (rw (found_by_owner-files (locked_files k) f) first.at)))

  -- FileOpen in mode `r` or `rw` of a name that no file has, where entry `i` is the first free one:
  -- it returns `i` as if the file were there, and leaves the file lock taken. The entry has no inode
  -- (DFS_FAIL), so that it still counts as free. Entry `i` is one of the first 15, its name buffer
  -- has room for the name, and every lock call succeeds.
  pub file_open-unknown :
      (mode : List ℕ) (m : ModeStatus) (i : ℕ) (k : Kernel) {f : FileDescriptor}
      → get_file_mode mode k ≡ ok m k
      → may_read m ≡ true
      → dfs_inode_filename_exists (a ++ (0 ∷ tail)) (locked_files k).dfs
        ≡ ok dfs_fail (locked_files k).dfs
      → IsFirstEntry k.files file_fail i f
      → i < 15
      → length a ≤ length f.filename
      → (file_open env (a ++ (0 ∷ tail)) mode k ≡ ok i (taken (locked_files k) i f a dfs_fail m))
        × IsFirstEntry
            (taken (locked_files k) i f a dfs_fail m).files
            file_fail
            i
            (entry_of k.current_pid f a dfs_fail m)
  unfolding file_open call
  file_open-unknown mode m i k {f} is_mode reads unknown first inside room =
      let (defined, not_w) = may_read-modes m reads in
      let g : FileDescriptor = entry_of k.current_pid f a dfs_fail m in
      (
        rw
            (
              is_mode,
              succeeds (acquire file_lock ∷ k.dfs.history),
              defined,
              unknown,
              not_w,
              find_free-first env 15 0 i (locked_files k) first (omega arith) (omega arith),
              ne→== i file_fail (omega arith),
            )
            (enter_file-ok env i a tail dfs_fail m (locked_files k) text room first.at),
        record {
          at = get_elem?-set_self k.files i g (get_elem?-lt k.files i first.at);
          same = refl;
          before = λ j e lt there.
              first.before j e lt
                (sym (get_elem?-set_ne k.files g (λ eq. absurd (omega arith))) ∙ there);
        },
      )
