-- ===== src/Dfs/Inodes/Find.antt =====
-- Which inode DfsInodeFilenameExists of flat/os/dfs.c finds.
use os_lab.Prelude.{
  ℕ, zero, suc, ◌+◌, ◌≤◌, ◌≡◌, refl, ◌&&◌, List, [], ◌∷◌, ◌++◌, ◌==◌, if◌then◌else◌, some, inl, inr,
  length, take, drop, get_elem?, get_elem?-drop, take_all, arith, Bool-cases, ge→ltb,
}
use os_lab.Os.{ok}
use os_lab.Misc.Names.{IsText, agree, dstrlen-text, dstrncmp-agree}
use os_lab.Dfs.{State, Inode, dfs_fail}
use os_lab.Dfs.Fbv.Alloc.{IsMounted, dfs_check_system-IsMounted}
use os_lab.Dfs.Inodes.{name_matches, exists_loop, dfs_inode_filename_exists}

-- The place of the first inode in use whose name agrees with `a`; the list starts at index `i`.
abbrev pub first_match : List ℕ → List Inode → ℕ → ℕ
first_match a [] i = dfs_fail
first_match a (n ∷ ns) i =
    if n.inuse == 1 && agree a n.filename then i else first_match a ns (i + 1)

-- The inode table is as long as the superblock says, and has room for names of 44 bytes.
pub record IsTable (s : State) : Type 0 where
  pub size : length s.inodes ≡ s.sb.size_inodes_array
  pub names : (i : ℕ) (n : Inode) → get_elem? s.inodes i ≡ some n → length n.filename ≡ 44

module _ (a r : List ℕ) (t : IsText a) (short : length a ≤ 44) where
  name_matches-agree :
      (n : Inode) (s : State)
      → length n.filename ≡ 44
      → name_matches (a ++ (0 ∷ r)) n s ≡ ok (agree a n.filename) s
  unfolding name_matches
  name_matches-agree n s len =
      let (v, same, means) = dstrncmp-agree a r n.filename t (omega arith) in
      rw (dstrlen-text a r t, same, means)

  exists_loop-first :
      (k i : ℕ) (s : State)
      → IsTable s
      → i + k ≤ length s.inodes
      → exists_loop k i (a ++ (0 ∷ r)) s ≡ ok (first_match a (take k (drop i s.inodes)) i) s
  unfolding exists_loop
  exists_loop-first zero i s table h = refl
  exists_loop-first (suc k) i s table h =
      let (n, at, rest) = get_elem?-drop s.inodes i (omega arith) in
      rw (at, rest)
        (elim (Bool-cases (n.inuse == 1)) [
          | inl used ↦
              rw (used, name_matches-agree n s (table.names i n at))
                (elim (Bool-cases (agree a n.filename)) [
                  | inl e ↦ rw e refl
                  | inr e ↦ rw e (exists_loop-first k (i + 1) s table (omega arith))
                ])
          | inr free ↦ rw free (exists_loop-first k (i + 1) s table (omega arith))
        ])

  -- DfsInodeFilenameExists, asked for a name of at most 44 characters on a mounted file system,
  -- returns the first inode in use whose name is a prefix of the one asked for or has it as a
  -- prefix, DFS_FAIL if there is none, and changes nothing. The table's names have 44 bytes.
  pub dfs_inode_filename_exists-first :
      (s : State)
      → IsMounted s
      → IsTable s
      → dfs_inode_filename_exists (a ++ (0 ∷ r)) s ≡ ok (first_match a s.inodes 0) s
  unfolding dfs_inode_filename_exists
  dfs_inode_filename_exists-first s v table = rw (
    dfs_check_system-IsMounted v,
    dstrlen-text a r t,
    ge→ltb 44 (length a) short,
    exists_loop-first s.sb.size_inodes_array 0 s table (omega (arith, table.size)),
    take_all s.sb.size_inodes_array s.inodes (omega (arith, table.size)),
  )
