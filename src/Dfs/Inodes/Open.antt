-- ===== src/Dfs/Inodes/Open.antt =====
-- DfsInodeOpen of flat/os/dfs.c: it finds the inode of a name, or makes one.
use os_lab.Prelude.{
  ℕ, zero, suc, ◌+◌, ◌≤◌, ◌<◌, ◌≡◌, ◌≢◌, ap, sym, ◌∙◌, true, ◌&&◌, List, [], ◌∷◌, ◌++◌, ◌==◌, some,
  inl, inr, length, get_elem?, set, get_elem?-drop, arith, Bool-cases, ge→ltb, ne→==, eq→==,
  length-set, get_elem?-set_self, get_elem?-lt, get_elem?-set_ne, ℕ_discrete,
}
use os_lab.Os.{ok, inode_lock, acquire, release, Env}
use os_lab.Misc.{dstrncpy}
use os_lab.Misc.Names.{IsText, agree, chars, dstrlen-text, dstrncpy-text, agree_of_chars}
use os_lab.Dfs.{State, Inode, dfs_fail, dfs_inode_max_num, call, Succeeds}
use os_lab.Dfs.Fbv.Alloc.{IsMounted, dfs_check_system-IsMounted, locked}
use os_lab.Dfs.Inodes.{fresh_inode, open_loop, dfs_inode_open}
use os_lab.Dfs.Inodes.Find.{first_match, IsTable, dfs_inode_filename_exists-first}

-- Inode `p` is the first one that is not in use.
pub record IsFirstFree (ns : List Inode) (p : ℕ) (n : Inode) : Type 0 where
  pub at : get_elem? ns p ≡ some n
  pub free : n.inuse ≡ 0
  pub before : (i : ℕ) (m : Inode) → i < p → get_elem? ns i ≡ some m → m.inuse ≢ 0

open_loop-first :
    (k i : ℕ) (filename name : List ℕ) (s : State) (p : ℕ) {n : Inode}
    → IsFirstFree s.inodes p n
    → dstrncpy n.filename filename 44 ≡ some name
    → i ≤ p
    → p < i + k
    → i + k ≤ length s.inodes
    → open_loop k i filename s ≡ ok (p, p) (record s { inodes = set s.inodes p (fresh_inode name) })
unfolding open_loop
open_loop-first zero i f name s p first copy lo hi room = absurd (omega arith)
open_loop-first (suc k) i f name s p first copy lo hi room = elim (ℕ_discrete i p) [
  | yes e ↦ rw (e, first.at, eq→== _ 0 first.free, copy)
  | no ne ↦
      let (m, at, rest) = get_elem?-drop s.inodes i (omega arith) in
      rw (at, ne→== m.inuse 0 (first.before i m (omega arith) at))
        (open_loop-first k (i + 1) f name s p first copy (omega arith) (omega arith) (omega arith))
]

open_loop-full :
    (k i : ℕ) (filename : List ℕ) (s : State)
    → ((j : ℕ) (m : Inode) → get_elem? s.inodes j ≡ some m → m.inuse ≢ 0)
    → i + k ≤ length s.inodes
    → open_loop k i filename s ≡ ok (i + k, dfs_fail) s
unfolding open_loop
open_loop-full zero i f s full room = ap (λ (j : ℕ). ok (j, dfs_fail) s) (omega arith)
open_loop-full (suc k) i f s full room =
    let (m, at, rest) = get_elem?-drop s.inodes i (omega arith) in
    rw (at, ne→== m.inuse 0 (full i m at))
      (open_loop-full k (i + 1) f s full (omega arith)
        ∙ ap (λ (j : ℕ). ok (j, dfs_fail) s) (omega arith))

-- A new inode of that name is the first match, if there was none.
first_match-set :
    (a name : List ℕ) (ns : List Inode) (p i : ℕ)
    → agree a name ≡ true
    → p < length ns
    → i + length ns < dfs_fail
    → first_match a ns i ≡ dfs_fail
    → first_match a (set ns p (fresh_inode name)) i ≡ i + p
first_match-set a name [] p i same lt small missing = absurd (omega arith)
first_match-set a name (n ∷ ns) zero i same lt small missing = rw same (omega arith)
first_match-set a name (n ∷ ns) (suc p) i same lt small missing =
    elim (Bool-cases (n.inuse == 1 && agree a n.filename)) [
      | inl hit ↦ absurd (ground arith)
      | inr miss ↦ rw miss (
          first_match-set a name ns p (i + 1) same (omega arith) (omega arith) (ground arith)
          ∙ omega arith)
    ]

module _ (env : Env) (succeeds : Succeeds env) (a r : List ℕ) (t : IsText a) where
  -- DfsInodeOpen, asked for a name of at most 44 characters for which DfsInodeFilenameExists has a
  -- match, returns that match and changes nothing. The file system is mounted, and its table's names
  -- have 44 bytes.
  pub dfs_inode_open-known :
      (s : State)
      → length a ≤ 44
      → IsMounted s
      → IsTable s
      → first_match a s.inodes 0 ≢ dfs_fail
      → dfs_inode_open env (a ++ (0 ∷ r)) s ≡ ok (first_match a s.inodes 0) s
  unfolding dfs_inode_open
  dfs_inode_open-known s short v table known = rw (
    dfs_check_system-IsMounted v,
    dfs_inode_filename_exists-first a r t short s v table,
    ne→== (first_match a s.inodes 0) dfs_fail known,
  )

  -- For a name of fewer than 44 characters that no file has, and a table with a free inode,
  -- DfsInodeOpen returns the first free inode. That inode is then in use, empty, with the name asked
  -- for; nothing else has changed but that the inode lock was taken and given back. The file system
  -- is mounted, its table has at most 192 inodes with names of 44 bytes, and every lock call
  -- succeeds.
  pub dfs_inode_open-new :
      (s : State) (p : ℕ) {n : Inode}
      → length a < 44
      → IsMounted s
      → IsTable s
      → s.sb.size_inodes_array ≤ dfs_inode_max_num
      → first_match a s.inodes 0 ≡ dfs_fail
      → IsFirstFree s.inodes p n
      → (name : List ℕ) × (dfs_inode_open env (a ++ (0 ∷ r)) s
          ≡ ok p (record (locked inode_lock s) { inodes = set s.inodes p (fresh_inode name) }))
        × (chars name ≡ a)
        × (length name ≡ 44)
  unfolding dfs_inode_open call
  dfs_inode_open-new s p {n} short v table small unknown first =
      let (name, copy, same, len) =
        dstrncpy-text a r n.filename 44 t (omega (arith, table.names p n first.at)) short in
      let inside : p < length s.inodes = get_elem?-lt s.inodes p first.at in
      (
        name,
        rw (
          dfs_check_system-IsMounted v,
          dfs_inode_filename_exists-first a r t (omega arith) s v table,
          unknown,
          dstrlen-text a r t,
          ge→ltb 44 (length a) (omega arith),
          succeeds (acquire inode_lock ∷ s.history),
          open_loop-first s.sb.size_inodes_array 0 (a ++ (0 ∷ r)) name
              (record s { history = acquire inode_lock ∷ s.history }) p first copy (omega arith)
              (omega (arith, table.size)) (omega (arith, table.size)),
          succeeds (release inode_lock ∷ acquire inode_lock ∷ s.history),
          ne→== p dfs_inode_max_num (omega (arith, table.size)),
        ),
        same,
        omega (arith, table.names p n first.at),
      )

  -- For a name that no file has, and a table of 192 inodes all in use, DfsInodeOpen returns DFS_FAIL
  -- and changes nothing but that the inode lock was taken and given back. The name has at most 44
  -- characters, the file system is mounted, its table's names have 44 bytes, and every lock call
  -- succeeds.
  pub dfs_inode_open-full :
      (s : State)
      → length a ≤ 44
      → IsMounted s
      → IsTable s
      → s.sb.size_inodes_array ≡ dfs_inode_max_num
      → first_match a s.inodes 0 ≡ dfs_fail
      → ((j : ℕ) (m : Inode) → get_elem? s.inodes j ≡ some m → m.inuse ≢ 0)
      → dfs_inode_open env (a ++ (0 ∷ r)) s ≡ ok dfs_fail (locked inode_lock s)
  unfolding dfs_inode_open call
  dfs_inode_open-full s short v table size unknown full = rw (
    dfs_check_system-IsMounted v,
    dfs_inode_filename_exists-first a r t short s v table,
    unknown,
    dstrlen-text a r t,
    ge→ltb 44 (length a) short,
    succeeds (acquire inode_lock ∷ s.history),
    open_loop-full s.sb.size_inodes_array 0 (a ++ (0 ∷ r))
        (record s { history = acquire inode_lock ∷ s.history }) full (omega (arith, table.size)),
    succeeds (release inode_lock ∷ acquire inode_lock ∷ s.history),
    eq→== (0 + s.sb.size_inodes_array) dfs_inode_max_num (omega arith),
  )

  fresh-IsTable :
      (s : State) (p : ℕ) (name : List ℕ)
      → IsTable s
      → p < length s.inodes
      → length name ≡ 44
      → IsTable (record (locked inode_lock s) { inodes = set s.inodes p (fresh_inode name) })
  fresh-IsTable s p name table inside len = record {
    size = length-set s.inodes p (fresh_inode name) ∙ table.size;
    names = λ j n e. name_at j n e (ℕ_discrete p j);
  }
    where
      name_at :
          (j : ℕ) (n : Inode)
          → get_elem? (set s.inodes p (fresh_inode name)) j ≡ some n
          → Dec (p ≡ j)
          → length n.filename ≡ 44
      name_at j n e (yes q) =
          let new : get_elem? (set s.inodes p (fresh_inode name)) j ≡ some (fresh_inode name) =
            rw (← q) (get_elem?-set_self s.inodes p (fresh_inode name) inside) in
          ground arith
      name_at j n e (no ne) =
          table.names j n (sym (get_elem?-set_ne s.inodes (fresh_inode name) ne) ∙ e)

  -- Opening the same new name twice gives the same inode twice: the second call finds what the first
  -- one made, and makes no other. The name has fewer than 44 characters, the file system is mounted
  -- and has a free inode, its table has at most 192 inodes with names of 44 bytes, and every lock
  -- call succeeds.
  dfs_inode_open-dfs_inode_open :
      (s : State) (p : ℕ) {n : Inode}
      → length a < 44
      → IsMounted s
      → IsTable s
      → s.sb.size_inodes_array ≤ dfs_inode_max_num
      → first_match a s.inodes 0 ≡ dfs_fail
      → IsFirstFree s.inodes p n
      → (u : State) × (dfs_inode_open env (a ++ (0 ∷ r)) s ≡ ok p u)
        × (dfs_inode_open env (a ++ (0 ∷ r)) u ≡ ok p u)
  dfs_inode_open-dfs_inode_open s p short v table small unknown first =
      let (name, made, same, len) = dfs_inode_open-new s p short v table small unknown first in
      let inside : p < length s.inodes = get_elem?-lt s.inodes p first.at in
      let found : first_match a (set s.inodes p (fresh_inode name)) 0 ≡ p =
        first_match-set a name s.inodes p 0 (agree_of_chars a name same) inside
          (omega (arith, table.size)) unknown
        ∙ omega arith in
      let u : State = record (locked inode_lock s) { inodes = set s.inodes p (fresh_inode name) } in
      (
        u,
        made,
        dfs_inode_open-known u (omega arith) (locked-IsMounted v)
              (fresh-IsTable s p name table inside len)
              (λ e. absurd (omega (arith, found, e, table.size)))
            ∙ ap (λ b. ok b u) found,
      )
    where
      locked-IsMounted :
          {ns : List Inode} → IsMounted s → IsMounted (record (locked inode_lock s) { inodes = ns })
      locked-IsMounted w = record {
        valid = w.valid;
        opened = w.opened;
        words = w.words;
        in_array = w.in_array;
        small = w.small;
      }
