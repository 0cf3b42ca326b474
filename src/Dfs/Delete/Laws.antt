-- ===== src/Dfs/Delete/Laws.antt =====
-- What DfsInodeDelete of flat/os/dfs.c does with an inode that has no indirect block.
use os_lab.Prelude.{
  ℕ, zero, suc, ◌+◌, ◌/◌, ◌<◌, ◌≡◌, ◌≢◌, refl, ap, sym, ◌∙◌, Bool, true, false, ◌||◌, List, [], ◌∷◌,
  ◌==◌, ltb, if◌then◌else◌, some, inl, inr, length, drop, get_elem?, get_or, set, replicate, arith,
  ne→==, eq→==, Bool-cases, length-set, set-set, get_elem?-set_self, get_elem?-lt, set-get_elem?,
  drop-set, drop-cons, get_or-set_self, get_or-set_ne, ℕ_discrete,
}
use os_lab.Os.{ok, Event, Env, fbv_lock, inode_lock, acquire, release}
use os_lab.Dfs.{State, Inode, dfs_fail, dfs_success, call, Succeeds}
use os_lab.Dfs.Fbv.{dfs_free_block}
use os_lab.Dfs.Fbv.Bits.{used}
use os_lab.Dfs.Fbv.Alloc.{IsMounted, dfs_check_system-IsMounted, locked, release_return-ok}
use os_lab.Dfs.Fbv.Free.{freed, used-freed, dfs_free_block_lem}
use os_lab.Dfs.Delete.{free_direct, free_indirect, dfs_inode_delete}

-- The blocks of a translation table in front of its first entry that is 0.
abbrev pub blocks_to_gap : List ℕ → List ℕ
blocks_to_gap [] = []
blocks_to_gap (e ∷ es) = if e == 0 then [] else e ∷ blocks_to_gap es

-- The blocks are different blocks in use.
abbrev pub AreInUse : List ℕ → List ℕ → Type 0
AreInUse fbv [] = Unit {0}
AreInUse fbv (b ∷ bs) = (b / 32 < length fbv) × (used fbv b ≡ 1) × AreInUse (freed fbv b) bs

abbrev pub free_all : List ℕ → List ℕ → List ℕ
free_all fbv [] = fbv
free_all fbv (b ∷ bs) = free_all (freed fbv b) bs

abbrev pub frees : List ℕ → List Event → List Event
frees [] h = h
frees (b ∷ bs) h = frees bs (release fbv_lock ∷ acquire fbv_lock ∷ h)

abbrev pub has : ℕ → List ℕ → Bool
has c [] = false
has c (b ∷ bs) = (b == c) || has c bs

length-freed : (fbv : List ℕ) (b : ℕ) → length (freed fbv b) ≡ length fbv
length-freed fbv b = elim (Bool-cases (used fbv b == 1)) [
  | inl e ↦ rw e (length-set fbv (b / 32) _)
  | inr e ↦ rw e refl
]

used-free_all :
    (fbv bs : List ℕ) (c : ℕ)
    → AreInUse fbv bs
    → used (free_all fbv bs) c ≡ (if has c bs then 0 else used fbv c)
used-free_all fbv [] c live = refl
used-free_all fbv (b ∷ bs) c live =
    ground (arith, used-free_all (freed fbv b) bs c live.2, used-freed fbv b live.0 c)

-- The loop over the table, from entry `i` on.
record Freed (handle i : ℕ) (n : Inode) (bs : List ℕ) (s : State) (u : State) : Type 0 where
  table : List ℕ
  state : u ≡ record s {
    fbv = free_all s.fbv bs;
    inodes = set s.inodes handle (record n { vb_translation_table = table });
    history = frees bs s.history;
  }
  entries :
      (j : ℕ)
      → get_or table j 0 ≡ (
          if ltb j i
          then get_or n.vb_translation_table j 0
          else if ltb j (i + length bs)
          then 0
          else get_or n.vb_translation_table j 0)

-- The inode and the state after entry `i`, block `e`, has been freed.
abbrev cut : Inode → ℕ → Inode
cut n i = record n { vb_translation_table = set n.vb_translation_table i 0 }

abbrev after : State → Inode → ℕ → ℕ → ℕ → State
after s n i e handle = record (locked fbv_lock s) {
  fbv = freed s.fbv e;
  inodes = set s.inodes handle (cut n i);
}

-- One round of the loop that frees an entry, in front of the rounds that follow.
Freed-cons :
    (handle i e : ℕ) (n : Inode) (es : List ℕ) (s u : State)
    → i < length n.vb_translation_table
    → Freed handle (i + 1) (cut n i) es (after s n i e handle) u
    → Freed handle i n (e ∷ es) s u
Freed-cons handle i e n es s u inside f = record {
  table = f.table;
  state =
      f.state
      ∙ ap
          (λ ns. record s {
            fbv = free_all s.fbv (e ∷ es);
            inodes = ns;
            history = frees (e ∷ es) s.history;
          })
          (set-set s.inodes handle _ (record n { vb_translation_table = f.table }));
  entries = λ j. ground (arith, f.entries j, at_entry j (ℕ_discrete i j));
}
  where
    at_entry :
        (j : ℕ)
        → Dec (i ≡ j)
        → get_or (set n.vb_translation_table i 0) j 0
          ≡ (if i == j then 0 else get_or n.vb_translation_table j 0)
    at_entry j (yes q) =
        rw (← q, get_or-set_self n.vb_translation_table i 0 0 inside) (ground arith)
    at_entry j (no ne) = rw (get_or-set_ne n.vb_translation_table i j 0 0 ne) (ground arith)

Freed-none :
    (handle i : ℕ) (n : Inode) (s : State)
    → get_elem? s.inodes handle ≡ some n
    → Freed handle i n [] s s
Freed-none handle i n s at = record {
  table = n.vb_translation_table;
  state = ap (λ ns. record s { inodes = ns }) (sym (set-get_elem? s.inodes handle at));
  entries = λ j. ground arith;
}

-- The state `u` is `s` with inode `handle` given back, and its blocks in front of the first entry of the
-- table that is 0. Behind it nothing is freed, and the table keeps what it holds.
pub record Deleted (handle : ℕ) (n : Inode) (s : State) (u : State) : Type 0 where
  pub table : List ℕ
  pub entries :
      (j : ℕ)
      → get_or table j 0 ≡ (
          if ltb j (length (blocks_to_gap n.vb_translation_table))
          then 0
          else get_or n.vb_translation_table j 0)
  pub inodes :
      u.inodes
      ≡ set s.inodes handle (record n {
        inuse = 0;
        size = 0;
        filename = replicate 44 0;
        vb_translation_table = table;
      })
  pub blocks :
      (c : ℕ)
      → used u.fbv c ≡ (if has c (blocks_to_gap n.vb_translation_table) then 0 else used s.fbv c)
  pub superblock : u.sb ≡ s.sb
  pub disk : u.disk ≡ s.disk
  pub calls :
      u.history
      ≡ release inode_lock
        ∷ frees (blocks_to_gap n.vb_translation_table) (acquire inode_lock ∷ s.history)

module _ (env : Env) (succeeds : Succeeds env) where
  dfs_free_block-used :
      (e : ℕ) (s : State)
      → e / 32 < length s.fbv
      → used s.fbv e ≡ 1
      → dfs_free_block env e s ≡ ok dfs_success (record (locked fbv_lock s) { fbv = freed s.fbv e })
  dfs_free_block-used e s inside live =
      (dfs_free_block_lem env succeeds e s inside).0
      ∙ ap
          (λ (u : ℕ).
            ok (if u == 1 then dfs_success else dfs_fail)
              (record (locked fbv_lock s) { fbv = freed s.fbv e }))
          live

  free_direct-Freed :
      (k handle i : ℕ) (es : List ℕ) (s : State) (n : Inode)
      → get_elem? s.inodes handle ≡ some n
      → drop i n.vb_translation_table ≡ es
      → length es ≡ k
      → AreInUse s.fbv (blocks_to_gap es)
      → (u : State) × (free_direct env k handle i s ≡ ok true u)
        × Freed handle i n (blocks_to_gap es) s u
  unfolding free_direct
  free_direct-Freed zero handle i [] s n at split len inuse = (s, refl, Freed-none handle i n s at)
  free_direct-Freed zero handle i (e ∷ es) s n at split len inuse = absurd (omega arith)
  free_direct-Freed (suc k) handle i [] s n at split len inuse = absurd (omega arith)
  free_direct-Freed (suc k) handle i (e ∷ es) s n at split len inuse =
      let (entry, rest) = drop-cons n.vb_translation_table i split in
      elim (Bool-cases (e == 0)) [
        | inl z ↦ rw z (s, rw (at, entry, z) refl, Freed-none handle i n s at)
        | inr nz ↦
            let live : (e / 32 < length s.fbv)
                × (used s.fbv e ≡ 1)
                × AreInUse (freed s.fbv e) (blocks_to_gap es) =
              rw nz at inuse in
            let (u, ran, f) =
              free_direct-Freed k handle (i + 1) es (after s n i e handle) (cut n i)
                (get_elem?-set_self s.inodes handle (cut n i) (get_elem?-lt s.inodes handle at))
                (drop-set n.vb_translation_table i (i + 1) 0 (omega arith) ∙ rest) (omega arith)
                live.2 in
            rw nz (
              u,
              rw (at, entry, nz, dfs_free_block-used e s live.0 live.1) ran,
              Freed-cons handle i e n (blocks_to_gap es) s u
                  (get_elem?-lt n.vb_translation_table i entry) f,
            )
      ]

  free_indirect-none :
      (handle : ℕ) (s : State) (n : Inode)
      → get_elem? s.inodes handle ≡ some n
      → n.block_num_indirect_index ≡ 0
      → free_indirect env handle s ≡ ok true s
  unfolding free_indirect
  free_indirect-none handle s n at e = rw (at, eq→== n.block_num_indirect_index 0 e)

  -- DfsInodeDelete of an inode in use that has no indirect block, on a mounted file system, where the
  -- blocks in front of the first entry 0 of its translation table are different blocks in use: it succeeds.
  -- Exactly those blocks have become free, and their entries are 0. Every other block stays as it was, also
  -- one that an entry behind the first 0 holds, and so do those entries. The inode is not in use, has size
  -- 0 and a cleared name; the other inodes, the superblock and the disk are as they were; and every lock
  -- has been given back. The table has ten entries, the handle is not DFS_FAIL, and every lock call
  -- succeeds.
  pub dfs_inode_delete-direct :
      (s : State) (handle : ℕ) {n : Inode}
      → IsMounted s
      → handle ≢ dfs_fail
      → get_elem? s.inodes handle ≡ some n
      → n.inuse ≢ 0
      → n.block_num_indirect_index ≡ 0
      → length n.vb_translation_table ≡ 10
      → AreInUse s.fbv (blocks_to_gap n.vb_translation_table)
      → (u : State) × (dfs_inode_delete env handle s ≡ ok dfs_success u) × Deleted handle n s u
  unfolding dfs_inode_delete call
  dfs_inode_delete-direct s handle {n} v valid at inuse nothing len live =
      let start : State = record s { history = acquire inode_lock ∷ s.history } in
      let (t, ran, f) =
        free_direct-Freed 10 handle 0 n.vb_translation_table start n at refl len live in
      let m : Inode = record n { vb_translation_table = f.table } in
      let u : State = record s {
        fbv = free_all s.fbv (blocks_to_gap n.vb_translation_table);
        inodes = set s.inodes handle m;
        history = frees (blocks_to_gap n.vb_translation_table) (acquire inode_lock ∷ s.history);
      } in
      let ran' : free_direct env 10 handle 0 start ≡ ok true u = ran ∙ ap (ok true) f.state in
      let got : get_elem? (set s.inodes handle m) handle ≡ some m =
        get_elem?-set_self s.inodes handle m (get_elem?-lt s.inodes handle at) in
      let gone : State = record u {
        inodes =
            set (set s.inodes handle m) handle
              (record m { inuse = 0; size = 0; filename = replicate 44 0 });
        history = release inode_lock ∷ u.history;
      } in
      (
        gone,
        rw
            (
              dfs_check_system-IsMounted v,
              succeeds (acquire inode_lock ∷ s.history),
              ne→== handle dfs_fail valid,
              at,
              ne→== n.inuse 0 inuse,
              ran',
              free_indirect-none handle u m got nothing,
              got,
            )
            (release_return-ok env succeeds inode_lock dfs_success _),
        record {
          table = f.table;
          entries = λ j. ground (arith, f.entries j);
          inodes = set-set s.inodes handle m _;
          blocks = λ c. used-free_all s.fbv (blocks_to_gap n.vb_translation_table) c live;
          superblock = refl;
          disk = refl;
          calls = refl;
        },
      )
