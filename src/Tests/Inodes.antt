-- ===== src/Tests/Inodes.antt =====
-- Inodes of the sample file system, which holds one file, `hell`.
use os_lab.Prelude.{
  ℕ, ◌<◌, ◌≡◌, ◌≢◌, refl, true, List, [], ◌∷◌, ◌++◌, zero, suc, length, some, get_elem?, set, arith,
  ◌↔◌, ◌||◌,
}
use os_lab.Os.{ok, inode_lock}
use os_lab.Misc.{dstrncmp}
use os_lab.Misc.Names.{IsText, chars, is_prefix, dstrncmp-prefix}
use os_lab.Dfs.{Inode, dfs_success}
use os_lab.Dfs.Fbv.Alloc.{locked}
use os_lab.Dfs.Fbv.Bits.{used}
use os_lab.Dfs.Inodes.{dfs_inode_filename_exists, dfs_inode_open, fresh_inode}
use os_lab.Dfs.Inodes.Find.{dfs_inode_filename_exists-first}
use os_lab.Dfs.Inodes.Open.{IsFirstFree, dfs_inode_open-new}
use os_lab.Dfs.Virtual.{dfs_inode_allocate_virtual_block, dfs_inode_translate}
use os_lab.Dfs.Virtual.Laws.{entered, translate-allocate_virtual}
use os_lab.Tests.Samples.{
  machine, machine-Succeeds, machine-MasksShift, sample, sample-IsMounted, sample-IsTable,
  sample_used, sample_free, hell, hello, world, hell_inode, free_inode,
}

hello-IsText : IsText hello
hello-IsText = omega arith

world-IsText : IsText world
world-IsText = omega arith

dstrncmp-prefix_example :
    (dstrncmp (hello ++ (0 ∷ [])) (hell ++ (0 ∷ 9 ∷ [])) (length hello) ≡ some 0) ↔ (
      (is_prefix hello (chars (hell ++ (0 ∷ 9 ∷ [])))
        || is_prefix (chars (hell ++ (0 ∷ 9 ∷ []))) hello)
      ≡ true)
dstrncmp-prefix_example = dstrncmp-prefix hello [] (hell ++ (0 ∷ 9 ∷ [])) hello-IsText (omega arith)

-- The file system has no file `hello`, and answers with the inode of `hell`.
dfs_inode_filename_exists-first_example :
    dfs_inode_filename_exists (hello ++ (0 ∷ [])) sample ≡ ok 0 sample
dfs_inode_filename_exists-first_example =
    dfs_inode_filename_exists-first hello [] hello-IsText (omega arith) sample sample-IsMounted
      sample-IsTable

sample-IsFirstFree : IsFirstFree sample.inodes 1 free_inode
sample-IsFirstFree = record { at = refl; free = refl; before = before }
  where
    before : (i : ℕ) (m : Inode) → i < 1 → get_elem? sample.inodes i ≡ some m → m.inuse ≢ 0
    before zero m h e = ground arith
    before (suc i) m h e = absurd (omega arith)

dfs_inode_open-new_example :
    (name : List ℕ) × (dfs_inode_open machine (world ++ (0 ∷ [])) sample
      ≡ ok 1
          (record (locked inode_lock sample) { inodes = set sample.inodes 1 (fresh_inode name) }))
    × (chars name ≡ world)
    × (length name ≡ 44)
dfs_inode_open-new_example =
    dfs_inode_open-new machine machine-Succeeds world [] world-IsText sample 1 (omega arith)
      sample-IsMounted sample-IsTable (omega arith) refl sample-IsFirstFree

translate-allocate_virtual_example :
    (dfs_inode_allocate_virtual_block machine 0 3 sample
      ≡ ok dfs_success (entered sample 0 hell_inode 3 43))
    × (used (entered sample 0 hell_inode 3 43).fbv 43 ≡ 1)
    × (dfs_inode_translate machine 0 3 (entered sample 0 hell_inode 3 43)
        ≡ ok 43 (entered sample 0 hell_inode 3 43))
translate-allocate_virtual_example =
    translate-allocate_virtual machine machine-Succeeds machine-MasksShift sample 0 3 43 3 0
      sample-IsMounted (omega arith) sample_free sample_used refl (omega arith) (omega arith) refl
