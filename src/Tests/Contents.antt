-- ===== src/Tests/Contents.antt =====
-- Contents of the sample files: deleted, written and read.
use os_lab.Prelude.{ℕ, zero, suc, ◌≡◌, refl, [], ◌∷◌, ◌++◌, some, replicate, arith, get_elem?}
use os_lab.Os.{ok}
use os_lab.Dfs.{State, Inode, dfs_success}
use os_lab.Dfs.Fbv.Bits.{used}
use os_lab.Prelude.Bits.{bit}
use os_lab.Dfs.Fbv.Alloc.{IsMounted}
use os_lab.Dfs.Inodes.Find.{IsTable}
use os_lab.Dfs.Virtual.Laws.{entered}
use os_lab.Dfs.Delete.{dfs_inode_delete}
use os_lab.Dfs.Delete.Laws.{AreInUse, blocks_to_gap, Deleted, dfs_inode_delete-direct}
use os_lab.Dfs.Bytes.{dfs_inode_write_bytes}
use os_lab.Dfs.Bytes.FirstBlock.{rewritten, write_bytes-first_block}
use os_lab.Dfs.Bytes.Laws.{held}
use os_lab.Tests.Samples.{
  machine, machine-Succeeds, machine-MasksShift, sample, sample-IsMounted, sample_used, sample_free,
  hell, hell_inode, inode_of,
}

-- An inode with two blocks in front of a gap in its table and one behind it, in a file system of its own.
abbrev two_blocks : Inode
two_blocks = inode_of 1 (hell ++ replicate 40 0) (30 ∷ 21 ∷ 0 ∷ 9 ∷ replicate 6 0)

abbrev with_two : State
with_two = record sample { inodes = two_blocks ∷ [] }

with_two-IsMounted : IsMounted with_two
with_two-IsMounted = record {
  valid = sample-IsMounted.valid;
  opened = refl;
  words = sample-IsMounted.words;
  in_array = omega arith;
  small = omega arith;
}

two_blocks-AreInUse : AreInUse with_two.fbv (blocks_to_gap two_blocks.vb_translation_table)
unfolding used bit
two_blocks-AreInUse = (omega arith, refl, (omega arith, refl, tt))

dfs_inode_delete-direct_example :
    (u : State) × (dfs_inode_delete machine 0 with_two ≡ ok dfs_success u)
    × Deleted 0 two_blocks with_two u
dfs_inode_delete-direct_example =
    dfs_inode_delete-direct machine machine-Succeeds with_two 0 with_two-IsMounted (omega arith)
      refl (omega arith) refl refl two_blocks-AreInUse

-- A table of inodes that are all in use.
get_elem?-replicate :
    {A : Type 0} (k j : ℕ) (x : A) {y : A} → get_elem? (replicate k x) j ≡ some y → y ≡ x
get_elem?-replicate zero j x h = cc
get_elem?-replicate (suc k) zero x h = cc
get_elem?-replicate (suc k) (suc j) x h = get_elem?-replicate k j x h

abbrev crowded : State
crowded = record sample {
  sb = record (sample.sb) { size_inodes_array = 192 };
  inodes = replicate 192 hell_inode;
}

crowded-IsTable : IsTable crowded
crowded-IsTable = record {
  size = refl;
  names = λ i n h. rw (get_elem?-replicate 192 i hell_inode h) refl;
}

crowded-IsMounted : IsMounted crowded
crowded-IsMounted = record {
  valid = sample-IsMounted.valid;
  opened = refl;
  words = sample-IsMounted.words;
  in_array = omega arith;
  small = omega arith;
}

write_bytes-first_block_example :
    dfs_inode_write_bytes machine 0 (9 ∷ 9 ∷ 9 ∷ 9 ∷ []) 2 4 sample
    ≡ ok
        (4, 9 ∷ 9 ∷ 9 ∷ 9 ∷ [])
        (rewritten (9 ∷ 9 ∷ 9 ∷ 9 ∷ []) 4 (entered (held sample) 0 hell_inode 0 43))
write_bytes-first_block_example =
    write_bytes-first_block machine machine-Succeeds machine-MasksShift (λ k h. refl) sample 0 43 2
      4 (9 ∷ 9 ∷ 9 ∷ 9 ∷ []) sample-IsMounted refl (omega arith) (omega arith) sample_free
      sample_used refl (omega arith) (omega arith) (omega arith) (omega arith) (omega arith) refl
      refl
