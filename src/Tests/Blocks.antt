-- ===== src/Tests/Blocks.antt =====
-- Blocks of the sample file system: allocated, freed, written and read.
use os_lab.Prelude.{ℕ, ◌≡◌, refl, ◌==◌, if◌then◌else◌, replicate, arith}
use os_lab.Os.{ok, ◌>>=◌, ◌>>◌, fbv_lock}
use os_lab.Dfs.{State, dfs_success, dfs_fail}
use os_lab.Dfs.Fbv.{dfs_allocate_block, dfs_free_block}
use os_lab.Dfs.Fbv.Bits.{used}
use os_lab.Dfs.Fbv.Alloc.{
  IsMounted, locked, toggled, dfs_allocate_block-first, dfs_allocate_block-full,
}
use os_lab.Dfs.Fbv.Free.{freed, dfs_free_block_lem, dfs_free_block-dfs_allocate_block}
use os_lab.Dfs.Block.{dfs_read_block, dfs_write_block}
use os_lab.Prelude.Bits.{bit}
use os_lab.Dfs.Block.Laws.{IsBlock, written, read_calls, dfs_read_block-dfs_write_block}
use os_lab.Tests.Samples.{
  machine, machine-Succeeds, machine-MasksShift, sample, sample-IsMounted, sample_used, sample_free,
}

dfs_allocate_block-first_example :
    (dfs_allocate_block machine sample
      ≡ ok 43 (record (locked fbv_lock sample) { fbv = toggled sample.fbv 43 }))
    × ((b : ℕ) → used (toggled sample.fbv 43) b ≡ (if 43 == b then 1 else used sample.fbv b))
dfs_allocate_block-first_example =
    dfs_allocate_block-first machine machine-Succeeds machine-MasksShift sample 43 sample-IsMounted
      (omega arith) sample_free sample_used

-- The same disk with 32 blocks, all in use.
abbrev full : State
full = record sample { sb = record (sample.sb) { num_blocks = 32 } }

full-IsMounted : IsMounted full
full-IsMounted = record {
  valid = sample-IsMounted.valid;
  opened = refl;
  words = sample-IsMounted.words;
  in_array = omega arith;
  small = omega arith;
}

dfs_allocate_block-full_example :
    dfs_allocate_block machine full ≡ ok dfs_fail (locked fbv_lock full)
dfs_allocate_block-full_example =
    dfs_allocate_block-full machine machine-Succeeds full full-IsMounted
      (λ b h. sample_used b (omega arith))

dfs_free_block_lem_example :
    (dfs_free_block machine 42 sample
      ≡ ok
          (if used sample.fbv 42 == 1 then dfs_success else dfs_fail)
          (record (locked fbv_lock sample) { fbv = freed sample.fbv 42 }))
    × ((c : ℕ) → used (freed sample.fbv 42) c ≡ (if 42 == c then 0 else used sample.fbv c))
dfs_free_block_lem_example = dfs_free_block_lem machine machine-Succeeds 42 sample (omega arith)

dfs_free_block-dfs_allocate_block_example :
    (dfs_allocate_block machine >>= dfs_free_block machine) sample
    ≡ ok dfs_success (locked fbv_lock (locked fbv_lock sample))
dfs_free_block-dfs_allocate_block_example =
    dfs_free_block-dfs_allocate_block machine machine-Succeeds sample 43 machine-MasksShift
      sample-IsMounted (omega arith) sample_free sample_used

sample-IsBlock : IsBlock sample 20
sample-IsBlock = record {
  mounted = sample-IsMounted;
  block_size = refl;
  on_disk = omega arith;
  in_vector = omega arith;
  in_use = sample_used 20 (omega arith);
}

dfs_read_block-dfs_write_block_example :
    (dfs_write_block machine 20 (replicate 1024 5) >> dfs_read_block machine 20 (replicate 1024 7))
      sample
    ≡ ok
        (1024, replicate 1024 5)
        (record (written 20 (replicate 1024 5) sample) {
          history = read_calls 20 (written 20 (replicate 1024 5) sample).history;
        })
dfs_read_block-dfs_write_block_example =
    dfs_read_block-dfs_write_block machine machine-Succeeds 20 (replicate 1024 5) (replicate 1024 7)
      sample sample-IsBlock refl refl (omega arith)

block_50_free : used sample.fbv 50 ≡ 0
unfolding used bit
block_50_free = refl
