-- ===== src/Tests/Mount.antt =====
-- A file system that is closed.
use os_lab.Prelude.{ℕ, zero, suc, ◌≡◌, ◌<◌, ◌^◌, refl, ◌∷◌, replicate, arith}
use os_lab.Os.{ok}
use os_lab.Dfs.{State, dfs_success}
use os_lab.Dfs.Mount.{dfs_close_file_system}
use os_lab.Dfs.Mount.Layout.{HasByteOrder, IsInode, AreInodes, AreWords}
use os_lab.Dfs.Mount.Save.{HasLayout}
use os_lab.Dfs.Mount.Close.{Saved, dfs_close_file_system_lem}
use os_lab.Tests.Samples.{machine, machine-Succeeds, sample, hell_inode, free_inode}

machine-HasByteOrder : HasByteOrder machine
machine-HasByteOrder w h = (refl, omega arith)

hell-IsInode : IsInode hell_inode
hell-IsInode = record {
  inuse = omega arith;
  size = omega arith;
  filename = refl;
  table = omega arith;
  entries = refl;
  indirect = omega arith;
}

free-IsInode : IsInode free_inode
free-IsInode = record {
  inuse = omega arith;
  size = omega arith;
  filename = refl;
  table = omega arith;
  entries = refl;
  indirect = omega arith;
}

-- Thirty-two inodes, which fill three blocks, and a vector of one block.
abbrev laid_out : State
laid_out = record sample {
  sb = record {
    valid = 1;
    block_size = 1024;
    num_blocks = 64;
    start_block_num_inodes_array = 1;
    size_inodes_array = 32;
    start_block_num_fbv = 4;
    data_block_start = 5;
  };
  inodes = hell_inode ∷ replicate 31 free_inode;
  fbv = replicate 256 0xFFE0_0000;
}

free-AreInodes : (n : ℕ) → AreInodes (replicate n free_inode)
free-AreInodes zero = tt
free-AreInodes (suc n) = (free-IsInode, free-AreInodes n)

replicate-AreWords : (n w : ℕ) → w < 2 ^ 32 → AreWords (replicate n w)
replicate-AreWords zero w h = tt
replicate-AreWords (suc n) w h = (h, replicate-AreWords n w h)

laid_out-HasLayout : HasLayout laid_out 3 1
laid_out-HasLayout = record {
  block_size = refl;
  number = refl;
  inodes_fill = refl;
  vector_fills = refl;
  behind_superblock = omega arith;
  behind_inodes = omega arith;
  data_behind = refl;
  on_disk = omega arith;
  superblock = omega arith;
  table = (hell-IsInode, free-AreInodes 31);
  words = replicate-AreWords 256 0xFFE0_0000 (omega arith);
}

dfs_close_file_system_lem_example :
    (u : State) × (dfs_close_file_system machine laid_out ≡ ok dfs_success u)
    × Saved machine laid_out 3 1 u
dfs_close_file_system_lem_example =
    dfs_close_file_system_lem machine machine-HasByteOrder machine-Succeeds laid_out 3 1
      laid_out-HasLayout (λ e. absurd (omega (arith, e))) refl
