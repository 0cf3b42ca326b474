-- ===== src/Dfs/Mount/Close.antt =====
-- What DfsCloseFileSystem of flat/os/dfs.c leaves on the disk.
use os_lab.Prelude.{
  ℕ, ◌+◌, ◌*◌, ◌≡◌, ◌≢◌, ◌<◌, ◌≤◌, ◌⊎◌, ◌∙◌, sym, refl, true, false, inl, inr, some, List, [],
  length, take, drop, arith, ne→==,
}
use mathlib.Core.List.{append-nil}
use os_lab.Os.{ok, fs_write, Env}
use os_lab.Dfs.{State, Inode, dfs_success, dfs_invalidate, Succeeds}
use os_lab.Dfs.Fbv.Alloc.{dfs_check_system-valid}
use os_lab.Dfs.Virtual.{words_of, bytes_of}
use os_lab.Disk.{put_block}
use os_lab.Disk.Laws.{transfer}
use os_lab.Dfs.Mount.{
  superblock_bytes, superblock_of, bytes_of_inodes, inodes_of_bytes, dfs_close_file_system,
}
use os_lab.Dfs.Mount.Layout.{
  HasByteOrder, length-bytes_of, words_of-bytes_of, inodes_of_bytes-bytes_of_inodes,
}
use os_lab.Dfs.Mount.Stored.{with_disk, blocks_from, blocks_from-inside}
use os_lab.Dfs.Mount.Save.{
  HasLayout, length-bytes_of_inodes, move_inodes-Stored, move_fbv-Stored, write_superblock-ok,
  sb_block-superblock, sb_block,
}

-- The disk of `u` holds the metadata of `s` in its places, and is that of `s` elsewhere; `u` is closed.
pub record Saved (env : Env) (s : State) (inodes vector : ℕ) (u : State) : Type 0 where
  pub superblock : superblock_of (words_of env (take superblock_bytes (u.disk 1))) ≡ some (s.sb)
  pub table :
      (olds : List Inode)
      → length olds ≡ length s.inodes
      → inodes_of_bytes env olds
          (blocks_from u.disk (2 * s.sb.start_block_num_inodes_array) (2 * inodes))
        ≡ s.inodes
  pub words : words_of env (blocks_from u.disk (2 * s.sb.start_block_num_fbv) (2 * vector)) ≡ s.fbv
  pub others :
      (m : ℕ)
      → m ≢ 1
      → (m < 2 * s.sb.start_block_num_inodes_array)
        ⊎ (2 * (s.sb.start_block_num_inodes_array + inodes) ≤ m)
      → (m < 2 * s.sb.start_block_num_fbv) ⊎ (2 * (s.sb.start_block_num_fbv + vector) ≤ m)
      → u.disk m ≡ s.disk m
  pub memory : (u.inodes ≡ s.inodes) × (u.fbv ≡ s.fbv)
  pub closed : (u.is_open ≡ false) × (u.sb ≡ record (s.sb) { valid = 0 })

module _ (env : Env) (order : HasByteOrder env) (succeeds : Succeeds env) where
  -- DfsCloseFileSystem of an open file system with blocks of 1024 bytes, whose superblock, inodes and free
  -- block vector lie in this order on the disk and fill their blocks, succeeds. Then disk block 1 holds the
  -- bytes of the superblock as it was, the disk blocks of the inodes those of all inodes, and the disk blocks
  -- of the vector those of the vector: read back by the machine's byte order they are what was in memory.
  -- Every other disk block and the inodes and the vector in memory are as before, the superblock in memory
  -- is marked as not valid and the file system as closed. Fields have their sizes in C, a word's four
  -- bytes load as the word, and every host call succeeds.
  pub dfs_close_file_system_lem :
      (s : State) (inodes vector : ℕ)
      → HasLayout s inodes vector
      → s.sb.valid ≢ 0
      → s.is_open ≡ true
      → (u : State) × (dfs_close_file_system env s ≡ ok dfs_success u) × Saved env s inodes vector u
  unfolding dfs_close_file_system dfs_invalidate
  dfs_close_file_system_lem s inodes vector v valid opened =
      let (d, h, ran, stored) =
        move_inodes-Stored env order succeeds s inodes vector v s.disk s.history in
      let (e, h', ran', stored') = move_fbv-Stored env order succeeds s inodes vector v d h in
      let last = write_superblock-ok env order succeeds s inodes vector v e h' in
      let some_size : s.sb.block_size ≢ 0 = λ z. absurd (omega (arith, z, v.block_size)) in
      let bytes : List ℕ = bytes_of_inodes env s.inodes in
      let ws : List ℕ = bytes_of env s.fbv in
      let i = s.sb.start_block_num_inodes_array in
      let f = s.sb.start_block_num_fbv in
      let final = put_block 1 (sb_block env order succeeds s inodes vector v) (with_disk s e h') in
      let first : 2 * i + 0 ≡ 2 * i = omega arith in
      let kept : (k : ℕ)
          → k < 2 * inodes
          → final.disk (2 * i + k) ≡ take 512 (drop (0 + 512 * k) bytes) =
        λ k lt. rw (ne→== (2 * i + k) 1 (λ q. absurd (omega (arith, q, v.behind_superblock)))) (
          stored'.outside (2 * i + k) (inl (omega (arith, lt, v.behind_inodes)))
          ∙ stored.inside k lt) in
      let kept' : (k : ℕ)
          → k < 2 * vector
          → final.disk (2 * f + k) ≡ take 512 (drop (0 + 512 * k) ws) =
        λ k lt.
          rw
            (ne→== (2 * f + k) 1
              (λ q. absurd (omega (arith, q, v.behind_superblock, v.behind_inodes))))
            (stored'.inside k lt) in
      let table : blocks_from final.disk (2 * i) (2 * inodes) ≡ bytes =
        blocks_from-inside bytes final.disk (2 * inodes) (2 * i) 0 kept
          (omega (arith, length-bytes_of_inodes env order s.inodes v.table, v.inodes_fill)) in
      let words : blocks_from final.disk (2 * f) (2 * vector) ≡ ws =
        blocks_from-inside ws final.disk (2 * vector) (2 * f) 0 kept'
          (omega (arith, length-bytes_of env order s.fbv v.words, v.vector_fills)) in
      (
        record s {
          sb = record (s.sb) { valid = 0 };
          is_open = false;
          disk = final.disk;
          history = transfer fs_write 1 h';
        },
        rw
            (
              dfs_check_system-valid s valid opened,
              ne→== s.sb.block_size 0 some_size,
              ran,
              ran',
              last,
            )
            refl,
        record {
          superblock = sb_block-superblock env order succeeds s inodes vector v;
          table = λ olds same.
              rw (table, sym (append-nil bytes))
                (inodes_of_bytes-bytes_of_inodes env order olds s.inodes [] v.table same);
          words = rw (words, words_of-bytes_of env order s.fbv v.words) refl;
          others = λ m ne out out'. rw (ne→== m 1 ne) (
              stored'.outside m (elim out' [ inl p ↦ inl p | inr p ↦ inr (omega (arith, p)) ])
              ∙ stored.outside m (elim out [ inl p ↦ inl p | inr p ↦ inr (omega (arith, p)) ]));
          memory = (refl, refl);
          closed = (refl, refl);
        },
      )
