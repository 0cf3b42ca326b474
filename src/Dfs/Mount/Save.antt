-- ===== src/Dfs/Mount/Save.antt =====
-- The steps of DfsCloseFileSystem in flat/os/dfs.c: the inodes, the free block vector and the superblock.
use os_lab.Prelude.{
  ℕ, Bool, ◌+◌, ◌-◌, ◌*◌, ◌/◌, ◌%◌, ◌^◌, ◌≡◌, ◌<◌, ◌≤◌, ◌∙◌, ap, refl, true, some, List, [], ◌∷◌,
  ◌++◌, length, length-append, replicate, take, drop, take-append, arith, le→leb,
}
use os_lab.Os.{Cmd, ok, Event, fs_write, Env}
use os_lab.Dfs.{State, Inode, Succeeds}
use os_lab.Dfs.Virtual.{words_of, bytes_of}
use os_lab.Disk.{disk_bytes_per_block, put_block}
use os_lab.Disk.Laws.{transfer, disk_write_block-ok}
use os_lab.Dfs.Mount.{
  superblock_bytes, superblock_words, superblock_of, bytes_of_inode, bytes_of_inodes, load_inodes,
  load_fbv, write_disk_block, move_inodes, move_fbv, outer_loop, write_superblock,
}
use os_lab.Dfs.Mount.Layout.{
  HasByteOrder, AreWords, IsInode, AreInodes, length-bytes_of, bytes_of-append, words_of-bytes_of,
}
use os_lab.Dfs.Mount.Stored.{Stored, Loads, with_disk, outer_loop-Stored}

-- The superblock places the metadata, in blocks of 1024 bytes: the inodes fill `inodes` blocks, and behind
-- them the free block vector fills `vector` blocks. Fields have their sizes in C.
pub record HasLayout (s : State) (inodes vector : ℕ) : Type 0 where
  pub block_size : s.sb.block_size ≡ 1024
  pub number : s.sb.size_inodes_array ≡ length s.inodes
  pub inodes_fill : 96 * length s.inodes ≡ 1024 * inodes
  pub vector_fills : 4 * length s.fbv ≡ 1024 * vector
  pub behind_superblock : 1 ≤ s.sb.start_block_num_inodes_array
  pub behind_inodes : s.sb.start_block_num_inodes_array + inodes ≤ s.sb.start_block_num_fbv
  pub data_behind : s.sb.data_block_start ≡ s.sb.start_block_num_fbv + vector
  pub on_disk : s.sb.data_block_start ≤ 16384
  pub superblock : AreWords (superblock_words s.sb)
  pub table : AreInodes s.inodes
  pub words : AreWords s.fbv

module _ (env : Env) (order : HasByteOrder env) where
  length-bytes_of_inode : (n : Inode) → IsInode n → length (bytes_of_inode env n) ≡ 96
  unfolding bytes_of_inode
  length-bytes_of_inode n v =
      let front = n.inuse ∷ n.size ∷ [] in
      let last = n.block_num_indirect_index ∷ [] in
      omega (
        arith,
        length-append (bytes_of env front)
            (n.filename ++ bytes_of env (n.vb_translation_table ++ last)),
        length-append n.filename (bytes_of env (n.vb_translation_table ++ last)),
        ap (λ bs. length bs) (bytes_of-append env order n.vb_translation_table last),
        length-append (bytes_of env n.vb_translation_table) (bytes_of env last),
        length-bytes_of env order front (v.inuse, (v.size, tt)),
        length-bytes_of env order n.vb_translation_table v.table,
        length-bytes_of env order last (v.indirect, tt),
        v.filename,
        v.entries,
      )

  pub length-bytes_of_inodes :
      (ns : List Inode) → AreInodes ns → length (bytes_of_inodes env ns) ≡ 96 * length ns
  unfolding bytes_of_inodes
  length-bytes_of_inodes [] fit = omega arith
  length-bytes_of_inodes (n ∷ ns) fit = omega (
    arith,
    length-append (bytes_of_inode env n) (bytes_of_inodes env ns),
    length-bytes_of_inode n fit.0,
    length-bytes_of_inodes ns fit.1,
  )

  load_inodes-Loads : (s : State) → Loads s (bytes_of_inodes env s.inodes) (load_inodes env)
  unfolding load_inodes disk_bytes_per_block
  load_inodes-Loads s = record {
    loads = λ d h at room. rw (le→leb (at + 512) (length (bytes_of_inodes env s.inodes)) room) refl;
  }

  load_fbv-Loads : (s : State) → Loads s (bytes_of env s.fbv) (load_fbv env)
  unfolding load_fbv disk_bytes_per_block
  load_fbv-Loads s = record {
    loads = λ d h at room. rw (le→leb (at + 512) (length (bytes_of env s.fbv)) room) refl;
  }

  module _ (succeeds : Succeeds env) (s : State) (inodes vector : ℕ)
      (v : HasLayout s inodes vector) where
    move_inodes-blocks :
        (move : ℕ → ℕ → Cmd State Bool) (d : ℕ → List ℕ) (h : List Event)
        → move_inodes env move (with_disk s d h)
          ≡ outer_loop env move inodes 2 s.sb.start_block_num_inodes_array 0 (with_disk s d h)
    unfolding move_inodes disk_bytes_per_block
    move_inodes-blocks move d h =
        let ratio : s.sb.block_size / 512 ≡ 2 = omega (arith, v.block_size) in
        let fits : 1024 * inodes < 2 ^ 32 =
          omega (arith, v.behind_inodes, v.data_behind, v.on_disk) in
        let blocks : 96 * s.sb.size_inodes_array % 2 ^ 32 / s.sb.block_size ≡ inodes =
          rw (v.block_size, v.number, v.inodes_fill) (omega (arith, fits)) in
        rw (blocks, ratio) refl

    move_fbv-blocks :
        (move : ℕ → ℕ → Cmd State Bool) (d : ℕ → List ℕ) (h : List Event)
        → move_fbv env move (with_disk s d h)
          ≡ outer_loop env move vector 2 s.sb.start_block_num_fbv 0 (with_disk s d h)
    unfolding move_fbv disk_bytes_per_block
    move_fbv-blocks move d h =
        let ratio : s.sb.block_size / 512 ≡ 2 = omega (arith, v.block_size) in
        let blocks : s.sb.data_block_start - s.sb.start_block_num_fbv ≡ vector =
          omega (arith, v.data_behind) in
        rw (blocks, ratio) refl

    pub move_inodes-Stored :
        (d : ℕ → List ℕ) (h : List Event)
        → (e : ℕ → List ℕ) × (h' : List Event) × (move_inodes env
              (write_disk_block env (load_inodes env))
              (with_disk s d h)
            ≡ ok true (with_disk s e h'))
          × Stored
              (bytes_of_inodes env s.inodes)
              (2 * s.sb.start_block_num_inodes_array)
              0
              (2 * inodes)
              d
              e
    move_inodes-Stored d h =
        let (e, h', ran, stored) =
          outer_loop-Stored env succeeds s (bytes_of_inodes env s.inodes) (load_inodes env)
            (load_inodes-Loads s) inodes s.sb.start_block_num_inodes_array 0 d h
            (omega (arith, v.behind_inodes, v.data_behind, v.on_disk))
            (omega (arith, length-bytes_of_inodes s.inodes v.table, v.inodes_fill)) in
        (e, h', move_inodes-blocks _ d h ∙ ran, stored)

    pub move_fbv-Stored :
        (d : ℕ → List ℕ) (h : List Event)
        → (e : ℕ → List ℕ) × (h' : List Event) × (move_fbv env
              (write_disk_block env (load_fbv env))
              (with_disk s d h)
            ≡ ok true (with_disk s e h'))
          × Stored (bytes_of env s.fbv) (2 * s.sb.start_block_num_fbv) 0 (2 * vector) d e
    move_fbv-Stored d h =
        let (e, h', ran, stored) =
          outer_loop-Stored env succeeds s (bytes_of env s.fbv) (load_fbv env) (load_fbv-Loads s)
            vector s.sb.start_block_num_fbv 0 d h (omega (arith, v.data_behind, v.on_disk))
            (omega (arith, length-bytes_of env order s.fbv v.words, v.vector_fills)) in
        (e, h', move_fbv-blocks _ d h ∙ ran, stored)

    -- The block of the superblock: its bytes, and behind them zeros.
    abbrev pub sb_block : List ℕ
    sb_block = bytes_of env (superblock_words s.sb) ++ drop superblock_bytes (replicate 512 0)

    length-superblock : length (bytes_of env (superblock_words s.sb)) ≡ 28
    length-superblock =
        omega (arith, length-bytes_of env order (superblock_words s.sb) v.superblock)

    pub write_superblock-ok :
        (d : ℕ → List ℕ) (h : List Event)
        → write_superblock env (with_disk s d h)
          ≡ ok true (put_block 1 sb_block (with_disk s d (transfer fs_write 1 h)))
    unfolding write_superblock disk_bytes_per_block
    write_superblock-ok d h =
        rw
          (
            length-superblock,
            disk_write_block-ok env succeeds 1 sb_block (with_disk s d h) (omega arith),
          )
          refl

    pub sb_block-superblock :
        superblock_of (words_of env (take superblock_bytes sb_block)) ≡ some (s.sb)
    sb_block-superblock =
        rw
          (
            take-append 28 (bytes_of env (superblock_words s.sb))
                (drop superblock_bytes (replicate 512 0)) length-superblock,
            words_of-bytes_of env order (superblock_words s.sb) v.superblock,
          )
          refl
