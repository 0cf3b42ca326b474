-- ===== src/Dfs/Block/Laws.antt =====
-- What DfsReadBlock and DfsWriteBlock of flat/os/dfs.c do with blocks of 1024 bytes, the size that
-- a `dfs_block` has and that fdisk writes into the superblock.
use os_lab.Prelude.{
  ℕ, ◌+◌, ◌*◌, ◌/◌, ◌%◌, ◌^◌, ◌<◌, ◌≡◌, ◌≢◌, ap, some, List, ◌∷◌, ◌++◌, length, take, drop, arith,
  ne→==, ==_refl, take-append-drop, length-take, length-drop, length-append, take-append, drop_all,
  take_all, ◌∙◌,
}
use mathlib.Core.List.{append-nil}
use os_lab.Os.{ok, Event, block_lock, acquire, release, fs_read, fs_write, ◌>>◌, Env}
use os_lab.Dfs.{State, call, Succeeds}
use os_lab.Dfs.Fbv.Bits.{used}
use os_lab.Dfs.Fbv.Alloc.{IsMounted, dfs_check_system-IsMounted, release_return-ok}
use os_lab.Dfs.Fbv.Free.{block_allocated-used}
use os_lab.Disk.{disk_bytes_per_block, put_block}
use os_lab.Disk.Laws.{transfer, disk_write_block-ok, disk_read_block-ok}
use os_lab.Dfs.Block.{overwrite, read_loop, dfs_read_block, write_loop, dfs_write_block}

overwrite_second :
    (left right buffer : List ℕ)
    → length buffer ≡ 1024
    → length left ≡ 512
    → length right ≡ 512
    → overwrite (left ++ drop 512 buffer) 512 right ≡ some (left ++ right)
overwrite_second left right buffer len l r =
    let total : length (left ++ drop 512 buffer) ≡ 1024 =
      omega (arith, length-append left (drop 512 buffer), length-drop 512 buffer) in
    rw (
      total,
      r,
      take-append 512 left (drop 512 buffer) l,
      drop_all 1024 (left ++ drop 512 buffer) (omega arith),
      append-nil,
    )

-- A block of the mounted file system that can be transferred.
pub record IsBlock (s : State) (blocknum : ℕ) : Type 0 where
  pub mounted : IsMounted s
  pub block_size : s.sb.block_size ≡ 1024
  pub on_disk : blocknum < 16384
  pub in_vector : blocknum / 32 < length s.fbv
  pub in_use : used s.fbv blocknum ≡ 1

-- The state after the two halves of a block were written, with the lock held.
abbrev pub halves_written : ℕ → List ℕ → State → State
halves_written b d s = put_block (b * 2 + 1) (take 512 (drop 512 d)) (
    put_block (b * 2) (take 512 d) (record s {
      history = transfer fs_write (b * 2 + 1) (transfer fs_write (b * 2) (s.history));
    }))

abbrev pub written : ℕ → List ℕ → State → State
written b d s =
    let t = halves_written b d (record s { history = acquire block_lock ∷ s.history }) in
    record t { history = release block_lock ∷ t.history }

-- The calls that reading a block makes, in front of those already made.
abbrev pub read_calls : ℕ → List Event → List Event
read_calls b h =
    release block_lock
    ∷ transfer fs_read (b * 2 + 1) (transfer fs_read (b * 2) (acquire block_lock ∷ h))

written-low : (b : ℕ) (d : List ℕ) (s : State) → (written b d s).disk (b * 2) ≡ take 512 d
written-low b d s = rw (ne→== (b * 2) (b * 2 + 1) (omega arith), ==_refl)

written-high :
    (b : ℕ) (d : List ℕ) (s : State) → (written b d s).disk (b * 2 + 1) ≡ take 512 (drop 512 d)
written-high b d s = rw (==_refl (b * 2 + 1))

written-both :
    (b : ℕ) (d : List ℕ) (s : State)
    → length d ≡ 1024
    → (written b d s).disk (b * 2) ++ (written b d s).disk (b * 2 + 1) ≡ d
written-both b d s len =
    rw
      (
        written-low b d s,
        written-high b d s,
        take_all 512 (drop 512 d) (omega (arith, length-drop 512 d)),
      )
      (take-append-drop 512 d)

written-IsBlock : (b : ℕ) (d : List ℕ) (s : State) → IsBlock s b → IsBlock (written b d s) b
written-IsBlock b d s v = record {
  mounted = record {
    valid = v.mounted.valid;
    opened = v.mounted.opened;
    words = v.mounted.words;
    in_array = v.mounted.in_array;
    small = v.mounted.small;
  };
  block_size = v.block_size;
  on_disk = v.on_disk;
  in_vector = v.in_vector;
  in_use = v.in_use;
}

module _ (env : Env) (succeeds : Succeeds env) where
  write_loop-halves :
      (b : ℕ) (d : List ℕ) (s : State)
      → b < 16384
      → length d ≡ 1024
      → write_loop env 2 b 2 0 0 d s
        ≡ ok 1024 (record (halves_written b d s) {
          history = release block_lock ∷ (halves_written b d s).history;
        })
  unfolding write_loop disk_bytes_per_block
  write_loop-halves b d s h len =
      let low : (b * 2 + 0) % 2 ^ 32 ≡ b * 2 = omega arith in
      let high : (b * 2 + 1) % 2 ^ 32 ≡ b * 2 + 1 = omega arith in
      rw (len, low, high, disk_write_block-ok env succeeds (b * 2) (take 512 d) s (omega arith))
        (rw
          (disk_write_block-ok env succeeds (b * 2 + 1) (take 512 (drop 512 d))
            (put_block (b * 2) (take 512 d)
              (record s { history = transfer fs_write (b * 2) s.history }))
            (omega arith))
          (release_return-ok env succeeds block_lock 1024 _))

  read_loop-halves :
      (b : ℕ) (buffer : List ℕ) (s : State)
      → b < 16384
      → length buffer ≡ 1024
      → env.byte_at 11 ≢ b'X'
      → length (s.disk (b * 2)) ≡ 512
      → length (s.disk (b * 2 + 1)) ≡ 512
      → read_loop env 2 b 2 0 0 buffer s
        ≡ ok
            (1024, s.disk (b * 2) ++ s.disk (b * 2 + 1))
            (record s {
              history =
                  release block_lock
                  ∷ transfer fs_read (b * 2 + 1) (transfer fs_read (b * 2) (s.history));
            })
  unfolding read_loop disk_bytes_per_block
  read_loop-halves b buffer s h len name left right =
      let low : (b * 2 + 0) % 2 ^ 32 ≡ b * 2 = omega arith in
      let high : (b * 2 + 1) % 2 ^ 32 ≡ b * 2 + 1 = omega arith in
      rw (low, high, disk_read_block-ok env succeeds (b * 2) s (omega arith) name, left, len)
        (rw (
          disk_read_block-ok env succeeds (b * 2 + 1)
              (record s { history = transfer fs_read (b * 2) s.history }) (omega arith) name,
          overwrite_second (s.disk (b * 2)) (s.disk (b * 2 + 1)) buffer len left right,
          release_return-ok env succeeds block_lock 1024,
        ))

  -- DfsWriteBlock stores 1024 bytes in the two disk blocks of an allocated block, changes no other
  -- disk block and no table, and gives the lock back. Blocks have 1024 bytes, the file system is
  -- mounted, and every lock and host call succeeds.
  pub dfs_write_block-ok :
      (b : ℕ) (d : List ℕ) (s : State)
      → IsBlock s b
      → length d ≡ 1024
      → dfs_write_block env b d s ≡ ok 1024 (written b d s)
  unfolding dfs_write_block call disk_bytes_per_block
  dfs_write_block-ok b d s v len =
      let ratio : s.sb.block_size / disk_bytes_per_block ≡ 2 = omega (arith, v.block_size) in
      rw
        (
          ratio,
          dfs_check_system-IsMounted (v.mounted),
          succeeds (acquire block_lock ∷ s.history),
          block_allocated-used env b (record s { history = acquire block_lock ∷ s.history })
              v.in_vector,
          v.in_use,
        )
        (write_loop-halves b d (record s { history = acquire block_lock ∷ s.history }) v.on_disk
          len)

  pub dfs_read_block-ok :
      (b : ℕ) (buffer : List ℕ) (s : State)
      → IsBlock s b
      → length buffer ≡ 1024
      → env.byte_at 11 ≢ b'X'
      → length (s.disk (b * 2)) ≡ 512
      → length (s.disk (b * 2 + 1)) ≡ 512
      → dfs_read_block env b buffer s
        ≡ ok
            (1024, s.disk (b * 2) ++ s.disk (b * 2 + 1))
            (record s { history = read_calls b s.history })
  unfolding dfs_read_block call disk_bytes_per_block
  dfs_read_block-ok b buffer s v len name left right =
      let ratio : s.sb.block_size / disk_bytes_per_block ≡ 2 = omega (arith, v.block_size) in
      rw
        (
          ratio,
          dfs_check_system-IsMounted (v.mounted),
          succeeds (acquire block_lock ∷ s.history),
          block_allocated-used env b (record s { history = acquire block_lock ∷ s.history })
              v.in_vector,
          v.in_use,
        )
        (read_loop-halves b buffer (record s { history = acquire block_lock ∷ s.history }) v.on_disk
          len name left right)

  -- What DfsWriteBlock stored in an allocated block, DfsReadBlock returns, whatever the reader's
  -- buffer held; both report 1024 bytes, and the tables are as before. Blocks have 1024 bytes, the
  -- file system is mounted, every lock and host call succeeds, and the byte that DiskReadBlock tests
  -- near null is not an X.
  pub dfs_read_block-dfs_write_block :
      (b : ℕ) (d buffer : List ℕ) (s : State)
      → IsBlock s b
      → length d ≡ 1024
      → length buffer ≡ 1024
      → env.byte_at 11 ≢ b'X'
      → (dfs_write_block env b d >> dfs_read_block env b buffer) s
        ≡ ok (1024, d) (record (written b d s) { history = read_calls b (written b d s).history })
  dfs_read_block-dfs_write_block b d buffer s v len blen name =
      rw (dfs_write_block-ok b d s v len) (
        dfs_read_block-ok b buffer (written b d s) (written-IsBlock b d s v) blen name
          (rw (written-low b d s) (omega (arith, length-take 512 d)))
          (rw (written-high b d s) (omega (arith, length-take 512 (drop 512 d), length-drop 512 d)))
        ∙ ap
            (λ bytes.
              ok (1024, bytes)
                (record (written b d s) { history = read_calls b (written b d s).history }))
            (written-both b d s len))
