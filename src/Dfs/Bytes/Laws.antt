-- ===== src/Dfs/Bytes/Laws.antt =====
-- What DfsInodeWriteBytes of flat/os/dfs.c does on the first block of a file.
use os_lab.Prelude.{
  ℕ, ◌+◌, ◌*◌, ◌/◌, ◌^◌, ◌<◌, ◌≡◌, ◌≢◌, refl, ap, ◌∙◌, List, ◌∷◌, ◌==◌, leb, if◌then◌else◌, some,
  length, replicate, get_elem?, set, arith, ne→==, ge→ltb, drop_all, get_elem?-set_self,
  get_elem?-lt,
}
use os_lab.Prelude.Word.{add32}
use os_lab.Os.{ok, and_then, pure, Event, ◌>>=◌, Env, inode_lock, acquire, release}
use os_lab.Dfs.{State, Inode, dfs_fail, dfs_success, from_array, call, Succeeds}
use os_lab.Dfs.Fbv.Bits.{used}
use os_lab.Dfs.Fbv.Alloc.{
  IsMounted, MasksShift, history-IsMounted, dfs_check_system-IsMounted, release_return-ok,
}
use os_lab.Dfs.Block.{overwrite}
use os_lab.Dfs.Inodes.{validate_input}
use os_lab.Dfs.Virtual.Laws.{entered, allocate_virtual-direct}
use os_lab.Dfs.Bytes.{
  range_of, clear_block, Transfer, mid_loop, start_part, end_part, write_part, allocate_blocks,
  move_range, finish, transfer_bytes, dfs_inode_write_bytes,
}

-- The local buffers of a function are as long as C declares them.
abbrev pub HasBuffers : Env → Type 0
HasBuffers env = (k : ℕ) (h : List Event) → length (env.garbage k h) ≡ 1024

pub clear_block-zeros :
    (t : Transfer) (s : State)
    → s.sb.block_size ≡ 1024
    → length t.data_block ≡ 1024
    → clear_block t s ≡ ok (record t { data_block = replicate 1024 0 }) s
unfolding clear_block
clear_block-zeros t s size len =
    ap
      (λ b.
        and_then (from_array (overwrite t.data_block 0 (replicate b 0)) s)
          λ block. pure (record t { data_block = block }))
      size
    ∙ rw (len, drop_all 1024 t.data_block (omega arith))

-- DfsInodeWriteReadBytesValidateInput of an inode of the table of a mounted file system returns,
-- whatever the arguments, something other than 0, and changes nothing. Its callers stop only at 0, so
-- that no argument stops them.
pub validate_input-ne-zero :
    (handle start_byte num_bytes : ℕ) (s : State) {n : Inode}
    → IsMounted s
    → get_elem? s.inodes handle ≡ some n
    → (r : ℕ) × (validate_input handle start_byte num_bytes s ≡ ok r s) × (r ≢ 0)
unfolding validate_input
validate_input-ne-zero handle start_byte num_bytes s {n} v at =
    let r : ℕ =
      if n.inuse == 0
      then dfs_fail
      else if leb (2 ^ 31) start_byte
      then dfs_fail
      else if leb (2 ^ 31) num_bytes
      then dfs_fail
      else dfs_success in
    (r, rw (dfs_check_system-IsMounted v, at) (ground arith), ground arith)

-- The state with the inode lock taken, and the transfer that starts from it.
abbrev pub held : State → State
held s = record s { history = acquire inode_lock ∷ s.history }

module _ (env : Env) (succeeds : Succeeds env) (masks : MasksShift env)
    (buffers : HasBuffers env) where
  abbrev pub fresh : ℕ → ℕ → List ℕ → State → ℕ → Inode → ℕ → Transfer
  fresh start num mem s handle n p = record {
    current_block = (range_of 1024 start num).first_block;
    bytes = 0;
    data_block = env.garbage 0 (entered (held s) handle n 0 p).history;
    memory = mem;
  }

  -- A write inside the first block of a file, up to the transfer itself.
  pub write_bytes-opening :
      (s : State) (handle p start num : ℕ) (mem : List ℕ) {n : Inode}
      → IsMounted s
      → s.sb.block_size ≡ 1024
      → p < 32 * (s.sb.num_blocks / 32)
      → used s.fbv p ≡ 0
      → ((b : ℕ) → b < p → used s.fbv b ≡ 1)
      → get_elem? s.inodes handle ≡ some n
      → start + num < 1024
      → dfs_inode_write_bytes env handle mem start num s
        ≡ (move_range
                (write_part env)
                1024
                num
                (range_of 1024 start num)
                (fresh start num mem s handle n p)
              >>= finish env handle (add32 start num) (range_of 1024 start num).one_block)
            (entered (held s) handle n 0 p)
  unfolding dfs_inode_write_bytes transfer_bytes call allocate_blocks
  write_bytes-opening s handle p start num mem {n} v size hi free below at inside =
      let (r, checked, nonzero) =
        validate_input-ne-zero handle start num (held s) (history-IsMounted _ v) at in
      let rounds : add32 start num / s.sb.block_size + 1 ≡ 1 =
        ap (λ b. add32 start num / b + 1) size ∙ omega arith in
      let range : range_of s.sb.block_size start num ≡ range_of 1024 start num =
        ap (λ b. range_of b start num) size in
      rw
        (
          ne→== s.sb.block_size 0 (omega arith),
          dfs_check_system-IsMounted v,
          succeeds (acquire inode_lock ∷ s.history),
          checked,
          ne→== r 0 nonzero,
          rounds,
          allocate_virtual-direct env succeeds masks (held s) handle 0 p (history-IsMounted _ v) hi
              free below at (omega arith),
          range,
        )
        (ap
          (λ b.
            (move_range (write_part env) b num (range_of 1024 start num)
                  (fresh start num mem s handle n p)
                >>= finish env handle (add32 start num) (range_of 1024 start num).one_block)
              (entered (held s) handle n 0 p))
          size)

  -- DfsInodeWriteBytes of no bytes at the start of an inode's file, in use or not, on a mounted file
  -- system whose first free block is `p`: it reports success, and has taken block `p` and entered it
  -- in the inode's table. Blocks and block buffers have 1024 bytes, every lock call succeeds, and
  -- the machine's shifts use the low five bits of their count.
  pub write_bytes-none :
      (s : State) (handle p : ℕ) (mem : List ℕ) {n : Inode}
      → IsMounted s
      → s.sb.block_size ≡ 1024
      → p < 32 * (s.sb.num_blocks / 32)
      → used s.fbv p ≡ 0
      → ((b : ℕ) → b < p → used s.fbv b ≡ 1)
      → get_elem? s.inodes handle ≡ some n
      → (u : State) × (dfs_inode_write_bytes env handle mem 0 0 s ≡ ok (0, mem) u)
        × (u.inodes ≡ (entered s handle n 0 p).inodes)
        × (u.fbv ≡ (entered s handle n 0 p).fbv)
  unfolding move_range start_part mid_loop end_part finish range_of
  write_bytes-none s handle p mem {n} v size hi free below at =
      let e : State = entered (held s) handle n 0 p in
      let m : Inode = record n { vb_translation_table = set n.vb_translation_table 0 p } in
      let got : get_elem? e.inodes handle ≡ some m =
        get_elem?-set_self s.inodes handle m (get_elem?-lt s.inodes handle at) in
      (
        record e { history = release inode_lock ∷ e.history },
        rw (
          write_bytes-opening s handle p 0 0 mem v size hi free below at (omega arith),
          clear_block-zeros (fresh 0 0 mem s handle n p) e size (buffers 0 e.history),
          got,
          ge→ltb n.size 0 (omega arith),
          release_return-ok env succeeds inode_lock 0 e,
        ),
        refl,
        refl,
      )
