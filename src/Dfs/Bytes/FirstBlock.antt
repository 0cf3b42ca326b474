-- ===== src/Dfs/Bytes/FirstBlock.antt =====
-- Where DfsInodeWriteBytes of flat/os/dfs.c puts the bytes of a write within the first block.
use os_lab.Prelude.{
  ℕ, ◌+◌, ◌-◌, ◌*◌, ◌/◌, ◌%◌, ◌^◌, ◌≤◌, ◌<◌, ◌≡◌, ◌≢◌, refl, ap, true, List, ◌++◌, some, length,
  take, drop, replicate, get_elem?, get_or, arith, ne→==, lt→ltb, le→leb, lt→leb, length-append,
  length-take, length-drop, length-set, ℕ_discrete, get_or-set_self, get_or-set_ne,
}
use os_lab.Prelude.Word.{add32, sub32}
use os_lab.Prelude.Bits.{bit_xor-lt, pow-lt_pow}
use os_lab.Os.{ok, Env}
use os_lab.Dfs.{State, Inode, Succeeds}
use os_lab.Dfs.Fbv.Bits.{used, used-toggle}
use os_lab.Dfs.Fbv.Alloc.{IsMounted, MasksShift, toggled, history-IsMounted}
use os_lab.Dfs.Block.Laws.{IsBlock, written, read_calls, dfs_read_block-ok, dfs_write_block-ok}
use os_lab.Dfs.Virtual.Laws.{entered}
use os_lab.Dfs.Bytes.{
  Transfer, range_of, bcopy, write_part, move_range, finish, dfs_inode_write_bytes,
}
use os_lab.Dfs.Bytes.Laws.{HasBuffers, held, fresh, clear_block-zeros, write_bytes-opening}

range_of-first :
    (start num : ℕ)
    → 0 < start
    → start + num < 1024
    → ((range_of 1024 start num).one_block ≡ true) × ((range_of 1024 start num).first_block ≡ 0)
unfolding range_of
range_of-first start num lo inside = (
  lt→ltb num (add32 (sub32 1024 start % 1024) (add32 start num % 1024)) (omega arith),
  omega arith,
)

entered-IsMounted :
    (s : State) (handle v p : ℕ) (n : Inode)
    → IsMounted s
    → p / 32 < length s.fbv
    → IsMounted (entered s handle n v p)
entered-IsMounted s handle v p n m inside = record {
  valid = m.valid;
  opened = m.opened;
  words = λ i. word i (ℕ_discrete (p / 32) i);
  in_array = rw (length-set s.fbv (p / 32)) m.in_array;
  small = m.small;
}
  where
    mask : 2 ^ (31 - p % 32) < 2 ^ 32
    mask = pow-lt_pow (31 - p % 32) 32 (omega arith)

    word : (i : ℕ) → Dec (p / 32 ≡ i) → get_or (toggled s.fbv p) i 0 < 2 ^ 32
    word i (yes e) =
        rw (← e, get_or-set_self s.fbv (p / 32) _ 0 inside)
          (bit_xor-lt 32 (get_or s.fbv (p / 32) 0) (2 ^ (31 - p % 32)) (m.words (p / 32)) mask)
    word i (no ne) = rw (get_or-set_ne s.fbv (p / 32) i _ 0 ne) (m.words i)

-- The block with `num` bytes of the caller's memory as its last bytes.
abbrev pub ending_with : List ℕ → ℕ → List ℕ → List ℕ
ending_with mem num old =
    take (1024 - num) old ++ (take num mem ++ drop (1024 - num + length (take num mem)) old)

length-ending_with :
    (mem old : List ℕ) (num : ℕ)
    → length old ≡ 1024
    → num ≤ length mem
    → num < 1024
    → length (ending_with mem num old) ≡ 1024
length-ending_with mem old num len room small =
    let rest = drop (1024 - num + length (take num mem)) old in
    omega (
      arith,
      length-append (take (1024 - num) old) (take num mem ++ rest),
      length-append (take num mem) rest,
      length-take (1024 - num) old,
      length-take num mem,
      length-drop (1024 - num + length (take num mem)) old,
    )

bcopy-ending_with :
    (mem old : List ℕ) (num : ℕ)
    → length old ≡ 1024
    → num ≤ length mem
    → num < 1024
    → bcopy mem 0 old (1024 - num) num ≡ some (ending_with mem num old)
unfolding bcopy
bcopy-ending_with mem old num len room small =
    let fits : 1024 - num + length (take num mem) ≤ length old =
      omega (arith, length-take num mem) in
    rw (
      lt→leb num (2 ^ 31) (omega arith),
      le→leb (0 + num) (length mem) (omega arith),
      le→leb (1024 - num + length (take num mem)) (length old) fits,
    )

-- The disk blocks that make up block 0.
abbrev pub block_zero : State → List ℕ
block_zero s = s.disk 0 ++ s.disk 1

-- The state after block 0 was read and written.
abbrev pub rewritten : List ℕ → ℕ → State → State
rewritten mem num s =
    written 0 (ending_with mem num (block_zero s)) (record s { history = read_calls 0 s.history })

module _ (env : Env) (succeeds : Succeeds env) (masks : MasksShift env)
    (buffers : HasBuffers env) where
  write_part-block_zero :
      (t : Transfer) (num : ℕ) (s : State)
      → t.current_block ≡ 0
      → t.bytes ≡ 0
      → length t.data_block ≡ 1024
      → IsBlock s 0
      → env.byte_at 11 ≢ b'X'
      → length (s.disk 0) ≡ 512
      → length (s.disk 1) ≡ 512
      → num ≤ length t.memory
      → num < 1024
      → write_part env (1024 - num) num t s
        ≡ ok
            (
              true,
              record t {
                data_block = ending_with t.memory num (block_zero s);
                bytes = add32 0 num;
              },
            )
            (rewritten t.memory num s)
  unfolding write_part
  write_part-block_zero t num s block bytes buffer v name left right room small =
      let old : length (block_zero s) ≡ 1024 = omega (arith, length-append (s.disk 0) (s.disk 1)) in
      let m : IsMounted s = v.mounted in
      let v' : IsBlock (record s { history = read_calls 0 s.history }) 0 = record {
        mounted = history-IsMounted _ m;
        block_size = v.block_size;
        on_disk = v.on_disk;
        in_vector = v.in_vector;
        in_use = v.in_use;
      } in
      rw (
        block,
        dfs_read_block-ok env succeeds 0 t.data_block s v buffer name left right,
        bytes,
        bcopy-ending_with t.memory (block_zero s) num old room small,
        dfs_write_block-ok env succeeds 0 (ending_with t.memory num (block_zero s))
            (record s { history = read_calls 0 s.history }) v'
            (length-ending_with t.memory (block_zero s) num old room small),
      )

  -- DfsInodeWriteBytes of some bytes that lie within the first block of a file, behind its start, on
  -- a mounted file system whose first free block is `p`, not 0, and whose block 0 the disk has: it
  -- takes `p` as the file's first block and reports the bytes written, but they have become the last
  -- bytes of block 0 of the file system, whatever byte they were meant for. The inode lock stays
  -- taken. Blocks and block buffers have 1024 bytes, disk blocks 512, and the caller's memory has
  -- the bytes. Every lock and host call succeeds, the machine's shifts use the low five bits of
  -- their count, and the byte that DiskReadBlock tests near null is not an X.
  pub write_bytes-first_block :
      (s : State) (handle p start num : ℕ) (mem : List ℕ) {n : Inode}
      → IsMounted s
      → s.sb.block_size ≡ 1024
      → p < 32 * (s.sb.num_blocks / 32)
      → 0 < p
      → used s.fbv p ≡ 0
      → ((b : ℕ) → b < p → used s.fbv b ≡ 1)
      → get_elem? s.inodes handle ≡ some n
      → 0 < start
      → 0 < num
      → start + num < 1024
      → num ≤ length mem
      → env.byte_at 11 ≢ b'X'
      → length (s.disk 0) ≡ 512
      → length (s.disk 1) ≡ 512
      → dfs_inode_write_bytes env handle mem start num s
        ≡ ok (num, mem) (rewritten mem num (entered (held s) handle n 0 p))
  unfolding move_range finish
  write_bytes-first_block s handle p start num mem {n} m size hi positive free below at lo
        some_bytes inside room name left right =
      let e : State = entered (held s) handle n 0 p in
      let word : p / 32 < length s.fbv = omega (arith, m.in_array) in
      let block : IsBlock e 0 = record {
        mounted = entered-IsMounted (held s) handle 0 p n (history-IsMounted _ m) word;
        block_size = size;
        on_disk = omega arith;
        in_vector = rw (length-set s.fbv (p / 32)) (omega arith);
        in_use = rw (used-toggle s.fbv p 0 word, ne→== p 0 (omega arith)) (below 0 positive);
      } in
      let (one, first) = range_of-first start num lo inside in
      let at_end : sub32 1024 num ≡ 1024 - num = omega arith in
      let counted : add32 0 num ≡ num = omega arith in
      let t : Transfer = record (fresh env succeeds masks buffers start num mem s handle n p) {
        data_block = replicate 1024 0;
      } in
      rw
        (
          write_bytes-opening env succeeds masks buffers s handle p start num mem m size hi free
              below at inside,
          clear_block-zeros (fresh env succeeds masks buffers start num mem s handle n p) e size
              (buffers 0 e.history),
          one,
          ne→== num 0 (omega arith),
          at_end,
          write_part-block_zero t num e first refl refl block name left right room (omega arith),
        )
        (ap (λ k. ok (k, mem) (rewritten mem num e)) counted)
