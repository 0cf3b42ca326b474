-- ===== src/Tests/Samples.antt =====
-- A machine on which every call succeeds, and a small mounted file system.
use os_lab.Prelude.{
  ℕ, zero, suc, ◌+◌, ◌*◌, ◌/◌, ◌%◌, ◌^◌, ◌<◌, ◌≡◌, refl, true, List, [], ◌∷◌, ◌++◌, ◌==◌, some,
  get_or, get_elem?, length, replicate, arith, ==_iff,
}
use os_lab.Prelude.Bits.{bit, each_below, each_below_at}
use os_lab.Os.{Env}
use os_lab.Dfs.{State, Inode, Succeeds}
use os_lab.Dfs.Fbv.Bits.{used}
use os_lab.Dfs.Fbv.Alloc.{IsMounted, MasksShift}
use os_lab.Dfs.Inodes.Find.{IsTable}

-- Big-endian words.
abbrev load : List ℕ → ℕ
load (a ∷ b ∷ c ∷ d ∷ []) = ((a * 256 + b) * 256 + c) * 256 + d
load _ = 0

abbrev pub machine : Env
machine = record {
  answer = λ h. true;
  torn = λ h old. old;
  garbage = λ k h. replicate 1024 7;
  shift_out = λ c. 2 ^ (c % 32);
  load_word = load;
  store_word = λ w. (w / 2 ^ 24) ∷ (w / 2 ^ 16 % 256) ∷ (w / 2 ^ 8 % 256) ∷ (w % 256) ∷ [];
  byte_at = λ a. 0;
}

pub machine-Succeeds : Succeeds machine
machine-Succeeds h = refl

pub machine-MasksShift : MasksShift machine
machine-MasksShift c = refl

-- Names in buffers of 44 bytes.
abbrev pub hell : List ℕ
hell = b'h' ∷ b'e' ∷ b'l' ∷ b'l' ∷ []

abbrev pub hello : List ℕ
hello = hell ++ (b'o' ∷ [])

abbrev pub world : List ℕ
world = b'w' ∷ b'o' ∷ b'r' ∷ b'l' ∷ b'd' ∷ []

abbrev pub inode_of : ℕ → List ℕ → List ℕ → Inode
inode_of inuse name table = record {
  inuse = inuse;
  size = 0;
  filename = name;
  vb_translation_table = table;
  block_num_indirect_index = 0;
}

abbrev pub no_blocks : List ℕ
no_blocks = replicate 10 0

abbrev pub hell_inode : Inode
hell_inode = inode_of 1 (hell ++ replicate 40 0) no_blocks

abbrev pub free_inode : Inode
free_inode = inode_of 0 (replicate 44 0) no_blocks

-- 64 blocks, of which the first 43 are in use.
abbrev pub sample : State
sample = record {
  sb = record {
    valid = 1;
    block_size = 1024;
    num_blocks = 64;
    start_block_num_inodes_array = 1;
    size_inodes_array = 3;
    start_block_num_fbv = 19;
    data_block_start = 21;
  };
  inodes = hell_inode ∷ free_inode ∷ free_inode ∷ [];
  fbv = 0xFFFF_FFFF ∷ 0xFFE0_0000 ∷ [];
  is_open = true;
  disk = λ n. replicate 512 0;
  history = [];
}

pub sample-IsMounted : IsMounted sample
sample-IsMounted = record {
  valid = λ e. absurd (omega arith);
  opened = refl;
  words = words;
  in_array = omega arith;
  small = omega arith;
}
  where
    words : (i : ℕ) → get_or sample.fbv i 0 < 2 ^ 32
    words zero = omega arith
    words (suc zero) = omega arith
    words (suc (suc i)) = omega arith

sample_used_table : each_below (λ b. used sample.fbv b == 1) 43 ≡ true
unfolding each_below used bit
sample_used_table = refl

pub sample_used : (b : ℕ) → b < 43 → used sample.fbv b ≡ 1
sample_used b h =
    (==_iff (used sample.fbv b) 1).0
      (each_below_at (λ b. used sample.fbv b == 1) 43 sample_used_table h)

pub sample_free : used sample.fbv 43 ≡ 0
unfolding used bit
sample_free = refl

pub sample-IsTable : IsTable sample
sample-IsTable = record { size = refl; names = names }
  where
    names : (i : ℕ) (n : Inode) → get_elem? sample.inodes i ≡ some n → length n.filename ≡ 44
    names zero n e = ground arith
    names (suc zero) n e = ground arith
    names (suc (suc zero)) n e = ground arith
    names (suc (suc (suc i))) n e = cc
