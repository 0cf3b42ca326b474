-- ===== src/Dfs/Mount/Layout.antt =====
-- The bytes of the inodes in memory, which DfsCloseFileSystem and DfsOpenFileSystem of flat/os/dfs.c
-- move to the disk and back.
use os_lab.Prelude.{
  ℕ, zero, suc, ◌+◌, ◌*◌, ◌^◌, ◌<◌, ◌≡◌, refl, ap, sym, ◌∙◌, List, [], ◌∷◌, ◌++◌, length, take,
  drop, arith, take-append, drop-append, length-append,
}
use os_lab.Os.{Env}
use os_lab.Dfs.{Inode}
use os_lab.Dfs.Virtual.{words_of, bytes_of}
use os_lab.Dfs.Mount.{bytes_of_inode, inode_of_bytes, bytes_of_inodes, inodes_of_bytes}

-- A word is stored in four bytes, and loaded from them.
abbrev pub HasByteOrder : Env → Type 0
HasByteOrder env =
    (w : ℕ) → w < 2 ^ 32 → (length (env.store_word w) ≡ 4) × (env.load_word (env.store_word w) ≡ w)

abbrev pub AreWords : List ℕ → Type 0
AreWords [] = Unit {0}
AreWords (w ∷ ws) = (w < 2 ^ 32) × AreWords ws

-- An inode whose fields have their sizes in C.
pub record IsInode (n : Inode) : Type 0 where
  pub inuse : n.inuse < 2 ^ 32
  pub size : n.size < 2 ^ 32
  pub filename : length n.filename ≡ 44
  pub table : AreWords n.vb_translation_table
  pub entries : length n.vb_translation_table ≡ 10
  pub indirect : n.block_num_indirect_index < 2 ^ 32

abbrev pub AreInodes : List Inode → Type 0
AreInodes [] = Unit {0}
AreInodes (n ∷ ns) = IsInode n × AreInodes ns

append_assoc : (xs ys zs : List ℕ) → (xs ++ ys) ++ zs ≡ xs ++ (ys ++ zs)
append_assoc [] ys zs = refl
append_assoc (x ∷ xs) ys zs = ap (λ t. x ∷ t) (append_assoc xs ys zs)

-- A field behind others.
drop-more : (n k : ℕ) (xs ys : List ℕ) → length xs ≡ n → drop (n + k) (xs ++ ys) ≡ drop k ys
drop-more n k [] ys h = let none : n + k ≡ k = omega arith in ap (λ t. drop t ys) none
drop-more zero k (x ∷ xs) ys h = absurd (omega arith)
drop-more (suc n) k (x ∷ xs) ys h =
    let next : suc n + k ≡ suc (n + k) = omega arith in
    ap (λ t. drop t (x ∷ (xs ++ ys))) next ∙ drop-more n k xs ys (omega arith)

inode_of_bytes-fields :
    (env : Env) (inuse size name table indirect rest : List ℕ)
    → length inuse ≡ 4
    → length size ≡ 4
    → length name ≡ 44
    → length table ≡ 40
    → length indirect ≡ 4
    → inode_of_bytes env (inuse ++ (size ++ (name ++ (table ++ (indirect ++ rest))))) ≡ record {
      inuse = env.load_word inuse;
      size = env.load_word size;
      filename = name;
      vb_translation_table = words_of env table;
      block_num_indirect_index = env.load_word indirect;
    }
unfolding inode_of_bytes
inode_of_bytes-fields env inuse size name table indirect rest p q r s t =
    let tail4 = indirect ++ rest in
    let tail3 = table ++ tail4 in
    let tail2 = name ++ tail3 in
    let tail1 = size ++ tail2 in
    let all = inuse ++ tail1 in
    let at0 : take 4 all ≡ inuse = take-append 4 inuse tail1 p in
    let at4 : take 4 (drop 4 all) ≡ size =
      ap (take 4) (drop-append 4 inuse tail1 p) ∙ take-append 4 size tail2 q in
    let to8 : drop 8 all ≡ tail2 = drop-more 4 4 inuse tail1 p ∙ drop-append 4 size tail2 q in
    let at8 : take 44 (drop 8 all) ≡ name = ap (take 44) to8 ∙ take-append 44 name tail3 r in
    let to52 : drop 52 all ≡ tail3 =
      drop-more 4 48 inuse tail1 p ∙ drop-more 4 44 size tail2 q ∙ drop-append 44 name tail3 r in
    let at52 : take 40 (drop 52 all) ≡ table = ap (take 40) to52 ∙ take-append 40 table tail4 s in
    let to92 : drop 92 all ≡ tail4 =
      drop-more 4 88 inuse tail1 p
      ∙ drop-more 4 84 size tail2 q
      ∙ drop-more 44 40 name tail3 r
      ∙ drop-append 40 table tail4 s in
    let at92 : take 4 (drop 92 all) ≡ indirect = ap (take 4) to92 ∙ take-append 4 indirect rest t in
    λ i. record {
      inuse = env.load_word (at0 i);
      size = env.load_word (at4 i);
      filename = at8 i;
      vb_translation_table = words_of env (at52 i);
      block_num_indirect_index = env.load_word (at92 i);
    }

module _ (env : Env) (order : HasByteOrder env) where
  pub length-bytes_of : (ws : List ℕ) → AreWords ws → length (bytes_of env ws) ≡ 4 * length ws
  unfolding bytes_of
  length-bytes_of [] fit = omega arith
  length-bytes_of (w ∷ ws) fit = omega (
    arith,
    length-append (env.store_word w) (bytes_of env ws),
    (order w fit.0).0,
    length-bytes_of ws fit.1,
  )

  pub bytes_of-append :
      (vs ws : List ℕ) → bytes_of env (vs ++ ws) ≡ bytes_of env vs ++ bytes_of env ws
  unfolding bytes_of
  bytes_of-append [] ws = refl
  bytes_of-append (v ∷ vs) ws =
      ap (λ t. env.store_word v ++ t) (bytes_of-append vs ws)
      ∙ sym (append_assoc (env.store_word v) (bytes_of env vs) (bytes_of env ws))

  -- Four bytes in front of others are one word.
  words_of-four :
      (four rest : List ℕ)
      → length four ≡ 4
      → words_of env (four ++ rest) ≡ env.load_word four ∷ words_of env rest
  unfolding words_of
  words_of-four (a ∷ b ∷ c ∷ d ∷ []) rest h = refl
  words_of-four (a ∷ b ∷ c ∷ d ∷ e ∷ more) rest h = absurd (omega arith)
  words_of-four (a ∷ b ∷ c ∷ []) rest h = absurd (omega arith)
  words_of-four (a ∷ b ∷ []) rest h = absurd (omega arith)
  words_of-four (a ∷ []) rest h = absurd (omega arith)
  words_of-four [] rest h = absurd (omega arith)

  pub words_of-bytes_of : (ws : List ℕ) → AreWords ws → words_of env (bytes_of env ws) ≡ ws
  unfolding words_of bytes_of
  words_of-bytes_of [] fit = refl
  words_of-bytes_of (w ∷ ws) fit =
      let (len, same) = order w fit.0 in
      rw (words_of-four (env.store_word w) (bytes_of env ws) len, same, words_of-bytes_of ws fit.1)

  -- The fields of an inode in memory, one after the other.
  bytes_of_inode-fields :
      (n : Inode) (rest : List ℕ)
      → bytes_of_inode env n ++ rest
        ≡ env.store_word n.inuse
          ++ (env.store_word n.size
              ++ (n.filename
                  ++ (bytes_of env n.vb_translation_table
                      ++ (env.store_word n.block_num_indirect_index ++ rest))))
  unfolding bytes_of_inode bytes_of
  bytes_of_inode-fields n rest = simp (append_assoc, bytes_of-append)

  inode_of_bytes-bytes_of_inode :
      (n : Inode) (rest : List ℕ)
      → IsInode n
      → inode_of_bytes env (bytes_of_inode env n ++ rest) ≡ n
  inode_of_bytes-bytes_of_inode n rest v =
      let (inuse, inuse_same) = order n.inuse v.inuse in
      let (size, size_same) = order n.size v.size in
      let (indirect, indirect_same) = order n.block_num_indirect_index v.indirect in
      let forty : length (bytes_of env n.vb_translation_table) ≡ 40 =
        omega (arith, length-bytes_of n.vb_translation_table v.table, v.entries) in
      ap (inode_of_bytes env) (bytes_of_inode-fields n rest)
      ∙ inode_of_bytes-fields env (env.store_word n.inuse) (env.store_word n.size) n.filename
          (bytes_of env n.vb_translation_table) (env.store_word n.block_num_indirect_index) rest
          inuse size v.filename forty indirect
      ∙ λ i. record {
        inuse = inuse_same i;
        size = size_same i;
        filename = n.filename;
        vb_translation_table = words_of-bytes_of n.vb_translation_table v.table i;
        block_num_indirect_index = indirect_same i;
      }

  drop-inode :
      (n : Inode) (rest : List ℕ) → IsInode n → drop 96 (bytes_of_inode env n ++ rest) ≡ rest
  drop-inode n rest v =
      let forty : length (bytes_of env n.vb_translation_table) ≡ 40 =
        omega (arith, length-bytes_of n.vb_translation_table v.table, v.entries) in
      ap (drop 96) (bytes_of_inode-fields n rest)
      ∙ drop-more 4 92 (env.store_word n.inuse) _ (order n.inuse v.inuse).0
      ∙ drop-more 4 88 (env.store_word n.size) _ (order n.size v.size).0
      ∙ drop-more 44 44 n.filename _ v.filename
      ∙ drop-more 40 4 (bytes_of env n.vb_translation_table) _ forty
      ∙ drop-append 4 (env.store_word n.block_num_indirect_index) rest
          (order n.block_num_indirect_index v.indirect).0

  -- The bytes of an array of inodes, read into an array of as many inodes, are those inodes, whatever
  -- lies behind them and whatever the array held. Words are below 2 ^ 32, names have 44 bytes, tables
  -- 10 entries, and a word's four bytes load as the word.
  pub inodes_of_bytes-bytes_of_inodes :
      (olds ns : List Inode) (rest : List ℕ)
      → AreInodes ns
      → length olds ≡ length ns
      → inodes_of_bytes env olds (bytes_of_inodes env ns ++ rest) ≡ ns
  unfolding inodes_of_bytes bytes_of_inodes
  inodes_of_bytes-bytes_of_inodes [] [] rest fit same = refl
  inodes_of_bytes-bytes_of_inodes (old ∷ olds) [] rest fit same = absurd (omega arith)
  inodes_of_bytes-bytes_of_inodes [] (n ∷ ns) rest fit same = absurd (omega arith)
  inodes_of_bytes-bytes_of_inodes (old ∷ olds) (n ∷ ns) rest fit same =
      let more = bytes_of_inodes env ns ++ rest in
      rw (
        append_assoc (bytes_of_inode env n) (bytes_of_inodes env ns) rest,
        inode_of_bytes-bytes_of_inode n more fit.0,
        drop-inode n more fit.0,
        inodes_of_bytes-bytes_of_inodes olds ns rest fit.1 (omega arith),
      )
