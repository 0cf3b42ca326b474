-- ===== src/Traps/FileCalls/Laws.antt =====
-- What the handlers of the file calls of flat/os/traps.c, and of disk_write_block, pass on to
-- flat/os/files.c and flat/os/disk.c.
use os_lab.Prelude.{
  ℕ, zero, suc, ◌+◌, ◌*◌, ◌^◌, ◌≡◌, ◌<◌, ◌≤◌, subst, refl, true, false, none, some, ◌∙◌, sym, List,
  [], ◌∷◌, ◌++◌, length, take, drop, arith, ne→==, ge→ltb, lt→ltb, lt→leb,
}
use os_lab.Os.{ok, exited, Env}
use os_lab.Misc.Names.{IsText}
use os_lab.Dfs.{disk_blocksize}
use os_lab.Disk.{disk_write_block}
use os_lab.Files.{Kernel, in_dfs, file_fail, file_max_filename_length}
use os_lab.Files.Open.{file_open}
use os_lab.Files.Transfer.{file_write}
use os_lab.Traps.Create.{Space}
use os_lab.Traps.Create.Pack.{StringAt}
use os_lab.Traps.FileCalls.{
  max_mode_length, copy_text, copy_block, fetch_text, trap_file_open_handler,
  trap_file_write_handler, trap_disk_write_block_handler,
}

-- So many bytes in the caller's memory.
abbrev pub BytesAt : Space → ℕ → List ℕ → Type 0
BytesAt space p [] = Unit {0}
BytesAt space p (c ∷ cs) = (space.byte p ≡ some c) × BytesAt space (p + 1) cs

copy_text-string :
    (space : Space) (w : List ℕ) (n p : ℕ)
    → IsText w
    → StringAt space p w
    → length w < n
    → copy_text space n p ≡ some (w, true)
unfolding copy_text
copy_text-string space w zero p text at lt = absurd (omega (arith, lt))
copy_text-string space [] (suc n) p text at lt = rw (at, copy_text) refl
copy_text-string space (c ∷ w) (suc n) p (char, text) (here, at) lt =
    rw
      (
        here,
        copy_text,
        ne→== c 0 char,
        copy_text-string space w n (p + 1) text at (omega (arith, lt)),
      )
      refl

copy_text-long :
    (space : Space) (w : List ℕ) (n p : ℕ)
    → IsText w
    → StringAt space p w
    → n ≤ length w
    → copy_text space n p ≡ some (take n w, false)
unfolding copy_text
copy_text-long space w zero p text at le = refl
copy_text-long space [] (suc n) p text at le = absurd (omega (arith, le))
copy_text-long space (c ∷ w) (suc n) p (char, text) (here, at) le =
    rw
      (
        here,
        copy_text,
        ne→== c 0 char,
        copy_text-long space w n (p + 1) text at (omega (arith, le)),
      )
      refl

fetch_text-string :
    (space : Space) (w array : List ℕ) (n p : ℕ) (k : Kernel)
    → IsText w
    → StringAt space p w
    → length w < n
    → fetch_text space false n array p k ≡ ok (w ++ (0 ∷ drop (suc (length w)) array)) k
unfolding fetch_text
fetch_text-string space w array n p k text at lt =
    rw (fetch_text, copy_text-string space w n p text at lt) refl

fetch_text-long :
    (space : Space) (w array : List ℕ) (n p : ℕ) (k : Kernel)
    → IsText w
    → StringAt space p w
    → n ≤ length w
    → fetch_text space false n array p k ≡ exited
unfolding fetch_text
fetch_text-long space w array n p k text at le =
    rw (fetch_text, copy_text-long space w n p text at le) refl

copy_block-bytes :
    (space : Space) (cs mem : List ℕ) (p : ℕ)
    → BytesAt space p cs
    → length cs ≤ length mem
    → copy_block space (length cs) p mem ≡ some (cs ++ drop (length cs) mem)
unfolding copy_block
copy_block-bytes space [] mem p at le = refl
copy_block-bytes space (c ∷ cs) [] p at le = absurd (omega (arith, le))
copy_block-bytes space (c ∷ cs) (m ∷ mem) p (here, at) le =
    rw (here, copy_block, copy_block-bytes space cs mem (p + 1) at (omega (arith, le))) refl

copy_block-whole :
    (space : Space) (cs mem : List ℕ) (p : ℕ)
    → BytesAt space p cs
    → length mem ≡ length cs
    → copy_block space (length cs) p mem ≡ some cs
unfolding copy_block
copy_block-whole space [] [] p at same = refl
copy_block-whole space [] (m ∷ mem) p at same = absurd (omega (arith, same))
copy_block-whole space (c ∷ cs) [] p at same = absurd (omega (arith, same))
copy_block-whole space (c ∷ cs) (m ∷ mem) p (here, at) same =
    rw (here, copy_block, copy_block-whole space cs mem (p + 1) at (omega (arith, same))) refl

copy_block-away :
    (space : Space) (mem : List ℕ) (n p : ℕ)
    → space.byte p ≡ none
    → n ≤ length mem
    → copy_block space n p mem ≡ some mem
unfolding copy_block
copy_block-away space mem zero p away le = refl
copy_block-away space [] (suc n) p away le = absurd (omega (arith, le))
copy_block-away space (m ∷ mem) (suc n) p away le = rw (away, copy_block) refl

module _ (space : Space) (env : Env) (trap_args p : ℕ) (k : Kernel) where
  -- A file_open from user mode, of strings in the caller's memory. If the name has fewer than 44 characters
  -- and the mode fewer than 10, it is FileOpen of the two, each in an array behind whose NUL stands what
  -- was there before. If the name has 44 or more, or the mode 10 or more, the system ends.
  pub trap_file_open_handler_lem :
      (q : ℕ) (name how filename mode : List ℕ)
      → space.word (trap_args + 4 * 0) ≡ some p
      → space.word (trap_args + 4 * 1) ≡ some q
      → IsText name
      → IsText how
      → StringAt space p name
      → StringAt space q how
      → (length name < file_max_filename_length
          → length how < max_mode_length
          → trap_file_open_handler space env false trap_args filename mode k
            ≡ file_open env
                (name ++ (0 ∷ drop (suc (length name)) filename))
                (how ++ (0 ∷ drop (suc (length how)) mode))
                k)
        × (file_max_filename_length ≤ length name
            → trap_file_open_handler space env false trap_args filename mode k ≡ exited)
        × (length name < file_max_filename_length
            → max_mode_length ≤ length how
            → trap_file_open_handler space env false trap_args filename mode k ≡ exited)
  unfolding trap_file_open_handler
  trap_file_open_handler_lem q name how filename mode first second text text' at at' = (
    λ short short'.
        rw
          (
            first,
            second,
            fetch_text-string space name filename file_max_filename_length p k text at short,
            fetch_text-string space how mode max_mode_length q k text' at' short',
          )
          refl,
    λ long.
        rw (first, fetch_text-long space name filename file_max_filename_length p k text at long)
          refl,
    λ short long'.
        rw
          (
            first,
            second,
            fetch_text-string space name filename file_max_filename_length p k text at short,
            fetch_text-long space how mode max_mode_length q k text' at' long',
          )
          refl,
  )

  -- A file_write from user mode, of fewer than 2 ^ 31 bytes, all of them in the caller's memory. Of at most
  -- 4096 bytes it is FileWrite of them, in an array of 4096 bytes that holds behind them what was there
  -- before. Of more it returns FILE_FAIL and changes nothing.
  pub trap_file_write_handler_lem :
      (handle n : ℕ) (bytes mem : List ℕ)
      → space.word (trap_args + 4 * 0) ≡ some handle
      → space.word (trap_args + 4 * 1) ≡ some p
      → space.word (trap_args + 4 * 2) ≡ some n
      → BytesAt space p bytes
      → length bytes ≡ n
      → length mem ≡ 4096
      → n < 2 ^ 31
      → (n ≤ 4096
          → trap_file_write_handler space env false trap_args mem k
            ≡ file_write env handle (bytes ++ drop n mem) n k)
        × (4096 < n → trap_file_write_handler space env false trap_args mem k ≡ ok file_fail k)
  unfolding trap_file_write_handler
  trap_file_write_handler_lem handle n bytes mem first second third at size room int =
      let count = λ (few : n ≤ 4096).
        subst (λ m. copy_block space m p mem ≡ some (bytes ++ drop m mem)) size
          (copy_block-bytes space bytes mem p at (omega (arith, size, few, room))) in
      (
        λ few. rw (first, second, third, ge→ltb 4096 n few, lt→leb n (2 ^ 31) int, count few) refl,
        λ many. rw (first, second, third, lt→ltb 4096 n many, lt→ltb n (2 ^ 31) int) refl,
      )

  -- A disk_write_block from user mode of a block in the caller's memory is DiskWriteBlock of that block. If
  -- nothing is mapped at the block's address, it is DiskWriteBlock of what the kernel's local array held.
  pub trap_disk_write_block_handler_lem :
      (blocknum : ℕ) (block mem : List ℕ)
      → space.word (trap_args + 4 * 0) ≡ some blocknum
      → space.word (trap_args + 4 * 1) ≡ some p
      → length block ≡ disk_blocksize
      → length mem ≡ disk_blocksize
      → (BytesAt space p block
          → trap_disk_write_block_handler space env false trap_args mem k
            ≡ in_dfs (disk_write_block env blocknum block) k)
        × (space.byte p ≡ none
            → trap_disk_write_block_handler space env false trap_args mem k
              ≡ in_dfs (disk_write_block env blocknum mem) k)
  unfolding trap_disk_write_block_handler
  trap_disk_write_block_handler_lem blocknum block mem first second size room =
      let whole = λ (at : BytesAt space p block).
        subst (λ n. copy_block space n p mem ≡ some block) size
          (copy_block-whole space block mem p at (room ∙ sym size)) in
      (
        λ at. rw (first, second, whole at) refl,
        λ away.
            rw
              (first, second, copy_block-away space mem disk_blocksize p away (omega (arith, room)))
              refl,
      )
