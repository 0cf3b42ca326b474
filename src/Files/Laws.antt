-- ===== src/Files/Laws.antt =====
-- What the file API of flat/os/files.c promises.
use os_lab.Prelude.{
  ℕ, zero, suc, ◌+◌, ◌-◌, ◌^◌, ◌≤◌, ◌<◌, ◌≡◌, ◌≢◌, refl, ap, sym, ◌∙◌, Bool, true, false, ◌||◌,
  List, ◌∷◌, ◌==◌, ltb, if◌then◌else◌, some, get_elem?, set, replicate, arith, ne→==, eq→==, ge→ltb,
  Bool-cases, inl, inr, length, get_elem?-set_self, get_elem?-lt, set-set, drop_all,
}
use os_lab.Prelude.Word.{add32, sub32}
use os_lab.Os.{ok, Env, file_lock, acquire, release}
use os_lab.Dfs.{State, Inode, dfs_fail, call, Succeeds}
use os_lab.Dfs.Fbv.Alloc.{IsMounted, dfs_check_system-IsMounted, history-IsMounted}
use os_lab.Dfs.Inodes.{dfs_inode_filesize}
use os_lab.Dfs.Bytes.{dfs_inode_read_bytes, dfs_inode_write_bytes}
use os_lab.Files.{
  Kernel, FileDescriptor, may_read, may_write, file_fail, file_eof, file_success, null_entry,
  nullify_file_entry, file_release_return, file_close,
}
use os_lab.Files.Transfer.{
  file_seek_set, file_seek_cur, finish_read, file_read, file_write, check_cursor, file_seek,
}

-- The kernel with the file lock taken.
abbrev pub locked_files : Kernel → Kernel
locked_files k = record k { dfs = record (k.dfs) { history = acquire file_lock ∷ k.dfs.history } }

-- The kernel with the file lock given back.
abbrev pub unlocked_files : Kernel → Kernel
unlocked_files k = record k { dfs = record (k.dfs) { history = release file_lock ∷ k.dfs.history } }

-- Where a seek of `n` bytes leads, for a file of `size` bytes.
abbrev pub target : ℕ → ℕ → ℕ → FileDescriptor → ℕ
target from_where n size f =
    if from_where == file_seek_cur
    then add32 f.current_position n
    else if from_where == file_seek_set
    then n
    else add32 size n

-- The table with the cursor of an entry moved, and its flag set to `at_end`.
abbrev pub moved : Kernel → ℕ → FileDescriptor → ℕ → Bool → Kernel
moved k handle f position at_end = record k {
  files = set k.files handle (record f { current_position = position; eof = at_end });
}

-- What a process that does not own an entry gets of every operation on its handle.
abbrev pub IsRefused : Env → ℕ → List ℕ → ℕ → ℕ → Kernel → Type 0
IsRefused env handle mem n from_where k =
    (file_read env handle mem n k ≡ ok (file_fail, mem) k)
    × (file_write env handle mem n k ≡ ok file_fail k)
    × (file_seek env handle n from_where k ≡ ok file_fail k)
    × (file_close env handle k ≡ ok file_fail k)

-- FileRead, FileWrite, FileSeek and FileClose of a handle whose entry has another owner return
-- FILE_FAIL and change nothing: neither the tables, nor the caller's memory, nor a lock.
pub not_owner-IsRefused :
    (env : Env) (handle : ℕ) (mem : List ℕ) (n from_where : ℕ) (k : Kernel) {f : FileDescriptor}
    → get_elem? k.files handle ≡ some f
    → f.owner_id ≢ k.current_pid
    → IsRefused env handle mem n from_where k
unfolding file_read file_write file_seek file_close
not_owner-IsRefused env handle mem n from_where k {f} at other =
    let differ : (k.current_pid == f.owner_id) ≡ false =
      ne→== k.current_pid f.owner_id (λ e. other (sym e)) in
    (rw (at, differ), rw (at, differ), rw (at, differ), rw (at, differ))

file_release_return-ok :
    (env : Env)
    → Succeeds env
    → (x : ℕ) (k : Kernel) → file_release_return env x k ≡ ok x (unlocked_files k)
unfolding file_release_return call
file_release_return-ok env succeeds x k = rw (succeeds (release file_lock ∷ k.dfs.history))

nullify_file_entry-ok :
    (handle : ℕ) (k : Kernel) {f : FileDescriptor}
    → get_elem? k.files handle ≡ some f
    → length f.filename ≡ 44
    → nullify_file_entry handle k
      ≡ ok tt (record k { files = set k.files handle (null_entry (replicate 44 0)) })
unfolding nullify_file_entry
nullify_file_entry-ok handle k {f} at len = rw (at, len, drop_all 44 f.filename (omega arith))

-- The kernel after an entry was closed.
abbrev pub closed : Kernel → ℕ → Kernel
closed k handle =
    unlocked_files
      (record (locked_files k) { files = set k.files handle (null_entry (replicate 44 0)) })

module _ (env : Env) (succeeds : Succeeds env) where
  -- FileClose by the owner of an entry succeeds and gives the file lock back. From then on every
  -- operation on the handle, by any process whose number is not -1, is refused and changes nothing.
  -- The entry's name has 44 bytes, and every lock call succeeds.
  pub file_close-IsRefused :
      (handle : ℕ) (mem : List ℕ) (n from_where : ℕ) (k : Kernel) {f : FileDescriptor}
      → get_elem? k.files handle ≡ some f
      → length f.filename ≡ 44
      → f.owner_id ≡ k.current_pid
      → (file_close env handle k ≡ ok file_success (closed k handle))
        × ((pid : ℕ)
            → pid ≢ 0xFFFF_FFFF
            → IsRefused env handle mem n from_where
                (record (closed k handle) { current_pid = pid }))
  unfolding file_close call
  file_close-IsRefused handle mem n from_where k {f} at len owner = (
    rw (
      at,
      eq→== k.current_pid f.owner_id (sym owner),
      succeeds (acquire file_lock ∷ k.dfs.history),
      nullify_file_entry-ok handle (locked_files k) at len,
      file_release_return-ok env succeeds file_success
          (record (locked_files k) { files = set k.files handle (null_entry (replicate 44 0)) }),
    ),
    λ pid other.
        not_owner-IsRefused env handle mem n from_where
          (record (closed k handle) { current_pid = pid })
          (get_elem?-set_self k.files handle (null_entry (replicate 44 0))
            (get_elem?-lt k.files handle at))
          (λ e. other (sym e)),
  )

  filesize-ok :
      (s : State) (handle : ℕ) {m : Inode}
      → IsMounted s
      → get_elem? s.inodes handle ≡ some m
      → dfs_inode_filesize handle s ≡ ok m.size s
  unfolding dfs_inode_filesize
  filesize-ok s handle v at = rw (dfs_check_system-IsMounted v, at)

  check_cursor-ok :
      (handle : ℕ) (k : Kernel) {f : FileDescriptor} {m : Inode}
      → IsMounted k.dfs
      → get_elem? k.files handle ≡ some f
      → get_elem? k.dfs.inodes f.inode_handle ≡ some m
      → check_cursor env handle k ≡ (
          if ltb m.size f.current_position
          then ok file_fail k
          else ok file_success
              (unlocked_files (moved k handle f f.current_position (f.current_position == m.size))))
  unfolding check_cursor
  check_cursor-ok handle k {f} {m} v at inode =
      rw (at, ge→ltb f.current_position 0 (omega arith), filesize-ok k.dfs f.inode_handle v inode)
        (elim (Bool-cases (ltb m.size f.current_position)) [
          | inl past ↦ rw past refl
          | inr within ↦ rw within (file_release_return-ok env succeeds file_success _)
        ])

  seek_to :
      (handle p : ℕ) (k : Kernel) {f : FileDescriptor} {m : Inode}
      → IsMounted k.dfs
      → get_elem? k.files handle ≡ some f
      → get_elem? k.dfs.inodes f.inode_handle ≡ some m
      → check_cursor env handle (record (locked_files k) {
        files = set k.files handle (record f { current_position = p });
      })
        ≡ (if ltb m.size p
            then ok file_fail (moved (locked_files k) handle f p f.eof)
            else ok file_success (unlocked_files (moved (locked_files k) handle f p (p == m.size))))
  seek_to handle p k {f} {m} v at inode =
      let g : FileDescriptor = record f { current_position = p } in
      check_cursor-ok handle (record (locked_files k) { files = set k.files handle g })
        (history-IsMounted _ v)
        (get_elem?-set_self k.files handle g (get_elem?-lt k.files handle at)) inode
      ∙ ap
          (λ t.
            if ltb m.size p
            then ok file_fail (moved (locked_files k) handle f p f.eof)
            else ok file_success (unlocked_files (record (locked_files k) { files = t })))
          (set-set k.files handle g (record f { current_position = p; eof = p == m.size }))

  -- FileSeek by the owner of an entry, whose inode is in the table of a mounted file system, from
  -- one of the three places. A cursor past the end of the file is FILE_FAIL; it has been moved all
  -- the same, and the file lock stays taken. Any other cursor is a success: the entry has it, the
  -- flag says whether it is the end of the file, and the lock is given back. Every lock call
  -- succeeds.
  pub file_seek_lem :
      (handle n from_where : ℕ) (k : Kernel) {f : FileDescriptor} {m : Inode}
      → IsMounted k.dfs
      → get_elem? k.files handle ≡ some f
      → get_elem? k.dfs.inodes f.inode_handle ≡ some m
      → f.owner_id ≡ k.current_pid
      → 1 ≤ from_where
      → from_where ≤ 3
      → file_seek env handle n from_where k ≡ (
          let p = target from_where n m.size f in
          if ltb m.size p
          then ok file_fail (moved (locked_files k) handle f p f.eof)
          else ok file_success (unlocked_files (moved (locked_files k) handle f p (p == m.size))))
  unfolding file_seek call
  file_seek_lem handle n zero k v at inode owner lo hi = absurd (omega arith)
  file_seek_lem handle n (suc zero) k {f} {m} v at inode owner lo hi =
      rw
        (
          at,
          eq→== k.current_pid f.owner_id (sym owner),
          succeeds (acquire file_lock ∷ k.dfs.history),
        )
        (seek_to handle n k v at inode)
  file_seek_lem handle n (suc (suc zero)) k {f} {m} v at inode owner lo hi =
      rw
        (
          at,
          eq→== k.current_pid f.owner_id (sym owner),
          succeeds (acquire file_lock ∷ k.dfs.history),
          filesize-ok (locked_files k).dfs f.inode_handle (history-IsMounted _ v) inode,
        )
        (seek_to handle (add32 m.size n) k v at inode)
  file_seek_lem handle n (suc (suc (suc zero))) k {f} {m} v at inode owner lo hi =
      rw
        (
          at,
          eq→== k.current_pid f.owner_id (sym owner),
          succeeds (acquire file_lock ∷ k.dfs.history),
        )
        (seek_to handle (add32 f.current_position n) k v at inode)
  file_seek_lem handle n (suc (suc (suc (suc x)))) k v at inode owner lo hi = absurd (omega arith)

  -- FileWrite by the owner of an entry in mode `w` or `rw`, of no more than 4096 bytes: what
  -- DfsInodeWriteBytes does at the entry's cursor decides. If that fails, so does FileWrite; else
  -- the cursor has moved on by the bytes it reports. Either way the entry's end-of-file flag is set,
  -- also where the write ends before the end of the file, and the file lock is given back. The inode
  -- is in the table of a mounted file system, and every lock call succeeds.
  pub file_write_lem :
      (handle : ℕ) (mem : List ℕ) (n written : ℕ) (k : Kernel) {f : FileDescriptor} {m : Inode}
      {mem' : List ℕ} {u : State}
      → IsMounted k.dfs
      → get_elem? k.files handle ≡ some f
      → get_elem? k.dfs.inodes f.inode_handle ≡ some m
      → f.owner_id ≡ k.current_pid
      → may_write f.mode ≡ true
      → n ≤ 4096
      → dfs_inode_write_bytes env f.inode_handle mem f.current_position n (locked_files k).dfs
        ≡ ok (written, mem') u
      → file_write env handle mem n k ≡ (
          if written == dfs_fail
          then ok file_fail
              (unlocked_files (moved (record k { dfs = u }) handle f f.current_position true))
          else ok written (
              unlocked_files
                (moved (record k { dfs = u }) handle f (add32 f.current_position written) true)))
  unfolding file_write call
  file_write_lem handle mem n written k {f} {m} {mem'} {u} v at inode owner mode few wrote =
      let g : FileDescriptor = record f { eof = true } in
      let got : get_elem? (set k.files handle g) handle ≡ some g =
        get_elem?-set_self k.files handle g (get_elem?-lt k.files handle at) in
      rw
        (
          at,
          eq→== k.current_pid f.owner_id (sym owner),
          mode,
          ge→ltb 4096 n few,
          succeeds (acquire file_lock ∷ k.dfs.history),
          filesize-ok (locked_files k).dfs f.inode_handle (history-IsMounted _ v) inode,
          wrote,
        )
        (elim (Bool-cases (written == dfs_fail)) [
          | inl bad ↦ rw bad (file_release_return-ok env succeeds file_fail _)
          | inr good ↦
              rw
                (
                  good,
                  got,
                  set-set k.files handle g
                      (record g { current_position = add32 f.current_position written }),
                )
                (file_release_return-ok env succeeds written _)
        ])

  finish_read-ok :
      (handle got : ℕ) (mem : List ℕ) (k : Kernel) {g : FileDescriptor}
      → get_elem? k.files handle ≡ some g
      → finish_read env handle got mem k ≡ (
          if got == dfs_fail
          then ok (file_fail, mem) (unlocked_files k)
          else ok
              (if g.eof then file_eof else got, mem)
              (unlocked_files (moved k handle g (add32 g.current_position got) g.eof)))
  unfolding finish_read call
  finish_read-ok handle got mem k {g} at = elim (Bool-cases (got == dfs_fail)) [
    | inl bad ↦ rw (bad, file_release_return-ok env succeeds file_fail k)
    | inr good ↦ rw (good, at, succeeds (release file_lock ∷ k.dfs.history))
  ]

  -- FileRead by the owner of an entry in mode `r` or `rw`, of no more than 4096 bytes, with its
  -- cursor inside the file: DfsInodeReadBytes is asked for the bytes from the cursor, but for none
  -- past the end of the file. If that fails, so does FileRead; else the cursor has moved on by the
  -- bytes it reports, and FILE_EOF is the result if the request went past the end or the flag was
  -- set before. The flag is set if the request went past the end, the memory is as DfsInodeReadBytes
  -- left it, and the file lock is given back. The inode is in the table of a mounted file system,
  -- its size is below 2 ^ 31, and every lock call succeeds.
  pub file_read_lem :
      (handle : ℕ) (mem : List ℕ) (n got : ℕ) (k : Kernel) {f : FileDescriptor} {m : Inode}
      {mem' : List ℕ} {u : State}
      → IsMounted k.dfs
      → get_elem? k.files handle ≡ some f
      → get_elem? k.dfs.inodes f.inode_handle ≡ some m
      → f.owner_id ≡ k.current_pid
      → may_read f.mode ≡ true
      → n ≤ 4096
      → f.current_position ≤ m.size
      → m.size < 2 ^ 31
      → dfs_inode_read_bytes env f.inode_handle mem f.current_position
          (if ltb m.size (f.current_position + n) then m.size - f.current_position else n)
          (locked_files k).dfs
        ≡ ok (got, mem') u
      → let flag = ltb m.size (f.current_position + n) || f.eof in
        file_read env handle mem n k ≡ (
          if got == dfs_fail
          then ok
              (file_fail, mem')
              (unlocked_files (moved (record k { dfs = u }) handle f f.current_position flag))
          else ok
              (if flag then file_eof else got, mem')
              (unlocked_files
                (moved (record k { dfs = u }) handle f (add32 f.current_position got) flag)))
  unfolding file_read call
  file_read_lem handle mem n got k {f} {m} {mem'} {u} v at inode owner mode few within small red =
      let sum : add32 f.current_position n ≡ f.current_position + n = omega arith in
      let count : sub32 m.size f.current_position ≡ m.size - f.current_position = omega arith in
      let self : (g : FileDescriptor) → get_elem? (set k.files handle g) handle ≡ some g =
        λ g. get_elem?-set_self k.files handle g (get_elem?-lt k.files handle at) in
      rw
        (
          at,
          eq→== k.current_pid f.owner_id (sym owner),
          mode,
          ge→ltb 4096 n few,
          succeeds (acquire file_lock ∷ k.dfs.history),
          filesize-ok (locked_files k).dfs f.inode_handle (history-IsMounted _ v) inode,
          sum,
        )
        (elim (Bool-cases (ltb m.size (f.current_position + n))) [
          | inl past ↦
              let run = rw past at red in
              let g : FileDescriptor = record f { eof = true } in
              rw (
                past,
                count,
                run,
                finish_read-ok handle got mem' (record k { dfs = u; files = set k.files handle g })
                    (self g),
                set-set k.files handle g
                    (record g { current_position = add32 f.current_position got }),
              )
          | inr inside ↦
              let run = rw inside at red in
              rw (
                inside,
                run,
                finish_read-ok handle got mem' (record k { dfs = u; files = set k.files handle f })
                    (self f),
                set-set k.files handle f
                    (record f { current_position = add32 f.current_position got }),
              )
        ])
