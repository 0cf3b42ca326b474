-- ===== src/Disk/Laws.antt =====
-- The block operations of flat/os/disk.c on every branch on which the host answers.
use os_lab.Prelude.{ℕ, ◌*◌, ◌<◌, ◌≡◌, ◌≢◌, some, List, ◌∷◌, lt→leb, ne→==}
use os_lab.Os.{
  ok, Event, disable_intrs, restore_intrs, fs_open, fs_close, fs_seek, fs_read, fs_write, Env,
}
use os_lab.Dfs.{State, disk_blocksize, disk_numblocks, call, Succeeds}
use os_lab.Disk.{put_block, disk_write_block, disk_read_block}

-- The calls that a transfer of block `n` makes, in front of those already made.
abbrev pub transfer : Event → ℕ → List Event → List Event
transfer e n h =
    restore_intrs ∷ fs_close ∷ e ∷ fs_seek (n * disk_blocksize) ∷ fs_open ∷ disable_intrs ∷ h

module _ (env : Env) (succeeds : Succeeds env) where
  pub disk_write_block-ok :
      (n : ℕ) (bytes : List ℕ) (s : State)
      → n < disk_numblocks
      → disk_write_block env n bytes s
        ≡ ok disk_blocksize
            (put_block n bytes (record s { history = transfer fs_write n s.history }))
  unfolding disk_write_block call
  disk_write_block-ok n bytes s h = rw (
    lt→leb n disk_numblocks h,
    succeeds (fs_open ∷ disable_intrs ∷ s.history),
    succeeds (fs_seek (n * disk_blocksize) ∷ fs_open ∷ disable_intrs ∷ s.history),
    succeeds (fs_write ∷ fs_seek (n * disk_blocksize) ∷ fs_open ∷ disable_intrs ∷ s.history),
  )

  pub disk_read_block-ok :
      (n : ℕ) (s : State)
      → n < disk_numblocks
      → env.byte_at 11 ≢ b'X'
      → disk_read_block env n s
        ≡ ok (some (s.disk n)) (record s { history = transfer fs_read n s.history })
  unfolding disk_read_block call
  disk_read_block-ok n s h name = rw (
    lt→leb n disk_numblocks h,
    ne→== (env.byte_at 11) b'X' name,
    succeeds (fs_open ∷ disable_intrs ∷ s.history),
    succeeds (fs_seek (n * disk_blocksize) ∷ fs_open ∷ disable_intrs ∷ s.history),
    succeeds (fs_read ∷ fs_seek (n * disk_blocksize) ∷ fs_open ∷ disable_intrs ∷ s.history),
  )
