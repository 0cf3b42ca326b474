-- ===== src/Filesys/Init.antt =====
-- FsModuleInit of flat/os/filesys.c.
use os_lab.Prelude.{
  ℕ, zero, suc, ◌≡◌, ◌<◌, ◌∙◌, ap, sym, subst, refl, some, List, [], ◌∷◌, length, get_or,
}
use os_lab.Os.{ok}
use os_lab.Filesys.{
  Files, OpenFile, unix, dlx, entry, fs_max_open_files, fs_module_init, close_all, closed,
}
use os_lab.Filesys.Slots.{IsTable}

length-close_all : (fs : List OpenFile) → length (close_all fs) ≡ length fs
unfolding close_all
length-close_all [] = refl
length-close_all (f ∷ fs) = ap suc (length-close_all fs)

close_all-fs :
    (fs : List OpenFile) (x : ℕ)
    → ((get_or (close_all fs) x closed).fs ≡ (get_or fs x closed).fs)
      × ((get_or (close_all fs) x closed).flags ≡ 0)
unfolding close_all
close_all-fs [] x = (refl, refl)
close_all-fs (f ∷ fs) zero = (refl, refl)
close_all-fs (f ∷ fs) (suc x) = close_all-fs fs x

-- FsModuleInit, on an array whose entries are each for one of the two file systems (the statics are 0),
-- leaves a whole table in which every slot is free.
pub fs_module_init_lem :
    (t : Files)
    → length t.openfiles ≡ fs_max_open_files
    → ((x : ℕ) → (entry x t).fs < 2)
    → (u : Files) × (fs_module_init t ≡ ok tt u) × IsTable u × ((x : ℕ) → (entry x u).flags ≡ 0)
unfolding fs_module_init
fs_module_init_lem t size kinds =
    let u : Files = record t {
      openfiles = close_all t.openfiles;
      drivers = some unix ∷ some dlx ∷ [];
    } in
    (
      u,
      refl,
      record {
        size = length-close_all t.openfiles ∙ size;
        installed = refl;
        kinds = λ x. subst (λ n. n < 2) (sym (close_all-fs t.openfiles x).0) (kinds x);
      },
      λ x. (close_all-fs t.openfiles x).1,
    )
