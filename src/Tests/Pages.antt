-- ===== src/Tests/Pages.antt =====
-- A small map of free pages, with pages 33 and 34 free, and the theorems on the memory manager.
use os_lab.Prelude.{
  ℕ, zero, suc, ◌+◌, ◌*◌, ◌^◌, ◌<◌, ◌≡◌, ◌≢◌, refl, some, [], ◌∷◌, replicate, length-replicate,
  arith,
}
use os_lab.Prelude.Bits.{bit}
use os_lab.Os.{ok}
use os_lab.Memory.{
  Memory, memory_page_size, memory_alloc_page, memory_free_page, memory_module_init,
  memory_setup_pte, memory_translate_user_to_system,
}
use os_lab.Memory.Map.{ones, word, free_bit}
use os_lab.Memory.Alloc.{IsMap}
use os_lab.Memory.Pages.{memory_alloc_page_lem, memory_free_page_lem}
use os_lab.Memory.Init.{in_range, memory_module_init_lem}
use os_lab.Memory.Pte.{memory_translate_user_to_system-memory_setup_pte}

abbrev pub small_map : Memory
small_map = record {
  pagestart = 33;
  freemapmax = 2;
  nfreepages = 2;
  freepages = 0 ∷ 6 ∷ [];
  mapnum = 0;
}

small_words : (i : ℕ) → i < 2 → word small_map i < 2 ^ 32
small_words zero h = omega arith
small_words (suc zero) h = omega arith
small_words (suc (suc i)) h = absurd (omega arith)

pub small-IsMap : IsMap small_map
unfolding ones bit
small-IsMap = record { room = omega arith; cursor = omega arith; words = small_words; count = refl }

small_used : free_bit small_map 40 ≡ 0
unfolding bit
small_used = refl

memory_alloc_page_lem_example :
    (p : ℕ) × (m : Memory) × (memory_alloc_page small_map ≡ ok p m)
    × (p < 64)
    × (free_bit small_map p ≡ 1)
    × (free_bit m p ≡ 0)
    × ((q : ℕ) → q ≢ p → free_bit m q ≡ free_bit small_map q)
    × IsMap m
memory_alloc_page_lem_example = memory_alloc_page_lem small_map small-IsMap (omega arith)

memory_free_page_lem_example :
    (m : Memory) × (memory_free_page 40 small_map ≡ ok tt m)
    × (free_bit m 40 ≡ 1)
    × ((q : ℕ) → q ≢ 40 → free_bit m q ≡ free_bit small_map q)
    × IsMap m
memory_free_page_lem_example =
    memory_free_page_lem small_map 40 small-IsMap (omega arith) small_used

-- The machine has 32 pages of memory, and the system's code ends in the third one.
abbrev cold : Memory
cold = record {
  pagestart = 0;
  freemapmax = 0;
  nfreepages = 0;
  freepages = replicate 2048 7;
  mapnum = 0;
}

memory_module_init_lem_example :
    (m : Memory) × (memory_module_init 0x200000 0x20010 cold ≡ ok tt m)
    × IsMap m
    × ((p : ℕ) → p < 32 * m.freemapmax → free_bit m p ≡ in_range 3 32 p 0)
memory_module_init_lem_example =
    memory_module_init_lem 0x200000 0x20010 cold (length-replicate {A = ℕ} 2048 7) refl
      (omega arith) (omega arith) (omega arith)

memory_translate_user_to_system-memory_setup_pte_example :
    memory_translate_user_to_system 1 (memory_setup_pte 7 ∷ []) 0x1234
    ≡ some (7 * memory_page_size + 0x1234)
memory_translate_user_to_system-memory_setup_pte_example =
    memory_translate_user_to_system-memory_setup_pte 1 (memory_setup_pte 7 ∷ []) 0x1234 7
      (omega arith) (omega arith) refl
