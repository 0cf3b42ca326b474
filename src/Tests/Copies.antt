-- ===== src/Tests/Copies.antt =====
-- A process with two pages, and the theorems on copies to and from it.
use os_lab.Prelude.{
  ℕ, zero, suc, ◌+◌, ◌%◌, ◌≡◌, ◌≢◌, ◌<◌, ◌==◌, if◌then◌else◌, refl, List, [], ◌∷◌, get_elem?, some,
  ◌^◌, arith,
}
use os_lab.Os.{ok, ◌>>◌}
use os_lab.Memory.{memory_setup_pte}
use os_lab.Memory.Copy.{Ram, memory_copy_system_to_user, memory_copy_user_to_system}
use os_lab.Memory.Copy.Pages.{physical, IsMapped}
use os_lab.Memory.Copy.Laws.{
  AreDistinct, IsBelow, memory_copy_system_to_user_lem,
  memory_copy_user_to_system-memory_copy_system_to_user,
}

abbrev frame : ℕ → ℕ
frame p = if p == 0 then 9 else 7

abbrev pagetable : List ℕ
pagetable = memory_setup_pte 9 ∷ memory_setup_pte 7 ∷ []

abbrev ram : Ram
ram a = a % 256

two-IsMapped : IsMapped 2 pagetable frame
two-IsMapped = record { entries = entries; physical_pages = physical_pages }
  where
    entries : (p : ℕ) → p < 2 → get_elem? pagetable p ≡ some (memory_setup_pte (frame p))
    entries zero h = refl
    entries (suc zero) h = refl
    entries (suc (suc p)) h = absurd (omega (arith, h))

    physical_pages : (p : ℕ) → p < 2 → (0 < frame p) × (frame p < 2 ^ 16)
    physical_pages zero h = omega arith
    physical_pages (suc zero) h = omega arith
    physical_pages (suc (suc p)) h = absurd (omega (arith, h))

two-AreDistinct : AreDistinct 2 frame
two-AreDistinct zero zero h k e = refl
two-AreDistinct zero (suc zero) h k e = absurd (omega (arith, e))
two-AreDistinct (suc zero) zero h k e = absurd (omega (arith, e))
two-AreDistinct (suc zero) (suc zero) h k e = refl
two-AreDistinct (suc (suc p)) q h k e = absurd (omega (arith, h))
two-AreDistinct zero (suc (suc q)) h k e = absurd (omega (arith, k))
two-AreDistinct (suc zero) (suc (suc q)) h k e = absurd (omega (arith, k))

low-IsBelow : (s : ℕ) → s < 1000 → IsBelow 2 frame s 20
low-IsBelow s h zero k = omega (arith, h)
low-IsBelow s h (suc zero) k = omega (arith, h)
low-IsBelow s h (suc (suc p)) k = absurd (omega (arith, k))

-- Twenty bytes across the end of the first page.
memory_copy_system_to_user_lem_example :
    (ram' : Ram) × (memory_copy_system_to_user 2 pagetable 256 65530 20 ram ≡ ok 20 ram')
    × ((i : ℕ) → i < 20 → ram' (physical frame (65530 + i)) ≡ ram (256 + i))
    × ((a : ℕ) → ((i : ℕ) → i < 20 → a ≢ physical frame (65530 + i)) → ram' a ≡ ram a)
memory_copy_system_to_user_lem_example =
    memory_copy_system_to_user_lem 2 pagetable frame 256 65530 20 ram two-IsMapped two-AreDistinct
      (low-IsBelow 256 (omega arith)) (omega arith) (omega arith)

memory_copy_user_to_system-memory_copy_system_to_user_example :
    (ram' : Ram) × ((memory_copy_system_to_user 2 pagetable 256 65530 20
          >> memory_copy_user_to_system 2 pagetable 65530 512 20)
        ram
      ≡ ok 20 ram')
    × ((i : ℕ) → i < 20 → ram' (512 + i) ≡ ram (256 + i))
memory_copy_user_to_system-memory_copy_system_to_user_example =
    memory_copy_user_to_system-memory_copy_system_to_user 2 pagetable frame 256 512 65530 20 ram
      two-IsMapped two-AreDistinct (low-IsBelow 256 (omega arith)) (low-IsBelow 512 (omega arith))
      (omega arith) (omega arith)
