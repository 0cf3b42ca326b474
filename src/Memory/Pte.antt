-- ===== src/Memory/Pte.antt =====
-- Page table entries of flat/os/memory.c, and the addresses of a user process.
use os_lab.Prelude.{
  ℕ, ◌+◌, ◌*◌, ◌/◌, ◌%◌, ◌^◌, ◌<◌, bit_and, ◌≡◌, ◌∙◌, some, List, get_elem?, ge→ltb, arith,
}
use os_lab.Prelude.Word.{word_mod}
use os_lab.Prelude.Bits.{and-halves, or-halves, bit_and-ones, or-nothing}
use os_lab.Memory.{
  memory_page_size, memory_pte_mask, memory_setup_pte, memory_pte_to_page, memory_free_pte,
  memory_free_page, memory_translate_user_to_system,
}

-- The mask clears the lowest three bits.
masked : (w : ℕ) → w < 2 ^ 32 → bit_and w memory_pte_mask ≡ w / 8 * 8
masked w h = omega (
  arith,
  and-halves 0xFFFF_FFF8 w,
  and-halves 0x7FFF_FFFC (w / 2),
  and-halves 0x3FFF_FFFE (w / 2 / 2),
  bit_and-ones 29 (w / 2 / 2 / 2) (omega arith),
)

setup : (page : ℕ) → page < 2 ^ 16 → memory_setup_pte page ≡ page * memory_page_size + 1
unfolding memory_setup_pte
setup page h =
    let small : page * memory_page_size % word_mod ≡ page * memory_page_size = omega arith in
    rw small (
      omega
        (arith, or-halves 1 (page * memory_page_size), or-nothing (page * memory_page_size / 2)))

-- MemoryPteToPage of the entry that MemorySetupPte makes for a page is the page's address, and
-- MemoryFreePte of that entry frees the page.
pub memory_pte_to_page-memory_setup_pte :
    (page : ℕ)
    → page < 2 ^ 16
    → (memory_pte_to_page (memory_setup_pte page) ≡ page * memory_page_size)
      × (memory_free_pte (memory_setup_pte page) ≡ memory_free_page page)
unfolding memory_pte_to_page memory_free_pte
memory_pte_to_page-memory_setup_pte page h =
    let e : bit_and (memory_setup_pte page) memory_pte_mask ≡ page * memory_page_size =
      rw (setup page h) (masked (page * memory_page_size + 1) (omega arith) ∙ omega arith) in
    let number : page * memory_page_size / memory_page_size ≡ page = omega arith in
    (e, rw (e, number))

-- MemoryTranslateUserToSystem of an address in a page that the process has, by an entry that
-- MemorySetupPte made, is the same offset in the physical page.
pub memory_translate_user_to_system-memory_setup_pte :
    (npages : ℕ) (pagetable : List ℕ) (addr page : ℕ)
    → addr / memory_page_size < npages
    → page < 2 ^ 16
    → get_elem? pagetable (addr / memory_page_size) ≡ some (memory_setup_pte page)
    → memory_translate_user_to_system npages pagetable addr
      ≡ some (page * memory_page_size + addr % memory_page_size)
unfolding memory_translate_user_to_system
memory_translate_user_to_system-memory_setup_pte npages pagetable addr page inside h entry =
    let e : bit_and (memory_setup_pte page) memory_pte_mask ≡ page * memory_page_size =
      rw (setup page h) (masked (page * memory_page_size + 1) (omega arith) ∙ omega arith) in
    let fits : (page * memory_page_size + addr % memory_page_size) % word_mod
        ≡ page * memory_page_size + addr % memory_page_size =
      omega arith in
    rw (ge→ltb npages (addr / memory_page_size) (omega arith), entry, e, fits)
