-- ===== src/Memory.antt =====
-- The memory manager of flat/os/memory.c: the map of free pages, page table entries and the addresses
-- of user processes. A set bit of the map is a free page, and page p is bit p % 32 of word p / 32.
pub mod Map
pub mod Alloc
pub mod Pages
pub mod Init
pub mod Freed
pub mod Pte
pub mod Copy
use os_lab.Prelude.{
  ℕ, zero, suc, ◌+◌, ◌-◌, ◌*◌, ◌/◌, ◌%◌, ◌^◌, bit_and, bit_or, bit_xor, Bool, true, false, not,
  ◌&&◌, ◌||◌, Option, none, some, List, [], ◌∷◌, ◌==◌, ltb, leb, if◌then◌else◌, get_elem?, set,
}
use mathlib.Core.Option
use os_lab.Prelude.Word.{word_mod, add32}
use os_lab.Os.{Cmd, ok, pure, gets, modify, undefined_behaviour, ◌>>=◌, ◌>>◌}

abbrev pub memory_page_size : ℕ
memory_page_size = 2 ^ 16

abbrev pub memory_pte_valid : ℕ
memory_pte_valid = 1

abbrev memory_pte_dirty : ℕ
memory_pte_dirty = 2

abbrev memory_pte_referenced : ℕ
memory_pte_referenced = 4

abbrev pub negativeone : ℕ
negativeone = 0xFFFF_FFFF

-- `n ^ negativeone`
pub invert : ℕ → ℕ
invert n = bit_xor n negativeone

-- `~(VALID | DIRTY | REFERENCED)` as a 32-bit word.
abbrev pub memory_pte_mask : ℕ
memory_pte_mask = negativeone - (memory_pte_valid + memory_pte_dirty + memory_pte_referenced)

-- The statics of the file, and the one of MemoryAllocPage.
pub record Memory : Type 0 where
  pub pagestart : ℕ
  pub freemapmax : ℕ
  pub nfreepages : ℕ
  pub freepages : List ℕ
  pub mapnum : ℕ

-- An access to an element of an array; outside it is undefined.
abbrev pub element : {A : Type 0} → Option A → Cmd Memory A
element none = undefined_behaviour
element (some a) = pure a

abbrev pub get_word : ℕ → Cmd Memory ℕ
get_word i m = element (get_elem? m.freepages i) m

abbrev pub set_word : ℕ → ℕ → Cmd Memory (Unit {0})
set_word i w = modify (λ m. record m { freepages = set m.freepages i w })

pub memory_set_freemap : ℕ → ℕ → Cmd Memory (Unit {0})
memory_set_freemap p b = do
  w ← get_word (p / 32)
  set_word (p / 32) (bit_or (bit_and w (invert (2 ^ (p % 32)))) (b * 2 ^ (p % 32) % word_mod))

-- An `int` divided by a positive one, towards 0; both are 32-bit patterns.
pub int_div : ℕ → ℕ → ℕ
int_div n d = if ltb n (2 ^ 31) then n / d else (word_mod - (word_mod - n) / d) % word_mod

-- The rounds of a loop that counts an `int` up from one number to below another.
pub int_rounds : ℕ → ℕ → ℕ
int_rounds from to =
    if ltb ((from + 2 ^ 31) % word_mod) ((to + 2 ^ 31) % word_mod)
    then (to + word_mod - from) % word_mod
    else 0

-- The two loops of MemoryModuleInit, from word `i` and from page `curpage`; the number of rounds
-- left comes first.
pub clear_loop : ℕ → ℕ → Cmd Memory (Unit {0})
clear_loop zero i = pure tt
clear_loop (suc n) i = let rest = clear_loop n (i + 1) in do old ← get_word i; set_word i 0; rest

pub page_loop : ℕ → ℕ → Cmd Memory (Unit {0})
page_loop zero curpage = pure tt
page_loop (suc n) curpage =
    let rest = page_loop n (curpage + 1) in
    do modify (λ m. record m { nfreepages = m.nfreepages + 1 }); memory_set_freemap curpage 1; rest

-- MemoryModuleInit with its numbers of pages and words.
pub init_map : ℕ → ℕ → ℕ → Cmd Memory (Unit {0})
init_map start max maxpage = do
  modify (λ m. record m { pagestart = start; freemapmax = max })
  clear_loop (int_rounds 0 max) 0
  modify (λ m. record m { nfreepages = 0 })
  page_loop (int_rounds start maxpage) start

-- The size of the machine's memory, which MemoryGetSize reads, and the end of the system's code come
-- from the machine. Both are an `int`, as its 32-bit pattern.
pub memory_module_init : ℕ → ℕ → Cmd Memory (Unit {0})
memory_module_init memory_size lastosaddress =
    let maxpage = int_div memory_size memory_page_size in
    let behind = lastosaddress + memory_page_size - 4 in
    if ltb lastosaddress (2 ^ 31) && leb (2 ^ 31) behind
    then undefined_behaviour
    else init_map (int_div (behind % word_mod) memory_page_size) (int_div (add32 maxpage 31) 32)
        maxpage

-- The `while` loop of MemoryAllocPage, with fuel: the next word of the map that has a free page.
pub search_map : ℕ → ℕ → List ℕ → ℕ → Option ℕ
search_map zero freemapmax pages mapnum = none
search_map (suc n) freemapmax pages mapnum =
    let rest =
      search_map n freemapmax pages (if leb freemapmax (mapnum + 1) then 0 else mapnum + 1) in
    elim (get_elem? pages mapnum) [
      | none ↦ none
      | some w ↦ elim (w == 0) [ true ↦ rest | false ↦ some mapnum ]
    ]

-- The `for` loop: the lowest set bit from bit `bitnum` on. A shift by 32 is undefined.
pub low_bit : ℕ → ℕ → ℕ → Option ℕ
low_bit zero v bitnum = none
low_bit (suc n) v bitnum =
    let rest = low_bit n v (bitnum + 1) in if bit_and v (2 ^ bitnum) == 0 then rest else some bitnum

-- `freemapmax` is compared as a number that is not negative, which it is below 2 ^ 31 bytes of memory.
-- As much fuel as the map has words: a search that passes all of them would go on for ever.
pub memory_alloc_page : Cmd Memory ℕ
memory_alloc_page = do
  left ← gets (λ m. m.nfreepages)
  if left == 0 then pure 0 else do
    m ← gets (λ m. m)
    found ← element (search_map m.freemapmax m.freemapmax m.freepages m.mapnum)
    modify (λ m. record m { mapnum = found })
    v ← get_word found
    bitnum ← element (low_bit 32 v 0)
    set_word found (bit_and v (invert (2 ^ bitnum)))
    modify (λ m. record m { nfreepages = m.nfreepages - 1 })
    pure (found * 32 + bitnum)

pub memory_free_page : ℕ → Cmd Memory (Unit {0})
memory_free_page page = do
  memory_set_freemap page 1
  modify (λ m. record m { nfreepages = m.nfreepages + 1 })

-- `none` is a read outside of the page table.
pub memory_translate_user_to_system : ℕ → List ℕ → ℕ → Option ℕ
memory_translate_user_to_system npages pagetable addr =
    if ltb npages (addr / memory_page_size)
    then some 0
    else elim (get_elem? pagetable (addr / memory_page_size)) [
      | none ↦ none
      | some pte ↦ some (add32 (bit_and pte memory_pte_mask) (addr % memory_page_size))
    ]

pub memory_setup_pte : ℕ → ℕ
memory_setup_pte page = bit_or (page * memory_page_size % word_mod) memory_pte_valid

pub memory_pte_to_page : ℕ → ℕ
memory_pte_to_page pte = bit_and pte memory_pte_mask

pub memory_free_pte : ℕ → Cmd Memory (Unit {0})
memory_free_pte pte = memory_free_page (bit_and pte memory_pte_mask / memory_page_size)

-- The operand's address of an instruction, by the registers that the process's frame has saved from
-- word 10 on; `none` is a read outside of the frame. The mask has a bit for each opcode from 0x20 on that
-- does not access memory.
abbrev invalid_ops : ℕ
invalid_ops = 0x3404

unfoldable pub memory_get_operand_address : List ℕ → ℕ → Option ℕ
memory_get_operand_address frame instr =
    let opcode = instr / 2 ^ 26 % 64 in
    let offset = instr % 2 ^ 16 in
    let wide = if bit_and offset 0x8000 == 0 then offset else bit_or offset 0xFFFF_0000 in
    if ltb opcode 0x20
      || ltb 0x2F opcode
      || not (bit_and (invalid_ops / 2 ^ (opcode - 0x20)) 1 == 0)
    then some 0xFFFF_FFFF
    else Option.map (λ value. add32 value wide) (get_elem? frame (10 + instr / 2 ^ 21 % 32))
