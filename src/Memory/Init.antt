-- ===== src/Memory/Init.antt =====
-- MemoryModuleInit of flat/os/memory.c: which pages are free when the system starts.
use os_lab.Prelude.{
  ℕ, zero, suc, ◌+◌, ◌-◌, ◌*◌, ◌/◌, ◌%◌, ◌^◌, ◌<◌, ◌≤◌, ◌≡◌, refl, ap, sym, ◌∙◌, List, ◌&&◌, leb,
  ltb, if◌then◌else◌, length, get_or, set, get_or-set_self, get_or-set_ne, length-set,
  get_elem?-eq_get_or, lt→ltb, lt→leb, false, arith, ℕ_discrete,
}
use os_lab.Prelude.Bits.{bit-zero}
use os_lab.Prelude.Word.{word_mod, add32}
use os_lab.Os.{ok}
use os_lab.Memory.{
  Memory, memory_page_size, memory_set_freemap, clear_loop, page_loop, memory_module_init, int_div,
  int_rounds, init_map,
}
use os_lab.Memory.Map.{sum_below, ones, ones-zero, word, free_bit}
use os_lab.Memory.Alloc.{IsMap}
use os_lab.Memory.Pages.{returned, returned_others, returned_self, returned-IsMap, here}

clear_loop_lem :
    (n i : ℕ) (m : Memory)
    → i + n ≤ length m.freepages
    → (ws : List ℕ) × (clear_loop n i m ≡ ok tt (record m { freepages = ws }))
      × (length ws ≡ length m.freepages)
      × ((j : ℕ) → j < i → get_or ws j 0 ≡ get_or m.freepages j 0)
      × ((j : ℕ) → i ≤ j → j < i + n → get_or ws j 0 ≡ 0)
unfolding clear_loop
clear_loop_lem zero i m h =
    (m.freepages, refl, refl, (λ j p. refl), (λ j p q. absurd (omega arith)))
clear_loop_lem (suc n) i m h =
    let at = get_elem?-eq_get_or m.freepages i 0 (omega arith) in
    let size = length-set m.freepages i 0 in
    let m' : Memory = record m { freepages = set m.freepages i 0 } in
    let (ws, ran, len, before, after) = clear_loop_lem n (i + 1) m' (omega (arith, size)) in
    (
      ws,
      rw at ran,
      len ∙ size,
      (λ j p.
          before j (omega arith)
          ∙ get_or-set_ne m.freepages i j 0 0 (λ e. absurd (omega (arith, p, e)))),
      (λ j p q. elim (ℕ_discrete i j) [
        | yes e ↦
            rw (sym e) (before i (omega arith) ∙ get_or-set_self m.freepages i 0 0 (omega arith))
        | no ne ↦ after j (omega (arith, ne)) (omega arith)
      ]),
    )

sum_below-nothing : (n : ℕ) (f : ℕ → ℕ) → ((k : ℕ) → k < n → f k ≡ 0) → sum_below n f ≡ 0
sum_below-nothing zero f h = refl
sum_below-nothing (suc n) f h =
    omega (arith, h n (omega arith), sum_below-nothing n f (λ k p. h k (omega arith)))

-- Whether a page is in a range.
abbrev pub in_range : ℕ → ℕ → ℕ → ℕ → ℕ
in_range from to p other = if leb from p && ltb p to then 1 else other

page_loop_lem :
    (n c : ℕ) (m : Memory)
    → IsMap m
    → c + n ≤ 32 * m.freemapmax
    → ((p : ℕ) → c ≤ p → p < 32 * m.freemapmax → free_bit m p ≡ 0)
    → (m' : Memory) × (page_loop n c m ≡ ok tt m')
      × IsMap m'
      × (m'.freemapmax ≡ m.freemapmax)
      × ((p : ℕ) → p < 32 * m.freemapmax → free_bit m' p ≡ in_range c (c + n) p (free_bit m p))
unfolding page_loop memory_set_freemap
page_loop_lem zero c m h fits used = (m, refl, h, refl, (λ p lt. ground arith))
page_loop_lem (suc n) c m h fits used =
    let inside : c / 32 < m.freemapmax = omega arith in
    let at = get_elem?-eq_get_or m.freepages (c / 32) 0 (here m h c inside) in
    let h' = returned-IsMap m h c inside (used c (omega arith) (omega arith)) in
    let others = returned_others m h c inside in
    let (m', ran, map, limit, bits) =
      page_loop_lem n (c + 1) (returned m c) h' (omega arith)
        (λ p ge lt. others p (λ e. absurd (omega (arith, ge, e))) ∙ used p (omega arith) lt) in
    (
      m',
      rw at ran,
      map,
      limit,
      (λ p lt. elim (ℕ_discrete p c) [
        | yes e ↦
            let self : free_bit (returned m c) p ≡ 1 = rw e (returned_self m h c inside) in
            let later = bits p lt in ground arith
        | no ne ↦ let same = others p ne in let later = bits p lt in ground arith
      ]),
    )

int_div-pos : (n d : ℕ) → n < 2 ^ 31 → int_div n d ≡ n / d
unfolding int_div
int_div-pos n d lt = rw (lt→ltb n (2 ^ 31) lt) refl

int_rounds-pos : (from to : ℕ) → from ≤ to → to < 2 ^ 31 → int_rounds from to ≡ to - from
unfolding int_rounds
int_rounds-pos from to le lt = ground arith

-- MemoryModuleInit below 2 ^ 31 bytes of memory, where no `int` overflows.
memory_module_init-pos :
    (size last : ℕ) (m : Memory)
    → size < 2 ^ 31
    → (last + memory_page_size - 4) / memory_page_size ≤ size / memory_page_size
    → memory_module_init size last m
      ≡ init_map
          ((last + memory_page_size - 4) / memory_page_size)
          ((size / memory_page_size + 31) / 32)
          (size / memory_page_size)
          m
unfolding memory_module_init
memory_module_init-pos size last m int fits =
    let pages = size / memory_page_size in
    let behind = last + memory_page_size - 4 in
    let few : pages < 32768 = omega (arith, int) in
    let low : behind < 2 ^ 31 = omega (arith, few, fits) in
    let no_wrap : leb (2 ^ 31) behind ≡ false = lt→leb behind (2 ^ 31) low in
    let never : (ltb last (2 ^ 31) && leb (2 ^ 31) behind) ≡ false = ground (arith, no_wrap) in
    let whole : behind % word_mod ≡ behind = omega (arith, low) in
    let sum : add32 pages 31 ≡ pages + 31 = omega (arith, few) in
    let first : int_div (behind % word_mod) memory_page_size ≡ behind / memory_page_size =
      ap (λ n. int_div n memory_page_size) whole ∙ int_div-pos behind memory_page_size low in
    let same = int_div-pos size memory_page_size int in
    let limit : int_div (add32 (int_div size memory_page_size) 31) 32 ≡ (pages + 31) / 32 =
      ap (λ n. int_div (add32 n 31) 32) same
      ∙ ap (λ n. int_div n 32) sum
      ∙ int_div-pos (pages + 31) 32 (omega (arith, few)) in
    rw never (λ i. init_map (first i) (limit i) (same i) m)

init_map-steps :
    (start max maxpage n : ℕ) (m m' u : Memory)
    → int_rounds 0 max ≡ max
    → int_rounds start maxpage ≡ n
    → clear_loop max 0 (record m { pagestart = start; freemapmax = max }) ≡ ok tt m'
    → page_loop n start (record m' { nfreepages = 0 }) ≡ ok tt u
    → init_map start max maxpage m ≡ ok tt u
unfolding init_map
init_map-steps start max maxpage n m m' u words pages cleared filled =
    rw (words, cleared, pages) filled

-- MemoryModuleInit on a machine with at least one page and less than 2 ^ 31 bytes of memory, in which the
-- system's code fits, when the search of MemoryAllocPage is to start at the map's first word: exactly the
-- pages behind the system's code and below the end of memory are free, and their count is right.
pub memory_module_init_lem :
    (memory_size lastosaddress : ℕ) (m : Memory)
    → length m.freepages ≡ 2048
    → m.mapnum ≡ 0
    → 1 ≤ memory_size / memory_page_size
    → memory_size < 2 ^ 31
    → (lastosaddress + memory_page_size - 4) / memory_page_size ≤ memory_size / memory_page_size
    → (m' : Memory) × (memory_module_init memory_size lastosaddress m ≡ ok tt m')
      × IsMap m'
      × ((p : ℕ)
          → p < 32 * m'.freemapmax
          → free_bit m' p
            ≡ in_range
                ((lastosaddress + memory_page_size - 4) / memory_page_size)
                (memory_size / memory_page_size)
                p
                0)
memory_module_init_lem size last m len start some_page int fits =
    let pages = size / memory_page_size in
    let first = (last + memory_page_size - 4) / memory_page_size in
    let limit = (pages + 31) / 32 in
    let few : pages < 32768 = omega (arith, int) in
    let all : limit - 0 ≡ limit = omega arith in
    let rounds : int_rounds 0 limit ≡ limit =
      int_rounds-pos 0 limit (omega arith) (omega (arith, few)) ∙ all in
    let rounds' = int_rounds-pos first pages fits (omega (arith, few)) in
    let m₀ : Memory = record m { pagestart = first; freemapmax = limit } in
    let (ws, cleared, same, _, zeros) = clear_loop_lem limit 0 m₀ (omega arith) in
    let m₁ : Memory = record m₀ { freepages = ws; nfreepages = 0 } in
    let map : IsMap m₁ = record {
      room = omega arith;
      cursor = omega arith;
      words = λ i p. rw (zeros i (omega arith) (omega arith)) (omega arith);
      count = sym (
          sum_below-nothing limit (λ i. ones (word m₁ i))
            (λ k p. ones-zero (word m₁ k) (zeros k (omega arith) (omega arith))));
    } in
    let used : (p : ℕ) → p < 32 * limit → free_bit m₁ p ≡ 0 =
      λ p lt. rw (zeros (p / 32) (omega arith) (omega arith)) (bit-zero (p % 32)) in
    let (m', ran, map', limit', bits) =
      page_loop_lem (pages - first) first m₁ map (omega arith) (λ p _ lt. used p lt) in
    (
      m',
      memory_module_init-pos size last m int fits
          ∙ init_map-steps first limit pages (pages - first) m (record m₀ { freepages = ws }) m'
              rounds rounds' cleared ran,
      map',
      (λ p lt.
          let inside : p < 32 * limit = omega (arith, limit', lt) in
          let now = bits p inside in let before = used p inside in ground arith),
    )
