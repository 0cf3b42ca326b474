-- ===== src/Memory/Pages.antt =====
-- What MemoryAllocPage and MemoryFreePage of flat/os/memory.c do to the set of free pages.
use os_lab.Prelude.{
  ℕ, ◌+◌, ◌-◌, ◌*◌, ◌/◌, ◌%◌, ◌^◌, ◌<◌, bit_and, ◌≡◌, ◌≢◌, sym, ◌∙◌, some, ◌==◌, if◌then◌else◌,
  length, set, get_or-set_self, length-set, get_elem?-eq_get_or, arith, ne→==, ==_refl,
}
use os_lab.Prelude.Bits.{bit, bit_and-lt, bit_or-lt}
use os_lab.Prelude.Word.{word_mod}
use os_lab.Os.{ok}
use os_lab.Memory.{
  Memory, invert, search_map, low_bit, memory_alloc_page, memory_free_page, memory_set_freemap,
}
use os_lab.Memory.Map.{
  sum_below-pos, bit-cleared, with_bit, bit-with_bit, ones, word, free_bit, ones-more, ones-zero,
  ones-ne,
}
use os_lab.Memory.Alloc.{
  IsMap, ahead, search_map-found, low_bit-found, set_others, set_fewer, set_more, set_words,
}

-- The map without the page that is bit `b` of word `i`.
abbrev taken : Memory → ℕ → ℕ → Memory
taken m i b = record m {
  freepages = set m.freepages i (bit_and (word m i) (invert (2 ^ b)));
  mapnum = i;
  nfreepages = m.nfreepages - 1;
}

ahead-lt : (limit c t : ℕ) → c < limit → t < limit → ahead limit c t < limit
ahead-lt limit c t p q = ground arith

-- The two searches of MemoryAllocPage end if there is a free page.
module _ (m : Memory) (h : IsMap m) (free : m.nfreepages ≢ 0) where
  searches_end :
      (i : ℕ) × (b : ℕ) × (search_map m.freemapmax m.freemapmax m.freepages m.mapnum ≡ some i)
      × (low_bit 32 (word m i) 0 ≡ some b)
      × (i < m.freemapmax)
      × (b < 32)
      × (bit b (word m i) ≡ 1)
  searches_end =
      let (t, lt, pos) =
        sum_below-pos m.freemapmax (λ i. ones (word m i)) (λ z. free (h.count ∙ z)) in
      let set_word : word m t ≢ 0 = λ z. pos (ones-zero (word m t) z) in
      let (i, found, inside, some_bit) =
        search_map-found m.freemapmax m.freemapmax m.freepages m.mapnum t h.cursor lt h.room
          set_word (ahead-lt m.freemapmax m.mapnum t h.cursor lt) in
      let (j, lt', set_bit) = ones-ne (word m i) (h.words i inside) some_bit in
      let (b, low, lt'', one) =
        low_bit-found 32 (word m i) 0 j (omega arith) (omega arith) set_bit in
      (i, b, found, low, inside, omega arith, one)

-- The map after a page has left it.
module _ (m : Memory) (h : IsMap m) (free : m.nfreepages ≢ 0) (i b : ℕ) (inside : i < m.freemapmax)
    (lt : b < 32) (one : bit b (word m i) ≡ 1) where
  cleared :
      (k : ℕ)
      → k < 32
      → bit k (bit_and (word m i) (invert (2 ^ b))) ≡ (if k == b then 0 else bit k (word m i))
  cleared k p = bit-cleared (word m i) b k p

  in_list : i < length m.freepages
  in_list = omega (arith, h.room)

  fewer : ones (bit_and (word m i) (invert (2 ^ b))) + 1 ≡ ones (word m i)
  fewer =
      let off : bit b (bit_and (word m i) (invert (2 ^ b))) ≡ 0 = cleared b lt ∙ rw (==_refl b) in
      ones-more (bit_and (word m i) (invert (2 ^ b))) (word m i) b lt
        (λ k p ne. cleared k p ∙ rw (ne→== k b ne)) (omega (arith, off, one))

  taken-IsMap : IsMap (taken m i b)
  taken-IsMap = record {
    room = rw (length-set m.freepages i (bit_and (word m i) (invert (2 ^ b)))) h.room;
    cursor = inside;
    words =
        set_words m.freepages i b (bit_and (word m i) (invert (2 ^ b))) in_list m.freemapmax
          (bit_and-lt 32 (word m i) (invert (2 ^ b)) (h.words i inside)) h.words;
    count = omega (
      arith,
      h.count,
      set_fewer m.freepages i b (bit_and (word m i) (invert (2 ^ b))) in_list m.freemapmax inside
          fewer,
    );
  }

  taken_others : (q : ℕ) → q ≢ i * 32 + b → free_bit (taken m i b) q ≡ free_bit m q
  taken_others =
      set_others m.freepages i b (bit_and (word m i) (invert (2 ^ b))) in_list
        (λ k p ne. cleared k p ∙ rw (ne→== k b ne))

  taken_self : free_bit (taken m i b) (i * 32 + b) ≡ 0
  taken_self =
      let word_number : (i * 32 + b) / 32 ≡ i = omega arith in
      let bit_number : (i * 32 + b) % 32 ≡ b = omega arith in
      rw
        (
          word_number,
          bit_number,
          get_or-set_self m.freepages i (bit_and (word m i) (invert (2 ^ b))) 0 in_list,
        )
        (cleared b lt ∙ rw (==_refl b))

-- The map after a page has come back.
abbrev pub returned : Memory → ℕ → Memory
returned m p = record m {
  freepages = set m.freepages (p / 32) (with_bit (word m (p / 32)) (p % 32));
  nfreepages = m.nfreepages + 1;
}

module _ (m : Memory) (h : IsMap m) (p : ℕ) (inside : p / 32 < m.freemapmax) where
  new_bits :
      (k : ℕ)
      → k < 32
      → bit k (with_bit (word m (p / 32)) (p % 32))
        ≡ (if k == p % 32 then 1 else bit k (word m (p / 32)))
  new_bits k lt = bit-with_bit (word m (p / 32)) (p % 32) k lt (omega arith)

  on : bit (p % 32) (with_bit (word m (p / 32)) (p % 32)) ≡ 1
  on = new_bits (p % 32) (omega arith) ∙ rw (==_refl (p % 32))

  same_bits :
      (k : ℕ)
      → k < 32
      → k ≢ p % 32
      → bit k (with_bit (word m (p / 32)) (p % 32)) ≡ bit k (word m (p / 32))
  same_bits k lt ne = new_bits k lt ∙ rw (ne→== k (p % 32) ne)

  pub here : p / 32 < length m.freepages
  here = omega (arith, h.room)

  small : with_bit (word m (p / 32)) (p % 32) < 2 ^ 32
  small =
      bit_or-lt 32 (bit_and (word m (p / 32)) (invert (2 ^ (p % 32)))) (1 * 2 ^ (p % 32) % word_mod)
        (bit_and-lt 32 (word m (p / 32)) (invert (2 ^ (p % 32))) (h.words (p / 32) inside))
        (omega arith)

  pub returned_others : (q : ℕ) → q ≢ p → free_bit (returned m p) q ≡ free_bit m q
  returned_others q ne =
      set_others m.freepages (p / 32) (p % 32) (with_bit (word m (p / 32)) (p % 32)) here same_bits
        q (λ e. ne (omega (arith, e)))

  pub returned_self : free_bit (returned m p) p ≡ 1
  returned_self =
      rw (get_or-set_self m.freepages (p / 32) (with_bit (word m (p / 32)) (p % 32)) 0 here) on

  pub returned-IsMap : free_bit m p ≡ 0 → IsMap (returned m p)
  returned-IsMap used =
      let more =
        ones-more (word m (p / 32)) (with_bit (word m (p / 32)) (p % 32)) (p % 32) (omega arith)
          (λ k lt ne. sym (same_bits k lt ne)) (omega (arith, used, on)) in
      record {
        room = rw (length-set m.freepages (p / 32) (with_bit (word m (p / 32)) (p % 32))) h.room;
        cursor = h.cursor;
        words =
            set_words m.freepages (p / 32) (p % 32) (with_bit (word m (p / 32)) (p % 32)) here
              m.freemapmax small h.words;
        count = omega (
          arith,
          h.count,
          set_more m.freepages (p / 32) (p % 32) (with_bit (word m (p / 32)) (p % 32)) here
              m.freemapmax inside more,
        );
      }

-- MemoryAllocPage with a free page in the map returns: its searches end. It gives a page of the map
-- that was free and is not free any more; every other page is free exactly if it was before, and the
-- count of free pages is right again.
pub memory_alloc_page_lem :
    (m : Memory)
    → IsMap m
    → m.nfreepages ≢ 0
    → (p : ℕ) × (m' : Memory) × (memory_alloc_page m ≡ ok p m')
      × (p < 32 * m.freemapmax)
      × (free_bit m p ≡ 1)
      × (free_bit m' p ≡ 0)
      × ((q : ℕ) → q ≢ p → free_bit m' q ≡ free_bit m q)
      × IsMap m'
unfolding memory_alloc_page
memory_alloc_page_lem m h free =
    let (i, b, found, low, inside, lt, one) = searches_end m h free in
    let at = get_elem?-eq_get_or m.freepages i 0 (in_list m h free i b inside lt one) in
    let word_number : (i * 32 + b) / 32 ≡ i = omega arith in
    let bit_number : (i * 32 + b) % 32 ≡ b = omega arith in
    (
      i * 32 + b,
      taken m i b,
      rw (ne→== m.nfreepages 0 free, found, at, low),
      omega arith,
      rw (word_number, bit_number) one,
      taken_self m h free i b inside lt one,
      taken_others m h free i b inside lt one,
      taken-IsMap m h free i b inside lt one,
    )

-- MemoryFreePage of a page in use makes it free; every other page is as free as before, and the count
-- of free pages stays right.
pub memory_free_page_lem :
    (m : Memory) (p : ℕ)
    → IsMap m
    → p < 32 * m.freemapmax
    → free_bit m p ≡ 0
    → (m' : Memory) × (memory_free_page p m ≡ ok tt m')
      × (free_bit m' p ≡ 1)
      × ((q : ℕ) → q ≢ p → free_bit m' q ≡ free_bit m q)
      × IsMap m'
unfolding memory_free_page memory_set_freemap
memory_free_page_lem m p h lt used =
    let inside : p / 32 < m.freemapmax = omega arith in
    let at = get_elem?-eq_get_or m.freepages (p / 32) 0 (here m h p inside) in
    (
      returned m p,
      rw at,
      returned_self m h p inside,
      returned_others m h p inside,
      returned-IsMap m h p inside used,
    )
