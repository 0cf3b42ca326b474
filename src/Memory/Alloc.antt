-- ===== src/Memory/Alloc.antt =====
-- MemoryAllocPage and MemoryFreePage of flat/os/memory.c.
use os_lab.Prelude.{
  ℕ, zero, suc, ◌+◌, ◌-◌, ◌*◌, ◌/◌, ◌%◌, ◌^◌, ◌<◌, ◌≤◌, ◌≡◌, ◌≢◌, sym, ◌∙◌, some, List, ltb, leb,
  if◌then◌else◌, length, get_or, get_elem?, set, get_or-set_self, get_or-set_ne,
  get_elem?-eq_get_or, arith, ℕ_discrete, ne→==, true, eq→==,
}
use os_lab.Prelude.Bits.{bit, bit-le, bit_test}
use os_lab.Memory.{Memory, search_map, low_bit}
use os_lab.Memory.Map.{sum_below, sum_below-more, ones, word, free_pages}

-- The map's words are words, the search starts inside, and the count of free pages is right.
pub record IsMap (m : Memory) : Type 0 where
  pub room : m.freemapmax ≤ length m.freepages
  pub cursor : m.mapnum < m.freemapmax
  pub words : (i : ℕ) → i < m.freemapmax → word m i < 2 ^ 32
  pub count : m.nfreepages ≡ free_pages m

-- How far word `t` is ahead of word `c` on the way round.
abbrev pub ahead : ℕ → ℕ → ℕ → ℕ
ahead limit c t = if leb c t then t - c else limit - c + t

module _ (n limit : ℕ) (pages : List ℕ) (c : ℕ) {w : ℕ} (at : get_elem? pages c ≡ some w) where
  search_map-next :
      w ≡ 0
      → search_map (suc n) limit pages c
        ≡ search_map n limit pages (if leb limit (c + 1) then 0 else c + 1)
  unfolding search_map
  search_map-next e = rw (at, search_map) (rw (eq→== w 0 e))

  search_map-stop : w ≢ 0 → search_map (suc n) limit pages c ≡ some c
  unfolding search_map
  search_map-stop e = rw (at, search_map) (rw (ne→== w 0 e))

pub search_map-found :
    (n limit : ℕ) (pages : List ℕ) (c t : ℕ)
    → c < limit
    → t < limit
    → limit ≤ length pages
    → get_or pages t 0 ≢ 0
    → ahead limit c t < n
    → (i : ℕ) × (search_map n limit pages c ≡ some i) × (i < limit) × (get_or pages i 0 ≢ 0)
unfolding search_map
search_map-found zero limit pages c t hc ht room free near = absurd (omega arith)
search_map-found (suc n) limit pages c t hc ht room free near =
    let at = get_elem?-eq_get_or pages c 0 (omega arith) in
    elim (ℕ_discrete (get_or pages c 0) 0) [
      | no ne ↦ (c, search_map-stop n limit pages c at ne, hc, ne)
      | yes e ↦
          let other : c ≢ t = λ same. free (rw (sym same) e) in
          let c' = if leb limit (c + 1) then 0 else c + 1 in
          let nearer : ahead limit c' t < n = ground arith in
          let inside : c' < limit = ground arith in
          let (i, found, lt, pos) =
            search_map-found n limit pages c' t inside ht room free nearer in
          (i, search_map-next n limit pages c at e ∙ found, lt, pos)
    ]

pub low_bit-found :
    (n v i j : ℕ)
    → i ≤ j
    → j < i + n
    → bit j v ≢ 0
    → (b : ℕ) × (low_bit n v i ≡ some b) × (b < i + n) × (bit b v ≡ 1)
unfolding low_bit
low_bit-found zero v i j h k set = absurd (omega arith)
low_bit-found (suc n) v i j h k set = elim (ℕ_discrete (bit i v) 0) [
  | no ne ↦ (i, rw (bit_test i v, ne→== _ 0 ne), omega arith, omega (arith, bit-le i v, ne))
  | yes e ↦
      let other : i ≢ j = λ same. set (rw (sym same) e) in
      let (b, found, lt, one) =
        low_bit-found n v (i + 1) j (omega (arith, other)) (omega arith) set in
      (b, rw (bit_test i v, eq→== _ 0 e) found, omega arith, one)
]

-- Bit `b` of word `i` of the map changes, and no other.
module _ (pages : List ℕ) (i b v : ℕ) (inside : i < length pages) where
  pub set_others :
      ((k : ℕ) → k < 32 → k ≢ b → bit k v ≡ bit k (get_or pages i 0))
      → (q : ℕ) → q ≢ i * 32 + b
      → bit (q % 32) (get_or (set pages i v) (q / 32) 0) ≡ bit (q % 32) (get_or pages (q / 32) 0)
  set_others same q other = elim (ℕ_discrete i (q / 32)) [
    | yes e ↦
        let k : q % 32 ≢ b = λ z. other (omega (arith, e, z)) in
        rw (sym e, get_or-set_self pages i v 0 inside) (same (q % 32) (omega arith) k)
    | no ne ↦ rw (get_or-set_ne pages i (q / 32) v 0 ne)
  ]

  module _ (limit : ℕ) (below : i < limit) where
    pub set_fewer :
        ones v + 1 ≡ ones (get_or pages i 0)
        → sum_below limit (λ j. ones (get_or (set pages i v) j 0)) + 1
          ≡ sum_below limit (λ j. ones (get_or pages j 0))
    set_fewer one =
        let self = get_or-set_self pages i v 0 inside in
        let more =
          sum_below-more limit i (λ j. ones (get_or (set pages i v) j 0))
            (λ j. ones (get_or pages j 0))
            (λ k p ne. rw (get_or-set_ne pages i k v 0 (λ e. ne (sym e)))) (rw self one) in
        let t : ltb i limit ≡ true = ground arith in rw t at more

    pub set_more :
        ones (get_or pages i 0) + 1 ≡ ones v
        → sum_below limit (λ j. ones (get_or pages j 0)) + 1
          ≡ sum_below limit (λ j. ones (get_or (set pages i v) j 0))
    set_more one =
        let self = get_or-set_self pages i v 0 inside in
        let more =
          sum_below-more limit i (λ j. ones (get_or pages j 0))
            (λ j. ones (get_or (set pages i v) j 0))
            (λ k p ne. rw (get_or-set_ne pages i k v 0 (λ e. ne (sym e)))) (rw self one) in
        let t : ltb i limit ≡ true = ground arith in rw t at more

  pub set_words :
      (limit : ℕ)
      → v < 2 ^ 32
      → ((j : ℕ) → j < limit → get_or pages j 0 < 2 ^ 32)
      → (j : ℕ) → j < limit
      → get_or (set pages i v) j 0 < 2 ^ 32
  set_words limit small words j lt = elim (ℕ_discrete i j) [
    | yes e ↦ rw (sym e, get_or-set_self pages i v 0 inside) small
    | no ne ↦ rw (get_or-set_ne pages i j v 0 ne) (words j lt)
  ]
