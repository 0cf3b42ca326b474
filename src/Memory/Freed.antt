-- ===== src/Memory/Freed.antt =====
-- Several calls of MemoryFreePage of flat/os/memory.c.
use os_lab.Prelude.{
  ℕ, ◌*◌, ◌/◌, ◌<◌, ◌^◌, ◌≡◌, ◌≢◌, refl, sym, ◌∙◌, List, [], ◌∷◌, get_elem?-eq_get_or, arith,
}
use os_lab.Os.{ok}
use os_lab.Queue.Seg.{NotIn, IsDistinct}
use os_lab.Memory.{Memory, memory_free_page, memory_set_freemap}
use os_lab.Memory.Map.{free_bit}
use os_lab.Memory.Alloc.{IsMap}
use os_lab.Memory.Pages.{returned, returned_others, returned_self, returned-IsMap, here}

abbrev pub pages_freed : Memory → List ℕ → Memory
pages_freed m [] = m
pages_freed m (p ∷ ps) = pages_freed (returned m p) ps

-- The pages are in the map and have the given bit there.
abbrev pub AreAll : ℕ → Memory → List ℕ → Type 0
AreAll bit m [] = Unit {0}
AreAll bit m (p ∷ ps) =
    (p < 2 ^ 16) × (p < 32 * m.freemapmax) × (free_bit m p ≡ bit) × AreAll bit m ps

pub memory_free_page-returned :
    (m : Memory) (p : ℕ)
    → IsMap m
    → p < 32 * m.freemapmax
    → memory_free_page p m ≡ ok tt (returned m p)
unfolding memory_free_page memory_set_freemap
memory_free_page-returned m p h lt =
    rw (get_elem?-eq_get_or m.freepages (p / 32) 0 (here m h p (omega arith)))

pub returned-AreAll :
    (bit : ℕ) (m : Memory) (p : ℕ) (ps : List ℕ)
    → IsMap m
    → p < 32 * m.freemapmax
    → NotIn p ps
    → AreAll bit m ps
    → AreAll bit (returned m p) ps
returned-AreAll bit m p [] h lt out used = tt
returned-AreAll bit m p (q ∷ ps) h lt out used =
    let other : q ≢ p = λ e. out.0 (sym e) in
    (
      used.0,
      used.1,
      returned_others m h p (omega arith) q other ∙ used.2,
      returned-AreAll bit m p ps h lt out.1 used.3,
    )

-- Different pages in use, given back: the map stays right, they are free, and no other page changes.
pub pages_freed-IsMap :
    (ps : List ℕ) (m : Memory)
    → IsMap m
    → IsDistinct ps
    → AreAll 0 m ps
    → IsMap (pages_freed m ps)
      × ((q : ℕ) → NotIn q ps → free_bit (pages_freed m ps) q ≡ free_bit m q)
      × AreAll 1 (pages_freed m ps) ps
      × ((pages_freed m ps).freemapmax ≡ m.freemapmax)
pages_freed-IsMap [] m h d used = (h, (λ q out. refl), tt, refl)
pages_freed-IsMap (p ∷ ps) m h d used =
    let inside : p / 32 < m.freemapmax = omega (arith, used.1) in
    let (map, same, all, limit) =
      pages_freed-IsMap ps (returned m p) (returned-IsMap m h p inside used.2) d.1
        (returned-AreAll 0 m p ps h used.1 d.0 used.3) in
    (
      map,
      (λ q out. same q out.1 ∙ returned_others m h p inside q out.0),
      (used.0, omega (arith, limit, used.1), same p d.0 ∙ returned_self m h p inside, all),
      limit,
    )
