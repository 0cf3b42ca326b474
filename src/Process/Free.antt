-- ===== src/Process/Free.antt =====
-- ProcessFreeResources of flat/os/process.c gives a dead process's pages and control block back.
use mathlib.Core.List.{append_assoc}
use os_lab.Prelude.{
  ℕ, zero, suc, ◌+◌, ◌*◌, ◌/◌, ◌<◌, ◌≡◌, refl, sym, ap, ◌∙◌, some, List, [], ◌∷◌, ◌++◌, map, length,
  length-append, get_elem?, bit_and, bit_or, arith,
}
use os_lab.Os.{ok}
use os_lab.Queue.{put, free_links, queue_insert_last}
use os_lab.Queue.Seg.{NotIn, IsDistinct, put_self}
use os_lab.Queue.Model.{Models}
use os_lab.Queue.Insertion.{last_insertion}
use os_lab.Queue.Remove.{AreShort}
use os_lab.Memory.{Memory, memory_page_size, memory_setup_pte, memory_free_pte, memory_free_page}
use os_lab.Memory.Map.{free_bit}
use os_lab.Memory.Alloc.{IsMap}
use os_lab.Memory.Pages.{returned, returned_others, returned_self, returned-IsMap}
use os_lab.Memory.Pte.{memory_pte_to_page-memory_setup_pte}
use os_lab.Memory.Freed.{
  pages_freed, AreAll, memory_free_page-returned, returned-AreAll, pages_freed-IsMap,
}
use os_lab.Process.{
  System, Pcb, freepcbs, process_status_free, process_status_unmask, set_pcb, new_link, enter_queue,
  process_set_status, free_pages_loop, process_free_resources,
}
use os_lab.Process.Moves.{new_link_lem, enter_queue_lem}

get_elem?-behind {ℓ} :
    {A : Type ℓ} (xs : List A) (y : A) (ys : List A) (i : ℕ)
    → i ≡ length xs
    → get_elem? (xs ++ (y ∷ ys)) i ≡ some y
get_elem?-behind [] y ys zero e = refl
get_elem?-behind [] y ys (suc i) e = absurd (omega (arith, e))
get_elem?-behind (x ∷ xs) y ys zero e = absurd (omega (arith, e))
get_elem?-behind (x ∷ xs) y ys (suc i) e = get_elem?-behind xs y ys i (omega (arith, e))

free_pages_loop_lem :
    (pages done rest : List ℕ) (i p : ℕ) (s : System)
    → i ≡ length done
    → (s.pcbs p).pagetable ≡ done ++ (map memory_setup_pte pages ++ rest)
    → IsMap s.memory
    → IsDistinct pages
    → AreAll 0 s.memory pages
    → free_pages_loop (length pages) i p s
      ≡ ok tt (record s { memory = pages_freed s.memory pages })
unfolding free_pages_loop
free_pages_loop_lem [] done rest i p s e table h d used = refl
free_pages_loop_lem (x ∷ xs) done rest i p s e table h d used =
    let entry : get_elem? (s.pcbs p).pagetable i ≡ some (memory_setup_pte x) =
      ap (λ t. get_elem? t i) table
      ∙ get_elem?-behind done (memory_setup_pte x) (map memory_setup_pte xs ++ rest) i e in
    let freed : memory_free_pte (memory_setup_pte x) s.memory ≡ ok tt (returned s.memory x) =
      ap (λ c. c s.memory) (memory_pte_to_page-memory_setup_pte x used.0).1
      ∙ memory_free_page-returned s.memory x h used.1 in
    let step =
      free_pages_loop_lem xs (done ++ (memory_setup_pte x ∷ [])) rest (i + 1) p
        (record s { memory = returned s.memory x })
        (omega (arith, e, length-append done (memory_setup_pte x ∷ [])))
        (table
          ∙ sym (append_assoc done (memory_setup_pte x ∷ []) (map memory_setup_pte xs ++ rest)))
        (returned-IsMap s.memory h x (omega (arith, used.1)) used.2) d.1
        (returned-AreAll 0 s.memory x xs h used.1 d.0 used.3) in
    rw (entry, freed) step

-- The calls of ProcessFreeResources one after the other.
free_resources_run :
    (p : ℕ) (s s₁ s₃ s₄ : System) (m₅ : Memory)
    → new_link p s ≡ ok tt s₁
    → enter_queue queue_insert_last freepcbs p
        (set_pcb p (record (s₁.pcbs p) { flags = process_status_free }) s₁)
      ≡ ok tt s₃
    → free_pages_loop (s₃.pcbs p).npages 0 p s₃ ≡ ok tt s₄
    → memory_free_page ((s₄.pcbs p).sys_stack_area / memory_page_size) s₄.memory ≡ ok tt m₅
    → process_free_resources p s
      ≡ process_set_status p process_status_free (record s₄ { memory = m₅ })
unfolding process_free_resources
free_resources_run p s s₁ s₃ s₄ m₅ ran ran₃ loop freed = rw (ran, ran₃, loop, freed)

module _ (s : System) {m : ℕ → List ℕ} (h : Models s.store m) (short : AreShort m) (p l : ℕ)
    (ls : List ℕ) (pages rest : List ℕ) (stack : ℕ) where
  -- ProcessFreeResources of a process on no queue, when there is a free link and the process's pages and the
  -- page of its system stack are different pages in use: the control block is the last of the free
  -- ones, by a link whose object it is, "free" is its only flag, all these pages are free, no other page changes, and the
  -- map's count of free pages is right.
  pub process_free_resources_lem :
      m free_links ≡ l ∷ ls
      → (s.pcbs p).npages ≡ length pages
      → (s.pcbs p).pagetable ≡ map memory_setup_pte pages ++ rest
      → (s.pcbs p).sys_stack_area ≡ stack * memory_page_size
      → IsMap s.memory
      → IsDistinct (stack ∷ pages)
      → AreAll 0 s.memory (stack ∷ pages)
      → (s' : System) × (process_free_resources p s ≡ ok tt s')
        × Models s'.store (put (put m free_links ls) freepcbs (m freepcbs ++ (l ∷ [])))
        × ((s'.pcbs p).l ≡ some l)
        × ((s'.store.links l).object ≡ some p)
        × ((s'.pcbs p).flags ≡ process_status_free)
        × IsMap s'.memory
        × AreAll 1 s'.memory (stack ∷ pages)
        × ((q : ℕ) → NotIn q (stack ∷ pages) → free_bit s'.memory q ≡ free_bit s.memory q)
  unfolding process_set_status
  process_free_resources_lem at npages table area map_fits d used =
      let (t, ran, models, loose, holds) =
        new_link_lem s h p l ls (omega (arith, short free_links)) at in
      let b₁ : Pcb = record (s.pcbs p) { l = some l } in
      let s₁ = set_pcb p b₁ (record s { store = t }) in
      let b₂ : Pcb = record (s₁.pcbs p) { flags = process_status_free } in
      let s₂ = set_pcb p b₂ s₁ in
      let e₁ = put_self s.pcbs p b₁ in
      let e₂ = put_self s₁.pcbs p b₂ in
      let (t₃, ran₃, models₃, same) =
        enter_queue_lem last_insertion s₂ models freepcbs p l (ap (λ b. b.l) e₂ ∙ ap (λ b. b.l) e₁)
          loose (short freepcbs) in
      let s₃ = record s₂ { store = t₃ } in
      let pages₃ : (s₃.pcbs p).npages ≡ length pages =
        ap (λ b. b.npages) e₂ ∙ ap (λ b. b.npages) e₁ ∙ npages in
      let table₃ = ap (λ b. b.pagetable) e₂ ∙ ap (λ b. b.pagetable) e₁ ∙ table in
      let area₃ : (s₃.pcbs p).sys_stack_area ≡ stack * memory_page_size =
        ap (λ b. b.sys_stack_area) e₂ ∙ ap (λ b. b.sys_stack_area) e₁ ∙ area in
      let loop = free_pages_loop_lem pages [] rest 0 p s₃ refl table₃ map_fits d.1 used.3 in
      let (map₄, same₄, all₄, limit₄) = pages_freed-IsMap pages s.memory map_fits d.1 used.3 in
      let m₄ = pages_freed s.memory pages in
      let inside : stack < 32 * m₄.freemapmax = omega (arith, limit₄, used.1) in
      let freed = memory_free_page-returned m₄ stack map₄ inside in
      let number : stack * memory_page_size / memory_page_size ≡ stack = omega arith in
      let b₅ : Pcb = record (s₃.pcbs p) {
        flags = bit_or (bit_and (s₃.pcbs p).flags process_status_unmask) process_status_free;
      } in
      let e₅ = put_self s₃.pcbs p b₅ in
      let below : stack / 32 < m₄.freemapmax = omega (arith, inside) in
      (
        set_pcb p b₅ (record s₃ { memory = returned m₄ stack }),
        free_resources_run p s s₁ s₃ (record s₃ { memory = m₄ }) (returned m₄ stack) ran ran₃
            (ap (λ n. free_pages_loop n 0 p s₃) pages₃ ∙ loop)
            (ap (λ a. memory_free_page (a / memory_page_size) m₄) area₃
              ∙ ap (λ n. memory_free_page n m₄) number
              ∙ freed),
        models₃,
        ap (λ b. b.l) e₅ ∙ ap (λ b. b.l) e₂ ∙ ap (λ b. b.l) e₁,
        same l ∙ holds,
        ap (λ b. b.flags) e₅
            ∙ ap (λ b. bit_or (bit_and b.flags process_status_unmask) process_status_free) e₂,
        returned-IsMap m₄ map₄ stack below (same₄ stack d.0 ∙ used.2),
        (
          used.0,
          inside,
          returned_self m₄ map₄ stack below,
          returned-AreAll 1 m₄ stack pages map₄ inside d.0 all₄,
        ),
        (λ q out. returned_others m₄ map₄ stack below q out.0 ∙ same₄ q out.1),
      )
