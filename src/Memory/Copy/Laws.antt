-- ===== src/Memory/Copy/Laws.antt =====
-- MemoryCopySystemToUser and MemoryCopyUserToSystem of flat/os/memory.c.
use os_lab.Prelude.{
  ℕ, ◌+◌, ◌*◌, ◌/◌, ◌^◌, ◌≡◌, ◌≢◌, ◌<◌, ◌≤◌, ◌∙◌, ap, refl, true, false, List, arith, lt→leb,
}
use os_lab.Os.{ok, ◌>>◌}
use os_lab.Memory.{memory_page_size}
use os_lab.Memory.Copy.{
  Ram, move_between_spaces, memory_copy_system_to_user, memory_copy_user_to_system,
}
use os_lab.Memory.Copy.Pages.{physical, IsMapped, IsApart}
use os_lab.Memory.Copy.Move.{move_loop_lem}

-- Different pages of the process have different physical pages.
abbrev pub AreDistinct : ℕ → (ℕ → ℕ) → Type 0
AreDistinct npages frame = (p q : ℕ) → p < npages → q < npages → frame p ≡ frame q → p ≡ q

-- A buffer of the system lies below the physical pages of the process.
abbrev pub IsBelow : ℕ → (ℕ → ℕ) → ℕ → ℕ → Type 0
IsBelow npages frame s n = (p : ℕ) → p < npages → s + n ≤ frame p * memory_page_size

to_user-IsApart :
    (npages : ℕ) (frame : ℕ → ℕ) (s u n : ℕ)
    → AreDistinct npages frame
    → IsBelow npages frame s n
    → u + n ≤ npages * memory_page_size
    → IsApart frame true s u n
to_user-IsApart npages frame s u n distinct below inside = record {
  reads = λ i j hi hj. λ e.
      absurd (omega (arith, e, hi, below ((u + j) / memory_page_size) (omega (arith, hj, inside))));
  writes = λ i j hi hj e.
      let p = (u + i) / memory_page_size in
      let q = (u + j) / memory_page_size in
      let same_frame : frame p ≡ frame q = omega (arith, e) in
      let same_page : p ≡ q =
        distinct p q (omega (arith, hi, inside)) (omega (arith, hj, inside)) same_frame in
      omega (arith, e, same_frame, same_page);
}

to_system-IsApart :
    (npages : ℕ) (frame : ℕ → ℕ) (s u n : ℕ)
    → IsBelow npages frame s n
    → u + n ≤ npages * memory_page_size
    → IsApart frame false s u n
to_system-IsApart npages frame s u n below inside = record {
  reads = λ i j hi hj. λ e.
      absurd (omega (arith, e, hj, below ((u + i) / memory_page_size) (omega (arith, hi, inside))));
  writes = λ i j hi hj e. omega (arith, e);
}

module _ (npages : ℕ) (pagetable : List ℕ) (frame : ℕ → ℕ) (s u n : ℕ) (ram : Ram) where
  -- MemoryCopySystemToUser of `n` bytes, fewer than 2 ^ 31, into pages that the process has
  -- returns `n`, in whatever way the bytes lie across pages: byte `i` arrives at the physical
  -- address of the process's address `u + i`, and no other byte of the machine changes. The
  -- process's pages have entries by MemorySetupPte and are all different, and the system's buffer
  -- lies below them.
  pub memory_copy_system_to_user_lem :
      IsMapped npages pagetable frame
      → AreDistinct npages frame
      → IsBelow npages frame s n
      → u + n ≤ npages * memory_page_size
      → n < 2 ^ 31
      → (ram' : Ram) × (memory_copy_system_to_user npages pagetable s u n ram ≡ ok n ram')
        × ((i : ℕ) → i < n → ram' (physical frame (u + i)) ≡ ram (s + i))
        × ((a : ℕ) → ((i : ℕ) → i < n → a ≢ physical frame (u + i)) → ram' a ≡ ram a)
  unfolding memory_copy_system_to_user move_between_spaces
  memory_copy_system_to_user_lem mapped distinct below inside small =
      let (ram', ran, moved) =
        move_loop_lem mapped true n s u n 0 ram (omega arith) inside
          (to_user-IsApart npages frame s u n distinct below inside) in
      let sum : 0 + n ≡ n = omega arith in
      (
        ram',
        rw (lt→leb n (2 ^ 31) small) (ran ∙ ap (λ k. ok k ram') sum),
        moved.arrived,
        moved.others,
      )

  -- MemoryCopyUserToSystem, likewise: the bytes arrive in the system's buffer, and no other byte changes.
  pub memory_copy_user_to_system_lem :
      IsMapped npages pagetable frame
      → IsBelow npages frame s n
      → u + n ≤ npages * memory_page_size
      → n < 2 ^ 31
      → (ram' : Ram) × (memory_copy_user_to_system npages pagetable u s n ram ≡ ok n ram')
        × ((i : ℕ) → i < n → ram' (s + i) ≡ ram (physical frame (u + i)))
        × ((a : ℕ) → ((i : ℕ) → i < n → a ≢ s + i) → ram' a ≡ ram a)
  unfolding memory_copy_user_to_system move_between_spaces
  memory_copy_user_to_system_lem mapped below inside small =
      let (ram', ran, moved) =
        move_loop_lem mapped false n s u n 0 ram (omega arith) inside
          (to_system-IsApart npages frame s u n below inside) in
      let sum : 0 + n ≡ n = omega arith in
      (
        ram',
        rw (lt→leb n (2 ^ 31) small) (ran ∙ ap (λ k. ok k ram') sum),
        moved.arrived,
        moved.others,
      )

-- What MemoryCopySystemToUser puts into a process's pages, MemoryCopyUserToSystem brings back,
-- into any other buffer or the same: the two calls return the number of bytes, fewer than 2 ^ 31,
-- and the second buffer then holds what the first one held. The process has the pages, with
-- entries by MemorySetupPte, they are all different, and both of the system's buffers lie below
-- them.
pub memory_copy_user_to_system-memory_copy_system_to_user :
    (npages : ℕ) (pagetable : List ℕ) (frame : ℕ → ℕ) (s s' u n : ℕ) (ram : Ram)
    → IsMapped npages pagetable frame
    → AreDistinct npages frame
    → IsBelow npages frame s n
    → IsBelow npages frame s' n
    → u + n ≤ npages * memory_page_size
    → n < 2 ^ 31
    → (ram' : Ram) × ((memory_copy_system_to_user npages pagetable s u n
            >> memory_copy_user_to_system npages pagetable u s' n)
          ram
        ≡ ok n ram')
      × ((i : ℕ) → i < n → ram' (s' + i) ≡ ram (s + i))
memory_copy_user_to_system-memory_copy_system_to_user npages pagetable frame s s' u n ram mapped
      distinct below below' inside small =
    let (ram₁, ran₁, there, others₁) =
      memory_copy_system_to_user_lem npages pagetable frame s u n ram mapped distinct below inside
        small in
    let (ram₂, ran₂, back, others₂) =
      memory_copy_user_to_system_lem npages pagetable frame s' u n ram₁ mapped below' inside
        small in
    (ram₂, rw (ran₁, ran₂) refl, λ i lt. back i lt ∙ there i lt)
