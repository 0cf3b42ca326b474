-- ===== src/Memory/Copy/Move.antt =====
-- The loop of moveBetweenSpaces of flat/os/memory.c, over all of its rounds.
use os_lab.Prelude.{
  ℕ, zero, suc, ◌+◌, ◌-◌, ◌*◌, ◌/◌, ◌%◌, ◌≡◌, ◌≢◌, ◌<◌, ◌≤◌, ◌∙◌, ap, refl, sym, subst, Bool, some,
  List, arith, dec_lt, ne→==,
}
use os_lab.Os.{ok}
use os_lab.Memory.{memory_page_size, memory_translate_user_to_system}
use os_lab.Memory.Pte.{memory_translate_user_to_system-memory_setup_pte}
use os_lab.Memory.Copy.{Ram, bytes_to_copy, move_loop}
use os_lab.Memory.Copy.Pages.{
  physical, IsMapped, source, target, source-add, target-add, round, IsApart, round_lem,
  round-other,
}

-- One round, behind a translation that succeeds.
move_loop-round :
    (fuel npages : ℕ) (pagetable : List ℕ) (dir : Bool) (s u n copied q : ℕ) (ram : Ram)
    → 0 < n
    → 0 < q
    → memory_translate_user_to_system npages pagetable u ≡ some q
    → move_loop (suc fuel) npages pagetable dir s u n copied ram
      ≡ move_loop fuel npages pagetable dir
          (s + bytes_to_copy q n)
          (u + bytes_to_copy q n)
          (n - bytes_to_copy q n)
          (copied + bytes_to_copy q n)
          (round dir (bytes_to_copy q n) s q ram)
unfolding move_loop
move_loop-round fuel npages pagetable dir s u n copied zero ram pos some_page at =
    absurd (omega (arith, some_page))
move_loop-round fuel npages pagetable dir s u n copied (suc c) ram pos some_page at =
    rw (ne→== n 0 (λ e. absurd (omega (arith, e, pos))), at) refl

move_loop-end :
    (fuel npages : ℕ) (pagetable : List ℕ) (dir : Bool) (s u copied : ℕ) (ram : Ram)
    → move_loop fuel npages pagetable dir s u 0 copied ram ≡ ok copied ram
unfolding move_loop
move_loop-end zero npages pagetable dir s u copied ram = refl
move_loop-end (suc fuel) npages pagetable dir s u copied ram = refl

-- All bytes have arrived, and no other address has changed.
pub record HasMoved (frame : ℕ → ℕ) (dir : Bool) (s u n : ℕ) (ram ram' : Ram) : Type 0 where
  pub arrived : (i : ℕ) → i < n → ram' (target frame dir s u i) ≡ ram (source frame dir s u i)
  pub others : (a : ℕ) → ((i : ℕ) → i < n → a ≢ target frame dir s u i) → ram' a ≡ ram a

-- The bytes of a round.
bytes_to_copy_bounds :
    (frame : ℕ → ℕ) (u n : ℕ)
    → 0 < n
    → (0 < bytes_to_copy (physical frame u) n)
      × (bytes_to_copy (physical frame u) n ≤ n)
      × (bytes_to_copy (physical frame u) n ≤ memory_page_size - u % memory_page_size)
bytes_to_copy_bounds frame u n pos =
    let offset : physical frame u % memory_page_size ≡ u % memory_page_size = omega arith in
    rw offset (ground arith, ground arith, ground arith)

module _ (frame : ℕ → ℕ) (dir : Bool) (s u b n : ℕ) (le : b ≤ n) where
  rest-IsApart : IsApart frame dir s u n → IsApart frame dir (s + b) (u + b) (n - b)
  rest-IsApart apart = record {
    reads = λ i j hi hj. λ e.
        apart.reads (b + i) (b + j) (omega (arith, hi)) (omega (arith, hj))
          (sym (source-add frame dir s u b i) ∙ e ∙ target-add frame dir s u b j);
    writes = λ i j hi hj e.
        let same =
          apart.writes (b + i) (b + j) (omega (arith, hi)) (omega (arith, hj))
            (sym (target-add frame dir s u b i) ∙ e ∙ target-add frame dir s u b j) in
        omega (arith, same);
  }

  -- One round, and the rounds behind it.
  joined :
      (ram ram' : Ram)
      → b ≤ memory_page_size - u % memory_page_size
      → IsApart frame dir s u n
      → HasMoved frame dir (s + b) (u + b) (n - b) (round dir b s (physical frame u) ram) ram'
      → HasMoved frame dir s u n ram ram'
  joined ram ram' inside apart moved = record {
    arrived = λ i lt. elim (dec_lt i b) [
      | yes early ↦
          moved.others (target frame dir s u i) (λ j hj. λ e.
            let same =
              apart.writes i (b + j) lt (omega (arith, hj)) (e ∙ target-add frame dir s u b j) in
            absurd (omega (arith, same, early)))
          ∙ round_lem frame s u b n le inside dir ram apart i early
      | no later ↦
          let k = i - b in
          let at : b + k ≡ i = omega (arith, later) in
          let here : k < n - b = omega (arith, later, lt) in
          let from = source-add frame dir s u b k ∙ ap (λ j. source frame dir s u j) at in
          let to = target-add frame dir s u b k ∙ ap (λ j. target frame dir s u j) at in
          subst (λ a. ram' a ≡ ram (source frame dir s u i)) to
            (moved.arrived k here
              ∙ round-other frame s u b n le inside dir ram (source frame dir (s + b) (u + b) k)
                  (λ j hj. λ e. apart.reads i j lt (omega (arith, hj, le)) (sym from ∙ e))
              ∙ ap ram from)
    ];
    others = λ a out.
        moved.others a
          (λ j hj. λ e. out (b + j) (omega (arith, hj)) (e ∙ target-add frame dir s u b j))
        ∙ round-other frame s u b n le inside dir ram a
            (λ j hj. λ e. out j (omega (arith, hj, le)) e);
  }

module _ {npages : ℕ} {pagetable : List ℕ} {frame : ℕ → ℕ}
    (mapped : IsMapped npages pagetable frame) (dir : Bool) where
  pub move_loop_lem :
      (fuel s u n copied : ℕ) (ram : Ram)
      → n ≤ fuel
      → u + n ≤ npages * memory_page_size
      → IsApart frame dir s u n
      → (ram' : Ram) × (move_loop fuel npages pagetable dir s u n copied ram ≡ ok (copied + n) ram')
        × HasMoved frame dir s u n ram ram'
  move_loop_lem fuel s u zero copied ram enough inside apart =
      let sum : copied + 0 ≡ copied = omega arith in
      (
        ram,
        move_loop-end fuel npages pagetable dir s u copied ram ∙ ap (λ k. ok k ram) (sym sum),
        record { arrived = λ i lt. absurd (omega (arith, lt)); others = λ a out. refl },
      )
  move_loop_lem zero s u (suc m) copied ram enough inside apart = absurd (omega (arith, enough))
  move_loop_lem (suc fuel) s u (suc m) copied ram enough inside apart =
      let n = suc m in
      let page : u / memory_page_size < npages = omega (arith, inside) in
      let q = physical frame u in
      let (some_page, small) = mapped.physical_pages (u / memory_page_size) page in
      let at =
        memory_translate_user_to_system-memory_setup_pte npages pagetable u
          (frame (u / memory_page_size)) page small (mapped.entries (u / memory_page_size) page) in
      let b = bytes_to_copy q n in
      let (pos, le, left) = bytes_to_copy_bounds frame u n (omega arith) in
      let (ram', ran, moved) =
        move_loop_lem fuel (s + b) (u + b) (n - b) (copied + b) (round dir b s q ram)
          (omega (arith, pos, enough)) (omega (arith, le, inside))
          (rest-IsApart frame dir s u b n le apart) in
      let sum : copied + b + (n - b) ≡ copied + n = omega (arith, le) in
      (
        ram',
        move_loop-round fuel npages pagetable dir s u n copied q ram (omega arith)
              (omega (arith, some_page)) at
            ∙ ran
            ∙ ap (λ k. ok k ram') sum,
        joined frame dir s u b n le ram ram' left apart moved,
      )
