-- ===== src/Memory/Copy/Pages.antt =====
-- moveBetweenSpaces of flat/os/memory.c, page by page: what a process with mapped pages gets.
use os_lab.Prelude.{
  ℕ, ◌+◌, ◌-◌, ◌*◌, ◌/◌, ◌%◌, ◌^◌, ◌≡◌, ◌≢◌, ◌<◌, ◌≤◌, ◌∙◌, ap, sym, Bool, true, false, some, List,
  get_elem?, if◌then◌else◌, arith,
}
use os_lab.Memory.{memory_page_size, memory_setup_pte}
use os_lab.Memory.Copy.{Ram, copy_bytes}
use os_lab.Memory.Copy.Bytes.{copy_bytes_lem, copy_bytes-other}

-- The address that a process's address stands for, by the physical page of each of its pages.
abbrev pub physical : (ℕ → ℕ) → ℕ → ℕ
physical frame a = frame (a / memory_page_size) * memory_page_size + a % memory_page_size

-- The process's pages have physical pages other than page 0, entered by MemorySetupPte.
pub record IsMapped (npages : ℕ) (pagetable : List ℕ) (frame : ℕ → ℕ) : Type 0 where
  pub entries : (p : ℕ) → p < npages → get_elem? pagetable p ≡ some (memory_setup_pte (frame p))
  pub physical_pages : (p : ℕ) → p < npages → (0 < frame p) × (frame p < 2 ^ 16)

physical-add :
    (frame : ℕ → ℕ) (a i : ℕ)
    → i < memory_page_size - a % memory_page_size
    → physical frame (a + i) ≡ physical frame a + i
physical-add frame a i h =
    let page : (a + i) / memory_page_size ≡ a / memory_page_size = omega arith in
    let offset : (a + i) % memory_page_size ≡ a % memory_page_size + i = omega arith in
    rw (page, offset) (omega arith)

-- Where byte `i` of a copy comes from, and where it goes.
abbrev pub source : (ℕ → ℕ) → Bool → ℕ → ℕ → ℕ → ℕ
source frame true s u i = s + i
source frame false s u i = physical frame (u + i)

abbrev pub target : (ℕ → ℕ) → Bool → ℕ → ℕ → ℕ → ℕ
target frame true s u i = physical frame (u + i)
target frame false s u i = s + i

pub source-add :
    (frame : ℕ → ℕ) (dir : Bool) (s u b i : ℕ)
    → source frame dir (s + b) (u + b) i ≡ source frame dir s u (b + i)
source-add frame true s u b i = omega arith
source-add frame false s u b i =
    let e : u + b + i ≡ u + (b + i) = omega arith in ap (λ a. physical frame a) e

pub target-add :
    (frame : ℕ → ℕ) (dir : Bool) (s u b i : ℕ)
    → target frame dir (s + b) (u + b) i ≡ target frame dir s u (b + i)
target-add frame true s u b i = source-add frame false s u b i
target-add frame false s u b i = source-add frame true s u b i

-- The machine's memory after one round.
abbrev pub round : Bool → ℕ → ℕ → ℕ → Ram → Ram
round dir b s c ram = if dir then copy_bytes b s c ram else copy_bytes b c s ram

-- No byte is written before it is read, and none is written twice.
pub record IsApart (frame : ℕ → ℕ) (dir : Bool) (s u n : ℕ) : Type 0 where
  pub reads : (i j : ℕ) → i < n → j < n → source frame dir s u i ≢ target frame dir s u j
  pub writes : (i j : ℕ) → i < n → j < n → target frame dir s u i ≡ target frame dir s u j → i ≡ j

module _ (frame : ℕ → ℕ) (s u b n : ℕ) (le : b ≤ n)
    (inside : b ≤ memory_page_size - u % memory_page_size) where
  pub round_lem :
      (dir : Bool) (ram : Ram)
      → IsApart frame dir s u n
      → (i : ℕ) → i < b
      → round dir b s (physical frame u) ram (target frame dir s u i) ≡ ram (source frame dir s u i)
  round_lem true ram apart i lt =
      let at = physical-add frame u i (omega (arith, lt)) in
      rw at (
        copy_bytes_lem b s (physical frame u) ram
          (λ j k hj hk. λ e.
            apart.reads j k (omega (arith, hj)) (omega (arith, hk))
              (e ∙ sym (physical-add frame u k (omega (arith, hk)))))
          i lt)
  round_lem false ram apart i lt =
      let at = physical-add frame u i (omega (arith, lt)) in
      rw at (
        copy_bytes_lem b (physical frame u) s ram
          (λ j k hj hk. λ e.
            apart.reads j k (omega (arith, hj)) (omega (arith, hk))
              (physical-add frame u j (omega (arith, hj)) ∙ e))
          i lt)

  pub round-other :
      (dir : Bool) (ram : Ram) (a : ℕ)
      → ((i : ℕ) → i < b → a ≢ target frame dir s u i)
      → round dir b s (physical frame u) ram a ≡ ram a
  round-other true ram a out =
      copy_bytes-other b s (physical frame u) ram a
        (λ i lt. λ e. out i lt (e ∙ sym (physical-add frame u i (omega (arith, lt)))))
  round-other false ram a out = copy_bytes-other b (physical frame u) s ram a out
