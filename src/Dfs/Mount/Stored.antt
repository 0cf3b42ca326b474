-- ===== src/Dfs/Mount/Stored.antt =====
-- The nested loops of DfsCloseFileSystem in flat/os/dfs.c that write an array to consecutive disk
-- blocks.
use os_lab.Prelude.{
  ℕ, zero, suc, ◌+◌, ◌-◌, ◌*◌, ◌%◌, ◌^◌, ◌≡◌, ◌≢◌, [], ◌<◌, ◌≤◌, ◌⊎◌, ◌∙◌, ap, sym, refl, subst,
  true, inl, inr, List, ◌++◌, length, take, drop, arith, dec_lt, ne→==, ==_refl, take-append-drop,
  drop_all, ◌∷◌,
}
use os_lab.Os.{Cmd, ok, Event, fs_write, Env}
use os_lab.Dfs.{State, disk_numblocks, Succeeds}
use os_lab.Disk.{disk_bytes_per_block, put_block}
use os_lab.Disk.Laws.{transfer, disk_write_block-ok}
use os_lab.Dfs.Mount.{write_disk_block, inner_loop, outer_loop}

-- The disk `e` is `d` with so many blocks from block `first` on that hold the bytes from `at` on.
pub record Stored (bytes : List ℕ) (first at n : ℕ) (d e : ℕ → List ℕ) : Type 0 where
  pub inside : (k : ℕ) → k < n → e (first + k) ≡ take 512 (drop (at + 512 * k) bytes)
  pub outside : (m : ℕ) → (m < first) ⊎ (first + n ≤ m) → e m ≡ d m

Stored-none : (bytes : List ℕ) (first at : ℕ) (d : ℕ → List ℕ) → Stored bytes first at 0 d d
Stored-none bytes first at d = record {
  inside = λ k lt. absurd (omega (arith, lt));
  outside = λ m out. refl;
}

Stored-cons :
    (bytes : List ℕ) (first first' at at' a b n : ℕ) (d e f : ℕ → List ℕ)
    → first' ≡ first + a
    → at' ≡ at + 512 * a
    → n ≡ a + b
    → Stored bytes first at a d e
    → Stored bytes first' at' b e f
    → Stored bytes first at n d f
Stored-cons bytes first first' at at' a b n d e f next next_at total s t = record {
  inside = λ k lt. elim (dec_lt k a) [
    | yes low ↦ t.outside (first + k) (inl (omega (arith, next, low))) ∙ s.inside k low
    | no high ↦
        let (j, sum) : (j : ℕ) × (k ≡ a + j) = difference k a (omega (arith, high)) in
        let place : first + k ≡ first' + j = omega (arith, sum, next) in
        let from : at' + 512 * j ≡ at + 512 * k = omega (arith, sum, next_at) in
        ap f place
        ∙ t.inside j (omega (arith, sum, lt, total))
        ∙ ap (λ o. take 512 (drop o bytes)) from
  ];
  outside = λ m out. elim out [
    | inl low ↦ t.outside m (inl (omega (arith, low, next))) ∙ s.outside m (inl low)
    | inr high ↦
        t.outside m (inr (omega (arith, high, next, total)))
        ∙ s.outside m (inr (omega (arith, high, total)))
  ];
}
  where
    difference : (k a : ℕ) → a ≤ k → (j : ℕ) × (k ≡ a + j)
    difference k a le = (k - a, omega (arith, le))

-- The blocks of a disk, one after the other.
abbrev pub blocks_from : (ℕ → List ℕ) → ℕ → ℕ → List ℕ
blocks_from d first zero = []
blocks_from d first (suc n) = d first ++ blocks_from d (first + 1) n

drop-drop : (n k : ℕ) (xs : List ℕ) → drop k (drop n xs) ≡ drop (n + k) xs
drop-drop zero k xs = let none : 0 + k ≡ k = omega arith in ap (λ m. drop m xs) (sym none)
drop-drop (suc n) k [] = drop_all k [] (omega arith) ∙ sym (drop_all (suc n + k) [] (omega arith))
drop-drop (suc n) k (x ∷ xs) =
    let next : suc n + k ≡ suc (n + k) = omega arith in
    drop-drop n k xs ∙ ap (λ m. drop m (x ∷ xs)) (sym next)

-- Blocks that hold the bytes from `at` on to the end are those bytes.
pub blocks_from-inside :
    (bytes : List ℕ) (e : ℕ → List ℕ) (n first at : ℕ)
    → ((k : ℕ) → k < n → e (first + k) ≡ take 512 (drop (at + 512 * k) bytes))
    → at + 512 * n ≡ length bytes
    → blocks_from e first n ≡ drop at bytes
blocks_from-inside bytes e zero first at inside size = sym (drop_all at bytes (omega (arith, size)))
blocks_from-inside bytes e (suc n) first at inside size =
    let none : first + 0 ≡ first = omega arith in
    let none' : at + 512 * 0 ≡ at = omega arith in
    let head : e first ≡ take 512 (drop at bytes) =
      ap e (sym none) ∙ inside 0 (omega arith) ∙ ap (λ o. take 512 (drop o bytes)) none' in
    let tail : blocks_from e (first + 1) n ≡ drop (at + 512) bytes =
      blocks_from-inside bytes e n (first + 1) (at + 512)
        (λ k lt.
          let place : first + 1 + k ≡ first + (k + 1) = omega arith in
          let from : at + 512 * (k + 1) ≡ at + 512 + 512 * k = omega arith in
          ap e place ∙ inside (k + 1) (omega (arith, lt)) ∙ ap (λ o. take 512 (drop o bytes)) from)
        (omega (arith, size)) in
    (λ i. head i ++ tail i)
    ∙ ap (λ t. take 512 (drop at bytes) ++ t) (sym (drop-drop at 512 bytes))
    ∙ take-append-drop 512 (drop at bytes)

abbrev pub with_disk : State → (ℕ → List ℕ) → List Event → State
with_disk s d h = record s { disk = d; history = h }

-- Reading memory does not depend on the disk: `load` gives the bytes of an array of state `s`.
pub record Loads (s : State) (bytes : List ℕ) (load : ℕ → Cmd State (List ℕ)) : Type 0 where
  pub loads :
      (d : ℕ → List ℕ) (h : List Event) (at : ℕ)
      → at + 512 ≤ length bytes
      → load at (with_disk s d h) ≡ ok (take 512 (drop at bytes)) (with_disk s d h)

put-Stored :
    (bytes : List ℕ) (n at : ℕ) (s : State)
    → Stored bytes n at 1 s.disk (put_block n (take 512 (drop at bytes)) s).disk
put-Stored bytes n at s = record {
  inside = λ k lt.
      let same : n + k ≡ n = omega (arith, lt) in
      let here : at + 512 * k ≡ at = omega (arith, lt) in rw (same, here, ==_refl n) refl;
  outside = λ m out. rw (ne→== m n (other m out)) refl;
}
  where
    other : (m : ℕ) → (m < n) ⊎ (n + 1 ≤ m) → m ≢ n
    other m (inl lt) = λ e. absurd (omega (arith, lt, e))
    other m (inr lt) = λ e. absurd (omega (arith, lt, e))

module _ (env : Env) (succeeds : Succeeds env) (s : State) (bytes : List ℕ)
    (load : ℕ → Cmd State (List ℕ)) (reads : Loads s bytes load) where
  write-Stored :
      (n at : ℕ) (d : ℕ → List ℕ) (h : List Event)
      → n < disk_numblocks
      → at + 512 ≤ length bytes
      → (e : ℕ → List ℕ) × (write_disk_block env load (n % 2 ^ 32) at (with_disk s d h)
          ≡ ok true (with_disk s e (transfer fs_write n h)))
        × Stored bytes n at 1 d e
  unfolding disk_bytes_per_block
  write-Stored n at d h small room =
      let number : n % 2 ^ 32 ≡ n = omega (arith, small) in
      (
        (put_block n (take 512 (drop at bytes)) (with_disk s d h)).disk,
        rw
            (
              number,
              reads.loads d h at room,
              disk_write_block-ok env succeeds n (take 512 (drop at bytes)) (with_disk s d h) small,
            )
            refl,
        put-Stored bytes n at (with_disk s d h),
      )

  pub inner_loop-Stored :
      (n base j at : ℕ) (d : ℕ → List ℕ) (h : List Event)
      → base + j + n ≤ disk_numblocks
      → at + 512 * n ≤ length bytes
      → (e : ℕ → List ℕ) × (h' : List Event) × (inner_loop env
            (write_disk_block env load)
            n
            base
            j
            at
            (with_disk s d h)
          ≡ ok true (with_disk s e h'))
        × Stored bytes (base + j) at n d e
  unfolding inner_loop disk_bytes_per_block
  inner_loop-Stored zero base j at d h small room = (d, h, refl, Stored-none bytes (base + j) at d)
  inner_loop-Stored (suc n) base j at d h small room =
      let (e, ran, one) =
        write-Stored (base + j) at d h (omega (arith, small)) (omega (arith, room)) in
      let (f, h', ran', more) =
        inner_loop-Stored n base (j + 1) (at + 512) e (transfer fs_write (base + j) h)
          (omega (arith, small)) (omega (arith, room)) in
      (
        f,
        h',
        rw ran ran',
        Stored-cons bytes (base + j) (base + (j + 1)) at (at + 512) 1 n (suc n) d e f (omega arith)
            (omega arith) (omega arith) one more,
      )

  -- `2` disk blocks for each file system block of 1024 bytes.
  pub outer_loop-Stored :
      (n i at : ℕ) (d : ℕ → List ℕ) (h : List Event)
      → 2 * (i + n) ≤ disk_numblocks
      → at + 1024 * n ≤ length bytes
      → (e : ℕ → List ℕ) × (h' : List Event) × (outer_loop env
            (write_disk_block env load)
            n
            2
            i
            at
            (with_disk s d h)
          ≡ ok true (with_disk s e h'))
        × Stored bytes (2 * i) at (2 * n) d e
  unfolding outer_loop disk_bytes_per_block
  outer_loop-Stored zero i at d h small room = (d, h, refl, Stored-none bytes (2 * i) at d)
  outer_loop-Stored (suc n) i at d h small room =
      let (e, h₁, ran, two) =
        inner_loop-Stored 2 (2 * i) 0 at d h (omega (arith, small)) (omega (arith, room)) in
      let (f, h₂, ran', more) =
        outer_loop-Stored n (i + 1) (at + 1024) e h₁ (omega (arith, small)) (omega (arith, room)) in
      let start : 2 * i + 0 ≡ 2 * i = omega arith in
      (
        f,
        h₂,
        rw ran ran',
        Stored-cons bytes (2 * i) (2 * (i + 1)) at (at + 1024) 2 (2 * n) (2 * suc n) d e f
            (omega arith) (omega arith) (omega arith)
            (subst (λ b. Stored bytes b at 2 d e) start two) more,
      )
