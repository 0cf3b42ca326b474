-- ===== src/Queue/Pool.antt =====
-- AQueueModuleInit of flat/os/queue.c makes the pool of free links.
use os_lab.Prelude.{
  ℕ, zero, suc, ◌+◌, ◌≡◌, ◌≢◌, ◌<◌, ◌≤◌, refl, ap, ◌∙◌, subst, none, List, [], ◌∷◌, ◌++◌, length,
  length-append, arith,
}
use native.Mathlib.Nat.{add-zero}
use os_lab.Prelude.Word.{word_mod}
use os_lab.Os.{ok}
use os_lab.Queue.{
  Link, Queue, Store, free_links, queue_success, queue_max_links, put, queue_init, free_loop,
  queue_module_init,
}
use os_lab.Queue.Seg.{NotIn, put-ne}
use os_lab.Queue.Model.{Holds, Models, place-Models}
use os_lab.Queue.Insert.{queue_insert_last_lem}
use os_lab.Queue.Remove.{put-Models, put-put}

-- The numbers below `n`, in order.
abbrev pub up_to : ℕ → List ℕ
up_to zero = []
up_to (suc n) = up_to n ++ (n ∷ [])

-- All queues but the free list are empty, and it holds the first `i` links.
abbrev pool : ℕ → ℕ → List ℕ
pool i = put (λ q. []) free_links (up_to i)

snoc-NotIn : (a : ℕ) (xs : List ℕ) (x : ℕ) → NotIn a xs → a ≢ x → NotIn a (xs ++ (x ∷ []))
snoc-NotIn a [] x out ne = (ne, tt)
snoc-NotIn a (y ∷ xs) x out ne = (out.0, snoc-NotIn a xs x out.1 ne)

up_to-NotIn : (n i : ℕ) → n ≤ i → NotIn i (up_to n)
up_to-NotIn zero i h = tt
up_to-NotIn (suc n) i h =
    snoc-NotIn i (up_to n) n (up_to-NotIn n i (omega arith)) (λ e. absurd (omega (arith, e)))

length-up_to : (n : ℕ) → length (up_to n) ≡ n
length-up_to zero = refl
length-up_to (suc n) = omega (arith, length-append (up_to n) (n ∷ []), length-up_to n)

pool_fresh : (i : ℕ) (r : ℕ) → NotIn i (pool i r)
pool_fresh i zero = up_to-NotIn i i (omega arith)
pool_fresh i (suc r) =
    rw (put-ne (λ q. []) free_links (suc r) (up_to i) (λ e. absurd (omega (arith, e)))) tt

free_loop_lem :
    (n i : ℕ) (s : Store)
    → i + n < word_mod
    → Models s (pool i)
    → (s' : Store) × (free_loop n i s ≡ ok queue_success s') × Models s' (pool (i + n))
unfolding free_loop
free_loop_lem zero i s fits h = (s, refl, rw (add-zero i) h)
free_loop_lem (suc n) i s fits h =
    let v : Link = record (s.links i) { next = none; prev = none; object = none } in
    let fresh = pool_fresh i in
    let h' = put-Models h i v fresh in
    let (t, ran, models, _) =
      queue_insert_last_lem h' free_links i fresh (omega (arith, length-up_to i)) in
    let step : suc i ≡ i + 1 = omega arith in
    let next : pool (suc i) ≡ pool (i + 1) = ap pool step in
    let grown = put-put (λ q. []) free_links (up_to i) (up_to i ++ (i ∷ [])) ∙ next in
    let (s', rest, models') =
      free_loop_lem n (i + 1) t (omega arith) (subst (λ k. Models t k) grown models) in
    let number : i + 1 + n ≡ i + suc n = omega arith in
    (s', rw ran rest, subst (λ k. Models s' (pool k)) number models')

-- AQueueModuleInit succeeds and leaves a system in which the free list has the 400 links in order and
-- every other queue is as empty as it was, whatever the free list and the links held before.
pub queue_module_init_lem :
    (s : Store)
    → ((q : ℕ) → free_links ≢ q → Holds (s.queues q) s.links q [])
    → (s' : Store) × (queue_module_init s ≡ ok queue_success s')
      × Models s' (put (λ q. []) free_links (up_to queue_max_links))
unfolding queue_module_init queue_init
queue_module_init_lem s h =
    let d : Queue = record { first = none; last = none; nitems = 0 } in
    let at : Holds d s.links free_links [] = record {
      first = refl;
      last = refl;
      nitems = refl;
      seg = tt;
      distinct = tt;
    } in
    let start = place-Models s (λ q. []) free_links d s.links [] at h in
    free_loop_lem queue_max_links 0 (record s { queues = put s.queues free_links d }) (omega arith)
      start
