-- ===== src/Tests/Queues.antt =====
-- A small system of queues: queue 1 has the links 3, 5 and 6, the free list the links 7 and 8.
use os_lab.Prelude.{
  ℕ, zero, suc, ◌≡◌, ◌≢◌, refl, none, some, List, [], ◌∷◌, ◌==◌, if◌then◌else◌, arith,
}
use os_lab.Os.{ok}
use os_lab.Queue.{
  Ptr, Link, Queue, Store, put, free_links, queue_success, queue_max_links, queue_first, queue_last,
  queue_insert_after, queue_remove, queue_move_after, queue_module_init,
}
use os_lab.Queue.Seg.{NotIn}
use os_lab.Queue.Objects.{SameObjects}
use os_lab.Queue.Model.{Holds, Models}
use os_lab.Queue.Insert.{queue_insert_after_lem}
use os_lab.Queue.Remove.{AreShort, queue_remove_lem}
use os_lab.Queue.Move.{queue_move_after_lem, queue_move_after-rotate}
use os_lab.Queue.Pool.{up_to, queue_module_init_lem}

abbrev linked : ℕ → Ptr → Ptr → Link
linked q prev next = record { next = next; prev = prev; queue = some q; object = none }

abbrev loose : Link
loose = record { next = none; prev = none; queue = none; object = none }

abbrev pub sample_links : ℕ → Link
sample_links i =
    if i == 3
    then linked 1 none (some 5)
    else if i == 5
    then linked 1 (some 3) (some 6)
    else if i == 6
    then linked 1 (some 5) none
    else if i == 7
    then linked 0 none (some 8)
    else if i == 8
    then linked 0 (some 7) none
    else loose

abbrev pub sample_queues : ℕ → Queue
sample_queues zero = record { first = some 7; last = some 8; nitems = 2 }
sample_queues (suc zero) = record { first = some 3; last = some 6; nitems = 3 }
sample_queues (suc (suc q)) = record { first = none; last = none; nitems = 0 }

abbrev pub sample : Store
sample = record { links = sample_links; queues = sample_queues }

abbrev pub lists : ℕ → List ℕ
lists zero = 7 ∷ 8 ∷ []
lists (suc zero) = 3 ∷ 5 ∷ 6 ∷ []
lists (suc (suc q)) = []

pub sample-Models : Models sample lists
sample-Models zero = record {
  first = refl;
  last = refl;
  nitems = refl;
  seg = (refl, refl, refl, (refl, refl, refl, tt));
  distinct = omega arith;
}
sample-Models (suc zero) = record {
  first = refl;
  last = refl;
  nitems = refl;
  seg = (refl, refl, refl, (refl, refl, refl, (refl, refl, refl, tt)));
  distinct = omega arith;
}
sample-Models (suc (suc q)) = record {
  first = refl;
  last = refl;
  nitems = refl;
  seg = tt;
  distinct = tt;
}

pub lists-AreShort : AreShort lists
lists-AreShort zero = omega arith
lists-AreShort (suc zero) = omega arith
lists-AreShort (suc (suc q)) = omega arith

nine_fresh : (r : ℕ) → NotIn 9 (lists r)
nine_fresh zero = omega arith
nine_fresh (suc zero) = omega arith
nine_fresh (suc (suc q)) = tt

queue_insert_after_lem_example :
    (s : Store) × (queue_insert_after (some 1) (some 5) (some 9) sample ≡ ok queue_success s)
    × Models s (put lists 1 (3 ∷ 5 ∷ 9 ∷ 6 ∷ []))
    × SameObjects sample s
queue_insert_after_lem_example =
    queue_insert_after_lem sample-Models 1 9 nine_fresh (omega arith) 5 (3 ∷ 5 ∷ []) (6 ∷ []) refl
      refl

queue_remove_lem_example :
    (s : Store) × (queue_remove (some 5) sample ≡ ok (queue_success, none) s)
    × Models s (put (put lists 1 (3 ∷ 6 ∷ [])) free_links (7 ∷ 8 ∷ 5 ∷ []))
    × SameObjects sample s
queue_remove_lem_example = queue_remove_lem sample-Models lists-AreShort 1 5 (3 ∷ []) (6 ∷ []) refl

queue_move_after_lem_example :
    (s : Store) × (queue_move_after (some 1) (some 5) (some 3) sample ≡ ok queue_success s)
    × Models s (put lists 1 (5 ∷ 3 ∷ 6 ∷ []))
    × SameObjects sample s
queue_move_after_lem_example =
    queue_move_after_lem sample-Models lists-AreShort 1 3 [] 5 (6 ∷ []) refl 5 5 [] (6 ∷ []) refl
      refl

queue_move_after-rotate_example :
    (s : Store) × (queue_move_after (some 1) (queue_last 1 sample) (queue_first 1 sample) sample
      ≡ ok queue_success s)
    × Models s (put lists 1 (5 ∷ 6 ∷ 3 ∷ []))
    × SameObjects sample s
queue_move_after-rotate_example =
    queue_move_after-rotate sample-Models lists-AreShort 1 3 (5 ∷ 6 ∷ []) refl

-- Before the start of the system: whatever the free list holds, the other queues are empty.
abbrev blank : Store
blank = record {
  links = sample_links;
  queues = λ q.
      if q == 0
      then record { first = some 7; last = none; nitems = 9 }
      else record { first = none; last = none; nitems = 0 };
}

blank-Holds : (q : ℕ) → free_links ≢ q → Holds (blank.queues q) blank.links q []
blank-Holds zero ne = absurd (ne refl)
blank-Holds (suc q) ne = record {
  first = ground arith;
  last = ground arith;
  nitems = ground arith;
  seg = tt;
  distinct = tt;
}

queue_module_init_lem_example :
    (s : Store) × (queue_module_init blank ≡ ok queue_success s)
    × Models s (put (λ q. []) free_links (up_to queue_max_links))
queue_module_init_lem_example = queue_module_init_lem blank blank-Holds
