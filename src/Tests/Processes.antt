-- ===== src/Tests/Processes.antt =====
-- Three processes: 1 and 2 are runnable, by the links 3 and 5, and 4 waits, by link 6.
use os_lab.Prelude.{ℕ, zero, suc, ◌≡◌, refl, none, some, List, [], ◌∷◌, ◌==◌, if◌then◌else◌, arith}
use os_lab.Os.{ok}
use os_lab.Queue.{Ptr, Link, Queue, put}
use os_lab.Queue.Model.{Models}
use os_lab.Queue.Remove.{AreShort}
use os_lab.Process.{System, run_queue, wait_queue, process_suspend}
use os_lab.Process.Status.{IsTransferred, process_suspend_lem}
use os_lab.Queue.{free_links}
use os_lab.Queue.Seg.{NotIn}
use os_lab.Prelude.Bits.{bit}
use os_lab.Memory.{memory_setup_pte, memory_page_size}
use os_lab.Memory.Map.{free_bit}
use os_lab.Memory.Alloc.{IsMap}
use os_lab.Memory.Freed.{AreAll}
use os_lab.Process.{process_free_resources, process_status_free, freepcbs}
use os_lab.Process.Free.{process_free_resources_lem}
use os_lab.Prelude.{◌*◌}
use os_lab.Tests.Queues.{sample, lists, sample-Models, lists-AreShort}
use os_lab.Tests.Pages.{small_map, small-IsMap}

abbrev pub held : ℕ → Ptr → Ptr → ℕ → Link
held q prev next p = record { next = next; prev = prev; queue = some q; object = some p }

abbrev pub process_links : ℕ → Link
process_links i =
    if i == 3
    then held 2 none (some 5) 1
    else if i == 5
    then held 2 (some 3) none 2
    else if i == 6
    then held 3 none none 4
    else record { next = none; prev = none; queue = none; object = none }

abbrev pub process_queues : ℕ → Queue
process_queues zero = record { first = none; last = none; nitems = 0 }
process_queues (suc zero) = record { first = none; last = none; nitems = 0 }
process_queues (suc (suc zero)) = record { first = some 3; last = some 5; nitems = 2 }
process_queues (suc (suc (suc zero))) = record { first = some 6; last = some 6; nitems = 1 }
process_queues (suc (suc (suc (suc q)))) = record { first = none; last = none; nitems = 0 }

abbrev pub process_lists : ℕ → List ℕ
process_lists zero = []
process_lists (suc zero) = []
process_lists (suc (suc zero)) = 3 ∷ 5 ∷ []
process_lists (suc (suc (suc zero))) = 6 ∷ []
process_lists (suc (suc (suc (suc q)))) = []

abbrev pub processes : System
processes = record {
  store = record { links = process_links; queues = process_queues };
  memory = small_map;
  pcbs = λ p. record {
    flags = if p == 4 then 0x204 else 0x202;
    l = if p == 1 then some 3 else if p == 2 then some 5 else if p == 4 then some 6 else none;
    npages = 0;
    pagetable = [];
    sys_stack_area = 0;
  };
  current_pcb = some 1;
}

pub processes-Models : Models processes.store process_lists
processes-Models zero = record { first = refl; last = refl; nitems = refl; seg = tt; distinct = tt }
processes-Models (suc zero) = record {
  first = refl;
  last = refl;
  nitems = refl;
  seg = tt;
  distinct = tt;
}
processes-Models (suc (suc zero)) = record {
  first = refl;
  last = refl;
  nitems = refl;
  seg = (refl, refl, refl, (refl, refl, refl, tt));
  distinct = omega arith;
}
processes-Models (suc (suc (suc zero))) = record {
  first = refl;
  last = refl;
  nitems = refl;
  seg = (refl, refl, refl, tt);
  distinct = omega arith;
}
processes-Models (suc (suc (suc (suc q)))) = record {
  first = refl;
  last = refl;
  nitems = refl;
  seg = tt;
  distinct = tt;
}

pub processes-AreShort : AreShort process_lists
processes-AreShort zero = omega arith
processes-AreShort (suc zero) = omega arith
processes-AreShort (suc (suc zero)) = omega arith
processes-AreShort (suc (suc (suc zero))) = omega arith
processes-AreShort (suc (suc (suc (suc q)))) = omega arith

-- The free list is empty: the process gets the link back that it has given up.
process_suspend_lem_example :
    (l : ℕ) × (s : System) × (m : ℕ → List ℕ) × (process_suspend 1 processes ≡ ok tt s)
    × IsTransferred processes s process_lists m 1 run_queue 3 l []
        (5 ∷ [])
        wait_queue
        (6 ∷ l ∷ [])
        2
process_suspend_lem_example =
    process_suspend_lem processes processes-Models processes-AreShort 1 3 [] (5 ∷ []) refl refl

-- A dead process with page 40, and page 41 for its system stack.
abbrev dead : System
dead = record {
  store = sample;
  memory = small_map;
  pcbs = λ p. record {
    flags = 0x210;
    l = none;
    npages = 1;
    pagetable = memory_setup_pte 40 ∷ 0 ∷ [];
    sys_stack_area = 41 * memory_page_size;
  };
  current_pcb = some 1;
}

dead-AreAll : AreAll 0 small_map (41 ∷ 40 ∷ [])
unfolding bit
dead-AreAll = (omega arith, omega arith, refl, (omega arith, omega arith, refl, tt))

process_free_resources_lem_example :
    (s : System) × (process_free_resources 2 dead ≡ ok tt s)
    × Models s.store (put (put lists free_links (8 ∷ [])) freepcbs (3 ∷ 5 ∷ 6 ∷ 7 ∷ []))
    × ((s.pcbs 2).l ≡ some 7)
    × ((s.store.links 7).object ≡ some 2)
    × ((s.pcbs 2).flags ≡ process_status_free)
    × IsMap s.memory
    × AreAll 1 s.memory (41 ∷ 40 ∷ [])
    × ((q : ℕ) → NotIn q (41 ∷ 40 ∷ []) → free_bit s.memory q ≡ free_bit small_map q)
process_free_resources_lem_example =
    process_free_resources_lem dead sample-Models lists-AreShort 2 7 (8 ∷ []) (40 ∷ []) (0 ∷ []) 41
      refl refl refl refl small-IsMap (omega arith) dead-AreAll
