-- ===== src/Process.antt =====
-- The processes of flat/os/process.c: process control blocks and the queues they move between. A pointer
-- to a control block is its number in the array `pcbs`.

pub mod Schedule
pub mod Moves
pub mod Status
pub mod Free
pub mod Fork
use os_lab.Prelude.{
  ℕ, zero, suc, ◌+◌, ◌-◌, ◌*◌, ◌/◌, ◌%◌, ◌≤◌, bit_and, bit_or, Bool, true, false, not, ◌&&◌, Option,
  none, some, List, [], ◌∷◌, ◌==◌, ltb, leb, if◌then◌else◌, get_elem?, ◌||◌,
}
use os_lab.Os.{Run, Cmd, ok, fault, exited, pure, gets, modify, undefined_behaviour, ◌>>=◌, ◌>>◌}
use mathlib.Core.Option
use os_lab.Queue.{
  Ptr, Store, put, queue_success, queue_empty, queue_first, queue_last, queue_length, queue_object,
  queue_alloc_link, queue_insert_first, queue_insert_last, queue_move_after, queue_remove,
  queue_init,
}
use os_lab.Memory.{Memory, memory_page_size, memory_free_page, memory_free_pte}

abbrev pub process_status_free : ℕ
process_status_free = 0x1

abbrev pub process_status_runnable : ℕ
process_status_runnable = 0x2

abbrev pub process_status_waiting : ℕ
process_status_waiting = 0x4

abbrev pub process_status_zombie : ℕ
process_status_zombie = 0x10

-- `~PROCESS_STATUS_MASK` for the mask 0x3f, as a 32-bit word.
abbrev pub process_status_unmask : ℕ
process_status_unmask = 0xFFFF_FFC0

abbrev pub process_max_procs : ℕ
process_max_procs = 32

-- The four queues of the file among the queues of the system.
abbrev pub freepcbs : ℕ
freepcbs = 1

abbrev pub run_queue : ℕ
run_queue = 2

abbrev pub wait_queue : ℕ
wait_queue = 3

abbrev pub zombie_queue : ℕ
zombie_queue = 4

-- The fields of a control block that the modelled functions use.
pub record Pcb : Type 0 where
  pub flags : ℕ
  pub l : Ptr
  pub npages : ℕ
  pub pagetable : List ℕ
  pub sys_stack_area : ℕ

pub record System : Type 0 where
  pub store : Store
  pub memory : Memory
  pub pcbs : ℕ → Pcb
  pub current_pcb : Ptr

-- A call of the queue module, or of the memory manager, on its part of the state.
module _ {A : Type 0} where
  abbrev pub with_store : System → Run Store A → Run System A
  with_store s (ok a t) = ok a (record s { store = t })
  with_store s fault = fault
  with_store s exited = exited

  abbrev pub in_queues : Cmd Store A → Cmd System A
  in_queues c s = with_store s (c s.store)

  abbrev pub with_memory : System → Run Memory A → Run System A
  with_memory s (ok a t) = ok a (record s { memory = t })
  with_memory s fault = fault
  with_memory s exited = exited

  abbrev pub in_memory : Cmd Memory A → Cmd System A
  in_memory c s = with_memory s (c s.memory)

abbrev pub graceful_exit : {A : Type 0} → Cmd System A
graceful_exit s = exited

-- What a pointer leads to; NULL is undefined.
abbrev pub pointee : Ptr → Cmd System ℕ
pointee none = undefined_behaviour
pointee (some p) = pure p

abbrev pub set_pcb : ℕ → Pcb → System → System
set_pcb p b s = record s { pcbs = put s.pcbs p b }

pub process_set_status : ℕ → ℕ → Cmd System (Unit {0})
process_set_status p status = modify (λ s.
    set_pcb p
      (record (s.pcbs p) { flags = bit_or (bit_and (s.pcbs p).flags process_status_unmask) status })
      s)

-- `AQueueRemove(&(pcb->l))`, with GracefulExit if it fails.
pub leave_queue : ℕ → Cmd System (Unit {0})
leave_queue p = do
  l ← gets (λ s. (s.pcbs p).l)
  (r, l') ← in_queues (queue_remove l)
  modify (λ s. set_pcb p (record (s.pcbs p) { l = l' }) s)
  if not (r == queue_success) then graceful_exit else pure tt

-- `pcb->l = AQueueAllocLink(pcb)`, with GracefulExit if there is no link.
pub new_link : ℕ → Cmd System (Unit {0})
new_link p = do
  l ← in_queues (queue_alloc_link (some p))
  modify (λ s. set_pcb p (record (s.pcbs p) { l = l }) s)
  elim l [ none ↦ graceful_exit | some _ ↦ pure tt ]

-- The insertion of the process's link into a queue, with GracefulExit if it fails.
pub enter_queue : (Ptr → Ptr → Cmd Store ℕ) → ℕ → ℕ → Cmd System (Unit {0})
enter_queue insert q p = do
  l ← gets (λ s. (s.pcbs p).l)
  r ← in_queues (insert (some q) l)
  if not (r == queue_success) then graceful_exit else pure tt

-- The ASSERT at the beginning of ProcessSuspend and ProcessWakeup only prints.
pub process_suspend : ℕ → Cmd System (Unit {0})
process_suspend suspend = do
  process_set_status suspend process_status_waiting
  leave_queue suspend
  new_link suspend
  enter_queue queue_insert_last wait_queue suspend

pub process_wakeup : ℕ → Cmd System (Unit {0})
process_wakeup wakeup = do
  process_set_status wakeup process_status_runnable
  leave_queue wakeup
  new_link wakeup
  enter_queue queue_insert_last run_queue wakeup

pub process_destroy : ℕ → Cmd System (Unit {0})
process_destroy pcb = do
  process_set_status pcb process_status_zombie
  leave_queue pcb
  new_link pcb
  enter_queue queue_insert_first zombie_queue pcb

-- The loop of ProcessFreeResources over the page table, from entry `i`.
unfoldable pub free_pages_loop : ℕ → ℕ → ℕ → Cmd System (Unit {0})
free_pages_loop zero i p = pure tt
free_pages_loop (suc n) i p =
    let rest = free_pages_loop n (i + 1) p in
    do
      b ← gets (λ s. s.pcbs p)
      pte ← pointee (get_elem? b.pagetable i)
      in_memory (memory_free_pte pte)
      rest

unfoldable pub process_free_resources : ℕ → Cmd System (Unit {0})
process_free_resources p = do
  new_link p
  modify (λ s. set_pcb p (record (s.pcbs p) { flags = process_status_free }) s)
  enter_queue queue_insert_last freepcbs p
  pages ← gets (λ s. (s.pcbs p).npages)
  free_pages_loop pages 0 p
  area ← gets (λ s. (s.pcbs p).sys_stack_area)
  in_memory (memory_free_page (area / memory_page_size))
  process_set_status p process_status_free

-- The object of the first link of a queue.
pub first_object : ℕ → Cmd System Ptr
first_object q = do
  l ← gets (λ s. queue_first q s.store)
  i ← pointee l
  gets (λ s. queue_object i s.store)

-- The loop of ProcessSchedule over the zombies, with as much fuel as there are zombies.
pub zombie_loop : ℕ → Cmd System (Unit {0})
zombie_loop zero s = if queue_empty zombie_queue s.store then ok tt s else fault
zombie_loop (suc n) s =
    let rest = zombie_loop n in
    if queue_empty zombie_queue s.store
    then ok tt s
    else (first_object zombie_queue >>= pointee >>= λ p.
          leave_queue p >> process_free_resources p >> rest)
        s

-- With no runnable process the system ends, whether or not some wait.
pub process_schedule : Cmd System (Unit {0})
process_schedule s =
    if queue_empty run_queue s.store
    then exited
    else (do
      last ← gets (λ t. queue_last run_queue t.store)
      first ← gets (λ t. queue_first run_queue t.store)
      in_queues (queue_move_after (some run_queue) last first)
      pcb ← first_object run_queue
      modify (λ t. record t { current_pcb = pcb })
      zombies ← gets (λ t. queue_length zombie_queue t.store)
      zombie_loop zombies)
        s

-- The loop of ProcessModuleInit over the control blocks, from block `i`, and the function.
unfoldable pub pcb_loop : ℕ → ℕ → Cmd System (Unit {0})
pcb_loop zero i = pure tt
pcb_loop (suc n) i =
    let rest = pcb_loop n (i + 1) in
    do
      new_link i
      modify (λ s. set_pcb i (record (s.pcbs i) { flags = process_status_free }) s)
      enter_queue queue_insert_first freepcbs i
      rest

unfoldable pub process_module_init : Cmd System (Unit {0})
process_module_init = do
  in_queues (queue_init (some freepcbs))
  in_queues (queue_init (some run_queue))
  in_queues (queue_init (some wait_queue))
  in_queues (queue_init (some zombie_queue))
  pcb_loop process_max_procs 0
  modify (λ s. record s { current_pcb = none })

-- The statics of get_argument: the string it parses, and how far it has come.
pub record Arguments : Type 0 where
  pub str : List ℕ
  pub location : ℕ

-- The `for` loop: the position behind the next NUL, or 100. `none` is an access past the string.
unfoldable pub next_argument : ℕ → List ℕ → ℕ → Option ℕ
next_argument zero str location = some location
next_argument (suc n) str location =
    let rest = next_argument n str (location + 1) in
    elim (get_elem? str location) [
      | none ↦ none
      | some c ↦ if c == 0 then some (location + 1) else rest
    ]

abbrev parse_from : Arguments → Option (ℕ × Arguments)
parse_from a = elim (get_elem? a.str a.location) [
  | none ↦ none
  | some c ↦
      if c == 0 || leb 99 a.location
      then some (0, a)
      else Option.map (λ behind. (a.location, record a { location = behind }))
          (next_argument (100 - a.location) a.str a.location)
]

-- `string` is `none` for NULL, which goes on with the string of the last call.
unfoldable pub get_argument : Option (List ℕ) → Arguments → Option (ℕ × Arguments)
get_argument none a = parse_from a
get_argument (some string) a = parse_from (record { str = string; location = 0 })
