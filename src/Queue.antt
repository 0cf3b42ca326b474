-- ===== src/Queue.antt =====
-- The doubly linked queues of flat/os/queue.c. Links and queues are numbered: a pointer is `none` for
-- NULL or the number of what it points to, and the global queue of free links has number 0.
pub mod Seg
pub mod Splice
pub mod Relink
pub mod Objects
pub mod Model
pub mod Insert
pub mod Insertion
pub mod Remove
pub mod Move
pub mod Pool
use os_lab.Prelude.{
  ℕ, zero, suc, ◌+◌, Bool, true, false, not, ◌&&◌, Option, none, some, ◌==◌, if◌then◌else◌,
}
use os_lab.Prelude.Word.{add32, sub32}
use os_lab.Os.{Cmd, ok, exited, pure, gets, modify, ◌>>=◌, ◌>>◌}

abbrev pub queue_fail : ℕ
queue_fail = 0

abbrev pub queue_success : ℕ
queue_success = 1

abbrev pub queue_max_links : ℕ
queue_max_links = 400

abbrev pub Ptr : Type 0
Ptr = Option ℕ

pub record Link : Type 0 where
  pub next : Ptr
  pub prev : Ptr
  pub queue : Ptr
  pub object : Ptr

pub record Queue : Type 0 where
  pub first : Ptr
  pub last : Ptr
  pub nitems : ℕ

-- The link pool, and the queues of the system.
pub record Store : Type 0 where
  pub links : ℕ → Link
  pub queues : ℕ → Queue

abbrev pub free_links : ℕ
free_links = 0

-- `p == q` for pointers.
abbrev pub same : Ptr → Ptr → Bool
same none none = true
same (some i) (some j) = i == j
same none (some j) = false
same (some i) none = false

abbrev pub is_null : Ptr → Bool
is_null none = true
is_null (some i) = false

-- The function with another value at one number.
abbrev pub put : {A : Type 0} → (ℕ → A) → ℕ → A → ℕ → A
put f i v j = if j == i then v else f j

-- Assignments through a pointer that may be NULL: `if (p) p->next = v;` and `if (p) p->prev = v;`.
pub set_next : Ptr → Ptr → (ℕ → Link) → ℕ → Link
set_next none v f = f
set_next (some i) v f = put f i (record (f i) { next = v })

pub set_prev : Ptr → Ptr → (ℕ → Link) → ℕ → Link
set_prev none v f = f
set_prev (some i) v f = put f i (record (f i) { prev = v })

abbrev pub set_links : ((ℕ → Link) → ℕ → Link) → Store → Store
set_links change s = record s { links = change s.links }

abbrev pub set_queue : ℕ → Queue → Store → Store
set_queue q v s = record s { queues = put s.queues q v }

-- The access functions.
abbrev pub queue_first : ℕ → Store → Ptr
queue_first q s = (s.queues q).first

abbrev pub queue_last : ℕ → Store → Ptr
queue_last q s = (s.queues q).last

abbrev pub queue_next : ℕ → Store → Ptr
queue_next l s = (s.links l).next

abbrev pub queue_prev : ℕ → Store → Ptr
queue_prev l s = (s.links l).prev

abbrev pub queue_object : ℕ → Store → Ptr
queue_object l s = (s.links l).object

abbrev pub queue_length : ℕ → Store → ℕ
queue_length q s = (s.queues q).nitems

abbrev pub queue_empty : ℕ → Store → Bool
queue_empty q s = queue_length q s == 0

pub queue_init : Ptr → Cmd Store ℕ
queue_init none = pure queue_fail
queue_init (some q) = do
  modify (set_queue q (record { first = none; last = none; nitems = 0 }))
  pure queue_success

-- `if (q->first == l) q->first = l->next; if (q->last == l) q->last = l->prev;`
pub drop_ends : ℕ → ℕ → Store → Store
drop_ends q l s =
    set_queue q
      (record (s.queues q) {
        first = if same (queue_first q s) (some l) then queue_next l s else queue_first q s;
        last = if same (queue_last q s) (some l) then queue_prev l s else queue_last q s;
      })
      s

-- `if (l->prev) l->prev->next = l->next; if (l->next) l->next->prev = l->prev;`
pub bypass : ℕ → (ℕ → Link) → ℕ → Link
bypass l f = let g = set_next (f l).prev (f l).next f in set_prev (g l).next (g l).prev g

-- `q->nitems--`
abbrev pub count_down : ℕ → Store → Store
count_down q s = set_queue q (record (s.queues q) { nitems = sub32 (queue_length q s) 1 }) s

-- AQueueAllocLink once it has found link `l`, the first free one.
pub take_free : ℕ → Ptr → Cmd Store Ptr
take_free l obj_to_store = do
  modify (drop_ends free_links l)
  modify (count_down free_links)
  modify (set_links (bypass l))
  modify (
      set_links
        (λ f. put f l (record { next = none; prev = none; queue = none; object = obj_to_store })))
  pure (some l)

pub queue_alloc_link : Ptr → Cmd Store Ptr
queue_alloc_link obj_to_store s =
    if queue_empty free_links s
    then ok none s
    else elim (queue_first free_links s) [ none ↦ ok none s | some l ↦ take_free l obj_to_store s ]

-- The end of AQueueInsertAfter: the queue's own fields.
abbrev enter_after : ℕ → Ptr → ℕ → Store → Store
enter_after q none l s = set_queue q (record { first = some l; last = some l; nitems = 1 }) s
enter_after q (some a) l s =
    set_queue q
      (record (s.queues q) {
        last = if same (queue_last q s) (some a) then some l else queue_last q s;
        nitems = add32 (queue_length q s) 1;
      })
      s

abbrev enter_before : ℕ → Ptr → ℕ → Store → Store
enter_before q none l s = set_queue q (record { first = some l; last = some l; nitems = 1 }) s
enter_before q (some b) l s =
    set_queue q
      (record (s.queues q) {
        first = if same (queue_first q s) (some b) then some l else queue_first q s;
        nitems = add32 (queue_length q s) 1;
      })
      s

-- Whether a neighbour is on the queue, or there is none and the queue is empty.
abbrev fits : ℕ → Ptr → Store → Bool
fits q (some a) s = same (s.links a).queue (some q)
fits q none s = is_null (queue_first q s) && is_null (queue_last q s) && queue_empty q s

-- A field read through a pointer, NULL for the null pointer.
abbrev pub next_of : Ptr → (ℕ → Link) → Ptr
next_of none f = none
next_of (some i) f = (f i).next

abbrev pub prev_of : Ptr → (ℕ → Link) → Ptr
prev_of none f = none
prev_of (some i) f = (f i).prev

-- The assignments of AQueueInsertAfter and AQueueInsertBefore to links. The three fields of `l` are
-- assigned at once: what the code reads for the third is none of those it has assigned.
pub link_after : ℕ → Ptr → ℕ → (ℕ → Link) → ℕ → Link
link_after q after l f =
    let g = put f l (record (f l) { queue = some q; prev = after; next = next_of after f }) in
    let h = set_next after (some l) g in set_prev (h l).next (some l) h

pub link_before : ℕ → Ptr → ℕ → (ℕ → Link) → ℕ → Link
link_before q before l f =
    let g = put f l (record (f l) { queue = some q; next = before; prev = prev_of before f }) in
    let h = set_prev before (some l) g in set_next (h l).prev (some l) h

pub queue_insert_after : Ptr → Ptr → Ptr → Cmd Store ℕ
queue_insert_after q after none s = ok queue_fail s
queue_insert_after none after (some l) s = ok queue_fail s
queue_insert_after (some q) after (some l) s =
    if not (fits q after s)
    then ok queue_fail s
    else ok queue_success (enter_after q after l (set_links (link_after q after l) s))

pub queue_insert_before : Ptr → Ptr → Ptr → Cmd Store ℕ
queue_insert_before q before none s = ok queue_fail s
queue_insert_before none before (some l) s = ok queue_fail s
queue_insert_before (some q) before (some l) s =
    if not (fits q before s)
    then ok queue_fail s
    else ok queue_success (enter_before q before l (set_links (link_before q before l) s))

pub queue_insert_first : Ptr → Ptr → Cmd Store ℕ
queue_insert_first q none s = ok queue_fail s
queue_insert_first none (some l) s = ok queue_fail s
queue_insert_first (some q) (some l) s = queue_insert_before (some q) (queue_first q s) (some l) s

pub queue_insert_last : Ptr → Ptr → Cmd Store ℕ
queue_insert_last q none s = ok queue_fail s
queue_insert_last none (some l) s = ok queue_fail s
queue_insert_last (some q) (some l) s = queue_insert_after (some q) (queue_last q s) (some l) s

-- AQueueRemove of a link `l` that is on queue `q`.
pub remove_from : ℕ → ℕ → Cmd Store (Unit {0})
remove_from q l = do
  modify (drop_ends q l)
  modify (set_links (bypass l))
  modify (count_down q)
  queue_insert_last (some free_links) (some l)
  pure tt

-- `pl` is what the caller's pointer holds; the result is followed by what it holds afterwards.
pub queue_remove : Ptr → Cmd Store (ℕ × Ptr)
queue_remove none s = ok (queue_fail, none) s
queue_remove (some l) s = elim (s.links l).queue [
  | none ↦ ok (queue_fail, some l) s
  | some q ↦ (remove_from q l >> pure (queue_success, none)) s
]

-- The assignments of AQueueMoveAfter to links: the list around `l` is closed, then `l` goes behind `a`.
pub unlink : ℕ → (ℕ → Link) → ℕ → Link
unlink l f = let g = set_prev (f l).next (f l).prev f in set_next (g l).prev (g l).next g

pub relink : ℕ → ℕ → (ℕ → Link) → ℕ → Link
relink a l f =
    let h = unlink l f in
    let k = put h l (record (h l) { prev = some a; next = (h a).next }) in
    let m = set_next (some a) (some l) k in set_prev (m l).next (some l) m

-- The assignments of AQueueMoveAfter to the queue's ends.
abbrev move_ends : ℕ → ℕ → ℕ → Store → Store
move_ends q a l s =
    set_queue q
      (record (s.queues q) {
        first = if same (queue_first q s) (some l) then queue_next l s else queue_first q s;
        last = if same (queue_last q s) (some a) then some l else queue_last q s;
      })
      s

pub move_after : ℕ → Ptr → ℕ → Cmd Store ℕ
move_after q none l s =
    if not (queue_length q s == 1)
    then ok queue_fail s
    else if not (same (queue_first q s) (queue_last q s))
    then ok queue_fail s
    else ok queue_success s
move_after q (some a) l s =
    if not (same (s.links a).queue (some q))
    then ok queue_fail s
    else if a == l
    then ok queue_success s
    else if same (queue_last q s) (some l)
    then ok queue_fail s
    else ok queue_success (set_links (relink a l) (move_ends q a l s))

pub queue_move_after : Ptr → Ptr → Ptr → Cmd Store ℕ
queue_move_after none after l s = ok queue_fail s
queue_move_after (some q) after none s = ok queue_fail s
queue_move_after (some q) after (some l) s =
    if not (same (s.links l).queue (some q)) then ok queue_fail s else move_after q after l s

-- The loop of AQueueModuleInit over the pool, and the function. Failures lead to GracefulExit.
pub free_loop : ℕ → ℕ → Cmd Store ℕ
free_loop zero i = pure queue_success
free_loop (suc n) i =
    let rest = free_loop n (i + 1) in
    do
      modify (set_links (λ f. put f i (record (f i) { next = none; prev = none; object = none })))
      r ← queue_insert_last (some free_links) (some i)
      if not (r == queue_success) then (λ s. exited) else rest

pub queue_module_init : Cmd Store ℕ
queue_module_init = do
  r ← queue_init (some free_links)
  if not (r == queue_success) then (λ s. exited) else free_loop queue_max_links 0
