-- ===== src/Queue/Insertion.antt =====
-- What the process module relies on when it inserts a link into a queue: AQueueInsertLast and
-- AQueueInsertFirst of flat/os/queue.c behind one interface.
use os_lab.Prelude.{ℕ, ◌+◌, ◌<◌, ◌≡◌, some, List, [], ◌∷◌, ◌++◌, length}
use os_lab.Prelude.Word.{word_mod}
use os_lab.Os.{Cmd, ok}
use os_lab.Queue.{Ptr, Store, put, queue_success, queue_insert_last, queue_insert_first}
use os_lab.Queue.Seg.{NotIn}
use os_lab.Queue.Objects.{SameObjects}
use os_lab.Queue.Model.{Models}
use os_lab.Queue.Insert.{queue_insert_last_lem, queue_insert_first_lem}

pub record Insertion : Type 0 where
  pub insert : Ptr → Ptr → Cmd Store ℕ
  pub add : ℕ → List ℕ → List ℕ
  pub insert_lem :
      (s : Store) (m : ℕ → List ℕ)
      → Models s m
      → (q l : ℕ) → ((r : ℕ) → NotIn l (m r))
      → length (m q) + 1 < word_mod
      → (s' : Store) × (insert (some q) (some l) s ≡ ok queue_success s')
        × Models s' (put m q (add l (m q)))
        × SameObjects s s'

abbrev pub last_insertion : Insertion
last_insertion = record {
  insert = queue_insert_last;
  add = λ l xs. xs ++ (l ∷ []);
  insert_lem = λ s m h q l fresh room. queue_insert_last_lem h q l fresh room;
}

abbrev pub first_insertion : Insertion
first_insertion = record {
  insert = queue_insert_first;
  add = λ l xs. l ∷ xs;
  insert_lem = λ s m h q l fresh room. queue_insert_first_lem h q l fresh room;
}
