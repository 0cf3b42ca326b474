-- ===== src/Os.antt =====
-- What the kernel code runs on: results of a run, the calls into code that is not part of the
-- repository's C sources (locks of lib/synch.o, interrupts, host files of the simulator), and the
-- machine's own choices.
use os_lab.Prelude.{ℕ, Bool, List}

-- `fault` is undefined behaviour (an access outside an array, a division by zero); `exited` is
-- `GracefulExit`.
pub data Run (S A : Type 0) : Type 0 where
  ok : A → S → Run S A
  fault : Run S A
  exited : Run S A

abbrev pub Cmd : Type 0 → Type 0 → Type 0
Cmd S A = S → Run S A

module _ {S A : Type 0} where
  abbrev pub pure : A → Cmd S A
  pure a s = ok a s

  abbrev pub gets : (S → A) → Cmd S A
  gets f s = ok (f s) s

  abbrev pub undefined_behaviour : Cmd S A
  undefined_behaviour s = fault

module _ {S A B : Type 0} where
  abbrev pub and_then : Run S A → (A → Cmd S B) → Run S B
  and_then (ok a s) k = k a s
  and_then fault k = fault
  and_then exited k = exited

  infixl 5 ◌>>=◌ ◌>>◌
  abbrev pub ◌>>=◌ : Cmd S A → (A → Cmd S B) → Cmd S B
  ◌>>=◌ m k s = and_then (m s) k

  abbrev pub ◌>>◌ : Cmd S A → Cmd S B → Cmd S B
  m >> k = m >>= λ _. k

abbrev pub modify : {S : Type 0} → (S → S) → Cmd S (Unit {0})
modify f s = ok tt (f s)

pub data Lock : Type 0 where
  fbv_lock inode_lock block_lock file_lock : Lock

-- The calls that leave the modelled code.
pub data Event : Type 0 where
  acquire release : Lock → Event
  disable_intrs restore_intrs : Event
  fs_open fs_close : Event
  fs_seek : ℕ → Event
  fs_read fs_write : Event

-- Code that is not modelled: `answer` says whether the newest call of the history succeeds,
-- `torn` what a host block holds after a write that failed, `garbage` what the
-- uninitialised local arrays of a function hold. `shift_out` is `0x1 << c` for a count `c` that C leaves undefined, `load_word` and
-- `store_word` the machine's byte order, and `byte_at` the byte at an address near NULL.
pub record Env : Type 0 where
  pub answer : List Event → Bool
  pub torn : List Event → List ℕ → List ℕ
  pub garbage : ℕ → List Event → List ℕ
  pub shift_out : ℕ → ℕ
  pub load_word : List ℕ → ℕ
  pub store_word : ℕ → List ℕ
  pub byte_at : ℕ → ℕ
