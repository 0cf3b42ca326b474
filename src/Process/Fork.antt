-- ===== src/Process/Fork.antt =====
-- The arguments on the stack of a new user process: this part of ProcessFork of flat/os/process.c takes
-- its string of arguments apart with get_argument.
pub mod Parse
pub mod Stack
use os_lab.Prelude.{
  ℕ, zero, suc, ◌+◌, ◌-◌, ◌*◌, Bool, true, false, Option, none, some, List, [], ◌∷◌, ◌==◌, ltb,
  if◌then◌else◌, set, length,
}
use os_lab.Memory.{memory_page_size}
use os_lab.Process.{Arguments, get_argument}

abbrev pub size_arg_buff : ℕ
size_arg_buff = 1024

-- The address of the arguments in the process's page.
abbrev pub arguments_address : ℕ
arguments_address = memory_page_size - size_arg_buff

-- A write of an array; `none` is a write outside.
abbrev pub store : List ℕ → ℕ → ℕ → Option (List ℕ)
store xs i v = if ltb i (length xs) then some (set xs i v) else none

-- The `for` loop. get_argument moves on each time, so that a call for each of the 100 characters that it
-- looks at is fuel enough.
pub argument_loop : ℕ → List ℕ → ℕ → Arguments → Option (ℕ × List ℕ × Arguments)
argument_loop zero dum count a = none
argument_loop (suc fuel) dum count a = elim (get_argument none a) [
  | none ↦ none
  | some r ↦ elim (store dum count (arguments_address + r.0)) [
    | none ↦ none
    | some dum' ↦ elim (r.0 == 0) [
      | true ↦ some (count, dum', r.1)
      | false ↦ argument_loop fuel dum' (count + 1) r.1
    ]
  ]
]

abbrev first_entries : ℕ × List ℕ × Arguments → Option (ℕ × List ℕ × Arguments)
first_entries r = elim (store r.1 0 (r.0 - 2)) [
  | none ↦ none
  | some dum ↦ elim (store dum 1 (arguments_address - (r.0 - 2) * 4)) [
    | none ↦ none
    | some dum' ↦ some (r.0, dum', r.2)
  ]
]

-- The number of words that go onto the stack, and the array `dum` that holds them: the number of
-- arguments, the address of their addresses, and those.
pub fork_arguments : List ℕ → List ℕ → Arguments → Option (ℕ × List ℕ × Arguments)
fork_arguments param dum a = elim (get_argument (some param) a) [
  | none ↦ none
  | some r ↦ elim (store dum 2 (arguments_address + r.0)) [
    | none ↦ none
    | some dum' ↦ elim (argument_loop 101 dum' 3 r.1) [ none ↦ none | some s ↦ first_entries s ]
  ]
]
