-- ===== src/Traps/Create.antt =====
-- TrapProcessCreateHandler of flat/os/traps.c: the program's name and its arguments are copied out of the
-- caller's memory into one buffer, which ProcessFork gets.
pub mod Pack
pub mod Start
use os_lab.Prelude.{
  ℕ, zero, suc, ◌+◌, Bool, true, false, Option, none, some, List, [], ◌∷◌, ◌==◌, if◌then◌else◌, set,
  get_or, replicate,
}
use os_lab.Os.{Cmd, exited, pure, gets, modify, undefined_behaviour, ◌>>=◌, ◌>>◌}
use os_lab.Misc.{dstrcpy, dstrlen}
use os_lab.Process.Fork.{size_arg_buff}

abbrev pub process_max_name_length : ℕ
process_max_name_length = 100

abbrev pub max_args : ℕ
max_args = 128

-- What a copy of one byte, or of one word, from an address of the caller brings; `none` if the page is
-- not there, and the copy leaves its destination alone. A null pointer is address 0.
pub record Space : Type 0 where
  pub byte : ℕ → Option ℕ
  pub word : ℕ → Option ℕ

abbrev pub graceful_exit : {A : Type 0} → Cmd (List ℕ) A
graceful_exit s = exited

abbrev pub defined : {A : Type 0} → Option A → Cmd (List ℕ) A
defined none = undefined_behaviour
defined (some a) = pure a

-- The value that an initialised variable has after a copy into it.
abbrev pub copied : Option ℕ → ℕ → ℕ
copied none old = old
copied (some c) old = c

-- The state is the buffer `allargs`.
module _ (space : Space) where
  -- The loop over the name, with the rounds that are left; a name without a NUL among its first 100
  -- characters ends the system in user mode, and in system mode is read past its buffer later on.
  pub copy_name : Bool → ℕ → ℕ → Cmd (List ℕ) (List ℕ)
  copy_name sys_mode zero username = if sys_mode then undefined_behaviour else graceful_exit
  copy_name sys_mode (suc n) username =
      let rest = copy_name sys_mode n (username + 1) in
      elim (space.byte username) [
        | none ↦ undefined_behaviour
        | some c ↦ if c == 0 then pure (0 ∷ []) else (rest >>= λ s. pure (c ∷ s))
      ]

  -- The inner loop: one argument goes to the end of the buffer.
  pub copy_argument : ℕ → ℕ → ℕ → Cmd (List ℕ) ℕ
  copy_argument zero userarg position = pure position
  copy_argument (suc n) userarg position =
      let rest = copy_argument n (userarg + 1) (position + 1) in
      do
        old ← gets (λ s. get_or s position 0)
        let c = copied (space.byte userarg) old
        modify (λ s. set s position c)
        if position + 1 == size_arg_buff
            then graceful_exit
            else (if c == 0 then pure (position + 1) else rest)

  -- The outer loop, over the pointers behind the first trap argument.
  pub copy_arguments : ℕ → ℕ → ℕ → ℕ → Cmd (List ℕ) ℕ
  copy_arguments zero trap_args userarg position = graceful_exit
  copy_arguments (suc n) trap_args userarg position =
      let p = copied (space.word trap_args) userarg in
      let rest = λ (position' : ℕ). copy_arguments n (trap_args + 4) p position' in
      if p == 0 then pure position else (copy_argument size_arg_buff p position >>= rest)

  -- The name and, in the state, the buffer that ProcessFork is called with.
  pub trap_process_create_handler : Bool → ℕ → Cmd (List ℕ) (List ℕ)
  trap_process_create_handler sys_mode trap_args = do
    modify (λ _. replicate size_arg_buff 0)
    name ← copy_name sys_mode process_max_name_length (copied (space.word trap_args) 0)
    s ← gets (λ s. s)
    allargs ← defined (dstrcpy s name)
    modify (λ _. allargs)
    len ← defined (dstrlen name)
    copy_arguments max_args (trap_args + 4) 0 (if sys_mode then 0 else len + 1)
    pure name
