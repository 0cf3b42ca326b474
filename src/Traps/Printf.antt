-- ===== src/Traps/Printf.antt =====
-- TrapPrintfHandler of flat/os/traps.c: it finds the arguments that a format asks for, and copies them
-- out of the caller's memory for printf.
pub mod Items
mod Steps
pub mod Bounds
use os_lab.Prelude.{
  ℕ, zero, suc, ◌+◌, ◌*◌, Bool, true, false, ◌||◌, Option, none, some, List, [], ◌∷◌, ◌==◌, ltb,
  leb, if◌then◌else◌, set, get_elem?, length, take, replicate,
}
use os_lab.Traps.Create.{Space}

abbrev pub printf_max_format_length : ℕ
printf_max_format_length = 256

abbrev pub printf_max_args : ℕ
printf_max_args = 8

abbrev pub printf_max_string_args : ℕ
printf_max_string_args = 5

abbrev pub printf_max_string_arg_length : ℕ
printf_max_string_arg_length = 100

-- A word of the array of arguments: one that is not written yet, a copied one, or the address of a
-- string in the handler's storage.
pub data Arg : Type 0 where
  unset : Arg
  word_arg : ℕ → Arg
  text_arg : List ℕ → Arg

-- The call of printf at the end; a return with a message; undefined behaviour.
pub data Printf : Type 0 where
  printed : List ℕ → List Arg → Printf
  refused : Printf
  undefined : Printf

pub record Scan : Type 0 where
  pub numargs : ℕ
  pub string_argnum : ℕ
  pub args : List Arg

-- Whether the next character is a plain one, the one behind a `%`, or the one behind `%l`.
pub data Place : Type 0 where
  plain after_percent after_long : Place

-- What the loop does at a character: it goes on, or returns.
pub data Action : Type 0 where
  go : Place → Scan → Action
  stop : Printf → Action

-- The string at an address, without its NUL; `some none` if there is no NUL in so many characters.
pub copy_string : Space → ℕ → ℕ → Option (Option (List ℕ))
copy_string space zero address = some none
copy_string space (suc n) address =
    let rest = copy_string space n (address + 1) in
    elim (space.byte address) [
      | none ↦ none
      | some c ↦ if c == 0 then some (some []) else elim rest [
        | none ↦ none
        | some none ↦ some none
        | some (some s) ↦ some (some (c ∷ s))
      ]
    ]

-- The array has `printf_max_args` words, which the code does not check.
abbrev pub store_arg : Arg → Scan → Action
store_arg a st =
    if ltb st.numargs (length st.args)
    then go plain (record st { numargs = st.numargs + 1; args = set st.args st.numargs a })
    else stop undefined

module _ (space : Space) (sys_mode : Bool) (trap_args : ℕ) where
  -- The word of the next argument; a page that is not there leaves the array's word alone.
  abbrev pub next_arg : Scan → Arg
  next_arg st = elim (space.word (trap_args + 4 * (st.numargs + 1))) [
    | none ↦ elim (get_elem? st.args st.numargs) [ none ↦ unset | some a ↦ a ]
    | some w ↦ word_arg w
  ]

  abbrev pub store_next : Scan → Action
  store_next st = store_arg (next_arg st) st

  -- A double is two words.
  abbrev pub store_double : Scan → Action
  store_double st = elim (store_next st) [ stop r ↦ stop r | go p st' ↦ store_next st' ]

  abbrev pub store_text : Option (Option (List ℕ)) → Scan → Action
  store_text none st = stop undefined
  store_text (some none) st = stop refused
  store_text (some (some s)) st =
      store_arg (text_arg s) (record st { string_argnum = st.string_argnum + 1 })

  -- In system mode the address of the string is passed on.
  pub store_string : Scan → Action
  store_string st =
      if sys_mode
      then store_next st
      else if st.string_argnum == printf_max_string_args
      then stop refused
      else elim (space.word (trap_args + 4 * (st.numargs + 1))) [
        | none ↦ stop undefined
        | some userstr ↦ store_text (copy_string space printf_max_string_arg_length userstr) st
      ]

  pub act : ℕ → Place → Scan → Action
  act c plain st = go (if c == b'%' then after_percent else plain) st
  act c after_percent st =
      if c == b'%'
      then go plain st
      else if (c == b'c') || ((c == b'd') || (c == b'x'))
      then store_next st
      else if c == b'l'
      then go after_long st
      else if (c == b'f') || ((c == b'g') || (c == b'e'))
      then store_double st
      else if c == b's'
      then store_string st
      else stop refused
  act c after_long st = if c == b'f' then store_double st else stop refused

  abbrev pub print_all : List ℕ → Scan → Printf
  print_all format st =
      if leb st.numargs 12 then printed format (take st.numargs st.args) else refused

  -- The loop over the format's characters. At the end of the format the character behind it is its NUL.
  pub scan : List ℕ → List ℕ → Place → Scan → Printf
  scan format [] plain st = print_all format st
  scan format [] after_percent st = refused
  scan format [] after_long st = refused
  scan format (c ∷ rest) place st = elim (act c place st) [
    | stop r ↦ r
    | go place' st' ↦ scan format rest place' st'
  ]

  abbrev pub scan_copied : Option (Option (List ℕ)) → Printf
  scan_copied none = undefined
  scan_copied (some none) = if sys_mode then undefined else refused
  scan_copied (some (some format)) =
      scan format format plain
        (record { numargs = 0; string_argnum = 0; args = replicate printf_max_args unset })

  -- In system mode the format is read at the address of the arguments themselves.
  pub trap_printf_handler : Printf
  trap_printf_handler =
      if sys_mode
      then scan_copied (copy_string space printf_max_format_length trap_args)
      else elim (space.word trap_args) [
        | none ↦ scan_copied (copy_string space printf_max_format_length 0)
        | some p ↦ scan_copied (copy_string space printf_max_format_length p)
      ]
