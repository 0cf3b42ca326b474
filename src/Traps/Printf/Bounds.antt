-- ===== src/Traps/Printf/Bounds.antt =====
-- How many arguments TrapPrintfHandler of flat/os/traps.c can take.
use os_lab.Prelude.{
  ℕ, zero, suc, ◌+◌, ◌≡◌, ◌<◌, ◌≤◌, ◌⊎◌, ◌∙◌, refl, inl, inr, false, some, List, [], ◌∷◌, ◌++◌,
  length, replicate, arith, ne→==,
}
use os_lab.Misc.Names.{IsText}
use os_lab.Traps.Create.{Space}
use os_lab.Traps.Create.Pack.{StringAt}
use os_lab.Traps.Printf.{
  Arg, printed, undefined, Scan, plain, copy_string, scan, trap_printf_handler, printf_max_args,
  printf_max_format_length, unset,
}
use os_lab.Traps.Printf.Items.{
  Item, literal, percent_sign, char_item, decimal, hexadecimal, float_f, float_g, float_e,
  long_float, render, render_all, all_words, IsItem, AreItems,
}
use os_lab.Traps.Printf.Steps.{scan-items}

IsText-append : (a b : List ℕ) → IsText a → IsText b → IsText (a ++ b)
IsText-append [] b t u = u
IsText-append (c ∷ a) b t u = (t.0, IsText-append a b t.1 u)

render-IsText : (i : Item) → IsItem i → IsText (render i)
render-IsText (literal c) valid = (valid.1, tt)
render-IsText percent_sign valid = omega arith
render-IsText char_item valid = omega arith
render-IsText decimal valid = omega arith
render-IsText hexadecimal valid = omega arith
render-IsText float_f valid = omega arith
render-IsText float_g valid = omega arith
render-IsText float_e valid = omega arith
render-IsText long_float valid = omega arith

render_all-IsText : (is : List Item) → AreItems is → IsText (render_all is)
render_all-IsText [] valid = tt
render_all-IsText (i ∷ is) (valid, others) =
    IsText-append (render i) (render_all is) (render-IsText i valid) (render_all-IsText is others)

copy_string-text :
    (space : Space) (w : List ℕ) (n p : ℕ)
    → IsText w
    → StringAt space p w
    → length w < n
    → copy_string space n p ≡ some (some w)
unfolding copy_string
copy_string-text space w zero p text at lt = absurd (omega (arith, lt))
copy_string-text space [] (suc n) p text at lt = rw (at, copy_string) refl
copy_string-text space (c ∷ w) (suc n) p (char, text) (here, at) lt =
    rw
      (
        here,
        copy_string,
        ne→== c 0 char,
        copy_string-text space w n (p + 1) text at (omega (arith, lt)),
      )
      refl

-- A printf from user mode with a format of fewer than 256 characters, made of plain characters, `%%`,
-- conversions %c, %d and %x, of a word each, and %f, %g, %e and %lf, of two words each. If they need eight
-- words at most, printf is called with the format and that many words. If they need more, the handler
-- writes outside of its array of arguments, which is undefined: its test for too many arguments comes too
-- late.
pub trap_printf_handler_bounds :
    (space : Space) (trap_args p : ℕ) (is : List Item)
    → space.word trap_args ≡ some p
    → StringAt space p (render_all is)
    → AreItems is
    → length (render_all is) < printf_max_format_length
    → ((all_words is ≤ printf_max_args)
        × (args : List Arg) × (trap_printf_handler space false trap_args
            ≡ printed (render_all is) args)
        × (length args ≡ all_words is))
      ⊎ ((printf_max_args < all_words is) × (trap_printf_handler space false trap_args ≡ undefined))
unfolding trap_printf_handler
trap_printf_handler_bounds space trap_args p is pointer string valid short =
    let format = render_all is in
    let start : Scan = record {
      numargs = 0;
      string_argnum = 0;
      args = replicate printf_max_args unset;
    } in
    let read =
      copy_string-text space format printf_max_format_length p (render_all-IsText is valid) string
        short in
    let begins : trap_printf_handler space false trap_args
        ≡ scan space false trap_args format format plain start =
      rw (pointer, read) refl in
    elim (scan-items space false trap_args format is start valid refl (omega arith)) [
      | inl (fits, args, done, number) ↦
          inl (omega (arith, fits), args, begins ∙ done, omega (arith, number))
      | inr (over, broken) ↦ inr (omega (arith, over), begins ∙ broken)
    ]
