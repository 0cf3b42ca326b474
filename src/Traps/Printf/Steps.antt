-- ===== src/Traps/Printf/Steps.antt =====
-- What the loop of TrapPrintfHandler of flat/os/traps.c does at each item of a format.
use os_lab.Prelude.{
  ℕ, ◌+◌, ◌≡◌, ◌<◌, ◌≤◌, ◌⊎◌, ◌∙◌, refl, inl, inr, Bool, List, [], ◌∷◌, ◌++◌, length, length-set,
  length-take, set, take, arith, dec_lt, ne→==, lt→ltb, ge→ltb, le→leb,
}
use os_lab.Traps.Create.{Space}
use os_lab.Traps.Printf.{
  Arg, Printf, printed, undefined, Scan, Place, plain, after_percent, after_long, go, stop,
  store_arg, next_arg, store_next, store_double, act, scan, printf_max_args,
}
use os_lab.Traps.Printf.Items.{
  Item, literal, percent_sign, char_item, decimal, hexadecimal, float_f, float_g, float_e,
  long_float, render, words_of, render_all, all_words, IsItem, AreItems,
}

module _ (space : Space) (sys_mode : Bool) (trap_args : ℕ) (format : List ℕ) where
  scan-go :
      (c : ℕ) (rest : List ℕ) (place p : Place) (st s : Scan)
      → act space sys_mode trap_args c place st ≡ go p s
      → scan space sys_mode trap_args format (c ∷ rest) place st
        ≡ scan space sys_mode trap_args format rest p s
  unfolding scan
  scan-go c rest place p st s e = rw (e, scan) refl

  scan-stop :
      (c : ℕ) (rest : List ℕ) (place : Place) (st : Scan) (r : Printf)
      → act space sys_mode trap_args c place st ≡ stop r
      → scan space sys_mode trap_args format (c ∷ rest) place st ≡ r
  unfolding scan
  scan-stop c rest place st r e = rw (e, scan) refl

  -- The loop has room for an item and is behind it, or it runs over the array.
  abbrev StepsOver : ℕ → List ℕ → List ℕ → Scan → Type 0
  StepsOver k front rest st =
      ((st.numargs + k ≤ printf_max_args)
        × (s : Scan) × (scan space sys_mode trap_args format (front ++ rest) plain st
            ≡ scan space sys_mode trap_args format rest plain s)
        × (s.numargs ≡ st.numargs + k)
        × (length s.args ≡ printf_max_args))
      ⊎ ((printf_max_args < st.numargs + k)
          × (scan space sys_mode trap_args format (front ++ rest) plain st ≡ undefined))

  abbrev stored : Arg → Scan → Scan
  stored a st = record st { numargs = st.numargs + 1; args = set st.args st.numargs a }

  store_arg-room :
      (a : Arg) (st : Scan)
      → length st.args ≡ printf_max_args
      → st.numargs < printf_max_args
      → store_arg a st ≡ go plain (stored a st)
  store_arg-room a st size room =
      rw (lt→ltb st.numargs (length st.args) (omega (arith, size, room))) refl

  store_arg-full :
      (a : Arg) (st : Scan)
      → length st.args ≡ printf_max_args
      → printf_max_args ≤ st.numargs
      → store_arg a st ≡ stop undefined
  store_arg-full a st size full =
      rw (ge→ltb st.numargs (length st.args) (omega (arith, size, full))) refl

  word_step :
      (c : ℕ) (rest : List ℕ) (st : Scan)
      → act space sys_mode trap_args c after_percent st ≡ store_next space sys_mode trap_args st
      → length st.args ≡ printf_max_args
      → StepsOver 1 (b'%' ∷ c ∷ []) rest st
  unfolding act
  word_step c rest st e size =
      let a = next_arg space sys_mode trap_args st in
      let begins = scan-go b'%' (c ∷ rest) plain after_percent st st refl in
      elim (dec_lt st.numargs printf_max_args) [
        | yes room ↦ inl (
          omega (arith, room),
          stored a st,
          begins
              ∙ scan-go c rest after_percent plain st (stored a st)
                  (e ∙ store_arg-room a st size room),
          refl,
          length-set st.args st.numargs a ∙ size,
        )
        | no full ↦ inr (
          omega (arith, full),
          begins
              ∙ scan-stop c rest after_percent st undefined
                  (e ∙ store_arg-full a st size (omega (arith, full))),
        )
      ]

  -- A double, behind a prefix that the loop has read.
  double_step :
      (front : List ℕ) (c : ℕ) (place : Place) (rest : List ℕ) (st : Scan)
      → scan space sys_mode trap_args format (front ++ rest) plain st
        ≡ scan space sys_mode trap_args format (c ∷ rest) place st
      → act space sys_mode trap_args c place st ≡ store_double space sys_mode trap_args st
      → length st.args ≡ printf_max_args
      → StepsOver 2 front rest st
  double_step front c place rest st begins e size =
      let a = next_arg space sys_mode trap_args st in
      let s = stored a st in
      let b = next_arg space sys_mode trap_args s in
      let size' : length s.args ≡ printf_max_args = length-set st.args st.numargs a ∙ size in
      elim (dec_lt st.numargs printf_max_args) [
        | yes room ↦
            let first : store_double space sys_mode trap_args st ≡ store_arg b s =
              rw (store_arg-room a st size room, store_double) refl in
            elim (dec_lt (st.numargs + 1) printf_max_args) [
              | yes more ↦ inl (
                omega (arith, more),
                stored b s,
                begins
                    ∙ scan-go c rest place plain st (stored b s)
                        (e ∙ first ∙ store_arg-room b s size' more),
                omega arith,
                length-set s.args s.numargs b ∙ size',
              )
              | no full ↦ inr (
                omega (arith, full),
                begins
                    ∙ scan-stop c rest place st undefined
                        (e ∙ first ∙ store_arg-full b s size' (omega (arith, full))),
              )
            ]
        | no full ↦
            let first : store_double space sys_mode trap_args st ≡ stop undefined =
              rw (store_arg-full a st size (omega (arith, full)), store_double) refl in
            inr (omega (arith, full), begins ∙ scan-stop c rest place st undefined (e ∙ first))
      ]

  item_step :
      (i : Item) (rest : List ℕ) (st : Scan)
      → IsItem i
      → length st.args ≡ printf_max_args
      → st.numargs ≤ printf_max_args
      → StepsOver (words_of i) (render i) rest st
  unfolding act
  item_step (literal c) rest st valid size le = inl (
    omega (arith, le),
    st,
    scan-go c rest plain plain st st (rw (ne→== c b'%' valid.0) refl),
    omega arith,
    size,
  )
  item_step percent_sign rest st valid size le = inl (
    omega (arith, le),
    st,
    scan-go b'%' (b'%' ∷ rest) plain after_percent st st refl
        ∙ scan-go b'%' rest after_percent plain st st refl,
    omega arith,
    size,
  )
  item_step char_item rest st valid size le = word_step b'c' rest st refl size
  item_step decimal rest st valid size le = word_step b'd' rest st refl size
  item_step hexadecimal rest st valid size le = word_step b'x' rest st refl size
  item_step float_f rest st valid size le =
      double_step (b'%' ∷ b'f' ∷ []) b'f' after_percent rest st
        (scan-go b'%' (b'f' ∷ rest) plain after_percent st st refl) refl size
  item_step float_g rest st valid size le =
      double_step (b'%' ∷ b'g' ∷ []) b'g' after_percent rest st
        (scan-go b'%' (b'g' ∷ rest) plain after_percent st st refl) refl size
  item_step float_e rest st valid size le =
      double_step (b'%' ∷ b'e' ∷ []) b'e' after_percent rest st
        (scan-go b'%' (b'e' ∷ rest) plain after_percent st st refl) refl size
  item_step long_float rest st valid size le =
      double_step (b'%' ∷ b'l' ∷ b'f' ∷ []) b'f' after_long rest st
        (scan-go b'%' (b'l' ∷ b'f' ∷ rest) plain after_percent st st refl
          ∙ scan-go b'l' (b'f' ∷ rest) after_percent after_long st st refl)
        refl size

  pub scan-items :
      (is : List Item) (st : Scan)
      → AreItems is
      → length st.args ≡ printf_max_args
      → st.numargs ≤ printf_max_args
      → ((st.numargs + all_words is ≤ printf_max_args)
          × (args : List Arg) × (scan space sys_mode trap_args format (render_all is) plain st
              ≡ printed format args)
          × (length args ≡ st.numargs + all_words is))
        ⊎ ((printf_max_args < st.numargs + all_words is)
            × (scan space sys_mode trap_args format (render_all is) plain st ≡ undefined))
  unfolding scan
  scan-items [] st valid size le = inl (
    omega (arith, le),
    take st.numargs st.args,
    rw (le→leb st.numargs 12 (omega (arith, le))) refl,
    omega (arith, length-take st.numargs st.args, size, le),
  )
  scan-items (i ∷ is) st (valid, others) size le =
      elim (item_step i (render_all is) st valid size le) [
        | inr (over, ran) ↦ inr (omega (arith, over), ran)
        | inl (room, s, ran, count, size') ↦
            elim (scan-items is s others size' (omega (arith, room, count))) [
              | inl (fits, args, done, number) ↦
                  inl (omega (arith, fits, count), args, ran ∙ done, omega (arith, number, count))
              | inr (over, broken) ↦ inr (omega (arith, over, count), ran ∙ broken)
            ]
      ]
