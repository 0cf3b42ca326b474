-- ===== src/Traps/Create/Pack.antt =====
-- The loops of TrapProcessCreateHandler of flat/os/traps.c on strings in the caller's memory.
use mathlib.Core.List.{append_assoc, append-nil}
use os_lab.Prelude.{
  ℕ, zero, suc, ◌+◌, ◌≡◌, ◌≢◌, ◌<◌, ◌∙◌, ap, refl, sym, false, ◌==◌, some, List, [], ◌∷◌, ◌++◌,
  length, length-append, set, take, drop, take-append-drop, length-take, length-drop, if◌then◌else◌,
  arith, ne→==,
}
use os_lab.Os.{ok, pure, ◌>>=◌}
use os_lab.Misc.Names.{IsText}
use os_lab.Process.Fork.{size_arg_buff}
use os_lab.Process.Fork.Parse.{join, AreWords}
use os_lab.Traps.Create.{Space, copy_name, copy_argument, copy_arguments}

-- A string of the caller's memory, and a list of pointers to strings that ends with NULL.
abbrev pub StringAt : Space → ℕ → List ℕ → Type 0
StringAt space p [] = space.byte p ≡ some 0
StringAt space p (c ∷ w) = (space.byte p ≡ some c) × StringAt space (p + 1) w

abbrev pub StringsAt : Space → ℕ → List (List ℕ) → Type 0
StringsAt space trap_args [] = space.word trap_args ≡ some 0
StringsAt space trap_args (w ∷ ws) =
    (p : ℕ) × (space.word trap_args ≡ some p)
    × (p ≢ 0)
    × StringAt space p w
    × StringsAt space (trap_args + 4) ws

set-append :
    (xs ys : List ℕ) (x v : ℕ) → set (xs ++ (x ∷ ys)) (length xs) v ≡ (xs ++ (v ∷ [])) ++ ys
set-append [] ys x v = refl
set-append (y ∷ xs) ys x v = ap (λ zs. y ∷ zs) (set-append xs ys x v)

empty : {A : Type 0} (xs : List A) → length xs ≡ 0 → xs ≡ []
empty [] h = refl
empty (x ∷ xs) h = absurd (omega (arith, h))

module _ (space : Space) where
  pub copy_name_lem :
      (w : List ℕ) (n p : ℕ) (s : List ℕ)
      → IsText w
      → StringAt space p w
      → length w < n
      → copy_name space false n p s ≡ ok (w ++ (0 ∷ [])) s
  unfolding copy_name
  copy_name_lem w zero p s text at lt = absurd (omega (arith, lt))
  copy_name_lem [] (suc n) p s text at lt = rw (at, copy_name) refl
  copy_name_lem (c ∷ w) (suc n) p s (char, text) (here, at) lt =
      rw (here, copy_name, ne→== c 0 char, copy_name_lem w n (p + 1) s text at (omega (arith, lt)))
        refl

  -- One character.
  copy_argument-step :
      (n p c : ℕ) (s ys : List ℕ) (x : ℕ)
      → space.byte p ≡ some c
      → length s + 1 < size_arg_buff
      → copy_argument space (suc n) p (length s) (s ++ (x ∷ ys))
        ≡ (if c == 0 then pure (length s + 1) else copy_argument space n (p + 1) (length s + 1))
            ((s ++ (c ∷ [])) ++ ys)
  unfolding copy_argument
  copy_argument-step n p c s ys x here room =
      rw
        (
          here,
          set-append s ys x c,
          ne→== (length s + 1) size_arg_buff (λ e. absurd (omega (arith, e, room))),
        )
        refl

  -- A whole argument, over whatever the buffer has held there.
  pub copy_argument_lem :
      (w : List ℕ) (n p : ℕ) (s xs zs : List ℕ)
      → IsText w
      → StringAt space p w
      → length w < n
      → length xs ≡ suc (length w)
      → length s + suc (length w) < size_arg_buff
      → copy_argument space n p (length s) (s ++ (xs ++ zs))
        ≡ ok (length (s ++ (w ++ (0 ∷ [])))) ((s ++ (w ++ (0 ∷ []))) ++ zs)
  copy_argument_lem w zero p s xs zs text at lt size room = absurd (omega (arith, lt))
  copy_argument_lem w (suc n) p s [] zs text at lt size room = absurd (omega (arith, size))
  copy_argument_lem [] (suc n) p s (x ∷ xs) zs text at lt size room =
      let none_left : xs ≡ [] = empty xs (omega (arith, size)) in
      rw none_left (
        copy_argument-step n p 0 s zs x at (omega (arith, room))
        ∙ ap (λ l. ok l ((s ++ (0 ∷ [])) ++ zs)) (sym (length-append s (0 ∷ []))))
  copy_argument_lem (c ∷ w) (suc n) p s (x ∷ xs) zs (char, text) (here, at) lt size room =
      let long : length (s ++ (c ∷ [])) ≡ length s + 1 = length-append s (c ∷ []) in
      let joined : (s ++ (c ∷ [])) ++ (w ++ (0 ∷ [])) ≡ s ++ (c ∷ (w ++ (0 ∷ []))) =
        append_assoc s (c ∷ []) (w ++ (0 ∷ [])) in
      copy_argument-step n p c s (xs ++ zs) x here (omega (arith, room))
      ∙ rw (ne→== c 0 char, ← long)
          (copy_argument_lem w n (p + 1) (s ++ (c ∷ [])) xs zs text at (omega (arith, lt))
              (omega (arith, size)) (omega (arith, room, long))
            ∙ ap (λ t. ok (length t) (t ++ zs)) joined)

  copy_arguments-step :
      (n q p : ℕ) (userarg : ℕ) (s : List ℕ) (position : ℕ)
      → space.word q ≡ some p
      → p ≢ 0
      → copy_arguments space (suc n) q userarg position s
        ≡ (copy_argument space size_arg_buff p position >>= λ position'.
              copy_arguments space n (q + 4) p position')
            s
  unfolding copy_arguments
  copy_arguments-step n q p userarg s position at some_pointer =
      rw (at, ne→== p 0 some_pointer) refl

  copy_arguments-end :
      (n q userarg : ℕ) (s : List ℕ) (position : ℕ)
      → space.word q ≡ some 0
      → copy_arguments space (suc n) q userarg position s ≡ ok position s
  unfolding copy_arguments
  copy_arguments-end n q userarg s position at = rw at refl

  -- All arguments, over whatever the buffer has held there.
  pub copy_arguments_lem :
      (ws : List (List ℕ)) (n q userarg : ℕ) (s xs zs : List ℕ)
      → AreWords ws
      → StringsAt space q ws
      → length ws < n
      → length xs ≡ length (join ws)
      → length s + length (join ws) < size_arg_buff
      → (r : ℕ) × (copy_arguments space n q userarg (length s) (s ++ (xs ++ zs))
          ≡ ok r ((s ++ join ws) ++ zs))
  copy_arguments_lem ws zero q userarg s xs zs words at lt size room = absurd (omega (arith, lt))
  copy_arguments_lem [] (suc n) q userarg s xs zs words at lt size room =
      let none_left : xs ≡ [] = empty xs size in
      (
        length s,
        rw (none_left, append-nil s) (copy_arguments-end n q userarg (s ++ zs) (length s) at),
      )
  copy_arguments_lem (w ∷ ws) (suc n) q userarg s xs zs (some_char, text, words)
        (p, here, some_pointer, string, at) lt size room =
      let long : length (w ++ (0 ∷ join ws)) ≡ length w + suc (length (join ws)) =
        length-append w (0 ∷ join ws) in
      let front = take (suc (length w)) xs in
      let back = drop (suc (length w)) xs in
      let t = s ++ (w ++ (0 ∷ [])) in
      let size_t : length t ≡ length s + suc (length w) =
        omega (arith, length-append s (w ++ (0 ∷ [])), length-append w (0 ∷ [])) in
      let (r, ran) =
        copy_arguments_lem ws n (q + 4) p t back zs words at (omega (arith, lt))
          (omega (arith, length-drop (suc (length w)) xs, size, long))
          (omega (arith, size_t, room, long)) in
      let parts : xs ++ zs ≡ front ++ (back ++ zs) =
        ap (λ z. z ++ zs) (sym (take-append-drop (suc (length w)) xs))
        ∙ append_assoc front back zs in
      let whole : t ++ join ws ≡ s ++ (w ++ (0 ∷ join ws)) =
        append_assoc s (w ++ (0 ∷ [])) (join ws)
        ∙ ap (λ z. s ++ z) (append_assoc w (0 ∷ []) (join ws)) in
      let first =
        copy_argument_lem w size_arg_buff p s front (back ++ zs) text string
          (omega (arith, room, long)) (omega (arith, length-take (suc (length w)) xs, size, long))
          (omega (arith, room, long)) in
      (
        r,
        rw parts (
            copy_arguments-step n q p userarg (s ++ (front ++ (back ++ zs))) (length s) here
              some_pointer
            ∙ rw first (ran ∙ ap (λ z. ok r (z ++ zs)) whole)),
      )
