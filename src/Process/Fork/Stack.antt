-- ===== src/Process/Fork/Stack.antt =====
-- The array of arguments that ProcessFork of flat/os/process.c puts onto the stack of a new process.
use mathlib.Core.List.{append_assoc}
use os_lab.Prelude.{
  ℕ, zero, suc, ◌+◌, ◌-◌, ◌*◌, ◌≡◌, ◌<◌, ◌≤◌, ◌∙◌, ap, refl, none, some, List, [], ◌∷◌, ◌++◌,
  length, length-append, length-set, drop, get_elem?, get_elem?-set_self, get_elem?-set_ne, set,
  arith, ne→==, lt→ltb,
}
use os_lab.Process.{Arguments, get_argument}
use os_lab.Process.Fork.{arguments_address, argument_loop, fork_arguments, first_entries, store}
use os_lab.Process.Fork.Parse.{join, AreWords, offsets, get_argument-word, get_argument-end}

store-some : (xs : List ℕ) (i v : ℕ) → i < length xs → store xs i v ≡ some (set xs i v)
store-some xs i v h = rw (lt→ltb i (length xs) h) refl

-- One round at a word, and the round at the end.
argument_loop-word :
    (fuel count location : ℕ) (dum : List ℕ) (a b : Arguments)
    → get_argument none a ≡ some (location, b)
    → 0 < location
    → count < length dum
    → argument_loop (suc fuel) dum count a
      ≡ argument_loop fuel (set dum count (arguments_address + location)) (count + 1) b
unfolding argument_loop
argument_loop-word fuel count location dum a b at pos room =
    rw
      (
        at,
        argument_loop,
        lt→ltb count (length dum) room,
        ne→== location 0 (λ e. absurd (omega (arith, e, pos))),
      )
      refl

argument_loop-end :
    (fuel count : ℕ) (dum : List ℕ) (a : Arguments)
    → get_argument none a ≡ some (0, a)
    → count < length dum
    → argument_loop (suc fuel) dum count a ≡ some (count, set dum count (arguments_address + 0), a)
unfolding argument_loop
argument_loop-end fuel count dum a at room =
    rw (at, argument_loop, lt→ltb count (length dum) room) refl

-- What the array holds from an index on: the addresses of the words. Below the index nothing has changed.
record Holds (dum dum' : List ℕ) (count location : ℕ) (ws : List (List ℕ)) : Type 0 where
  pub size : length dum' ≡ length dum
  pub before : (j : ℕ) → j < count → get_elem? dum' j ≡ get_elem? dum j
  pub words :
      (i o : ℕ)
      → get_elem? (offsets location ws) i ≡ some o
      → get_elem? dum' (count + i) ≡ some (arguments_address + o)

-- One word more in front.
with_first :
    (dum dum' : List ℕ) (count location : ℕ) (w : List ℕ) (ws : List (List ℕ))
    → count < length dum
    → Holds
        (set dum count (arguments_address + location))
        dum'
        (count + 1)
        (location + length w + 1)
        ws
    → (i o : ℕ) → get_elem? (offsets location (w ∷ ws)) i ≡ some o
    → get_elem? dum' (count + i) ≡ some (arguments_address + o)
with_first dum dum' count location w ws room holds zero o h =
    let here : count + 0 ≡ count = omega arith in
    let same : location ≡ o = cc in
    rw here (
      holds.before count (omega arith)
      ∙ get_elem?-set_self dum count (arguments_address + location) room
      ∙ ap (λ k. some (arguments_address + k)) same)
with_first dum dum' count location w ws room holds (suc i) o h =
    let next : count + suc i ≡ count + 1 + i = omega arith in rw next (holds.words i o h)

argument_loop_lem :
    (ws : List (List ℕ)) (fuel count : ℕ) (dum rest : List ℕ) (a : Arguments)
    → AreWords ws
    → drop a.location a.str ≡ join ws ++ (0 ∷ rest)
    → 0 < a.location
    → a.location + length (join ws) ≤ 100
    → length ws < fuel
    → count + length ws < length dum
    → (dum' : List ℕ) × (b : Arguments) × (argument_loop fuel dum count a
        ≡ some (count + length ws, dum', b))
      × Holds dum dum' count a.location ws
argument_loop_lem ws zero count dum rest a words at pos room enough fits =
    absurd (omega (arith, enough))
argument_loop_lem [] (suc fuel) count dum rest a words at pos room enough fits =
    let sum : count + 0 ≡ count = omega arith in
    (
      set dum count (arguments_address + 0),
      a,
      rw sum
          (argument_loop-end fuel count dum a (get_argument-end a rest at) (omega (arith, fits))),
      record {
        size = length-set dum count (arguments_address + 0);
        before = λ j lt.
            get_elem?-set_ne dum (arguments_address + 0) (λ e. absurd (omega (arith, e, lt)));
        words = λ i o h. cc;
      },
    )
argument_loop_lem (w ∷ ws) (suc fuel) count dum rest a (some_char, text, words) at pos room enough
      fits =
    let tail = join ws ++ (0 ∷ rest) in
    let size : length (w ++ (0 ∷ join ws)) ≡ length w + suc (length (join ws)) =
      length-append w (0 ∷ join ws) in
    let (got, left) =
      get_argument-word a w tail some_char text (at ∙ append_assoc w (0 ∷ join ws) (0 ∷ rest))
        (omega (arith, room, size)) in
    let b : Arguments = record a { location = a.location + length w + 1 } in
    let v = arguments_address + a.location in
    let dum₁ = set dum count v in
    let size₁ : length dum₁ ≡ length dum = length-set dum count v in
    let (dum', c, ran, holds) =
      argument_loop_lem ws fuel (count + 1) dum₁ rest b words left (omega arith)
        (omega (arith, room, size)) (omega (arith, enough)) (omega (arith, fits, size₁)) in
    let sum : count + 1 + length ws ≡ count + suc (length ws) = omega arith in
    (
      dum',
      c,
      argument_loop-word fuel count a.location dum a b got pos (omega (arith, fits))
          ∙ ran
          ∙ ap (λ k. some (k, dum', c)) sum,
      record {
        size = holds.size ∙ size₁;
        before = λ j lt.
            holds.before j (omega (arith, lt))
            ∙ get_elem?-set_ne dum v (λ e. absurd (omega (arith, e, lt)));
        words = with_first dum dum' count a.location w ws (omega (arith, fits)) holds;
      },
    )

-- A word and its NUL are two characters at least.
pub words-le : (ws : List (List ℕ)) → AreWords ws → length ws + length ws ≤ length (join ws)
words-le [] words = omega arith
words-le (w ∷ ws) (some_char, text, words) =
    omega (arith, length-append w (0 ∷ join ws), words-le ws words)

-- The last two entries that are written.
fork_arguments-first :
    (param dum dum' : List ℕ) (a b c : Arguments) (n location : ℕ)
    → get_argument (some param) a ≡ some (location, b)
    → 2 < length dum
    → argument_loop 101 (set dum 2 (arguments_address + location)) 3 b ≡ some (n, dum', c)
    → length dum' ≡ length dum
    → fork_arguments param dum a
      ≡ some (n, set (set dum' 0 (n - 2)) 1 (arguments_address - (n - 2) * 4), c)
unfolding fork_arguments
fork_arguments-first param dum dum' a b c n location got room ran size =
    let size₁ : length (set dum' 0 (n - 2)) ≡ length dum' = length-set dum' 0 (n - 2) in
    rw
      (
        got,
        fork_arguments,
        lt→ltb 2 (length dum) room,
        ran,
        first_entries,
        lt→ltb 0 (length dum') (omega (arith, size, room)),
        lt→ltb 1 (length (set dum' 0 (n - 2))) (omega (arith, size, size₁, room)),
      )
      refl

get_argument-start :
    (string : List ℕ) (a : Arguments)
    → get_argument (some string) a ≡ get_argument none (record { str = string; location = 0 })
unfolding get_argument
get_argument-start string a = refl

-- ProcessFork's treatment of a string of arguments: if the string holds some words, each ended by a NUL, 100
-- characters with their NULs at most and then an empty word, the new process's stack gets the number of
-- words, the address of the words' addresses, and the address of each word in the copy of the string, in
-- order.
pub fork_arguments_lem :
    (w : List ℕ) (ws : List (List ℕ)) (rest dum : List ℕ) (a : Arguments)
    → AreWords (w ∷ ws)
    → length (join (w ∷ ws)) ≤ 100
    → length dum ≡ 136
    → (dum' : List ℕ) × (b : Arguments) × (fork_arguments (join (w ∷ ws) ++ (0 ∷ rest)) dum a
        ≡ some (3 + length ws, dum', b))
      × (get_elem? dum' 0 ≡ some (length (w ∷ ws)))
      × (get_elem? dum' 1 ≡ some (arguments_address - length (w ∷ ws) * 4))
      × ((i o : ℕ)
          → get_elem? (offsets 0 (w ∷ ws)) i ≡ some o
          → get_elem? dum' (2 + i) ≡ some (arguments_address + o))
fork_arguments_lem w ws rest dum a (some_char, text, words) room size =
    let string = join (w ∷ ws) ++ (0 ∷ rest) in
    let start : Arguments = record { str = string; location = 0 } in
    let long : length (w ++ (0 ∷ join ws)) ≡ length w + suc (length (join ws)) =
      length-append w (0 ∷ join ws) in
    let few = words-le ws words in
    let (got, left) =
      get_argument-word start w (join ws ++ (0 ∷ rest)) some_char text
        (append_assoc w (0 ∷ join ws) (0 ∷ rest)) (omega (arith, room, long)) in
    let b : Arguments = record { str = string; location = 0 + length w + 1 } in
    let dum₁ = set dum 2 (arguments_address + 0) in
    let size₁ : length dum₁ ≡ length dum = length-set dum 2 (arguments_address + 0) in
    let (dum₂, c, ran, holds) =
      argument_loop_lem ws 101 3 dum₁ rest b words left (omega arith) (omega (arith, room, long))
        (omega (arith, few, room, long)) (omega (arith, few, room, long, size, size₁)) in
    let n = 3 + length ws in
    let dum₃ = set dum₂ 0 (n - 2) in
    let argv = arguments_address - (n - 2) * 4 in
    let size₂ : length dum₂ ≡ 136 = holds.size ∙ size₁ ∙ size in
    let size₃ : length dum₃ ≡ length dum₂ = length-set dum₂ 0 (n - 2) in
    let number : n - 2 ≡ suc (length ws) = omega arith in
    (
      set dum₃ 1 argv,
      c,
      fork_arguments-first string dum dum₂ a b c n 0 (get_argument-start string a ∙ got)
          (omega (arith, size)) ran (holds.size ∙ size₁),
      get_elem?-set_ne dum₃ argv (λ e. absurd (omega (arith, e)))
          ∙ get_elem?-set_self dum₂ 0 (n - 2) (omega (arith, size₂))
          ∙ ap some number,
      get_elem?-set_self dum₃ 1 argv (omega (arith, size₂, size₃))
          ∙ ap (λ k. some (arguments_address - k * 4)) number,
      λ i o h.
          get_elem?-set_ne dum₃ argv (λ e. absurd (omega (arith, e)))
          ∙ get_elem?-set_ne dum₂ (n - 2) (λ e. absurd (omega (arith, e)))
          ∙ with_first dum dum₂ 2 0 w ws (omega (arith, size)) holds i o h,
    )
