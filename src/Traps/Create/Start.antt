-- ===== src/Traps/Create/Start.antt =====
-- From the system call to the new process: TrapProcessCreateHandler of flat/os/traps.c and ProcessFork of
-- flat/os/process.c.
use mathlib.Core.List.{append_assoc}
use os_lab.Prelude.{
  ℕ, zero, suc, ◌+◌, ◌-◌, ◌*◌, ◌≡◌, ◌<◌, ◌≤◌, ◌∙◌, ap, refl, sym, false, some, List, [], ◌∷◌, ◌++◌,
  length, length-append, length-replicate, get_elem?, drop, replicate, arith,
}
use os_lab.Os.{ok}
use os_lab.Misc.{dstrcpy}
use os_lab.Misc.Names.{dstrlen-text}
use os_lab.Misc.Strings.{dstrcpy-text}
use os_lab.Process.{Arguments}
use os_lab.Process.Fork.{size_arg_buff, arguments_address, fork_arguments}
use os_lab.Process.Fork.Parse.{join, AreWords, offsets, drop-offsets}
use os_lab.Process.Fork.Stack.{fork_arguments_lem, words-le}
use os_lab.Traps.Create.{Space, process_max_name_length, max_args, trap_process_create_handler}
use os_lab.Traps.Create.Pack.{StringAt, StringsAt, copy_name_lem, copy_arguments_lem}

abbrev pub zeros : ℕ → List ℕ
zeros n = replicate n 0

zeros-add : (n m : ℕ) → zeros (n + m) ≡ zeros n ++ zeros m
zeros-add zero m = let e : 0 + m ≡ m = omega arith in ap zeros e
zeros-add (suc n) m =
    let e : suc n + m ≡ suc (n + m) = omega arith in
    ap zeros e ∙ ap (λ (s : List ℕ). 0 ∷ s) (zeros-add n m)

drop-zeros : (n m : ℕ) → drop n (zeros m) ≡ zeros (m - n)
drop-zeros zero m = let e : m ≡ m - 0 = omega arith in ap zeros e
drop-zeros (suc n) zero = let e : 0 ≡ zero - suc n = omega arith in ap zeros e
drop-zeros (suc n) (suc m) =
    let e : m - n ≡ suc m - suc n = omega arith in drop-zeros n m ∙ ap zeros e

module _ (space : Space) (trap_args p : ℕ) (w : List ℕ) (ws : List (List ℕ)) where
  -- A process_create from user mode puts the name and the arguments, each with its NUL, one behind the other
  -- to the front of a buffer that is 0 otherwise, and returns the name: the first trap argument points to
  -- the name, of at most 99 characters, and the next ones to the arguments, at most 127, up to a NULL; no
  -- string is empty, and all together are shorter than the buffer of 1024.
  pub trap_process_create_handler_lem :
      (s : List ℕ)
      → space.word trap_args ≡ some p
      → StringAt space p w
      → StringsAt space (trap_args + 4) ws
      → AreWords (w ∷ ws)
      → length w < process_max_name_length
      → length ws < max_args
      → length (join (w ∷ ws)) < size_arg_buff
      → trap_process_create_handler space false trap_args s
        ≡ ok (w ++ (0 ∷ [])) (join (w ∷ ws) ++ zeros (size_arg_buff - length (join (w ∷ ws))))
  unfolding trap_process_create_handler
  trap_process_create_handler_lem s pointer name strings (some_char, text, words) short few room =
      let n = length w in
      let k = length (join ws) in
      let long : length (w ++ (0 ∷ join ws)) ≡ n + suc k = length-append w (0 ∷ join ws) in
      let left = size_arg_buff - suc n in
      let front = w ++ (0 ∷ []) in
      let size : length front ≡ n + 1 = length-append w (0 ∷ []) in
      let copied_name : dstrcpy (zeros size_arg_buff) front ≡ some (w ++ (0 ∷ zeros left)) =
        dstrcpy-text w [] (zeros size_arg_buff) text
          (omega (arith, length-replicate {A = ℕ} size_arg_buff 0, room, long))
        ∙ ap (λ z. some (w ++ (0 ∷ z))) (drop-zeros (suc n) size_arg_buff) in
      let sum : k + (left - k) ≡ left = omega (arith, room, long) in
      let parts : w ++ (0 ∷ zeros left) ≡ front ++ (zeros k ++ zeros (left - k)) =
        sym (append_assoc w (0 ∷ []) (zeros left))
        ∙ ap (λ z. front ++ z) (ap zeros (sym sum) ∙ zeros-add k (left - k)) in
      let (r, ran) =
        copy_arguments_lem space ws max_args (trap_args + 4) 0 front (zeros k) (zeros (left - k))
          words strings few (length-replicate k 0) (omega (arith, size, room, long)) in
      let whole : (front ++ join ws) ++ zeros (left - k)
          ≡ (w ++ (0 ∷ join ws)) ++ zeros (size_arg_buff - length (w ++ (0 ∷ join ws))) =
        let rest : left - k ≡ size_arg_buff - length (w ++ (0 ∷ join ws)) = omega (arith, long) in
        ap (λ z. z ++ zeros (left - k)) (append_assoc w (0 ∷ []) (join ws))
        ∙ ap (λ m. (w ++ (0 ∷ join ws)) ++ zeros m) rest in
      let position : n + 1 ≡ length front = sym size in
      rw
        (
          pointer,
          copy_name_lem space w process_max_name_length p (zeros size_arg_buff) text name short,
          copied_name,
          dstrlen-text w [] text,
          position,
          parts,
          ran,
          whole,
        )
        refl

  -- From process_create in user mode to the new process's stack: the first trap argument points to
  -- the program's name, of fewer than 100 characters, and the next ones to the arguments, up to a
  -- NULL; no string is empty, and all together have 100 characters at most with their NULs. Then
  -- TrapProcessCreateHandler succeeds, and from the buffer that it fills ProcessFork gets, in its
  -- array of 136 words, the number of the strings, the address of their addresses, and for each
  -- string, in the caller's order, an address whose offset is where that string stands in the
  -- buffer.
  pub fork_arguments-trap_process_create_handler :
      (s dum : List ℕ) (a : Arguments)
      → space.word trap_args ≡ some p
      → StringAt space p w
      → StringsAt space (trap_args + 4) ws
      → AreWords (w ∷ ws)
      → length w < process_max_name_length
      → length (join (w ∷ ws)) ≤ 100
      → length dum ≡ 136
      → (name allargs dum' : List ℕ) × (b : Arguments) × (trap_process_create_handler space false
            trap_args s
          ≡ ok name allargs)
        × (fork_arguments allargs dum a ≡ some (3 + length ws, dum', b))
        × (get_elem? dum' 0 ≡ some (length (w ∷ ws)))
        × (get_elem? dum' 1 ≡ some (arguments_address - length (w ∷ ws) * 4))
        × ((i o : ℕ) (v : List ℕ)
            → get_elem? (offsets 0 (w ∷ ws)) i ≡ some o
            → get_elem? (w ∷ ws) i ≡ some v
            → (behind : List ℕ) × (get_elem? dum' (2 + i) ≡ some (arguments_address + o))
              × (drop o allargs ≡ v ++ (0 ∷ behind)))
  fork_arguments-trap_process_create_handler s dum a pointer name strings (some_char, text, words)
        short room size =
      let long : length (w ++ (0 ∷ join ws)) ≡ length w + suc (length (join ws)) =
        length-append w (0 ∷ join ws) in
      let left = size_arg_buff - length (w ++ (0 ∷ join ws)) in
      let some_left : suc (left - 1) ≡ left = omega (arith, room) in
      let allargs = join (w ∷ ws) ++ (0 ∷ zeros (left - 1)) in
      let packed =
        trap_process_create_handler_lem s pointer name strings (some_char, text, words) short
          (omega (arith, words-le ws words, room, long)) (omega (arith, room)) in
      let (dum', b, ran, count, vector, entries) =
        fork_arguments_lem w ws (zeros (left - 1)) dum a (some_char, text, words) room size in
      (
        w ++ (0 ∷ []),
        allargs,
        dum',
        b,
        packed ∙ ap (λ m. ok (w ++ (0 ∷ [])) (join (w ∷ ws) ++ zeros m)) (sym some_left),
        ran,
        count,
        vector,
        λ i o v at word.
            let (behind, here) = drop-offsets (w ∷ ws) [] (0 ∷ zeros (left - 1)) i o v at word in
            (behind, entries i o at, here),
      )
