-- ===== src/Tests/Traps.antt =====
-- A process_create and a run of timer interrupts, and the theorems on them.
use os_lab.Prelude.{
  ℕ, ◌+◌, ◌-◌, ◌*◌, ◌≡◌, ◌⊎◌, ◌≤◌, ◌<◌, ◌==◌, if◌then◌else◌, refl, false, some, List, [], ◌∷◌, ◌++◌,
  length, length-replicate, get_elem?, drop, replicate, arith,
}
use os_lab.Os.{ok}
use os_lab.Queue.{put}
use os_lab.Queue.Model.{Models}
use os_lab.Process.{Arguments, System, run_queue}
use os_lab.Process.Fork.{arguments_address, fork_arguments}
use os_lab.Process.Fork.Parse.{offsets}
use os_lab.Traps.Create.{Space, trap_process_create_handler}
use os_lab.Traps.Create.Start.{fork_arguments-trap_process_create_handler}
use os_lab.Traps.Printf.{Arg, printed, undefined, printf_max_args, trap_printf_handler}
use os_lab.Traps.Printf.Items.{Item, literal, decimal, render_all}
use os_lab.Traps.Printf.Bounds.{trap_printf_handler_bounds}
use os_lab.Traps.Clock.{Clock}
use os_lab.Traps.Clock.Quantum.{RunsFor}
use os_lab.Traps.Timer.{Machine}
use os_lab.Traps.Timer.Preempt.{timers, timers-turn}
use os_lab.Tests.Processes.{processes, process_lists, processes-Models, processes-AreShort}

-- "ls" at address 10, "a" at 20, and their addresses at 100.
abbrev space : Space
space = record {
  byte = λ a.
      if a == 10
      then some b'l'
      else if a == 11
      then some b's'
      else if a == 20
      then some b'a'
      else some 0;
  word = λ a. if a == 100 then some 10 else if a == 104 then some 20 else some 0;
}

abbrev ls : List ℕ
ls = b'l' ∷ b's' ∷ []

abbrev words : List (List ℕ)
words = (b'a' ∷ []) ∷ []

abbrev dum : List ℕ
dum = replicate 136 0

fork_arguments-trap_process_create_handler_example :
    (name allargs dum' : List ℕ) × (b : Arguments) × (trap_process_create_handler space false 100 []
      ≡ ok name allargs)
    × (fork_arguments allargs dum (record { str = []; location = 7 })
        ≡ some (3 + length words, dum', b))
    × (get_elem? dum' 0 ≡ some (length (ls ∷ words)))
    × (get_elem? dum' 1 ≡ some (arguments_address - length (ls ∷ words) * 4))
    × ((i o : ℕ) (v : List ℕ)
        → get_elem? (offsets 0 (ls ∷ words)) i ≡ some o
        → get_elem? (ls ∷ words) i ≡ some v
        → (behind : List ℕ) × (get_elem? dum' (2 + i) ≡ some (arguments_address + o))
          × (drop o allargs ≡ v ++ (0 ∷ behind)))
fork_arguments-trap_process_create_handler_example =
    fork_arguments-trap_process_create_handler space 100 10 ls words [] dum
      (record { str = []; location = 7 }) refl (refl, (refl, refl))
      (20, refl, (λ e. absurd (omega (arith, e))), (refl, refl), refl) (omega arith) (omega arith)
      (omega arith) (length-replicate {A = ℕ} 136 0)

-- "n%d" at address 10.
abbrev printf_space : Space
printf_space = record {
  byte = λ a.
      if a == 10
      then some b'n'
      else if a == 11
      then some b'%'
      else if a == 12
      then some b'd'
      else some 0;
  word = λ a. if a == 100 then some 10 else some 7;
}

abbrev items : List Item
items = literal b'n' ∷ decimal ∷ []

trap_printf_handler_bounds_example :
    ((1 ≤ printf_max_args)
      × (args : List Arg) × (trap_printf_handler printf_space false 100
          ≡ printed (render_all items) args)
      × (length args ≡ 1))
    ⊎ ((printf_max_args < 1) × (trap_printf_handler printf_space false 100 ≡ undefined))
trap_printf_handler_bounds_example =
    trap_printf_handler_bounds printf_space 100 10 items refl (refl, (refl, (refl, refl)))
      (((λ e. absurd (omega (arith, e))), (λ e. absurd (omega (arith, e)))), (tt, tt)) (omega arith)

abbrev machine : Machine
machine = record {
  system = processes;
  clock = record {
    curtime = 40;
    clock_resolution = 1000;
    clock_running = 1;
    last_trigger_jiffies = 40;
    timer = 0;
  };
}

machine-RunsFor : RunsFor 0 machine.clock
machine-RunsFor = record {
  running = λ e. absurd (omega (arith, e));
  bounded = omega arith;
  passed = omega arith;
}

timers-turn_example :
    (t : System) × (c : Clock) × (timers (1 * 11) machine
      ≡ ok tt (record { system = t; clock = c }))
    × RunsFor 0 c
    × (t.current_pcb ≡ some 2)
    × Models t.store (put process_lists run_queue (5 ∷ 3 ∷ []))
timers-turn_example =
    timers-turn [] machine process_lists 3 5 [] machine-RunsFor processes-Models processes-AreShort
      refl refl
