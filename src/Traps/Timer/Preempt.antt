-- ===== src/Traps/Timer/Preempt.antt =====
-- Preemption: what timer interrupts do to the processes, by flat/os/clock.c, flat/os/traps.c and
-- flat/os/process.c together.
use os_lab.Prelude.{
  ℕ, zero, suc, ◌+◌, ◌*◌, ◌≡◌, ◌<◌, ◌∙◌, ap, refl, subst, List, [], ◌∷◌, ◌++◌, length, arith,
}
use os_lab.Os.{and_then, Run, Cmd, ok, fault, exited, pure, ◌>>◌}
use os_lab.Queue.Model.{Models}
use os_lab.Queue.{put}
use os_lab.Queue.Remove.{AreShort}
use os_lab.Process.{System, run_queue, zombie_queue, process_schedule}
use os_lab.Process.Schedule.{schedules, process_schedule-turn}
use os_lab.Traps.Clock.{Clock}
use os_lab.Traps.Clock.Quantum.{RunsFor, clk_interrupt-early, clk_interrupt-late}
use os_lab.Traps.Timer.{Machine, timer_interrupt}

-- So many timer interrupts in a row.
abbrev pub timers : ℕ → Cmd Machine (Unit {0})
timers zero = pure tt
timers (suc n) = timer_interrupt >> timers n

timer_interrupt-early :
    (k : ℕ) (m : Machine)
    → RunsFor k m.clock
    → k < 10
    → (c : Clock) × (timer_interrupt m ≡ ok tt (record m { clock = c })) × RunsFor (k + 1) c
unfolding timer_interrupt
timer_interrupt-early k m r lt =
    let (c, ran, r') = clk_interrupt-early k m.clock r lt in (c, rw ran refl, r')

timer_interrupt-late :
    (m : Machine) (s : System)
    → RunsFor 10 m.clock
    → process_schedule m.system ≡ ok tt s
    → (c : Clock) × (timer_interrupt m ≡ ok tt (record { system = s; clock = c })) × RunsFor 0 c
unfolding timer_interrupt
timer_interrupt-late m s r scheduled =
    let (c, ran, r') = clk_interrupt-late m.clock r in (c, rw (ran, scheduled) refl, r')

-- The rest of a quantum, the interrupts of a whole one behind it.
quantum_rest :
    (j k n : ℕ) (m : Machine) (s : System)
    → j + k ≡ 10
    → RunsFor k m.clock
    → process_schedule m.system ≡ ok tt s
    → (c : Clock) × (timers (suc j + n) m ≡ timers n (record { system = s; clock = c }))
      × RunsFor 0 c
quantum_rest zero k n m s sum r scheduled =
    let ten : k ≡ 10 = omega (arith, sum) in
    let (c, ran, r') = timer_interrupt-late m s (subst (λ i. RunsFor i m.clock) ten r) scheduled in
    let one : suc zero + n ≡ suc n = omega arith in (c, rw one (rw ran refl), r')
quantum_rest (suc j) k n m s sum r scheduled =
    let (c, ran, r') = timer_interrupt-early k m r (omega (arith, sum)) in
    let (d, ran', r'') =
      quantum_rest j (k + 1) n (record m { clock = c }) s (omega (arith, sum)) r' scheduled in
    let next : suc (suc j) + n ≡ suc (suc j + n) = omega arith in (d, rw next (rw ran ran'), r'')

-- Two calls in a row succeed only if the first does.
first_ok :
    (r : Run System (Unit {0})) (k : Cmd System (Unit {0})) (t : System)
    → and_then r (λ _. k) ≡ ok tt t
    → (s : System) × (r ≡ ok tt s) × (k s ≡ ok tt t)
first_ok (ok u s) k t h = (s, refl, h)
first_ok fault k t h = cc
first_ok exited k t h = cc

-- Each quantum of eleven interrupts is one call of the scheduler.
pub timers-schedules :
    (n : ℕ) (m : Machine) (t : System)
    → RunsFor 0 m.clock
    → schedules n m.system ≡ ok tt t
    → (c : Clock) × (timers (n * 11) m ≡ ok tt (record { system = t; clock = c })) × RunsFor 0 c
timers-schedules zero m t r ran =
    let same : m.system ≡ t = cc in (m.clock, ap (λ s. ok tt (record m { system = s })) same, r)
timers-schedules (suc n) m t r ran =
    let (s, scheduled, later) = first_ok (process_schedule m.system) (schedules n) t ran in
    let (c, quantum, r') = quantum_rest 10 0 (n * 11) m s refl r scheduled in
    let (d, rest, r'') = timers-schedules n (record { system = s; clock = c }) t r' later in
    let sum : suc n * 11 ≡ 11 + n * 11 = omega arith in
    (d, ap (λ k. timers k m) sum ∙ quantum ∙ rest, r'')

-- Preemption. The clock runs and has been reset at the present jiffy, the queues stand for lists
-- shorter than 2 ^ 32, and there are no zombies. Then eleven timer interrupts for each process in
-- front of it in the run queue make the process at a link of that queue the current one: none of
-- the interrupts fails, and the run queue is then rotated to begin with that link, with no other
-- queue changed. The clock counts from 0 again.
pub timers-turn :
    (xs : List ℕ) (machine : Machine) (m : ℕ → List ℕ) (x l : ℕ) (ys : List ℕ)
    → RunsFor 0 machine.clock
    → Models machine.system.store m
    → AreShort m
    → m zombie_queue ≡ []
    → m run_queue ≡ (x ∷ xs) ++ (l ∷ ys)
    → (t : System) × (c : Clock) × (timers (length (x ∷ xs) * 11) machine
        ≡ ok tt (record { system = t; clock = c }))
      × RunsFor 0 c
      × (t.current_pcb ≡ (machine.system.store.links l).object)
      × Models t.store (put m run_queue ((l ∷ ys) ++ (x ∷ xs)))
timers-turn xs machine m x l ys r models short no_zombies at =
    let (t, ran, now, models', same) =
      process_schedule-turn xs machine.system m x l ys models short no_zombies at in
    let (c, ran', r') = timers-schedules (length (x ∷ xs)) machine t r ran in
    (t, c, ran', r', now, models')
