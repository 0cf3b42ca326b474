-- ===== src/Traps/Timer.antt =====
-- The traps and interrupts of flat/os/traps.c that end in a call of the scheduler: the cases of
-- dointerrupt for the timer, a context switch, a sleep and an exit.
pub mod Preempt
use os_lab.Prelude.{ℕ, zero, suc, ◌==◌, if◌then◌else◌}
use os_lab.Os.{Run, Cmd, ok, fault, exited, pure, gets, modify, ◌>>=◌, ◌>>◌}
use os_lab.Process.{System, pointee, process_suspend, process_destroy, process_schedule}
use os_lab.Traps.Clock.{Clock, clk_interrupt, clk_reset_process}

pub record Machine : Type 0 where
  pub system : System
  pub clock : Clock

module _ {A : Type 0} where
  abbrev pub with_system : Machine → Run System A → Run Machine A
  with_system m (ok a s) = ok a (record m { system = s })
  with_system m fault = fault
  with_system m exited = exited

  abbrev pub in_system : Cmd System A → Cmd Machine A
  in_system c m = with_system m (c m.system)

  abbrev pub with_clock : Machine → Run Clock A → Run Machine A
  with_clock m (ok a c) = ok a (record m { clock = c })
  with_clock m fault = fault
  with_clock m exited = exited

  abbrev pub in_clock : Cmd Clock A → Cmd Machine A
  in_clock c m = with_clock m (c m.clock)

-- TRAP_TIMER
pub timer_interrupt : Cmd Machine (Unit {0})
timer_interrupt = do
  quantum ← in_clock clk_interrupt
  if quantum == 0 then pure tt else in_system process_schedule

-- TRAP_CONTEXT_SWITCH
pub context_switch : Cmd Machine (Unit {0})
context_switch = in_system process_schedule >> in_clock clk_reset_process

-- TRAP_PROCESS_SLEEP
pub sleep_trap : Cmd Machine (Unit {0})
sleep_trap = in_system (gets (λ s. s.current_pcb) >>= pointee >>= process_suspend) >> context_switch

-- TRAP_EXIT and TRAP_USER_EXIT
pub exit_trap : Cmd Machine (Unit {0})
exit_trap = in_system (gets (λ s. s.current_pcb) >>= pointee >>= process_destroy) >> context_switch
