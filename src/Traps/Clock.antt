-- ===== src/Traps/Clock.antt =====
-- The clock of flat/os/clock.c. An `int` is its 32-bit pattern, which wraps.
pub mod Quantum
use os_lab.Prelude.{
  ℕ, zero, suc, ◌+◌, ◌/◌, ◌^◌, Bool, true, false, not, ◌&&◌, ◌==◌, ltb, leb, if◌then◌else◌,
}
use os_lab.Prelude.Word.{add32, sub32}
use os_lab.Os.{Cmd, ok, pure, gets, modify, ◌>>=◌, ◌>>◌}

abbrev pub clock_default_resolution : ℕ
clock_default_resolution = 1000

abbrev pub clock_process_jiffies : ℕ
clock_process_jiffies = 10000 / clock_default_resolution

-- The statics of the file, and the register of the machine's timer.
pub record Clock : Type 0 where
  pub curtime : ℕ
  pub clock_resolution : ℕ
  pub clock_running : ℕ
  pub last_trigger_jiffies : ℕ
  pub timer : ℕ

pub clk_module_init : Cmd Clock (Unit {0})
clk_module_init =
    modify (λ c. record c {
      curtime = 0;
      clock_resolution = clock_default_resolution;
      clock_running = 0;
    })

pub clk_start : Cmd Clock (Unit {0})
clk_start = modify (λ c. record c { clock_running = 1; timer = c.clock_resolution })

pub clk_stop : Cmd Clock (Unit {0})
clk_stop = modify (λ c. record c { clock_running = 0 })

-- `a > b` for `int`s, with `b` not negative.
abbrev pub exceeds : ℕ → ℕ → Bool
exceeds a b = not (leb (2 ^ 31) a) && ltb b a

pub clk_interrupt : Cmd Clock ℕ
clk_interrupt c =
    if c.clock_running == 0
    then ok 0 c
    else let ticked : Clock = record c {
      curtime = add32 c.curtime 1;
      timer = c.clock_resolution;
    } in
      if exceeds (sub32 ticked.curtime ticked.last_trigger_jiffies) clock_process_jiffies
      then ok 1 (record ticked { last_trigger_jiffies = ticked.curtime })
      else ok 0 ticked

pub clk_set_resolution : ℕ → Cmd Clock (Unit {0})
clk_set_resolution new_res = modify (λ c. record c { clock_resolution = new_res })

pub clk_get_resolution : Clock → ℕ
clk_get_resolution c = c.clock_resolution

pub clk_get_cur_jiffies : Clock → ℕ
clk_get_cur_jiffies c = c.curtime

pub clk_reset_process : Cmd Clock (Unit {0})
clk_reset_process = modify (λ c. record c { last_trigger_jiffies = c.curtime })
