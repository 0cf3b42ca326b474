-- ===== src/Traps/Clock/Quantum.antt =====
-- How many timer interrupts make a quantum of flat/os/clock.c.
use os_lab.Prelude.{ℕ, ◌+◌, ◌%◌, ◌≡◌, ◌≢◌, ◌<◌, ◌≤◌, refl, arith, ne→==, false}
use os_lab.Prelude.Word.{word_mod, sub32}
use os_lab.Os.{ok}
use os_lab.Traps.Clock.{Clock, clk_interrupt, clock_process_jiffies, exceeds}

-- The clock runs, and `k` jiffies have passed since it was reset at jiffy `t`.
pub record RunsFor (k : ℕ) (c : Clock) : Type 0 where
  pub running : c.clock_running ≢ 0
  pub bounded : c.last_trigger_jiffies < word_mod
  pub passed : c.curtime ≡ (c.last_trigger_jiffies + k) % word_mod

exceeds-below : (d : ℕ) → d ≤ 10 → exceeds d clock_process_jiffies ≡ false
exceeds-below d h = ground arith

pub clk_interrupt-early :
    (k : ℕ) (c : Clock)
    → RunsFor k c
    → k < 10
    → (d : Clock) × (clk_interrupt c ≡ ok 0 d) × RunsFor (k + 1) d
unfolding clk_interrupt
clk_interrupt-early k c r lt =
    let now = (c.curtime + 1) % word_mod in
    let since : sub32 now c.last_trigger_jiffies ≡ k + 1 = omega (arith, r.bounded, r.passed, lt) in
    (
      record c { curtime = now; timer = c.clock_resolution },
      rw (ne→== c.clock_running 0 r.running, since, exceeds-below (k + 1) (omega (arith, lt))) refl,
      record {
        running = r.running;
        bounded = r.bounded;
        passed = omega (arith, r.bounded, r.passed);
      },
    )

pub clk_interrupt-late :
    (c : Clock) → RunsFor 10 c → (d : Clock) × (clk_interrupt c ≡ ok 1 d) × RunsFor 0 d
unfolding clk_interrupt
clk_interrupt-late c r =
    let now = (c.curtime + 1) % word_mod in
    let since : sub32 now c.last_trigger_jiffies ≡ 11 = omega (arith, r.bounded, r.passed) in
    (
      record c { curtime = now; timer = c.clock_resolution; last_trigger_jiffies = now },
      rw (ne→== c.clock_running 0 r.running, since) refl,
      record { running = r.running; bounded = omega arith; passed = omega arith },
    )
