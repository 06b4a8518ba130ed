-- ===== src/KillSwitch/Stopwatch.antt =====
-- The phone's system timer as a clock: KillSwitch/stopwatch.c.
use elfloader3_elfs_archive.Prelude.{
  ℕ, zero, suc, ◌+◌, ◌-◌, ◌*◌, ◌/◌, ◌%◌, ◌^◌, Out, ok, fault, bad_division,
}

pub record Stopwatch : Type 0 where
  pub ticks_per_s : ℕ
  pub ticks_per_ms : ℕ
  pub ticks_per_us : ℕ

-- `clock` is the divider that the register holds.
unfoldable pub stopwatch_init : ℕ → Out Stopwatch
stopwatch_init zero = fault bad_division
stopwatch_init (suc d) =
    let per_s = 26000000 / suc d in
    ok (record { ticks_per_s = per_s; ticks_per_ms = per_s / 1000; ticks_per_us = per_s / 1000000 })

-- The two halves of the timer, of 32 bits each.
unfoldable pub stopwatch_get : ℕ → ℕ → ℕ
stopwatch_get tim6 tim0 = tim6 * 2 ^ 32 + tim0

-- The clock shows `now`, and `start` is what it showed before: 64 bits, which wrap around.
unfoldable pub stopwatch_elapsed : ℕ → ℕ → ℕ
stopwatch_elapsed now start = (now + 2 ^ 64 - start) % 2 ^ 64

-- The time in a unit that has so many ticks, in 32 bits.
unfoldable pub in_units : ℕ → ℕ → Out ℕ
in_units zero ticks = fault bad_division
in_units (suc d) ticks = ok (ticks / suc d % 2 ^ 32)

module _ (w : Stopwatch) (now start : ℕ) where
  unfoldable pub stopwatch_elapsed_us : Out ℕ
  stopwatch_elapsed_us = in_units w.ticks_per_us (stopwatch_elapsed now start)

  unfoldable pub stopwatch_elapsed_ms : Out ℕ
  stopwatch_elapsed_ms = in_units w.ticks_per_ms (stopwatch_elapsed now start)

  unfoldable pub stopwatch_elapsed_s : Out ℕ
  stopwatch_elapsed_s = in_units w.ticks_per_s (stopwatch_elapsed now start)
