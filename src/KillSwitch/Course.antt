-- ===== src/KillSwitch/Course.antt =====
-- That the switch does reset the phone: the looks at keys that are held.
use elfloader3_elfs_archive.Prelude.{
  ℕ, zero, suc, ◌*◌, ◌/◌, ◌^◌, ◌≤◌, ◌≡◌, ◌≢◌, inl, inr, refl, ap, ◌∙◌, true, false, List, [], ◌∷◌,
  none, ok, eq_bind, leb, le→leb, if◌then◌else◌, if_true, if_false, Bool-cases, arith,
}
use elfloader3_elfs_archive.KillSwitch.Stopwatch.{in_units, stopwatch_elapsed, stopwatch_elapsed_ms}
use elfloader3_elfs_archive.KillSwitch.Timer.{
  Tick, Switch, resets, waits, is_pressed, restart, next_timeout, on_timer_expire, run,
}
use elfloader3_elfs_archive.KillSwitch.Holding.{
  IsHeld, due, held, press_start, press_start-down, press_start-up,
}

-- The bounds that the editor of the settings keeps, and a clock with a tick in each millisecond.
pub record IsUsable (s : Switch) : Type 0 where
  pub period : s.settings.config.timer_period ≤ 10000
  pub timeout : s.settings.config.press_timeout ≤ 10000
  pub ticks : s.stopwatch.ticks_per_ms ≢ 0

restart-fits :
    (timeout : ℕ) (s : Switch) → timeout ≤ 10000 → (n : ℕ) × (restart timeout s ≡ ok (waits s n))
unfolding restart
restart-fits timeout s small =
    (_, if_false (leb (2 ^ 31) (next_timeout timeout * 1000)) _ _ (ground (arith, small)))

in_units-ok : (d ticks : ℕ) → d ≢ 0 → (ms : ℕ) × (in_units d ticks ≡ ok ms)
unfolding in_units
in_units-ok zero ticks nonzero = absurd (nonzero refl)
in_units-ok (suc d) ticks nonzero = (_, refl)

elapsed_ms-ok :
    (s : Switch) (now start : ℕ)
    → IsUsable s
    → (ms : ℕ) × (stopwatch_elapsed_ms s.stopwatch now start ≡ ok ms)
unfolding stopwatch_elapsed_ms
elapsed_ms-ok s now start usable =
    in_units-ok s.stopwatch.ticks_per_ms (stopwatch_elapsed now start) usable.ticks

-- A look at held keys, by the time since the press began.
look_down :
    (t : Tick) (s : Switch) (ms : ℕ)
    → is_pressed t.ports s.config_keys ≡ true
    → stopwatch_elapsed_ms s.stopwatch t.later (press_start t s) ≡ ok ms
    → on_timer_expire t s ≡ (
        if leb s.settings.config.press_timeout ms
        then ok resets
        else restart
            (s.settings.config.press_timeout / 2)
            (record s { last_press_time = press_start t s }))
unfolding on_timer_expire
look_down t s ms pressed elapsed = if_true _ _ _ pressed ∙ eq_bind _ elapsed

look_up :
    (t : Tick) (s : Switch)
    → is_pressed t.ports s.config_keys ≡ false
    → on_timer_expire t s
      ≡ restart s.settings.config.timer_period (record s { last_press_time = 0 })
unfolding on_timer_expire
look_up t s up = if_false _ _ _ up

run_resets :
    (t : Tick) (ts : List Tick) (s : Switch)
    → on_timer_expire t s ≡ ok resets
    → run (t ∷ ts) s ≡ ok none
unfolding run
run_resets t ts s e = eq_bind _ e

run_waits :
    (t : Tick) (ts : List Tick) (s s' : Switch) (n : ℕ)
    → on_timer_expire t s ≡ ok (waits s' n)
    → run (t ∷ ts) s ≡ run ts s'
unfolding run
run_waits t ts s s' n e = eq_bind _ e

-- One look at held keys either resets the phone or leaves the press as it began.
run-down :
    (t : Tick) (ts : List Tick) (s : Switch)
    → IsUsable s
    → is_pressed t.ports s.config_keys ≡ true
    → run ts (record s { last_press_time = press_start t s }) ≡ ok none
    → run (t ∷ ts) s ≡ ok none
run-down t ts s usable pressed rest =
    let (ms, elapsed) = elapsed_ms-ok s t.later (press_start t s) usable in
    let (n, waiting) =
      restart-fits (s.settings.config.press_timeout / 2)
        (record s { last_press_time = press_start t s }) (omega (arith, usable.timeout)) in
    elim (Bool-cases (leb s.settings.config.press_timeout ms)) [
      | inl reached ↦ run_resets t ts s (look_down t s ms pressed elapsed ∙ if_true _ _ _ reached)
      | inr early ↦
          run_waits t ts s _ n (look_down t s ms pressed elapsed ∙ (if_false _ _ _ early ∙ waiting))
          ∙ rest
    ]

-- Where the time is over, the rest of the looks does not matter.
run-due :
    (t : Tick) (ts : List Tick) (s : Switch) (ms : ℕ)
    → is_pressed t.ports s.config_keys ≡ true
    → stopwatch_elapsed_ms s.stopwatch t.later (press_start t s) ≡ ok ms
    → s.settings.config.press_timeout ≤ ms
    → run (t ∷ ts) s ≡ ok none
run-due t ts s ms pressed elapsed reached =
    run_resets t ts s (look_down t s ms pressed elapsed ∙ if_true _ _ _ (le→leb _ _ reached))

run-IsHeld :
    (ts : List Tick) (s : Switch) (start : ℕ)
    → IsUsable s
    → start ≢ 0
    → IsHeld s start ts
    → run ts (record s { last_press_time = start }) ≡ ok none
run-IsHeld [] s start usable down h = elim h [ ]
run-IsHeld (t ∷ ts) s start usable down (due pressed ms elapsed reached) =
    let s' = record s { last_press_time = start } in
    run-due t ts s' ms pressed
      (ap (stopwatch_elapsed_ms s.stopwatch t.later) (press_start-down t s' down) ∙ elapsed) reached
run-IsHeld (t ∷ ts) s start usable down (held pressed h) =
    let s' = record s { last_press_time = start } in
    run-down t ts s'
      (record { period = usable.period; timeout = usable.timeout; ticks = usable.ticks }) pressed
      (ap (λ at. run ts (record s { last_press_time = at })) (press_start-down t s' down)
        ∙ run-IsHeld ts s start usable down h)

-- A press that begins now.
run-begins :
    (t : Tick) (ts : List Tick) (s : Switch)
    → IsUsable s
    → s.last_press_time ≡ 0
    → t.now ≢ 0
    → IsHeld s t.now (t ∷ ts)
    → run (t ∷ ts) s ≡ ok none
run-begins t ts s usable up running (due pressed ms elapsed reached) =
    run-due t ts s ms pressed
      (ap (stopwatch_elapsed_ms s.stopwatch t.later) (press_start-up t s up) ∙ elapsed) reached
run-begins t ts s usable up running (held pressed h) = run-down t ts s usable pressed (
    ap (λ at. run ts (record s { last_press_time = at })) (press_start-up t s up)
    ∙ run-IsHeld ts s t.now usable running h)

-- From any state, with settings inside their bounds and a clock that does not show 0: after a look at
-- which the keys are not held, keys that are held at every look until one at which the timeout has
-- passed since the first of them reset the phone, and nothing goes wrong before.
pub run-IsHeld_resets :
    (up t : Tick) (ts : List Tick) (s : Switch)
    → IsUsable s
    → is_pressed up.ports s.config_keys ≡ false
    → t.now ≢ 0
    → IsHeld s t.now (t ∷ ts)
    → run (up ∷ t ∷ ts) s ≡ ok none
run-IsHeld_resets up t ts s usable released running h =
    let s' = record s { last_press_time = 0 } in
    let (n, waiting) = restart-fits s.settings.config.timer_period s' usable.period in
    run_waits up (t ∷ ts) s s' n (look_up up s released ∙ waiting)
    ∙ run-begins t ts s'
        (record { period = usable.period; timeout = usable.timeout; ticks = usable.ticks }) refl
        running h
