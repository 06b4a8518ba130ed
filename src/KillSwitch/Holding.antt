-- ===== src/KillSwitch/Holding.antt =====
-- When the switch resets the phone: the keys that were held, and for how long.
use elfloader3_elfs_archive.Prelude.{
  ℕ, ◌^◌, ◌*◌, zero, suc, ◌≡◌, ◌≢◌, ◌⊎◌, inl, inr, refl, true, false, List, [], ◌∷◌, none, ok,
  fault, overflow, leb, leb→le, ◌==◌, eq→==, ◌≤◌, if◌then◌else◌, bind-ok, ok-injective, if_cases,
  if_true, if_false, arith,
}
use mathlib.Core.Path.{subst}
use elfloader3_elfs_archive.KillSwitch.Stopwatch.{Stopwatch, stopwatch_elapsed_ms}
use elfloader3_elfs_archive.KillSwitch.Timer.{
  Tick, Keys, Switch, Expiry, resets, waits, is_pressed, restart, next_timeout, on_timer_expire,
  run,
}

-- The keys are held at every look until one at which the clock is far enough behind `start`.
pub data HeldFor (keys : Keys) (w : Stopwatch) (timeout start : ℕ) : List Tick → Type 0 where
  due :
      {t : Tick} {ts : List Tick}
      → is_pressed t.ports keys ≡ true
      → (ms : ℕ) → stopwatch_elapsed_ms w t.later start ≡ ok ms
      → timeout ≤ ms
      → HeldFor keys w timeout start (t ∷ ts)
  held :
      {t : Tick} {ts : List Tick}
      → is_pressed t.ports keys ≡ true
      → HeldFor keys w timeout start ts
      → HeldFor keys w timeout start (t ∷ ts)

-- From some look on, the keys are held for the timeout.
pub data Triggers (keys : Keys) (w : Stopwatch) (timeout : ℕ) : List Tick → Type 0 where
  begins :
      {t : Tick} {ts : List Tick}
      → HeldFor keys w timeout t.now (t ∷ ts)
      → Triggers keys w timeout (t ∷ ts)
  further :
      {t : Tick} {ts : List Tick} → Triggers keys w timeout ts → Triggers keys w timeout (t ∷ ts)

-- The same for a switch: what it is set to.
abbrev pub IsHeld : Switch → ℕ → List Tick → Type 0
IsHeld s = HeldFor s.config_keys s.stopwatch s.settings.config.press_timeout

abbrev pub IsTriggered : Switch → List Tick → Type 0
IsTriggered s = Triggers s.config_keys s.stopwatch s.settings.config.press_timeout

abbrev pub press_start : Tick → Switch → ℕ
press_start t s = if s.last_press_time == 0 then t.now else s.last_press_time

-- What a look does.
data Looked (t : Tick) (s : Switch) : Expiry → Type 0 where
  reset_due :
      is_pressed t.ports s.config_keys ≡ true
      → (ms : ℕ) → stopwatch_elapsed_ms s.stopwatch t.later (press_start t s) ≡ ok ms
      → s.settings.config.press_timeout ≤ ms
      → Looked t s resets
  keys_down :
      {n : ℕ}
      → is_pressed t.ports s.config_keys ≡ true
      → Looked t s (waits (record s { last_press_time = press_start t s }) n)
  keys_up : {n : ℕ} → Looked t s (waits (record s { last_press_time = 0 }) n)

fault-ok : {e : Expiry} → ¬ (fault overflow ≡ ok e)
fault-ok h = cc

restart-waits :
    (timeout : ℕ) (s : Switch) {e : Expiry} → restart timeout s ≡ ok e → (n : ℕ) × (waits s n ≡ e)
unfolding restart
restart-waits timeout s {e} =
    if_cases (λ r. r ≡ ok e → (n : ℕ) × (waits s n ≡ e))
      (leb (2 ^ 31) (next_timeout timeout * 1000)) (λ over h. absurd (fault-ok h))
      (λ fits h. (_, ok-injective h))

on_timer_expire-Looked :
    (t : Tick) (s : Switch) {e : Expiry} → on_timer_expire t s ≡ ok e → Looked t s e
unfolding on_timer_expire
on_timer_expire-Looked t s {e} =
    if_cases (λ r. r ≡ ok e → Looked t s e) (is_pressed t.ports s.config_keys)
      (λ pressed h.
        let (ms, em, h') = bind-ok _ _ h in
        if_cases (λ r. r ≡ ok e → Looked t s e) (leb s.settings.config.press_timeout ms)
          (λ due h. subst (Looked t s) (ok-injective h) (reset_due pressed ms em (leb→le _ _ due)))
          (λ early h. subst (Looked t s) (restart-waits _ _ h).1 (keys_down pressed)) h')
      (λ up h. subst (Looked t s) (restart-waits _ _ h).1 keys_up)

pub ≢→== : (n : ℕ) → n ≢ 0 → (n == 0) ≡ false
≢→== n h = ground (arith, h)

pub press_start-down :
    (t : Tick) (s : Switch) → s.last_press_time ≢ 0 → press_start t s ≡ s.last_press_time
press_start-down t s down = if_false _ _ _ (≢→== _ down)

pub press_start-up : (t : Tick) (s : Switch) → s.last_press_time ≡ 0 → press_start t s ≡ t.now
press_start-up t s up = if_true _ _ _ (eq→== _ _ up)

-- A press that a switch has seen before goes on, or one begins.
abbrev Pressed : Switch → List Tick → Type 0
Pressed s ts = IsTriggered s ts ⊎ ((s.last_press_time ≢ 0) × IsHeld s s.last_press_time ts)

zero_or : (n : ℕ) → (n ≡ 0) ⊎ (n ≢ 0)
zero_or zero = inl refl
zero_or (suc n) = inr (λ e. cc)

-- The start of the press that a look sees: it was known, or the look itself is the start.
Pressed-press_start :
    (t : Tick) (ts : List Tick) (s : Switch)
    → IsHeld s (press_start t s) (t ∷ ts)
    → Pressed s (t ∷ ts)
Pressed-press_start t ts s h = elim (zero_or s.last_press_time) [
  | inl up ↦ inl (begins (subst (λ start. IsHeld s start (t ∷ ts)) (press_start-up t s up) h))
  | inr down ↦ inr (down, subst (λ start. IsHeld s start (t ∷ ts)) (press_start-down t s down) h)
]

Looked-Pressed :
    (t : Tick) (ts : List Tick) (s : Switch) {s' : Switch} {n : ℕ}
    → Looked t s (waits s' n)
    → Pressed s' ts
    → Pressed s (t ∷ ts)
Looked-Pressed t ts s (keys_down pressed) (inl trigger) = inl (further trigger)
Looked-Pressed t ts s (keys_down pressed) (inr (down, h)) =
    Pressed-press_start t ts s (held pressed h)
Looked-Pressed t ts s keys_up (inl trigger) = inl (further trigger)
Looked-Pressed t ts s keys_up (inr (down, h)) = absurd (down refl)

reset_Pressed : (t : Tick) (ts : List Tick) (s : Switch) → Looked t s resets → Pressed s (t ∷ ts)
reset_Pressed t ts s (reset_due pressed ms em reached) =
    Pressed-press_start t ts s (due pressed ms em reached)

run_on-Pressed :
    (t : Tick) (ts : List Tick) (s : Switch) (e : Expiry)
    → ((s' : Switch) → run ts s' ≡ ok none → Pressed s' ts)
    → Looked t s e
    → elim e [ resets ↦ ok none | waits s' n ↦ run ts s' ] ≡ ok none
    → Pressed s (t ∷ ts)
run_on-Pressed t ts s resets on looked h = reset_Pressed t ts s looked
run_on-Pressed t ts s (waits s' n) on looked h = Looked-Pressed t ts s looked (on s' h)

-- A switch that has reset the phone has seen the keys held for the timeout.
run-Pressed : (ts : List Tick) (s : Switch) → run ts s ≡ ok none → Pressed s ts
unfolding run
run-Pressed [] s h = cc
run-Pressed (t ∷ ts) s h =
    let (e, looked, h') = bind-ok (on_timer_expire t s) _ h in
    run_on-Pressed t ts s e (run-Pressed ts) (on_timer_expire-Looked t s looked) h'

-- From a state in which no press is known, the switch resets the phone only after its keys have been
-- held, from one look of the timer on, at every look until one at which the clock says that the
-- timeout has passed since the first.
pub run-Triggers :
    (ts : List Tick) (s : Switch) → s.last_press_time ≡ 0 → run ts s ≡ ok none → IsTriggered s ts
run-Triggers ts s up h = elim (run-Pressed ts s h) [
  | inl trigger ↦ trigger
  | inr (down, holding) ↦ absurd (down up)
]
