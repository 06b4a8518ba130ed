-- ===== src/KillSwitch/Examples.antt =====
-- The switch at concrete settings.
use elfloader3_elfs_archive.Prelude.{
  ℕ, ◌*◌, ◌≡◌, Bool, ◌==◌, ◌&&◌, refl, true, false, Bytes, List, [], ◌∷◌, ◌++◌, none, some, ok,
  take, drop, ◌+◌, arith,
}
use elfloader3_elfs_archive.Oms.Forms.{codes}
use elfloader3_elfs_archive.KillSwitch.Settings.{
  Config, Layout, Calls, Settings, first_file, second_file, init_config, load_config_data,
  read_config, save_new_config,
}
use elfloader3_elfs_archive.KillSwitch.Stopwatch.{
  Stopwatch, stopwatch_init, stopwatch_get, stopwatch_elapsed, stopwatch_elapsed_ms,
  stopwatch_elapsed_us, stopwatch_elapsed_s, in_units,
}
use elfloader3_elfs_archive.KillSwitch.Timer.{
  Keys, Switch, Tick, is_pressed, restart, on_timer_expire, run, Daemon, gui_destroyed, reconfigure,
  maincsm_oncreate, maincsm_onmessage,
}
use elfloader3_elfs_archive.KillSwitch.Holding.{IsTriggered, due, held, run-Triggers}
use elfloader3_elfs_archive.KillSwitch.Course.{run-IsHeld_resets}
use elfloader3_elfs_archive.KillSwitch.Loading.{Started, init_config-Started}

-- The settings that are built in for the phones with `ELKA`.
abbrev built_in : Config
built_in = record {
  timer_period = 2000;
  press_timeout = 3000;
  port0_str_val = codes "F7E7F7F7";
  port1_str_val = codes "F7F7F7F7";
  port2_str_val = codes "FFFFFFF7";
}

abbrev at_start : Settings
at_start = record { config = built_in; successed_config_filename = [] }

abbrev combination : Keys
combination = record { port0 = 0xf7e7f7f7; port1 = 0xf7f7f7f7; port2 = 0xfffffff7 }

abbrev no_keys : Keys
no_keys = record { port0 = 0xf7f7f7f7; port1 = 0xf7f7f7f7; port2 = 0xf7f7f7f7 }

abbrev clock : Stopwatch
clock = record { ticks_per_s = 26000000; ticks_per_ms = 26000; ticks_per_us = 26 }

stopwatch_init_1 : stopwatch_init 1 ≡ ok clock
unfolding stopwatch_init
stopwatch_init_1 = refl

elapsed_us_40 : stopwatch_elapsed_us clock (stopwatch_get 1 0) (stopwatch_get 0 4294966256) ≡ ok 40
unfolding stopwatch_elapsed_us stopwatch_get stopwatch_elapsed in_units
elapsed_us_40 = refl

elapsed_s_2 : stopwatch_elapsed_s clock 52000001 1 ≡ ok 2
unfolding stopwatch_elapsed_s stopwatch_elapsed in_units
elapsed_s_2 = refl

abbrev switch : Switch
switch = record {
  last_press_time = 0;
  config_keys = combination;
  settings = at_start;
  stopwatch = clock;
}

-- A look at so many milliseconds.
abbrev look : Keys → ℕ → Tick
look keys ms = record { ports = keys; now = ms * 26000; later = ms * 26000 + 50 }

abbrev looks : List Tick
looks =
    look no_keys 1000 ∷ look combination 2500 ∷ look combination 4000 ∷ look combination 5500 ∷ []

run-Triggers_example : IsTriggered switch looks
unfolding run on_timer_expire is_pressed restart stopwatch_elapsed_ms stopwatch_elapsed in_units
run-Triggers_example = run-Triggers looks switch refl refl

run-IsHeld_resets_example : run looks switch ≡ ok none
unfolding is_pressed stopwatch_elapsed_ms stopwatch_elapsed in_units
run-IsHeld_resets_example =
    run-IsHeld_resets (look no_keys 1000) (look combination 2500)
      (look combination 4000 ∷ look combination 5500 ∷ []) switch
      (record { period = omega arith; timeout = omega arith; ticks = λ e. omega (arith, e) }) refl
      (λ e. omega (arith, e)) (held refl (held refl (due refl 3000 refl (omega arith))))

-- A key that is let go starts the time again.
released :
    run (look combination 1000 ∷ look no_keys 2500 ∷ look combination 4000 ∷ []) switch
    ≡ ok (some (record switch { last_press_time = 4000 * 26000 }))
unfolding run on_timer_expire is_pressed restart stopwatch_elapsed_ms stopwatch_elapsed in_units
released = refl

abbrev first : Bytes → ℕ
first [] = 0
first (x ∷ xs) = x

-- Two numbers and three texts of eight characters.
abbrev packed : Layout
packed = record {
  len = 26;
  encode = λ c.
      c.timer_period ∷ c.press_timeout ∷ (c.port0_str_val ++ (c.port1_str_val ++ c.port2_str_val));
  decode = λ bytes. record {
    timer_period = first (take 1 bytes);
    press_timeout = first (take 1 (drop 1 bytes));
    port0_str_val = take 8 (drop 2 bytes);
    port1_str_val = take 8 (drop 10 bytes);
    port2_str_val = take 8 (drop 18 bytes);
  };
}

abbrev saves : Calls
saves = record { has_buffer = true; content = none; creates = true; written = 26 }

abbrev full : Calls
full = record { has_buffer = true; content = none; creates = true; written = 7 }

init_config-Started_example :
    Started packed full saves at_start (init_config packed full saves at_start)
init_config-Started_example =
    init_config-Started packed full saves at_start (record { sizes = refl; copies = refl })

saved_on_second :
    (init_config packed full saves at_start).settings.successed_config_filename ≡ second_file
unfolding init_config load_config_data read_config save_new_config
saved_on_second = refl

abbrev daemon : Daemon
daemon = record { switch = switch; is_open = false; gui_id = 0; timer = none }

abbrev same_name : Bytes → Bytes → Bool
same_name [] [] = true
same_name (a ∷ s) (b ∷ t) = a == b && same_name s t
same_name s t = false

created : maincsm_oncreate 0 daemon ≡ record daemon { is_open = true; timer = some 1 }
unfolding maincsm_oncreate
created = refl

closed :
    maincsm_onmessage same_name
      (λ s. none)
      packed
      full
      saves
      (gui_destroyed 0)
      (record daemon { is_open = true })
    ≡ daemon
unfolding maincsm_onmessage
closed = refl

-- Another program's settings are not the switch's.
not_ours :
    maincsm_onmessage same_name (λ s. none) packed full saves (reconfigure first_file) daemon
    ≡ daemon
unfolding maincsm_onmessage
not_ours = refl
