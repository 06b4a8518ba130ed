-- ===== src/KillSwitch/Timer.antt =====
-- The timer and the messages of the switch: KillSwitch/main.c.
use elfloader3_elfs_archive.Prelude.{
  ℕ, ◌*◌, ◌/◌, ◌^◌, Bool, true, false, Bytes, List, [], ◌∷◌, Option, none, some, Out, ok, fault,
  overflow, ◌>>=◌, ltb, leb, ◌==◌, ◌&&◌, ◌||◌, if◌then◌else◌,
}
use elfloader3_elfs_archive.KillSwitch.Settings.{Layout, Calls, Settings, init_config}
use elfloader3_elfs_archive.KillSwitch.Stopwatch.{Stopwatch, stopwatch_elapsed_ms}

-- The three ports of the keypad, and the three values they have while the keys are held.
pub record Keys : Type 0 where
  pub port0 : ℕ
  pub port1 : ℕ
  pub port2 : ℕ

-- The variables of the program. A `last_press_time` of 0 stands for no press.
pub record Switch : Type 0 where
  pub last_press_time : ℕ
  pub config_keys : Keys
  pub settings : Settings
  pub stopwatch : Stopwatch

-- `sscanf` with `%08X`: no number in the text leaves the variable as it is.
abbrev pub scan : (Bytes → Option ℕ) → Bytes → ℕ → ℕ
scan scan_hex text old = elim (scan_hex text) [ none ↦ old | some n ↦ n ]

unfoldable pub update_settings : (Bytes → Option ℕ) → Layout → Calls → Calls → Switch → Switch
update_settings scan_hex l c c' s =
    let settings = (init_config l c c' s.settings).settings in
    record s {
      settings = settings;
      config_keys = record {
        port0 = scan scan_hex settings.config.port0_str_val s.config_keys.port0;
        port1 = scan scan_hex settings.config.port1_str_val s.config_keys.port1;
        port2 = scan scan_hex settings.config.port2_str_val s.config_keys.port2;
      };
    }

-- What one expiry of the timer reads: the ports, and the clock at the first and at the second look.
pub record Tick : Type 0 where
  pub ports : Keys
  pub now : ℕ
  pub later : ℕ

-- The phone is reset, or the timer runs for so many periods.
pub data Expiry : Type 0 where
  resets : Expiry
  waits : Switch → ℕ → Expiry

unfoldable pub is_pressed : Keys → Keys → Bool
is_pressed ports keys =
    ports.port0 == keys.port0 && (ports.port1 == keys.port1 && ports.port2 == keys.port2)

-- An `unsigned int` taken for an `int`, and raised to 100.
abbrev pub next_timeout : ℕ → ℕ
next_timeout n = if ltb n 100 || leb (2 ^ 31) n then 100 else n

-- The product is an `int`.
unfoldable pub restart : ℕ → Switch → Out Expiry
restart timeout s =
    let product = next_timeout timeout * 1000 in
    if leb (2 ^ 31) product then fault overflow else ok (waits s (product / 4615))

unfoldable pub on_timer_expire : Tick → Switch → Out Expiry
on_timer_expire t s =
    if is_pressed t.ports s.config_keys
    then (let start = if s.last_press_time == 0 then t.now else s.last_press_time in
        do
          ms ← stopwatch_elapsed_ms s.stopwatch t.later start
          if leb s.settings.config.press_timeout ms
              then ok resets
              else restart (s.settings.config.press_timeout / 2)
                  (record s { last_press_time = start }))
    else restart s.settings.config.timer_period (record s { last_press_time = 0 })

-- One expiry after the other; `none` if one of them has reset the phone.
unfoldable pub run : List Tick → Switch → Out (Option Switch)
run [] s = ok (some s)
run (t ∷ ts) s = do e ← on_timer_expire t s; elim e [ resets ↦ ok none | waits s' n ↦ run ts s' ]

-- The daemon: the switch, its window, and the periods until the timer expires.
pub record Daemon : Type 0 where
  pub switch : Switch
  pub is_open : Bool
  pub gui_id : ℕ
  pub timer : Option ℕ

-- `result` is what `NU_Create_Timer` returns.
unfoldable pub maincsm_oncreate : ℕ → Daemon → Daemon
maincsm_oncreate result d =
    if result == 0
    then record d { is_open = true; timer = some 1 }
    else record d { is_open = false }

-- The timer is stopped and deleted.
unfoldable pub maincsm_onclose : Daemon → Daemon
maincsm_onclose d = record d { timer = none }

pub data Message : Type 0 where
  gui_destroyed : ℕ → Message
  reconfigure : Bytes → Message
  other_message : Message

-- `strcmpi`, `sscanf` and the file of the settings are the phone's.
unfoldable pub maincsm_onmessage :
    (Bytes → Bytes → Bool) → (Bytes → Option ℕ) → Layout → Calls → Calls → Message → Daemon → Daemon
maincsm_onmessage same_name scan_hex l c c' (gui_destroyed id) d =
    if id == d.gui_id then record d { is_open = false } else d
maincsm_onmessage same_name scan_hex l c c' (reconfigure name) d =
    if same_name d.switch.settings.successed_config_filename name
    then record d { switch = update_settings scan_hex l c c' d.switch; timer = some 1 }
    else d
maincsm_onmessage same_name scan_hex l c c' other_message d = d
