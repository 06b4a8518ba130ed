-- ===== src/KillSwitch/Settings.antt =====
-- The settings of the switch and their file: KillSwitch/conf_data.c and KillSwitch/conf_loader.c.
use elfloader3_elfs_archive.Prelude.{
  ℕ, Bool, true, false, Bytes, Option, none, some, length, take, ◌==◌, if◌then◌else◌,
}
use elfloader3_elfs_archive.Oms.Forms.{codes}

-- The block of options between the two marks that the linker sets.
pub record Config : Type 0 where
  pub timer_period : ℕ
  pub press_timeout : ℕ
  pub port0_str_val : Bytes
  pub port1_str_val : Bytes
  pub port2_str_val : Bytes

-- How the headers and the options lie in the file is the compiler's choice.
pub record Layout : Type 0 where
  pub len : ℕ
  pub encode : Config → Bytes
  pub decode : Bytes → Config

-- What the phone answers to one round of calls: whether there is a buffer, the bytes that a read of the
-- block's length gives when the file can be opened, whether it can be created, how many bytes a write takes.
pub record Calls : Type 0 where
  pub has_buffer : Bool
  pub content : Option Bytes
  pub creates : Bool
  pub written : ℕ

pub record Settings : Type 0 where
  pub config : Config
  pub successed_config_filename : Bytes

-- The settings afterwards, what is in the file then, and whether the result is not negative.
pub record Load : Type 0 where
  pub settings : Settings
  pub file : Option Bytes
  pub is_loaded : Bool

module _ (l : Layout) (c : Calls) (fname : Bytes) (s : Settings) where
  -- L_SAVENEWCFG
  unfoldable pub save_new_config : Load
  save_new_config =
      if c.creates
      then record {
        settings = if c.written == l.len then record s { successed_config_filename = fname } else s;
        file = some (take c.written (l.encode s.config));
        is_loaded = c.written == l.len;
      }
      else record { settings = s; file = c.content; is_loaded = false }

  unfoldable pub read_config : Option Bytes → Load
  read_config none = save_new_config
  read_config (some bytes) =
      if length bytes == l.len
      then record {
        settings = record { config = l.decode bytes; successed_config_filename = fname };
        file = some bytes;
        is_loaded = true;
      }
      else save_new_config

  unfoldable pub load_config_data : Load
  load_config_data =
      if c.has_buffer
      then read_config c.content
      else record { settings = s; file = c.content; is_loaded = false }

abbrev pub first_file : Bytes
first_file = codes "4:\\ZBin\\etc\\KillSwitch.bcfg"

abbrev pub second_file : Bytes
second_file = codes "0:\\ZBin\\etc\\KillSwitch.bcfg"

-- The settings and the files on the two drives afterwards.
pub record Init : Type 0 where
  pub settings : Settings
  pub first : Option Bytes
  pub second : Option Bytes

abbrev pub init_second : Layout → Load → Calls → Init
init_second l tried c =
    if tried.is_loaded
    then record { settings = tried.settings; first = tried.file; second = c.content }
    else let next = load_config_data l c second_file tried.settings in
      record { settings = next.settings; first = tried.file; second = next.file }

unfoldable pub init_config : Layout → Calls → Calls → Settings → Init
init_config l c c' s = init_second l (load_config_data l c first_file s) c'
