-- ===== src/KillSwitch/Loading.antt =====
-- The settings and the files after a start: `InitConfig`.
use mathlib.Core.Path.{subst}
use elfloader3_elfs_archive.Prelude.{
  ◌≡◌, refl, ap, sym, ◌∙◌, Bool, true, false, Bytes, Option, none, some, length, take, take_all,
  ◌==◌, ==→eq, if◌then◌else◌, if_cases, if_true, if_false, arith,
}
use elfloader3_elfs_archive.KillSwitch.Settings.{
  Config, Layout, Calls, Settings, Load, Init, save_new_config, read_config, load_config_data,
  first_file, second_file, init_config, init_second,
}

-- The block is as long as the linker says, and what is copied out of it can be copied back.
pub record IsLayout (l : Layout) (config : Config) : Type 0 where
  pub sizes : length (l.encode config) ≡ l.len
  pub copies : l.decode (l.encode config) ≡ config

-- A file that is not there or has another length.
pub data IsShort (l : Layout) : Option Bytes → Type 0 where
  is_missing : IsShort l none
  is_short : (bytes : Bytes) → (length bytes == l.len) ≡ false → IsShort l (some bytes)

-- The name is that of the file, and the file holds the settings in use: they were read from it, or the file was
-- missing or had another length, and now it holds the settings from before.
pub data Holds (l : Layout) (c : Calls) (fname : Bytes) (s s' : Settings) (file : Option Bytes)
    : Type 0 where
  was_read :
      (bytes : Bytes)
      → c.content ≡ some bytes
      → length bytes ≡ l.len
      → file ≡ some bytes
      → s' ≡ record { config = l.decode bytes; successed_config_filename = fname }
      → Holds l c fname s s' file
  was_saved :
      (bytes : Bytes)
      → IsShort l c.content
      → file ≡ some bytes
      → length bytes ≡ l.len
      → l.decode bytes ≡ s.config
      → s' ≡ record s { successed_config_filename = fname }
      → Holds l c fname s s' file

-- The file could neither be read in full nor be written in full.
pub data Failed (l : Layout) (c : Calls) : Type 0 where
  no_buffer : c.has_buffer ≡ false → Failed l c
  not_created : IsShort l c.content → c.creates ≡ false → Failed l c
  not_written : IsShort l c.content → (c.written == l.len) ≡ false → Failed l c

-- A load that is successful has the settings in its file, and one that failed leaves the settings alone.
data Loaded (l : Layout) (c : Calls) (fname : Bytes) (s : Settings) (r : Load) : Type 0 where
  loaded : r.is_loaded ≡ true → Holds l c fname s r.settings r.file → Loaded l c fname s r
  not_loaded : r.is_loaded ≡ false → Failed l c → r.settings ≡ s → Loaded l c fname s r

module _ (l : Layout) (c : Calls) (fname : Bytes) (s : Settings) (fits : IsLayout l s.config) where
  Loaded-written :
      (b : Bool)
      → IsShort l c.content
      → (c.written == l.len) ≡ b
      → Loaded l c fname s (record {
        settings = if b then record s { successed_config_filename = fname } else s;
        file = some (take c.written (l.encode s.config));
        is_loaded = b;
      })
  Loaded-written true lacking e =
      let all = take_all c.written (l.encode s.config) (omega (arith, fits.sizes, ==→eq _ _ e)) in
      loaded refl (was_saved (l.encode s.config) lacking (ap some all) fits.sizes fits.copies refl)
  Loaded-written false lacking e = not_loaded refl (not_written lacking e) refl

  Loaded-save_new_config : IsShort l c.content → Loaded l c fname s (save_new_config l c fname s)
  unfolding save_new_config
  Loaded-save_new_config lacking =
      if_cases (Loaded l c fname s) c.creates
        (λ created. Loaded-written (c.written == l.len) lacking refl)
        (λ not. not_loaded refl (not_created lacking not) refl)

  Loaded-read_config :
      (content : Option Bytes)
      → c.content ≡ content
      → Loaded l c fname s (read_config l c fname s content)
  unfolding read_config
  Loaded-read_config none there = Loaded-save_new_config (subst (IsShort l) (sym there) is_missing)
  Loaded-read_config (some bytes) there =
      if_cases (Loaded l c fname s) (length bytes == l.len)
        (λ e. loaded refl (was_read bytes there (==→eq _ _ e) refl refl))
        (λ short. Loaded-save_new_config (subst (IsShort l) (sym there) (is_short bytes short)))

  Loaded-load_config_data : Loaded l c fname s (load_config_data l c fname s)
  unfolding load_config_data
  Loaded-load_config_data =
      if_cases (Loaded l c fname s) c.has_buffer (λ there. Loaded-read_config c.content refl)
        (λ none_left. not_loaded refl (no_buffer none_left) refl)

-- What a start leaves: the settings of the first file, those of the second where the first failed, or, where
-- both failed, those that were there before.
pub data Started (l : Layout) (c c' : Calls) (s : Settings) (i : Init) : Type 0 where
  on_first : Holds l c first_file s i.settings i.first → Started l c c' s i
  on_second : Failed l c → Holds l c' second_file s i.settings i.second → Started l c c' s i
  on_none : Failed l c → Failed l c' → i.settings ≡ s → Started l c c' s i

Started-second :
    (l : Layout) (c c' : Calls) (s : Settings) (r : Load)
    → IsLayout l s.config
    → Loaded l c first_file s r
    → Started l c c' s (init_second l r c')
Started-second l c c' s r fits (loaded e h) =
    subst (Started l c c' s) (sym (if_true _ _ _ e)) (on_first h)
Started-second l c c' s r fits (not_loaded e failed same) =
    subst (Started l c c' s) (sym (if_false _ _ _ e))
      (elim (Loaded-load_config_data l c' second_file r.settings
        (subst (λ s. IsLayout l s.config) (sym same) fits)) [
          | loaded e' h ↦ on_second failed (
              subst
                (λ s.
                  Holds l c' second_file s (load_config_data l c' second_file r.settings).settings
                    (load_config_data l c' second_file r.settings).file)
                same h)
          | not_loaded e' failed' same' ↦ on_none failed failed' (same' ∙ same)
        ])

-- If the block of options has the length that the program computes for it, and is unchanged when it is
-- copied out and back, then after a start the settings in use are those of the first file; or, where the first
-- could neither be read nor be written in full, those of the second; or, where both failed, the
-- settings and the name are those from before the start. The settings of a file are what was read from it,
-- if it was there and had its full length, and otherwise the settings from before, which the file holds now; and
-- the name that a later change of the settings is compared with is that file's.
pub init_config-Started :
    (l : Layout) (c c' : Calls) (s : Settings)
    → IsLayout l s.config
    → Started l c c' s (init_config l c c' s)
unfolding init_config
init_config-Started l c c' s fits =
    Started-second l c c' s _ fits (Loaded-load_config_data l c first_file s fits)
