-- ===== src/Startup/Examples.antt =====
-- A first start, at concrete files.
use elfloader3_elfs_archive.Prelude.{
  ℕ, zero, suc, ◌≡◌, refl, true, false, Bytes, List, [], ◌∷◌, ◌++◌, none, some, ok, fault,
  bad_pointer, length, replicate, arith,
}
use elfloader3_elfs_archive.Oms.Forms.{codes}
use elfloader3_elfs_archive.Encoding.Compare.{strcmp_nocase, fold_case}
use elfloader3_elfs_archive.Startup.Random.{mrand}
use elfloader3_elfs_archive.Startup.Auth.{
  AuthFile, read_field, skip_control, read_code, parse_auth, load_auth_code, Format, new_auth,
  Session, start_auth,
}
use elfloader3_elfs_archive.Startup.Word.{field_end, field_byte}
use elfloader3_elfs_archive.Startup.Created.{IsDigits, blank, filled, start_auth-new_auth}
use elfloader3_elfs_archive.Startup.Language.{
  lgp_init_lang_pack, load_texts, read_texts, take_byte, end_line, end_file, set_code, default_data,
  lgp_free_lang_pack,
}
use elfloader3_elfs_archive.Startup.Reading.{
  IsEntry, AreEntries, no_entries, entry_more, text_end, text_byte, file_of,
}
use elfloader3_elfs_archive.Startup.Entries.{Filled, lgp_init_lang_pack-Filled}
use elfloader3_elfs_archive.Startup.Address.{
  Viewed, mode_none, mode_url, mode_bookmarks, first_word, split_at_last, read_url_file,
  parse_ending, parse_input_filename, open_first, ballet_path,
}

-- Formats that give the same digits for every number.
abbrev plain : Format
plain = record { two_dec = λ n. codes "07"; two_hex = λ n. codes "c3" }

digits : (n : ℕ) → IsDigits (codes "07")
digits n = record { two = refl; digits = field_byte refl (field_byte refl field_end) }

hex_digits : (n : ℕ) → IsDigits (codes "c3")
hex_digits n = record { two = refl; digits = field_byte refl (field_byte refl field_end) }

abbrev session : Session
session = record { authcode_create_new = true; age = 12345; creates = true; room = 1000 }

abbrev no_file : AuthFile
no_file = record { size = none; bytes = none }

start_auth-new_auth_example :
    start_auth plain session no_file blank ≡ ok (filled (new_auth plain 12345), true)
start_auth-new_auth_example =
    start_auth-new_auth plain session no_file
      (record { decimal = λ n h. digits n; hexadecimal = λ n h. hex_digits n }) refl refl refl
      (omega arith)

-- The numbers of the generator: 0x015a4e35 * 1 + 1, from bit 16 on.
first_number : (mrand 1).1 ≡ 346
unfolding mrand
first_number = refl

abbrev file_of_text : Bytes → AuthFile
file_of_text s = record { size = some (length s); bytes = some s }

-- A prefix that is read over a longer one keeps the end of that.
stale_prefix :
    load_auth_code
      (file_of_text (codes "p1.c3."))
      (record { auth_prefix = codes "p07-07"; auth_code = codes "000" })
    ≡ ok (record { auth_prefix = codes "p17-07"; auth_code = codes "c30" }, true)
unfolding load_auth_code parse_auth read_field skip_control read_code
stale_prefix = refl

-- Without a dot there is no code, but the prefix is written.
no_code :
    load_auth_code
      (file_of_text (codes "ab"))
      (record { auth_prefix = codes "xyz"; auth_code = [] })
    ≡ ok (record { auth_prefix = codes "abz"; auth_code = [] }, false)
unfolding load_auth_code parse_auth read_field skip_control read_code
no_code = refl

-- As many texts as there are entries.
abbrev texts : ℕ → List Bytes
texts n = replicate n (codes "Text") ++ codes "english" ∷ []

entry : IsEntry (codes "Text")
entry = record {
  text =
      text_byte refl refl
        (text_byte refl refl (text_byte refl refl (text_byte refl refl text_end)));
  nonempty = omega arith;
  short = omega arith;
}

last_entry : IsEntry (codes "english")
last_entry = record {
  text = text_byte refl refl (
      text_byte refl refl (
        text_byte refl refl (
          text_byte refl refl
            (text_byte refl refl (text_byte refl refl (text_byte refl refl text_end))))));
  nonempty = omega arith;
  short = omega arith;
}

AreEntries-texts : (n : ℕ) → AreEntries (texts n)
AreEntries-texts zero = entry_more last_entry no_entries
AreEntries-texts (suc n) = entry_more entry (AreEntries-texts n)

lgp_init_lang_pack-Filled_example : Filled (texts 77) (
    lgp_init_lang_pack (record {
      size = some (length (file_of (texts 77)));
      bytes = some (file_of (texts 77));
      has_buffer = true;
    }))
lgp_init_lang_pack-Filled_example =
    lgp_init_lang_pack-Filled (texts 77) (AreEntries-texts 77) (omega arith)

two_texts :
    lgp_init_lang_pack (record {
      size = some 6;
      bytes = some (codes "a" ++ (13 ∷ 10 ∷ codes "b" ++ 10 ∷ 10 ∷ []));
      has_buffer = true;
    })
    ≡ fault bad_pointer
unfolding lgp_init_lang_pack load_texts read_texts take_byte end_line end_file set_code
two_texts = refl

no_lang_file :
    lgp_init_lang_pack (record { size = none; bytes = none; has_buffer = true })
    ≡ ok (record { texts = default_data; loaded = false })
unfolding lgp_init_lang_pack
no_lang_file = refl

built_in_texts : lgp_free_lang_pack (record { texts = default_data; loaded = false }) ≡ []
unfolding lgp_free_lang_pack
built_in_texts = refl

abbrev nothing_viewed : Viewed
nothing_viewed = record { view_url = none; view_url_mode = mode_none }

opens_url :
    parse_input_filename
      (λ fn. some (codes "www.perk11.info/elf ?"))
      (codes "0:\\saved.URL")
      nothing_viewed
    ≡ ok
        (record { view_url = some (codes "0/www.perk11.info/elf"); view_url_mode = mode_url }, true)
unfolding parse_input_filename parse_ending read_url_file first_word split_at_last strcmp_nocase
    fold_case
opens_url = refl

opens_default :
    open_first (λ fn. none) (codes "readme") (codes "bookmarks") nothing_viewed
    ≡ ok (record nothing_viewed { view_url_mode = mode_bookmarks })
unfolding open_first parse_input_filename parse_ending split_at_last strcmp_nocase fold_case
opens_default = refl

own_path : ballet_path (codes "4:\\a\\b.elf") ≡ ok (some (codes "4:\\a\\", codes "4:\\a\\b.elf"))
unfolding ballet_path split_at_last
own_path = refl
