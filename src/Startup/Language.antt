-- ===== src/Startup/Language.antt =====
-- BalletMini/lang.c: the texts of the program, from a file with one on each line.
use elfloader3_elfs_archive.Prelude.{
  ℕ, zero, suc, ◌-◌, Bool, true, false, Bytes, List, [], ◌∷◌, ◌++◌, Option, none, some, Out, ok,
  fault, bad_index, bad_pointer, overflow, or_fault, ◌>>=◌, length, take, set, get_elem?, replicate,
  ltb, leb, ◌==◌, ◌||◌, if◌then◌else◌,
}
use elfloader3_elfs_archive.Oms.Forms.{codes}
use elfloader3_elfs_archive.Startup.Texts.{first_texts, second_texts}

-- `LGP_DATA_NUM`, and the last of the texts, the code of the language.
abbrev pub data_num : ℕ
data_num = 78

abbrev pub lang_code : ℕ
lang_code = 77

-- `lgpData`, from its start to the last entry that is set, and `lgpLoaded`.
pub record Pack : Type 0 where
  pub texts : List Bytes
  pub loaded : Bool

-- `lang.txt`: its size if it is there, its bytes if it can be opened, and whether there is memory for it.
pub record LangFile : Type 0 where
  pub size : Option ℕ
  pub bytes : Option Bytes
  pub has_buffer : Bool

-- The entries so far, and the first `lineSize` bytes of `line`, which has 128.
pub record Lines : Type 0 where
  pub texts : List Bytes
  pub line : Bytes

unfoldable pub end_line : Lines → Lines
end_line s =
    if ltb 0 (length s.line) then record { texts = s.texts ++ s.line ∷ []; line = [] } else s

unfoldable pub take_byte : ℕ → Lines → Out Lines
take_byte c s =
    if c == 10 || c == 13
    then ok (end_line s)
    else if ltb (length s.line) 128
    then ok (record s { line = s.line ++ c ∷ [] })
    else fault overflow

-- The loop over the buffer: `n` bytes are left of the size.
unfoldable pub read_texts : ℕ → Bytes → Lines → Out Lines
read_texts n [] s = fault bad_index
read_texts zero (c ∷ buf) s = ok s
read_texts (suc n) (c ∷ buf) s =
    if c == 0 || leb data_num (length s.texts)
    then ok s
    else (do s' ← take_byte c s; read_texts n buf s')

-- The end of the file ends a line too.
unfoldable pub end_file : Lines → List Bytes
end_file s = if ltb (length s.texts) data_num then (end_line s).texts else s.texts

-- An old file has a text there that is longer than a code.
unfoldable pub set_code : List Bytes → Out (List Bytes)
set_code texts = do
  code ← or_fault bad_pointer (get_elem? texts lang_code)
  ok (if ltb 2 (length code) then set texts lang_code (codes "ru") else texts)

abbrev pub missing_text : Bytes
missing_text = codes "Error! Update lang.txt!"

unfoldable pub fill_missing : List Bytes → List Bytes
fill_missing texts = texts ++ replicate (data_num - length texts) missing_text

abbrev pub default_data : List Bytes
default_data = first_texts ++ second_texts

unfoldable pub load_texts : ℕ → Bytes → Out Pack
load_texts size bytes = do
  s ← read_texts size (take size bytes ++ 0 ∷ []) (record { texts = []; line = [] })
  texts ← set_code (end_file s)
  ok (record { texts = fill_missing texts; loaded = true })

abbrev pub load_opened : ℕ → Option Bytes → Bool → Out Pack
load_opened size none has_buffer = ok (record { texts = default_data; loaded = false })
load_opened size (some bytes) has_buffer =
    if has_buffer
    then load_texts size bytes
    else ok (record { texts = default_data; loaded = false })

unfoldable pub lgp_init_lang_pack : LangFile → Out Pack
lgp_init_lang_pack file = elim file.size [
  | none ↦ ok (record { texts = default_data; loaded = false })
  | some size ↦ load_opened size file.bytes file.has_buffer
]

-- The blocks that are freed: those of a file.
unfoldable pub lgp_free_lang_pack : Pack → List Bytes
lgp_free_lang_pack p = if p.loaded then p.texts else []
