-- ===== src/Startup/Address.antt =====
-- What the browser is started with: `ReadUrlFile`, `ParseInputFilename` and the path in `main`.
use elfloader3_elfs_archive.Prelude.{
  ℕ, zero, Bool, true, false, Bytes, [], ◌∷◌, ◌++◌, Option, none, some, Out, ok, fault, bad_index,
  overflow, ◌>>=◌, length, ltb, leb, ◌==◌, pos, if◌then◌else◌,
}
use elfloader3_elfs_archive.Oms.Forms.{codes}
use elfloader3_elfs_archive.Encoding.Compare.{strcmp_nocase}

pub data InputMode : Type 0 where
  mode_file mode_url mode_bookmarks mode_none : InputMode

-- `view_url` and `view_url_mode`
pub record Viewed : Type 0 where
  pub view_url : Option Bytes
  pub view_url_mode : InputMode

-- The bytes of a file, or none where it has no size or cannot be opened.
abbrev pub Files : Type 0
Files = Bytes → Option Bytes

-- The bytes up to the first that is not above 32, which must be there.
unfoldable pub first_word : Bytes → Out Bytes
first_word [] = fault bad_index
first_word (c ∷ s) =
    let further = first_word s in if leb c 32 then ok [] else (do word ← further; ok (c ∷ word))

-- `strrchr`: what stands before the last such byte, and what stands behind it.
abbrev pub before : ℕ → Option (Bytes × Bytes) → Option (Bytes × Bytes)
before c none = none
before c (some (left, right)) = some (c ∷ left, right)

abbrev pub at_first : ℕ → ℕ → Bytes → Option (Bytes × Bytes)
at_first b c s = if c == b then some ([], s) else none

abbrev pub first_some : Option (Bytes × Bytes) → Option (Bytes × Bytes) → Option (Bytes × Bytes)
first_some none o = o
first_some (some r) o = some r

unfoldable pub split_at_last : ℕ → Bytes → Option (Bytes × Bytes)
split_at_last b [] = none
split_at_last b (c ∷ s) = first_some (before c (split_at_last b s)) (at_first b c s)

-- `strcmp_nocase` as a condition.
abbrev pub same_nocase : Bytes → Bytes → Bool
same_nocase s t = elim (strcmp_nocase s t) [ pos zero ↦ true | _ ↦ false ]

-- The address is a `0/` and the first word of the file.
abbrev pub read_opened : Bytes → Out (Viewed × Bool)
read_opened bytes = do
  url ← first_word (codes "0/" ++ (bytes ++ 0 ∷ []))
  ok (record { view_url = some url; view_url_mode = mode_url }, true)

unfoldable pub read_url_file : Files → Bytes → Viewed → Out (Viewed × Bool)
read_url_file files url_file v = elim (files url_file) [
  | none ↦ ok (v, false)
  | some bytes ↦ if length bytes == 0 then ok (v, false) else read_opened bytes
]

-- By the ending of the name; the old address is gone by then.
unfoldable pub parse_ending : Files → Bytes → Option (Bytes × Bytes) → Viewed → Out (Viewed × Bool)
parse_ending files fn none v = ok (v, false)
parse_ending files fn (some (name, ending)) v =
    if same_nocase ending (codes "oms")
    then ok (record { view_url = some fn; view_url_mode = mode_file }, true)
    else if same_nocase ending (codes "url")
    then read_url_file files fn v
    else ok (v, false)

unfoldable pub parse_input_filename : Files → Bytes → Viewed → Out (Viewed × Bool)
parse_input_filename files fn v =
    if same_nocase fn (codes "bookmarks")
    then ok (record v { view_url_mode = mode_bookmarks }, true)
    else parse_ending files fn (split_at_last 46 fn) (record v { view_url = none })

-- The end of `main`: the file that it was started with, or the one that is set, or no page.
unfoldable pub open_first : Files → Bytes → Bytes → Viewed → Out Viewed
open_first files filename default v = do
  r ← parse_input_filename files filename v
  if r.1 then ok r.0 else (do
    r' ← parse_input_filename files default r.0
    ok (if r'.1 then r'.0 else record r'.0 { view_url_mode = mode_none }))

-- `BALLET_PATH` and `BALLET_EXE`, of 256 bytes each: the folder with its last `\`, and the name with its
-- zero; none where there is no folder.
unfoldable pub ballet_path : Bytes → Out (Option (Bytes × Bytes))
ballet_path exename = elim (split_at_last 92 exename) [
  | none ↦ ok none
  | some (folder, name) ↦
      if ltb (length exename) 256 then ok (some (folder ++ 92 ∷ [], exename)) else fault overflow
]
