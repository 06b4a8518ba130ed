-- ===== src/Upload.antt =====
-- The parameters of a form: `collectItemsParams` (BalletMini/main.c), which counts them and then writes
-- them into a buffer of that size, and the files that go with them (BalletMini/upload.c).
pub mod Form
pub mod Both
pub mod Files
pub mod Bounds
pub mod Fitting
pub mod Whole
pub mod Examples
use elfloader3_elfs_archive.Prelude.{
  ℕ, zero, suc, ◌+◌, ◌%◌, ◌-◌, ◌*◌, ◌/◌, ◌^◌, Bool, true, false, Bytes, List, [], ◌∷◌, ◌++◌, map,
  Option, none, some, Out, ok, fault, bad_index, bad_pointer, overflow, out_of_fuel, ◌>>=◌,
  or_fault, length, take, drop, get_elem?, leb, ltb, ◌==◌, ◌&&◌, ◌||◌, not, if◌then◌else◌,
}
use elfloader3_elfs_archive.Encoding.Compare.{noref, short_at, extract_omstr}
use elfloader3_elfs_archive.Encoding.Codepage.{char16to8}
use elfloader3_elfs_archive.Encoding.Utf8.{oms2ws}
use elfloader3_elfs_archive.Encoding.Web.{to_web}
use elfloader3_elfs_archive.Oms.Forms.{codes}
use elfloader3_elfs_archive.Oms.State.{RefCache, RefData, unset, wide, options, View}
use elfloader3_elfs_archive.Net.Request.{goto_params_offset}

-- The phone: the size of a file, its bytes if it can be opened, the free memory, and `Base64Encode`.
pub record Disk : Type 0 where
  pub file_size : ℕ → Option ℕ
  pub file_bytes : ℕ → Option Bytes
  pub free_ram : ℕ
  pub base64_encode : Bytes → Bytes

abbrev pub file_data_signature : Bytes
file_data_signature = codes "file="

-- `CALCLEN(a,b)`, in which `a*4` is an int.
abbrev pub calclen : ℕ → ℕ → Out ℕ
calclen a b = if leb (2 ^ 31) (a * 4) then fault overflow else ok (a * 4 / 3 + 2 + b + 1)

-- `mem_avail < 204800`, where `mem_avail` is an int.
abbrev pub has_room : ℕ → ℕ → Bool
has_room free maxlen = leb (maxlen + 204800) free

-- `GetFileDataLen`: the length counted, and `filesize`, a variable of the file.
unfoldable pub get_file_data_len : Disk → ℕ → ℕ → Out (ℕ × ℕ)
get_file_data_len d name filesize = elim (d.file_size name) [
  | none ↦ ok (0, filesize)
  | some size ↦ if size == 0 then ok (0, size) else (do
    maxlen ← calclen size (length file_data_signature)
    if has_room d.free_ram maxlen then ok (maxlen, size) else ok (0, 0))
]

abbrev pub bufsize : ℕ
bufsize = 15000

-- The loop over the parts of the file.
unfoldable pub fill_loop : Disk → ℕ → Bytes → Out Bytes
fill_loop d zero rest = fault out_of_fuel
fill_loop d (suc fuel) rest =
    let part = take bufsize rest in
    let more = fill_loop d fuel (drop bufsize rest) in
    if length part == bufsize
    then (do text ← more; ok (d.base64_encode part ++ text))
    else ok (d.base64_encode part)

unfoldable pub fill_opened : Disk → Option Bytes → Out Bytes
unfolding fill_loop
fill_opened d none = ok []
fill_opened d (some bytes) = do
  text ← fill_loop d (length bytes + 1) bytes
  ok (file_data_signature ++ text)

-- `FillFileData`
unfoldable pub fill_file_data : Disk → ℕ → ℕ → Out Bytes
unfolding fill_opened
fill_file_data d name filesize = if filesize == 0 then ok [] else fill_opened d (d.file_bytes name)

-- `strlen` and `memcpy` take the bytes before the first zero.
unfoldable pub c_string : Bytes → Bytes
c_string [] = []
c_string (c ∷ s) = let rest = c_string s in if c == 0 then [] else c ∷ rest

-- A string of the page, as `extract_omstr` gives it.
unfoldable pub text_at : Bytes → ℕ → Out Bytes
unfolding c_string
text_at oms position = do
  o ← extract_omstr oms position
  s ← or_fault bad_pointer o
  ok (c_string s)

-- The text of a field in the page's code page, percent-encoded.
unfoldable pub web_of : List ℕ → Bytes
unfolding c_string
web_of ws = to_web (c_string (map (λ u. char16to8 u % 256) ws)) true false

abbrev pub wide_text : RefData → Out (List ℕ)
wide_text (wide ws) = ok ws
wide_text unset = fault bad_pointer
wide_text (options o) = fault bad_pointer

abbrev pub selection : RefData → Out (List (Option ℕ))
selection (options o) = ok o
selection unset = fault bad_pointer
selection (wide ws) = fault bad_pointer

-- `&name=text`
abbrev pub pair : Bytes → Bytes → Bytes
pair name text = (38 ∷ name) ++ (61 ∷ text)

-- The options of a list that allows several: what is counted for those that are chosen, from `start` on.
unfoldable pub count_options : Bytes → ℕ → ℕ → List (Option ℕ) → ℕ → Out ℕ
count_options oms id zero chosen start = ok 0
count_options oms id (suc n) [] start = fault bad_index
count_options oms id (suc n) (none ∷ chosen) start = fault bad_pointer
count_options oms id (suc n) (some b ∷ chosen) start = do
  p ← short_at oms start
  let place = start + 2 + p
  counted ←
      (if b == 0 then ok 0 else (do l ← short_at oms id; k ← short_at oms place; ok (l + k + 2)))
  q ← short_at oms place
  more ← count_options oms id n chosen (place + 2 + q + 2)
  ok (counted + more)

unfoldable pub write_options : Bytes → ℕ → ℕ → List (Option ℕ) → ℕ → Out Bytes
unfolding text_at
write_options oms id zero chosen start = ok []
write_options oms id (suc n) [] start = fault bad_index
write_options oms id (suc n) (none ∷ chosen) start = fault bad_pointer
write_options oms id (suc n) (some b ∷ chosen) start = do
  p ← short_at oms start
  let place = start + 2 + p
  written ←
      (if b == 0
        then ok []
        else (do name ← text_at oms id; text ← text_at oms place; ok (pair name text)))
  q ← short_at oms place
  more ← write_options oms id n chosen (place + 2 + q + 2)
  ok (written ++ more)

-- A list: the options begin behind its name.
unfoldable pub count_select : Bytes → RefCache → Out ℕ
unfolding count_options
count_select oms r =
    if r.multiselect == 0
    then (do l ← short_at oms r.id; k ← short_at oms r.id2; ok (l + 1 + k + 1))
    else (do
      p ← short_at oms r.id
      chosen ← selection r.ref_data
      count_options oms r.id r.size chosen (r.id + 2 + p + 3 + 1))

unfoldable pub write_select : Bytes → RefCache → Out Bytes
unfolding write_options text_at
write_select oms r =
    if r.multiselect == 0
    then (do name ← text_at oms r.id; text ← text_at oms r.id2; ok (pair name text))
    else (do
      p ← short_at oms r.id
      chosen ← selection r.ref_data
      write_options oms r.id r.size chosen (r.id + 2 + p + 3 + 1))

-- A radio button or a check box that is on.
abbrev pub is_on : View → RefCache → Out Bool
is_on v r = do
  c ← or_fault bad_index (get_elem? v.rawtext (r.begin + 1))
  ok (c == v.wchar_radio_on || c == v.wchar_button_on)

unfoldable pub count_button : Bytes → View → RefCache → Out ℕ
count_button oms v r = do
  on ← is_on v r
  if on then (do l ← short_at oms r.id; k ← short_at oms r.value; ok (l + 1 + k + 1)) else ok 0

unfoldable pub write_button : Bytes → View → RefCache → Out Bytes
unfolding text_at
write_button oms v r = do
  on ← is_on v r
  if on
      then (do name ← text_at oms r.id; text ← text_at oms r.value; ok (pair name text))
      else ok []

-- The button that sends the form, with its own value.
unfoldable pub count_submit : Bytes → RefCache → Out ℕ
unfolding text_at web_of
count_submit oms r = do
  l ← short_at oms r.id
  c ← text_at oms r.value
  ok (l + 2 + length (web_of (oms2ws c)))

unfoldable pub write_submit : Bytes → RefCache → Out Bytes
unfolding text_at web_of
write_submit oms r = do
  name ← text_at oms r.id
  c ← text_at oms r.value
  ok (pair name (web_of (oms2ws c)))
