-- ===== src/Upload/Form.antt =====
-- The two passes of `collectItemsParams` over the references of a page.
use elfloader3_elfs_archive.Prelude.{
  ℕ, ◌+◌, Bool, false, Bytes, List, [], ◌∷◌, ◌++◌, map, Option, none, some, Out, ok, fault,
  overflow, ◌>>=◌, length, leb, ◌==◌, ◌||◌, if◌then◌else◌,
}
use elfloader3_elfs_archive.Encoding.Compare.{noref, short_at}
use elfloader3_elfs_archive.Oms.State.{RefCache, View, wide}
use elfloader3_elfs_archive.Net.Request.{goto_params_offset}
use elfloader3_elfs_archive.Upload.{
  Disk, get_file_data_len, fill_file_data, text_at, web_of, wide_text, pair, count_select,
  write_select, count_button, write_button, count_submit, write_submit,
}

-- `switch (prf->tag)`
pub data Kind : Type 0 where
  select button submit field other : Kind

abbrev pub kind_of : ℕ → Kind
kind_of t =
    if t == 115
    then select
    else if t == 99 || t == 114
    then button
    else if t == 105 || t == 117
    then submit
    else if t == 112 || t == 120
    then field
    else other

-- A field has a file if the bit that says there is none is clear.
abbrev pub has_file : RefCache → Bool
has_file r = r.upload_file_data_not_present == 0

unfoldable pub count_file : Disk → RefCache → ℕ → Out (ℕ × ℕ)
unfolding get_file_data_len
count_file d r filesize =
    if has_file r then get_file_data_len d r.full_filename filesize else ok (0, filesize)

unfoldable pub write_file : Disk → RefCache → ℕ → Out Bytes
unfolding fill_file_data
write_file d r filesize = if has_file r then fill_file_data d r.full_filename filesize else ok []

unfoldable pub count_field : Disk → Bytes → RefCache → ℕ → Out (ℕ × ℕ)
unfolding count_file web_of
count_field d oms r filesize = do
  l ← short_at oms r.id
  ws ← wide_text r.ref_data
  (n, filesize') ← count_file d r filesize
  ok (l + 2 + length (web_of ws) + n, filesize')

unfoldable pub write_field : Disk → Bytes → RefCache → ℕ → Out Bytes
unfolding write_file text_at web_of
write_field d oms r filesize = do
  name ← text_at oms r.id
  ws ← wide_text r.ref_data
  file ← write_file d r filesize
  ok (pair name (web_of ws) ++ file)

-- `prf!=rf`, where `rf` is the reference that was clicked.
abbrev pub is_clicked : Option ℕ → ℕ → Bool
is_clicked none i = false
is_clicked (some k) i = k == i

abbrev pub keep_size : ℕ → Out ℕ → Out (ℕ × ℕ)
keep_size filesize m = do n ← m; ok (n, filesize)

unfoldable pub count_item : Disk → Bytes → View → Option ℕ → ℕ → RefCache → Kind → ℕ → Out (ℕ × ℕ)
unfolding count_select count_button count_submit count_field
count_item d oms v rf i r select filesize = keep_size filesize (count_select oms r)
count_item d oms v rf i r button filesize = keep_size filesize (count_button oms v r)
count_item d oms v rf i r submit filesize =
    keep_size filesize (if is_clicked rf i then count_submit oms r else ok 0)
count_item d oms v rf i r field filesize = count_field d oms r filesize
count_item d oms v rf i r other filesize = ok (0, filesize)

unfoldable pub write_item : Disk → Bytes → View → Option ℕ → ℕ → RefCache → Kind → ℕ → Out Bytes
unfolding write_select write_button write_submit write_field
write_item d oms v rf i r select filesize = write_select oms r
write_item d oms v rf i r button filesize = write_button oms v r
write_item d oms v rf i r submit filesize = if is_clicked rf i then write_submit oms r else ok []
write_item d oms v rf i r field filesize = write_field d oms r filesize
write_item d oms v rf i r other filesize = ok []

unfoldable pub count_items : Disk → Bytes → View → Option ℕ → ℕ → List RefCache → ℕ → Out (ℕ × ℕ)
unfolding count_item
count_items d oms v rf i [] filesize = ok (0, filesize)
count_items d oms v rf i (r ∷ rs) filesize = do
  (n, filesize') ← count_item d oms v rf i r (kind_of r.tag) filesize
  (more, filesize'') ← count_items d oms v rf (i + 1) rs filesize'
  ok (n + more, filesize'')

unfoldable pub write_items : Disk → Bytes → View → Option ℕ → ℕ → List RefCache → ℕ → Out Bytes
unfolding write_item
write_items d oms v rf i [] filesize = ok []
write_items d oms v rf i (r ∷ rs) filesize = do
  text ← write_item d oms v rf i r (kind_of r.tag) filesize
  more ← write_items d oms v rf (i + 1) rs filesize
  ok (text ++ more)

-- `FillFileData` forgets the name of the file.
abbrev pub forget_file : RefCache → RefCache
forget_file r = elim (kind_of r.tag) [
  | field ↦ if has_file r then record r { full_filename = noref } else r
  | _ ↦ r
]

-- The text, `filesize` and the references afterwards. The text is written from `GOTO_PARAMS_OFFSET` on, into
-- a buffer of the length counted, the offset, and one for the zero. The position only grows, so that
-- all of it fits if its end does.
pub record Collected : Type 0 where
  pub params : Bytes
  pub file_length : ℕ
  pub ref_cache : List RefCache

unfoldable pub collect_items_params : Disk → Bytes → View → Option ℕ → ℕ → Out Collected
unfolding count_items write_items
collect_items_params d oms v rf filesize0 = do
  (total, filesize) ← count_items d oms v rf 0 v.ref_cache filesize0
  text ← write_items d oms v rf 0 v.ref_cache filesize
  if leb (goto_params_offset + length text + 1) (total + 1 + goto_params_offset)
      then ok (record {
        params = text;
        file_length = filesize;
        ref_cache = map forget_file v.ref_cache;
      })
      else fault overflow

-- `PrepareFileForUpload`: the field gets a file, of which the name is shown. `str_2ws` is the phone's.
unfoldable pub prepare_file_for_upload : (Bytes → List ℕ) → ℕ → Bytes → RefCache → RefCache
prepare_file_for_upload str_2ws fullname name r = record r {
  upload_file_data_not_present = 0;
  full_filename = fullname;
  ref_data = wide (str_2ws name);
}
