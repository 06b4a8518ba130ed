-- ===== src/Upload/Examples.antt =====
-- A form with one text field, which sends a file of four bytes.
use elfloader3_elfs_archive.Prelude.{
  ◌+◌, ◌*◌, ◌/◌, ◌≡◌, refl, Bytes, [], ◌∷◌, none, some, fault, overflow, length, replicate, ◌==◌,
  if◌then◌else◌,
}
use elfloader3_elfs_archive.Encoding.Codepage.{char16to8}
use elfloader3_elfs_archive.Encoding.Compare.{short_at, extract_omstr}
use elfloader3_elfs_archive.Encoding.Web.{to_web}
use elfloader3_elfs_archive.Oms.Forms.{codes}
use elfloader3_elfs_archive.Oms.State.{RefCache, View, blank_ref, wide}
use elfloader3_elfs_archive.Upload.{Disk}
use elfloader3_elfs_archive.Upload.Form.{collect_items_params}

abbrev four_bytes : Bytes
four_bytes = 1 ∷ 2 ∷ 3 ∷ 4 ∷ []

abbrev disk : Disk
disk = record {
  file_size = λ name. some 4;
  file_bytes = λ name. some four_bytes;
  free_ram = 1000000;
  base64_encode = λ s. replicate ((length s + 2) / 3 * 4) 65;
}

abbrev field_ref : RefCache
field_ref = record blank_ref {
  tag = 120;
  id = 0;
  ref_data = wide (97 ∷ 98 ∷ []);
  upload_file_data_not_present = 0;
  full_filename = 1;
}

abbrev view : View
view = record {
  rawtext = [];
  rawtext_cap = 0;
  ref_cache = field_ref ∷ [];
  ref_cache_cap = 1;
  work_ref = blank_ref;
  work_ref_z = blank_ref;
  pos_cur_ref = 0;
  s_cache = [];
  current_tag_s = 0;
  prev_tag_s = 0;
  current_tag_d = 0;
  ref_mode_i = 0;
  ref_mode_p = 0;
  dynpng_list = [];
  wchar_hr = 0;
  wchar_button_on = 0;
  wchar_button_off = 0;
  wchar_radio_on = 0;
  wchar_radio_off = 0;
  wchar_text_form = 0;
  wchar_list_form = 0;
}

abbrev page : Bytes
page = 0 ∷ 1 ∷ 110 ∷ []

abbrev form_text : Bytes
form_text = codes "&n=abfile=AAAAAAAA"

-- Two files, of which the first is empty: it is counted as nothing, but since `filesize` is that of the
-- second one by then, its "file=" is written, and the buffer is too small.
abbrev two_files : Disk
two_files = record disk {
  file_size = λ name. some (if name == 1 then 0 else 4);
  file_bytes = λ name. some (if name == 1 then [] else four_bytes);
}

abbrev two_fields : View
two_fields = record view { ref_cache = field_ref ∷ (record field_ref { full_filename = 2 }) ∷ [] }

two_files_test : collect_items_params two_files page two_fields none 0 ≡ fault overflow
unfolding collect_items_params short_at extract_omstr to_web char16to8
two_files_test = refl
