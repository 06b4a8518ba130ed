-- ===== src/Oms/Items.antt =====
-- The items of text, style and reference (additems.c).
pub mod Text
use elfloader3_elfs_archive.Prelude.{
  ℕ, ◌+◌, ◌*◌, ◌/◌, ◌%◌, ◌^◌, Bytes, [], ◌∷◌, ◌++◌, length, ◌==◌, if◌then◌else◌,
}
use elfloader3_elfs_archive.Encoding.Compare.{noref}
use elfloader3_elfs_archive.Encoding.Utf8.{join2, join3, is_lead2, is_lead3}
use elfloader3_elfs_archive.Oms.State.{RefCache, blank_ref, View}

abbrev pub rawtextchunk : ℕ
rawtextchunk = 16384

abbrev pub refcachechunk : ℕ
refcachechunk = 256

-- siemens_unicode.h
abbrev pub utf16_dis_invert : ℕ
utf16_dis_invert = 0xE004

abbrev pub utf16_ena_invert : ℕ
utf16_ena_invert = 0xE005

abbrev pub utf16_ink_rgba : ℕ
utf16_ink_rgba = 0xE006

abbrev pub utf16_paper_rgba : ℕ
utf16_paper_rgba = 0xE007

abbrev pub utf16_font_small : ℕ
utf16_font_small = 0xE012

abbrev pub utf16_font_small_bold : ℕ
utf16_font_small_bold = 0xE013

abbrev pub utf16_align_left : ℕ
utf16_align_left = 0xE01C

abbrev pub utf16_align_right : ℕ
utf16_align_right = 0xE01D

abbrev pub utf16_ena_center : ℕ
utf16_ena_center = 0xE01E

abbrev pub utf16_dis_center : ℕ
utf16_dis_center = 0xE01F

-- An element is an unsigned short.
unfoldable pub raw_insert_char : View → ℕ → View
raw_insert_char v wchar = record v {
  rawtext_cap =
      if length v.rawtext % rawtextchunk == 0
      then length v.rawtext + rawtextchunk
      else v.rawtext_cap;
  rawtext = v.rawtext ++ wchar % 2 ^ 16 ∷ [];
}

-- The bit-fields of TAG_S and TAG_D, from the low bit on.
abbrev pub s_red : ℕ → ℕ
s_red k = k / 2 ^ 8 % 32

abbrev pub s_green : ℕ → ℕ
s_green k = k / 2 ^ 13 % 64

abbrev pub s_blue : ℕ → ℕ
s_blue k = k / 2 ^ 19 % 32

abbrev pub s_bold : ℕ → ℕ
s_bold k = k / 2 ^ 25 % 2

abbrev pub s_center : ℕ → ℕ
s_center k = k / 2 ^ 28 % 2

abbrev pub s_right : ℕ → ℕ
s_right k = k / 2 ^ 29 % 2

-- A character for a bit-field that has changed.
abbrev pub switch_char : ℕ → ℕ → ℕ → ℕ → View → View
switch_char old new on off v =
    if new == old then v else raw_insert_char v (if new == 0 then off else on)

unfoldable pub add_new_style : View → View
add_new_style v =
    let s = v.current_tag_s in
    let p = v.prev_tag_s in
    let d = v.current_tag_d in
    let v1 = switch_char (s_bold p) (s_bold s) utf16_font_small_bold utf16_font_small v in
    let v2 = raw_insert_char v1 utf16_ink_rgba in
    let v3 = raw_insert_char v2 (s_red s * 2 ^ 11 + s_green s * 4) in
    let v4 = raw_insert_char v3 (s_blue s * 2 ^ 11 + 100) in
    let v5 = raw_insert_char v4 utf16_paper_rgba in
    let v6 = raw_insert_char v5 (d % 32 * 2 ^ 11 + d / 2 ^ 5 % 64 * 4) in
    let v7 = raw_insert_char v6 (d / 2 ^ 11 % 32 * 2 ^ 11 + 100) in
    let v8 = switch_char (s_center p) (s_center s) utf16_ena_center utf16_dis_center v7 in
    switch_char (s_right p) (s_right s) utf16_align_right utf16_align_left v8

unfoldable pub add_begin_ref : View → View
add_begin_ref v =
    let r = v.work_ref in
    raw_insert_char (record v { work_ref = record r { begin = length v.rawtext } }) utf16_ena_invert

unfoldable pub add_begin_ref_z : View → View
add_begin_ref_z v =
    let r = v.work_ref_z in
    raw_insert_char (record v { work_ref_z = record r { begin = length v.rawtext } })
      utf16_ena_invert

unfoldable pub add_to_ref_cache : View → View
add_to_ref_cache v = record v {
  ref_cache_cap =
      if length v.ref_cache % refcachechunk == 0
      then length v.ref_cache + refcachechunk
      else v.ref_cache_cap;
  ref_cache = v.ref_cache ++ v.work_ref ∷ [];
  work_ref = blank_ref;
}

unfoldable pub add_end_ref : View → View
unfolding raw_insert_char add_to_ref_cache
add_end_ref v0 =
    let v = raw_insert_char v0 utf16_dis_invert in
    let r = v.work_ref in
    add_to_ref_cache (record v {
      pos_cur_ref = if v.pos_cur_ref == noref then r.begin else v.pos_cur_ref;
      work_ref = record r { end = length v.rawtext };
    })

-- The loop reads UTF-8 as `oms2ws` does, and puts each unit into the view.
unfoldable pub add_text_item : View → Bytes → View
add_text_item v [] = v
add_text_item v (c ∷ []) = raw_insert_char v c
add_text_item v (c ∷ d ∷ []) =
    let two = raw_insert_char v (join2 c d) in
    let one = add_text_item (raw_insert_char v c) (d ∷ []) in if is_lead2 c then two else one
add_text_item v (c ∷ d ∷ e ∷ s) =
    let two = add_text_item (raw_insert_char v (join2 c d)) (e ∷ s) in
    let three = add_text_item (raw_insert_char v (join3 c d e)) s in
    let one = add_text_item (raw_insert_char v c) (d ∷ e ∷ s) in
    if is_lead2 c then two else if is_lead3 c then three else one

unfoldable pub add_br_item : View → View
unfolding add_text_item
add_br_item v = add_text_item v (b'\n' ∷ [])

unfoldable pub add_p_item : View → View
unfolding add_text_item
add_p_item v = add_text_item v (b' ' ∷ [])
