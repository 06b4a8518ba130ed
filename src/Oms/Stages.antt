-- ===== src/Oms/Stages.antt =====
-- The states behind the fixed arguments: strings, images and fields of a form, whose length the page
-- gives.
use elfloader3_elfs_archive.Prelude.{
  ℕ, ◌+◌, ◌-◌, ◌%◌, not, Bytes, [], ◌∷◌, ◌++◌, Option, none, some, Out, ok, fault, or_fault,
  overflow, bad_index, bad_pointer, ◌>>=◌, length, drop, set, replicate, ltb, ◌==◌, if◌then◌else◌,
  ◌&&◌,
}
use elfloader3_elfs_archive.Encoding.Compare.{slice_at}
use elfloader3_elfs_archive.Encoding.Utf8.{utf82win}
use elfloader3_elfs_archive.Oms.State.{
  ParseState, RefData, unset, wide, options, View, ViewData, Env, Outcome, with_view,
  update_csm_name, add_url_to_history, save_auth_code, rbyte, rshort,
}
use elfloader3_elfs_archive.Oms.Items.{add_end_ref, add_to_ref_cache, add_text_item, add_br_item}
use elfloader3_elfs_archive.Oms.Pictures.{
  add_picture_item, add_picture_item_rgba, add_picture_item_hr,
}
use elfloader3_elfs_archive.Oms.Forms.{
  codes, add_radio_button, add_check_box_item, add_input_item, add_button_item, add_drop_down_list,
}
use elfloader3_elfs_archive.Oms.Header.{c_string}
use elfloader3_elfs_archive.Oms.Tags.{no_stage2}
use elfloader3_elfs_archive.Oms.TagData.{await, leave_ref_mode_i}

-- `oms_pos = oms_wanted; oms_wanted++`: the string or image is passed over whole.
abbrev pub pass_over : ViewData → View → Outcome
pass_over vd v = no_stage2 (record vd { oms_pos = vd.oms_wanted; view = v })

-- `oms_pos += n`
abbrev pub skip : ViewData → ℕ → ViewData
skip vd n = record vd { oms_pos = vd.oms_pos + n }

unfoldable pub tag_a_stage3 : ViewData → Outcome
tag_a_stage3 vd =
    let v = vd.view in
    let r = v.work_ref in
    pass_over vd (
      add_to_ref_cache (record v {
        work_ref = record r {
          value = vd.oms_pos;
          size = vd.oms_wanted - vd.oms_pos;
          id2 = length v.rawtext;
        };
      }))

abbrev pub or_empty : Option Bytes → Bytes
or_empty none = []
or_empty (some s) = s

-- The first text is the page's title: the window and the history are given it. `pageurl + 2` is
-- behind the end of an address of fewer than two bytes.
unfoldable pub take_title : Env → ViewData → Bytes → Out ViewData
unfolding c_string
take_title env vd text = do
  title ← utf82win (c_string text)
  let name = c_string title
  let named = update_csm_name name ∷ []
  let v = vd.view
  (events, v') ←
      (if not env.mode_url then ok (named, v) else (do
        url ← or_fault bad_pointer vd.pageurl
        rest ← (if ltb (length url) 2 then fault bad_index else ok (drop 2 url))
        ok (named ++ add_url_to_history (rest ++ b'|' ∷ name) ∷ [], v)))
  ok (record vd { title = some name; events = vd.events ++ events; view = add_br_item v' })

unfoldable pub tag_t_stage3 : Env → Bytes → ViewData → Out Outcome
unfolding take_title
tag_t_stage3 env oms vd0 = do
  text ← slice_at oms vd0.oms_pos (vd0.oms_wanted - vd0.oms_pos)
  let vd1 = with_view vd0 (add_text_item vd0.view text)
  vd ← elim vd1.title [ none ↦ take_title env vd1 text | some _ ↦ ok vd1 ]
  ok (pass_over vd vd.view)

unfoldable pub tag_i_stage3_image : Env → Bytes → ViewData → Out Outcome
tag_i_stage3_image env oms vd = do
  picture ← slice_at oms vd.oms_pos (vd.oms_wanted - vd.oms_pos)
  v ← add_picture_item env vd.view picture
  ok (pass_over vd (leave_ref_mode_i v))

unfoldable pub tag_x_stage3_image : Env → Bytes → ViewData → Out Outcome
tag_x_stage3_image env oms vd = do
  picture ← slice_at oms vd.oms_pos (vd.oms_wanted - vd.oms_pos)
  v ← add_picture_item_rgba env vd.view picture vd.iw vd.ih
  ok (pass_over vd (leave_ref_mode_i v))

-- Stage 3 of tag 'h' and of the fields: the name is passed over, and the length of the value read.
unfoldable pub tag_h_stage3 : Bytes → ViewData → Out Outcome
tag_h_stage3 oms vd0 = do
  (n, vd) ← rshort oms (skip vd0 vd0.iw)
  ok (await (record vd { ih = n }) n ParseState.tag_h_stage4)

unfoldable pub tag_h_stage4 : ViewData → Outcome
tag_h_stage4 vd = no_stage2 (skip vd vd.ih)

abbrev pub set_id : ViewData → ViewData
set_id vd =
    let v = vd.view in
    let r = v.work_ref in
    record vd { view = record v { work_ref = record r { id = vd.oms_pos - 2 } } }

abbrev pub set_value : ViewData → ViewData
set_value vd =
    let v = vd.view in
    let r = v.work_ref in
    record vd { view = record v { work_ref = record r { value = vd.oms_pos - 2 } } }

unfoldable pub field_stage3 : Bytes → ViewData → ℕ → ParseState → Out Outcome
field_stage3 oms vd0 extra s = do
  (n, vd) ← rshort oms (skip (set_id vd0) vd0.iw)
  ok (await (record vd { ih = n }) (n + extra) s)

-- Stage 4 of tags 'e' and 'i'.
unfoldable pub tag_e_stage4 : ViewData → Outcome
tag_e_stage4 vd = no_stage2 (skip (set_value vd) vd.ih)

unfoldable pub tag_i_stage4 : ViewData → Outcome
tag_i_stage4 vd0 =
    let vd = set_value vd0 in
    let v = vd.view in no_stage2 (skip (with_view vd (record v { ref_mode_i = 1 })) vd.ih)

-- Tags 'p' and 'x': an input field that begins with the string of the page at `oms_pos - 2`.
unfoldable pub input_stage4 : Env → Bytes → ViewData → Out Outcome
input_stage4 env oms vd0 = do
  let vd = set_value vd0
  v ← add_input_item env oms vd.view (vd.oms_pos - 2)
  ok (no_stage2 (skip (with_view vd (add_end_ref v)) vd.ih))

unfoldable pub tag_u_stage4 : Env → Bytes → ViewData → Out Outcome
tag_u_stage4 env oms vd0 = do
  let vd = set_value vd0
  text ← slice_at oms vd.oms_pos vd.ih
  v ← add_button_item env vd.view text
  ok (no_stage2 (skip (with_view vd (add_end_ref v)) vd.ih))

-- Tags 'c' and 'r': whether the box is checked stands behind the value.
unfoldable pub tag_c_stage4 : Env → Bytes → ViewData → Out Outcome
tag_c_stage4 env oms vd0 = do
  (i, vd) ← rbyte oms (skip (set_value vd0) vd0.ih)
  v ← add_check_box_item env vd.view i
  ok (no_stage2 (with_view vd (add_end_ref v)))

unfoldable pub tag_r_stage4 : Env → Bytes → ViewData → Out Outcome
tag_r_stage4 env oms vd0 = do
  (i, vd) ← rbyte oms (skip (set_value vd0) vd0.ih)
  v ← add_radio_button env vd.view i
  ok (no_stage2 (with_view vd (add_end_ref v)))

-- A drop-down list: room for a byte for each item that is to come.
unfoldable pub tag_s_stage3 : Bytes → ViewData → Out Outcome
tag_s_stage3 oms vd0 = do
  (multi, vd1) ← rbyte oms (skip (set_id vd0) vd0.iw)
  (count, vd2) ← rshort oms vd1
  let v = vd2.view
  let r = v.work_ref
  ok (
      no_stage2 (record vd2 {
        tag_o_count = count;
        view = record v {
          work_ref = record r {
            multiselect = multi % 2;
            ref_data = options (replicate count none);
            size = 0;
          };
        };
      }))

unfoldable pub tag_o_stage3 : Bytes → ViewData → Out Outcome
tag_o_stage3 oms vd0 = do
  (n, vd) ← rshort oms (skip vd0 vd0.iw)
  ok (await (record vd { ih = n }) (n + 1) ParseState.tag_o_stage4)

-- `((char *) data)[size] = b`
unfoldable pub write_option : RefData → ℕ → ℕ → Out RefData
write_option unset i b = fault bad_pointer
write_option (wide ws) i b = fault bad_pointer
write_option (options os) i b =
    if ltb i (length os) then ok (options (set os i (some b))) else fault overflow

unfoldable pub tag_o_stage4 : Env → Bytes → ViewData → Out Outcome
unfolding write_option
tag_o_stage4 env oms vd0 = do
  (b, vd) ← rbyte oms (skip vd0 vd0.ih)
  let v = vd.view
  let r = v.work_ref
  written ← write_option r.ref_data r.size b
  let at = vd.oms_pos - 1 - vd.ih - 2
  let r' = record r {
    ref_data = written;
    value = if b == 0 then r.value else at - vd.iw - 2;
    id2 = if b == 0 then r.id2 else at;
    size = r.size + 1;
  }
  let v' = record v { work_ref = r' }
  if vd.tag_o_count == 0
      then (do shown ← add_drop_down_list env v'; ok (no_stage2 (with_view vd (add_end_ref shown))))
      else ok (no_stage2 (with_view vd v'))

-- AUTH_PREFIX has 64 bytes and AUTH_CODE 128, with the closing zero.
abbrev pub copy_code : ℕ → Bytes → Out Bytes
copy_code room code = if ltb (length code) room then ok (c_string code) else fault overflow

unfoldable pub keep_code : Env → ViewData → Bytes → Out ViewData
unfolding c_string
keep_code env vd code =
    if not env.authcode_write_file
    then ok vd
    else if vd.ih == 0
    then (do
      prefix ← copy_code 64 code
      ok (record vd {
        auth_prefix = prefix;
        events = vd.events ++ save_auth_code prefix vd.auth_code ∷ [];
      }))
    else do
      new ← copy_code 128 code
      ok (record vd {
        auth_code = new;
        events = vd.events ++ save_auth_code vd.auth_prefix new ∷ [];
      })

unfoldable pub tag_k_stage3 : Env → Bytes → ViewData → Out Outcome
unfolding keep_code
tag_k_stage3 env oms vd0 = do
  v1 ← add_picture_item_hr env vd0.view
  code ← slice_at oms vd0.oms_pos vd0.iw
  vd1 ← keep_code env (with_view vd0 v1) code
  let label = if vd1.ih == 0 then codes "New AuthPrefix: " else codes "New AuthCode: "
  let v2 = add_text_item vd1.view label
  prefix ← (if env.mode_url && vd1.ih == 0 then copy_code 64 code else ok vd1.auth_prefix)
  v3 ← add_picture_item_hr env (add_text_item v2 code)
  ok (pass_over (record vd1 { auth_prefix = prefix }) v3)

-- Tags 'L' and '^': `id` is where the length of the address stands.
unfoldable pub tag_l_stage3 : ViewData → Outcome
tag_l_stage3 vd0 = let vd = set_id vd0 in pass_over vd vd.view

unfoldable pub tag_p_stage3_phone : ViewData → Outcome
tag_p_stage3_phone vd = pass_over vd vd.view

unfoldable pub tag_z_stage3 : ViewData → Outcome
tag_z_stage3 vd = no_stage2 (skip vd vd.iw)

unfoldable pub tag_x40_stage3 : Bytes → ViewData → Out Outcome
tag_x40_stage3 oms vd = do
  text ← slice_at oms vd.oms_pos vd.iw
  let v = add_br_item (add_text_item vd.view text)
  ok (no_stage2 (skip (with_view vd (add_end_ref v)) vd.iw))
