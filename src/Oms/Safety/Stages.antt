-- ===== src/Oms/Safety/Stages.antt =====
-- The strings, the images and the fields: each state reads what it waited for.
use elfloader3_elfs_archive.Prelude.{
  ℕ, ◌+◌, ◌-◌, ◌*◌, ◌≤◌, ◌≡◌, refl, Bytes, Option, none, some, ok, Avoids, returns, faults,
  Avoids-bind, arith, length, ltb, not, ◌&&◌, ◌==◌, if_intro,
}
use elfloader3_elfs_archive.Oms.State.{
  ParseState, RefData, unset, wide, options, ViewData, Env, with_view, rshort,
}
use elfloader3_elfs_archive.Oms.Items.{add_text_item}
use elfloader3_elfs_archive.Oms.Header.{c_string}
use elfloader3_elfs_archive.Oms.Stages.{
  skip, set_id, set_value, take_title, tag_t_stage3, tag_i_stage3_image, tag_x_stage3_image,
  tag_h_stage3, field_stage3, input_stage4, tag_u_stage4, tag_c_stage4, tag_r_stage4, tag_s_stage3,
  tag_o_stage3, write_option, tag_o_stage4, copy_code, keep_code, tag_k_stage3, tag_x40_stage3,
}
use elfloader3_elfs_archive.Oms.Shape.{
  IsPageFault, HasString, ShapeAt, rank, Safe, rbyte_ok, rshort_ok, short_at_ok,
}
use elfloader3_elfs_archive.Oms.Safety.Calls.{
  NoRead, NoRead-ok, NoRead-bind, NoRead-if, NoRead-or_fault, index_benign, pointer_benign,
  overflow_benign, add_picture_item-NoRead, add_picture_item_rgba-NoRead,
  add_picture_item_hr-NoRead,
}
use elfloader3_elfs_archive.Oms.Safety.Fields.{
  add_radio_button-NoRead, add_check_box_item-NoRead, add_button_item-NoRead,
  add_drop_down_list-NoRead, add_input_item-NoRead,
}
use elfloader3_elfs_archive.Oms.Safety.Header.{slice_ok, utf82win-NoRead}

-- The title changes neither the place nor what is waited for.
abbrev SameCursor : ViewData → ViewData → Type 0
SameCursor vd vd' = (vd'.oms_pos ≡ vd.oms_pos) × (vd'.oms_wanted ≡ vd.oms_wanted)

module _ (env : Env) (oms : Bytes) (vd : ViewData) (fits : vd.oms_wanted ≤ length oms) where
  take_title-SameCursor :
      (vd1 : ViewData) (text : Bytes)
      → Avoids IsPageFault (SameCursor vd1) (take_title env vd1 text)
  unfolding take_title
  take_title-SameCursor vd1 text = Avoids-bind (utf82win-NoRead (c_string text)) λ title _.
      Avoids-bind
        (NoRead-if (not env.mode_url) NoRead-ok (
          NoRead-bind (NoRead-or_fault _ vd1.pageurl pointer_benign) λ url.
            NoRead-bind (NoRead-if (ltb (length url) 2) (faults index_benign) NoRead-ok)
              λ rest. NoRead-ok))
        λ (events, v) _. returns (refl, refl)

  titled :
      (text : Bytes) (title : Option Bytes) (vd1 : ViewData)
      → Avoids IsPageFault
          (SameCursor vd1)
          (elim title [ none ↦ take_title env vd1 text | some _ ↦ ok vd1 ])
  titled text none vd1 = take_title-SameCursor vd1 text
  titled text (some t) vd1 = returns (refl, refl)

  pub tag_t_stage3-Safe :
      vd.oms_pos ≤ vd.oms_wanted → Safe oms (4 * vd.oms_wanted + 2) (tag_t_stage3 env oms vd)
  unfolding tag_t_stage3
  tag_t_stage3-Safe h =
      let (text, e) =
        slice_ok env oms vd fits vd.oms_pos (vd.oms_wanted - vd.oms_pos) (omega arith) in
      rw e (
        Avoids-bind (titled text vd.title (with_view vd (add_text_item vd.view text)))
          λ vd' same. returns (omega arith))

  pub tag_i_stage3_image-Safe :
      vd.oms_pos ≤ vd.oms_wanted → Safe oms (4 * vd.oms_wanted + 2) (tag_i_stage3_image env oms vd)
  unfolding tag_i_stage3_image
  tag_i_stage3_image-Safe h =
      let (s, e) = slice_ok env oms vd fits vd.oms_pos (vd.oms_wanted - vd.oms_pos) (omega arith) in
      rw e (Avoids-bind (add_picture_item-NoRead env vd.view s) λ v _. returns (omega arith))

  pub tag_x_stage3_image-Safe :
      vd.oms_pos ≤ vd.oms_wanted → Safe oms (4 * vd.oms_wanted + 2) (tag_x_stage3_image env oms vd)
  unfolding tag_x_stage3_image
  tag_x_stage3_image-Safe h =
      let (s, e) = slice_ok env oms vd fits vd.oms_pos (vd.oms_wanted - vd.oms_pos) (omega arith) in
      rw e (
        Avoids-bind (add_picture_item_rgba-NoRead env vd.view s vd.iw vd.ih)
          λ v _. returns (omega arith))

  pub tag_h_stage3-Safe :
      vd.oms_pos + vd.iw + 2 ≡ vd.oms_wanted
      → Safe oms (4 * vd.oms_wanted + 2) (tag_h_stage3 oms vd)
  unfolding tag_h_stage3
  tag_h_stage3-Safe h =
      let (n, e) = rshort_ok oms (skip vd vd.iw) (omega arith) in rw e (returns (omega arith))

  -- The fields whose last state reads no string again.
  pub field_stage3-Safe :
      (extra : ℕ) (s : ParseState)
      → ((after : ViewData)
          → after.oms_pos + after.ih + extra ≡ after.oms_wanted
          → ShapeAt s oms after)
      → rank s ≡ 3
      → vd.oms_pos + vd.iw + 2 ≡ vd.oms_wanted
      → Safe oms (4 * vd.oms_wanted + 2) (field_stage3 oms vd extra s)
  unfolding field_stage3
  field_stage3-Safe extra s shape is_stage4 h =
      let (n, e) = rshort_ok oms (skip (set_id vd) vd.iw) (omega arith) in
      rw e (returns (shape _ (omega arith), omega arith))

  -- Input fields: the string that is waited for begins with the length just read.
  pub input_stage3-Safe :
      (s : ParseState)
      → ((after : ViewData)
          → HasString oms after
          → after.oms_pos + after.ih ≡ after.oms_wanted
          → ShapeAt s oms after)
      → rank s ≡ 3
      → vd.oms_pos + vd.iw + 2 ≡ vd.oms_wanted
      → Safe oms (4 * vd.oms_wanted + 2) (field_stage3 oms vd 0 s)
  unfolding field_stage3 rshort
  input_stage3-Safe s shape is_stage4 h =
      let (n, e) = short_at_ok oms (vd.oms_pos + vd.iw) (omega arith) in
      let back : vd.oms_pos + vd.iw + 2 - 2 ≡ vd.oms_pos + vd.iw = omega arith in
      rw e (
        returns (
          shape _ (record { behind = omega arith; is_length = rw back e }) (omega arith),
          omega arith,
        ))

  pub input_stage4-Safe :
      HasString oms vd
      → vd.oms_pos + vd.ih ≡ vd.oms_wanted
      → Safe oms (4 * vd.oms_wanted + 3) (input_stage4 env oms vd)
  unfolding input_stage4
  input_stage4-Safe has h =
      let start = set_value vd in
      let inside : vd.oms_pos - 2 + 2 + vd.ih ≤ length oms = omega (arith, has.behind) in
      Avoids-bind
        (add_input_item-NoRead env oms start.view (vd.oms_pos - 2) vd.ih has.is_length inside)
        λ v _. returns (omega arith)

  pub tag_u_stage4-Safe :
      vd.oms_pos + vd.ih ≡ vd.oms_wanted
      → Safe oms (4 * vd.oms_wanted + 3) (tag_u_stage4 env oms vd)
  unfolding tag_u_stage4
  tag_u_stage4-Safe h =
      let (text, e) = slice_ok env oms vd fits vd.oms_pos vd.ih (omega arith) in
      let start = set_value vd in
      rw e (Avoids-bind (add_button_item-NoRead env start.view text) λ v _. returns (omega arith))

  pub tag_c_stage4-Safe :
      vd.oms_pos + vd.ih + 1 ≡ vd.oms_wanted
      → Safe oms (4 * vd.oms_wanted + 3) (tag_c_stage4 env oms vd)
  unfolding tag_c_stage4
  tag_c_stage4-Safe h =
      let start = set_value vd in
      let (i, e) = rbyte_ok oms (skip start vd.ih) (omega arith) in
      rw e (Avoids-bind (add_check_box_item-NoRead env start.view i) λ v _. returns (omega arith))

  pub tag_r_stage4-Safe :
      vd.oms_pos + vd.ih + 1 ≡ vd.oms_wanted
      → Safe oms (4 * vd.oms_wanted + 3) (tag_r_stage4 env oms vd)
  unfolding tag_r_stage4
  tag_r_stage4-Safe h =
      let start = set_value vd in
      let (i, e) = rbyte_ok oms (skip start vd.ih) (omega arith) in
      rw e (Avoids-bind (add_radio_button-NoRead env start.view i) λ v _. returns (omega arith))

  pub tag_s_stage3-Safe :
      vd.oms_pos + vd.iw + 3 ≡ vd.oms_wanted
      → Safe oms (4 * vd.oms_wanted + 2) (tag_s_stage3 oms vd)
  unfolding tag_s_stage3
  tag_s_stage3-Safe h =
      let start = skip (set_id vd) vd.iw in
      let (m, e) = rbyte_ok oms start (omega arith) in
      let (n, e') = rshort_ok oms (record start { oms_pos = start.oms_pos + 1 }) (omega arith) in
      rw (e, e') (returns (omega arith))

  pub tag_o_stage3-Safe :
      vd.oms_pos + vd.iw + 2 ≡ vd.oms_wanted
      → Safe oms (4 * vd.oms_wanted + 2) (tag_o_stage3 oms vd)
  unfolding tag_o_stage3
  tag_o_stage3-Safe h =
      let (n, e) = rshort_ok oms (skip vd vd.iw) (omega arith) in rw e (returns (omega arith))

  write_option-NoRead : (d : RefData) (i b : ℕ) → NoRead (write_option d i b)
  unfolding write_option
  write_option-NoRead unset i b = faults pointer_benign
  write_option-NoRead (wide ws) i b = faults pointer_benign
  write_option-NoRead (options os) i b =
      NoRead-if (ltb i (length os)) NoRead-ok (faults overflow_benign)

  pub tag_o_stage4-Safe :
      vd.oms_pos + vd.ih + 1 ≡ vd.oms_wanted
      → Safe oms (4 * vd.oms_wanted + 3) (tag_o_stage4 env oms vd)
  unfolding tag_o_stage4
  tag_o_stage4-Safe h =
      let (b, e) = rbyte_ok oms (skip vd vd.ih) (omega arith) in
      let v = vd.view in
      let r = v.work_ref in
      rw e (
        Avoids-bind (write_option-NoRead r.ref_data r.size b) λ d _.
          if_intro (Safe oms (4 * vd.oms_wanted + 3)) (vd.tag_o_count == 0)
            (Avoids-bind (add_drop_down_list-NoRead env _) λ shown _. returns (omega arith))
            (returns (omega arith)))

  copy_code-NoRead : (room : ℕ) (code : Bytes) → NoRead (copy_code room code)
  copy_code-NoRead room code = NoRead-if (ltb (length code) room) NoRead-ok (faults overflow_benign)

  keep_code-SameCursor :
      (vd1 : ViewData) (code : Bytes) → Avoids IsPageFault (SameCursor vd1) (keep_code env vd1 code)
  unfolding keep_code
  keep_code-SameCursor vd1 code =
      let S = Avoids IsPageFault (SameCursor vd1) in
      if_intro S (not env.authcode_write_file) (returns (refl, refl)) (
        if_intro S (vd1.ih == 0)
          (Avoids-bind (copy_code-NoRead 64 code) λ prefix _. returns (refl, refl))
          (Avoids-bind (copy_code-NoRead 128 code) λ new _. returns (refl, refl)))

  pub tag_k_stage3-Safe :
      vd.oms_pos + vd.iw ≡ vd.oms_wanted
      → Safe oms (4 * vd.oms_wanted + 2) (tag_k_stage3 env oms vd)
  unfolding tag_k_stage3
  tag_k_stage3-Safe h =
      let (code, e) = slice_ok env oms vd fits vd.oms_pos vd.iw (omega arith) in
      rw e (
        Avoids-bind (add_picture_item_hr-NoRead env vd.view) λ v1 _.
          Avoids-bind (keep_code-SameCursor (with_view vd v1) code) λ vd1 same.
            Avoids-bind
              (NoRead-if (env.mode_url && vd1.ih == 0) (copy_code-NoRead 64 code) NoRead-ok)
              λ prefix _.
                Avoids-bind (add_picture_item_hr-NoRead env _) λ v3 _. returns (omega arith))

  pub tag_x40_stage3-Safe :
      vd.oms_pos + vd.iw ≡ vd.oms_wanted → Safe oms (4 * vd.oms_wanted + 2) (tag_x40_stage3 oms vd)
  unfolding tag_x40_stage3
  tag_x40_stage3-Safe h =
      let (text, e) = slice_ok env oms vd fits vd.oms_pos vd.iw (omega arith) in
      rw e (returns (omega arith))
