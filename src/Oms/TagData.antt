-- ===== src/Oms/TagData.antt =====
-- The state OMS_TAG_DATA: the fixed arguments of a tag.
use elfloader3_elfs_archive.Prelude.{
  ℕ, ◌+◌, ◌-◌, ◌%◌, ◌^◌, Bytes, [], ◌∷◌, ◌++◌, Out, ok, or_fault, bad_index, ◌>>=◌, get_elem?, ◌==◌,
  if◌then◌else◌, ◌||◌,
}
use elfloader3_elfs_archive.Oms.State.{
  ParseState, View, ViewData, Env, Outcome, next, with_view, rbyte, rshort, rlong,
}
use elfloader3_elfs_archive.Oms.Items.{add_new_style, add_begin_ref, add_begin_ref_z, add_end_ref}
use elfloader3_elfs_archive.Oms.Pictures.{
  add_picture_item_hr, add_picture_item_frame, add_picture_item_index,
}
use elfloader3_elfs_archive.Oms.Forms.{codes}
use elfloader3_elfs_archive.Oms.Header.{give_up}
use elfloader3_elfs_archive.Oms.Tags.{no_stage2, first_is_0d}

-- `wanted += n`, and the state that reads what is then there.
abbrev pub await : ViewData → ℕ → ParseState → Outcome
await vd n s = next (record vd { oms_wanted = vd.oms_wanted + n; parse_state = s })

abbrev pub set_tag : View → ℕ → View
set_tag v i = let r = v.work_ref in record v { work_ref = record r { tag = i } }

-- Tags 'p', 'u', 'x', 'c', 'r' and 's': a reference begins, and the name of the field follows with
-- `extra` bytes behind it.
unfoldable pub begin_field : Bytes → ViewData → ℕ → ℕ → ParseState → Out Outcome
begin_field oms vd0 i extra s = do
  (n, vd1) ← rshort oms vd0
  let vd = record vd1 { iw = n; view = set_tag (add_begin_ref vd1.view) i }
  ok (await vd (n + extra) s)

-- Tags 'e' and 'i' begin no reference here.
unfoldable pub continue_field : Bytes → ViewData → ℕ → ParseState → Out Outcome
continue_field oms vd0 i s = do
  (n, vd1) ← rshort oms vd0
  let vd = record vd1 { iw = n; view = set_tag vd1.view i }
  ok (await vd (n + 2) s)

-- `ref_mode_i--` over an unsigned int, and the end of the reference at zero.
unfoldable pub leave_ref_mode_i : View → View
leave_ref_mode_i v0 =
    let v = record v0 { ref_mode_i = (v0.ref_mode_i + 2 ^ 32 - 1) % 2 ^ 32 } in
    if v.ref_mode_i == 0 then add_end_ref v else v

-- Tags 'S' and 'Y': a style is read and kept, or is taken from those kept.
unfoldable pub set_style : View → ℕ → View
set_style v k =
    add_new_style
      (record v { prev_tag_s = v.current_tag_s; current_tag_s = k; s_cache = v.s_cache ++ k ∷ [] })

unfoldable pub use_style : View → ℕ → Out View
use_style v i = do
  k ← or_fault bad_index (get_elem? v.s_cache i)
  ok (add_new_style (record v { prev_tag_s = v.current_tag_s; current_tag_s = k }))

unfoldable pub tag_data_text : Bytes → ViewData → ℕ → ParseState → Out Outcome
tag_data_text oms vd0 i s = do
  (n, vd1) ← rshort oms vd0
  let v = vd1.view
  let vd = with_view vd1 (
      if i == b'A'
      then set_tag v i
      else if i == b'L' || i == b'^'
      then add_begin_ref (set_tag v i)
      else v)
  ok (await vd n s)

-- Tags 'D', 'S', 'Y', 'J', 'K' and 'R' need nothing behind their arguments.
unfoldable pub data_d : Bytes → ViewData → Out Outcome
data_d oms vd0 = do
  (n, vd) ← rshort oms vd0
  let v = vd.view
  ok (no_stage2 (with_view vd (add_new_style (record v { current_tag_d = n }))))

unfoldable pub data_s : Bytes → ViewData → Out Outcome
unfolding set_style
data_s oms vd0 = do (k, vd) ← rlong oms vd0; ok (no_stage2 (with_view vd (set_style vd.view k)))

unfoldable pub data_y : Bytes → ViewData → Out Outcome
unfolding use_style
data_y oms vd0 = do
  (i, vd) ← rbyte oms vd0
  v ← use_style vd.view i
  ok (no_stage2 (with_view vd v))

unfoldable pub data_j : Env → Bytes → ViewData → Out Outcome
unfolding leave_ref_mode_i
data_j env oms vd0 = do
  (width, vd1) ← rshort oms vd0
  (height, vd2) ← rshort oms vd1
  v ← add_picture_item_frame env vd2.view width height
  ok (no_stage2 (record vd2 { iw = width; ih = height; view = leave_ref_mode_i v }))

unfoldable pub data_k : Bytes → ViewData → Out Outcome
unfolding leave_ref_mode_i
data_k oms vd0 = do
  (width, vd1) ← rshort oms vd0
  (height, vd2) ← rshort oms vd1
  (i, vd) ← rshort oms vd2
  ok (no_stage2 (with_view vd (leave_ref_mode_i (add_picture_item_index vd.view i))))

unfoldable pub data_r : Env → Bytes → ViewData → Out Outcome
data_r env oms vd0 = do
  (i, vd) ← rshort oms vd0
  v ← add_picture_item_hr env vd.view
  ok (no_stage2 (with_view vd v))

-- The images: their size, and how many bytes they have.
unfoldable pub data_i : Bytes → ViewData → Out Outcome
data_i oms vd0 = do
  (width, vd1) ← rshort oms vd0
  (height, vd2) ← rshort oms vd1
  (i, vd3) ← rshort oms vd2
  (unknown, vd4) ← rshort oms vd3
  ok (await (record vd4 { iw = width; ih = height }) i ParseState.tag_I_stage3)

unfoldable pub data_x : Bytes → ViewData → Out Outcome
data_x oms vd0 = do
  (width, vd1) ← rbyte oms vd0
  (height, vd2) ← rbyte oms vd1
  (i, vd3) ← rshort oms vd2
  ok (await (record vd3 { iw = width; ih = height }) i ParseState.tag_X_stage3)

unfoldable pub data_h : Bytes → ViewData → Out Outcome
data_h oms vd0 = do
  (n, vd) ← rshort oms vd0
  ok (await (record vd { iw = n }) (n + 2) ParseState.tag_h_stage3)

-- Tag 'x' has one byte more in the newer pages.
unfoldable pub data_small_x : Bytes → ViewData → Out Outcome
unfolding begin_field
data_small_x oms vd0 = do
  old ← first_is_0d oms
  (skipped, vd) ← (if old then ok (0, vd0) else rbyte oms vd0)
  begin_field oms vd b'x' 2 ParseState.tag_x_stage3

-- An item of a list, if the list has one left.
unfoldable pub data_o : Bytes → ViewData → Out Outcome
unfolding continue_field give_up
data_o oms vd = if vd.tag_o_count == 0 then ok (give_up vd (codes "!Illegal <o>!\n")) else do
  (n, vd1) ← rshort oms (record vd { tag_o_count = vd.tag_o_count - 1 })
  ok (await (record vd1 { iw = n; view = set_tag vd1.view b's' }) (n + 2) ParseState.tag_o_stage3)

unfoldable pub data_small_k : Bytes → ViewData → Out Outcome
data_small_k oms vd0 = do
  (code_type, vd1) ← rbyte oms vd0
  (n, vd2) ← rshort oms vd1
  ok (await (record vd2 { iw = n; ih = code_type }) n ParseState.tag_k_stage3)

-- A reference that stays open until tag 'E'. Its `id` is where the length of its string stands.
unfoldable pub data_z : Bytes → ViewData → Out Outcome
data_z oms vd0 = do
  (n, vd1) ← rshort oms vd0
  let v = vd1.view
  let z = v.work_ref_z
  let vd = record vd1 {
    iw = n;
    view =
        add_begin_ref_z (record v { work_ref_z = record z { tag = b'Z'; id = vd1.oms_pos - 2 } });
  }
  ok (await vd n ParseState.tag_Z_stage3)

unfoldable pub data_at : Bytes → ViewData → Out Outcome
data_at oms vd0 = do
  (m, vd1) ← rshort oms vd0
  (n, vd2) ← rshort oms vd1
  let v = vd2.view
  let r = v.work_ref
  let vd = record vd2 { iw = n; ih = m }
  ok (
      if n == 0
      then no_stage2 vd
      else await
          (with_view vd (
            add_begin_ref
              (record v { work_ref = record r { id = vd2.oms_pos - 2; id2 = m; tag = b'@' } })))
          n ParseState.tag_x40_stage3)

-- The second half of the letters.
unfoldable pub tag_data_late : Env → Bytes → ViewData → ℕ → Out Outcome
unfolding tag_data_text data_r data_o data_small_k data_z data_at continue_field begin_field
tag_data_late env oms vd i =
    if i == b'c'
    then begin_field oms vd i 2 ParseState.tag_c_stage3
    else if i == b'r'
    then begin_field oms vd i 2 ParseState.tag_r_stage3
    else if i == b's'
    then begin_field oms vd i 3 ParseState.tag_s_stage3
    else if i == b'o'
    then data_o oms vd
    else if i == b'i'
    then continue_field oms vd i ParseState.tag_i_stage3
    else if i == b'k'
    then data_small_k oms vd
    else if i == b'L'
    then tag_data_text oms vd i ParseState.tag_L_stage3
    else if i == b'^'
    then tag_data_text oms vd i ParseState.tag_x5e_stage3
    else if i == b'P'
    then tag_data_text oms vd i ParseState.tag_P_stage3
    else if i == b'R'
    then data_r env oms vd
    else if i == b'Z'
    then data_z oms vd
    else if i == b'@'
    then data_at oms vd
    else ok (no_stage2 vd)

-- The letter is read again, and its arguments behind it.
unfoldable pub tag_data : Env → Bytes → ViewData → Out Outcome
unfolding tag_data_text data_d data_s data_y data_j data_k data_i data_x data_h data_small_x
    continue_field begin_field tag_data_late
tag_data env oms vd0 = do
  (i, vd) ← rbyte oms vd0
  if i == b'A'
      then tag_data_text oms vd i ParseState.tag_A_stage3
      else if i == b'D'
      then data_d oms vd
      else if i == b'S'
      then data_s oms vd
      else if i == b'T'
      then tag_data_text oms vd i ParseState.tag_T_stage3
      else if i == b'Y'
      then data_y oms vd
      else if i == b'I'
      then data_i oms vd
      else if i == b'J'
      then data_j env oms vd
      else if i == b'K'
      then data_k oms vd
      else if i == b'X'
      then data_x oms vd
      else if i == b'h'
      then data_h oms vd
      else if i == b'e'
      then continue_field oms vd i ParseState.tag_e_stage3
      else if i == b'p'
      then begin_field oms vd i 2 ParseState.tag_p_stage3
      else if i == b'u'
      then begin_field oms vd i 2 ParseState.tag_u_stage3
      else if i == b'x'
      then data_small_x oms vd
      else tag_data_late env oms vd i
