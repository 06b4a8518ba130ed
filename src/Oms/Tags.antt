-- ===== src/Oms/Tags.antt =====
-- The states OMS_TAG_NAME and OMS_TAG_DATA: the letter of a tag, and its fixed arguments.
use elfloader3_elfs_archive.Prelude.{
  ℕ, ◌+◌, Bool, Bytes, [], ◌∷◌, ◌++◌, Option, none, some, Out, ok, or_fault, read_past_end, ◌>>=◌,
  get_elem?, ◌==◌, if◌then◌else◌, ◌||◌,
}
use elfloader3_elfs_archive.Encoding.Compare.{noref}
use elfloader3_elfs_archive.Oms.State.{
  ParseState, blank_ref, View, ViewData, Env, Outcome, next, leave, with_view,
}
use elfloader3_elfs_archive.Oms.Items.{add_begin_ref, add_end_ref, add_br_item, add_p_item}
use elfloader3_elfs_archive.Oms.Pictures.{add_picture_item_hr}
use elfloader3_elfs_archive.Oms.Forms.{codes}
use elfloader3_elfs_archive.Oms.Header.{give_up, c_string}

-- L_NOSTAGE2: on to the next tag.
abbrev pub no_stage2 : ViewData → Outcome
no_stage2 vd =
    next (record vd { oms_wanted = vd.oms_wanted + 1; parse_state = ParseState.tag_name })

-- `oms_pos++; goto L_NOSTAGE2` after a change of the view.
abbrev pub one_byte_tag : ViewData → View → Outcome
one_byte_tag vd v = no_stage2 (record (with_view vd v) { oms_pos = vd.oms_pos + 1 })

-- Tag 'E' with no open reference takes up the one that tag 'Z' began.
unfoldable pub finish_ref : View → View
finish_ref v0 =
    let v =
      if v0.work_ref.tag == noref
      then (if v0.work_ref_z.tag == b'Z'
          then record v0 { work_ref = v0.work_ref_z; work_ref_z = blank_ref }
          else v0)
      else v0 in
    let v' = if v.ref_mode_p == 0 then add_end_ref v else v in record v' { ref_mode_p = 0 }

-- The low byte of the magic number in memory is the first byte of the page.
abbrev pub first_is_0d : Bytes → Out Bool
first_is_0d oms = do magic ← or_fault read_past_end (get_elem? oms 0); ok (magic == 0x0D)

-- How many bytes of arguments a tag waits for; none of the letters here is done at once.
unfoldable pub late_argument_size : ℕ → Option ℕ
late_argument_size i =
    if i == b'c' || i == b'r' || i == b's' || i == b'o' || i == b'i' || i == b'L' || i == b'^'
    then some 2
    else if i == b'P' || i == b'R' || i == b'Z'
    then some 2
    else if i == b'k'
    then some 3
    else if i == b'@'
    then some 4
    else none

unfoldable pub argument_size : Bool → ℕ → Option ℕ
unfolding late_argument_size
argument_size old i =
    if i == b'Y'
    then some 1
    else if i == b'A' || i == b'D' || i == b'T' || i == b'h' || i == b'e' || i == b'p' || i == b'u'
    then some 2
    else if i == b'x'
    then some (if old then 2 else 3)
    else if i == b'S' || i == b'J' || i == b'X'
    then some 4
    else if i == b'K'
    then some 6
    else if i == b'I'
    then some 8
    else late_argument_size i

-- What a tag does to the view while it waits for its arguments.
abbrev pub wait_view : ℕ → View → View
wait_view i v =
    if i == b'i' then add_begin_ref v else if i == b'P' then record v { ref_mode_p = 1 } else v

abbrev pub wait_for : ViewData → ℕ → ℕ → Outcome
wait_for vd i n = next (record vd {
  oms_wanted = vd.oms_wanted + n;
  parse_state = ParseState.tag_data;
  view = wait_view i vd.view;
})

unfoldable pub unknown_tag : ViewData → ℕ → Outcome
unfolding give_up c_string
unknown_tag vd i = give_up vd (c_string (codes "Unknown tag " ++ i ∷ b'\n' ∷ []))

unfoldable pub tag_name : Env → Bytes → ViewData → Out Outcome
unfolding finish_ref argument_size unknown_tag
tag_name env oms vd = do
  i ← or_fault read_past_end (get_elem? oms vd.oms_pos)
  old ← first_is_0d oms
  let v = vd.view
  let r = v.work_ref
  if i == b'+' || i == b'v' || i == b'$' || i == b'l'
      then ok (one_byte_tag vd v)
      else if i == b'(' || i == b')'
      then (do v' ← add_picture_item_hr env v; ok (one_byte_tag vd v'))
      else if i == b'C'
      then ok (one_byte_tag vd (record v { work_ref = record r { no_upload = 0 } }))
      else if i == b'B'
      then ok (one_byte_tag vd (add_br_item v))
      else if i == b'V'
      then ok (one_byte_tag vd (add_p_item v))
      else if i == b'E'
      then ok (one_byte_tag vd (finish_ref v))
      else if i == b'Q'
      then ok (leave (record vd { parse_state = ParseState.stop }))
      else ok (elim (argument_size old i) [ none ↦ unknown_tag vd i | some n ↦ wait_for vd i n ])
