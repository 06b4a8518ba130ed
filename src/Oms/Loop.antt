-- ===== src/Oms/Loop.antt =====
-- `OMS_DataArrived`: a part of the page arrives, is unpacked where the page is packed, and the parser
-- goes on as far as the bytes reach.
use elfloader3_elfs_archive.Prelude.{
  ℕ, zero, suc, ◌+◌, ◌-◌, ◌*◌, ◌%◌, ◌^◌, Bytes, ◌++◌, Option, none, some, Out, ok, fault,
  out_of_fuel, out_of_rounds, ◌>>=◌, length, take, drop, leb, ◌==◌, if◌then◌else◌,
}
use elfloader3_elfs_archive.Oms.State.{ParseState, ViewData, Env, Outcome, next, leave, zinit}
use elfloader3_elfs_archive.Oms.Forms.{codes}
use elfloader3_elfs_archive.Oms.Header.{
  sizeof_header_common, give_up, hdr_common, gziphdr, hdr, pageurl_size, pageurl_data,
}
use elfloader3_elfs_archive.Oms.Tags.{tag_name}
use elfloader3_elfs_archive.Oms.TagData.{tag_data}
use elfloader3_elfs_archive.Oms.Stages.{
  tag_a_stage3, tag_t_stage3, tag_i_stage3_image, tag_x_stage3_image, tag_h_stage3, tag_h_stage4,
  field_stage3, tag_e_stage4, tag_i_stage4, input_stage4, tag_u_stage4, tag_c_stage4, tag_r_stage4,
  tag_s_stage3, tag_o_stage3, tag_o_stage4, tag_k_stage3, tag_l_stage3, tag_p_stage3_phone,
  tag_z_stage3, tag_x40_stage3,
}

-- One round of the loop, by the state.
unfoldable pub step_in : ParseState → Env → Bytes → ViewData → Out Outcome
step_in ParseState.begin env oms vd =
    ok (give_up vd (codes "StateMachine failed " ++ env.print_dec (length oms)))
step_in ParseState.hdr_common env oms vd = hdr_common env oms vd
step_in ParseState.hdr env oms vd = ok (hdr vd)
step_in ParseState.gziphdr env oms vd = ok (gziphdr vd)
step_in ParseState.pageurl_size env oms vd = pageurl_size oms vd
step_in ParseState.pageurl_data env oms vd = pageurl_data oms vd
step_in ParseState.tag_name env oms vd = tag_name env oms vd
step_in ParseState.tag_data env oms vd = tag_data env oms vd
step_in ParseState.tag_A_stage3 env oms vd = ok (tag_a_stage3 vd)
step_in ParseState.tag_T_stage3 env oms vd = tag_t_stage3 env oms vd
step_in ParseState.tag_I_stage3 env oms vd = tag_i_stage3_image env oms vd
step_in ParseState.tag_X_stage3 env oms vd = tag_x_stage3_image env oms vd
step_in ParseState.tag_h_stage3 env oms vd = tag_h_stage3 oms vd
step_in ParseState.tag_h_stage4 env oms vd = ok (tag_h_stage4 vd)
step_in ParseState.tag_e_stage3 env oms vd = field_stage3 oms vd 0 ParseState.tag_e_stage4
step_in ParseState.tag_e_stage4 env oms vd = ok (tag_e_stage4 vd)
step_in ParseState.tag_p_stage3 env oms vd = field_stage3 oms vd 0 ParseState.tag_p_stage4
step_in ParseState.tag_p_stage4 env oms vd = input_stage4 env oms vd
step_in ParseState.tag_u_stage3 env oms vd = field_stage3 oms vd 0 ParseState.tag_u_stage4
step_in ParseState.tag_u_stage4 env oms vd = tag_u_stage4 env oms vd
step_in ParseState.tag_x_stage3 env oms vd = field_stage3 oms vd 0 ParseState.tag_x_stage4
step_in ParseState.tag_x_stage4 env oms vd = input_stage4 env oms vd
step_in ParseState.tag_c_stage3 env oms vd = field_stage3 oms vd 1 ParseState.tag_c_stage4
step_in ParseState.tag_c_stage4 env oms vd = tag_c_stage4 env oms vd
step_in ParseState.tag_r_stage3 env oms vd = field_stage3 oms vd 1 ParseState.tag_r_stage4
step_in ParseState.tag_r_stage4 env oms vd = tag_r_stage4 env oms vd
step_in ParseState.tag_s_stage3 env oms vd = tag_s_stage3 oms vd
step_in ParseState.tag_o_stage3 env oms vd = tag_o_stage3 oms vd
step_in ParseState.tag_o_stage4 env oms vd = tag_o_stage4 env oms vd
step_in ParseState.tag_i_stage3 env oms vd = field_stage3 oms vd 0 ParseState.tag_i_stage4
step_in ParseState.tag_i_stage4 env oms vd = ok (tag_i_stage4 vd)
step_in ParseState.tag_k_stage3 env oms vd = tag_k_stage3 env oms vd
step_in ParseState.tag_L_stage3 env oms vd = ok (tag_l_stage3 vd)
step_in ParseState.tag_P_stage3 env oms vd = ok (tag_p_stage3_phone vd)
step_in ParseState.tag_Z_stage3 env oms vd = ok (tag_z_stage3 vd)
step_in ParseState.tag_x5e_stage3 env oms vd = ok (tag_l_stage3 vd)
step_in ParseState.tag_x40_stage3 env oms vd = tag_x40_stage3 oms vd
step_in ParseState.stop env oms vd = ok (leave vd)

unfoldable pub step : Env → Bytes → ViewData → Out Outcome
unfolding step_in
step env oms vd = step_in vd.parse_state env oms vd

-- How the loop ends: by its test, by a return inside it, or at the start of decompression.
pub data End : Type 0 where
  waits : ViewData → End
  returned : ViewData → End
  unpack : ViewData → End

-- `while (oms_size >= oms_wanted)`
unfoldable pub parse_loop : ℕ → Env → Bytes → ViewData → Out End
unfolding step
parse_loop zero env oms vd = fault out_of_rounds
parse_loop (suc k) env oms vd =
    let round : Out End = (do
      o ← step env oms vd
      elim o [
        | next vd' ↦ parse_loop k env oms vd'
        | leave vd' ↦ ok (returned vd')
        | zinit vd' ↦ ok (unpack vd')
      ]) in
    if leb vd.oms_wanted (length oms) then round else ok (waits vd)

-- Every round wants more bytes or comes closer to the end of its tag, of which there are four stages.
abbrev pub loop_fuel : Bytes → ℕ
loop_fuel oms = 4 * length oms + 5

-- The first part of a page.
unfoldable pub start_at : ParseState → ViewData → ViewData
start_at ParseState.begin vd = record vd {
  oms_wanted = sizeof_header_common;
  parse_state = ParseState.hdr_common;
  loaded_sz = (vd.loaded_sz + 2 ^ 32 - sizeof_header_common) % 2 ^ 32;
}
start_at _ vd = vd

unfoldable pub start_page : ViewData → ViewData
unfolding start_at
start_page vd = start_at vd.parse_state vd

-- What a call of `inflate` leaves: the stream, the input not yet read, the output, and the number of
-- an error in decimal.
pub record Inflated (Z : Type 0) : Type 0 where
  pub stream : Z
  pub rest : Bytes
  pub output : Bytes
  pub error : Option Bytes

pub record Page (Z : Type 0) : Type 0 where
  pub oms : Bytes
  pub zs : Option Z
  pub vd : ViewData

-- The stream after `inflateInit2`, and the number of an error in decimal.
module _ {Z : Type 0} (inflate_init2 : Z × Option Bytes) (inflate : Z → Bytes → ℕ → Inflated Z)
    (env : Env) where
  unfoldable pub stopped : Page Z → Outcome → Page Z
  stopped page (next vd) = record page { vd = vd }
  stopped page (leave vd) = record page { vd = vd }
  stopped page (zinit vd) = record page { vd = vd }

  -- L_ZINIT: what follows in this part of the page is taken back and given to ZLib.
  unfoldable pub unpack_rest :
      (Page Z → Z → Bytes → ℕ → Out (Page Z)) → Page Z → Bytes → Out (Page Z)
  unfolding stopped
  unpack_rest z_next page0 buf =
      let z = inflate_init2.0 in
      let page = record page0 { zs = some z } in
      let i = length page.oms - page.vd.oms_pos in
      let rest =
        z_next (record page { oms = take page.vd.oms_pos page.oms }) z (drop (length buf - i) buf)
          i in
      elim inflate_init2.1 [
        | some err ↦
            ok (stopped page (give_up page.vd (codes "inflateInit2 err " ++ err ++ codes "\n")))
        | none ↦ if i == 0 then ok page else rest
      ]

  -- L_ZNEXT: as long as the room for the output is used up, there may be more.
  unfoldable pub inflate_loop : ℕ → Bytes → Page Z → Z → Bytes → ℕ → Out (Page Z)
  unfolding stopped unpack_rest
  inflate_loop zero buf page z input len = fault out_of_fuel
  inflate_loop (suc k) buf page z input len =
      let r = inflate z input len in
      let oms = page.oms ++ r.output in
      let parsed : Out (Page Z) = (do
        end ← parse_loop (loop_fuel oms) env oms (start_page page.vd)
        elim end [
          | waits vd ↦
              let page' : Page Z = record { oms = oms; zs = some r.stream; vd = vd } in
              let more = inflate_loop k buf page' r.stream r.rest len in
              if length r.output == len then more else ok page'
          | returned vd ↦ ok (record { oms = oms; zs = some r.stream; vd = vd })
          | unpack vd ↦
              unpack_rest (inflate_loop k buf) (record { oms = oms; zs = some r.stream; vd = vd })
                buf
        ]) in
      elim r.error [
        | some err ↦ ok (
            stopped (record page { zs = some r.stream })
              (give_up page.vd (codes "ZLib Err " ++ err ++ codes "\n")))
        | none ↦ parsed
      ]

  unfoldable pub plain_data : ℕ → Page Z → Bytes → Out (Page Z)
  unfolding unpack_rest inflate_loop
  plain_data rounds page buf = do
    let oms = page.oms ++ buf
    end ← parse_loop (loop_fuel oms) env oms (start_page page.vd)
    elim end [
      | waits vd ↦ ok (record page { oms = oms; vd = vd })
      | returned vd ↦ ok (record page { oms = oms; vd = vd })
      | unpack vd ↦ unpack_rest (inflate_loop rounds buf) (record page { oms = oms; vd = vd }) buf
    ]

  unfoldable pub part_arrived : ℕ → Page Z → Option Z → Bytes → Out (Page Z)
  unfolding plain_data inflate_loop
  part_arrived rounds page none buf = plain_data rounds page buf
  part_arrived rounds page (some z) buf = inflate_loop rounds buf page z buf (length buf)

  unfoldable pub data_arrived : ℕ → Page Z → Bytes → Out (Page Z)
  unfolding part_arrived
  data_arrived rounds page buf =
      let old = page.vd in
      if length buf == 0
      then ok (record page { vd = record old { parse_state = ParseState.stop } })
      else part_arrived rounds
          (record page { vd = record old { loaded_sz = (old.loaded_sz + length buf) % 2 ^ 32 } })
          page.zs buf
