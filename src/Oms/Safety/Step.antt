-- ===== src/Oms/Safety/Step.antt =====
-- Every round of the loop, and the loop itself.
use elfloader3_elfs_archive.Prelude.{
  ℕ, zero, suc, ◌+◌, ◌*◌, ◌≤◌, ◌<◌, ◌≡◌, refl, inl, inr, Bytes, ok, Avoids, returns, Avoids-bind,
  leb, leb→le, Bool-cases, length, arith,
}
use elfloader3_elfs_archive.Oms.State.{ParseState, ViewData, Env, Outcome, next, leave, zinit}
use elfloader3_elfs_archive.Oms.Header.{give_up, gziphdr, hdr}
use elfloader3_elfs_archive.Oms.Stages.{
  tag_a_stage3, tag_h_stage4, tag_e_stage4, tag_i_stage4, tag_l_stage3, tag_p_stage3_phone,
  tag_z_stage3,
}
use elfloader3_elfs_archive.Oms.Loop.{
  step_in, step, parse_loop, loop_fuel, End, waits, returned, unpack,
}
use elfloader3_elfs_archive.Oms.Shape.{ShapeAt, Shape, rank, progress, Good, IsPageFault, Safe}
use elfloader3_elfs_archive.Oms.Safety.Header.{
  hdr_common-Safe, pageurl_size-Safe, pageurl_data-Safe, tag_name-Safe,
}
use elfloader3_elfs_archive.Oms.Safety.Tags.{tag_data-Safe}
use elfloader3_elfs_archive.Oms.Safety.Stages.{
  tag_t_stage3-Safe, tag_i_stage3_image-Safe, tag_x_stage3_image-Safe, tag_h_stage3-Safe,
  field_stage3-Safe, input_stage3-Safe, input_stage4-Safe, tag_u_stage4-Safe, tag_c_stage4-Safe,
  tag_r_stage4-Safe, tag_s_stage3-Safe, tag_o_stage3-Safe, tag_o_stage4-Safe, tag_k_stage3-Safe,
  tag_x40_stage3-Safe,
}

module _ (env : Env) (oms : Bytes) (vd : ViewData) (fits : vd.oms_wanted ≤ length oms) where
  step_in-Safe :
      (s : ParseState)
      → ShapeAt s oms vd
      → (s ≡ ParseState.stop → vd.parse_state ≡ ParseState.stop)
      → Safe oms (4 * vd.oms_wanted + rank s) (step_in s env oms vd)
  unfolding step_in give_up gziphdr hdr tag_a_stage3 tag_h_stage4 tag_e_stage4 tag_i_stage4
      tag_l_stage3 tag_p_stage3_phone tag_z_stage3
  step_in-Safe ParseState.begin h _ = returns refl
  step_in-Safe ParseState.stop h at_stop = returns (at_stop refl)
  step_in-Safe ParseState.hdr_common h _ = hdr_common-Safe env oms vd fits h
  step_in-Safe ParseState.hdr h _ = returns (omega arith)
  step_in-Safe ParseState.gziphdr h _ = returns (refl, omega arith)
  step_in-Safe ParseState.pageurl_size h _ = pageurl_size-Safe env oms vd fits h
  step_in-Safe ParseState.pageurl_data h _ = pageurl_data-Safe env oms vd fits h
  step_in-Safe ParseState.tag_name h _ = tag_name-Safe env oms vd fits h
  step_in-Safe ParseState.tag_data h _ = tag_data-Safe env oms vd fits h
  step_in-Safe ParseState.tag_A_stage3 h _ = returns (omega arith)
  step_in-Safe ParseState.tag_L_stage3 h _ = returns (omega arith)
  step_in-Safe ParseState.tag_P_stage3 h _ = returns (omega arith)
  step_in-Safe ParseState.tag_x5e_stage3 h _ = returns (omega arith)
  step_in-Safe ParseState.tag_Z_stage3 h _ = returns (omega arith)
  step_in-Safe ParseState.tag_T_stage3 h _ = tag_t_stage3-Safe env oms vd fits h
  step_in-Safe ParseState.tag_I_stage3 h _ = tag_i_stage3_image-Safe env oms vd fits h
  step_in-Safe ParseState.tag_X_stage3 h _ = tag_x_stage3_image-Safe env oms vd fits h
  step_in-Safe ParseState.tag_h_stage3 h _ = tag_h_stage3-Safe env oms vd fits h
  step_in-Safe ParseState.tag_h_stage4 h _ = returns (omega arith)
  step_in-Safe ParseState.tag_e_stage4 h _ = returns (omega arith)
  step_in-Safe ParseState.tag_i_stage4 h _ = returns (omega arith)
  step_in-Safe ParseState.tag_e_stage3 h _ =
      field_stage3-Safe env oms vd fits 0 ParseState.tag_e_stage4 (λ a e. omega arith) refl h
  step_in-Safe ParseState.tag_u_stage3 h _ =
      field_stage3-Safe env oms vd fits 0 ParseState.tag_u_stage4 (λ a e. omega arith) refl h
  step_in-Safe ParseState.tag_i_stage3 h _ =
      field_stage3-Safe env oms vd fits 0 ParseState.tag_i_stage4 (λ a e. omega arith) refl h
  step_in-Safe ParseState.tag_c_stage3 h _ =
      field_stage3-Safe env oms vd fits 1 ParseState.tag_c_stage4 (λ a e. e) refl h
  step_in-Safe ParseState.tag_r_stage3 h _ =
      field_stage3-Safe env oms vd fits 1 ParseState.tag_r_stage4 (λ a e. e) refl h
  step_in-Safe ParseState.tag_p_stage3 h _ =
      input_stage3-Safe env oms vd fits ParseState.tag_p_stage4 (λ a s e. (s, e)) refl h
  step_in-Safe ParseState.tag_p_stage4 h _ = input_stage4-Safe env oms vd fits h.0 h.1
  step_in-Safe ParseState.tag_x_stage3 h _ =
      input_stage3-Safe env oms vd fits ParseState.tag_x_stage4 (λ a s e. (s, e)) refl h
  step_in-Safe ParseState.tag_x_stage4 h _ = input_stage4-Safe env oms vd fits h.0 h.1
  step_in-Safe ParseState.tag_u_stage4 h _ = tag_u_stage4-Safe env oms vd fits h
  step_in-Safe ParseState.tag_c_stage4 h _ = tag_c_stage4-Safe env oms vd fits h
  step_in-Safe ParseState.tag_r_stage4 h _ = tag_r_stage4-Safe env oms vd fits h
  step_in-Safe ParseState.tag_s_stage3 h _ = tag_s_stage3-Safe env oms vd fits h
  step_in-Safe ParseState.tag_o_stage3 h _ = tag_o_stage3-Safe env oms vd fits h
  step_in-Safe ParseState.tag_o_stage4 h _ = tag_o_stage4-Safe env oms vd fits h
  step_in-Safe ParseState.tag_k_stage3 h _ = tag_k_stage3-Safe env oms vd fits h
  step_in-Safe ParseState.tag_x40_stage3 h _ = tag_x40_stage3-Safe env oms vd fits h

  -- One round from a place in shape, where the bytes that are waited for have arrived, whatever its state:
  -- the parser's own reads stay within the bytes that have arrived, and if the round returns, its outcome is in
  -- shape and further on, or the parser is stopped, or it stands in front of packed data. Not counted are the
  -- reads of the picture readers, which may go behind a picture: that ends the run with a fault of its own.
  pub step-Safe : Shape oms vd → Safe oms (progress vd) (step env oms vd)
  unfolding step
  step-Safe h = step_in-Safe vd.parse_state h λ e. e

-- How the loop may end: waiting for more than the page has, stopped, or in front of packed data.
abbrev pub Ended : Bytes → End → Type 0
Ended oms (waits vd) = Shape oms vd × (length oms < vd.oms_wanted)
Ended oms (returned vd) = vd.parse_state ≡ ParseState.stop
Ended oms (unpack vd) = (vd.parse_state ≡ ParseState.hdr) × (vd.oms_pos ≤ vd.oms_wanted)

rank-le : (s : ParseState) → rank s ≤ 3
rank-le ParseState.begin = omega arith
rank-le _ = omega arith

module _ (env : Env) (oms : Bytes) where
  -- The outcome of a round that left `k` rounds, where the loop ends well from every place that is in
  -- shape and far enough.
  round-Ended :
      (k p : ℕ)
      → ((vd : ViewData)
          → Shape oms vd
          → p < progress vd
          → Avoids IsPageFault (Ended oms) (parse_loop k env oms vd))
      → (o : Outcome) → Good oms p o
      → Avoids IsPageFault (Ended oms) (elim o [
        | next vd' ↦ parse_loop k env oms vd'
        | leave vd' ↦ ok (returned vd')
        | zinit vd' ↦ ok (unpack vd')
      ])
  round-Ended k p rest (next vd') good = rest vd' good.0 good.1
  round-Ended k p rest (leave vd') good = returns good
  round-Ended k p rest (zinit vd') good = returns good

  -- The rounds that are left are enough for what the page still has.
  parse_loop-Ended :
      (k : ℕ) (vd : ViewData)
      → Shape oms vd
      → 0 < k
      → 4 * length oms + 4 < k + progress vd
      → Avoids IsPageFault (Ended oms) (parse_loop k env oms vd)
  unfolding parse_loop
  parse_loop-Ended zero vd shape some_left enough = elim some_left [ ]
  parse_loop-Ended (suc k) vd shape some_left enough =
      elim (Bool-cases (leb vd.oms_wanted (length oms))) [
        | inr short ↦
            let more : length oms < vd.oms_wanted = ground arith in rw short (returns (shape, more))
        | inl fits ↦
            let inside = leb→le vd.oms_wanted (length oms) fits in
            rw fits (
              Avoids-bind (step-Safe env oms vd inside shape) (
                round-Ended k (progress vd) λ vd' shape' further.
                  parse_loop-Ended k vd' shape' (omega (arith, rank-le vd.parse_state))
                    (omega arith)))
      ]

  pub parse_loop-Safe :
      (vd : ViewData)
      → Shape oms vd
      → Avoids IsPageFault (Ended oms) (parse_loop (loop_fuel oms) env oms vd)
  parse_loop-Safe vd shape = parse_loop-Ended (loop_fuel oms) vd shape (omega arith) (omega arith)
