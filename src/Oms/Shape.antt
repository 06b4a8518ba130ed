-- ===== src/Oms/Shape.antt =====
-- What holds between two rounds of the parser: how the place that it reads at, the bytes that it waits
-- for and its state fit together. `Safety` proves that every round keeps it.
use elfloader3_elfs_archive.Prelude.{
  ℕ, ◌+◌, ◌-◌, ◌*◌, ◌≤◌, ◌<◌, ◌≡◌, Bytes, some, Out, ok, Avoids, Fault, read_past_end,
  out_of_rounds, arith, get_elem?, get_elem?-lt, length, ◌==◌,
}
use elfloader3_elfs_archive.Encoding.Compare.{short_at}
use elfloader3_elfs_archive.Oms.State.{
  ParseState, ViewData, Outcome, next, leave, zinit, rbyte, rshort, rlong,
}
use elfloader3_elfs_archive.Oms.Tags.{argument_size}

-- The letter under `oms_pos` is that of a tag with arguments, and they are what is waited for.
pub record AtTag (oms : Bytes) (vd : ViewData) : Type 0 where
  pub letter : ℕ
  pub first : ℕ
  pub size : ℕ
  pub reads : get_elem? oms vd.oms_pos ≡ some letter
  pub starts : get_elem? oms 0 ≡ some first
  pub has_size : argument_size (first == 0x0D) letter ≡ some size
  pub awaited : vd.oms_pos + 1 + size ≡ vd.oms_wanted

-- The length of the string that is waited for stands in front of `oms_pos`.
pub record HasString (oms : Bytes) (vd : ViewData) : Type 0 where
  pub behind : 2 ≤ vd.oms_pos
  pub is_length : short_at oms (vd.oms_pos - 2) ≡ ok vd.ih

-- In a state that skips to `oms_wanted` the parser may stand anywhere in front of it. In the others
-- the bytes that the state reads end just there.
abbrev pub ShapeAt : ParseState → Bytes → ViewData → Type 0
ShapeAt ParseState.begin oms vd = vd.oms_pos ≡ 0
ShapeAt ParseState.stop oms vd = Unit
ShapeAt ParseState.hdr_common oms vd = vd.oms_pos + 6 ≡ vd.oms_wanted
ShapeAt ParseState.hdr oms vd = vd.oms_pos ≤ vd.oms_wanted
ShapeAt ParseState.gziphdr oms vd = vd.oms_pos ≤ vd.oms_wanted
ShapeAt ParseState.pageurl_size oms vd = vd.oms_pos + 2 ≡ vd.oms_wanted
ShapeAt ParseState.tag_name oms vd = vd.oms_pos + 1 ≡ vd.oms_wanted
ShapeAt ParseState.tag_data oms vd = AtTag oms vd
ShapeAt ParseState.tag_h_stage3 oms vd = vd.oms_pos + vd.iw + 2 ≡ vd.oms_wanted
ShapeAt ParseState.tag_e_stage3 oms vd = vd.oms_pos + vd.iw + 2 ≡ vd.oms_wanted
ShapeAt ParseState.tag_p_stage3 oms vd = vd.oms_pos + vd.iw + 2 ≡ vd.oms_wanted
ShapeAt ParseState.tag_u_stage3 oms vd = vd.oms_pos + vd.iw + 2 ≡ vd.oms_wanted
ShapeAt ParseState.tag_x_stage3 oms vd = vd.oms_pos + vd.iw + 2 ≡ vd.oms_wanted
ShapeAt ParseState.tag_c_stage3 oms vd = vd.oms_pos + vd.iw + 2 ≡ vd.oms_wanted
ShapeAt ParseState.tag_r_stage3 oms vd = vd.oms_pos + vd.iw + 2 ≡ vd.oms_wanted
ShapeAt ParseState.tag_o_stage3 oms vd = vd.oms_pos + vd.iw + 2 ≡ vd.oms_wanted
ShapeAt ParseState.tag_i_stage3 oms vd = vd.oms_pos + vd.iw + 2 ≡ vd.oms_wanted
ShapeAt ParseState.tag_s_stage3 oms vd = vd.oms_pos + vd.iw + 3 ≡ vd.oms_wanted
ShapeAt ParseState.tag_h_stage4 oms vd = vd.oms_pos + vd.ih ≡ vd.oms_wanted
ShapeAt ParseState.tag_e_stage4 oms vd = vd.oms_pos + vd.ih ≡ vd.oms_wanted
-- The string of an input field begins two bytes in front of `oms_pos`, with its length.
ShapeAt ParseState.tag_p_stage4 oms vd = HasString oms vd × (vd.oms_pos + vd.ih ≡ vd.oms_wanted)
ShapeAt ParseState.tag_x_stage4 oms vd = HasString oms vd × (vd.oms_pos + vd.ih ≡ vd.oms_wanted)
ShapeAt ParseState.tag_u_stage4 oms vd = vd.oms_pos + vd.ih ≡ vd.oms_wanted
ShapeAt ParseState.tag_i_stage4 oms vd = vd.oms_pos + vd.ih ≡ vd.oms_wanted
ShapeAt ParseState.tag_c_stage4 oms vd = vd.oms_pos + vd.ih + 1 ≡ vd.oms_wanted
ShapeAt ParseState.tag_r_stage4 oms vd = vd.oms_pos + vd.ih + 1 ≡ vd.oms_wanted
ShapeAt ParseState.tag_o_stage4 oms vd = vd.oms_pos + vd.ih + 1 ≡ vd.oms_wanted
ShapeAt ParseState.tag_k_stage3 oms vd = vd.oms_pos + vd.iw ≡ vd.oms_wanted
ShapeAt ParseState.tag_Z_stage3 oms vd = vd.oms_pos + vd.iw ≡ vd.oms_wanted
ShapeAt ParseState.tag_x40_stage3 oms vd = vd.oms_pos + vd.iw ≡ vd.oms_wanted
ShapeAt ParseState.pageurl_data oms vd = vd.oms_pos ≤ vd.oms_wanted
ShapeAt ParseState.tag_A_stage3 oms vd = vd.oms_pos ≤ vd.oms_wanted
ShapeAt ParseState.tag_T_stage3 oms vd = vd.oms_pos ≤ vd.oms_wanted
ShapeAt ParseState.tag_I_stage3 oms vd = vd.oms_pos ≤ vd.oms_wanted
ShapeAt ParseState.tag_X_stage3 oms vd = vd.oms_pos ≤ vd.oms_wanted
ShapeAt ParseState.tag_L_stage3 oms vd = vd.oms_pos ≤ vd.oms_wanted
ShapeAt ParseState.tag_P_stage3 oms vd = vd.oms_pos ≤ vd.oms_wanted
ShapeAt ParseState.tag_x5e_stage3 oms vd = vd.oms_pos ≤ vd.oms_wanted

-- The place of a state among the at most four rounds that a tag takes.
abbrev pub rank : ParseState → ℕ
rank ParseState.pageurl_data = 1
rank ParseState.tag_data = 1
rank ParseState.tag_A_stage3 = 2
rank ParseState.tag_T_stage3 = 2
rank ParseState.tag_I_stage3 = 2
rank ParseState.tag_X_stage3 = 2
rank ParseState.tag_h_stage3 = 2
rank ParseState.tag_e_stage3 = 2
rank ParseState.tag_p_stage3 = 2
rank ParseState.tag_u_stage3 = 2
rank ParseState.tag_x_stage3 = 2
rank ParseState.tag_c_stage3 = 2
rank ParseState.tag_r_stage3 = 2
rank ParseState.tag_s_stage3 = 2
rank ParseState.tag_o_stage3 = 2
rank ParseState.tag_i_stage3 = 2
rank ParseState.tag_k_stage3 = 2
rank ParseState.tag_L_stage3 = 2
rank ParseState.tag_P_stage3 = 2
rank ParseState.tag_Z_stage3 = 2
rank ParseState.tag_x5e_stage3 = 2
rank ParseState.tag_x40_stage3 = 2
rank ParseState.tag_h_stage4 = 3
rank ParseState.tag_e_stage4 = 3
rank ParseState.tag_p_stage4 = 3
rank ParseState.tag_u_stage4 = 3
rank ParseState.tag_x_stage4 = 3
rank ParseState.tag_c_stage4 = 3
rank ParseState.tag_r_stage4 = 3
rank ParseState.tag_o_stage4 = 3
rank ParseState.tag_i_stage4 = 3
rank _ = 0

abbrev pub progress : ViewData → ℕ
progress vd = 4 * vd.oms_wanted + rank vd.parse_state

abbrev pub Shape : Bytes → ViewData → Type 0
Shape oms vd = ShapeAt vd.parse_state oms vd

-- A round that was at `p` keeps the shape and comes on. Decompression begins in front of the header's
-- end, and a return leaves the parser stopped.
abbrev pub Good : Bytes → ℕ → Outcome → Type 0
Good oms p (next vd) = Shape oms vd × (p < progress vd)
Good oms p (leave vd) = vd.parse_state ≡ ParseState.stop
Good oms p (zinit vd) = (vd.parse_state ≡ ParseState.hdr) × (vd.oms_pos ≤ vd.oms_wanted)

-- The faults that the parser itself could make: to read behind the page, and to go round for ever.
-- A picture reader that goes behind its picture has a fault of its own, `picture_past_end`, which is not one of these.
abbrev pub IsPageFault : Fault → Type 0
IsPageFault read_past_end = Unit
IsPageFault out_of_rounds = Unit
IsPageFault _ = ⊥

abbrev pub Safe : Bytes → ℕ → Out Outcome → Type 0
Safe oms p = Avoids IsPageFault (Good oms p)

module _ (oms : Bytes) where
  pub short_at_ok : (p : ℕ) → p + 2 ≤ length oms → (n : ℕ) × (short_at oms p ≡ ok n)
  unfolding short_at
  short_at_ok p h =
      let (hi, e) = get_elem?-lt oms p (omega arith) in
      let (lo, e') = get_elem?-lt oms (p + 1) (omega arith) in (hi * 256 + lo, rw (e, e'))

  module _ (vd : ViewData) where
    pub rbyte_ok :
        vd.oms_pos + 1 ≤ length oms
        → (b : ℕ) × (rbyte oms vd ≡ ok (b, record vd { oms_pos = vd.oms_pos + 1 }))
    unfolding rbyte
    rbyte_ok h = let (b, e) = get_elem?-lt oms vd.oms_pos (omega arith) in (b, rw e)

    pub rshort_ok :
        vd.oms_pos + 2 ≤ length oms
        → (n : ℕ) × (rshort oms vd ≡ ok (n, record vd { oms_pos = vd.oms_pos + 2 }))
    unfolding rshort
    rshort_ok h = let (n, e) = short_at_ok vd.oms_pos h in (n, rw e)

    pub rlong_ok :
        vd.oms_pos + 4 ≤ length oms
        → (n : ℕ) × (rlong oms vd ≡ ok (n, record vd { oms_pos = vd.oms_pos + 4 }))
    unfolding rlong
    rlong_ok h =
        let (hi, e) = short_at_ok vd.oms_pos (omega arith) in
        let (lo, e') = short_at_ok (vd.oms_pos + 2) (omega arith) in (hi * 65536 + lo, rw (e, e'))
