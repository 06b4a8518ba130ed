-- ===== src/Oms/Safety/Arguments.antt =====
-- The fixed arguments of a tag, handler by handler.
use elfloader3_elfs_archive.Prelude.{
  ℕ, ◌+◌, ◌-◌, ◌*◌, ◌≤◌, ◌≡◌, refl, inl, inr, Bytes, some, Out, ok, returns, Avoids-bind, arith,
  Bool-cases, get_elem?, length, ◌==◌, ◌||◌, if_intro, if◌then◌else◌,
}
use elfloader3_elfs_archive.Oms.State.{ParseState, ViewData, Env, Outcome}
use elfloader3_elfs_archive.Oms.Items.{add_begin_ref}
use elfloader3_elfs_archive.Oms.Header.{give_up}
use elfloader3_elfs_archive.Oms.TagData.{
  set_tag, await, begin_field, continue_field, use_style, tag_data_text, data_d, data_s, data_y,
  data_j, data_k, data_r, data_i, data_x, data_h, data_small_x, data_o, data_small_k, data_z,
  data_at,
}
use elfloader3_elfs_archive.Oms.Shape.{ShapeAt, rank, Good, Safe, rbyte_ok, rshort_ok, rlong_ok}
use elfloader3_elfs_archive.Oms.Safety.Calls.{
  NoRead-ok, NoRead-bind, NoRead-or_fault, index_benign, add_picture_item_hr-NoRead,
  add_picture_item_frame-NoRead,
}

-- The handler waits in the state `s` for `n + extra` bytes more, and stands `read` bytes on.
abbrev Awaits : ViewData → ℕ → ℕ → ParseState → Out Outcome → Type 0
Awaits vd read extra s r =
    (n : ℕ) × (vd' : ViewData) × (r ≡ ok (await vd' (n + extra) s))
    × (vd'.oms_pos ≡ vd.oms_pos + read)
    × (vd'.oms_wanted ≡ vd.oms_wanted)
    × (vd'.iw ≡ n)

module _ (oms : Bytes) where
  begin_field-Awaits :
      (vd : ViewData) (i extra : ℕ) (s : ParseState)
      → vd.oms_pos + 2 ≤ length oms
      → Awaits vd 2 extra s (begin_field oms vd i extra s)
  unfolding begin_field
  begin_field-Awaits vd i extra s h =
      let (n, e) = rshort_ok oms vd h in
      let after = record vd {
        oms_pos = vd.oms_pos + 2;
        iw = n;
        view = set_tag (add_begin_ref vd.view) i;
      } in
      (n, after, rw e, refl, refl, refl)

  continue_field-Awaits :
      (vd : ViewData) (i : ℕ) (s : ParseState)
      → vd.oms_pos + 2 ≤ length oms
      → Awaits vd 2 2 s (continue_field oms vd i s)
  unfolding continue_field
  continue_field-Awaits vd i s h =
      let (n, e) = rshort_ok oms vd h in
      let after = record vd { oms_pos = vd.oms_pos + 2; iw = n; view = set_tag vd.view i } in
      (n, after, rw e, refl, refl, refl)

  -- Tags whose text follows at once.
  text_ok :
      (vd : ViewData) (i : ℕ) (s : ParseState)
      → vd.oms_pos + 2 ≤ length oms
      → (n : ℕ) × (vd' : ViewData) × (tag_data_text oms vd i s ≡ ok (await vd' n s))
        × (vd'.oms_pos ≡ vd.oms_pos + 2)
        × (vd'.oms_wanted ≡ vd.oms_wanted)
  unfolding tag_data_text
  text_ok vd i s h =
      let (n, e) = rshort_ok oms vd h in
      let v = vd.view in
      let after = record vd {
        oms_pos = vd.oms_pos + 2;
        view =
            if i == b'A'
            then set_tag v i
            else if i == b'L' || i == b'^'
            then add_begin_ref (set_tag v i)
            else v;
      } in
      (n, after, rw e, refl, refl)

module _ (env : Env) (oms : Bytes) (vd : ViewData) (fits : vd.oms_wanted ≤ length oms) where
  -- Where the letter has `k` bytes of arguments, the handler stands that far in front of their end.
  pub data_d-Safe :
      vd.oms_pos + 2 ≡ vd.oms_wanted → Safe oms (4 * vd.oms_wanted + 1) (data_d oms vd)
  unfolding data_d
  data_d-Safe h = let (n, e) = rshort_ok oms vd (omega arith) in rw e (returns (omega arith))

  pub data_s-Safe :
      vd.oms_pos + 4 ≡ vd.oms_wanted → Safe oms (4 * vd.oms_wanted + 1) (data_s oms vd)
  unfolding data_s
  data_s-Safe h = let (n, e) = rlong_ok oms vd (omega arith) in rw e (returns (omega arith))

  pub data_y-Safe :
      vd.oms_pos + 1 ≡ vd.oms_wanted → Safe oms (4 * vd.oms_wanted + 1) (data_y oms vd)
  unfolding data_y use_style
  data_y-Safe h =
      let (i, e) = rbyte_ok oms vd (omega arith) in
      let v = vd.view in
      rw e (
        Avoids-bind
          (NoRead-bind (NoRead-or_fault _ (get_elem? v.s_cache i) index_benign) λ k. NoRead-ok)
          λ v' _. returns (omega arith))

  pub data_j-Safe :
      vd.oms_pos + 4 ≡ vd.oms_wanted → Safe oms (4 * vd.oms_wanted + 1) (data_j env oms vd)
  unfolding data_j
  data_j-Safe h =
      let (w, e) = rshort_ok oms vd (omega arith) in
      let (h', e') = rshort_ok oms (record vd { oms_pos = vd.oms_pos + 2 }) (omega arith) in
      rw (e, e')
        (Avoids-bind (add_picture_item_frame-NoRead env vd.view w h') λ v _. returns (omega arith))

  pub data_k-Safe :
      vd.oms_pos + 6 ≡ vd.oms_wanted → Safe oms (4 * vd.oms_wanted + 1) (data_k oms vd)
  unfolding data_k
  data_k-Safe h =
      let (w, e) = rshort_ok oms vd (omega arith) in
      let (h', e') = rshort_ok oms (record vd { oms_pos = vd.oms_pos + 2 }) (omega arith) in
      let (i, e'') = rshort_ok oms (record vd { oms_pos = vd.oms_pos + 2 + 2 }) (omega arith) in
      rw (e, e', e'') (returns (omega arith))

  pub data_r-Safe :
      vd.oms_pos + 2 ≡ vd.oms_wanted → Safe oms (4 * vd.oms_wanted + 1) (data_r env oms vd)
  unfolding data_r
  data_r-Safe h =
      let (n, e) = rshort_ok oms vd (omega arith) in
      rw e (Avoids-bind (add_picture_item_hr-NoRead env vd.view) λ v _. returns (omega arith))

  pub data_i-Safe :
      vd.oms_pos + 8 ≡ vd.oms_wanted → Safe oms (4 * vd.oms_wanted + 1) (data_i oms vd)
  unfolding data_i
  data_i-Safe h =
      let (w, e) = rshort_ok oms vd (omega arith) in
      let (h', e') = rshort_ok oms (record vd { oms_pos = vd.oms_pos + 2 }) (omega arith) in
      let (i, e'') = rshort_ok oms (record vd { oms_pos = vd.oms_pos + 2 + 2 }) (omega arith) in
      let (u, e''') =
        rshort_ok oms (record vd { oms_pos = vd.oms_pos + 2 + 2 + 2 }) (omega arith) in
      rw (e, e', e'', e''') (returns (omega arith))

  pub data_x-Safe :
      vd.oms_pos + 4 ≡ vd.oms_wanted → Safe oms (4 * vd.oms_wanted + 1) (data_x oms vd)
  unfolding data_x
  data_x-Safe h =
      let (w, e) = rbyte_ok oms vd (omega arith) in
      let (h', e') = rbyte_ok oms (record vd { oms_pos = vd.oms_pos + 1 }) (omega arith) in
      let (i, e'') = rshort_ok oms (record vd { oms_pos = vd.oms_pos + 1 + 1 }) (omega arith) in
      rw (e, e', e'') (returns (omega arith))

  pub data_h-Safe :
      vd.oms_pos + 2 ≡ vd.oms_wanted → Safe oms (4 * vd.oms_wanted + 1) (data_h oms vd)
  unfolding data_h
  data_h-Safe h = let (n, e) = rshort_ok oms vd (omega arith) in rw e (returns (omega arith))

  pub data_o-Safe :
      vd.oms_pos + 2 ≡ vd.oms_wanted → Safe oms (4 * vd.oms_wanted + 1) (data_o oms vd)
  unfolding data_o give_up
  data_o-Safe h =
      let (n, e) = rshort_ok oms (record vd { tag_o_count = vd.tag_o_count - 1 }) (omega arith) in
      if_intro (Safe oms (4 * vd.oms_wanted + 1)) (vd.tag_o_count == 0) (returns refl)
        (rw e (returns (omega arith)))

  pub data_small_k-Safe :
      vd.oms_pos + 3 ≡ vd.oms_wanted → Safe oms (4 * vd.oms_wanted + 1) (data_small_k oms vd)
  unfolding data_small_k
  data_small_k-Safe h =
      let (c, e) = rbyte_ok oms vd (omega arith) in
      let (n, e') = rshort_ok oms (record vd { oms_pos = vd.oms_pos + 1 }) (omega arith) in
      rw (e, e') (returns (omega arith))

  pub data_z-Safe :
      vd.oms_pos + 2 ≡ vd.oms_wanted → Safe oms (4 * vd.oms_wanted + 1) (data_z oms vd)
  unfolding data_z
  data_z-Safe h = let (n, e) = rshort_ok oms vd (omega arith) in rw e (returns (omega arith))

  pub data_at-Safe :
      vd.oms_pos + 4 ≡ vd.oms_wanted → Safe oms (4 * vd.oms_wanted + 1) (data_at oms vd)
  unfolding data_at
  data_at-Safe h =
      let (m, e) = rshort_ok oms vd (omega arith) in
      let (n, e') = rshort_ok oms (record vd { oms_pos = vd.oms_pos + 2 }) (omega arith) in
      rw (e, e')
        (returns (if_intro (Good oms (4 * vd.oms_wanted + 1)) (n == 0) (omega arith) (omega arith)))

  pub data_small_x-Safe :
      (m : ℕ)
      → get_elem? oms 0 ≡ some m
      → vd.oms_pos + (if m == 0x0D then 2 else 3) ≡ vd.oms_wanted
      → Safe oms (4 * vd.oms_wanted + 1) (data_small_x oms vd)
  unfolding data_small_x
  data_small_x-Safe m starts h = elim (Bool-cases (m == 0x0D)) [
    | inl old ↦
        let here : vd.oms_pos + 2 ≡ vd.oms_wanted = rw old at h in
        let (n, vd', e, p, w, iw) =
          begin_field-Awaits oms vd b'x' 2 ParseState.tag_x_stage3 (omega arith) in
        rw (starts, old, e) (returns (omega arith))
    | inr new ↦
        let here : vd.oms_pos + 3 ≡ vd.oms_wanted = rw new at h in
        let (b, e') = rbyte_ok oms vd (omega arith) in
        let vd1 = record vd { oms_pos = vd.oms_pos + 1 } in
        let (n, vd', e, p, w, iw) =
          begin_field-Awaits oms vd1 b'x' 2 ParseState.tag_x_stage3 (omega arith) in
        rw (starts, new, e', e) (returns (omega arith))
  ]

  pub text-Safe :
      (i : ℕ) (s : ParseState)
      → ((after : ViewData) → after.oms_pos ≤ after.oms_wanted → ShapeAt s oms after)
      → rank s ≡ 2
      → vd.oms_pos + 2 ≡ vd.oms_wanted
      → Safe oms (4 * vd.oms_wanted + 1) (tag_data_text oms vd i s)
  text-Safe i s shape is_stage3 h =
      let (n, after, e, p, w) = text_ok oms vd i s (omega arith) in
      rw e (returns (shape _ (omega arith), omega arith))

  pub begin_field-Safe :
      (i extra : ℕ) (s : ParseState)
      → ((after : ViewData)
          → after.oms_pos + after.iw + extra ≡ after.oms_wanted
          → ShapeAt s oms after)
      → rank s ≡ 2
      → vd.oms_pos + 2 ≡ vd.oms_wanted
      → Safe oms (4 * vd.oms_wanted + 1) (begin_field oms vd i extra s)
  begin_field-Safe i extra s shape is_stage3 h =
      let (n, after, e, p, w, iw) = begin_field-Awaits oms vd i extra s (omega arith) in
      rw e (returns (shape _ (omega arith), omega arith))

  pub continue_field-Safe :
      (i : ℕ) (s : ParseState)
      → ((after : ViewData) → after.oms_pos + after.iw + 2 ≡ after.oms_wanted → ShapeAt s oms after)
      → rank s ≡ 2
      → vd.oms_pos + 2 ≡ vd.oms_wanted
      → Safe oms (4 * vd.oms_wanted + 1) (continue_field oms vd i s)
  continue_field-Safe i s shape is_stage3 h =
      let (n, after, e, p, w, iw) = continue_field-Awaits oms vd i s (omega arith) in
      rw e (returns (shape _ (omega arith), omega arith))
