-- ===== src/Oms/Safety/Header.antt =====
-- The header, the address, and the letter of a tag.
use elfloader3_elfs_archive.Prelude.{
  ℕ, zero, suc, ◌+◌, ◌-◌, ◌*◌, ◌≤◌, ◌≡◌, refl, inl, inr, Bytes, [], ◌∷◌, none, some, ok, returns,
  faults, Avoids-bind, arith, Option-cases, get_elem?, get_elem?-lt, le→leb, length, ◌==◌, ◌||◌,
  if_intro, ◌&&◌, ◌++◌, take, drop,
}
use elfloader3_elfs_archive.Encoding.Compare.{slice_at}
use elfloader3_elfs_archive.Encoding.Utf8.{utf82win, utf82win_loop, win_skip}
use elfloader3_elfs_archive.Oms.State.{ParseState, ViewData, Env, with_view, blank_ref}
use elfloader3_elfs_archive.Oms.Header.{give_up, hdr_common, pageurl_size, pageurl_data, c_string}
use elfloader3_elfs_archive.Oms.Tags.{argument_size, unknown_tag, wait_view, wait_for, tag_name}
use elfloader3_elfs_archive.Oms.Shape.{AtTag, Good, Safe, rshort_ok, rlong_ok}
use elfloader3_elfs_archive.Oms.Safety.Calls.{
  NoRead, NoRead-ok, NoRead-bind, NoRead-if, NoRead-or_fault, index_benign, fuel_benign,
  add_picture_item_hr-NoRead,
}

-- `utf82win` reads its own text, never the page.
utf82win_loop-NoRead : (k : ℕ) (s : Bytes) → NoRead (utf82win_loop k s)
unfolding utf82win_loop
utf82win_loop-NoRead zero s = faults fuel_benign
utf82win_loop-NoRead (suc k) [] = faults index_benign
utf82win_loop-NoRead (suc k) (zero ∷ s) = NoRead-ok
utf82win_loop-NoRead (suc k) (suc c ∷ s) =
    NoRead-bind (NoRead-or_fault _ (get_elem? s 0) index_benign) λ lb.
      NoRead-bind
        (NoRead-if (suc c == 0xE2 && lb == 0x80) (NoRead-or_fault _ (get_elem? s 1) index_benign)
          NoRead-ok)
        λ third.
          NoRead-bind (utf82win_loop-NoRead k (drop (win_skip (suc c)) (suc c ∷ s)))
            λ rest. NoRead-ok

pub utf82win-NoRead : (s : Bytes) → NoRead (utf82win s)
unfolding utf82win
utf82win-NoRead s = utf82win_loop-NoRead (length s + 1) (s ++ zero ∷ [])

module _ (env : Env) (oms : Bytes) (vd : ViewData) (fits : vd.oms_wanted ≤ length oms) where
  pub slice_ok : (p n : ℕ) → p + n ≤ vd.oms_wanted → (s : Bytes) × (slice_at oms p n ≡ ok s)
  unfolding slice_at
  slice_ok p n h = (take n (drop p oms), rw (le→leb (p + n) (length oms) (omega arith)))

  pub hdr_common-Safe :
      vd.oms_pos + 6 ≡ vd.oms_wanted → Safe oms (4 * vd.oms_wanted + 0) (hdr_common env oms vd)
  unfolding hdr_common give_up
  hdr_common-Safe h =
      let v = vd.view in
      let vd' = with_view vd (record v { work_ref = blank_ref; work_ref_z = blank_ref }) in
      let (i, e) = rshort_ok oms vd' (omega arith) in
      let (sz, e') = rlong_ok oms (record vd' { oms_pos = vd.oms_pos + 2 }) (omega arith) in
      let G = Good oms (4 * vd.oms_wanted + 0) in
      rw (e, e')
        (returns (
          if_intro G (i == 0x0D33) (omega arith) (
            if_intro G (i == 0x1833) (omega arith) (
              if_intro G (i == 0x0D31) (omega arith)
                (if_intro G (i == 0x1832) (refl, omega arith) refl)))))

  pub pageurl_size-Safe :
      vd.oms_pos + 2 ≡ vd.oms_wanted → Safe oms (4 * vd.oms_wanted + 0) (pageurl_size oms vd)
  unfolding pageurl_size
  pageurl_size-Safe h = let (n, e) = rshort_ok oms vd (omega arith) in rw e (returns (omega arith))

  pub pageurl_data-Safe :
      vd.oms_pos ≤ vd.oms_wanted → Safe oms (4 * vd.oms_wanted + 1) (pageurl_data oms vd)
  unfolding pageurl_data
  pageurl_data-Safe h =
      let (s, e) = slice_ok vd.oms_pos (vd.oms_wanted - vd.oms_pos) (omega arith) in
      rw e (Avoids-bind (utf82win-NoRead (c_string s)) λ ttt _. returns (omega arith))

  -- A tag that waits for its arguments, and one that is unknown.
  waits-Safe :
      (i m : ℕ)
      → vd.oms_pos + 1 ≡ vd.oms_wanted
      → get_elem? oms vd.oms_pos ≡ some i
      → get_elem? oms 0 ≡ some m
      → Safe oms (4 * vd.oms_wanted + 0) (
          ok (elim (argument_size (m == 0x0D) i) [
            | none ↦ unknown_tag vd i
            | some n ↦ wait_for vd i n
          ]))
  unfolding unknown_tag give_up
  waits-Safe i m h e e' = elim (Option-cases (argument_size (m == 0x0D) i)) [
    | inl o ↦ rw o (returns refl)
    | inr (n, o) ↦
        let tag : AtTag oms (record vd {
          oms_wanted = vd.oms_wanted + n;
          parse_state = ParseState.tag_data;
          view = wait_view i vd.view;
        }) =
          record {
            letter = i;
            first = m;
            size = n;
            reads = e;
            starts = e';
            has_size = o;
            awaited = omega arith;
          } in
        rw o (returns (tag, omega arith))
  ]

  pub tag_name-Safe :
      vd.oms_pos + 1 ≡ vd.oms_wanted → Safe oms (4 * vd.oms_wanted + 0) (tag_name env oms vd)
  unfolding tag_name unknown_tag give_up
  tag_name-Safe h =
      let (i, e) = get_elem?-lt oms vd.oms_pos (omega arith) in
      let (m, e') = get_elem?-lt oms 0 (omega arith) in
      let S = Safe oms (4 * vd.oms_wanted + 0) in
      rw (e, e')
        (if_intro S (i == b'+' || i == b'v' || i == b'$' || i == b'l') (returns (omega arith)) (
          if_intro S (i == b'(' || i == b')')
            (Avoids-bind (add_picture_item_hr-NoRead env vd.view) λ v _. returns (omega arith))
            (if_intro S (i == b'C') (returns (omega arith)) (
              if_intro S (i == b'B') (returns (omega arith)) (
                if_intro S (i == b'V') (returns (omega arith)) (
                  if_intro S (i == b'E') (returns (omega arith))
                    (if_intro S (i == b'Q') (returns refl) (waits-Safe i m h e e'))))))))
