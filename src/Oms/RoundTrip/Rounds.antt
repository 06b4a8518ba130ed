-- ===== src/Oms/RoundTrip/Rounds.antt =====
-- One round of the loop at each of the tags of a text page, and what the rounds read.
use elfloader3_elfs_archive.Prelude.{
  ℕ, suc, ◌+◌, ◌-◌, ◌*◌, ◌≤◌, ◌≡◌, refl, sym, ◌∙◌, Bytes, [], ◌∷◌, ◌++◌, append_assoc, some, ok,
  length, length-append, get_elem?, get_elem?-append_length, take-append_length, drop-append_length,
  leb, le→leb, true, arith,
}
use elfloader3_elfs_archive.Encoding.Compare.{short_at, slice_at}
use elfloader3_elfs_archive.Oms.State.{ParseState, View, ViewData, Env, next, leave, rbyte, rshort}
use elfloader3_elfs_archive.Oms.Items.{add_text_item, add_br_item, add_p_item}
use elfloader3_elfs_archive.Oms.Tags.{tag_name, argument_size}
use elfloader3_elfs_archive.Oms.TagData.{tag_data, tag_data_text}
use elfloader3_elfs_archive.Oms.Stages.{tag_t_stage3}
use elfloader3_elfs_archive.Oms.Loop.{step, step_in, parse_loop, returned}
use elfloader3_elfs_archive.Oms.RoundTrip.{placed, at_tag}

pub parse_loop-next :
    (k : ℕ) (env : Env) (oms : Bytes) (vd vd' : ViewData)
    → vd.oms_wanted ≤ length oms
    → step env oms vd ≡ ok (next vd')
    → parse_loop (suc k) env oms vd ≡ parse_loop k env oms vd'
unfolding parse_loop
parse_loop-next k env oms vd vd' fits e = rw (le→leb vd.oms_wanted (length oms) fits, e) refl

pub parse_loop-leave :
    (k : ℕ) (env : Env) (oms : Bytes) (vd vd' : ViewData)
    → vd.oms_wanted ≤ length oms
    → step env oms vd ≡ ok (leave vd')
    → parse_loop (suc k) env oms vd ≡ ok (returned vd')
unfolding parse_loop
parse_loop-leave k env oms vd vd' fits e = rw (le→leb vd.oms_wanted (length oms) fits, e) refl

module _ (env : Env) (oms : Bytes) (vd : ViewData) (title : Bytes) (p first : ℕ) (v : View)
    (start : get_elem? oms 0 ≡ some first) where
  pub step-line_break :
      get_elem? oms p ≡ some b'B'
      → step env oms (at_tag vd title p v) ≡ ok (next (at_tag vd title (p + 1) (add_br_item v)))
  unfolding step step_in tag_name
  step-line_break e = rw (e, start) refl

  pub step-paragraph :
      get_elem? oms p ≡ some b'V'
      → step env oms (at_tag vd title p v) ≡ ok (next (at_tag vd title (p + 1) (add_p_item v)))
  unfolding step step_in tag_name
  step-paragraph e = rw (e, start) refl

  pub step-quit :
      get_elem? oms p ≡ some b'Q'
      → step env oms (at_tag vd title p v)
        ≡ ok (leave (placed vd title ParseState.stop p (p + 1) v))
  unfolding step step_in tag_name
  step-quit e = rw (e, start) refl

  abbrev pub at_length : ViewData
  at_length = placed vd title ParseState.tag_data p (p + 1 + 2) v

  abbrev pub at_text : ℕ → ViewData
  at_text n = placed vd title ParseState.tag_T_stage3 (p + 1 + 2) (p + 1 + 2 + n) v

  pub step-text :
      get_elem? oms p ≡ some b'T' → step env oms (at_tag vd title p v) ≡ ok (next at_length)
  unfolding step step_in tag_name argument_size
  step-text e = rw (e, start) refl

  pub step-text_length :
      (n : ℕ)
      → get_elem? oms p ≡ some b'T'
      → short_at oms (p + 1) ≡ ok n
      → step env oms at_length ≡ ok (next (at_text n))
  unfolding step step_in tag_data tag_data_text rbyte rshort
  step-text_length n e l = rw (e, l) refl

  pub step-text_bytes :
      (n : ℕ) (s : Bytes)
      → slice_at oms (p + 1 + 2) (p + 1 + 2 + n - (p + 1 + 2)) ≡ ok s
      → step env oms (at_text n) ≡ ok (next (at_tag vd title (p + 1 + 2 + n) (add_text_item v s)))
  unfolding step step_in tag_t_stage3
  step-text_bytes n s e = rw e refl

-- What stands at a place of a page.
slice_at-append :
    (front s rest : Bytes) → slice_at (front ++ (s ++ rest)) (length front) (length s) ≡ ok s
unfolding slice_at
slice_at-append front s rest =
    let inside : leb (length front + length s) (length (front ++ (s ++ rest))) ≡ true =
      le→leb _ _ (omega (arith, length-append front (s ++ rest), length-append s rest)) in
    rw (inside, drop-append_length front (s ++ rest), take-append_length s rest) refl

pub get_elem?-at :
    (front : Bytes) (y : ℕ) (ys oms : Bytes) (i : ℕ)
    → oms ≡ front ++ y ∷ ys
    → i ≡ length front
    → get_elem? oms i ≡ some y
get_elem?-at front y ys oms i e t = rw (t, e) (get_elem?-append_length front y ys)

pub short_at-at :
    (front : Bytes) (hi lo : ℕ) (rest oms : Bytes) (i : ℕ)
    → oms ≡ front ++ hi ∷ lo ∷ rest
    → i ≡ length front
    → short_at oms i ≡ ok (hi * 256 + lo)
unfolding short_at
short_at-at front hi lo rest oms i e t =
    let second : i + 1 ≡ length (front ++ hi ∷ []) =
      omega (arith, t, length-append front (hi ∷ [])) in
    let after : oms ≡ (front ++ hi ∷ []) ++ lo ∷ rest =
      e ∙ sym (append_assoc front (hi ∷ []) (lo ∷ rest)) in
    rw
      (
        get_elem?-at front hi (lo ∷ rest) oms i e t,
        get_elem?-at (front ++ hi ∷ []) lo rest oms (i + 1) after second,
      )
      refl

pub slice_at-at :
    (front s rest oms : Bytes) (i n : ℕ)
    → oms ≡ front ++ (s ++ rest)
    → i ≡ length front
    → n ≡ length s
    → slice_at oms i n ≡ ok s
slice_at-at front s rest oms i n e t l = rw (t, e, l) (slice_at-append front s rest)
