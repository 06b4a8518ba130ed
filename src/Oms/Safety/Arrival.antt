-- ===== src/Oms/Safety/Arrival.antt =====
-- The parts of a page arrive one after the other, plain or packed.
use elfloader3_elfs_archive.Prelude.{
  ℕ, zero, suc, ◌+◌, ◌-◌, ◌%◌, ◌^◌, ◌≤◌, ◌≡◌, refl, sym, inl, inr, Bytes, ◌++◌, Option, none, some,
  Out, ok, Avoids, Extends, same, faulted, Extends-bind, Extends-eq_ok, returns, faults,
  Avoids-bind, get_elem?-append, get_elem?, or_fault, Option-cases, length, ◌==◌, if_intro, arith,
  read_past_end,
}
use mathlib.Core.Path.{subst}
use elfloader3_elfs_archive.Encoding.Compare.{short_at}
use elfloader3_elfs_archive.Oms.State.{ParseState, ViewData, Env}
use elfloader3_elfs_archive.Oms.Header.{give_up}
use elfloader3_elfs_archive.Oms.Loop.{
  Page, Inflated, waits, returned, unpack, start_at, start_page, stopped, unpack_rest, inflate_loop,
  plain_data, part_arrived, data_arrived,
}
use elfloader3_elfs_archive.Oms.Shape.{ShapeAt, Shape, IsPageFault}
use elfloader3_elfs_archive.Oms.Safety.Step.{parse_loop-Safe}

get_elem?-Extends :
    (oms more : Bytes) (p : ℕ)
    → Extends
        (or_fault read_past_end (get_elem? oms p))
        (or_fault read_past_end (get_elem? (oms ++ more) p))
get_elem?-Extends oms more p = elim (Option-cases (get_elem? oms p)) [
  | inl e ↦ rw e faulted
  | inr (b, e) ↦ rw (e, get_elem?-append oms more p e) same
]

short_at-Extends : (oms more : Bytes) (p : ℕ) → Extends (short_at oms p) (short_at (oms ++ more) p)
unfolding short_at
short_at-Extends oms more p =
    Extends-bind (get_elem?-Extends oms more p)
      λ hi _. Extends-bind (get_elem?-Extends oms more (p + 1)) λ lo _. same

short_at-append :
    (oms more : Bytes) (p : ℕ) {n : ℕ} → short_at oms p ≡ ok n → short_at (oms ++ more) p ≡ ok n
short_at-append oms more p h = Extends-eq_ok (short_at-Extends oms more p) h

-- The shape stays when more bytes arrive.
ShapeAt-append :
    (s : ParseState) (oms more : Bytes) (vd : ViewData)
    → ShapeAt s oms vd
    → ShapeAt s (oms ++ more) vd
ShapeAt-append ParseState.tag_data oms more vd h = record {
  letter = h.letter;
  first = h.first;
  size = h.size;
  reads = get_elem?-append oms more _ h.reads;
  starts = get_elem?-append oms more _ h.starts;
  has_size = h.has_size;
  awaited = h.awaited;
}
ShapeAt-append ParseState.tag_p_stage4 oms more vd (h, e) =
    (record { behind = h.behind; is_length = short_at-append oms more _ h.is_length }, e)
ShapeAt-append ParseState.tag_x_stage4 oms more vd (h, e) =
    (record { behind = h.behind; is_length = short_at-append oms more _ h.is_length }, e)
ShapeAt-append _ oms more vd h = h

at_state :
    (s : ParseState) (oms : Bytes) (vd : ViewData)
    → vd.parse_state ≡ s
    → ShapeAt s oms vd
    → Shape oms vd
at_state s oms vd e h = subst (λ t. ShapeAt t oms vd) (sym e) h

start_at-Shape :
    (s : ParseState) (oms : Bytes) (vd : ViewData)
    → vd.parse_state ≡ s
    → ShapeAt s oms vd
    → Shape oms (start_at s vd)
unfolding start_at
start_at-Shape ParseState.begin oms vd e h = omega arith
start_at-Shape other oms vd e h = at_state other oms vd e h

-- The next part of a page, put behind what there is.
start_page-Shape :
    (oms more : Bytes) (vd : ViewData) → Shape oms vd → Shape (oms ++ more) (start_page vd)
unfolding start_page
start_page-Shape oms more vd h =
    start_at-Shape vd.parse_state (oms ++ more) vd refl
      (ShapeAt-append vd.parse_state oms more vd h)

-- The shape does not depend on the count of the bytes that were loaded.
same_shape :
    (s : ParseState) (oms : Bytes) (vd : ViewData) (n : ℕ)
    → ShapeAt s oms vd
    → ShapeAt s oms (record vd { loaded_sz = n })
same_shape ParseState.tag_data oms vd n h = record {
  letter = h.letter;
  first = h.first;
  size = h.size;
  reads = h.reads;
  starts = h.starts;
  has_size = h.has_size;
  awaited = h.awaited;
}
same_shape ParseState.tag_p_stage4 oms vd n (h, e) =
    (record { behind = h.behind; is_length = h.is_length }, e)
same_shape ParseState.tag_x_stage4 oms vd n (h, e) =
    (record { behind = h.behind; is_length = h.is_length }, e)
same_shape _ oms vd n h = h

-- The page so far is one that the parser can go on with.
abbrev pub PageShape : {Z : Type 0} → Page Z → Type 0
PageShape page = Shape page.oms page.vd

module _ {Z : Type 0} (inflate_init2 : Z × Option Bytes) (inflate : Z → Bytes → ℕ → Inflated Z)
    (env : Env) where
  abbrev Arrives : Out (Page Z) → Type 0
  Arrives = Avoids IsPageFault PageShape

  unpack_rest-Arrives :
      (z_next : Page Z → Z → Bytes → ℕ → Out (Page Z)) (page : Page Z) (buf : Bytes)
      → ((page' : Page Z) (z : Z) (input : Bytes) (len : ℕ)
          → PageShape page'
          → Arrives (z_next page' z input len))
      → (page.vd.parse_state ≡ ParseState.hdr)
      → (page.vd.oms_pos ≤ page.vd.oms_wanted)
      → Arrives (unpack_rest inflate_init2 inflate env z_next page buf)
  unfolding unpack_rest stopped give_up
  unpack_rest-Arrives z_next page buf rest e h = elim (Option-cases inflate_init2.1) [
    | inr (err, failed) ↦ rw (failed, unpack_rest) (returns tt)
    | inl fine ↦
        rw (fine, unpack_rest)
          (if_intro Arrives (length page.oms - page.vd.oms_pos == 0)
            (returns (at_state ParseState.hdr _ _ e h))
            (rest _ _ _ _ (at_state ParseState.hdr _ _ e h)))
  ]

  inflate_loop-Arrives :
      (k : ℕ) (buf : Bytes) (page : Page Z) (z : Z) (input : Bytes) (len : ℕ)
      → PageShape page
      → Arrives (inflate_loop inflate_init2 inflate env k buf page z input len)
  unfolding inflate_loop stopped give_up
  inflate_loop-Arrives zero buf page z input len h = faults λ x. x
  inflate_loop-Arrives (suc k) buf page z input len h =
      elim (Option-cases (inflate z input len).error) [
        | inr (err, failed) ↦ rw (failed, inflate_loop) (returns tt)
        | inl fine ↦
            rw (fine, inflate_loop)
              (Avoids-bind (parse_loop-Safe env _ _ (start_page-Shape page.oms _ page.vd h)) (elim [
                | waits vd ↦ λ good.
                    if_intro Arrives (length (inflate z input len).output == len)
                      (inflate_loop-Arrives k buf _ _ _ len good.0) (returns good.0)
                | returned vd ↦ λ e. returns (at_state ParseState.stop _ vd e tt)
                | unpack vd ↦ λ good.
                    unpack_rest-Arrives _
                      (record {
                        oms = page.oms ++ (inflate z input len).output;
                        zs = some (inflate z input len).stream;
                        vd = vd;
                      })
                      buf
                      (λ page' z' input' len' h'.
                        inflate_loop-Arrives k buf page' z' input' len' h')
                      good.0 good.1
              ]))
      ]

  plain_data-Arrives :
      (rounds : ℕ) (page : Page Z) (buf : Bytes)
      → PageShape page
      → Arrives (plain_data inflate_init2 inflate env rounds page buf)
  unfolding plain_data
  plain_data-Arrives rounds page buf h =
      Avoids-bind (parse_loop-Safe env _ _ (start_page-Shape page.oms buf page.vd h)) (elim [
        | waits vd ↦ λ good. returns good.0
        | returned vd ↦ λ e. returns (at_state ParseState.stop _ vd e tt)
        | unpack vd ↦ λ good.
            unpack_rest-Arrives _ (record page { oms = page.oms ++ buf; vd = vd }) buf
              (λ page' z input len h'. inflate_loop-Arrives rounds buf page' z input len h') good.0
              good.1
      ])

  part_arrived-Arrives :
      (rounds : ℕ) (page : Page Z) (zs : Option Z) (buf : Bytes)
      → PageShape page
      → Arrives (part_arrived inflate_init2 inflate env rounds page zs buf)
  unfolding part_arrived
  part_arrived-Arrives rounds page none buf h = plain_data-Arrives rounds page buf h
  part_arrived-Arrives rounds page (some z) buf h =
      inflate_loop-Arrives rounds buf page z buf (length buf) h

  -- A page that is in shape gets its next part: whatever bytes this holds, plain or packed, and whatever
  -- `inflate` makes of them, the parser's own reads never go behind the bytes that have arrived, and the rounds
  -- of the parsing loop are never used up. If the run returns, the page is in shape again, so that the
  -- part after it can come. A run may still fault at styles, lists, codes and pictures, where the picture
  -- readers may go behind a picture, or when the loop over the output of `inflate` uses up its own rounds.
  pub data_arrived-Safe :
      (rounds : ℕ) (page : Page Z) (buf : Bytes)
      → PageShape page
      → Avoids IsPageFault PageShape (data_arrived inflate_init2 inflate env rounds page buf)
  unfolding data_arrived
  data_arrived-Safe rounds page buf h =
      let old = page.vd in
      let arrived = record page {
        vd = record old { loaded_sz = (old.loaded_sz + length buf) % 2 ^ 32 };
      } in
      if_intro Arrives (length buf == 0) (returns tt) (
        part_arrived-Arrives rounds arrived page.zs buf
          (same_shape old.parse_state page.oms old _ h))
