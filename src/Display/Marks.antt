-- ===== src/Display/Marks.antt =====
-- The links on the screen, as they are found whatever the chosen one.
use elfloader3_elfs_archive.Prelude.{
  ℕ, zero, suc, ◌+◌, ◌≡◌, refl, Bool, true, false, List, [], ◌∷◌, ◌++◌, Out, ok, fault, bad_index,
  out_of_fuel, or_fault, ◌>>=◌, length, get_elem?, leb, ltb, ◌==◌, ◌&&◌, if◌then◌else◌,
}
use elfloader3_elfs_archive.Oms.State.{View}
use elfloader3_elfs_archive.Display.{Screen, Line}
use elfloader3_elfs_archive.Display.Layout.{sub_word}
use elfloader3_elfs_archive.Display.Lines.{Lines}
use elfloader3_elfs_archive.Display.Rendering.{
  Frame, Seen, begin_ref, end_ref, is_hidden, is_layout, is_colour, one_more, check_line,
  line_start,
}

-- A link begins at a place of the text, or one ends.
pub data Mark : Type 0 where
  link : ℕ → Mark
  link_end : Mark

abbrev pub noted : ℕ → List Mark → Seen → Seen
noted cur [] x = x
noted cur (link p ∷ ms) x = noted cur ms (begin_ref cur p x)
noted cur (link_end ∷ ms) x = noted cur ms (end_ref x)

pub noted-append :
    (cur : ℕ) (ms ms' : List Mark) (x : Seen)
    → noted cur (ms ++ ms') x ≡ noted cur ms' (noted cur ms x)
noted-append cur [] ms' x = refl
noted-append cur (link p ∷ ms) ms' x = noted-append cur ms ms' (begin_ref cur p x)
noted-append cur (link_end ∷ ms) ms' x = noted-append cur ms ms' (end_ref x)

-- What one unit is, without a chosen link.
abbrev pub unit_marks : Bool → ℕ → ℕ → List Mark × Bool
unit_marks hidden sc c =
    if c == 0xE005
    then if hidden then ([], false) else (link sc ∷ [], false)
    else if c == 0xE004
    then (link_end ∷ [], false)
    else if is_layout c
    then ([], false)
    else ([], true)

abbrev pub marks_in : Bool → List ℕ → ℕ → ℕ → ℕ → ℕ → Out (List Mark)
marks_in hidden text zero sc len dc = fault out_of_fuel
marks_in hidden text (suc k) sc len dc =
    let round : Out (List Mark) = (do
      c ← or_fault bad_index (get_elem? text sc)
      let r = unit_marks hidden sc c
      let coloured : Out (List Mark) = (do
        a ← or_fault bad_index (get_elem? text (sc + 1))
        b ← or_fault bad_index (get_elem? text (sc + 2))
        ms ← marks_in hidden text k (sc + 3) (sub_word len 3) (one_more r.1 dc + 2)
        ok (r.0 ++ ms))
      let rest : Out (List Mark) = (do
        ms ← marks_in hidden text k (sc + 1) (sub_word len 1) (one_more r.1 dc)
        ok (r.0 ++ ms))
      if is_colour c then coloured else rest) in
    if ltb 0 len && ltb dc 250 then round else ok []

abbrev pub marks_of_line : View → Frame → ℕ → ℕ → Lines → Line → Out (List Mark)
marks_of_line v f y vl n lc = do
  sc ← line_start vl n.lines_cache
  marks_in (is_hidden f n.pixdisp y lc.pixheight) v.rawtext (length v.rawtext + 1) sc
      (sub_word lc.pos sc) 0

-- The lines that were looked for, how the end was met, and the marks on the screen.
pub record OnScreen : Type 0 where
  pub lines : Lines
  pub lcheck : ℕ
  pub marks : List Mark

abbrev pub add_marks : List Mark → OnScreen → OnScreen
add_marks ms r = record r { marks = ms ++ r.marks }

abbrev pub marks_on : Screen → View → Frame → ℕ → ℕ → ℕ → ℕ → Lines → Out OnScreen
marks_on s v f zero y lcheck vl n = fault out_of_fuel
marks_on s v f (suc k) y lcheck vl n =
    let round : Out OnScreen = (do
      r ← check_line s v lcheck n
      let line : Out OnScreen = (do
        lc ← or_fault bad_index (get_elem? r.1.lines_cache vl)
        ms ← marks_of_line v f y vl r.1 lc
        o ← marks_on s v f k (y + lc.pixheight) r.0 (vl + 1) r.1
        ok (add_marks ms o))
      if leb r.0 1 && ltb 0 (length r.1.lines_cache)
          then line
          else ok (record { lines = r.1; lcheck = r.0; marks = [] })) in
    if leb y (f.scr_h + n.pixdisp)
    then round
    else ok (record { lines = n; lcheck = lcheck; marks = [] })

abbrev pub marks_on_screen : Screen → View → Frame → ℕ → Lines → Out OnScreen
marks_on_screen s v f fuel n = marks_on s v f fuel f.scr_shift 0 n.view_line n
