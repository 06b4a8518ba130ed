-- ===== src/Display/Rendering.antt =====
-- `RenderPage`, without what it draws: the lines that it looks for, the links on the screen that it keeps, and
-- the link that is chosen, if it is on the screen (BalletMini/display_utils.c).
use elfloader3_elfs_archive.Prelude.{
  ℕ, zero, suc, ◌+◌, ◌-◌, Bool, true, false, List, Out, ok, fault, bad_index, out_of_fuel, or_fault,
  ◌>>=◌, length, get_elem?, leb, ltb, ◌==◌, ◌&&◌, ◌||◌, if◌then◌else◌,
}
use elfloader3_elfs_archive.Oms.State.{View}
use elfloader3_elfs_archive.Display.{Screen, Line}
use elfloader3_elfs_archive.Display.Layout.{sub_word}
use elfloader3_elfs_archive.Display.Lines.{Lines, line_down}

-- `ScreenH()-1`, `scr_shift`, the height of two lines of text, and the setting.
pub record Frame : Type 0 where
  pub scr_h : ℕ
  pub scr_shift : ℕ
  pub dfh : ℕ
  pub cfg_invert_cursor : Bool

abbrev pub no_pos : ℕ
no_pos = 0xFFFF_FFFF

-- The links on the screen, and `flag` and `ena_ref`: whether the chosen one was met, and how deep in it.
pub record Seen : Type 0 where
  pub pos_first_ref : ℕ
  pub pos_last_ref : ℕ
  pub pos_prev_ref : ℕ
  pub pos_next_ref : ℕ
  pub flag : ℕ
  pub ena_ref : ℕ

abbrev pub none_seen : Seen
none_seen = record {
  pos_first_ref = no_pos;
  pos_last_ref = no_pos;
  pos_prev_ref = no_pos;
  pos_next_ref = no_pos;
  flag = 0;
  ena_ref = 0;
}

-- A link at `sc`: the chosen one, or another.
unfoldable pub begin_ref : ℕ → ℕ → Seen → Seen
begin_ref cur sc x = if cur == sc then record x { flag = 1; ena_ref = 1 } else record x {
  pos_first_ref = if x.pos_first_ref == no_pos then sc else x.pos_first_ref;
  pos_last_ref = sc;
  pos_prev_ref = if x.flag == 0 then sc else x.pos_prev_ref;
  pos_next_ref = if x.flag == 1 then sc else x.pos_next_ref;
  flag = if x.flag == 1 then 2 else x.flag;
  ena_ref = if x.ena_ref == 0 then 0 else x.ena_ref + 1;
}

unfoldable pub end_ref : Seen → Seen
end_ref x = record x { ena_ref = if x.ena_ref == 1 then 0 else x.ena_ref - 1 }

-- Too much of the line is above the screen or below it; `y` is its place and `d` what is scrolled away.
unfoldable pub is_hidden : Frame → ℕ → ℕ → ℕ → Bool
is_hidden f d y h =
    (if ltb h f.dfh then ltb y d else ltb (y + h) (d + f.dfh))
    || (if ltb h f.dfh then ltb (f.scr_h + d) (y + h) else ltb (f.scr_h + d) (y + f.dfh))

abbrev pub is_layout : ℕ → Bool
is_layout c = c == 0xE01C || (c == 0xE01D || (c == 0xE01E || (c == 0xE01F || c == 0xA)))

abbrev pub is_colour : ℕ → Bool
is_colour c = c == 0xE007 || c == 0xE006

-- One unit of the text, and whether it goes into the line that is drawn.
unfoldable pub one_unit : Frame → Bool → ℕ → ℕ → ℕ → Seen → Seen × Bool
unfolding begin_ref end_ref
one_unit f hidden cur sc c x =
    if c == 0xE005
    then if hidden then (x, false) else (begin_ref cur sc x, cur == sc && f.cfg_invert_cursor)
    else if c == 0xE004
    then (end_ref x, x.ena_ref == 1 && f.cfg_invert_cursor)
    else if is_layout c
    then (x, false)
    else (x, true)

abbrev pub one_more : Bool → ℕ → ℕ
one_more b dc = if b then dc + 1 else dc

-- `while(len>0&&dc<250)`: a round passes a unit at least, so there are as many as units.
unfoldable pub render_units : Frame → Bool → ℕ → List ℕ → ℕ → ℕ → ℕ → ℕ → Seen → Out Seen
unfolding one_unit
render_units f hidden cur text zero sc len dc x = fault out_of_fuel
render_units f hidden cur text (suc k) sc len dc x =
    let round : Out Seen = (do
      c ← or_fault bad_index (get_elem? text sc)
      let r = one_unit f hidden cur sc c x
      let coloured : Out Seen = (do
        a ← or_fault bad_index (get_elem? text (sc + 1))
        b ← or_fault bad_index (get_elem? text (sc + 2))
        render_units f hidden cur text k (sc + 3) (sub_word len 3) (one_more r.1 dc + 2) r.0)
      let rest = render_units f hidden cur text k (sc + 1) (sub_word len 1) (one_more r.1 dc) r.0
      if is_colour c then coloured else rest) in
    if ltb 0 len && ltb dc 250 then round else ok x

-- `if (!lcheck) lcheck=!LineDown(vd); else lcheck++;`
unfoldable pub check_line : Screen → View → ℕ → Lines → Out (ℕ × Lines)
check_line s v lcheck n =
    if lcheck == 0
    then (do r ← line_down s v n; ok ((if r.0 then 0 else 1), r.1))
    else ok (lcheck + 1, n)

-- A line begins where the one before it ends.
unfoldable pub line_start : ℕ → List Line → Out ℕ
line_start zero ls = ok 0
line_start (suc k) ls = do p ← or_fault bad_index (get_elem? ls k); ok p.pos

-- The units of the line `vl`, of which the part on the screen is at `y`.
unfoldable pub render_line : View → Frame → ℕ → ℕ → ℕ → Lines → Line → Seen → Out Seen
unfolding render_units line_start is_hidden
render_line v f cur y vl n lc x = do
  sc ← line_start vl n.lines_cache
  let dc = if f.cfg_invert_cursor && ltb 0 x.ena_ref then 1 else 0
  render_units f (is_hidden f n.pixdisp y lc.pixheight) cur v.rawtext (length v.rawtext + 1) sc
      (sub_word lc.pos sc) dc x

-- How the loop ends.
pub record Rendered : Type 0 where
  pub lines : Lines
  pub lcheck : ℕ
  pub seen : Seen

-- `while(ypos<=scr_h)`, in so many rounds; `y` is `ypos` with what is scrolled away.
unfoldable pub render_lines :
    Screen → View → Frame → ℕ → ℕ → ℕ → ℕ → ℕ → Lines → Seen → Out Rendered
unfolding check_line render_line
render_lines s v f cur zero y lcheck vl n x = fault out_of_fuel
render_lines s v f cur (suc k) y lcheck vl n x =
    let round : Out Rendered = (do
      r ← check_line s v lcheck n
      let line : Out Rendered = (do
        lc ← or_fault bad_index (get_elem? r.1.lines_cache vl)
        x' ← render_line v f cur y vl r.1 lc x
        render_lines s v f cur k (y + lc.pixheight) r.0 (vl + 1) r.1 x')
      if leb r.0 1 && ltb 0 (length r.1.lines_cache)
          then line
          else ok (record { lines = r.1; lcheck = r.0; seen = x })) in
    if leb y (f.scr_h + n.pixdisp)
    then round
    else ok (record { lines = n; lcheck = lcheck; seen = x })

-- The lines, the links on the screen and the chosen one.
pub record Shown : Type 0 where
  pub lines : Lines
  pub seen : Seen
  pub pos_cur_ref : ℕ

-- `RenderPage`, and whether it returns 1. A chosen link that is not on the screen is chosen no longer.
unfoldable pub render_page : Screen → View → Frame → ℕ → Shown → Out (Bool × Shown)
unfolding render_lines
render_page s v f fuel w = do
  r ← render_lines s v f w.pos_cur_ref fuel f.scr_shift 0 w.lines.view_line w.lines none_seen
  ok (
    if r.lcheck == 2 then false else true,
    record {
      lines = record r.lines { view_line = w.lines.view_line };
      seen = r.seen;
      pos_cur_ref = if r.seen.flag == 0 then no_pos else w.pos_cur_ref;
    },
  )
