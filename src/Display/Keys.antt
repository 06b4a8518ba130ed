-- ===== src/Display/Keys.antt =====
-- The keys that go from link to link and scroll the page: the end of `method5` in BalletMini/main.c, with
-- `scrollDown` of BalletMini/display_utils.c.
use elfloader3_elfs_archive.Prelude.{
  ℕ, zero, suc, ◌+◌, ◌-◌, Out, ok, fault, bad_index, out_of_fuel, or_fault, ◌>>=◌, length,
  get_elem?, ltb, ◌==◌, ◌&&◌, not, if◌then◌else◌,
}
use elfloader3_elfs_archive.Oms.State.{View}
use elfloader3_elfs_archive.Display.{Screen}
use elfloader3_elfs_archive.Display.Lines.{Lines, line_down, scroll_up}
use elfloader3_elfs_archive.Display.Position.{fill_lines}
use elfloader3_elfs_archive.Display.Rendering.{Frame, Shown, no_pos, render_page}

abbrev pub set_lines : Lines → Shown → Shown
set_lines n w = record w { lines = n }

abbrev pub choose : ℕ → Shown → Shown
choose ref w = record w { pos_cur_ref = ref }

-- The page's height on the screen, `ScreenH()-1-scr_shift`, and what the keys scroll by.
abbrev pub frame_height : Frame → ℕ
frame_height f = f.scr_h - f.scr_shift

module _ (s : Screen) (v : View) (f : Frame) (fuel : ℕ) where
  -- Behind the end: the last line is put at the bottom.
  unfoldable pub to_bottom : Shown → Out Shown
  to_bottom w = do
    n ← fill_lines s v fuel w.lines
    p ← or_fault bad_index (get_elem? n.lines_cache (length n.lines_cache - 1))
    n' ← scroll_up (record n { pixdisp = p.pixheight }) (frame_height f)
    ok (set_lines n' w)

  -- From `L1` on, in so many rounds.
  unfoldable pub scroll_down_loop : ℕ → Shown → Out Shown
  unfolding to_bottom
  scroll_down_loop zero w = fault out_of_fuel
  scroll_down_loop (suc k) w = do
    p ← or_fault bad_index (get_elem? w.lines.lines_cache w.lines.view_line)
    let pd = w.lines.pixdisp - p.pixheight
    let over : Out Shown = (do
      r ← line_down s v w.lines
      q ← render_page s v f fuel (set_lines (record r.1 { pixdisp = 0 }) w)
      let n = q.1.lines
      let again = scroll_down_loop k (set_lines (record n { pixdisp = pd }) q.1)
      if q.0 then again else to_bottom q.1)
    let within : Out Shown = (do
      q ← render_page s v f fuel w
      if q.0 then ok q.1 else to_bottom q.1)
    if ltb p.pixheight w.lines.pixdisp then over else within

  -- `scrollDown`
  unfoldable pub scroll_down : ℕ → Shown → Out Shown
  unfolding scroll_down_loop
  scroll_down amount w = do
    q ← render_page s v f fuel w
    let n = q.1.lines
    let scrolled = scroll_down_loop fuel (set_lines (record n { pixdisp = n.pixdisp + amount }) q.1)
    if q.0 && ltb 0 (length n.lines_cache) then scrolled else ok q.1

  abbrev pub scroll_up_by : ℕ → Shown → Out Shown
  scroll_up_by amount w = do n ← scroll_up w.lines amount; ok (set_lines n w)

  abbrev pub choose_prev : Shown → Shown
  choose_prev w = if w.seen.pos_prev_ref == no_pos then w else choose w.seen.pos_prev_ref w

  abbrev pub choose_next : Shown → Shown
  choose_next w = if w.seen.pos_next_ref == no_pos then w else choose w.seen.pos_next_ref w

  -- `cfgKeyScrollUp`
  unfoldable pub key_scroll_up : Shown → Out Shown
  key_scroll_up w =
      let scrolled : Out Shown = (do
        w1 ← scroll_up_by 20 w
        q ← render_page s v f fuel w1
        ok (choose_prev q.1)) in
      if w.pos_cur_ref == no_pos && not (w.seen.pos_last_ref == no_pos)
      then ok (choose w.seen.pos_last_ref w)
      else if w.seen.pos_prev_ref == no_pos
      then scrolled
      else ok (choose w.seen.pos_prev_ref w)

  -- `cfgKeyScrollDown`
  unfoldable pub key_scroll_down : Shown → Out Shown
  unfolding scroll_down
  key_scroll_down w =
      let scrolled : Out Shown = (do
        w1 ← scroll_down 20 w
        q ← render_page s v f fuel w1
        ok (choose_next q.1)) in
      if w.pos_cur_ref == no_pos && not (w.seen.pos_first_ref == no_pos)
      then ok (choose w.seen.pos_first_ref w)
      else if w.seen.pos_next_ref == no_pos
      then scrolled
      else ok (choose w.seen.pos_next_ref w)

  -- `cfgKeyPageDown` and `cfgKeyHalfPageDown`, by what they scroll.
  unfoldable pub key_page_down : ℕ → Shown → Out Shown
  unfolding scroll_down
  key_page_down amount w = do w' ← scroll_down amount w; ok (choose no_pos w')

  -- `cfgKeyPageUp` and `cfgKeyHalfPageUp`
  unfoldable pub key_page_up : ℕ → Shown → Out Shown
  key_page_up amount w = do w' ← scroll_up_by amount w; ok (choose no_pos w')
