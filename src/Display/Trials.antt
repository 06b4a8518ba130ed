-- ===== src/Display/Trials.antt =====
-- A page with two links on one line.
use elfloader3_elfs_archive.Prelude.{ℕ, ◌≡◌, refl, Bool, false, [], ◌∷◌, Out, ok, ◌>>=◌}
use elfloader3_elfs_archive.Oms.State.{View}
use elfloader3_elfs_archive.Display.{get_font_height, get_symbol_bitmap_width}
use elfloader3_elfs_archive.Display.Layout.{search_next_display_line}
use elfloader3_elfs_archive.Display.Lines.{Lines, first_line, line_down, scroll_up}
use elfloader3_elfs_archive.Display.Position.{fill_lines}
use elfloader3_elfs_archive.Display.Rendering.{
  Frame, Shown, none_seen, no_pos, check_line, line_start, is_hidden, render_page,
}
use elfloader3_elfs_archive.Display.Keys.{choose, scroll_down, key_scroll_up, key_page_down}
use elfloader3_elfs_archive.Display.Marks.{OnScreen, link, link_end}
use elfloader3_elfs_archive.Display.Chosen.{one_end, no_more, an_end, nothing_left}
use elfloader3_elfs_archive.Display.Links.{down_and_up, down_and_up-links}
use elfloader3_elfs_archive.Display.Examples.{screen, view, no_lines}

abbrev pub linked : View
linked = record view { rawtext = 0xE005 ∷ 97 ∷ 0xE004 ∷ 0xE005 ∷ 98 ∷ 0xE004 ∷ 10 ∷ [] }

abbrev pub frame : Frame
frame = record { scr_h = 50; scr_shift = 0; dfh = 20; cfg_invert_cursor = false }

abbrev shown : Shown
shown = record { lines = no_lines; seen = none_seen; pos_cur_ref = no_pos }

abbrev pub first_lines : Lines
first_lines = record no_lines {
  lines_cache =
      (record first_line { pos = 7; pixheight = 11 })
      ∷ (record first_line { pos = 7; ycoord = 11 })
      ∷ [];
  lines_cache_cap = 256;
  lines_cache_pos = 7;
  view_line = 1;
}

abbrev found : OnScreen
found = record {
  lines = first_lines;
  lcheck = 2;
  marks = link 0 ∷ link_end ∷ link 3 ∷ link_end ∷ [];
}

down_and_up-links_example : down_and_up screen linked frame 9 (choose 0 shown) ≡ ok (3, 0)
unfolding check_line line_start is_hidden line_down search_next_display_line get_symbol_bitmap_width
    get_font_height
down_and_up-links_example =
    down_and_up-links screen linked frame 9 shown found found [] 0 (link_end ∷ []) 3 (link_end ∷ [])
      refl refl refl refl (one_end no_more) (an_end nothing_left) nothing_left refl refl refl refl

abbrev shown_refs : Bool × Shown → Out (Bool × (ℕ × ℕ))
shown_refs q = ok (q.0, (q.1.pos_cur_ref, q.1.seen.pos_last_ref))

-- The end of the page is on the screen, and the chosen link is not.
render_test :
    (render_page screen linked frame 9 (choose 1 shown) >>= shown_refs) ≡ ok (false, (no_pos, 3))
unfolding render_page check_line line_start is_hidden line_down search_next_display_line
    get_symbol_bitmap_width get_font_height
render_test = refl

-- The page ends on the screen, so it is not scrolled.
page_down_test :
    key_page_down screen linked frame 9 30 shown >>= (λ w. ok w.pos_cur_ref) ≡ ok no_pos
unfolding key_page_down scroll_down render_page check_line line_start is_hidden line_down
    search_next_display_line get_symbol_bitmap_width get_font_height
page_down_test = refl

-- Nothing is chosen and the links are known: the key up takes the last one.
last_test :
    key_scroll_up screen linked frame 9
      (record shown { seen = record none_seen { pos_last_ref = 3 } })
    ≡ ok (record shown { seen = record none_seen { pos_last_ref = 3 }; pos_cur_ref = 3 })
unfolding key_scroll_up
last_test = refl

abbrev low : Frame
low = record frame { scr_h = 5 }

abbrev place_of : Shown → Out (ℕ × ℕ)
place_of w = ok (w.lines.view_line, w.lines.pixdisp)

-- A page of three lines on a screen of six pixels.
scroll_test : (scroll_down screen view low 9 12 shown >>= place_of) ≡ ok (1, 2)
unfolding scroll_down render_page check_line line_start is_hidden line_down search_next_display_line
    get_symbol_bitmap_width get_font_height
scroll_test = refl

-- Further than its end, the last line is at the bottom.
bottom_test : (scroll_down screen view low 40 200 shown >>= place_of) ≡ ok (2, 5)
unfolding scroll_down render_page check_line line_start is_hidden line_down scroll_up fill_lines
    search_next_display_line get_symbol_bitmap_width get_font_height
bottom_test = refl
