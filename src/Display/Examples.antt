-- ===== src/Display/Examples.antt =====
-- A page of two short lines on a screen of 30 pixels.
use elfloader3_elfs_archive.Display.Position.{
  strncmp_equal, find_anchor, line_behind, down_to, go_to_local_link_pos, fill_lines,
}
use elfloader3_elfs_archive.Display.Finding.{
  match_count, search_word, go_to_word, find_string_on_page, FoundFrom, search_word-FoundFrom,
}
use elfloader3_elfs_archive.Encoding.Compare.{compare_wchar, fold_wchar}
use elfloader3_elfs_archive.Prelude.{
  ℕ, ◌-◌, ◌>>=◌, Bytes, length, ◌≡◌, refl, Bool, true, false, [], ◌∷◌, Option, none, some, Out, ok,
  Avoids, arith,
}
use elfloader3_elfs_archive.Oms.State.{View, blank_ref}
use elfloader3_elfs_archive.Display.{Screen, Line, get_font_height, get_symbol_bitmap_width}
use elfloader3_elfs_archive.Display.Layout.{search_next_display_line}
use elfloader3_elfs_archive.Display.Lines.{Lines, first_line, line_down, line_up, scroll_up}
use elfloader3_elfs_archive.Display.Ends.{IsFuel, search_next_display_line-Avoids}
use elfloader3_elfs_archive.Display.Scroll.{Scrolled, top, scroll_up-Scrolled}
use elfloader3_elfs_archive.Display.Cache.{IsCached, Stepped, line_down-Stepped}

abbrev pub screen : Screen
screen = record {
  scr_w = 30;
  symbol_width = λ c b. 6;
  font_y_size = λ b. 10;
  img_height = λ c. 10;
  word_wrap = true;
}

abbrev pub view : View
view = record {
  rawtext = 97 ∷ 98 ∷ 10 ∷ 99 ∷ 100 ∷ 101 ∷ 32 ∷ 102 ∷ 103 ∷ 104 ∷ [];
  rawtext_cap = 10;
  ref_cache = [];
  ref_cache_cap = 0;
  work_ref = blank_ref;
  work_ref_z = blank_ref;
  pos_cur_ref = 0;
  s_cache = [];
  current_tag_s = 0;
  prev_tag_s = 0;
  current_tag_d = 0;
  ref_mode_i = 0;
  ref_mode_p = 0;
  dynpng_list = [];
  wchar_hr = 0;
  wchar_button_on = 0;
  wchar_button_off = 0;
  wchar_radio_on = 0;
  wchar_radio_off = 0;
  wchar_text_form = 0;
  wchar_list_form = 0;
}

-- The first line ends behind its line break.
abbrev ended : Line
ended = record first_line { pos = 3; pixheight = 10 }

line_test : search_next_display_line screen view 0 first_line ≡ ok (true, ended)
unfolding search_next_display_line get_symbol_bitmap_width get_font_height
line_test = refl

-- The second one is broken at its space.
wrap_test :
    search_next_display_line screen view 3 first_line
    ≡ ok (true, record first_line { pos = 7; pixheight = 10 })
unfolding search_next_display_line get_symbol_bitmap_width get_font_height
wrap_test = refl

abbrev pub no_lines : Lines
no_lines = record {
  lines_cache = [];
  lines_cache_cap = 0;
  lines_cache_pos = 0;
  view_line = 0;
  pixdisp = 0;
}

no_lines-IsCached : IsCached no_lines
no_lines-IsCached = record { has_room = omega arith; whole_chunks = refl; in_view = omega arith }

line_down-Stepped_example :
    (b' : Bool) × (n' : Lines) × (line_down screen view no_lines ≡ ok (b', n'))
    × Stepped 0 b' n'
    × (b' ≡ false → true ≡ false)
line_down-Stepped_example =
    line_down-Stepped screen view no_lines ended true no_lines-IsCached line_test

abbrev pub two_lines : Lines
two_lines = record no_lines {
  lines_cache = ended ∷ (record ended { pos = 5; ycoord = 10 }) ∷ [];
  lines_cache_cap = 256;
  view_line = 1;
  pixdisp = 4;
}

scroll_up-Scrolled_example : Scrolled (top two_lines - 7) two_lines (scroll_up two_lines 7)
scroll_up-Scrolled_example = scroll_up-Scrolled two_lines 7 (omega arith)

search_next_display_line-Avoids_example :
    Avoids IsFuel (λ (r : Bool × Line). Unit) (search_next_display_line screen view 3 first_line)
search_next_display_line-Avoids_example = search_next_display_line-Avoids screen view 3 first_line

-- A symbol that is wider than the screen ends the line before it begins.
abbrev narrow : Screen
narrow = record screen { scr_w = 5 }

wide_test :
    search_next_display_line narrow view 3 first_line ≡ ok (true, record first_line { pos = 3 })
unfolding search_next_display_line get_symbol_bitmap_width get_font_height
wide_test = refl

-- An 'A' whose name is the beginning of the link's.
abbrev anchored : View
anchored = record view {
  ref_cache = (record blank_ref { tag = 65; value = 2; size = 2; id2 = 4 }) ∷ [];
}

abbrev named_page : Bytes
named_page = 0 ∷ 0 ∷ b'c' ∷ b'1' ∷ []

abbrev at_top : Lines
at_top = record two_lines { lines_cache = ended ∷ (record ended { pos = 7 }) ∷ [] }

-- The link to "c12" goes to the place named "c1".
prefix_goes :
    go_to_local_link_pos screen anchored 9 named_page
      (b'c' ∷ b'1' ∷ b'2' ∷ [])
      (record at_top { view_line = 1 })
    ≡ ok (record at_top { view_line = 1 })
unfolding go_to_local_link_pos find_anchor strncmp_equal line_behind
prefix_goes = refl

-- A word that follows another letter of its own beginning is not found.
missed : search_word true (b'a' ∷ b'a' ∷ b'b' ∷ b'.' ∷ []) (b'a' ∷ b'b' ∷ []) 5 0 ≡ ok none
unfolding search_word match_count compare_wchar
missed = refl

found_test : search_word false (b'x' ∷ b'A' ∷ b'b' ∷ []) (b'a' ∷ b'B' ∷ []) 4 0 ≡ ok (some 1)
unfolding search_word match_count compare_wchar fold_wchar
found_test = refl

search_word-FoundFrom_example :
    Avoids IsFuel
      (FoundFrom true (b'x' ∷ b'a' ∷ b'b' ∷ []) (b'a' ∷ b'b' ∷ []) 0)
      (search_word true (b'x' ∷ b'a' ∷ b'b' ∷ []) (b'a' ∷ b'b' ∷ []) 4 0)
search_word-FoundFrom_example =
    search_word-FoundFrom true (b'x' ∷ b'a' ∷ b'b' ∷ []) (b'a' ∷ b'b' ∷ []) 0

abbrev top_and_count : Lines → Out (ℕ × ℕ)
top_and_count n = ok (n.view_line, length n.lines_cache)

fill_test : (fill_lines screen view 5 no_lines >>= top_and_count) ≡ ok (2, 3)
unfolding fill_lines line_down search_next_display_line get_symbol_bitmap_width get_font_height
fill_test = refl

abbrev place_and_top : Option ℕ × Lines → Out (Option ℕ × ℕ)
place_and_top r = ok (r.0, r.1.view_line)

-- The search from the top of the page finds the word in the second line.
find_test :
    (find_string_on_page screen view 9 (b'd' ∷ b'e' ∷ []) true no_lines >>= place_and_top)
    ≡ ok (some 4, 1)
unfolding find_string_on_page search_word match_count compare_wchar go_to_word down_to line_down
    line_up search_next_display_line get_symbol_bitmap_width get_font_height
find_test = refl
