-- ===== src/Browser/Arrivals.antt =====
-- A page of two lines that the user left at the second one.
use elfloader3_elfs_archive.Prelude.{
  ℕ, zero, suc, ◌≡◌, refl, true, false, Bytes, List, [], ◌∷◌, none, some, Out, ok, ◌>>=◌, arith,
}
use elfloader3_elfs_archive.Oms.Forms.{codes}
use elfloader3_elfs_archive.Display.{get_symbol_bitmap_width, get_font_height}
use elfloader3_elfs_archive.Display.Rendering.{
  none_seen, check_line, line_start, is_hidden, render_page,
}
use elfloader3_elfs_archive.Display.Trials.{linked, frame, first_lines}
use elfloader3_elfs_archive.Oms.Loop.{Page, parse_loop, data_arrived, start_page}
use elfloader3_elfs_archive.Oms.Examples.{phone, stored, new_page}
use elfloader3_elfs_archive.Display.Lines.{Lines, first_line, line_down}
use elfloader3_elfs_archive.Display.Position.{fill_lines}
use elfloader3_elfs_archive.Display.Examples.{screen, no_lines}
use elfloader3_elfs_archive.Display.Layout.{search_next_display_line}
use elfloader3_elfs_archive.PageStack.State.{
  Stack, zero_page, up_page_stack, push_page_to_stack, init_url_stack, pagename,
}
use elfloader3_elfs_archive.PageStack.Forms.{current_page, set_page_params}
use elfloader3_elfs_archive.Startup.Address.{Viewed, mode_file, mode_url, mode_bookmarks}
use elfloader3_elfs_archive.Browser.{ViewGui, no_ref, view_of}
use elfloader3_elfs_archive.Browser.Arriving.{
  Window, Flags, Getting, ipc_data_arrived, ipc_data_end, creates_bookmarks_menu, read_loop,
  get_file, start_get_file, behind_hash, behind_two, title_of, page_view, name_window,
  to_saved_line, to_saved_link, to_local_link, below_window, redraw, on_data_end, on_data_arrived,
}
use elfloader3_elfs_archive.Browser.Parts.{Gets, StaysStopped, get_file-Gets, parts}
use elfloader3_elfs_archive.Browser.Leaving.{Left, method2, method2-on_data_end}

-- Three parts and the end, behind which nothing is read.
abbrev bufs : List Bytes
bufs = (1 ∷ 2 ∷ []) ∷ (3 ∷ []) ∷ (4 ∷ []) ∷ [] ∷ (5 ∷ []) ∷ []

-- The stop comes while the second part is read.
abbrev stops : Flags
stops zero = (true, false)
stops (suc k) = (false, true)

stops-StaysStopped : StaysStopped stops
stops-StaysStopped zero h = cc
stops-StaysStopped (suc k) h = refl

abbrev begun : Getting
begun = record {
  stack = record { pages = zero_page ∷ zero_page ∷ []; stack_top = 0; unlinked = [] };
  cache = none;
  sent = [];
  stopped = false;
  shown = false;
}

get_file-Gets_example :
    Gets stops (parts bufs) (some []) begun (get_file 1 stops (some bufs) (some (some [])) begun)
get_file-Gets_example = get_file-Gets 1 stops bufs (some (some [])) begun stops-StaysStopped

-- One part is sent, two are in the cache.
stopped_test : get_file 1 stops (some bufs) (some (some [])) begun ≡ record begun {
  cache = some (1 ∷ 2 ∷ 3 ∷ []);
  sent = ipc_data_arrived (1 ∷ 2 ∷ []) ∷ ipc_data_end ∷ [];
  stopped = true;
}
unfolding get_file read_loop
stopped_test = refl

-- A stop that a new view takes back in the middle of a round leaves a hole in what is sent.
taken_back :
    (get_file 1
      (λ i. elim i [ zero ↦ (false, false) | suc k ↦ (true, false) ])
      (some bufs)
      none
      begun).sent
    ≡ ipc_data_arrived (3 ∷ []) ∷ ipc_data_arrived (4 ∷ []) ∷ ipc_data_end ∷ []
unfolding get_file read_loop
taken_back = refl

-- A file that cannot be opened: the page of the cache counts as loaded, and a message is shown.
unreadable : get_file 1 stops none none begun ≡ record begun {
  stack = record begun.stack { stack_top = 1 };
  sent = ipc_data_end ∷ [];
  stopped = true;
  shown = true;
}
unfolding get_file up_page_stack
unreadable = refl

abbrev top_after : ℕ × Stack → Out ℕ
top_after r = ok (get_file 2 stops none (some none) (record begun { stack = r.1 })).stack.stack_top

-- A new page, whose place on the stack is already counted, is counted again if its file cannot be opened.
counted_twice : (push_page_to_stack 2 7 (init_url_stack 2) >>= top_after) ≡ ok 2
unfolding push_page_to_stack init_url_stack get_file up_page_stack pagename
counted_twice = refl

bookmarks_test : start_get_file mode_bookmarks true 1 stops none none begun ≡ creates_bookmarks_menu
unfolding start_get_file
bookmarks_test = refl

abbrev gui : ViewGui
gui = record { cached = true; view_line = 0; pos_cur_ref = 3; is_position_data_present = true }

-- The second of the two links is chosen.
abbrev chosen : Page ℕ
chosen = record new_page { vd = record new_page.vd { view = record linked { pos_cur_ref = 3 } } }

abbrev window : Window ℕ
window = record {
  gui = gui;
  page = chosen;
  lines = record first_lines { view_line = 0 };
  seen = none_seen;
  names = [];
}

abbrev reopened : Window ℕ
reopened = record window { lines = first_lines }

abbrev named : Window ℕ
named = record reopened { names = (codes "a.oms", mode_file) ∷ [] }

abbrev address : Viewed
address = record { view_url = some (codes "a.oms"); view_url_mode = mode_file }

abbrev shown_stack : Stack
shown_stack = record { pages = zero_page ∷ zero_page ∷ []; stack_top = 1; unlinked = [] }

abbrev left_stack : Stack
left_stack = record shown_stack {
  pages = (record zero_page { view_line = 0; pos_cur_ref = 3 }) ∷ zero_page ∷ [];
}

abbrev left : Left
left = record {
  stack = left_stack;
  stopped = true;
  stops_inet = true;
  viewed = record address { view_url = none };
}

method2-on_data_end_example :
    (w2 : Window ℕ) × (on_data_end screen frame 9 true 9 address reopened ≡ ok w2)
    × (w2.lines.view_line ≡ 0)
    × ((page_view w2).pos_cur_ref ≡ 3)
unfolding method2 set_page_params current_page view_of name_window title_of redraw render_page
    check_line line_start is_hidden line_down search_next_display_line get_symbol_bitmap_width
    get_font_height
method2-on_data_end_example =
    method2-on_data_end screen frame 9 true 9 address address window reopened named _ shown_stack
      left_stack left [] zero_page (zero_page ∷ []) refl refl refl refl refl refl
      (record {
        is_present = refl;
        has_ref = refl;
        saved_known = omega arith;
        view_known = omega arith;
        few = omega arith;
      })
      refl (λ top. refl)

abbrev lines_and_bytes : Window ℕ → Out (Lines × Bytes)
lines_and_bytes w = ok (w.lines, w.page.oms)

-- The first byte of a page: the only line so far is empty, and the window stays at its top.
arrived_test :
    (on_data_arrived screen
        (0, none)
        stored
        phone
        frame
        9
        false
        10
        10
        (24 ∷ [])
        (record window { page = new_page; lines = no_lines })
      >>= lines_and_bytes)
    ≡ ok (record no_lines { lines_cache = first_line ∷ []; lines_cache_cap = 256 }, 24 ∷ [])
unfolding on_data_arrived data_arrived fill_lines line_down parse_loop search_next_display_line
    start_page redraw
arrived_test = refl

-- Nothing was remembered, and the address names no place in the page.
fresh_test :
    on_data_end screen frame 9 false 9
      (record { view_url = some (codes "0/a"); view_url_mode = mode_url })
      (record window {
        gui = record {
          cached = false;
          view_line = 0;
          pos_cur_ref = no_ref;
          is_position_data_present = false;
        };
      })
    ≡ ok (record window {
      gui = record {
        cached = false;
        view_line = 0;
        pos_cur_ref = no_ref;
        is_position_data_present = false;
      };
      names = (codes "a", mode_url) ∷ [];
    })
unfolding on_data_end name_window title_of behind_two to_saved_line to_saved_link to_local_link
    behind_hash below_window redraw
fresh_test = refl
