-- ===== src/Browser/Examples.antt =====
-- A browser with two pages on its stack.
use elfloader3_elfs_archive.Prelude.{
  ℕ, List, Option, Out, ◌>>=◌, ◌≡◌, refl, true, false, Bytes, [], ◌∷◌, ◌++◌, none, some, ok, fault,
  bad_pointer, arith,
}
use elfloader3_elfs_archive.Oms.Forms.{codes}
use elfloader3_elfs_archive.Encoding.Compare.{strcmp_nocase, fold_case}
use elfloader3_elfs_archive.Encoding.Compare.Laws.{CString}
use elfloader3_elfs_archive.PageStack.State.{
  Page, push_page_to_stack, zero_page, pop_page_from_stack, forward_page_from_stack, pagename,
  init_url_stack,
}
use elfloader3_elfs_archive.Startup.Address.{
  mode_none, split_at_last, parse_ending, parse_input_filename,
}
use elfloader3_elfs_archive.Browser.{
  no_data, method1, start_reading, Task, close_view, Browser, Phone, view_of, create_view_gui,
  maincsm_oncreate, maincsm_onclose, run_task, go_to_page, on_forward, on_reload, on_view_closed,
  on_goto_closed, on_bookmarks_closed, on_dialog_closed, on_gui_destroyed, on_goto_url,
  on_goto_file, on_message, advance, advance_all,
}
use elfloader3_elfs_archive.Browser.Back.{leaving, showing, advance_all-Back}
use elfloader3_elfs_archive.Browser.Names.{oms_file}

abbrev first_page : Page
first_page = record zero_page { id = 77; view_line = 12; pos_cur_ref = 3 }

abbrev second_page : Page
second_page = record zero_page { id = 78; view_line = 1; pos_cur_ref = 0 }

abbrev browser : Browser
browser = record {
  view_id = 5;
  goto_dialog = 0;
  sel_bmk = 0;
  main_menu_id = 0;
  is_open = true;
  terminated = false;
  goto_url = none;
  viewed = record { view_url = none; view_url_mode = mode_none };
  stack = record {
    pages = first_page ∷ second_page ∷ zero_page ∷ [];
    stack_top = 2;
    unlinked = [];
  };
  views = [];
  tasks = [];
  messages = [];
  stopped = true;
  begun = [];
}

abbrev phone : Phone
phone = record {
  files = λ fn. none;
  size = 2;
  file_name = λ id. codes "0:\\c\\" ++ (id ∷ codes ".oms");
  iday = 79;
}

abbrev stem : Bytes
stem = codes "0:\\c\\" ++ 77 ∷ []

is_name : CString (oms_file stem)
unfolding CString
is_name = ground arith

advance_all-Back_example :
    advance_all phone (0 ∷ 0 ∷ 6 ∷ 0 ∷ []) (leaving browser)
    ≡ ok (showing 6 (oms_file stem) first_page 0 browser)
advance_all-Back_example =
    advance_all-Back phone 0 0 6 0 browser stem [] first_page second_page (zero_page ∷ [])
      (record { no_goto = refl; no_bookmarks = refl; no_menu = refl }) refl refl refl refl is_name

abbrev opened : Browser → Out (ℕ × Option Bytes × List Task)
opened b = ok (b.view_id, b.viewed.view_url, b.tasks)

-- A bookmark that is a page: its window closes, then the view, and a new view is for the file, which is to
-- be read into a new page of the stack.
bookmark_opens :
    (advance_all phone (0 ∷ 0 ∷ 0 ∷ 9 ∷ []) (record browser {
      goto_url = some (codes "b.OMS");
      sel_bmk = 4;
      messages = close_view 4 0xfa ∷ [];
    })
      >>= opened)
    ≡ ok (9, some (codes "b.OMS"), start_reading (some 79) ∷ [])
unfolding advance_all advance on_message on_gui_destroyed on_view_closed on_dialog_closed
    on_bookmarks_closed run_task on_goto_file parse_input_filename parse_ending split_at_last
    strcmp_nocase fold_case create_view_gui method1 push_page_to_stack pagename view_of
bookmark_opens = refl

-- The page behind the top comes next.
forward_goes :
    on_forward phone (record browser { stack = record browser.stack { stack_top = 1 } })
    ≡ ok (go_to_page phone (some 78, record browser.stack { stack_top = 1 }) browser)
unfolding on_forward pop_page_from_stack forward_page_from_stack pagename go_to_page
forward_goes = refl

-- Nowhere to go: the browser closes.
reload_closes :
    on_reload browser
    ≡ ok (record browser { stack = record browser.stack { stack_top = 1 }; is_open = false })
unfolding on_reload pop_page_from_stack pagename
reload_closes = refl

-- A second message finds no address.
second_goto : on_goto_url phone 6 no_data browser ≡ fault bad_pointer
unfolding on_goto_url
second_goto = refl

dialog_goes :
    on_goto_closed 0xff (record browser { goto_dialog = 7 })
    ≡ record browser { messages = close_view 5 0xff ∷ [] }
unfolding on_goto_closed
dialog_goes = refl

created : (maincsm_oncreate phone 3 browser >>= opened) ≡ ok (3, none, start_reading (some 79) ∷ [])
unfolding maincsm_oncreate create_view_gui method1 push_page_to_stack pagename init_url_stack
    view_of
created = refl

ended : maincsm_onclose browser ≡ record browser { terminated = true }
unfolding maincsm_onclose
ended = refl
