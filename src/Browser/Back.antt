-- ===== src/Browser/Back.antt =====
-- From the button "Back" to the new window.
use elfloader3_elfs_archive.Prelude.{
  ℕ, ◌+◌, ◌≡◌, refl, sym, ap, ◌∙◌, true, false, Bytes, List, [], ◌∷◌, ◌++◌, append_assoc, some, ok,
  none, bad_index, or_fault, eq_bind, length, length-append, get_elem?, get_elem?-append_length,
  ◌==◌, eq→==, if_true, if_false, arith,
}
use elfloader3_elfs_archive.Encoding.Compare.Laws.{CString}
use elfloader3_elfs_archive.PageStack.State.{Page, Stack}
use elfloader3_elfs_archive.PageStack.Navigation.BackForward.{at_top, pop_page_from_stack-at}
use elfloader3_elfs_archive.Startup.Address.{mode_file}
use elfloader3_elfs_archive.Browser.{
  params, goto_file, start_reading, method1, ipc_goto_file, close_view, Browser, Phone, view_of,
  create_view_gui, run_task, go_to_page, on_back, on_view_closed, on_dialog_closed,
  on_gui_destroyed, on_goto_file, on_message, advance, advance_all,
}
use elfloader3_elfs_archive.Browser.Names.{oms_file, parse_input_filename-oms_file}

-- No window is open over the view.
pub record IsAlone (b : Browser) : Type 0 where
  pub no_goto : (b.view_id == b.goto_dialog) ≡ false
  pub no_bookmarks : (b.view_id == b.sel_bmk) ≡ false
  pub no_menu : (b.view_id == b.main_menu_id) ≡ false

on_dialog_closed-none :
    (id code : ℕ) (b : Browser)
    → (id == b.goto_dialog) ≡ false
    → (id == b.sel_bmk) ≡ false
    → (id == b.main_menu_id) ≡ false
    → on_dialog_closed id code b ≡ b
unfolding on_dialog_closed
on_dialog_closed-none id code b g s m = rw (g, s, m) refl

on_back-page :
    (p : Phone) (b : Browser) (front : List Page) (prev cur : Page) (rest : List Page)
    → b.stack.pages ≡ front ++ prev ∷ cur ∷ rest
    → b.stack.stack_top ≡ length front + 2
    → on_back p b ≡ ok (go_to_page p (some prev.id, at_top (length front) b.stack) b)
unfolding on_back
on_back-page p b front prev cur rest e t =
    let longer = length-append front (prev ∷ []) in
    eq_bind _ (
      pop_page_from_stack-at b.stack (front ++ prev ∷ []) cur rest
        (e ∙ sym (append_assoc front (prev ∷ []) (cur ∷ rest))) (omega (arith, t, longer)))
    ∙ eq_bind _ (
        pop_page_from_stack-at (at_top (length (front ++ prev ∷ [])) b.stack) front prev
          (cur ∷ rest) e (omega (arith, longer)))

on_gui_destroyed-back :
    (p : Phone) (b b' : Browser)
    → on_back p b ≡ ok b'
    → on_dialog_closed b.view_id 0xfe b' ≡ b'
    → on_gui_destroyed p b.view_id 0xfe b ≡ ok b'
unfolding on_gui_destroyed on_view_closed
on_gui_destroyed-back p b b' back alone =
    eq_bind _ (if_true (b.view_id == b.view_id) _ _ (eq→== b.view_id b.view_id refl) ∙ back)
    ∙ ap ok alone

view_of-page :
    (s : Stack) (front : List Page) (prev : Page) (rest : List Page)
    → s.pages ≡ front ++ prev ∷ rest
    → view_of true (params (length front)) s
      ≡ ok (record {
        cached = true;
        view_line = prev.view_line;
        pos_cur_ref = prev.pos_cur_ref;
        is_position_data_present = true;
      })
unfolding view_of
view_of-page s front prev rest e = eq_bind _ (
    ap (or_fault bad_index)
      (ap (λ ps. get_elem? ps (length front)) e ∙ get_elem?-append_length front prev rest))

-- The browser with a new window for a page, at the place where the user left it, and the helper process that
-- reads the page from its file.
abbrev pub showing : ℕ → Bytes → Page → ℕ → Browser → Browser
showing id fn page top b = record b {
  view_id = id;
  goto_url = none;
  viewed = record { view_url = some fn; view_url_mode = mode_file };
  stack = at_top top b.stack;
  views =
      b.views
      ++ record {
        cached = true;
        view_line = page.view_line;
        pos_cur_ref = page.pos_cur_ref;
        is_position_data_present = true;
      }
        ∷ [];
  tasks = [];
  messages = [];
  stopped = false;
  begun = b.begun ++ (none, record { view_url = some fn; view_url_mode = mode_file }) ∷ [];
}

-- The same before the helper process runs.
abbrev opening : ℕ → Bytes → Page → ℕ → Browser → Browser
opening id fn page top b = record (showing id fn page top b) {
  tasks = start_reading none ∷ [];
  begun = b.begun;
}

on_goto_file-page :
    (p : Phone) (id : ℕ) (b : Browser) (stem : Bytes) (front : List Page) (prev : Page)
    (rest : List Page)
    → b.stack.pages ≡ front ++ prev ∷ rest
    → CString (oms_file stem)
    → on_goto_file p id (params (length front)) (record b {
      goto_url = some (oms_file stem);
      stack = at_top (length front) b.stack;
      tasks = [];
      messages = [];
    })
      ≡ ok (opening id (oms_file stem) prev (length front) b)
unfolding on_goto_file create_view_gui method1
on_goto_file-page p id b stem front prev rest e c =
    eq_bind _ (parse_input_filename-oms_file p.files stem b.viewed c)
    ∙ eq_bind _ (view_of-page (at_top (length front) b.stack) front prev rest e)

-- The view has been closed for the page before the current one.
abbrev pub leaving : Browser → Browser
leaving b = record b { tasks = []; messages = close_view b.view_id 0xfe ∷ [] }

advance-close :
    (p : Phone) (id : ℕ) (b b' : Browser)
    → on_gui_destroyed p b.view_id 0xfe (record b { tasks = []; messages = [] }) ≡ ok b'
    → advance p id (leaving b) ≡ ok b'
unfolding advance on_message
advance-close p id b b' e = e

advance-task :
    (p : Phone) (id n : ℕ) (b : Browser)
    → b.terminated ≡ false
    → advance p id (record b { tasks = goto_file (params n) ∷ []; messages = [] })
      ≡ ok (record b { tasks = []; messages = ipc_goto_file (params n) ∷ [] })
unfolding advance run_task
advance-task p id n b running = ap ok (if_false b.terminated _ _ running)

advance-start_reading :
    (p : Phone) (k id : ℕ) (fn : Bytes) (page : Page) (top : ℕ) (b : Browser)
    → advance p k (opening id fn page top b) ≡ ok (showing id fn page top b)
unfolding advance run_task
advance-start_reading p k id fn page top b = refl

advance-goto_file :
    (p : Phone) (id n : ℕ) (b : Browser)
    → advance p id (record b { messages = ipc_goto_file (params n) ∷ [] })
      ≡ on_goto_file p id (params n) (record b { messages = [] })
unfolding advance on_message
advance-goto_file p id n b = refl

closed_back :
    (p : Phone) (b : Browser) (front : List Page) (prev cur : Page) (rest : List Page)
    → IsAlone b
    → b.stack.pages ≡ front ++ prev ∷ cur ∷ rest
    → b.stack.stack_top ≡ length front + 2
    → on_gui_destroyed p b.view_id 0xfe (record b { tasks = []; messages = [] })
      ≡ ok (record b {
        goto_url = some (p.file_name prev.id);
        stack = at_top (length front) b.stack;
        tasks = goto_file (params (length front)) ∷ [];
        messages = [];
      })
unfolding go_to_page
closed_back p b front prev cur rest alone e t =
    on_gui_destroyed-back p (record b { tasks = []; messages = [] }) _
      (on_back-page p (record b { tasks = []; messages = [] }) front prev cur rest e t)
      (on_dialog_closed-none b.view_id 0xfe _ alone.no_goto alone.no_bookmarks alone.no_menu)

-- "Back", with no other window open, nothing else waiting, a page before the current one, and a file
-- of that page whose name ends in ".oms": after the message of the window, its task, the program's message and
-- the task of the new window, that window is open with the line and the link where the user left the page,
-- nothing is stopped, the helper process has begun to read the page, without a file of the cache, at the
-- address that is the page's file, and the top of the stack stands at the page.
pub advance_all-Back :
    (p : Phone) (i j id k : ℕ) (b : Browser) (stem : Bytes) (front : List Page) (prev cur : Page)
    (rest : List Page)
    → IsAlone b
    → b.terminated ≡ false
    → b.stack.pages ≡ front ++ prev ∷ cur ∷ rest
    → b.stack.stack_top ≡ length front + 2
    → p.file_name prev.id ≡ oms_file stem
    → CString (oms_file stem)
    → advance_all p (i ∷ j ∷ id ∷ k ∷ []) (leaving b)
      ≡ ok (showing id (oms_file stem) prev (length front) b)
unfolding advance_all
advance_all-Back p i j id k b stem front prev cur rest alone running e t named c =
    let n = length front in
    let left : Browser = record b {
      goto_url = some (p.file_name prev.id);
      stack = at_top n b.stack;
      tasks = goto_file (params n) ∷ [];
      messages = [];
    } in
    let closed = closed_back p b front prev cur rest alone e t in
    let opened =
      advance-goto_file p id n (record left { tasks = [] })
      ∙ (ap
            (λ fn. on_goto_file p id (params n) (record b {
              goto_url = some fn;
              stack = at_top n b.stack;
              tasks = [];
              messages = [];
            }))
            named
          ∙ on_goto_file-page p id b stem front prev (cur ∷ rest) e c) in
    eq_bind _ (advance-close p i b left closed)
    ∙ (eq_bind _ (advance-task p j n left running)
        ∙ (eq_bind _ opened ∙ eq_bind _ (advance-start_reading p k id (oms_file stem) prev n b)))
