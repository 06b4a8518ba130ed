-- ===== src/Browser.antt =====
-- How the browser goes from page to page: the handlers of `maincsm_onmessage` in BalletMini/main.c for a
-- window that has closed and for the messages that the program sends to itself.
pub mod Names
pub mod Back
pub mod Arriving
pub mod Parts
pub mod Restored
pub mod Leaving
pub mod Examples
pub mod Arrivals
use elfloader3_elfs_archive.Prelude.{
  ℕ, ◌+◌, Bool, true, false, Bytes, List, [], ◌∷◌, ◌++◌, Option, none, some, Out, ok, fault,
  bad_index, bad_pointer, or_fault, ◌>>=◌, get_elem?, ◌==◌, if◌then◌else◌,
}
use elfloader3_elfs_archive.Encoding.Web.{to_web}
use elfloader3_elfs_archive.PageStack.State.{
  Stack, pop_page_from_stack, forward_page_from_stack, init_url_stack, push_page_to_stack,
}
use elfloader3_elfs_archive.Startup.Address.{Viewed, Files, mode_url, parse_input_filename}

-- The pointer that goes with a message: none, the number 0xFA, or the page at an index of the stack, which
-- is what `getPageParams` gives.
pub data PageData : Type 0 where
  no_data oms_bookmark : PageData
  params : ℕ → PageData

-- `VIEW_GUI`, as far as `CreateViewGUI` sets it.
pub record ViewGui : Type 0 where
  pub cached : Bool
  pub view_line : ℕ
  pub pos_cur_ref : ℕ
  pub is_position_data_present : Bool

-- `GotoLink`, `GotoFile` and `StartGetFile` with the page whose file is that of the cache, for the helper
-- process.
pub data Task : Type 0 where
  goto_link goto_file : PageData → Task
  start_reading : Option ℕ → Task

-- The messages of the program to itself, and that of a window that is closed with a code.
pub data Ipc : Type 0 where
  ipc_goto_url ipc_goto_file : PageData → Ipc
  close_view : ℕ → ℕ → Ipc

-- `MAIN_CSM` and the variables of main.c; 0 is the number of no window. `begun` lists the runs of `StartGetFile`,
-- with the address that they found.
pub record Browser : Type 0 where
  pub view_id : ℕ
  pub goto_dialog : ℕ
  pub sel_bmk : ℕ
  pub main_menu_id : ℕ
  pub is_open : Bool
  pub terminated : Bool
  pub goto_url : Option Bytes
  pub viewed : Viewed
  pub stack : Stack
  pub views : List ViewGui
  pub tasks : List Task
  pub messages : List Ipc
  pub stopped : Bool
  pub begun : List (Option ℕ × Viewed)

-- The file system, the number of pages that the stack holds, the name of a page's file, and the id that the clock
-- gives a page.
pub record Phone : Type 0 where
  pub files : Files
  pub size : ℕ
  pub file_name : ℕ → Bytes
  pub iday : ℕ

abbrev pub no_ref : ℕ
no_ref = 0xFFFF_FFFF

unfoldable pub view_of : Bool → PageData → Stack → Out ViewGui
view_of cached no_data s = ok (record {
  cached = cached;
  view_line = 0;
  pos_cur_ref = no_ref;
  is_position_data_present = false;
})
view_of cached oms_bookmark s = fault bad_pointer
view_of cached (params i) s = do
  p ← or_fault bad_index (get_elem? s.pages i)
  ok (record {
    cached = cached;
    view_line = p.view_line;
    pos_cur_ref = p.pos_cur_ref;
    is_position_data_present = true;
  })

abbrev pub subproc : Task → Browser → Browser
subproc t b = record b { tasks = b.tasks ++ t ∷ [] }

-- The page is read again, or it is a new one of the stack.
unfoldable pub method1 : Phone → Bool → Browser → Out Browser
method1 p true b = ok (subproc (start_reading none) (record b { stopped = false }))
method1 p false b = do
  r ← push_page_to_stack p.size p.iday b.stack
  ok (subproc (start_reading (some r.0)) (record b { stopped = false; stack = r.1 }))

-- `id` is the number that the phone gives the window, which runs `method1` when it is created.
unfoldable pub create_view_gui : Phone → ℕ → Bool → PageData → Browser → Out Browser
unfolding method1
create_view_gui p id cached data' b = do
  v ← view_of cached data' b.stack
  method1 p cached (record b { view_id = id; views = b.views ++ v ∷ [] })

-- `maincsm_oncreate`: an empty stack and a first window.
unfoldable pub maincsm_oncreate : Phone → ℕ → Browser → Out Browser
maincsm_oncreate p id b =
    create_view_gui p id false no_data
      (record b { goto_url = none; stack = init_url_stack p.size; is_open = true })

unfoldable pub maincsm_onclose : Browser → Browser
maincsm_onclose b = record b { terminated = true; goto_url = none }

-- `GotoLink` and `GotoFile` send their message unless the program has ended; `StartGetFile` begins.
unfoldable pub run_task : Task → Browser → Browser
run_task (goto_link data') b =
    if b.terminated then b else record b { messages = b.messages ++ ipc_goto_url data' ∷ [] }
run_task (goto_file data') b =
    if b.terminated then b else record b { messages = b.messages ++ ipc_goto_file data' ∷ [] }
run_task (start_reading name) b = record b { begun = b.begun ++ (name, b.viewed) ∷ [] }

-- `L_CLOSE`
abbrev pub close : Browser → Browser
close b = record b { is_open = false }

-- A page is read from its file, or the browser closes.
unfoldable pub go_to_page : Phone → Option ℕ × Stack → Browser → Browser
go_to_page p (none, s) b = close (record b { goto_url = none; stack = s })
go_to_page p (some id, s) b =
    subproc (goto_file (params s.stack_top))
      (record b { goto_url = some (p.file_name id); stack = s })

unfoldable pub on_forward : Phone → Browser → Out Browser
on_forward p b = do
  r ← pop_page_from_stack b.stack
  r' ← forward_page_from_stack p.size r.1
  ok (go_to_page p r' b)

unfoldable pub on_back : Phone → Browser → Out Browser
on_back p b = do
  r ← pop_page_from_stack b.stack
  r' ← pop_page_from_stack r.1
  ok (go_to_page p r' b)

abbrev pub if_address : Task → Browser → Browser
if_address t b = elim b.goto_url [ none ↦ close b | some url ↦ subproc t b ]

unfoldable pub on_reload : Browser → Out Browser
on_reload b = do
  r ← pop_page_from_stack b.stack
  let b' = record b { stack = r.1 }
  ok (if_address (goto_link (params b'.stack.stack_top)) b')

-- The window of the view has closed with a code.
unfoldable pub on_view_closed : Phone → ℕ → Browser → Out Browser
on_view_closed p code b =
    if code == 0xfd
    then on_forward p b
    else if code == 0xfe
    then on_back p b
    else if code == 0xfb
    then on_reload b
    else if code == 0xff
    then ok (if_address (goto_link no_data) b)
    else if code == 0xfa
    then ok (subproc (goto_file oms_bookmark) b)
    else ok (close b)

-- `GeneralFunc_flag1`
abbrev pub close_window : ℕ → Browser → Browser
close_window code b = record b { messages = b.messages ++ close_view b.view_id code ∷ [] }

unfoldable pub on_goto_closed : ℕ → Browser → Browser
on_goto_closed code b = record (if code == 0xff then close_window 0xff b else b) { goto_dialog = 0 }

unfoldable pub on_bookmarks_closed : ℕ → Browser → Browser
on_bookmarks_closed code b =
    record (if code == 0xff
      then close_window 0xff b
      else if code == 0xfa
      then close_window 0xfa b
      else b) { sel_bmk = 0 }

-- The windows over the view, after the view itself.
unfoldable pub on_dialog_closed : ℕ → ℕ → Browser → Browser
on_dialog_closed id code b =
    let b1 = if id == b.goto_dialog then on_goto_closed code b else b in
    let b2 = if id == b1.sel_bmk then on_bookmarks_closed code b1 else b1 in
    if id == b2.main_menu_id then record b2 { main_menu_id = 0 } else b2

-- `MSG_GUI_DESTROYED`
unfoldable pub on_gui_destroyed : Phone → ℕ → ℕ → Browser → Out Browser
on_gui_destroyed p id code b = do
  b' ← if id == b.view_id then on_view_closed p code b else ok b
  ok (on_dialog_closed id code b')

-- `IPC_GOTO_URL`
unfoldable pub on_goto_url : Phone → ℕ → PageData → Browser → Out Browser
on_goto_url p id data' b = do
  url ← or_fault bad_pointer b.goto_url
  create_view_gui p id false data' (record b {
    goto_url = none;
    viewed = record { view_url = some (to_web url true true); view_url_mode = mode_url };
  })

abbrev pub create_for_file : Phone → ℕ → PageData → Browser → Out Browser
create_for_file p id oms_bookmark b = create_view_gui p id false no_data b
create_for_file p id no_data b = create_view_gui p id true no_data b
create_for_file p id (params i) b = create_view_gui p id true (params i) b

-- `IPC_GOTO_FILE`
unfoldable pub on_goto_file : Phone → ℕ → PageData → Browser → Out Browser
on_goto_file p id data' b = do
  fn ← or_fault bad_pointer b.goto_url
  r ← parse_input_filename p.files fn b.viewed
  let b' = record b { viewed = r.0; goto_url = none }
  if r.1 then create_for_file p id data' b' else ok b'

-- One message of the queue; a window that it opens has the number `id`.
unfoldable pub on_message : Phone → ℕ → Ipc → Browser → Out Browser
on_message p id (ipc_goto_url data') b = on_goto_url p id data' b
on_message p id (ipc_goto_file data') b = on_goto_file p id data' b
on_message p id (close_view view code) b = on_gui_destroyed p view code b

-- The next thing that happens: a message that waits, or else a task of the helper process.
unfoldable pub advance : Phone → ℕ → Browser → Out Browser
advance p id b = elim b.messages [
  | m ∷ ms ↦ on_message p id m (record b { messages = ms })
  | [] ↦ elim b.tasks [ [] ↦ ok b | t ∷ ts ↦ ok (run_task t (record b { tasks = ts })) ]
]

-- So many of them, with the numbers of the windows that they open.
unfoldable pub advance_all : Phone → List ℕ → Browser → Out Browser
advance_all p [] b = ok b
advance_all p (id ∷ ids) b = do b' ← advance p id b; advance_all p ids b'
