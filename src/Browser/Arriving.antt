-- ===== src/Browser/Arriving.antt =====
-- A page comes into its window: `StartGetFile` in BalletMini/main.c, which reads it from a file, and the
-- handlers of IPC_DATA_ARRIVED and IPC_DATA_END there, which draw the window if it is on top (`method0`).
use elfloader3_elfs_archive.Prelude.{
  ℕ, suc, Bool, true, false, Bytes, List, [], ◌∷◌, ◌++◌, Option, none, some, Out, ok, fault,
  bad_pointer, read_past_end, ◌>>=◌, or_fault, length, ◌==◌, ◌&&◌, not, if◌then◌else◌,
}
use elfloader3_elfs_archive.Oms.State.{View, Env}
use elfloader3_elfs_archive.Oms.Loop.{Page, Inflated, data_arrived}
use elfloader3_elfs_archive.Display.{Screen}
use elfloader3_elfs_archive.Display.Lines.{Lines, line_down}
use elfloader3_elfs_archive.Display.Rendering.{Frame, Seen, render_page}
use elfloader3_elfs_archive.Display.Position.{restore_line, fill_lines, go_to_local_link_pos}
use elfloader3_elfs_archive.PageStack.State.{Stack, up_page_stack}
use elfloader3_elfs_archive.Startup.Address.{
  InputMode, mode_file, mode_url, mode_bookmarks, mode_none, Viewed,
}
use elfloader3_elfs_archive.Browser.{ViewGui, no_ref}

-- A message to the program itself.
pub data Arrival : Type 0 where
  ipc_data_arrived : Bytes → Arrival
  ipc_data_end : Arrival

-- `sent` holds the messages, `cache` what the file of the cache holds, if it could be opened, and `shown` says
-- whether the message was shown that the file cannot be opened.
pub record Getting : Type 0 where
  pub stack : Stack
  pub cache : Option Bytes
  pub sent : List Arrival
  pub stopped : Bool
  pub shown : Bool

-- What a round finds of TERMINATED and STOPPED: whether it may send its part, and whether it is the last.
abbrev pub Flags : Type 0
Flags = ℕ → Bool × Bool

abbrev pub write_part : Bytes → Getting → Getting
write_part buf g = record g { cache = elim g.cache [ none ↦ none | some s ↦ some (s ++ buf) ] }

abbrev pub send_part : Arrival → Getting → Getting
send_part m g = record g { sent = g.sent ++ m ∷ [] }

-- The loop on `_read`, from what each call of it leaves in the buffer.
unfoldable pub read_loop : Flags → ℕ → List Bytes → Getting → Getting
read_loop flags i [] g = g
read_loop flags i (buf ∷ bufs) g =
    let g1 = write_part buf g in
    let g2 = if (flags i).0 then send_part (ipc_data_arrived buf) g1 else g1 in
    let rest = read_loop flags (suc i) bufs g2 in
    if length buf == 0 then g else if (flags i).1 then g2 else rest

abbrev pub read_ended : Getting → Getting
read_ended g = send_part ipc_data_end (record g { stopped = true })

-- `view_url_mode==MODE_FILE`: what the file gives, if it can be opened, and whether there is a name for the
-- cache, with what is in the file of that name once it is opened.
unfoldable pub get_file :
    ℕ → Flags → Option (List Bytes) → Option (Option Bytes) → Getting → Getting
unfolding read_loop
get_file size flags none fncache g =
    read_ended (record g { stack = up_page_stack size g.stack; shown = true })
get_file size flags (some bufs) none g =
    read_ended
      (read_loop flags 0 bufs (record g { stack = up_page_stack size g.stack; cache = none }))
get_file size flags (some bufs) (some opened) g =
    read_ended (read_loop flags 0 bufs (record g { cache = opened }))

-- What `StartGetFile` does by the mode: it reads a file, starts the connection, opens the window of the
-- bookmarks and stops, or does nothing.
pub data GetFile : Type 0 where
  got : Getting → GetFile
  starts_inet : GetFile
  creates_bookmarks_menu : GetFile
  nothing : GetFile

-- `is_open` says whether the program's window is there.
unfoldable pub start_get_file :
    InputMode → Bool → ℕ → Flags → Option (List Bytes) → Option (Option Bytes) → Getting → GetFile
unfolding get_file
start_get_file mode_file is_open size flags file fncache g =
    got (get_file size flags file fncache g)
start_get_file mode_url is_open size flags file fncache g = starts_inet
start_get_file mode_bookmarks is_open size flags file fncache g =
    if is_open then creates_bookmarks_menu else nothing
start_get_file mode_none is_open size flags file fncache g = nothing

-- The window of the page; `names` lists what `UpdateCSMname` was given.
pub record Window (Z : Type 0) : Type 0 where
  pub gui : ViewGui
  pub page : Page Z
  pub lines : Lines
  pub seen : Seen
  pub names : List (Bytes × InputMode)

-- `strchr(s, '#')+1`
unfoldable pub behind_hash : Bytes → Option Bytes
behind_hash [] = none
behind_hash (c ∷ s) = let rest = behind_hash s in if c == 35 then some s else rest

-- `view_url+2`
unfoldable pub behind_two : Option Bytes → Out Bytes
behind_two none = fault bad_pointer
behind_two (some (a ∷ b ∷ s)) = ok s
behind_two (some _) = fault read_past_end

unfoldable pub title_of : Viewed → Out (List (Bytes × InputMode))
unfolding behind_two
title_of v = elim v.view_url_mode [
  | mode_url ↦ (do s ← behind_two v.view_url; ok ((s, mode_url) ∷ []))
  | mode_file ↦ (do s ← or_fault bad_pointer v.view_url; ok ((s, mode_file) ∷ []))
  | _ ↦ ok []
]

module _ {Z : Type 0} where
  abbrev pub page_view : Window Z → View
  page_view w = w.page.vd.view

  abbrev pub set_cur_ref : ℕ → Window Z → Window Z
  set_cur_ref ref w =
      let vd = w.page.vd in
      let v = vd.view in
      record w { page = record w.page { vd = record vd { view = record v { pos_cur_ref = ref } } } }

  unfoldable pub name_window : Viewed → Window Z → Out (Window Z)
  unfolding title_of
  name_window v w = elim w.page.vd.title [
    | some _ ↦ ok w
    | none ↦ (do t ← title_of v; ok (record w { names = w.names ++ t }))
  ]

module _ {Z : Type 0} (s : Screen) where
  -- The line that the user left.
  unfoldable pub to_saved_line : Window Z → Out (Window Z)
  to_saved_line w =
      if w.gui.is_position_data_present
      then (do
        n ← restore_line s (page_view w) w.gui.view_line w.lines
        ok (record w { lines = n }))
      else ok w

  abbrev pub to_anchor : ℕ → Option Bytes → Window Z → Out (Window Z)
  to_anchor fuel none w = ok w
  to_anchor fuel (some anchor) w = do
    n ← go_to_local_link_pos s (page_view w) fuel w.page.oms anchor w.lines
    ok (record w { lines = n })

  unfoldable pub to_local_link : ℕ → Viewed → Window Z → Out (Window Z)
  unfolding behind_two behind_hash
  to_local_link fuel v w = elim v.view_url_mode [
    | mode_url ↦ (do u ← behind_two v.view_url; to_anchor fuel (behind_hash u) w)
    | _ ↦ ok w
  ]

  -- The link that the user left, or the place in the page that the address names.
  unfoldable pub to_saved_link : ℕ → Viewed → Window Z → Out (Window Z)
  unfolding to_local_link
  to_saved_link fuel v w =
      if w.gui.pos_cur_ref == no_ref
      then to_local_link fuel v w
      else ok (set_cur_ref w.gui.pos_cur_ref w)

-- `DirectRedrawGUI`, if the window is on top: `method0` renders the page, in at most so many rounds.
unfoldable pub redraw : {Z : Type 0} → Screen → Frame → ℕ → Bool → Window Z → Out (Window Z)
redraw s f rows false w = ok w
redraw s f rows true w = do
  q ←
      render_page s (page_view w) f rows
        (record { lines = w.lines; seen = w.seen; pos_cur_ref = (page_view w).pos_cur_ref })
  ok (set_cur_ref q.1.pos_cur_ref (record w { lines = q.1.lines; seen = q.1.seen }))

module _ {Z : Type 0} (s : Screen) (f : Frame) (rows : ℕ) (on_top : Bool) where
  -- The link is below the window: one line down.
  unfoldable pub below_window : Window Z → Out (Window Z)
  unfolding redraw
  below_window w =
      if not (w.gui.pos_cur_ref == no_ref) && (page_view w).pos_cur_ref == no_ref
      then (do
        r ← line_down s (page_view w) w.lines
        redraw s f rows on_top (set_cur_ref w.gui.pos_cur_ref (record w { lines = r.1 })))
      else ok w

  -- IPC_DATA_END, in a window that is open.
  unfoldable pub on_data_end : ℕ → Viewed → Window Z → Out (Window Z)
  unfolding name_window to_saved_line to_saved_link below_window redraw
  on_data_end fuel v w = do
    w1 ← name_window v w
    w2 ← to_saved_line s w1
    w3 ← to_saved_link s fuel v w2
    w4 ← redraw s f rows on_top w3
    below_window w4

-- With the phone's ZLib.
module _ {Z : Type 0} (s : Screen) (inflate_init2 : Z × Option Bytes)
    (inflate : Z → Bytes → ℕ → Inflated Z) (env : Env) (f : Frame) (rows : ℕ) (on_top : Bool) where
  -- IPC_DATA_ARRIVED, in a window that is open: the lines are found to the end of the text.
  unfoldable pub on_data_arrived : ℕ → ℕ → Bytes → Window Z → Out (Window Z)
  on_data_arrived rounds fuel buf w = do
    page ← data_arrived inflate_init2 inflate env rounds w.page buf
    n ← fill_lines s page.vd.view fuel w.lines
    redraw s f rows on_top
        (record w { page = page; lines = record n { view_line = w.lines.view_line } })
