-- ===== src/Browser/Leaving.antt =====
-- `method2` in BalletMini/main.c, by which a view goes, and what the next view of its page shows.
use elfloader3_elfs_archive.Prelude.{
  ℕ, ◌+◌, ◌-◌, ◌≡◌, sym, ap, ◌∙◌, Bool, true, List, ◌∷◌, ◌++◌, none, some, Out, ok, bad_index,
  or_fault, ◌>>=◌, ok-injective, eq_bind, length, get_elem?, set, get_elem?-append_length,
  set-append_length, ◌==◌, if_false, arith,
}
use elfloader3_elfs_archive.PageStack.State.{Page, Stack}
use elfloader3_elfs_archive.PageStack.Forms.{current_page, set_page_params}
use elfloader3_elfs_archive.Display.{Screen}
use elfloader3_elfs_archive.Display.Rendering.{Frame}
use elfloader3_elfs_archive.Startup.Address.{Viewed}
use elfloader3_elfs_archive.Browser.{ViewGui, params, view_of}
use elfloader3_elfs_archive.Browser.Arriving.{Window, redraw, page_view, name_window, on_data_end}
use elfloader3_elfs_archive.Browser.Restored.{
  Remembers, restored, SeesLink, on_data_end-restored, name_window-names,
}

-- STOPPED, whether `StopINET` is handed to the helper process, the page stack and the address.
pub record Left : Type 0 where
  pub stack : Stack
  pub stopped : Bool
  pub stops_inet : Bool
  pub viewed : Viewed

-- The view's own memory is freed, too.
unfoldable pub method2 : {Z : Type 0} → Window Z → Viewed → Stack → Out Left
method2 w v st = do
  st' ← set_page_params w.lines.view_line (page_view w).pos_cur_ref st
  ok (record {
    stack = st';
    stopped = true;
    stops_inet = true;
    viewed = record v { view_url = none };
  })

abbrev left_at : ℕ → ℕ → Page → Page
left_at line ref p = record p { view_line = line; pos_cur_ref = ref }

set_page_params-at :
    (line ref : ℕ) (st : Stack) (front : List Page) (p : Page) (rest : List Page)
    → st.pages ≡ front ++ p ∷ rest
    → st.stack_top ≡ length front + 1
    → set_page_params line ref st ≡ ok (record st { pages = front ++ left_at line ref p ∷ rest })
unfolding set_page_params current_page
set_page_params-at line ref st front p rest e top =
    let place : st.stack_top - 1 ≡ length front = omega (arith, top) in
    let there : get_elem? st.pages (st.stack_top - 1) ≡ some p =
      ap (get_elem? st.pages) place
      ∙ (ap (λ ps. get_elem? ps (length front)) e ∙ get_elem?-append_length front p rest) in
    let changed : set st.pages (st.stack_top - 1) (left_at line ref p)
        ≡ front ++ left_at line ref p ∷ rest =
      ap (λ i. set st.pages i (left_at line ref p)) place
      ∙ (ap (λ ps. set ps (length front) (left_at line ref p)) e
          ∙ set-append_length front p (left_at line ref p) rest) in
    eq_bind _
      (if_false (st.stack_top == 0) _ _ (ground (arith, top)) ∙ ap (or_fault bad_index) there)
    ∙ ap (λ ps. ok (record st { pages = ps })) changed

-- What the view of the page is given by `CreateViewGUI`, if the page is still at its place of the stack.
abbrev gui_at : ℕ → ℕ → ViewGui
gui_at line ref = record {
  cached = true;
  view_line = line;
  pos_cur_ref = ref;
  is_position_data_present = true;
}

method2-stack :
    {Z : Type 0} (w : Window Z) (v : Viewed) (st : Stack) (left : Left) (front : List Page)
    (p : Page) (rest : List Page)
    → st.pages ≡ front ++ p ∷ rest
    → st.stack_top ≡ length front + 1
    → method2 w v st ≡ ok left
    → left.stack.pages ≡ front ++ left_at w.lines.view_line (page_view w).pos_cur_ref p ∷ rest
unfolding method2
method2-stack w v st left front p rest e top gone =
    ap (λ (l : Left). l.stack.pages)
      (ok-injective (
        sym gone
        ∙ eq_bind _
            (set_page_params-at w.lines.view_line (page_view w).pos_cur_ref st front p rest e top)))

view_of-left :
    (line ref : ℕ) (st : Stack) (front : List Page) (p : Page) (rest : List Page)
    → st.pages ≡ front ++ left_at line ref p ∷ rest
    → view_of true (params (length front)) st ≡ ok (gui_at line ref)
unfolding view_of
view_of-left line ref st front p rest e = eq_bind _ (
    ap (or_fault bad_index) (
      ap (λ ps. get_elem? ps (length front)) e
      ∙ get_elem?-append_length front (left_at line ref p) rest))

-- A view of the current page goes; another view opens for the page while it is still on the stack as it was
-- left, and its page arrives, so that the line that was in view and the one that is are known. If the drawing of
-- the page at the saved line returns, and, where the window is on top, finds the saved link on the screen,
-- then after IPC_DATA_END the new view is at the line and the link where the old one was.
pub method2-on_data_end :
    {Z : Type 0} (s : Screen) (f : Frame) (rows : ℕ) (on_top : Bool) (fuel : ℕ) (v v' : Viewed)
    (w w' w1 drawn : Window Z) (st st' : Stack) (left : Left) (front : List Page) (p : Page)
    (rest : List Page)
    → st.pages ≡ front ++ p ∷ rest
    → st.stack_top ≡ length front + 1
    → method2 w v st ≡ ok left
    → st'.pages ≡ left.stack.pages
    → view_of true (params (length front)) st' ≡ ok w'.gui
    → name_window v' w' ≡ ok w1
    → Remembers w'
    → redraw s f rows on_top (restored w1) ≡ ok drawn
    → SeesLink on_top drawn
    → (w2 : Window Z) × (on_data_end s f rows on_top fuel v' w' ≡ ok w2)
      × (w2.lines.view_line ≡ w.lines.view_line)
      × ((page_view w2).pos_cur_ref ≡ (page_view w).pos_cur_ref)
method2-on_data_end {Z = Z} s f rows on_top fuel v v' w w' w1 drawn st st' left front p rest e top
      gone stays opened named r draws sees =
    let pages = stays ∙ method2-stack w v st left front p rest e top gone in
    let gui = ok-injective (sym opened ∙ view_of-left _ _ st' front p rest pages) in
    let same = ap (λ (u : Window Z). u.gui) (name_window-names v' w' w1 named) in
    let (ended, kept) =
      on_data_end-restored s f rows on_top fuel v' w' w1 drawn named r draws sees in
    (
      drawn,
      ended,
      kept.same_line ∙ ap (λ (g : ViewGui). g.view_line) (same ∙ gui),
      kept.same_link ∙ ap (λ (g : ViewGui). g.pos_cur_ref) (same ∙ gui),
    )
