-- ===== src/Browser/Restored.antt =====
-- A page that has arrived again is shown where the user left it.
use mathlib.Core.Path.{subst}
use elfloader3_elfs_archive.Prelude.{
  ℕ, Bool, ◌^◌, ◌<◌, ◌≡◌, refl, sym, ap, ◌∙◌, true, false, Bytes, Option, none, some, Out, ok,
  ◌>>=◌, ◌++◌, bind-ok, ok-injective, eq_bind, length, ◌==◌, if_true, if_false, Option-cases, inl,
  inr,
}
use elfloader3_elfs_archive.Display.{Screen}
use elfloader3_elfs_archive.Display.Restoring.{restore_line-known}
use elfloader3_elfs_archive.Startup.Address.{Viewed}
use elfloader3_elfs_archive.Browser.{ViewGui, no_ref}
use elfloader3_elfs_archive.Oms.State.{View}
use elfloader3_elfs_archive.Display.Rendering.{Frame, Shown, none_seen, render_lines, render_page}
use elfloader3_elfs_archive.Browser.Arriving.{
  Window, redraw, title_of, set_cur_ref, page_view, name_window, to_saved_line, to_saved_link,
  below_window, on_data_end,
}

-- The window remembers a line and a link, and that line and the one in view are among those that are known.
pub record Remembers {Z : Type 0} (w : Window Z) : Type 0 where
  pub is_present : w.gui.is_position_data_present ≡ true
  pub has_ref : (w.gui.pos_cur_ref == no_ref) ≡ false
  pub saved_known : w.gui.view_line < length w.lines.lines_cache
  pub view_known : w.lines.view_line < length w.lines.lines_cache
  pub few : length w.lines.lines_cache < 2 ^ 31

-- The same page at that line and that link.
abbrev pub restored : {Z : Type 0} → Window Z → Window Z
restored w =
    set_cur_ref w.gui.pos_cur_ref
      (record w { lines = record w.lines { view_line = w.gui.view_line } })

module _ {Z : Type 0} where
  abbrev name_by : Viewed → Window Z → Option Bytes → Out (Window Z)
  name_by v w title = elim title [
    | some _ ↦ ok w
    | none ↦ (do t ← title_of v; ok (record w { names = w.names ++ t }))
  ]

  -- Naming changes no more than the names.
  pub name_window-names :
      (v : Viewed) (w w1 : Window Z) → name_window v w ≡ ok w1 → w1 ≡ record w { names = w1.names }
  unfolding name_window
  name_window-names v w w1 named = elim (Option-cases w.page.vd.title) [
    | inr (title, there) ↦
        let same : w ≡ w1 = ok-injective (sym (ap (name_by v w) there) ∙ named) in
        subst (λ (w' : Window Z). w' ≡ record w { names = w'.names }) same refl
    | inl untitled ↦
        let (names, titled, same) =
          bind-ok (title_of v) _ (sym (ap (name_by v w) untitled) ∙ named) in
        subst (λ (w' : Window Z). w' ≡ record w { names = w'.names }) (ok-injective same) refl
  ]

  name_window-Remembers :
      (v : Viewed) (w w1 : Window Z) → name_window v w ≡ ok w1 → Remembers w → Remembers w1
  name_window-Remembers v w w1 named r =
      subst Remembers (sym (name_window-names v w w1 named)) (record {
        is_present = r.is_present;
        has_ref = r.has_ref;
        saved_known = r.saved_known;
        view_known = r.view_known;
        few = r.few;
      })

-- Drawing a page leaves the line at the top of the screen, and the chosen link, if it is on the screen.
render_page-kept :
    (s : Screen) (v : View) (f : Frame) (fuel : ℕ) (w : Shown) (q : Bool × Shown)
    → render_page s v f fuel w ≡ ok q
    → (q.1.lines.view_line ≡ w.lines.view_line)
      × ((q.1.seen.flag == 0) ≡ false → q.1.pos_cur_ref ≡ w.pos_cur_ref)
unfolding render_page
render_page-kept s v f fuel w q drawn =
    let (r, lines, same) =
      bind-ok
        (render_lines s v f w.pos_cur_ref fuel f.scr_shift 0 w.lines.view_line w.lines none_seen) _
        drawn in
    subst
      (λ (q : Bool × Shown).
        (q.1.lines.view_line ≡ w.lines.view_line)
        × ((q.1.seen.flag == 0) ≡ false → q.1.pos_cur_ref ≡ w.pos_cur_ref))
      (ok-injective same) (refl, λ there. if_false _ _ _ there)

-- The window is the same but for what the drawing has found, and it is at the same line and link.
pub record Kept {Z : Type 0} (w w' : Window Z) : Type 0 where
  pub same_gui : w'.gui ≡ w.gui
  pub same_line : w'.lines.view_line ≡ w.lines.view_line
  pub same_link : (page_view w').pos_cur_ref ≡ (page_view w).pos_cur_ref

-- If it is on top, the chosen link is on the screen.
abbrev pub SeesLink : {Z : Type 0} → Bool → Window Z → Type 0
SeesLink on_top w = on_top ≡ true → (w.seen.flag == 0) ≡ false

redraw-Kept :
    {Z : Type 0} (s : Screen) (f : Frame) (rows : ℕ) (on_top : Bool) (w w' : Window Z)
    → redraw s f rows on_top w ≡ ok w'
    → SeesLink on_top w'
    → Kept w w'
unfolding redraw
redraw-Kept s f rows false w w' drawn sees =
    subst (Kept w) (ok-injective drawn)
      (record { same_gui = refl; same_line = refl; same_link = refl })
redraw-Kept s f rows true w w' drawn sees =
    let page : Shown = record {
      lines = w.lines;
      seen = w.seen;
      pos_cur_ref = (page_view w).pos_cur_ref;
    } in
    let (q, rendered, same) = bind-ok (render_page s (page_view w) f rows page) _ drawn in
    let (line, link) = render_page-kept s (page_view w) f rows page q rendered in
    let there = ap (λ (u : Window _). u.seen.flag == 0) (ok-injective same) ∙ sees refl in
    subst (Kept w) (ok-injective same)
      (record { same_gui = refl; same_line = line; same_link = link there })

module _ {Z : Type 0} (s : Screen) (f : Frame) (rows : ℕ) (on_top : Bool) where
  to_saved_line-restored :
      (w : Window Z)
      → Remembers w
      → to_saved_line s w ≡ ok (record w { lines = record w.lines { view_line = w.gui.view_line } })
  unfolding to_saved_line
  to_saved_line-restored w r =
      if_true w.gui.is_position_data_present _ _ r.is_present
      ∙ eq_bind _ (
          restore_line-known s (page_view w) w.gui.view_line w.lines r.saved_known r.view_known
            r.few)

  to_saved_link-restored :
      (fuel : ℕ) (v : Viewed) (w : Window Z)
      → (w.gui.pos_cur_ref == no_ref) ≡ false
      → to_saved_link s fuel v w ≡ ok (set_cur_ref w.gui.pos_cur_ref w)
  unfolding to_saved_link
  to_saved_link-restored fuel v w has_ref = if_false _ _ _ has_ref

  below_window-kept :
      (w : Window Z)
      → (w.gui.pos_cur_ref == no_ref) ≡ false
      → (page_view w).pos_cur_ref ≡ w.gui.pos_cur_ref
      → below_window s f rows on_top w ≡ ok w
  unfolding below_window
  below_window-kept w has_ref same = rw (same, has_ref) refl

  -- A window that remembers a line and a link, as the button "Back" opens it, all of its lines known so far as
  -- the saved one, and that, drawn at that line, has the link on the screen if it is on top: after
  -- IPC_DATA_END it is the window so drawn, in whichever direction the line lies.
  pub on_data_end-restored :
      (fuel : ℕ) (v : Viewed) (w w1 w2 : Window Z)
      → name_window v w ≡ ok w1
      → Remembers w
      → redraw s f rows on_top (restored w1) ≡ ok w2
      → SeesLink on_top w2
      → (on_data_end s f rows on_top fuel v w ≡ ok w2) × Kept (restored w1) w2
  unfolding on_data_end
  on_data_end-restored fuel v w w1 w2 named r drawn sees =
      let r1 = name_window-Remembers v w w1 named r in
      let kept = redraw-Kept s f rows on_top (restored w1) w2 drawn sees in
      let same_ref = ap (λ (g : ViewGui). g.pos_cur_ref) kept.same_gui in
      let has_ref = ap (λ ref. ref == no_ref) same_ref ∙ r1.has_ref in
      (
        eq_bind _ named
            ∙ (eq_bind _ (to_saved_line-restored w1 r1)
                ∙ (eq_bind _ (to_saved_link-restored fuel v _ r1.has_ref)
                    ∙ (eq_bind _ drawn
                        ∙ below_window-kept w2 has_ref (kept.same_link ∙ sym same_ref)))),
        kept,
      )
