-- ===== src/Display/Links.antt =====
-- From link to link with the two keys.
use elfloader3_elfs_archive.Prelude.{
  ℕ, ◌≡◌, refl, ap, ◌∙◌, Bool, true, false, List, Out, ok, ◌>>=◌, eq_bind, ◌==◌, ◌&&◌,
  if◌then◌else◌, if_false, arith,
}
use elfloader3_elfs_archive.Oms.State.{View}
use elfloader3_elfs_archive.Display.{Screen}
use elfloader3_elfs_archive.Display.Rendering.{Frame, none_seen, no_pos, Shown, render_page}
use elfloader3_elfs_archive.Display.Keys.{choose, key_scroll_up, key_scroll_down}
use elfloader3_elfs_archive.Display.Marks.{Mark, noted, OnScreen, marks_on_screen}
use elfloader3_elfs_archive.Display.Walking.{finished, render_page-noted}
use elfloader3_elfs_archive.Display.Chosen.{
  IsElsewhere, AreEnds, screen_marks, noted_next, noted_prev,
}

first_off : (off b : Bool) → off ≡ false → off && b ≡ false
first_off true b h = cc
first_off false b h = refl

-- The page with the link `c` chosen, once it has been drawn.
abbrev at_link : ℕ → Shown → OnScreen → Shown
at_link c w o = record {
  lines = record o.lines { view_line = w.lines.view_line };
  seen = noted c o.marks none_seen;
  pos_cur_ref = c;
}

abbrev not_at_end : OnScreen → Bool
not_at_end o = if o.lcheck == 2 then false else true

module _ (s : Screen) (v : View) (f : Frame) (fuel : ℕ) where
  drawn :
      (c : ℕ) (w : Shown) (o : OnScreen)
      → f.cfg_invert_cursor ≡ false
      → marks_on_screen s v f fuel w.lines ≡ ok o
      → ((noted c o.marks none_seen).flag == 0) ≡ false
      → render_page s v f fuel (choose c w) ≡ ok (not_at_end o, at_link c w o)
  drawn c w o off seen on =
      render_page-noted s v f fuel (choose c w) off
      ∙ (eq_bind (finished (choose c w)) seen
          ∙ ap (λ ref. ok (not_at_end o, choose ref (at_link c w o))) (if_false _ _ _ on))

  key_scroll_down_next :
      (w : Shown)
      → (w.pos_cur_ref == no_pos) ≡ false
      → (w.seen.pos_next_ref == no_pos) ≡ false
      → key_scroll_down s v f fuel w ≡ ok (choose w.seen.pos_next_ref w)
  unfolding key_scroll_down
  key_scroll_down_next w chosen next =
      if_false _ _ _ (first_off (w.pos_cur_ref == no_pos) _ chosen) ∙ if_false _ _ _ next

  key_scroll_up_prev :
      (w : Shown)
      → (w.pos_cur_ref == no_pos) ≡ false
      → (w.seen.pos_prev_ref == no_pos) ≡ false
      → key_scroll_up s v f fuel w ≡ ok (choose w.seen.pos_prev_ref w)
  unfolding key_scroll_up
  key_scroll_up_prev w chosen prev =
      if_false _ _ _ (first_off (w.pos_cur_ref == no_pos) _ chosen) ∙ if_false _ _ _ prev

-- A page that was drawn, the key down, the page again, and the key up.
abbrev pub down_and_up : Screen → View → Frame → ℕ → Shown → Out (ℕ × ℕ)
down_and_up s v f fuel w = do
  q ← render_page s v f fuel w
  w1 ← key_scroll_down s v f fuel q.1
  q' ← render_page s v f fuel w1
  w2 ← key_scroll_up s v f fuel q'.1
  ok (w1.pos_cur_ref, w2.pos_cur_ref)

-- Two links `a` and `b` on the screen, one after the other, the first of them chosen, each only once there,
-- and the cursor a frame: when the page has been drawn, the key down chooses `b`, and when it has been drawn
-- again, with the same links on the screen, the key up chooses `a` again.
pub down_and_up-links :
    (s : Screen) (v : View) (f : Frame) (fuel : ℕ) (w : Shown) (o o' : OnScreen) (front : List Mark)
    (a : ℕ) (mid : List Mark) (b : ℕ) (rest : List Mark)
    → f.cfg_invert_cursor ≡ false
    → (a == no_pos) ≡ false
    → (b == no_pos) ≡ false
    → (a == b) ≡ false
    → AreEnds mid
    → IsElsewhere a rest
    → IsElsewhere b front
    → marks_on_screen s v f fuel w.lines ≡ ok o
    → o.marks ≡ screen_marks front a mid b rest
    → marks_on_screen s v f fuel (record o.lines { view_line = w.lines.view_line }) ≡ ok o'
    → o'.marks ≡ o.marks
    → down_and_up s v f fuel (choose a w) ≡ ok (b, a)
down_and_up-links s v f fuel w o o' front a mid b rest off is_a is_b ne ends behind before seen
      there seen' same =
    let marks : List Mark = screen_marks front a mid b rest in
    let (next, two) = noted_next front a mid b rest none_seen ends ne behind in
    let (prev, on) =
      noted_prev front a mid b rest none_seen refl before ends (ground (arith, ne)) in
    let w1 = at_link a w o in
    let w2 = at_link b w1 o' in
    let next1 : w1.seen.pos_next_ref ≡ b =
      ap (λ ms. (noted a ms none_seen).pos_next_ref) there ∙ next in
    let prev2 : w2.seen.pos_prev_ref ≡ a =
      ap (λ ms. (noted b ms none_seen).pos_prev_ref) (same ∙ there) ∙ prev in
    let on1 : (w1.seen.flag == 0) ≡ false =
      ap (λ ms. (noted a ms none_seen).flag == 0) there ∙ ap (λ n. n == 0) two in
    let on2 : (w2.seen.flag == 0) ≡ false =
      ap (λ ms. (noted b ms none_seen).flag == 0) (same ∙ there) ∙ on in
    let down : key_scroll_down s v f fuel w1 ≡ ok (choose b w1) =
      key_scroll_down_next s v f fuel w1 is_a (ap (λ n. n == no_pos) next1 ∙ is_b)
      ∙ ap (λ n. ok (choose n w1)) next1 in
    let up : key_scroll_up s v f fuel w2 ≡ ok (choose a w2) =
      key_scroll_up_prev s v f fuel w2 is_b (ap (λ n. n == no_pos) prev2 ∙ is_a)
      ∙ ap (λ n. ok (choose n w2)) prev2 in
    eq_bind _ (drawn s v f fuel a w o off seen on1)
    ∙ (eq_bind _ down ∙ (eq_bind _ (drawn s v f fuel b w1 o' off seen' on2) ∙ eq_bind _ up))
