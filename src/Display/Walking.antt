-- ===== src/Display/Walking.antt =====
-- What `RenderPage` makes of the links on the screen.
use elfloader3_elfs_archive.Prelude.{
  ℕ, zero, suc, ◌+◌, ◌≡◌, refl, sym, ◌∙◌, ap, Bool, true, false, List, ◌++◌, Out, ok, fault,
  bad_index, or_fault, ◌>>=◌, length, get_elem?, leb, ltb, ◌==◌, ◌&&◌, if◌then◌else◌,
}
use elfloader3_elfs_archive.Oms.State.{View}
use elfloader3_elfs_archive.Display.{Screen, Line}
use elfloader3_elfs_archive.Display.Layout.{sub_word}
use elfloader3_elfs_archive.Display.Lines.{Lines}
use elfloader3_elfs_archive.Display.Rendering.{
  Frame, Seen, none_seen, no_pos, begin_ref, end_ref, is_hidden, is_layout, is_colour, one_unit,
  one_more, render_units, check_line, line_start, render_line, Rendered, render_lines, Shown,
  render_page,
}
use elfloader3_elfs_archive.Display.Marks.{
  Mark, noted, noted-append, unit_marks, marks_in, marks_of_line, OnScreen, add_marks, marks_on,
  marks_on_screen,
}

-- Two tests whose branches are `g` of each other.
if_map {ℓ κ} :
    {A : Type ℓ} {B : Type κ} {x y : B} {x' y' : A} (g : A → B) (b : Bool)
    → x ≡ g x'
    → y ≡ g y'
    → (if b then x else y) ≡ g (if b then x' else y')
if_map g true h h' = h
if_map g false h h' = h'

-- Two runs of which the first is the second and then `g`.
bind_map {ℓ} :
    {A : Type ℓ} {B : Type ℓ} {C : Type ℓ} (m : Out A) (f : A → Out C) (f' : A → Out B)
    (g : B → Out C)
    → ((a : A) → f a ≡ f' a >>= g)
    → m >>= f ≡ (m >>= f') >>= g
bind_map (ok a) f f' g h = h a
bind_map (fault e) f f' g h = refl

and_off : (b off : Bool) → off ≡ false → b && off ≡ false
and_off true off h = h
and_off false off h = refl

off_and : (off b : Bool) → off ≡ false → off && b ≡ false
off_and true b h = cc
off_and false b h = refl

abbrev rendered : ℕ → Seen → OnScreen → Out Rendered
rendered cur x o = ok (record { lines = o.lines; lcheck = o.lcheck; seen = noted cur o.marks x })

module _ (f : Frame) (cur : ℕ) (off : f.cfg_invert_cursor ≡ false) where
  one_unit-marks :
      (hidden : Bool) (sc c : ℕ) (x : Seen)
      → one_unit f hidden cur sc c x
        ≡ (noted cur (unit_marks hidden sc c).0 x, (unit_marks hidden sc c).1)
  unfolding one_unit
  one_unit-marks hidden sc c x =
      let g : List Mark × Bool → Seen × Bool = λ r. (noted cur r.0 x, r.1) in
      if_map g (c == 0xE005)
        (if_map g hidden refl
          (ap (λ b. (begin_ref cur sc x, b)) (and_off (cur == sc) f.cfg_invert_cursor off)))
        (if_map g (c == 0xE004)
          (ap (λ b. (end_ref x, b)) (and_off (x.ena_ref == 1) f.cfg_invert_cursor off))
          (if_map g (is_layout c) refl refl))

  rest-noted :
      (ms : List Mark) (x : Seen) (m : Out (List Mark))
      → m >>= (λ ms'. ok (noted cur ms' (noted cur ms x)))
        ≡ (m >>= λ ms'. ok (ms ++ ms')) >>= λ all. ok (noted cur all x)
  rest-noted ms x (ok ms') = ap ok (sym (noted-append cur ms ms' x))
  rest-noted ms x (fault e) = refl

  abbrev after_unit : Bool → List ℕ → ℕ → ℕ → ℕ → ℕ → ℕ → Seen × Bool → Out Seen
  after_unit hidden text k sc len dc c r =
      let coloured : Out Seen = (do
        a ← or_fault bad_index (get_elem? text (sc + 1))
        b ← or_fault bad_index (get_elem? text (sc + 2))
        render_units f hidden cur text k (sc + 3) (sub_word len 3) (one_more r.1 dc + 2) r.0) in
      let rest = render_units f hidden cur text k (sc + 1) (sub_word len 1) (one_more r.1 dc) r.0 in
      if is_colour c then coloured else rest

  render_units-noted :
      (hidden : Bool) (text : List ℕ) (k sc len dc : ℕ) (x : Seen)
      → render_units f hidden cur text k sc len dc x
        ≡ marks_in hidden text k sc len dc >>= λ ms. ok (noted cur ms x)
  unfolding render_units
  render_units-noted hidden text zero sc len dc x = refl
  render_units-noted hidden text (suc k) sc len dc x =
      let g : List Mark → Out Seen = λ ms. ok (noted cur ms x) in
      let r : ℕ → List Mark × Bool = unit_marks hidden sc in
      let next : (c sc' len' dc' : ℕ)
          → render_units f hidden cur text k sc' len' dc' (noted cur (r c).0 x)
            ≡ (marks_in hidden text k sc' len' dc' >>= λ ms. ok ((r c).0 ++ ms)) >>= g =
        λ c sc' len' dc'.
          render_units-noted hidden text k sc' len' dc' (noted cur (r c).0 x)
          ∙ rest-noted (r c).0 x (marks_in hidden text k sc' len' dc') in
      if_map (λ (m : Out (List Mark)). m >>= g) (ltb 0 len && ltb dc 250)
        (bind_map (or_fault bad_index (get_elem? text sc)) _ _ g (λ c.
          ap (after_unit hidden text k sc len dc c) (one_unit-marks hidden sc c x)
          ∙ if_map (λ (m : Out (List Mark)). m >>= g) (is_colour c)
              (bind_map (or_fault bad_index (get_elem? text (sc + 1))) _ _ g (λ a.
                bind_map (or_fault bad_index (get_elem? text (sc + 2))) _ _ g
                  (λ b. next c (sc + 3) (sub_word len 3) (one_more (r c).1 dc + 2))))
              (next c (sc + 1) (sub_word len 1) (one_more (r c).1 dc))))
        refl

  render_line-noted :
      (v : View) (y vl : ℕ) (n : Lines) (lc : Line) (x : Seen)
      → render_line v f cur y vl n lc x ≡ marks_of_line v f y vl n lc >>= λ ms. ok (noted cur ms x)
  unfolding render_line
  render_line-noted v y vl n lc x =
      bind_map (line_start vl n.lines_cache) _ _ (λ ms. ok (noted cur ms x))
        (λ sc.
          ap
            (λ (b : Bool).
              render_units f (is_hidden f n.pixdisp y lc.pixheight) cur v.rawtext
                (length v.rawtext + 1) sc (sub_word lc.pos sc) (if b then 1 else 0) x)
            (off_and f.cfg_invert_cursor (ltb 0 x.ena_ref) off)
          ∙ render_units-noted (is_hidden f n.pixdisp y lc.pixheight) v.rawtext
              (length v.rawtext + 1) sc (sub_word lc.pos sc) 0 x)

  line-rendered :
      (x : Seen) (m : Out (List Mark)) (lines : Seen → Out Rendered) (rest : Out OnScreen)
      → ((x' : Seen) → lines x' ≡ rest >>= rendered cur x')
      → (m >>= λ ms. ok (noted cur ms x)) >>= lines
        ≡ (m >>= λ ms. rest >>= λ o. ok (add_marks ms o)) >>= rendered cur x
  line-rendered x (fault e) lines rest h = refl
  line-rendered x (ok ms) lines rest h = h (noted cur ms x) ∙ more ms x rest
    where
      more :
          (ms' : List Mark) (x' : Seen) (o : Out OnScreen)
          → o >>= rendered cur (noted cur ms' x')
            ≡ (o >>= λ r. ok (add_marks ms' r)) >>= rendered cur x'
      more ms' x' (ok r) =
          ap (λ (u : Seen). ok (record { lines = r.lines; lcheck = r.lcheck; seen = u }))
            (sym (noted-append cur ms' r.marks x'))
      more ms' x' (fault e) = refl

  render_lines-noted :
      (s : Screen) (v : View) (k y lcheck vl : ℕ) (n : Lines) (x : Seen)
      → render_lines s v f cur k y lcheck vl n x ≡ marks_on s v f k y lcheck vl n >>= rendered cur x
  unfolding render_lines
  render_lines-noted s v zero y lcheck vl n x = refl
  render_lines-noted s v (suc k) y lcheck vl n x =
      let g : Out OnScreen → Out Rendered = λ m. m >>= rendered cur x in
      if_map g (leb y (f.scr_h + n.pixdisp))
        (bind_map (check_line s v lcheck n) _ _ (rendered cur x) (λ r.
          if_map g (leb r.0 1 && ltb 0 (length r.1.lines_cache))
            (bind_map (or_fault bad_index (get_elem? r.1.lines_cache vl)) _ _ (rendered cur x)
              (λ lc.
                ap (λ m. m >>= render_lines s v f cur k (y + lc.pixheight) r.0 (vl + 1) r.1)
                  (render_line-noted v y vl r.1 lc x)
                ∙ line-rendered x (marks_of_line v f y vl r.1 lc) _
                    (marks_on s v f k (y + lc.pixheight) r.0 (vl + 1) r.1)
                    (λ x'. render_lines-noted s v k (y + lc.pixheight) r.0 (vl + 1) r.1 x')))
            refl))
        refl

-- What `RenderPage` leaves, from what the loop does, and from the marks on the screen.
abbrev left_by : Shown → Rendered → Out (Bool × Shown)
left_by w r = ok (
  if r.lcheck == 2 then false else true,
  record {
    lines = record r.lines { view_line = w.lines.view_line };
    seen = r.seen;
    pos_cur_ref = if r.seen.flag == 0 then no_pos else w.pos_cur_ref;
  },
)

abbrev pub finished : Shown → OnScreen → Out (Bool × Shown)
finished w o =
    let seen = noted w.pos_cur_ref o.marks none_seen in
    ok (
      if o.lcheck == 2 then false else true,
      record {
        lines = record o.lines { view_line = w.lines.view_line };
        seen = seen;
        pos_cur_ref = if seen.flag == 0 then no_pos else w.pos_cur_ref;
      },
    )

rendered-left :
    (w : Shown) (m : Out OnScreen)
    → (m >>= rendered w.pos_cur_ref none_seen) >>= left_by w ≡ m >>= finished w
rendered-left w (ok o) = refl
rendered-left w (fault e) = refl

-- With the setting that frames the chosen link instead of inverting it, `RenderPage` is a search for the
-- links on the screen, which does not depend on the chosen one, and a walk over these: faults, lines and all.
pub render_page-noted :
    (s : Screen) (v : View) (f : Frame) (fuel : ℕ) (w : Shown)
    → f.cfg_invert_cursor ≡ false
    → render_page s v f fuel w ≡ marks_on_screen s v f fuel w.lines >>= finished w
unfolding render_page
render_page-noted s v f fuel w off =
    ap (λ m. m >>= left_by w)
      (render_lines-noted f w.pos_cur_ref off s v fuel f.scr_shift 0 w.lines.view_line w.lines
        none_seen)
    ∙ rendered-left w (marks_on_screen s v f fuel w.lines)
