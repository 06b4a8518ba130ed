-- ===== src/Display/Ends.antt =====
-- `SearchNextDisplayLine` ends.
use elfloader3_elfs_archive.Prelude.{
  ℕ, zero, suc, ◌+◌, ◌-◌, ◌*◌, ◌/◌, ◌≤◌, ◌<◌, ◌≡◌, refl, Bool, List, [], ◌∷◌, Option, none, some,
  Out, Fault, bad_index, out_of_fuel, or_fault, Avoids, returns, faults, Avoids-bind, length,
  get_elem?, if_intro, ltb, leb, ◌==◌, ◌&&◌, ◌||◌, Option-cases, inl, inr, arith,
}
use elfloader3_elfs_archive.Oms.State.{View, Picture}
use elfloader3_elfs_archive.Display.{
  Screen, Line, is_picture, search_pictures, get_symbol_bitmap_width, get_bitmap_height,
}
use elfloader3_elfs_archive.Display.Layout.{
  sub_word, Control, skip, ends, symbol, colours, set_ink, set_paper, control, back_ref, back_text,
  go_back_by, alone, char_height, Placed, line_ends, goes_on, place, after_place, after_control,
  one_character, search_loop, search_next_display_line,
}

abbrev pub IsFuel : Fault → Type 0
IsFuel f = f ≡ out_of_fuel

or_fault-Avoids :
    {A : Type 0} (o : Option A) → Avoids IsFuel (λ (a : A). Unit) (or_fault bad_index o)
or_fault-Avoids none = faults (λ e. cc)
or_fault-Avoids (some a) = returns tt

pictures-Avoids :
    (c : ℕ) (ps : List Picture)
    → Avoids IsFuel (λ (o : Option Picture). Unit) (search_pictures c ps)
unfolding search_pictures
pictures-Avoids c [] = faults (λ e. cc)
pictures-Avoids c (p ∷ ps) = returns tt

width-Avoids :
    (s : Screen) (v : View) (c : ℕ) (bold : Bool)
    → Avoids IsFuel (λ (n : ℕ). Unit) (get_symbol_bitmap_width s v c bold)
unfolding get_symbol_bitmap_width
width-Avoids s v c bold =
    if_intro (Avoids IsFuel (λ (n : ℕ). Unit)) (is_picture c)
      (Avoids-bind (pictures-Avoids c v.dynpng_list) (λ o u. returns tt)) (returns tt)

height-Avoids :
    (s : Screen) (v : View) (c : ℕ) (p : Line)
    → Avoids IsFuel (λ (n : ℕ). Unit) (char_height s v c p)
unfolding get_bitmap_height
height-Avoids s v c p =
    if_intro (Avoids IsFuel (λ (n : ℕ). Unit)) (is_picture c)
      (Avoids-bind (pictures-Avoids c v.dynpng_list) (λ o u. returns tt)) (returns tt)

-- A control character goes on to no place before the next one.
abbrev Later : ℕ → Control → Type 0
Later place (skip q) = place ≤ q.pos
Later place (ends q) = Unit
Later place symbol = Unit

colours-Avoids :
    (v : View) (p : Line) (f : ℕ → ℕ → Line → Line)
    → ((a b : ℕ) (q : Line) → (f a b q).pos ≡ q.pos)
    → Avoids IsFuel (Later p.pos) (colours v p f)
unfolding colours
colours-Avoids v p f same =
    if_intro (Avoids IsFuel (Later p.pos)) (ltb (sub_word (length v.rawtext) 2) p.pos) (returns tt)
      (Avoids-bind (or_fault-Avoids (get_elem? v.rawtext p.pos)) (λ a u.
        Avoids-bind (or_fault-Avoids (get_elem? v.rawtext (p.pos + 1)))
          (λ b u'. returns (omega (arith, same a b (record p { pos = p.pos + 2 }))))))

control-Avoids : (v : View) (c : ℕ) (p : Line) → Avoids IsFuel (Later p.pos) (control v c p)
unfolding control
control-Avoids v c p =
    let P : Out Control → Type 0 = Avoids IsFuel (Later p.pos) in
    let here : p.pos ≤ p.pos = omega arith in
    if_intro P (c == 0xE01E) (returns here) (
      if_intro P (c == 0xE01F) (returns here) (
        if_intro P (c == 0xE01D) (returns here) (
          if_intro P (c == 0xE01C) (returns here) (
            if_intro P (c == 0xE004) (returns here) (
              if_intro P (c == 0xE005) (returns here) (
                if_intro P (c == 0xE002) (returns here) (
                  if_intro P (c == 0xE001) (returns here) (
                    if_intro P (c == 0xE012) (returns here) (
                      if_intro P (c == 0xE013) (returns here) (
                        if_intro P (c == 0xE006) (colours-Avoids v p set_ink (λ a b q. refl)) (
                          if_intro P (c == 0xE007) (colours-Avoids v p set_paper (λ a b q. refl)) (
                            if_intro P (c == 0xE008 || c == 0xE009)
                              (if_intro P (leb (sub_word (length v.rawtext) 1) p.pos) (returns tt)
                                (returns (omega arith)))
                              (returns tt)))))))))))))

back_ref-Avoids :
    (s : Screen) (v : View) (p : Line) (k b w : ℕ)
    → Avoids IsFuel (λ (n : ℕ). Unit) (back_ref s v p k b w)
unfolding back_ref
back_ref-Avoids s v p zero b w = faults (λ e. cc)
back_ref-Avoids s v p (suc j) b w =
    let P : Out ℕ → Type 0 = Avoids IsFuel (λ (n : ℕ). Unit) in
    Avoids-bind (or_fault-Avoids (get_elem? v.rawtext j)) (λ x u.
      Avoids-bind (width-Avoids s v x p.bold) (λ cw u'.
        if_intro P (leb (s.scr_w * 3 / 4) (w + cw)) (returns tt) (
          if_intro P (s.word_wrap && x == 0x20) (returns tt) (
            if_intro P (x == 0xE005) (returns tt)
              (if_intro P (x == 0xA) (returns tt) (back_ref-Avoids s v p j (b + 1) (w + cw)))))))

back_text-Avoids :
    (s : Screen) (v : View) (p : Line) (k b w : ℕ)
    → Avoids IsFuel (λ (n : ℕ). Unit) (back_text s v p k b w)
unfolding back_text
back_text-Avoids s v p zero b w = faults (λ e. cc)
back_text-Avoids s v p (suc j) b w =
    let P : Out ℕ → Type 0 = Avoids IsFuel (λ (n : ℕ). Unit) in
    Avoids-bind (or_fault-Avoids (get_elem? v.rawtext j)) (λ x u.
      Avoids-bind (width-Avoids s v x p.bold) (λ cw u'.
        if_intro P (leb (s.scr_w * 3 / 4) (w + cw)) (returns tt) (
          if_intro P (is_picture x) (returns tt) (
            if_intro P (x == 0x20) (returns tt) (
              if_intro P (x == 0xE004) (returns tt) (
                if_intro P (x == 0xA) (returns tt) (back_text-Avoids s v p j (b + 1) (w + cw))))))))

go_back_by-Avoids :
    (s : Screen) (v : View) (p : Line) → Avoids IsFuel (λ (n : ℕ). Unit) (go_back_by s v p)
unfolding go_back_by
go_back_by-Avoids s v p =
    let P : Out ℕ → Type 0 = Avoids IsFuel (λ (n : ℕ). Unit) in
    if_intro P p.is_ref (back_ref-Avoids s v p p.pos 1 0)
      (if_intro P s.word_wrap (back_text-Avoids s v p p.pos 1 0) (returns tt))

alone-Avoids : (v : View) (p : Line) → Avoids IsFuel (λ (r : Bool × Line). Unit) (alone v p)
unfolding alone
alone-Avoids v p =
    if_intro (Avoids IsFuel (λ (r : Bool × Line). Unit)) (ltb (length v.rawtext - 1) p.pos)
      (returns tt)
      (Avoids-bind (or_fault-Avoids (get_elem? v.rawtext (p.pos + 1))) (λ x u. returns tt))

-- A line that goes on is at its place.
abbrev Onward : ℕ → Placed → Type 0
Onward place (line_ends more q) = Unit
Onward place (goes_on q left) = q.pos ≡ place

place-Avoids :
    (s : Screen) (v : View) (c h : ℕ) (p : Line) (left : ℕ)
    → Avoids IsFuel (Onward p.pos) (place s v c h p left)
unfolding place
place-Avoids s v c h p left =
    let P : Out Placed → Type 0 = Avoids IsFuel (Onward p.pos) in
    Avoids-bind (width-Avoids s v c p.bold) (λ cw u.
      if_intro P (ltb left cw) (Avoids-bind (go_back_by-Avoids s v p) (λ b u'. returns tt)) (
        if_intro P _ (Avoids-bind (alone-Avoids v _) (λ r u'. returns tt))
          (if_intro P (c == 0xA) (returns tt) (returns refl))))

abbrev Rest : Type 0
Rest = Line → ℕ → Out (Bool × Line)

abbrev Ended : Out (Bool × Line) → Type 0
Ended m = Avoids IsFuel (λ (r : Bool × Line). Unit) m

-- The rest of the loop ends from every place behind this one.
abbrev EndsFrom : ℕ → Rest → Type 0
EndsFrom place rest = (q : Line) (left : ℕ) → place ≤ q.pos → Ended (rest q left)

after_place-Ended :
    (place : ℕ) (rest : Rest)
    → EndsFrom place rest
    → (r : Placed) → Onward place r
    → Ended (after_place rest r)
unfolding after_place
after_place-Ended place rest goes (line_ends more q) on = returns tt
after_place-Ended place rest goes (goes_on q left) on = goes q left (omega (arith, on))

after_control-Ended :
    (s : Screen) (v : View) (c h : ℕ) (p : Line) (left : ℕ) (rest : Rest)
    → EndsFrom p.pos rest
    → (done : Control) → Later p.pos done
    → Ended (after_control s v c h p left rest done)
unfolding after_control
after_control-Ended s v c h p left rest goes (skip q) later = goes q left later
after_control-Ended s v c h p left rest goes (ends q) later = returns tt
after_control-Ended s v c h p left rest goes symbol later =
    Avoids-bind (place-Avoids s v c _ p left) (after_place-Ended p.pos rest goes)

one_character-Ended :
    (s : Screen) (v : View) (c : ℕ) (p : Line) (left : ℕ) (rest : Rest)
    → EndsFrom p.pos rest
    → Ended (one_character s v c p left rest)
unfolding one_character
one_character-Ended s v c p left rest goes =
    Avoids-bind (height-Avoids s v c p)
      (λ h u. Avoids-bind (control-Avoids v c p) (after_control-Ended s v c h p left rest goes))

get_elem?-below : (xs : List ℕ) (i x : ℕ) → get_elem? xs i ≡ some x → i < length xs
get_elem?-below [] i x e = cc
get_elem?-below (y ∷ xs) zero x e = omega arith
get_elem?-below (y ∷ xs) (suc i) x e = omega (arith, get_elem?-below xs i x e)

-- With more rounds than there are characters left, the rounds do not run out.
search_loop-Ended :
    (s : Screen) (v : View) (fuel : ℕ) (p : Line) (left : ℕ)
    → 0 < fuel
    → length v.rawtext < fuel + p.pos
    → Ended (search_loop s v fuel p left)
unfolding search_loop
search_loop-Ended s v zero p left some_round enough = absurd (omega (arith, some_round))
search_loop-Ended s v (suc fuel) p left some_round enough =
    elim (Option-cases (get_elem? v.rawtext p.pos)) [
      | inl behind ↦ rw (search_loop, behind) (returns tt)
      | inr (c, there) ↦
          let below = get_elem?-below v.rawtext p.pos c there in
          rw (search_loop, there)
            (one_character-Ended s v c (record p { pos = p.pos + 1 }) left (search_loop s v fuel)
              (λ q left' later.
                search_loop-Ended s v fuel q left' (omega (arith, below, enough))
                  (omega (arith, later, enough))))
    ]

-- For any page, fonts and place to begin from, the loop of `SearchNextDisplayLine` over the text takes at most
-- one round for each character and one more: no round leaves the place where it is. This is about that loop. The
-- ways back from the end of a line that is too wide have no bound of their own in C; where one of them meets
-- no character to stop at, it reads in front of the text, and the run counts as faulted there.
pub search_next_display_line-Avoids :
    (s : Screen) (v : View) (place : ℕ) (p : Line)
    → Avoids IsFuel (λ (r : Bool × Line). Unit) (search_next_display_line s v place p)
unfolding search_next_display_line
search_next_display_line-Avoids s v place p =
    search_loop-Ended s v (length v.rawtext + 1) _ s.scr_w (omega arith) (omega arith)
