-- ===== src/Display/Layout.antt =====
-- `SearchNextDisplayLine`: where the line ends that begins behind the last one.
use elfloader3_elfs_archive.Prelude.{
  ℕ, zero, suc, ◌+◌, ◌-◌, ◌*◌, ◌/◌, ◌%◌, ◌^◌, Bool, true, false, none, some, Out, ok, fault,
  bad_index, out_of_fuel, ◌>>=◌, or_fault, length, get_elem?, leb, ltb, ◌==◌, ◌&&◌, ◌||◌,
  if◌then◌else◌,
}
use elfloader3_elfs_archive.Oms.State.{View}
use elfloader3_elfs_archive.Display.{
  Screen, Line, get_font_height, line_height, is_picture, get_symbol_bitmap_width,
  get_bitmap_height,
}

-- `a - b` of unsigned numbers.
abbrev pub sub_word : ℕ → ℕ → ℕ
sub_word a b = (a + 2 ^ 32 - b) % 2 ^ 32

abbrev pub raw_at : View → ℕ → Out ℕ
raw_at v i = or_fault bad_index (get_elem? v.rawtext i)

-- What a control character does: the next character, the end of the text, or none of these.
pub data Control : Type 0 where
  skip : Line → Control
  ends : Line → Control
  symbol : Control

unfoldable pub colours : View → Line → (ℕ → ℕ → Line → Line) → Out Control
colours v p set_colour = if ltb (sub_word (length v.rawtext) 2) p.pos then ok (ends p) else (do
  a ← raw_at v p.pos
  b ← raw_at v (p.pos + 1)
  ok (skip (set_colour a b (record p { pos = p.pos + 2 }))))

abbrev pub set_ink : ℕ → ℕ → Line → Line
set_ink a b p = record p { ink1 = a; ink2 = b }

abbrev pub set_paper : ℕ → ℕ → Line → Line
set_paper a b p = record p { paper1 = a; paper2 = b }

-- `switch(c)`
unfoldable pub control : View → ℕ → Line → Out Control
unfolding colours
control v c p =
    if c == 0xE01E
    then ok (skip (record p { center = true }))
    else if c == 0xE01F
    then ok (skip (record p { center = false }))
    else if c == 0xE01D
    then ok (skip (record p { right = true }))
    else if c == 0xE01C
    then ok (skip (record p { right = false }))
    else if c == 0xE004
    then ok (skip (record p { is_ref = false }))
    else if c == 0xE005
    then ok (skip (record p { is_ref = true }))
    else if c == 0xE002
    then ok (skip (record p { underline = false }))
    else if c == 0xE001
    then ok (skip (record p { underline = true }))
    else if c == 0xE012
    then ok (skip (record p { bold = false }))
    else if c == 0xE013
    then ok (skip (record p { bold = true }))
    else if c == 0xE006
    then colours v p set_ink
    else if c == 0xE007
    then colours v p set_paper
    else if c == 0xE008 || c == 0xE009
    then (if leb (sub_word (length v.rawtext) 1) p.pos
        then ok (ends p)
        else ok (skip (record p { pos = p.pos + 1 })))
    else ok symbol

-- The way back from the end of a line that is too wide, over the places below `k`: how many characters go to
-- the next line. C's loop has no bound: what it does in front of the text, where it reads what is not the
-- page's, is undefined, and is the fault here.
unfoldable pub back_ref : Screen → View → Line → ℕ → ℕ → ℕ → Out ℕ
back_ref s v p zero b width = fault bad_index
back_ref s v p (suc j) b width = do
  x ← raw_at v j
  w ← get_symbol_bitmap_width s v x p.bold
  let rest = back_ref s v p j (b + 1) (width + w)
  if leb (s.scr_w * 3 / 4) (width + w)
      then ok 1
      else if s.word_wrap && x == 0x20
      then ok b
      else if x == 0xE005
      then ok b
      else if x == 0xA
      then ok (b + 1)
      else rest

unfoldable pub back_text : Screen → View → Line → ℕ → ℕ → ℕ → Out ℕ
back_text s v p zero b width = fault bad_index
back_text s v p (suc j) b width = do
  x ← raw_at v j
  w ← get_symbol_bitmap_width s v x p.bold
  let rest = back_text s v p j (b + 1) (width + w)
  if leb (s.scr_w * 3 / 4) (width + w)
      then ok 1
      else if is_picture x
      then ok (b - 1)
      else if x == 0x20
      then ok (b - 1)
      else if x == 0xE004
      then ok b
      else if x == 0xA
      then ok (b + 1)
      else rest

unfoldable pub go_back_by : Screen → View → Line → Out ℕ
unfolding back_ref back_text
go_back_by s v p =
    if p.is_ref
    then back_ref s v p p.pos 1 0
    else if s.word_wrap
    then back_text s v p p.pos 1 0
    else ok 1

-- A picture that is alone on its line.
unfoldable pub alone : View → Line → Out (Bool × Line)
alone v p = if ltb (length v.rawtext - 1) p.pos then ok (false, p) else (do
  x ← raw_at v (p.pos + 1)
  let q = record p { center_at_all = true }
  ok (true, if x == 0xE004 then record q { is_ref = false; pos = p.pos + 1 } else q))

abbrev pub char_height : Screen → View → ℕ → Line → Out ℕ
char_height s v c p = if is_picture c then get_bitmap_height s v c else ok (line_height s p)

-- One character that has a width: the line is full, ends with it, or goes on with what is left.
pub data Placed : Type 0 where
  line_ends : Bool → Line → Placed
  goes_on : Line → ℕ → Placed

unfoldable pub place : Screen → View → ℕ → ℕ → Line → ℕ → Out Placed
unfolding go_back_by alone
place s v c h p left = do
  cw ← get_symbol_bitmap_width s v c p.bold
  if ltb left cw
      then (do b ← go_back_by s v p; ok (line_ends true (record p { pos = sub_word p.pos b })))
      else (do
        let q = record p { pixheight = if ltb p.pixheight h then h else p.pixheight }
        let is_big = leb (s.scr_w / 2) cw && ltb (get_font_height s false false false false * 3) h
        if is_big && left == s.scr_w
            then (do r ← alone v q; ok (line_ends r.0 r.1))
            else if c == 0xA
            then ok (line_ends true q)
            else ok (goes_on q (left - cw)))

-- What follows a character: the rest of the loop, from a place and with what is left, unless the line ends.
unfoldable pub after_place : (Line → ℕ → Out (Bool × Line)) → Placed → Out (Bool × Line)
after_place rest (line_ends more p) = ok (more, p)
after_place rest (goes_on p left) = rest p left

unfoldable pub after_control :
    Screen → View → ℕ → ℕ → Line → ℕ → (Line → ℕ → Out (Bool × Line)) → Control → Out (Bool × Line)
unfolding place after_place
after_control s v c h p left rest (skip q) = rest q left
after_control s v c h p left rest (ends q) = ok (false, q)
after_control s v c h p left rest symbol = do
  r ← place s v c (if c == 0xA then 0 else h) p left
  after_place rest r

unfoldable pub one_character :
    Screen → View → ℕ → Line → ℕ → (Line → ℕ → Out (Bool × Line)) → Out (Bool × Line)
unfolding control after_control
one_character s v c p left rest = do
  h ← char_height s v c p
  done ← control v c p
  after_control s v c h p left rest done

-- The loop, with as many rounds as there are characters.
unfoldable pub search_loop : Screen → View → ℕ → Line → ℕ → Out (Bool × Line)
unfolding one_character
search_loop s v zero p left = fault out_of_fuel
search_loop s v (suc fuel) p left =
    let rest = search_loop s v fuel in
    elim (get_elem? v.rawtext p.pos) [
      | none ↦ ok (false, p)
      | some c ↦ one_character s v c (record p { pos = p.pos + 1 }) left rest
    ]

unfoldable pub search_next_display_line : Screen → View → ℕ → Line → Out (Bool × Line)
unfolding search_loop
search_next_display_line s v lines_cache_pos p =
    search_loop s v (length v.rawtext + 1)
      (record p { center_at_all = false; pixheight = 0; pos = lines_cache_pos }) s.scr_w
