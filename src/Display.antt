-- ===== src/Display.antt =====
-- The lines of a page and the references in them (BalletMini/display_utils.c).
pub mod Layout
pub mod Lines
pub mod Scroll
pub mod Cache
pub mod Ends
pub mod References
pub mod Position
pub mod Restoring
pub mod Finding
pub mod Rendering
pub mod Keys
pub mod Marks
pub mod Walking
pub mod Chosen
pub mod Links
pub mod Trials
pub mod Examples
use elfloader3_elfs_archive.Prelude.{
  ℕ, zero, suc, ◌+◌, ◌-◌, ◌*◌, ◌/◌, ◌%◌, ◌^◌, Bool, true, false, List, [], ◌∷◌, Option, none, some,
  Out, ok, fault, bad_index, bad_pointer, ◌>>=◌, or_fault, length, get_elem?, leb, ltb, ◌==◌,
  if◌then◌else◌,
}
use elfloader3_elfs_archive.Oms.State.{View, Picture}

-- The phone's fonts and images by `FONT_SMALL` and `FONT_SMALL_BOLD`, `ScreenW()-MARGIN`, and the setting.
pub record Screen : Type 0 where
  pub scr_w : ℕ
  pub symbol_width : ℕ → Bool → ℕ
  pub font_y_size : Bool → ℕ
  pub img_height : ℕ → ℕ
  pub word_wrap : Bool

-- LINECACHE
pub record Line : Type 0 where
  pub pos : ℕ
  pub ink1 : ℕ
  pub ink2 : ℕ
  pub paper1 : ℕ
  pub paper2 : ℕ
  pub bold : Bool
  pub underline : Bool
  pub is_ref : Bool
  pub center : Bool
  pub right : Bool
  pub center_at_all : Bool
  pub pixheight : ℕ
  pub ycoord : ℕ

-- `GetFontHeight`, by the bits of the attribute.
unfoldable pub get_font_height : Screen → Bool → Bool → Bool → Bool → ℕ
get_font_height s bold invert underline outline =
    s.font_y_size bold
    + (if invert then 1 else 0)
    + (if underline then 1 else 0)
    + (if outline then 2 else 0)

-- `p->underline?TEXT_UNDERLINE:0+p->ref?TEXT_INVERT:0`: one of the two.
abbrev pub line_height : Screen → Line → ℕ
line_height s p =
    get_font_height s p.bold (if p.underline then false else p.is_ref) p.underline false

abbrev pub is_picture : ℕ → Bool
is_picture c = c / 256 == 0xE1

unfoldable pub find_picture : ℕ → List Picture → Option Picture
find_picture c [] = none
find_picture c (p ∷ ps) = let rest = find_picture c ps in if p.w_char == c then some p else rest

-- The loop uses its pointer before it tests it.
unfoldable pub search_pictures : ℕ → List Picture → Out (Option Picture)
unfolding find_picture
search_pictures c [] = fault bad_pointer
search_pictures c (p ∷ ps) = ok (find_picture c (p ∷ ps))

unfoldable pub get_symbol_bitmap_width : Screen → View → ℕ → Bool → Out ℕ
unfolding search_pictures
get_symbol_bitmap_width s v c bold =
    if is_picture c
    then (do
      found ← search_pictures c v.dynpng_list
      ok (elim found [ none ↦ s.symbol_width c bold | some p ↦ p.image.w ]))
    else ok (s.symbol_width c bold)

unfoldable pub get_bitmap_height : Screen → View → ℕ → Out ℕ
unfolding search_pictures
get_bitmap_height s v c = do
  found ← search_pictures c v.dynpng_list
  ok (elim found [ none ↦ s.img_height c | some p ↦ p.image.h ])
