-- ===== src/Encoding/Codepage/Laws.antt =====
-- The phone's code page and UTF-16: where `char16to8` undoes `char8to16`.
use elfloader3_elfs_archive.Prelude.{
  ℕ, ◌%◌, ◌<◌, ◌≡◌, refl, ◌∙◌, Bool, true, false, Bytes, [], ◌∷◌, ltb, leb, ◌==◌, ◌||◌, all_below,
  all_below_sound, ==→eq,
}
use elfloader3_elfs_archive.Encoding.Codepage.{char16to8, char8to16, ws2ascii, ascii2ws}

-- ASCII and the rest below the letters, the seven special letters, and the Russian alphabet.
unfoldable pub in_code_page : ℕ → Bool
in_code_page c =
    ltb c 168
    || (c == 168
        || (c == 170
            || (c == 178 || (c == 179 || (c == 184 || (c == 186 || (c == 191 || leb 192 c)))))))

abbrev same_bool : Bool → Bool → Bool
same_bool true b = b
same_bool false true = false
same_bool false false = true

same_bool→eq : (a b : Bool) → same_bool a b ≡ true → a ≡ b
same_bool→eq true b h = cc
same_bool→eq false true h = cc
same_bool→eq false false h = refl

abbrev round_trips : ℕ → Bool
round_trips c = char16to8 (char8to16 c) % 256 == c

table : all_below 256 (λ c. same_bool (round_trips c) (in_code_page c)) ≡ true
unfolding char16to8 char8to16 in_code_page
table = refl

-- A byte survives the way to UTF-16 and back exactly if it is below 168, one of the seven special
-- letters, or from 192 on.
pub char16to8-char8to16 : (c : ℕ) → c < 256 → (char16to8 (char8to16 c) % 256 == c) ≡ in_code_page c
char16to8-char8to16 c h =
    same_bool→eq (round_trips c) (in_code_page c)
      (all_below_sound 256 (λ c. same_bool (round_trips c) (in_code_page c)) c table h)

unfoldable pub InCodePage : Bytes → Type 0
InCodePage [] = Unit
InCodePage (c ∷ s) = ((c < 256) × (in_code_page c ≡ true)) × InCodePage s

-- A string of bytes that the code page has survives `ascii2ws` and then `ws2ascii`.
pub ws2ascii-ascii2ws : (s : Bytes) → InCodePage s → ws2ascii (ascii2ws s) ≡ s
unfolding ws2ascii ascii2ws InCodePage
ws2ascii-ascii2ws [] h = refl
ws2ascii-ascii2ws (c ∷ s) ((lt, kept), h) =
    let back : char16to8 (char8to16 c) % 256 ≡ c =
      ==→eq (char16to8 (char8to16 c) % 256) c (char16to8-char8to16 c lt ∙ kept) in
    rw (back, ws2ascii-ascii2ws s h) refl
