-- ===== src/Encoding/Web.antt =====
-- `ToWeb`: windows-1251 text to percent-encoded UTF-8.
pub mod Buffer
pub mod RoundTrip
use elfloader3_elfs_archive.Prelude.{
  ℕ, zero, suc, ◌+◌, ◌-◌, ◌*◌, ◌/◌, ◌%◌, Bool, true, false, Bytes, List, [], ◌∷◌, ◌++◌, Option,
  none, some, bit_or, take, length, ltb, leb, ◌==◌, if◌then◌else◌, ◌&&◌, ◌||◌,
}

abbrev pub symbols : Bytes
symbols =
    0x0A ∷ 0x20 ∷ 0x23 ∷ 0x24 ∷ 0x25 ∷ 0x26 ∷ 0x2B ∷ 0x2C ∷ 0x2F ∷ 0x3A ∷ 0x3B ∷ 0x3D ∷ 0x3F ∷ 0x40
    ∷ 0x7E ∷ []

abbrev pub percent_symb : Bytes
percent_symb = 0x25 ∷ []

-- `sfind8(s, v) >= 0`: the callers use the index for nothing else.
unfoldable pub sfind8 : ℕ → Bytes → Bool
sfind8 s [] = false
sfind8 s (v ∷ vs) = (s == v) || sfind8 s vs

-- `hex[n]` of "0123456789abcdef".
abbrev pub hex : ℕ → ℕ
hex n = if ltb n 10 then b'0' + n else b'a' + n - 10

-- '%' and the two digits of a byte.
abbrev pub percent : ℕ → Bytes
percent b = b'%' ∷ hex (b / 16 % 16) ∷ hex (b % 16) ∷ []

-- The bytes written and the count returned.
unfoldable pub char_win2utf8 : ℕ → Bytes → Bytes × ℕ
unfolding sfind8
char_win2utf8 b symbols_array =
    let special = sfind8 b symbols_array in
    let front = if special then percent b else [] in
    let ab = 0x350 + b in
    if leb 0xC0 b && leb b 0xFF
    then (front ++ percent (bit_or 0xC0 (ab / 64 % 32)) ++ percent (bit_or 0x80 (ab % 64)), 6)
    else if b == 0xA8
    then (front ++ b'%' ∷ b'd' ∷ b'0' ∷ b'%' ∷ b'8' ∷ b'1' ∷ [], 6)
    else if b == 0xB8
    then (front ++ b'%' ∷ b'd' ∷ b'1' ∷ b'%' ∷ b'9' ∷ b'1' ∷ [], 6)
    else (front, if special then 3 else 0)

abbrev pub symbols_of : Bool → Bytes
symbols_of conv_percent = if conv_percent then percent_symb else symbols

-- The first pass: `cnt`.
unfoldable pub to_web_count : Bytes → Bool → Bytes → ℕ
unfolding sfind8
to_web_count [] special table = 0
to_web_count (c ∷ s) special table =
    (if leb 0x80 c then 2 else if special && sfind8 c table then 1 else 0)
    + to_web_count s special table

-- The second pass: the next write starts as many bytes on as `char_win2utf8` says.
unfoldable pub to_web_write : Bytes → Bool → Bytes → Bytes
unfolding sfind8 char_win2utf8
to_web_write [] special table = []
to_web_write (c ∷ s) special table =
    (if leb 0x80 c || special && sfind8 c table
      then take (char_win2utf8 c table).1 (char_win2utf8 c table).0
      else c ∷ [])
    ++ to_web_write s special table

-- The size that is allocated, and the text written in front of the closing zero.
unfoldable pub to_web_size : Bytes → Bool → Bool → ℕ
unfolding to_web_count
to_web_size src special conv_percent =
    length src + to_web_count src special (symbols_of conv_percent) * 3 + 1

unfoldable pub to_web : Bytes → Bool → Bool → Bytes
unfolding to_web_write
to_web src special conv_percent = to_web_write src special (symbols_of conv_percent)
