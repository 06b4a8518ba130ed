-- ===== src/Encoding/Codepage.antt =====
-- `char16to8` and `char8to16`: the phone's 8-bit code page and UTF-16, and the loops over a string.
pub mod Laws
use elfloader3_elfs_archive.Prelude.{
  ℕ, ◌+◌, ◌-◌, ◌%◌, Bytes, List, [], ◌∷◌, map, ltb, leb, ◌==◌, if◌then◌else◌, not,
}

unfoldable pub char16to8 : ℕ → ℕ
char16to8 c =
    if ltb c 0x400
    then c
    else let d = c - 0x400 in
      if ltb d 16
      then (if d == 1 then 168 else if d == 4 then 2 + 168 else if d == 6 then 10 + 168 else d)
      else if ltb 79 d
      then (if d == 0x51
          then 16 + 168
          else if d == 0x54
          then 18 + 168
          else if d == 0x56
          then 11 + 168
          else if d == 0x57
          then 23 + 168
          else d)
      else d + 8 + 168

unfoldable pub char8to16 : ℕ → ℕ
char8to16 c =
    if ltb c 168
    then c
    else let d = c - 168 in
      if d == 0
      then 1 + 0x400
      else if ltb d 24
      then (if d == 2
          then 4 + 0x400
          else if d == 10
          then 6 + 0x400
          else if d == 11
          then 0x56 + 0x400
          else if d == 16
          then 0x51 + 0x400
          else if d == 18
          then 0x54 + 0x400
          else if d == 23
          then 0x57 + 0x400
          else d)
      else if ltb 87 d
      then d
      else d - 8 + 0x400

-- Each unit is stored in a `char`; the count that the function returns is the length of the list.
unfoldable pub ws2ascii : List ℕ → Bytes
unfolding char16to8
ws2ascii ws = map (λ c. char16to8 c % 256) ws

unfoldable pub ascii2ws : Bytes → List ℕ
unfolding char8to16
ascii2ws s = map (λ c. char8to16 c) s
