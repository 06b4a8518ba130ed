-- ===== src/Encoding/Examples.antt =====
-- Texts in the phone's code page, in windows-1251 and in UTF-8.
use elfloader3_elfs_archive.Prelude.{
  ℕ, ◌+◌, ◌%◌, ◌≤◌, ◌≡◌, refl, true, false, Bytes, List, [], ◌∷◌, length, ◌==◌, arith,
}
use elfloader3_elfs_archive.Encoding.Codepage.{char16to8, char8to16}
use elfloader3_elfs_archive.Encoding.Codepage.Laws.{in_code_page, char16to8-char8to16}
use elfloader3_elfs_archive.Encoding.Compare.Laws.{CString}
use elfloader3_elfs_archive.Encoding.Utf8.{oms2ws}
use elfloader3_elfs_archive.Encoding.Utf8.Decode.{utf8_text, Units, oms2ws-utf8_text}
use elfloader3_elfs_archive.Encoding.Web.{to_web, to_web_size}
use elfloader3_elfs_archive.Encoding.Web.Buffer.{length-to_web}
use elfloader3_elfs_archive.Encoding.Web.RoundTrip.{
  IsSent, is_sent, web_decode, from_win_text, to_web-web_decode,
}

char16to8-char8to16_example : (char16to8 (char8to16 169) % 256 == 169) ≡ in_code_page 169
char16to8-char8to16_example = char16to8-char8to16 169 (omega arith)

abbrev units : List ℕ
units = 0x41 ∷ 0x416 ∷ 0x20AC ∷ []

units-Units : Units units
unfolding Units
units-Units = (omega arith, (omega arith, (omega arith, tt)))

oms2ws-utf8_text_example : oms2ws (utf8_text units) ≡ units
oms2ws-utf8_text_example = oms2ws-utf8_text units units-Units

-- "a b" and the letter zhe
abbrev query : Bytes
query = b'a' ∷ 0x20 ∷ b'b' ∷ 0xC6 ∷ []

query-IsSent : IsSent query
unfolding IsSent is_sent
query-IsSent = (refl, (refl, (refl, (refl, tt))))

to_web-web_decode_example : web_decode (to_web query true false) ≡ utf8_text (from_win_text query)
to_web-web_decode_example = to_web-web_decode query false query-IsSent

length-to_web_example : length (to_web query true false) + 1 ≤ to_web_size query true false
length-to_web_example = length-to_web query true false

abbrev lower : Bytes
lower = b'o' ∷ b'k' ∷ []

abbrev upper : Bytes
upper = b'O' ∷ b'K' ∷ []

lower-CString : CString lower
unfolding CString
lower-CString = ((omega arith, omega arith), ((omega arith, omega arith), tt))

upper-CString : CString upper
unfolding CString
upper-CString = ((omega arith, omega arith), ((omega arith, omega arith), tt))
