-- ===== src/Encoding/Web/RoundTrip.antt =====
-- What a server reads from the text that `ToWeb` sends.
use elfloader3_elfs_archive.Prelude.{
  ℕ, ◌+◌, ◌-◌, ◌*◌, ◌/◌, ◌%◌, ◌<◌, ◌≡◌, refl, sym, ap, ◌∙◌, Bool, true, false, Bytes, List, [], ◌∷◌,
  ◌++◌, take, ltb, leb, ltb→lt, lt→leb, ◌==◌, ==→eq, not, if◌then◌else◌, ◌&&◌, ◌||◌, arith,
  Bool-cases, inl, inr, and_left, and_right, not-true, all_below, all_below_sound,
}
use elfloader3_elfs_archive.Encoding.Utf8.Decode.{utf8, utf8_text}
use elfloader3_elfs_archive.Encoding.Web.{
  percent, hex, sfind8, char_win2utf8, symbols, percent_symb, to_web_write, to_web,
}

-- '%' and two hexadecimal digits stand for a byte, any other byte for itself.
abbrev unhex : ℕ → ℕ
unhex d = if ltb d b'a' then d - b'0' else d - b'a' + 10

unfoldable pub web_decode : Bytes → Bytes
web_decode [] = []
web_decode (c ∷ []) = c ∷ []
web_decode (c ∷ h ∷ []) = c ∷ web_decode (h ∷ [])
web_decode (c ∷ h ∷ l ∷ s) =
    let byte = (unhex h * 16 + unhex l) ∷ web_decode s in
    let plain = c ∷ web_decode (h ∷ l ∷ s) in if c == b'%' then byte else plain

-- The character of windows-1251, of those that the program sends.
unfoldable pub from_win : ℕ → ℕ
from_win c =
    if c == 0xA8 then 0x401 else if c == 0xB8 then 0x451 else if leb 0xC0 c then 0x350 + c else c

unfoldable pub from_win_text : Bytes → List ℕ
unfolding from_win
from_win_text [] = []
from_win_text (c ∷ s) = from_win c ∷ from_win_text s

-- ASCII, the letter io in both cases, and the rest of the Russian alphabet.
unfoldable pub is_sent : ℕ → Bool
is_sent c = ltb c 0x80 || (c == 0xA8 || (c == 0xB8 || (leb 0xC0 c && ltb c 256)))

unfoldable pub IsSent : Bytes → Type 0
IsSent [] = Unit
IsSent (c ∷ s) = (is_sent c ≡ true) × IsSent s

digits_table :
    all_below 256 (λ b. unhex (hex (b / 16 % 16)) * 16 + unhex (hex (b % 16)) == b) ≡ true
digits_table = refl

web_decode-percent : (b : ℕ) (s : Bytes) → b < 256 → web_decode (percent b ++ s) ≡ b ∷ web_decode s
unfolding web_decode
web_decode-percent b s h =
    ap (λ x. x ∷ web_decode s)
      (==→eq (unhex (hex (b / 16 % 16)) * 16 + unhex (hex (b % 16))) b (
        all_below_sound 256 (λ b. unhex (hex (b / 16 % 16)) * 16 + unhex (hex (b % 16)) == b) b
          digits_table h))

web_decode-plain : (c : ℕ) (s : Bytes) → (c == b'%') ≡ false → web_decode (c ∷ s) ≡ c ∷ web_decode s
unfolding web_decode
web_decode-plain c [] h = refl
web_decode-plain c (d ∷ []) h = refl
web_decode-plain c (d ∷ e ∷ s) h = rw h refl

abbrev sent : ℕ → Bytes → Bytes
sent c table =
    if leb 0x80 c || true && sfind8 c table
    then take (char_win2utf8 c table).1 (char_win2utf8 c table).0
    else c ∷ []

abbrev same : Bytes → Bytes → Bool
same [] [] = true
same [] (y ∷ ys) = false
same (x ∷ xs) [] = false
same (x ∷ xs) (y ∷ ys) = (x == y) && same xs ys

-- The text sent for a byte: how it decodes.
abbrev coded : Bytes → Bytes
coded [] = []
coded (b ∷ bs) = percent b ++ coded bs

abbrev as_expected : Bytes → ℕ → Bool
as_expected table c =
    not (is_sent c)
    || (if ltb c 0x80 && not (sfind8 c table)
        then not (c == b'%') && same (sent c table) (utf8 (from_win c))
        else same (sent c table) (coded (utf8 (from_win c))))

symbols_table : all_below 256 (as_expected symbols) ≡ true
unfolding char_win2utf8 sfind8 utf8 from_win is_sent
symbols_table = refl

percent_table : all_below 256 (as_expected percent_symb) ≡ true
unfolding char_win2utf8 sfind8 utf8 from_win is_sent
percent_table = refl

abbrev all_small : Bytes → Bool
all_small [] = true
all_small (b ∷ bs) = ltb b 256 && all_small bs

small_table : all_below 256 (λ c. all_small (utf8 (from_win c))) ≡ true
unfolding utf8 from_win
small_table = refl

same→eq : (xs ys : Bytes) → same xs ys ≡ true → xs ≡ ys
same→eq [] [] h = refl
same→eq [] (y ∷ ys) h = absurd (ground (arith, h))
same→eq (x ∷ xs) [] h = absurd (ground (arith, h))
same→eq (x ∷ xs) (y ∷ ys) h =
    λ i. ==→eq x y (ground (arith, h)) i ∷ same→eq xs ys (ground (arith, h)) i

web_decode-coded :
    (bs s : Bytes) → all_small bs ≡ true → web_decode (coded bs ++ s) ≡ bs ++ web_decode s
web_decode-coded [] s h = refl
web_decode-coded (b ∷ bs) s h =
    web_decode-percent b (coded bs ++ s) (ground (arith, h))
    ∙ ap (λ r. b ∷ r) (web_decode-coded bs s (ground (arith, h)))

is_sent-byte : (c : ℕ) → is_sent c ≡ true → c < 256
unfolding is_sent
is_sent-byte c h = ground (arith, h)

abbrev is_plain : Bytes → ℕ → Bool
is_plain table c = ltb c 0x80 && not (sfind8 c table)

pick_then : (p q x y : Bool) → not p || (if q then x else y) ≡ true → p ≡ true → q ≡ true → x ≡ true
pick_then true true x y h hp hq = h
pick_then true false x y h hp hq = cc
pick_then false q x y h hp hq = cc

pick_else :
    (p q x y : Bool) → not p || (if q then x else y) ≡ true → p ≡ true → q ≡ false → y ≡ true
pick_else true false x y h hp hq = h
pick_else true true x y h hp hq = cc
pick_else false q x y h hp hq = cc

-- The two readings of the tables' entries.
expected-plain :
    (table : Bytes) (c : ℕ)
    → as_expected table c ≡ true
    → is_sent c ≡ true
    → is_plain table c ≡ true
    → ((c == b'%') ≡ false) × (same (sent c table) (utf8 (from_win c)) ≡ true)
expected-plain table c expected h plain =
    let entry = pick_then (is_sent c) (is_plain table c) _ _ expected h plain in
    (not-true (c == b'%') (and_left _ _ entry), and_right (not (c == b'%')) _ entry)

expected-coded :
    (table : Bytes) (c : ℕ)
    → as_expected table c ≡ true
    → is_sent c ≡ true
    → is_plain table c ≡ false
    → same (sent c table) (coded (utf8 (from_win c))) ≡ true
expected-coded table c expected h other =
    pick_else (is_sent c) (is_plain table c) _ _ expected h other

sent-plain : (table : Bytes) (c : ℕ) → is_plain table c ≡ true → sent c table ≡ c ∷ []
sent-plain table c plain =
    let small : leb 0x80 c ≡ false = lt→leb 0x80 c (ltb→lt c 0x80 (and_left _ _ plain)) in
    rw (small, not-true (sfind8 c table) (and_right (ltb c 0x80) _ plain)) refl

web_decode-sent :
    (table : Bytes) (c : ℕ) (s : Bytes)
    → as_expected table c ≡ true
    → is_sent c ≡ true
    → web_decode (sent c table ++ s) ≡ utf8 (from_win c) ++ web_decode s
web_decode-sent table c s expected h = elim (Bool-cases (is_plain table c)) [
  | inl plain ↦
      let (other_sign, written) = expected-plain table c expected h plain in
      let one = sent-plain table c plain in
      rw (sym (same→eq (sent c table) (utf8 (from_win c)) written), one)
        (web_decode-plain c s other_sign)
  | inr other ↦
      rw
        (same→eq (sent c table) (coded (utf8 (from_win c)))
          (expected-coded table c expected h other))
        (web_decode-coded (utf8 (from_win c)) s (
          all_below_sound 256 (λ c. all_small (utf8 (from_win c))) c small_table
            (is_sent-byte c h)))
]

sent_text :
    (table : Bytes)
    → all_below 256 (as_expected table) ≡ true
    → (s : Bytes) → IsSent s
    → web_decode (to_web_write s true table) ≡ utf8_text (from_win_text s)
unfolding to_web_write IsSent utf8_text from_win_text web_decode
sent_text table right [] h = refl
sent_text table right (c ∷ s) (hc, h) =
    web_decode-sent table c (to_web_write s true table)
      (all_below_sound 256 (as_expected table) c right (is_sent-byte c hc)) hc
    ∙ ap (λ r. utf8 (from_win c) ++ r) (sent_text table right s h)

-- A text of ASCII and Russian letters in windows-1251, sent by `ToWeb` with the special signs on and
-- either of the two tables, is read by a server that decodes the percent signs as the UTF-8 form
-- of the same text.
pub to_web-web_decode :
    (src : Bytes) (conv_percent : Bool)
    → IsSent src
    → web_decode (to_web src true conv_percent) ≡ utf8_text (from_win_text src)
unfolding to_web
to_web-web_decode src true h = sent_text percent_symb percent_table src h
to_web-web_decode src false h = sent_text symbols symbols_table src h
