-- ===== src/Encoding/Web/Buffer.antt =====
-- The two passes of `ToWeb`: the second writes no more than the first allocates.
use elfloader3_elfs_archive.Prelude.{
  ℕ, zero, suc, ◌+◌, ◌*◌, ◌<◌, ◌≤◌, Bool, Bytes, [], ◌∷◌, length, length-append, take, leb,
  if◌then◌else◌, ◌&&◌, ◌||◌, arith, Bool-cases, inl, inr,
}
use elfloader3_elfs_archive.Encoding.Web.{
  sfind8, char_win2utf8, symbols_of, to_web_count, to_web_write, to_web_size, to_web,
}

length-take_le : (n : ℕ) (s : Bytes) → length (take n s) ≤ n
length-take_le zero s = omega arith
length-take_le (suc n) [] = omega arith
length-take_le (suc n) (x ∷ s) = omega (arith, length-take_le n s)

-- How far the second pass goes on for a byte.
char_win2utf8-at_most : (b : ℕ) (table : Bytes) → (char_win2utf8 b table).1 ≤ 6
unfolding char_win2utf8
char_win2utf8-at_most b table = ground arith

char_win2utf8-ascii : (b : ℕ) (table : Bytes) → b < 0x80 → (char_win2utf8 b table).1 ≤ 3
unfolding char_win2utf8
char_win2utf8-ascii b table h = ground (arith, h)

abbrev written : ℕ → Bool → Bytes → Bytes
written c special table =
    if leb 0x80 c || special && sfind8 c table
    then take (char_win2utf8 c table).1 (char_win2utf8 c table).0
    else c ∷ []

abbrev counted : ℕ → Bool → Bytes → ℕ
counted c special table = if leb 0x80 c then 2 else if special && sfind8 c table then 1 else 0

length-written :
    (c : ℕ) (special : Bool) (table : Bytes)
    → length (written c special table) ≤ 1 + counted c special table * 3
length-written c special table =
    let short = length-take_le (char_win2utf8 c table).1 (char_win2utf8 c table).0 in
    elim (Bool-cases (leb 0x80 c)) [
      | inl large ↦ rw large (omega (arith, short, char_win2utf8-at_most c table))
      | inr small ↦ elim (Bool-cases (special && sfind8 c table)) [
        | inl found ↦
            rw (small, found)
              (omega (arith, short, char_win2utf8-ascii c table (ground (arith, small))))
        | inr plain ↦ rw (small, plain) (omega arith)
      ]
    ]

length-to_web_write :
    (s : Bytes) (special : Bool) (table : Bytes)
    → length (to_web_write s special table) ≤ length s + to_web_count s special table * 3
unfolding to_web_write to_web_count
length-to_web_write [] special table = omega arith
length-to_web_write (c ∷ s) special table = omega (
  arith,
  length-append (written c special table) (to_web_write s special table),
  length-written c special table,
  length-to_web_write s special table,
)

-- The text that `ToWeb` writes for any string and any of its two switches, with the closing zero, fits
-- the buffer that it allocates.
pub length-to_web :
    (src : Bytes) (special conv_percent : Bool)
    → length (to_web src special conv_percent) + 1 ≤ to_web_size src special conv_percent
unfolding to_web to_web_size
length-to_web src special conv_percent =
    omega (arith, length-to_web_write src special (symbols_of conv_percent))
