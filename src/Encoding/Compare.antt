-- ===== src/Encoding/Compare.antt =====
-- `strcmp_nocase`, `CompareWchar`, and the strings inside a page: `extract_omstr`, `omstrcmp`.
pub mod Laws
use elfloader3_elfs_archive.Prelude.{
  ℕ, ◌+◌, ◌-◌, ◌*◌, ◌^◌, Bool, true, false, Bytes, List, [], ◌∷◌, Option, none, some, Out, ok,
  fault, read_past_end, or_fault, ◌>>=◌, get_elem?, take, drop, length, bit_and, ltb, leb, ◌==◌,
  if◌then◌else◌, not, ◌&&◌, ◌||◌, ℤ, pos, sub_ℕ,
}

-- `if (c & 0x40) c &= 0xDF`
unfoldable pub fold_case : ℕ → ℕ
fold_case c = if bit_and c 0x40 == 0 then c else bit_and c 0xDF

unfoldable pub strcmp_nocase : Bytes → Bytes → ℤ
unfolding fold_case
strcmp_nocase [] [] = pos 0
strcmp_nocase [] (d ∷ t) = sub_ℕ 0 (fold_case d)
strcmp_nocase (c ∷ s) [] = pos (fold_case c)
strcmp_nocase (c ∷ s) (d ∷ t) =
    if fold_case c == fold_case d then strcmp_nocase s t else sub_ℕ (fold_case c) (fold_case d)

-- `_rshort` on a page: two bytes, the high one first.
unfoldable pub short_at : Bytes → ℕ → Out ℕ
short_at oms p = do
  hi ← or_fault read_past_end (get_elem? oms p)
  lo ← or_fault read_past_end (get_elem? oms (p + 1))
  ok (hi * 256 + lo)

-- `n` bytes from `p` on.
unfoldable pub slice_at : Bytes → ℕ → ℕ → Out Bytes
slice_at oms p n =
    if leb (p + n) (length oms) then ok (take n (drop p oms)) else fault read_past_end

abbrev pub noref : ℕ
noref = 0xFFFF_FFFF

-- The string at `position`, if there is a page there. The page has as many bytes as `oms_size` says.
unfoldable pub extract_omstr : Bytes → ℕ → Out (Option Bytes)
unfolding short_at slice_at
extract_omstr oms position =
    if leb (length oms) position || position == noref
    then ok none
    else do n ← short_at oms position; s ← slice_at oms (position + 2) n; ok (some s)

-- `memcmp`, as the difference of the first bytes that differ.
unfoldable pub memcmp : Bytes → Bytes → ℤ
memcmp (c ∷ s) (d ∷ t) = if c == d then memcmp s t else sub_ℕ c d
memcmp _ _ = pos 0

unfoldable pub omstrcmp : Bytes → ℕ → ℕ → Out ℤ
unfolding short_at slice_at memcmp
omstrcmp oms ps pd =
    if leb (length oms) ps then ok (pos 1) else if leb (length oms) pd then ok (pos 1) else do
      ls ← short_at oms ps
      ld ← short_at oms pd
      if not (ls == ld)
          then ok (pos 1)
          else do s ← slice_at oms (ps + 2) ls; d ← slice_at oms (pd + 2) ls; ok (memcmp s d)

-- A `short` is below zero from 0x8000 on, so such a unit passes the test `wchar < 0x100` too.
unfoldable pub fold_wchar : ℕ → ℕ
fold_wchar w0 =
    let w1 =
      if (leb 0x8000 w0 || ltb w0 0x100) && not (bit_and w0 0x40 == 0)
      then bit_and w0 0xDF
      else w0 in
    let w2 = if ltb w1 0x8000 && (leb 0x430 w1 && ltb w1 0x450) then w1 - 0x20 else w1 in
    if ltb w2 0x8000 && (ltb 0x450 w2 && leb w2 0x45F) then w2 - 0x50 else w2

unfoldable pub compare_wchar : ℕ → ℕ → Bool → Bool
unfolding fold_wchar
compare_wchar wchar1 wchar2 is_case_sensitive =
    if is_case_sensitive then wchar1 == wchar2 else fold_wchar wchar1 == fold_wchar wchar2
