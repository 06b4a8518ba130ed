-- ===== src/Encoding/Utf8.antt =====
-- `oms2ws` and `utf82win`: the two readers of UTF-8.
pub mod Decode
use elfloader3_elfs_archive.Prelude.{
  ℕ, zero, suc, ◌+◌, ◌*◌, ◌%◌, Bool, true, Bytes, List, [], ◌∷◌, ◌++◌, Out, ok, fault, out_of_fuel,
  bad_index, or_fault, ◌>>=◌, get_elem?, drop, length, bit_and, bit_or, ltb, ◌==◌, if◌then◌else◌,
  not, ◌&&◌,
}

-- The 2-byte and 3-byte forms: `c &= 0x1F; c <<= 6; c |= *text++ & 0x3F`, and so on.
unfoldable pub join2 : ℕ → ℕ → ℕ
join2 c d = bit_or (bit_and c 0x1F * 64) (bit_and d 0x3F)

unfoldable pub join3 : ℕ → ℕ → ℕ → ℕ
join3 c d e = bit_or (bit_or (bit_and c 0x0F * 4096) (bit_and d 0x3F * 64)) (bit_and e 0x3F)

abbrev pub is_lead2 : ℕ → Bool
is_lead2 c = bit_and c 0xE0 == 0xC0

abbrev pub is_lead3 : ℕ → Bool
is_lead3 c = bit_and c 0xF0 == 0xE0

-- One unit for each sequence. A lead byte that the text cuts short stands for itself.
unfoldable pub oms2ws : Bytes → List ℕ
oms2ws [] = []
oms2ws (c ∷ []) = c ∷ []
oms2ws (c ∷ d ∷ []) =
    let two = join2 c d ∷ [] in let one = c ∷ oms2ws (d ∷ []) in if is_lead2 c then two else one
oms2ws (c ∷ d ∷ e ∷ s) =
    let two = join2 c d ∷ oms2ws (e ∷ s) in
    let three = join3 c d e ∷ oms2ws s in
    let one = c ∷ oms2ws (d ∷ e ∷ s) in
    if is_lead2 c then two else if is_lead3 c then three else one

-- `for (ds = 0; ub & 0x80; ub <<= 1, ds++);` over an unsigned char: eight rounds are enough.
unfoldable pub leading_ones : ℕ → ℕ → ℕ
leading_ones zero ub = 0
leading_ones (suc k) ub =
    let more = suc (leading_ones k (ub * 2 % 256)) in if ltb ub 128 then 0 else more

-- What one round of `utf82win` writes and how many bytes it goes on. The source file is UTF-8, so
-- its constants for the letter io are multi-character constants, of which a `char` keeps the low
-- byte: 0x81 and 0x91.
unfoldable pub win_write : ℕ → ℕ → ℕ → Bytes
win_write ub lb third =
    (if ub == 0xD0 then (if lb == 0x81 then 0x81 ∷ [] else ((lb + 48) % 256) ∷ []) else [])
    ++ (if ub == 0xD1 then (if lb == 0x91 then 0x91 ∷ [] else ((lb + 112) % 256) ∷ []) else [])
    ++ (if ub == 0xE2 && (lb == 0x80 && third == 0x94) then b'-' ∷ [] else [])
    ++ (if ltb ub 128 then ub ∷ [] else [])

unfoldable pub win_skip : ℕ → ℕ
unfolding leading_ones
win_skip ub = if ltb ub 128 then 1 else leading_ones 8 ub

-- The text is read with its terminating zero; a round that starts behind it is a fault. The third
-- byte is only read where the second is not the terminator.
unfoldable pub utf82win_loop : ℕ → Bytes → Out Bytes
unfolding win_write win_skip
utf82win_loop zero s = fault out_of_fuel
utf82win_loop (suc k) [] = fault bad_index
utf82win_loop (suc k) (zero ∷ s) = ok []
utf82win_loop (suc k) (suc c ∷ s) =
    let ub = suc c in
    do
      lb ← or_fault bad_index (get_elem? s 0)
      third ← if ub == 0xE2 && lb == 0x80 then or_fault bad_index (get_elem? s 1) else ok 0
      rest ← utf82win_loop k (drop (win_skip ub) (suc c ∷ s))
      ok (win_write ub lb third ++ rest)

unfoldable pub utf82win : Bytes → Out Bytes
unfolding utf82win_loop
utf82win s = utf82win_loop (length s + 1) (s ++ zero ∷ [])
