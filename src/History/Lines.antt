-- ===== src/History/Lines.antt =====
-- What is written to the file of the history is read back.
use elfloader3_elfs_archive.Prelude.{
  ℕ, zero, suc, ◌+◌, ◌≤◌, ◌<◌, ◌≡◌, refl, ap, ◌∙◌, false, Bytes, List, [], ◌∷◌, ◌++◌, append_assoc,
  some, ok, eq_bind, ◌>>=◌, length, leb, le→leb, ◌==◌, if_true, arith,
}
use elfloader3_elfs_archive.History.{
  max_file_size, new_line, read_buffer, starts_new_line, find_new_line, read_lines, get_history,
}

-- A line has no zero and no carriage return.
pub data IsLine : Bytes → Type 0 where
  line_end : IsLine []
  line_byte : {c : ℕ} {s : Bytes} → (c == 0) ≡ false → (c == 13) ≡ false → IsLine s → IsLine (c ∷ s)

pub data AreLines : List Bytes → Type 0 where
  no_lines : AreLines []
  line_more :
      {line : Bytes} {lines : List Bytes} → IsLine line → AreLines lines → AreLines (line ∷ lines)

-- The file of some lines.
abbrev pub file_of : List Bytes → Bytes
file_of [] = []
file_of (line ∷ lines) = line ++ (new_line ++ file_of lines)

no_match : (c : ℕ) (s : Bytes) → (c == 13) ≡ false → starts_new_line (c ∷ s) ≡ false
no_match c [] e = refl
no_match c (d ∷ s) e = rw e refl

find_new_line-line :
    (line rest : Bytes)
    → IsLine line
    → find_new_line (line ++ (new_line ++ rest)) ≡ ok (some (line, rest))
unfolding find_new_line
find_new_line-line [] rest line_end = refl
find_new_line-line (c ∷ s) rest (line_byte nonzero other l) =
    rw (nonzero, no_match c (s ++ (new_line ++ rest)) other, find_new_line-line s rest l) refl

read_lines-step :
    (n : ℕ) (line rest : Bytes)
    → IsLine line
    → read_lines (suc n) (line ++ (new_line ++ rest))
      ≡ (do lines ← read_lines n rest; ok (line ∷ lines))
unfolding read_lines find_new_line
read_lines-step n [] rest l = refl
read_lines-step n (c ∷ s) rest l = rw (find_new_line-line (c ∷ s) rest l) refl

read_lines-zero : (n : ℕ) → read_lines n (0 ∷ []) ≡ ok []
unfolding read_lines find_new_line
read_lines-zero zero = refl
read_lines-zero (suc n) = refl

read_lines-file_of :
    (n : ℕ) (lines : List Bytes)
    → AreLines lines
    → length lines ≤ n
    → read_lines n (file_of lines ++ 0 ∷ []) ≡ ok lines
read_lines-file_of n [] ls few = read_lines-zero n
read_lines-file_of zero (line ∷ lines) ls few = absurd (omega (arith, few))
read_lines-file_of (suc n) (line ∷ lines) (line_more l ls) few =
    ap (read_lines (suc n)) (append_assoc line (new_line ++ file_of lines) (0 ∷ []))
    ∙ (read_lines-step n line (file_of lines ++ 0 ∷ []) l
        ∙ eq_bind _ (read_lines-file_of n lines ls (omega (arith, few))))

read_buffer-small : (file : Bytes) → length file < max_file_size → read_buffer file ≡ file ++ 0 ∷ []
unfolding read_buffer
read_buffer-small file small =
    if_true (leb (length file + 1) max_file_size) _ _ (le→leb _ _ (omega (arith, small)))

pub read_lines-read_buffer :
    (depth : ℕ) (lines : List Bytes)
    → AreLines lines
    → length lines ≤ depth
    → length (file_of lines) < max_file_size
    → read_lines depth (read_buffer (file_of lines)) ≡ ok lines
read_lines-read_buffer depth lines ls few small =
    ap (read_lines depth) (read_buffer-small (file_of lines) small)
    ∙ read_lines-file_of depth lines ls few

pub get_history-file_of :
    (depth : ℕ) (lines : List Bytes)
    → AreLines lines
    → length lines ≤ depth
    → length (file_of lines) < max_file_size
    → get_history depth (some (file_of lines)) ≡ ok (some lines)
unfolding get_history
get_history-file_of depth lines ls few small =
    eq_bind _ (read_lines-read_buffer depth lines ls few small)
