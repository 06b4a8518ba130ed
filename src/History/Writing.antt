-- ===== src/History/Writing.antt =====
-- The loop that writes the entries.
use elfloader3_elfs_archive.Prelude.{
  ℕ, zero, suc, ◌+◌, ◌≤◌, ◌<◌, ◌≡◌, refl, sym, ap, ◌∙◌, Bytes, List, [], ◌∷◌, ◌++◌, append_assoc,
  append-nil, some, ok, eq_bind, ◌>>=◌, length, length-append, take, leb, le→leb, if◌then◌else◌,
  if_true, arith,
}
use elfloader3_elfs_archive.History.{
  max_file_size, new_line, Array, pointers, append_text, write_lines,
}
use elfloader3_elfs_archive.History.Lines.{file_of}

append_text-fits :
    (tmp s : Bytes) → length tmp + length s < max_file_size → append_text tmp s ≡ ok (tmp ++ s)
append_text-fits tmp s h =
    if_true (leb (length tmp + length s + 1) max_file_size) _ _ (le→leb _ _ (omega (arith, h)))

write_lines-step :
    (n : ℕ) (line : Bytes) (h : Array) (tmp : Bytes)
    → length tmp + (length line + 2) < max_file_size
    → write_lines (suc n) (some line ∷ h) tmp ≡ write_lines n h ((tmp ++ line) ++ new_line)
unfolding write_lines
write_lines-step n line h tmp fits =
    let l = length-append tmp line in
    eq_bind (λ (t : Bytes). append_text t new_line >>= (λ u. write_lines n h u))
      (append_text-fits tmp line (omega (arith, fits)))
    ∙ eq_bind (λ (u : Bytes). write_lines n h u)
        (append_text-fits (tmp ++ line) new_line (omega (arith, fits, l)))

write_lines-done : (h : Array) (tmp : Bytes) → write_lines 0 h tmp ≡ ok tmp
unfolding write_lines
write_lines-done h tmp = refl

pub write_lines-file_of :
    (lines : List Bytes) (more : Array) (tmp : Bytes)
    → length tmp + length (file_of lines) < max_file_size
    → write_lines (length lines) (pointers lines ++ more) tmp ≡ ok (tmp ++ file_of lines)
write_lines-file_of [] more tmp fits = write_lines-done more tmp ∙ ap ok (sym (append-nil tmp))
write_lines-file_of (line ∷ lines) more tmp fits =
    let rest = file_of lines in
    let l1 = length-append tmp line in
    let l2 = length-append (tmp ++ line) new_line in
    let l3 = length-append line (new_line ++ rest) in
    write_lines-step (length lines) line (pointers lines ++ more) tmp (omega (arith, fits, l3))
    ∙ (write_lines-file_of lines more ((tmp ++ line) ++ new_line) (omega (arith, fits, l1, l2, l3))
        ∙ ap ok
            (append_assoc (tmp ++ line) new_line rest ∙ append_assoc tmp line (new_line ++ rest)))

-- The entries of an array that are cut off.
pub take-pointers :
    (d : ℕ) (lines : List Bytes) (more : Array)
    → (rest : Array) × (take d (pointers lines ++ more) ≡ pointers (take d lines) ++ rest)
take-pointers zero lines more = ([], refl)
take-pointers (suc d) [] more = (take (suc d) more, refl)
take-pointers (suc d) (line ∷ lines) more =
    let (rest, e) = take-pointers d lines more in (rest, ap (λ h. some line ∷ h) e)

pub length-file_of-take :
    (d : ℕ) (lines : List Bytes) → length (file_of (take d lines)) ≤ length (file_of lines)
length-file_of-take zero lines = omega arith
length-file_of-take (suc d) [] = omega arith
length-file_of-take (suc d) (line ∷ lines) =
    let l1 = length-append line (new_line ++ file_of (take d lines)) in
    let l2 = length-append line (new_line ++ file_of lines) in
    omega (arith, length-file_of-take d lines, l1, l2)

pub length-take_min :
    (d : ℕ) (lines : List Bytes)
    → length (take d lines) ≡ (if leb (length lines) d then length lines else d)
length-take_min zero [] = refl
length-take_min zero (line ∷ lines) = ground arith
length-take_min (suc d) [] = ground arith
length-take_min (suc d) (line ∷ lines) = ground (arith, length-take_min d lines)
