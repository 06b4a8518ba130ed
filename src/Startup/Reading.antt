-- ===== src/Startup/Reading.antt =====
-- How the loop over a file of texts goes through its lines.
use elfloader3_elfs_archive.Prelude.{
  ℕ, ◌+◌, ◌≤◌, ◌<◌, ◌≡◌, ◌⊎◌, inl, inr, refl, sym, ap, ◌∙◌, false, Bytes, List, [], ◌∷◌, ◌++◌,
  append_assoc, append-nil, Out, ok, eq_bind, length, length-append, ltb, leb, ◌==◌, ◌||◌, if_true,
  if_false, arith,
}
use elfloader3_elfs_archive.Startup.Language.{data_num, Lines, end_line, take_byte, read_texts}

-- No zero and no end of a line.
pub data IsText : Bytes → Type 0 where
  text_end : IsText []
  text_byte :
      {c : ℕ} {s : Bytes}
      → (c == 0) ≡ false
      → (c == 10 || c == 13) ≡ false
      → IsText s
      → IsText (c ∷ s)

pub record IsEntry (s : Bytes) : Type 0 where
  pub text : IsText s
  pub nonempty : 0 < length s
  pub short : length s ≤ 128

pub data AreEntries : List Bytes → Type 0 where
  no_entries : AreEntries []
  entry_more : {s : Bytes} {es : List Bytes} → IsEntry s → AreEntries es → AreEntries (s ∷ es)

-- The file that has the entries, each with the end of its line.
abbrev pub file_of : List Bytes → Bytes
file_of [] = []
file_of (s ∷ es) = s ++ (13 ∷ 10 ∷ file_of es)

-- The loop over the rest of a file.
abbrev pub read_rest : Bytes → Lines → Out Lines
read_rest rest s = read_texts (length rest) (rest ++ 0 ∷ []) s

read_rest-full : (rest : Bytes) (s : Lines) → data_num ≤ length s.texts → read_rest rest s ≡ ok s
unfolding read_texts
read_rest-full [] s full = refl
read_rest-full (c ∷ rest) s full =
    if_true (c == 0 || leb data_num (length s.texts)) _ _ (ground (arith, full))

read_rest-byte :
    (c : ℕ) (rest : Bytes) (s s' : Lines)
    → (c == 0) ≡ false
    → length s.texts < data_num
    → take_byte c s ≡ ok s'
    → read_rest (c ∷ rest) s ≡ read_rest rest s'
unfolding read_texts
read_rest-byte c rest s s' nonzero few e =
    if_false (c == 0 || leb data_num (length s.texts)) _ _ (ground (arith, nonzero, few))
    ∙ eq_bind _ e

take_byte-text :
    (c : ℕ) (texts : List Bytes) (line : Bytes)
    → (c == 10 || c == 13) ≡ false
    → length line < 128
    → take_byte c (record { texts = texts; line = line })
      ≡ ok (record { texts = texts; line = line ++ c ∷ [] })
unfolding take_byte
take_byte-text c texts line other fits =
    if_false _ _ _ other ∙ if_true (ltb (length line) 128) _ _ (ground (arith, fits))

read_rest-text :
    (s rest : Bytes) (texts : List Bytes) (line : Bytes)
    → IsText s
    → length texts < data_num
    → length line + length s ≤ 128
    → read_rest (s ++ rest) (record { texts = texts; line = line })
      ≡ read_rest rest (record { texts = texts; line = line ++ s })
read_rest-text [] rest texts line h few fits =
    ap (λ l. read_rest rest (record { texts = texts; line = l })) (sym (append-nil line))
read_rest-text (c ∷ s) rest texts line (text_byte nonzero other h) few fits =
    read_rest-byte c (s ++ rest) _ _ nonzero few
      (take_byte-text c texts line other (omega (arith, fits)))
    ∙ (read_rest-text s rest texts (line ++ c ∷ []) h few
          (omega (arith, fits, length-append line (c ∷ [])))
        ∙ ap (λ l. read_rest rest (record { texts = texts; line = l }))
            (append_assoc line (c ∷ []) s))

end_line-nonempty :
    (texts : List Bytes) (line : Bytes)
    → 0 < length line
    → end_line (record { texts = texts; line = line })
      ≡ record { texts = texts ++ line ∷ []; line = [] }
unfolding end_line
end_line-nonempty texts line nonempty = if_true (ltb 0 (length line)) _ _ (ground (arith, nonempty))

end_line-empty :
    (texts : List Bytes)
    → end_line (record { texts = texts; line = [] }) ≡ record { texts = texts; line = [] }
unfolding end_line
end_line-empty texts = refl

take_byte-end :
    (s : Lines) → (take_byte 13 s ≡ ok (end_line s)) × (take_byte 10 s ≡ ok (end_line s))
unfolding take_byte
take_byte-end s = (refl, refl)

pub lt_or_le : (a b : ℕ) → (a < b) ⊎ (b ≤ a)
lt_or_le a b = ground arith

-- The second byte of the end of a line is not reached behind the last text.
read_rest-feed :
    (rest : Bytes) (texts : List Bytes)
    → read_rest (10 ∷ rest) (record { texts = texts; line = [] })
      ≡ read_rest rest (record { texts = texts; line = [] })
read_rest-feed rest texts =
    let s : Lines = record { texts = texts; line = [] } in
    elim (lt_or_le (length texts) data_num) [
      | inl few ↦
          read_rest-byte 10 rest s s refl few ((take_byte-end s).1 ∙ ap ok (end_line-empty texts))
      | inr full ↦ read_rest-full (10 ∷ rest) s full ∙ sym (read_rest-full rest s full)
    ]

read_rest-entry :
    (entry rest : Bytes) (texts : List Bytes)
    → IsEntry entry
    → length texts < data_num
    → read_rest (entry ++ (13 ∷ 10 ∷ rest)) (record { texts = texts; line = [] })
      ≡ read_rest rest (record { texts = texts ++ entry ∷ []; line = [] })
read_rest-entry entry rest texts h few =
    read_rest-text entry (13 ∷ 10 ∷ rest) texts [] h.text few (omega (arith, h.short))
    ∙ (read_rest-byte 13 (10 ∷ rest) _ _ refl few (
          (take_byte-end (record { texts = texts; line = entry })).0
          ∙ ap ok (end_line-nonempty texts entry h.nonempty))
        ∙ read_rest-feed rest (texts ++ entry ∷ []))

pub read_rest-file_of :
    (es texts : List Bytes)
    → AreEntries es
    → length texts + length es ≤ data_num
    → read_rest (file_of es) (record { texts = texts; line = [] })
      ≡ ok (record { texts = texts ++ es; line = [] })
unfolding read_texts
read_rest-file_of [] texts h few =
    ap (λ t. ok (record { texts = t; line = [] })) (sym (append-nil texts))
read_rest-file_of (e ∷ es) texts (entry_more h hs) few =
    read_rest-entry e (file_of es) texts h (omega (arith, few))
    ∙ (read_rest-file_of es (texts ++ e ∷ []) hs (omega (arith, few, length-append texts (e ∷ [])))
        ∙ ap (λ t. ok (record { texts = t; line = [] })) (append_assoc texts (e ∷ []) es))
