-- ===== src/Startup/Entries.antt =====
-- What becomes of a file of texts.
use elfloader3_elfs_archive.Prelude.{
  ℕ, zero, suc, ◌-◌, ◌≤◌, ◌<◌, ◌≡◌, inl, inr, refl, sym, ap, ◌∙◌, Bool, true, false, Bytes, List,
  [], ◌∷◌, ◌++◌, append-nil, none, some, Out, ok, fault, bad_pointer, or_fault, ◌>>=◌, eq_bind,
  length, length-append, take_all, set, get_elem?, get_elem?-append_length, set-append_length,
  replicate, ltb, if◌then◌else◌, if_intro, arith,
}
use elfloader3_elfs_archive.Oms.Forms.{codes}
use elfloader3_elfs_archive.Startup.Language.{
  data_num, lang_code, Pack, end_line, read_texts, end_file, set_code, missing_text, fill_missing,
  load_texts, lgp_init_lang_pack,
}
use elfloader3_elfs_archive.Startup.Reading.{AreEntries, file_of, read_rest-file_of, lt_or_le}

end_file-ended : (texts : List Bytes) → end_file (record { texts = texts; line = [] }) ≡ texts
unfolding end_file end_line
end_file-ended texts = if_intro (λ t. t ≡ texts) (ltb (length texts) data_num) refl refl

-- The texts of the file; the last is the code of the language, and no longer than two bytes.
abbrev pub texts_of : List Bytes → Bytes → List Bytes
texts_of front code = front ++ (if ltb 2 (length code) then codes "ru" else code) ∷ []

-- A file with all of the texts fills the table; one with fewer leaves no code of the language, and the
-- length of a missing text is asked for.
pub data Filled (es : List Bytes) (r : Out Pack) : Type 0 where
  full :
      (front : List Bytes) (code : Bytes)
      → es ≡ front ++ code ∷ []
      → r ≡ ok (record { texts = texts_of front code; loaded = true })
      → Filled es r
  short : length es < data_num → r ≡ fault bad_pointer → Filled es r

push_if :
    (b : Bool) (front : List Bytes) (code : Bytes)
    → ok (if b then front ++ codes "ru" ∷ [] else front ++ code ∷ [])
      ≡ ok (front ++ (if b then codes "ru" else code) ∷ [])
push_if true front code = refl
push_if false front code = refl

set_code-full :
    (front : List Bytes) (code : Bytes)
    → length front ≡ lang_code
    → set_code (front ++ code ∷ []) ≡ ok (texts_of front code)
unfolding set_code
set_code-full front code n =
    let at : get_elem? (front ++ code ∷ []) lang_code ≡ some code =
      ap (get_elem? (front ++ code ∷ [])) (sym n) ∙ get_elem?-append_length front code [] in
    let put : set (front ++ code ∷ []) lang_code (codes "ru") ≡ front ++ codes "ru" ∷ [] =
      ap (λ i. set (front ++ code ∷ []) i (codes "ru")) (sym n)
      ∙ set-append_length front code (codes "ru") [] in
    eq_bind _ (ap (or_fault bad_pointer) at)
    ∙ (ap (λ t. ok (if ltb 2 (length code) then t else front ++ code ∷ [])) put
        ∙ push_if (ltb 2 (length code)) front code)

get_elem?-short : (es : List Bytes) (i : ℕ) → length es ≤ i → get_elem? es i ≡ none
get_elem?-short [] i h = refl
get_elem?-short (e ∷ es) zero h = absurd (omega (arith, h))
get_elem?-short (e ∷ es) (suc i) h = get_elem?-short es i (omega (arith, h))

set_code-short : (es : List Bytes) → length es < data_num → set_code es ≡ fault bad_pointer
unfolding set_code
set_code-short es few = rw (get_elem?-short es lang_code (omega (arith, few))) refl

fill_missing-full : (texts : List Bytes) → length texts ≡ data_num → fill_missing texts ≡ texts
unfolding fill_missing
fill_missing-full texts n =
    ap (λ k. texts ++ replicate (data_num - k) missing_text) n ∙ append-nil texts

load_texts-file_of :
    (es : List Bytes)
    → AreEntries es
    → length es ≤ data_num
    → load_texts (length (file_of es)) (file_of es)
      ≡ (do texts ← set_code es; ok (record { texts = fill_missing texts; loaded = true }))
unfolding load_texts
load_texts-file_of es h few =
    eq_bind _ (
      ap (λ b. read_texts (length (file_of es)) (b ++ 0 ∷ []) (record { texts = []; line = [] }))
        (take_all (length (file_of es)) (file_of es) (omega arith))
      ∙ read_rest-file_of es [] h (omega (arith, few)))
    ∙ ap (λ t. set_code t >>= λ texts. ok (record { texts = fill_missing texts; loaded = true }))
        (end_file-ended es)

length-texts_of :
    (front : List Bytes) (code : Bytes)
    → length front ≡ lang_code
    → length (texts_of front code) ≡ data_num
length-texts_of front code n =
    omega (arith, n, length-append front ((if ltb 2 (length code) then codes "ru" else code) ∷ []))

split_last :
    (n : ℕ) (es : List Bytes)
    → length es ≡ suc n
    → (front : List Bytes) × (code : Bytes) × (es ≡ front ++ code ∷ []) × (length front ≡ n)
split_last n [] h = cc
split_last zero (e ∷ []) h = ([], e, refl, refl)
split_last zero (e ∷ e' ∷ es) h = absurd (omega (arith, h))
split_last (suc n) (e ∷ es) h =
    let (front, code, same, len) = split_last n es (omega (arith, h)) in
    (e ∷ front, code, ap (λ l. e ∷ l) same, ap suc len)

load_texts-Filled :
    (es : List Bytes)
    → AreEntries es
    → length es ≤ data_num
    → Filled es (load_texts (length (file_of es)) (file_of es))
load_texts-Filled es h few = elim (lt_or_le (length es) data_num) [
  | inl missing ↦ short missing (
      load_texts-file_of es h few
      ∙ ap (λ m. m >>= λ texts. ok (record { texts = fill_missing texts; loaded = true }))
          (set_code-short es missing))
  | inr all ↦
      (let (front, code, same, n) = split_last lang_code es (omega (arith, all, few)) in
        full front code same (
          load_texts-file_of es h few
          ∙ (eq_bind _ (ap set_code same ∙ set_code-full front code n)
              ∙ ap (λ t. ok (record { texts = t; loaded = true }))
                  (fill_missing-full (texts_of front code) (length-texts_of front code n)))))
]

-- A file that has up to 78 texts of 1 to 128 bytes, each with the end of its line, and can be read: if
-- it has all of the 78, they are the texts of the program, but for the last, where a text that is
-- longer than two bytes gives way to the code of Russian; if it has fewer, the program does not get as
-- far as the texts that stand for missing ones, since it takes the length of the last, which is missing.
pub lgp_init_lang_pack-Filled :
    (es : List Bytes)
    → AreEntries es
    → length es ≤ data_num
    → Filled es (
        lgp_init_lang_pack (record {
          size = some (length (file_of es));
          bytes = some (file_of es);
          has_buffer = true;
        }))
unfolding lgp_init_lang_pack
lgp_init_lang_pack-Filled es h few = load_texts-Filled es h few
