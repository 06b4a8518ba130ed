-- ===== src/Startup/Word.antt =====
-- How a field of the identity's file is read into its array.
use elfloader3_elfs_archive.Prelude.{
  ℕ, ◌+◌, ◌≤◌, ◌≡◌, refl, sym, ap, ◌∙◌, true, false, Bytes, [], ◌∷◌, ◌++◌, append_assoc, ok, length,
  length-append, set, set-append_length, ltb, ◌==◌, ◌||◌, Bool, if_true, if_false, arith,
}
use elfloader3_elfs_archive.Startup.Auth.{read_field}

-- No byte below `least`, and no dot.
pub data IsField (least : ℕ) : Bytes → Type 0 where
  field_end : IsField least []
  field_byte :
      {c : ℕ} {s : Bytes}
      → (ltb c least || c == 46) ≡ false
      → IsField least s
      → IsField least (c ∷ s)

pub IsField-append :
    {least : ℕ} (s t : Bytes) → IsField least s → IsField least t → IsField least (s ++ t)
IsField-append [] t field_end ht = ht
IsField-append (c ∷ s) t (field_byte h hs) ht = field_byte h (IsField-append s t hs ht)

or_true : (b : Bool) → b || true ≡ true
or_true true = refl
or_true false = refl

module _ (least limit : ℕ) where
  read_field-byte :
      (c : ℕ) (s : Bytes) (f : ℕ) (array : Bytes)
      → (ltb c least || c == 46) ≡ false
      → ltb f limit ≡ true
      → read_field least limit (c ∷ s) f array ≡ read_field least limit s (f + 1) (set array f c)
  unfolding read_field
  read_field-byte c s f array on fits = if_false _ _ _ on ∙ rw fits refl

  read_field-dot :
      (rest : Bytes) (f : ℕ) (array : Bytes)
      → read_field least limit (46 ∷ rest) f array
        ≡ ok (record { stop = 46; rest = rest; array = array })
  unfolding read_field
  read_field-dot rest f array = if_true _ _ _ (or_true (ltb 46 least))

  -- The bytes go over what the array has at their places, and what follows there stays.
  pub read_field-IsField :
      (w rest pre old tail : Bytes)
      → IsField least w
      → length old ≡ length w
      → length pre + length w ≤ limit
      → read_field least limit (w ++ 46 ∷ rest) (length pre) (pre ++ (old ++ tail))
        ≡ ok (record { stop = 46; rest = rest; array = pre ++ (w ++ tail) })
  read_field-IsField [] rest pre [] tail h same fits =
      read_field-dot rest (length pre) (pre ++ tail)
  read_field-IsField [] rest pre (o ∷ old) tail h same fits = cc
  read_field-IsField (c ∷ w) rest pre [] tail h same fits = cc
  read_field-IsField (c ∷ w) rest pre (o ∷ old) tail (field_byte on h) same fits =
      let longer = length-append pre (c ∷ []) in
      read_field-byte c (w ++ 46 ∷ rest) (length pre) (pre ++ (o ∷ (old ++ tail))) on
        (ground (arith, fits))
      ∙ (ap (read_field least limit (w ++ 46 ∷ rest) (length pre + 1)) (
            set-append_length pre o c (old ++ tail) ∙ sym (append_assoc pre (c ∷ []) (old ++ tail)))
          ∙ (ap (λ f. read_field least limit (w ++ 46 ∷ rest) f ((pre ++ c ∷ []) ++ (old ++ tail)))
                (sym longer)
              ∙ (read_field-IsField w rest (pre ++ c ∷ []) old tail h (omega (arith, same))
                    (omega (arith, fits, longer))
                  ∙ ap (λ array. ok (record { stop = 46; rest = rest; array = array }))
                      (append_assoc pre (c ∷ []) (w ++ tail)))))
