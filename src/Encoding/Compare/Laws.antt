-- ===== src/Encoding/Compare/Laws.antt =====
-- `strcmp_nocase` as an equality test.
use elfloader3_elfs_archive.Prelude.{
  ℕ, ◌<◌, ◌≡◌, ◌≢◌, refl, sym, ◌∙◌, true, false, Bytes, [], ◌∷◌, map, ltb, ◌==◌, ◌||◌, arith,
  Bool-cases, inl, inr, ==→eq, all_below, all_below_sound, pos, sub_ℕ,
}
use mathlib.Core.List.{cons≢nil, head-eq_of_cons-eq, tail-eq_of_cons-eq}
use elfloader3_elfs_archive.Encoding.Compare.{fold_case, strcmp_nocase}

-- What a C string holds in front of its closing zero.
unfoldable pub CString : Bytes → Type 0
CString [] = Unit
CString (c ∷ s) = ((0 < c) × (c < 256)) × CString s

folded_table : all_below 256 (λ c. c == 0 || ltb 0 (fold_case c)) ≡ true
unfolding fold_case
folded_table = refl

fold_case-pos : (c : ℕ) → 0 < c → c < 256 → 0 < fold_case c
fold_case-pos c above lt =
    let entry = all_below_sound 256 (λ c. c == 0 || ltb 0 (fold_case c)) c folded_table lt in
    ground (arith, entry, above)

sub_ℕ-zero : (a b : ℕ) → sub_ℕ a b ≡ pos 0 → a ≡ b
sub_ℕ-zero a b h = ground (arith, h)

pos-sub : (a : ℕ) → sub_ℕ a 0 ≡ pos a
pos-sub a = ground arith

ne_of_test : {a b : ℕ} → (a == b) ≡ false → a ≢ b
ne_of_test h e = ground (arith, h, e)

-- For two C strings, `strcmp_nocase` returns 0 exactly if they are equal once every byte is folded.
pub strcmp_nocase-zero :
    (s t : Bytes)
    → CString s
    → CString t
    → (strcmp_nocase s t ≡ pos 0 → map fold_case s ≡ map fold_case t)
      × (map fold_case s ≡ map fold_case t → strcmp_nocase s t ≡ pos 0)
unfolding strcmp_nocase CString
strcmp_nocase-zero [] [] hs ht = ((λ e. refl), (λ e. refl))
strcmp_nocase-zero [] (d ∷ t) hs ((dpos, dlt), ht) = (
  (λ e. absurd (omega (arith, sub_ℕ-zero 0 (fold_case d) e, fold_case-pos d dpos dlt))),
  (λ e. absurd (cons≢nil (sym e))),
)
strcmp_nocase-zero (c ∷ s) [] ((cpos, clt), hs) ht = (
  (λ e. absurd (
      omega
        (arith, sub_ℕ-zero (fold_case c) 0 (pos-sub (fold_case c) ∙ e), fold_case-pos c cpos clt))),
  (λ e. absurd (cons≢nil e)),
)
strcmp_nocase-zero (c ∷ s) (d ∷ t) (hc, hs) (hd, ht) =
    let (to, from) = strcmp_nocase-zero s t hs ht in
    elim (Bool-cases (fold_case c == fold_case d)) [
      | inl same ↦ rw same (
        (λ e i. ==→eq (fold_case c) (fold_case d) same i ∷ to e i),
        (λ e. from (tail-eq_of_cons-eq e)),
      )
      | inr other ↦ rw other (
        (λ e. absurd (ne_of_test other (sub_ℕ-zero (fold_case c) (fold_case d) e))),
        (λ e. absurd (ne_of_test other (head-eq_of_cons-eq e))),
      )
    ]
