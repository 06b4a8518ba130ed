-- ===== src/Browser/Names.antt =====
-- The names of the files of pages, as `ParseInputFilename` reads them.
use elfloader3_elfs_archive.Prelude.{
  ◌≡◌, refl, sym, ap, ◌∙◌, Bool, true, false, inl, inr, Bytes, [], ◌∷◌, ◌++◌, map, some, ok, none,
  ◌==◌, Bool-cases, if◌then◌else◌, if_false, if_intro, ℤ, pos, negsuc, suc, zero, arith,
}
use elfloader3_elfs_archive.Oms.Forms.{codes}
use elfloader3_elfs_archive.Encoding.Compare.{strcmp_nocase, fold_case}
use elfloader3_elfs_archive.Encoding.Compare.Laws.{CString, strcmp_nocase-zero}
use elfloader3_elfs_archive.Startup.Address.{
  Viewed, Files, mode_file, same_nocase, split_at_last, before, first_some, at_first, parse_ending,
  parse_input_filename,
}

-- A name that ends in ".oms" is a page's file.
abbrev pub oms_file : Bytes → Bytes
oms_file stem = stem ++ codes ".oms"

has_dot : Bytes → Bool
has_dot [] = false
has_dot (c ∷ s) = if c == 46 then true else has_dot s

has_dot-oms_file : (stem : Bytes) → has_dot (map fold_case (oms_file stem)) ≡ true
unfolding has_dot fold_case
has_dot-oms_file [] = refl
has_dot-oms_file (c ∷ stem) =
    if_intro (λ (b : Bool). b ≡ true) (fold_case c == 46) refl (has_dot-oms_file stem)

no_dot : has_dot (map fold_case (codes "bookmarks")) ≡ false
unfolding has_dot fold_case
no_dot = refl

true-false : {b : Bool} → b ≡ true → ¬ (b ≡ false)
true-false e e' = cc

is_zero : (z : ℤ) → elim z [ pos zero ↦ true | _ ↦ false ] ≡ true → z ≡ pos 0
is_zero (pos zero) h = refl
is_zero (pos (suc n)) h = cc
is_zero (negsuc n) h = cc

word_CString : CString (codes "bookmarks")
unfolding CString
word_CString = ground arith

-- Such a name is not the word for the bookmarks, which has no dot.
oms_file-other :
    (stem : Bytes)
    → CString (oms_file stem)
    → same_nocase (oms_file stem) (codes "bookmarks") ≡ false
unfolding CString
oms_file-other stem c = elim (Bool-cases (same_nocase (oms_file stem) (codes "bookmarks"))) [
  | inl same ↦ absurd (
      true-false
        (sym (
            ap has_dot (
              (strcmp_nocase-zero (oms_file stem) (codes "bookmarks") c word_CString).0
                (is_zero (strcmp_nocase (oms_file stem) (codes "bookmarks")) same)))
          ∙ has_dot-oms_file stem)
        no_dot)
  | inr other ↦ other
]

-- The last dot is the one in front of an ending without a dot.
pub split_at_last-append :
    (stem s ending : Bytes)
    → split_at_last 46 s ≡ some ([], ending)
    → split_at_last 46 (stem ++ s) ≡ some (stem, ending)
unfolding split_at_last
split_at_last-append [] s ending h = h
split_at_last-append (c ∷ stem) s ending h =
    ap (λ o. first_some (before c o) (at_first 46 c (stem ++ s)))
      (split_at_last-append stem s ending h)

split_at_last-oms_file :
    (stem : Bytes) → split_at_last 46 (oms_file stem) ≡ some (stem, codes "oms")
unfolding split_at_last
split_at_last-oms_file stem = split_at_last-append stem (codes ".oms") (codes "oms") refl

parse_ending-oms :
    (files : Files) (fn stem : Bytes) (v : Viewed)
    → parse_ending files fn (some (stem, codes "oms")) v
      ≡ ok (record { view_url = some fn; view_url_mode = mode_file }, true)
unfolding parse_ending strcmp_nocase fold_case
parse_ending-oms files fn stem v = refl

pub parse_input_filename-oms_file :
    (files : Files) (stem : Bytes) (v : Viewed)
    → CString (oms_file stem)
    → parse_input_filename files (oms_file stem) v
      ≡ ok (record { view_url = some (oms_file stem); view_url_mode = mode_file }, true)
unfolding parse_input_filename
parse_input_filename-oms_file files stem v c =
    if_false _ _ _ (oms_file-other stem c)
    ∙ (ap (λ o. parse_ending files (oms_file stem) o (record v { view_url = none }))
          (split_at_last-oms_file stem)
        ∙ parse_ending-oms files (oms_file stem) stem (record v { view_url = none }))
