-- ===== src/History/Adding.antt =====
-- Where an address stands among the entries.
use elfloader3_elfs_archive.Prelude.{
  ℕ, suc, ◌<◌, ◌≡◌, ◌⊎◌, refl, ap, true, false, Bytes, List, [], ◌∷◌, ◌++◌, none, some, length,
  take, drop, ◌==◌, ==→eq, eq→==, and_left, and_right, if◌then◌else◌, arith, Bool-cases, inl, inr,
}
use elfloader3_elfs_archive.History.{Array, pointers, pointer_at, same_text, find_url}

same_text-eq : (a b : Bytes) → same_text a b ≡ true → a ≡ b
unfolding same_text
same_text-eq [] [] h = refl
same_text-eq [] (b ∷ t) h = cc
same_text-eq (a ∷ s) [] h = cc
same_text-eq (a ∷ s) (b ∷ t) h =
    let e = ==→eq a b (and_left (a == b) (same_text s t) h) in
    let f = same_text-eq s t (and_right (a == b) (same_text s t) h) in rw (e, f) refl

pub same_text_refl : (a : Bytes) → same_text a a ≡ true
unfolding same_text
same_text_refl [] = refl
same_text_refl (a ∷ s) = rw (eq→== a a refl, same_text_refl s) refl

-- The lines without the first one that is the address.
unfoldable pub remove_url : Bytes → List Bytes → List Bytes
unfolding same_text
remove_url url [] = []
remove_url url (line ∷ lines) =
    let rest = remove_url url lines in if same_text line url then lines else line ∷ rest

-- Where an address is found, and what is left without it.
abbrev pub Found : Bytes → List Bytes → Type 0
Found url lines =
    (i : ℕ) × (find_url url lines ≡ some i)
    × (i < length lines)
    × (suc (length (remove_url url lines)) ≡ length lines)
    × ((more : Array)
        → (pointer_at (pointers lines ++ more) i ≡ some url)
          × (take i (pointers lines ++ more) ++ drop (suc i) (pointers lines ++ more)
              ≡ pointers (remove_url url lines) ++ more))

abbrev pub Missing : Bytes → List Bytes → Type 0
Missing url lines = (find_url url lines ≡ none) × (remove_url url lines ≡ lines)

next-Found :
    (url line : Bytes) (lines : List Bytes)
    → same_text line url ≡ false
    → Found url lines
    → Found url (line ∷ lines)
unfolding find_url remove_url
next-Found url line lines other (i, e, lt, l, at) = (
  suc i,
  rw (other, e) (ap some (omega arith)),
  omega (arith, lt),
  rw other (omega (arith, l)),
  (λ more. ((at more).0, rw other (ap (λ h. some line ∷ h) (at more).1))),
)

pub find_url-cases : (url : Bytes) (lines : List Bytes) → Missing url lines ⊎ Found url lines
unfolding find_url remove_url
find_url-cases url [] = inl (refl, refl)
find_url-cases url (line ∷ lines) = elim (Bool-cases (same_text line url)) [
  | inl same ↦ inr (
    0,
    rw same refl,
    omega arith,
    rw same refl,
    (λ more. (ap some (same_text-eq line url same), rw same refl)),
  )
  | inr other ↦ elim (find_url-cases url lines) [
    | inl (e, l) ↦ inl (rw (other, e) refl, rw (other, l) refl)
    | inr found ↦ inr (next-Found url line lines other found)
  ]
]
