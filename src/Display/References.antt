-- ===== src/Display/References.antt =====
-- Which reference `FindReference` finds.
use elfloader3_elfs_archive.Prelude.{
  ℕ, suc, ◌≡◌, ◌⊎◌, refl, ap, ◌∙◌, Bool, true, false, List, [], ◌∷◌, Option, none, some, Bool-cases,
  inl, inr, arith, leb, ltb, ◌==◌, ◌&&◌, if_true, if_false,
}
use elfloader3_elfs_archive.Oms.State.{RefCache}
use elfloader3_elfs_archive.Display.Lines.{first_ref, find_reference_by_begin, find_reference}

-- No reference has the property.
pub data NoneHas (p : RefCache → Bool) : List RefCache → Type 0 where
  none_left : NoneHas p []
  not_this : {r : RefCache} {rs : List RefCache} → p r ≡ false → NoneHas p rs → NoneHas p (r ∷ rs)

-- The `i`-th reference is the first one that has the property.
pub data IsFirst (p : RefCache → Bool) : List RefCache → ℕ → Type 0 where
  this_one : {r : RefCache} {rs : List RefCache} → p r ≡ true → IsFirst p (r ∷ rs) 0
  further_on :
      {r : RefCache} {rs : List RefCache} {i : ℕ}
      → p r ≡ false
      → IsFirst p rs i
      → IsFirst p (r ∷ rs) (suc i)

abbrev Answer : (RefCache → Bool) → List RefCache → Option ℕ → Type 0
Answer p rs o = ((o ≡ none) × NoneHas p rs) ⊎ ((i : ℕ) × (o ≡ some i) × IsFirst p rs i)

first_ref-cases : (p : RefCache → Bool) (rs : List RefCache) → Answer p rs (first_ref p rs)
unfolding first_ref
first_ref-cases p [] = inl (refl, none_left)
first_ref-cases p (r ∷ rs) = elim (Bool-cases (p r)) [
  | inl yes_here ↦ inr (0, if_true (p r) _ _ yes_here, this_one yes_here)
  | inr not_here ↦ elim (first_ref-cases p rs) [
    | inl (e, nobody) ↦ inl (if_false (p r) _ _ not_here ∙ rw e refl, not_this not_here nobody)
    | inr (i, e, first) ↦ inr (
      suc i,
      if_false (p r) _ _ not_here ∙ rw e (ap some (omega arith)),
      further_on not_here first,
    )
  ]
]

abbrev pub begins_at : ℕ → RefCache → Bool
begins_at place r = r.begin == place

abbrev pub holds : ℕ → RefCache → Bool
holds place r = leb r.begin place && ltb place r.end

-- `FindReference` finds the first reference that begins at the place; if none does, the first one that holds it;
-- and nothing exactly if no reference does either.
pub find_reference-cases :
    (rs : List RefCache) (place : ℕ)
    → ((i : ℕ) × (find_reference rs place ≡ some i) × IsFirst (begins_at place) rs i)
      ⊎ (NoneHas (begins_at place) rs
          × (((i : ℕ) × (find_reference rs place ≡ some i) × IsFirst (holds place) rs i)
              ⊎ ((find_reference rs place ≡ none) × NoneHas (holds place) rs)))
unfolding find_reference find_reference_by_begin
find_reference-cases rs place = elim (first_ref-cases (begins_at place) rs) [
  | inr (i, e, first) ↦ inl (i, rw (find_reference, e) refl, first)
  | inl (e, nobody) ↦ inr (
    nobody,
    (elim (first_ref-cases (holds place) rs) [
      | inr (i, e', first) ↦ inl (i, rw (find_reference, e) e', first)
      | inl (e', nobody') ↦ inr (rw (find_reference, e) e', nobody')
    ]),
  )
]
