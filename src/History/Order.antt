-- ===== src/History/Order.antt =====
-- The loops over the array of the history, as functions of lists.
use elfloader3_elfs_archive.Prelude.{
  ℕ, zero, suc, ◌≤◌, ◌<◌, ◌≡◌, refl, sym, ap, ◌∙◌, Bytes, [], ◌∷◌, ◌++◌, append_assoc, Option,
  length, take, drop, set, length-set, get_elem?-set_self, arith,
}
use elfloader3_elfs_archive.History.{Array, pointer_at, to_front, shift_down}

take-set : (h : Array) (i j : ℕ) (p : Option Bytes) → i ≤ j → take i (set h j p) ≡ take i h
take-set h zero j p le = refl
take-set [] (suc i) j p le = refl
take-set (y ∷ h) (suc i) zero p le = absurd (omega (arith, le))
take-set (y ∷ h) (suc i) (suc j) p le = ap (λ l. y ∷ l) (take-set h i j p (omega (arith, le)))

drop-set_below : (h : Array) (i j : ℕ) (p : Option Bytes) → i < j → drop j (set h i p) ≡ drop j h
drop-set_below h i zero p lt = absurd (omega (arith, lt))
drop-set_below [] i (suc j) p lt = refl
drop-set_below (y ∷ h) zero (suc j) p lt = refl
drop-set_below (y ∷ h) (suc i) (suc j) p lt = drop-set_below h i j p (omega (arith, lt))

drop-set :
    (h : Array) (i : ℕ) (p : Option Bytes) → i < length h → drop i (set h i p) ≡ p ∷ drop (suc i) h
drop-set [] i p lt = absurd (omega (arith, lt))
drop-set (y ∷ h) zero p lt = refl
drop-set (y ∷ h) (suc i) p lt = drop-set h i p (omega (arith, lt))

take-suc : (h : Array) (i : ℕ) → i < length h → take (suc i) h ≡ take i h ++ pointer_at h i ∷ []
take-suc [] i lt = absurd (omega (arith, lt))
take-suc (y ∷ h) zero lt = refl
take-suc (y ∷ h) (suc i) lt = ap (λ l. y ∷ l) (take-suc h i (omega (arith, lt)))

pointer_at-set :
    (h : Array) (i : ℕ) (p : Option Bytes) → i < length h → pointer_at (set h i p) i ≡ p
pointer_at-set h i p lt = rw (pointer_at, get_elem?-set_self h i p lt) refl

-- The entries before the last place go on by one.
pub shift_down-pushed :
    (n : ℕ) (x : Option Bytes) (h : Array)
    → n ≤ length h
    → shift_down n (x ∷ h) ≡ x ∷ (take n (x ∷ h) ++ drop n h)
unfolding shift_down
shift_down-pushed zero x h le = refl
shift_down-pushed (suc i) x h le =
    let p = pointer_at (x ∷ h) i in
    let lt : i < length h = omega (arith, le) in
    let le' : i ≤ length (set h i p) = omega (arith, length-set h i p, le) in
    let lt' : i < length (x ∷ h) = omega (arith, le) in
    shift_down-pushed i x (set h i p) le'
    ∙ ap (λ l. x ∷ l)
        (rw (take-set (x ∷ h) i (suc i) p (omega arith), drop-set h i p lt)
          (sym (append_assoc (take i (x ∷ h)) (p ∷ []) (drop (suc i) h))
            ∙ ap (λ l. l ++ drop (suc i) h) (sym (take-suc (x ∷ h) i lt'))))

-- An entry is brought to the front, and those before it go on by one place.
pub to_front-first :
    (n : ℕ) (h : Array)
    → n < length h
    → to_front n h ≡ pointer_at h n ∷ (take n h ++ drop (suc n) h)
unfolding to_front
to_front-first zero [] lt = absurd (omega (arith, lt))
to_front-first zero (x ∷ h) lt = refl
to_front-first (suc i) h lt =
    let p = pointer_at h i in
    let q = pointer_at h (suc i) in
    let h1 = set h (suc i) p in
    let l1 = length-set h (suc i) p in
    let l2 = length-set h1 i q in
    let at : i < length h1 = omega (arith, l1, lt) in
    let at' : i < length h = omega (arith, lt) in
    let first : pointer_at (set h1 i q) i ≡ q = pointer_at-set h1 i q at in
    let before : take i (set h1 i q) ≡ take i h =
      take-set h1 i i q (omega arith) ∙ take-set h i (suc i) p (omega arith) in
    let after : drop (suc i) (set h1 i q) ≡ p ∷ drop (suc (suc i)) h =
      drop-set_below h1 i (suc i) q (omega arith) ∙ drop-set h (suc i) p lt in
    to_front-first i (set h1 i q) (omega (arith, l1, l2, lt))
    ∙ rw (first, before, after)
        (ap (λ l. q ∷ l)
          (sym (append_assoc (take i h) (p ∷ []) (drop (suc (suc i)) h))
            ∙ ap (λ l. l ++ drop (suc (suc i)) h) (sym (take-suc h i at'))))
