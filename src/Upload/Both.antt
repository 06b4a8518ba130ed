-- ===== src/Upload/Both.antt =====
-- Two runs side by side, and the texts of a page against their counts.
use elfloader3_elfs_archive.Prelude.{
  ℕ, zero, suc, ◌+◌, ◌≤◌, ◌≡◌, refl, Bool, true, false, Bytes, [], ◌∷◌, some, Out, Fault, ok, fault,
  bad_pointer, ◌>>=◌, or_fault, length, take, drop, leb, ◌==◌, ◌||◌, if◌then◌else◌, Bool-cases, inl,
  inr, arith,
}
use elfloader3_elfs_archive.Encoding.Compare.{noref, short_at, slice_at, extract_omstr}
use elfloader3_elfs_archive.Upload.{c_string, text_at}

-- Where both runs have a result, the results are related.
pub data Both {A B : Type 0} (R : A → B → Type 0) : Out A → Out B → Type 0 where
  both : {a : A} {b : B} → R a b → Both R (ok a) (ok b)
  first_faults : {f : Fault} {n : Out B} → Both R (fault f) n
  second_faults : {m : Out A} {f : Fault} → Both R m (fault f)

pub Both-bind :
    {A B C D : Type 0} {R : A → B → Type 0} {S : C → D → Type 0} {m : Out A} {n : Out B}
    {f : A → Out C} {g : B → Out D}
    → Both R m n
    → ((a : A) (b : B) → R a b → Both S (f a) (g b))
    → Both S (m >>= f) (n >>= g)
Both-bind (both r) next = next _ _ r
Both-bind first_faults next = first_faults
Both-bind second_faults next = second_faults

-- The same run on both sides.
pub Both-refl : {A : Type 0} (m : Out A) → Both (λ (a b : A). a ≡ b) m m
Both-refl (ok a) = both refl
Both-refl (fault f) = first_faults

pub Both-if :
    {A B : Type 0} {R : A → B → Type 0} (c : Bool) {m m' : Out A} {n n' : Out B}
    → Both R m n
    → Both R m' n'
    → Both R (if c then m else m') (if c then n else n')
Both-if true p q = p
Both-if false p q = q

-- A text is no longer than what was counted for it.
abbrev pub IsCovered : Bytes → ℕ → Type 0
IsCovered text n = length text ≤ n

length-c_string : (s : Bytes) → length (c_string s) ≤ length s
unfolding c_string
length-c_string [] = omega arith
length-c_string (c ∷ s) = ground (arith, length-c_string s)

length-take_le : (n : ℕ) (s : Bytes) → length (take n s) ≤ n
length-take_le zero s = omega arith
length-take_le (suc n) [] = omega arith
length-take_le (suc n) (c ∷ s) = omega (arith, length-take_le n s)

-- `extract_omstr` after its test, with the length that stands before the string.
extracted-IsCovered :
    (oms : Bytes) (p : ℕ) (m : Out ℕ)
    → Both IsCovered
        ((m >>= (λ n. slice_at oms p n >>= (λ s. ok (some s))))
          >>= (λ o. or_fault bad_pointer o >>= (λ s. ok (c_string s))))
        m
unfolding slice_at
extracted-IsCovered oms p (fault f) = first_faults
extracted-IsCovered oms p (ok n) = elim (Bool-cases (leb (p + n) (length oms))) [
  | inl fits ↦
      rw fits
        (both (omega (arith, length-c_string (take n (drop p oms)), length-take_le n (drop p oms))))
  | inr behind ↦ rw behind first_faults
]

pub text_at-IsCovered : (oms : Bytes) (p : ℕ) → Both IsCovered (text_at oms p) (short_at oms p)
unfolding text_at extract_omstr
text_at-IsCovered oms p = elim (Bool-cases (leb (length oms) p || p == noref)) [
  | inl outside ↦ rw (text_at, outside) first_faults
  | inr inside ↦ rw (text_at, inside) (extracted-IsCovered oms (p + 2) (short_at oms p))
]
