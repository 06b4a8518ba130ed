-- ===== src/Net/Request/Moving.antt =====
-- How the text of a form gets behind the content of a request.
use elfloader3_elfs_archive.Prelude.{
  ℕ, suc, zero, ◌+◌, ◌-◌, ◌≤◌, ◌≡◌, refl, sym, ap, ◌∙◌, false, Bytes, [], ◌∷◌, ◌++◌, append_assoc,
  ok, length, take, drop, length-append, take-append_length, drop-append_length, leb, le→leb, ◌==◌,
  if_true, arith,
}
use mathlib.Core.Path.{subst}
use elfloader3_elfs_archive.Net.Request.{
  goto_params_offset, until_zero, write_at, move_text, join_params, first_bytes,
}

-- A C string without its zero.
pub data IsText : Bytes → Type 0 where
  ends : IsText []
  goes_on : {c : ℕ} {s : Bytes} → (c == 0) ≡ false → IsText s → IsText (c ∷ s)

pub until_zero-text : (text rest : Bytes) → IsText text → until_zero (text ++ 0 ∷ rest) ≡ ok text
unfolding until_zero
until_zero-text [] rest ends = refl
until_zero-text (c ∷ s) rest (goes_on e t) = rw (e, until_zero-text s rest t) refl

pub first_bytes-all : (n : ℕ) (xs ys : Bytes) → n ≡ length xs → first_bytes n (xs ++ ys) ≡ ok xs
first_bytes-all n xs ys e =
    subst (λ k. first_bytes k (xs ++ ys) ≡ ok xs) (sym e)
      (if_true (leb (length xs) (length (xs ++ ys))) _ _
          (le→leb _ _ (omega (arith, length-append xs ys)))
        ∙ ap ok (take-append_length xs ys))

-- A copy over the beginning of what lies before the text leaves the text where it is.
length-drop : (n : ℕ) (xs : Bytes) → length (drop n xs) ≡ length xs - n
length-drop zero xs = omega arith
length-drop (suc n) [] = omega arith
length-drop (suc n) (x ∷ xs) = omega (arith, length-drop n xs)

drop-append_le : (n : ℕ) (xs ys : Bytes) → n ≤ length xs → drop n (xs ++ ys) ≡ drop n xs ++ ys
drop-append_le zero xs ys h = refl
drop-append_le (suc n) [] ys h = absurd (omega (arith, h))
drop-append_le (suc n) (x ∷ xs) ys h = drop-append_le n xs ys (omega (arith, h))

pub drop-exact : (n : ℕ) (xs ys : Bytes) → n ≡ length xs → drop n (xs ++ ys) ≡ ys
drop-exact n xs ys e = ap (λ k. drop k (xs ++ ys)) e ∙ drop-append_length xs ys

take-exact : (n : ℕ) (xs ys : Bytes) → n ≡ length xs → take n (xs ++ ys) ≡ xs
take-exact n xs ys e = ap (λ k. take k (xs ++ ys)) e ∙ take-append_length xs ys

copied :
    (req junk tail : Bytes) (n : ℕ)
    → n ≡ length junk
    → length req ≤ n
    → drop n (req ++ drop (length req) (junk ++ tail)) ≡ tail
copied req junk tail n e fits =
    let l1 = length-append req (drop (length req) junk) in
    let l2 = length-drop (length req) junk in
    ap (λ t. drop n (req ++ t)) (drop-append_le (length req) junk tail (omega (arith, e, fits)))
    ∙ (ap (drop n) (sym (append_assoc req (drop (length req) junk) tail))
        ∙ drop-exact n (req ++ drop (length req) junk) tail (omega (arith, e, fits, l1, l2)))

moved-text : (text rest : Bytes) → take (length text + 1) (text ++ 0 ∷ rest) ≡ text ++ 0 ∷ []
moved-text text rest =
    ap (take (length text + 1)) (sym (append_assoc text (0 ∷ []) rest))
    ∙ take-exact (length text + 1) (text ++ 0 ∷ []) rest
        (omega (arith, length-append text (0 ∷ [])))

write_at-end :
    (place : ℕ) (pre moved behind : Bytes)
    → place ≡ length pre
    → (more : Bytes) × (write_at place moved (pre ++ behind) ≡ (pre ++ moved) ++ more)
write_at-end place pre moved behind e = (
  drop (place + length moved) (pre ++ behind),
  ap (λ l. l ++ (moved ++ drop (place + length moved) (pre ++ behind)))
        (take-exact place pre behind e)
      ∙ sym (append_assoc pre moved (drop (place + length moved) (pre ++ behind))),
)

move_text-text :
    (place : ℕ) (pre behind text rest : Bytes)
    → place ≡ length pre
    → drop goto_params_offset (pre ++ behind) ≡ text ++ 0 ∷ rest
    → IsText text
    → (more : Bytes) × (move_text place (pre ++ behind) ≡ ok ((pre ++ (text ++ 0 ∷ [])) ++ more))
unfolding move_text
move_text-text place pre behind text rest e there t =
    let (more, w) = write_at-end place pre (text ++ 0 ∷ []) behind e in
    (more, rw (there, until_zero-text text rest t, moved-text text rest) (ap ok w))

pub join_params-text :
    (pre junk text rest : Bytes)
    → length junk ≡ goto_params_offset
    → length pre + 1 ≤ goto_params_offset
    → IsText text
    → (more : Bytes) × (join_params (pre ++ 0 ∷ []) (junk ++ (text ++ 0 ∷ rest))
        ≡ ok ((pre ++ (text ++ 0 ∷ [])) ++ more))
unfolding join_params
join_params-text pre junk text rest e fits t =
    let req : Bytes = pre ++ 0 ∷ [] in
    let b : Bytes = junk ++ (text ++ 0 ∷ rest) in
    let lr = length-append pre (0 ∷ []) in
    let lb = length-append junk (text ++ 0 ∷ rest) in
    let behind : Bytes = 0 ∷ drop (length req) b in
    let whole : req ++ drop (length req) b ≡ pre ++ behind =
      append_assoc pre (0 ∷ []) (drop (length req) b) in
    let fits' : length req ≤ goto_params_offset = omega (arith, lr, fits) in
    let there = copied req junk (text ++ 0 ∷ rest) goto_params_offset (sym e) fits' in
    let (more, moved) =
      move_text-text (length req - 1) pre behind text rest (omega (arith, lr))
        (ap (drop goto_params_offset) (sym whole) ∙ there) t in
    (
      more,
      if_true (leb (length req) (length b)) _ _ (le→leb _ _ (omega (arith, lb, e, fits')))
          ∙ (ap (move_text (length req - 1)) whole ∙ moved),
    )
