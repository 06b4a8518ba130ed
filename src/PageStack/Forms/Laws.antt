-- ===== src/PageStack/Forms/Laws.antt =====
-- What is read back from the forms of the current page.
use elfloader3_elfs_archive.Prelude.{
  ℕ, ◌-◌, ◌<◌, ◌≤◌, ◌≡◌, refl, List, [], ◌∷◌, some, ok, ◌>>=◌, get_elem?-lt, get_elem?-set_self,
  length, ◌==◌, ==→eq, if◌then◌else◌, Bool-cases, inl, inr, arith, Bool, true, false,
}
use elfloader3_elfs_archive.PageStack.State.{UserText, UserList, Page, Stack}
use elfloader3_elfs_archive.PageStack.Forms.{
  put_user_list, put_user_text, find_user_text, find_user_list, current_page, write_current,
  set_user_list, set_user_text, get_user_text_by_ref_id, get_user_list_by_ref_id,
}

if_twice :
    {A : Type 0} (b : Bool) (x y z : A)
    → (if b then x else y) ≡ (if b then x else if b then z else y)
if_twice true x y z = refl
if_twice false x y z = refl

find-put_text :
    (refid r : ℕ) (text : List ℕ) (us : List UserText)
    → find_user_text r (put_user_text refid text us)
      ≡ (if refid == r then some text else find_user_text r us)
unfolding find_user_text put_user_text
find-put_text refid r text [] = refl
find-put_text refid r text (u ∷ us) = elim (Bool-cases (u.ref_id == refid)) [
  | inl e ↦ rw (e, ==→eq u.ref_id refid e) (if_twice (refid == r) _ _ _)
  | inr e ↦ rw (e, find-put_text refid r text us) ground (arith, e)
]

find-put_list :
    (refid r value id2 : ℕ) (us : List UserList)
    → find_user_list r (put_user_list refid value id2 us)
      ≡ (if refid == r then some (value, id2) else find_user_list r us)
unfolding find_user_list put_user_list
find-put_list refid r value id2 [] = refl
find-put_list refid r value id2 (u ∷ us) = elim (Bool-cases (u.ref_id == refid)) [
  | inl e ↦ rw (e, ==→eq u.ref_id refid e) (if_twice (refid == r) _ _ _)
  | inr e ↦ rw (e, find-put_list refid r value id2 us) ground (arith, e)
]

current_page-ok :
    (s : Stack)
    → 0 < s.stack_top
    → s.stack_top ≤ length s.pages
    → (p : Page) × (current_page s ≡ ok p)
unfolding current_page
current_page-ok s low high =
    let some_page : (s.stack_top == 0) ≡ false = ground (arith, low) in
    let (p, e) = get_elem?-lt s.pages (s.stack_top - 1) (omega (arith, low, high)) in
    (p, rw (some_page, e) refl)

current_page-write :
    (s : Stack) (p : Page)
    → 0 < s.stack_top
    → s.stack_top ≤ length s.pages
    → current_page (write_current s p) ≡ ok p
unfolding current_page
current_page-write s p low high =
    let some_page : (s.stack_top == 0) ≡ false = ground (arith, low) in
    rw (some_page, get_elem?-set_self s.pages (s.stack_top - 1) p (omega (arith, low, high))) refl

-- With a page below the top, the text set for a field is the one that is read back for it, and the
-- texts of the other fields are read as before.
pub get-set_user_text :
    (s : Stack) (refid r : ℕ) (text : List ℕ)
    → 0 < s.stack_top
    → s.stack_top ≤ length s.pages
    → (set_user_text refid text s >>= get_user_text_by_ref_id r)
      ≡ (if refid == r then ok (some text) else get_user_text_by_ref_id r s)
unfolding set_user_text get_user_text_by_ref_id
get-set_user_text s refid r text low high =
    let (p, e) = current_page-ok s low high in
    rw
      (
        e,
        current_page-write s (record p { user_text = put_user_text refid text p.user_text }) low
            high,
      )
      rw (find-put_text refid r text p.user_text)
      elim (Bool-cases (refid == r)) [ inl same ↦ rw same refl | inr other ↦ rw other refl ]

-- With a page below the top, the choice set for a field is the one that is read back for it, and the
-- choices of the other fields are read as before.
pub get-set_user_list :
    (s : Stack) (refid r value id2 : ℕ)
    → 0 < s.stack_top
    → s.stack_top ≤ length s.pages
    → (set_user_list refid value id2 s >>= get_user_list_by_ref_id r)
      ≡ (if refid == r then ok (some (value, id2)) else get_user_list_by_ref_id r s)
unfolding set_user_list get_user_list_by_ref_id
get-set_user_list s refid r value id2 low high =
    let (p, e) = current_page-ok s low high in
    rw
      (
        e,
        current_page-write s (record p { user_list = put_user_list refid value id2 p.user_list })
            low high,
      )
      rw (find-put_list refid r value id2 p.user_list)
      elim (Bool-cases (refid == r)) [ inl same ↦ rw same refl | inr other ↦ rw other refl ]
