-- ===== src/PageStack/Forms.antt =====
-- What the user typed or chose on the current page, the one below the top.
pub mod Laws
use elfloader3_elfs_archive.Prelude.{
  ℕ, ◌-◌, List, [], ◌∷◌, ◌++◌, Option, none, some, Out, fault, bad_index, or_fault, ◌>>=◌, ok,
  get_elem?, set, ◌==◌, if◌then◌else◌,
}
use elfloader3_elfs_archive.PageStack.State.{UserText, UserList, Page, Stack}

-- The first entry of the field is changed, or else one is put at the end.
unfoldable pub put_user_list : ℕ → ℕ → ℕ → List UserList → List UserList
put_user_list refid value id2 [] = record { ref_id = refid; value = value; id2 = id2 } ∷ []
put_user_list refid value id2 (u ∷ us) =
    if u.ref_id == refid
    then record u { value = value; id2 = id2 } ∷ us
    else u ∷ put_user_list refid value id2 us

unfoldable pub put_user_text : ℕ → List ℕ → List UserText → List UserText
put_user_text refid text [] = record { ref_id = refid; text = text } ∷ []
put_user_text refid text (u ∷ us) =
    if u.ref_id == refid then record u { text = text } ∷ us else u ∷ put_user_text refid text us

unfoldable pub find_user_text : ℕ → List UserText → Option (List ℕ)
find_user_text refid [] = none
find_user_text refid (u ∷ us) = if u.ref_id == refid then some u.text else find_user_text refid us

unfoldable pub find_user_list : ℕ → List UserList → Option (ℕ × ℕ)
find_user_list refid [] = none
find_user_list refid (u ∷ us) =
    if u.ref_id == refid then some (u.value, u.id2) else find_user_list refid us

-- `PageSTACK[stack_top-1]`
unfoldable pub current_page : Stack → Out Page
current_page s =
    if s.stack_top == 0
    then fault bad_index
    else or_fault bad_index (get_elem? s.pages (s.stack_top - 1))

abbrev pub write_current : Stack → Page → Stack
write_current s p = record s { pages = set s.pages (s.stack_top - 1) p }

unfoldable pub set_user_list : ℕ → ℕ → ℕ → Stack → Out Stack
unfolding current_page put_user_list
set_user_list refid value id2 s = do
  p ← current_page s
  ok (write_current s (record p { user_list = put_user_list refid value id2 p.user_list }))

unfoldable pub set_user_text : ℕ → List ℕ → Stack → Out Stack
unfolding current_page put_user_text
set_user_text refid text s = do
  p ← current_page s
  ok (write_current s (record p { user_text = put_user_text refid text p.user_text }))

unfoldable pub set_page_params : ℕ → ℕ → Stack → Out Stack
unfolding current_page
set_page_params view_line pos_cur_ref s = do
  p ← current_page s
  ok (write_current s (record p { view_line = view_line; pos_cur_ref = pos_cur_ref }))

unfoldable pub get_user_text_by_ref_id : ℕ → Stack → Out (Option (List ℕ))
unfolding current_page find_user_text
get_user_text_by_ref_id refid s = do p ← current_page s; ok (find_user_text refid p.user_text)

-- What is written to `*value` and `*id2`, if anything.
unfoldable pub get_user_list_by_ref_id : ℕ → Stack → Out (Option (ℕ × ℕ))
unfolding current_page find_user_list
get_user_list_by_ref_id refid s = do p ← current_page s; ok (find_user_list refid p.user_list)
