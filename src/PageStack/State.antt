-- ===== src/PageStack/State.antt =====
-- The stack and the operations that move its top.
use elfloader3_elfs_archive.Prelude.{
  ℕ, zero, suc, ◌+◌, ◌-◌, List, [], ◌∷◌, ◌++◌, Option, none, some, Out, fault, bad_index, or_fault,
  ◌>>=◌, ok, get_elem?, set, take, drop, replicate, ◌==◌, not, if◌then◌else◌,
}

-- tUserText: a wide string that the user typed into the field `ref_id`.
pub record UserText : Type 0 where
  pub ref_id : ℕ
  pub text : List ℕ

-- tUserList
pub record UserList : Type 0 where
  pub ref_id : ℕ
  pub value : ℕ
  pub id2 : ℕ

-- tPageStack. The counters are the lengths of the lists.
pub record Page : Type 0 where
  pub id : ℕ
  pub view_line : ℕ
  pub pos_cur_ref : ℕ
  pub user_text : List UserText
  pub user_list : List UserList

abbrev pub zero_page : Page
zero_page = record { id = 0; view_line = 0; pos_cur_ref = 0; user_text = []; user_list = [] }

-- `PageSTACK` and `stack_top`; `unlinked` lists the files that were deleted, by the ids that their names
-- are made of.
pub record Stack : Type 0 where
  pub pages : List Page
  pub stack_top : ℕ
  pub unlinked : List ℕ

-- `pagename`: the file of a page is named by its id, "<cache>\<id>.oms".
unfoldable pub pagename : Stack → ℕ → Out ℕ
pagename s n = do p ← or_fault bad_index (get_elem? s.pages n); ok p.id

-- `killpage` on a page: all is cleared but `pos_cur_ref`.
abbrev pub killed : Page → Page
killed p = record p { id = 0; view_line = 0; user_text = []; user_list = [] }

unfoldable pub killpage : Stack → ℕ → Out Stack
killpage s n = do
  p ← or_fault bad_index (get_elem? s.pages n)
  ok (record s { pages = set s.pages n (killed p); unlinked = s.unlinked ++ p.id ∷ [] })

-- `while (i != PageSTACK_SIZE) { if (PageSTACK[i].id != 0) killpage(i); i++; }`, over the rounds left.
unfoldable pub kill_from : ℕ → ℕ → Stack → Out Stack
unfolding killpage
kill_from zero i s = ok s
kill_from (suc left) i s = do
  p ← or_fault bad_index (get_elem? s.pages i)
  s' ← (if p.id == 0 then ok s else killpage s i)
  kill_from left (i + 1) s'

-- `memmove` by one page to the left, and zeros in the last place that is used.
abbrev pub shift : ℕ → List Page → List Page
shift size pages = take (size - 1) (drop 1 pages) ++ zero_page ∷ drop size pages

unfoldable pub make_room : ℕ → Stack → Out Stack
unfolding killpage
make_room size s = if not (s.stack_top == size) then ok s else do
  s' ← killpage s 0
  ok (record s' { pages = shift size s'.pages; stack_top = s'.stack_top - 1 })

-- `PageSTACK[stack_top].id=iday; return pagename(stack_top++);`
unfoldable pub add_page : ℕ → Stack → Out (ℕ × Stack)
unfolding pagename
add_page iday s = do
  p ← or_fault bad_index (get_elem? s.pages s.stack_top)
  let s' = record s { pages = set s.pages s.stack_top (record p { id = iday }) }
  name ← pagename s' s'.stack_top
  ok (name, record s' { stack_top = s'.stack_top + 1 })

-- `PushPageToStack`, with the id that the clock gives; the result is the name of the file.
unfoldable pub push_page_to_stack : ℕ → ℕ → Stack → Out (ℕ × Stack)
unfolding make_room kill_from add_page
push_page_to_stack size iday s0 = do
  s1 ← make_room size s0
  s2 ← kill_from (size - s1.stack_top) s1.stack_top s1
  add_page iday s2

unfoldable pub pop_page_from_stack : Stack → Out (Option ℕ × Stack)
unfolding pagename
pop_page_from_stack s = if s.stack_top == 0 then ok (none, s) else do
  name ← pagename s (s.stack_top - 1)
  ok (some name, record s { stack_top = s.stack_top - 1 })

unfoldable pub check_page_stack_top : Stack → Out ℕ
check_page_stack_top s = do p ← or_fault bad_index (get_elem? s.pages s.stack_top); ok p.id

unfoldable pub forward_page_from_stack : ℕ → Stack → Out (Option ℕ × Stack)
unfolding pagename
forward_page_from_stack size s = if s.stack_top == size then ok (none, s) else do
  p ← or_fault bad_index (get_elem? s.pages s.stack_top)
  if p.id == 0 then ok (none, s) else do
    name ← pagename s (s.stack_top + 1)
    ok (some name, record s { stack_top = s.stack_top + 1 })

unfoldable pub up_page_stack : ℕ → Stack → Stack
up_page_stack size s = if s.stack_top == size then s else record s { stack_top = s.stack_top + 1 }

-- `getCurrPageName`: the current page stands below the top.
unfoldable pub get_curr_page_name : Stack → Out ℕ
unfolding pagename
get_curr_page_name s = if s.stack_top == 0 then fault bad_index else pagename s (s.stack_top - 1)

-- `getPageParams`: the page at the top, of which the view takes the line and the link.
unfoldable pub get_page_params : Stack → Out (ℕ × ℕ)
get_page_params s = do
  p ← or_fault bad_index (get_elem? s.pages s.stack_top)
  ok (p.view_line, p.pos_cur_ref)

unfoldable pub init_url_stack : ℕ → Stack
init_url_stack size = record {
  pages = replicate (size + 1) zero_page;
  stack_top = 0;
  unlinked = [];
}

unfoldable pub free_page_stack : ℕ → Stack → Out (List ℕ)
unfolding kill_from
free_page_stack size s = do s' ← kill_from size 0 s; ok s'.unlinked
