-- ===== src/PageStack/Navigation.antt =====
-- The pages below the top are where the user has been, those from the top on where "forward" leads.
-- The handlers of the two buttons are those of `maincsm_onmessage` in BalletMini/main.c; the page that
-- they name is then read from its file, and `UpPageStack` puts it below the top.
pub mod Start
pub mod Push
pub mod BackForward
use elfloader3_elfs_archive.Prelude.{
  ℕ, ◌+◌, ◌≡◌, List, [], ◌∷◌, ◌++◌, Option, none, some, Out, ok, ◌>>=◌, length, drop, ◌==◌,
  if◌then◌else◌,
}
use elfloader3_elfs_archive.PageStack.State.{
  Page, Stack, pop_page_from_stack, forward_page_from_stack, up_page_stack,
}

-- The stack holds `front` below its top and `back` from it on, and one page more that stays unused.
pub record IsStack (size : ℕ) (s : Stack) (front back : List Page) : Type 0 where
  pub spare : Page
  pub unused : spare.id ≡ 0
  pub layout : s.pages ≡ front ++ (back ++ spare ∷ [])
  pub top : s.stack_top ≡ length front
  pub room : length front + length back ≡ size

-- What a visit of a new page keeps of the pages behind it, and whose file it deletes.
abbrev pub kept : ℕ → List Page → List Page
kept size front = if length front == size then drop 1 front else front

abbrev pub dropped : ℕ → List Page → List ℕ
dropped size [] = []
dropped size (p ∷ ps) = if length (p ∷ ps) == size then p.id ∷ [] else []

abbrev pub live_ids : List Page → List ℕ
live_ids [] = []
live_ids (p ∷ ps) = if p.id == 0 then live_ids ps else p.id ∷ live_ids ps

abbrev pub AllFree : List Page → Type 0
AllFree [] = Unit
AllFree (p ∷ ps) = (p.id ≡ 0) × AllFree ps

-- The page named is the current one after `UpPageStack`; with no name the browser closes.
unfoldable pub shown : ℕ → Option ℕ × Stack → Option ℕ × Stack
unfolding up_page_stack
shown size (none, s) = (none, s)
shown size (some name, s) = (some name, up_page_stack size s)

-- "Back": the current page is taken off, then the one before it.
unfoldable pub go_back : ℕ → Stack → Out (Option ℕ × Stack)
unfolding pop_page_from_stack shown
go_back size s = do
  (current, s1) ← pop_page_from_stack s
  r ← pop_page_from_stack s1
  ok (shown size r)

-- "Forward": the current page is taken off and passed over again.
unfoldable pub go_forward : ℕ → Stack → Out (Option ℕ × Stack)
unfolding pop_page_from_stack forward_page_from_stack shown
go_forward size s = do
  (current, s1) ← pop_page_from_stack s
  r ← forward_page_from_stack size s1
  ok (shown size r)
