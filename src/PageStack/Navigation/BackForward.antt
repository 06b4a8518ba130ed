-- ===== src/PageStack/Navigation/BackForward.antt =====
-- The buttons "Back" and "Forward", as `maincsm_onmessage` of BalletMini/main.c handles them.
use elfloader3_elfs_archive.Prelude.{
  ℕ, ◌+◌, ◌-◌, ◌≡◌, refl, sym, ap, ◌∙◌, List, [], ◌∷◌, ◌++◌, append_assoc, some, ok, ◌>>=◌, length,
  length-append, get_elem?, get_elem?-append_length, ◌==◌, ◌≢◌, inr, ◌⊎◌, ◌<◌, arith, false,
}
use elfloader3_elfs_archive.PageStack.State.{
  Page, Stack, pop_page_from_stack, forward_page_from_stack, up_page_stack, pagename,
}
use elfloader3_elfs_archive.PageStack.Navigation.{IsStack, shown, go_back, go_forward}

abbrev pub at_top : ℕ → Stack → Stack
at_top n s = record s { stack_top = n }

-- Moving the top moves pages between the two lists.
IsStack-split :
    (size n : ℕ) (s : Stack) (front back front' back' : List Page)
    → IsStack size s front back
    → front ++ back ≡ front' ++ back'
    → n ≡ length front'
    → IsStack size (at_top n s) front' back'
IsStack-split size n s front back front' back' h e t = record {
  spare = h.spare;
  unused = h.unused;
  layout =
      h.layout
      ∙ (sym (append_assoc front back (h.spare ∷ []))
          ∙ (ap (λ l. l ++ h.spare ∷ []) e ∙ append_assoc front' back' (h.spare ∷ [])));
  top = t;
  room = omega (arith, h.room, length-append front back, length-append front' back', ap length e);
}

pagename-layout :
    (s : Stack) (front : List Page) (p : Page) (rest : List Page) (i : ℕ)
    → s.pages ≡ front ++ p ∷ rest
    → i ≡ length front
    → pagename s i ≡ ok p.id
unfolding pagename
pagename-layout s front p rest i e t = rw (t, e, get_elem?-append_length front p rest) refl

pub pop_page_from_stack-at :
    (s : Stack) (front : List Page) (p : Page) (rest : List Page)
    → s.pages ≡ front ++ p ∷ rest
    → s.stack_top ≡ length front + 1
    → pop_page_from_stack s ≡ ok (some p.id, at_top (length front) s)
unfolding pop_page_from_stack
pop_page_from_stack-at s front p rest e t =
    let used : (s.stack_top == 0) ≡ false = ground (arith, t) in
    let before : s.stack_top - 1 ≡ length front = omega (arith, t) in
    rw (used, pagename-layout s front p rest (s.stack_top - 1) e before, before) refl

up_page_stack-free :
    (size n : ℕ) (s : Stack)
    → n + 1 ≡ size ⊎ n + 1 < size
    → up_page_stack size (at_top n s) ≡ at_top (n + 1) s
unfolding up_page_stack
up_page_stack-free size n s room =
    let below : (n == size) ≡ false = ground (arith, room) in rw below refl

forward_page_from_stack-at :
    (size : ℕ) (s : Stack) (front : List Page) (p q : Page) (rest : List Page)
    → s.pages ≡ front ++ p ∷ q ∷ rest
    → s.stack_top ≡ length front
    → length front < size
    → p.id ≢ 0
    → forward_page_from_stack size s ≡ ok (some q.id, at_top (length front + 1) s)
unfolding forward_page_from_stack
forward_page_from_stack-at size s front p q rest e t room live =
    let below : (s.stack_top == size) ≡ false = ground (arith, t, room) in
    let used : (p.id == 0) ≡ false = ground (arith, live) in
    let here : get_elem? s.pages s.stack_top ≡ some p =
      rw (t, e) (get_elem?-append_length front p (q ∷ rest)) in
    let next : s.pages ≡ (front ++ p ∷ []) ++ q ∷ rest =
      e ∙ sym (append_assoc front (p ∷ []) (q ∷ rest)) in
    let place : s.stack_top + 1 ≡ length (front ++ p ∷ []) =
      omega (arith, t, length-append front (p ∷ [])) in
    rw
      (
        below,
        here,
        used,
        pagename-layout s (front ++ p ∷ []) q rest (s.stack_top + 1) next place,
        t,
      )
      refl

-- "Back" on a stack that has two pages or more below the top, the last of them `q` and the one before
-- it `p`: the browser is given the file of `p`, and afterwards `p` is the last page below the top and
-- `q` the first behind it. No page is lost and no file is deleted.
pub go_back-IsStack :
    (size : ℕ) (s : Stack) (front : List Page) (p q : Page) (back : List Page)
    → IsStack size s (front ++ p ∷ q ∷ []) back
    → (go_back size s ≡ ok (some p.id, at_top (length front + 1) s))
      × IsStack size (at_top (length front + 1) s) (front ++ p ∷ []) (q ∷ back)
unfolding go_back shown
go_back-IsStack size s front p q back h =
    let split : front ++ p ∷ q ∷ [] ≡ (front ++ p ∷ []) ++ q ∷ [] =
      sym (append_assoc front (p ∷ []) (q ∷ [])) in
    let n : length front + 1 ≡ length (front ++ p ∷ []) =
      omega (arith, length-append front (p ∷ [])) in
    let after : length front + 1 + 1 ≡ length (front ++ p ∷ q ∷ []) =
      omega (arith, length-append front (p ∷ q ∷ [])) in
    let first : s.stack_top ≡ length (front ++ p ∷ []) + 1 = omega (arith, h.top, n, after) in
    let whole : s.pages ≡ (front ++ p ∷ []) ++ q ∷ (back ++ h.spare ∷ []) =
      h.layout
      ∙ (ap (λ l. l ++ (back ++ h.spare ∷ [])) split
          ∙ append_assoc (front ++ p ∷ []) (q ∷ []) (back ++ h.spare ∷ [])) in
    let whole' : s.pages ≡ front ++ p ∷ q ∷ (back ++ h.spare ∷ []) =
      whole ∙ append_assoc front (p ∷ []) (q ∷ (back ++ h.spare ∷ [])) in
    let size_ok : (length front + 1 ≡ size) ⊎ (length front + 1 < size) =
      inr (omega (arith, h.room, after)) in
    (
      rw (pop_page_from_stack-at s (front ++ p ∷ []) q (back ++ h.spare ∷ []) whole first) rw
          (pop_page_from_stack-at (at_top (length (front ++ p ∷ [])) s) front p
            (q ∷ (back ++ h.spare ∷ [])) whole' (sym n))
          rw (up_page_stack-free size (length front) s size_ok) refl,
      IsStack-split size (length front + 1) s (front ++ p ∷ q ∷ []) back (front ++ p ∷ [])
          (q ∷ back) h (ap (λ l. l ++ back) split ∙ append_assoc (front ++ p ∷ []) (q ∷ []) back) n,
    )

-- "Forward" on a stack whose last page below the top is `p`, a page in use, and that has a page `q`
-- behind the top: the browser is given the file of `q`, and afterwards `q` is the last page below
-- the top.
pub go_forward-IsStack :
    (size : ℕ) (s : Stack) (front : List Page) (p q : Page) (back : List Page)
    → p.id ≢ 0
    → IsStack size s (front ++ p ∷ []) (q ∷ back)
    → (go_forward size s ≡ ok (some q.id, at_top (length front + 1 + 1) s))
      × IsStack size (at_top (length front + 1 + 1) s) (front ++ p ∷ q ∷ []) back
unfolding go_forward shown
go_forward-IsStack size s front p q back live h =
    let rest = back ++ h.spare ∷ [] in
    let n : length front + 1 ≡ length (front ++ p ∷ []) =
      omega (arith, length-append front (p ∷ [])) in
    let after : length front + 1 + 1 ≡ length (front ++ p ∷ q ∷ []) =
      omega (arith, length-append front (p ∷ q ∷ [])) in
    let whole : s.pages ≡ front ++ p ∷ q ∷ rest =
      h.layout ∙ append_assoc front (p ∷ []) (q ∷ rest) in
    let first : s.stack_top ≡ length front + 1 = omega (arith, h.top, n) in
    let below : length front < size = omega (arith, h.room, n) in
    let size_ok : (length front + 1 + 1 ≡ size) ⊎ (length front + 1 + 1 < size) =
      ground (arith, h.room, n) in
    (
      rw (pop_page_from_stack-at s front p (q ∷ rest) whole first) rw
          (forward_page_from_stack-at size (at_top (length front) s) front p q rest whole refl below
            live)
          rw (up_page_stack-free size (length front + 1) s size_ok) refl,
      IsStack-split size (length front + 1 + 1) s (front ++ p ∷ []) (q ∷ back) (front ++ p ∷ q ∷ [])
          back h
          (append_assoc front (p ∷ []) (q ∷ back) ∙ sym (append_assoc front (p ∷ q ∷ []) back))
          after,
    )

-- On a stack that has two pages or more below the top, the one before the last in use, "Back" and then
-- "Forward" names the page that was shown and leaves the stack as it was.
pub go_forward-go_back :
    (size : ℕ) (s : Stack) (front : List Page) (p q : Page) (back : List Page)
    → p.id ≢ 0
    → IsStack size s (front ++ p ∷ q ∷ []) back
    → (go_back size s >>= λ r. go_forward size (r.1)) ≡ ok (some q.id, s)
go_forward-go_back size s front p q back live h =
    let (run, moved) = go_back-IsStack size s front p q back h in
    let (run', moved') =
      go_forward-IsStack size (at_top (length front + 1) s) front p q back live moved in
    let top : length front + 1 + 1 ≡ s.stack_top =
      omega (arith, h.top, length-append front (p ∷ q ∷ [])) in
    rw (run, run', top) refl
