-- ===== src/PageStack/Navigation/Push.antt =====
-- A visit of a new page: `PushPageToStack`.
use elfloader3_elfs_archive.Prelude.{
  ℕ, suc, ◌+◌, ◌-◌, ◌<◌, ◌≡◌, refl, sym, ap, ◌∙◌, inl, inr, false, List, [], ◌∷◌, ◌++◌,
  append_assoc, append-nil, Out, ok, ◌>>=◌, some, length, length-append, get_elem?,
  get_elem?-append_length, set-append_length, take-append_length, drop-append_length, ◌==◌,
  Bool-cases, eq→==, if◌then◌else◌, arith, map,
}
use elfloader3_elfs_archive.PageStack.State.{
  Page, zero_page, Stack, killed, killpage, kill_from, shift, make_room, pagename, add_page,
  push_page_to_stack,
}
use elfloader3_elfs_archive.PageStack.Navigation.{IsStack, kept, dropped, live_ids, AllFree}

-- What is left of a page that is passed over by the loop.
abbrev cleared : Page → Page
cleared p = if p.id == 0 then p else killed p

AllFree-map : (ps : List Page) → AllFree (map cleared ps)
AllFree-map [] = tt
AllFree-map (p ∷ ps) = (ground arith, AllFree-map ps)

abbrev with_pages : Stack → List Page → List ℕ → Stack
with_pages s pages unlinked = record s { pages = pages; unlinked = unlinked }

get_elem?-layout :
    (front : List Page) (p : Page) (rest : List Page) (s : Stack)
    → s.pages ≡ front ++ p ∷ rest
    → get_elem? s.pages (length front) ≡ some p
get_elem?-layout front p rest s e = rw e (get_elem?-append_length front p rest)

with_pages-same :
    (s : Stack) (pages : List Page) → s.pages ≡ pages → with_pages s pages (s.unlinked ++ []) ≡ s
with_pages-same s pages e = rw (sym e, append-nil s.unlinked) refl

-- One round of the loop.
kill_from-step :
    (left : ℕ) (front : List Page) (p : Page) (rest : List Page) (s : Stack)
    → s.pages ≡ front ++ p ∷ rest
    → kill_from (suc left) (length front) s
      ≡ kill_from left
          (length front + 1)
          (with_pages s (front ++ cleared p ∷ rest) (s.unlinked ++ live_ids (p ∷ [])))
unfolding kill_from
kill_from-step left front p rest s e = elim (Bool-cases (p.id == 0)) [
  | inl z ↦ rw (get_elem?-layout front p rest s e, z, with_pages-same s (front ++ p ∷ rest) e) refl
  | inr z ↦
      rw (get_elem?-layout front p rest s e, z, e, set-append_length front p (killed p) rest) refl
]

length-append_one : (xs : List Page) (p : Page) → length xs + 1 ≡ length (xs ++ p ∷ [])
length-append_one xs p = omega (arith, length-append xs (p ∷ []))

live_ids-append_one :
    (us : List ℕ) (p : Page) (ps : List Page)
    → (us ++ live_ids (p ∷ [])) ++ live_ids ps ≡ us ++ live_ids (p ∷ ps)
live_ids-append_one us p ps = elim (Bool-cases (p.id == 0)) [
  | inl z ↦ rw (z, append-nil us) refl
  | inr z ↦ rw (z, append_assoc us (p.id ∷ []) (live_ids ps)) refl
]

-- The loop clears the pages `back` behind `front`, and deletes the files of those in use.
kill_from-map :
    (back front rest : List Page) (s : Stack)
    → s.pages ≡ front ++ (back ++ rest)
    → kill_from (length back) (length front) s
      ≡ ok (with_pages s (front ++ (map cleared back ++ rest)) (s.unlinked ++ live_ids back))
unfolding kill_from
kill_from-map [] front rest s e = rw (with_pages-same s (front ++ rest) e) refl
kill_from-map (p ∷ back) front rest s e =
    rw
      (kill_from-step (length back) front p (back ++ rest) s e, length-append_one front (cleared p))
      rw
      (kill_from-map back (front ++ cleared p ∷ []) rest
        (with_pages s (front ++ cleared p ∷ (back ++ rest)) (s.unlinked ++ live_ids (p ∷ [])))
        (sym (append_assoc front (cleared p ∷ []) (back ++ rest))))
      rw
      (
        live_ids-append_one s.unlinked p back,
        append_assoc front (cleared p ∷ []) (map cleared back ++ rest),
      )
      refl

kill_from-at :
    (left i : ℕ) (back front rest : List Page) (s : Stack)
    → left ≡ length back
    → i ≡ length front
    → s.pages ≡ front ++ (back ++ rest)
    → kill_from left i s
      ≡ ok (with_pages s (front ++ (map cleared back ++ rest)) (s.unlinked ++ live_ids back))
kill_from-at left i back front rest s l t e = rw (l, t) (kill_from-map back front rest s e)

-- What the visit does when there is room: the pages behind the top are forgotten, and the first of
-- their places is taken.
abbrev pub Visit : ℕ → ℕ → Stack → List Page → List ℕ → Out (ℕ × Stack) → Type 0
Visit size iday s0 front gone r =
    (s' : Stack) × (p : Page) × (back' : List Page) × (r ≡ ok (iday, s'))
    × IsStack size s' (front ++ p ∷ []) back'
    × (p.id ≡ iday)
    × AllFree back'
    × (s'.unlinked ≡ s0.unlinked ++ gone)

suc_sub_one : (n : ℕ) → suc n - 1 ≡ n
suc_sub_one n = omega arith

Visit-gone :
    (size iday : ℕ) (s s1 : Stack) (front : List Page) (gone gone' : List ℕ) (r : Out (ℕ × Stack))
    → s1.unlinked ++ gone ≡ s.unlinked ++ gone'
    → Visit size iday s1 front gone r
    → Visit size iday s front gone' r
Visit-gone size iday s s1 front gone gone' r e (s', p, back', run, is, id, free, del) =
    (s', p, back', run, is, id, free, del ∙ e)

-- `make_room` leaves a place behind the top.
make_room-free :
    (size : ℕ) (s : Stack) (front : List Page) (p : Page) (back : List Page)
    → IsStack size s front (p ∷ back)
    → make_room size s ≡ ok s
unfolding make_room
make_room-free size s front p back h = ground (arith, h.top, h.room)

shift-append :
    (p : Page) (front : List Page) (spare : Page)
    → shift (suc (length front)) (p ∷ (front ++ spare ∷ [])) ≡ front ++ zero_page ∷ spare ∷ []
shift-append p front spare =
    rw
      (
        suc_sub_one (length front),
        take-append_length front (spare ∷ []),
        drop-append_length front (spare ∷ []),
      )
      refl

make_room-full :
    (size : ℕ) (s : Stack) (p : Page) (front : List Page) (spare : Page)
    → s.pages ≡ p ∷ front ++ spare ∷ []
    → s.stack_top ≡ size
    → size ≡ suc (length front)
    → make_room size s
      ≡ ok (record {
        pages = front ++ zero_page ∷ spare ∷ [];
        stack_top = length front;
        unlinked = s.unlinked ++ p.id ∷ [];
      })
unfolding make_room killpage
make_room-full size s p front spare e t n =
    rw (t, eq→== size size refl, e, n) rw (shift-append p front spare, suc_sub_one (length front))
      refl

abbrev added : ℕ → Page → Page
added iday p = record p { id = iday }

add_page-append :
    (iday : ℕ) (front : List Page) (p : Page) (rest : List Page) (s : Stack)
    → s.pages ≡ front ++ p ∷ rest
    → s.stack_top ≡ length front
    → add_page iday s
      ≡ ok (
        iday,
        record {
          pages = front ++ added iday p ∷ rest;
          stack_top = length front + 1;
          unlinked = s.unlinked;
        },
      )
unfolding add_page pagename
add_page-append iday front p rest s e t =
    rw (t, e, get_elem?-append_length front p rest, set-append_length front p (added iday p) rest)
      rw (get_elem?-append_length front (added iday p) rest) refl

length-map : (ps : List Page) → length (map cleared ps) ≡ length ps
length-map [] = refl
length-map (p ∷ ps) = ap suc (length-map ps)

-- The loop and the new page, behind the pages that are kept.
forget_and_add :
    (size iday : ℕ) (s : Stack) (front : List Page) (p : Page) (back : List Page)
    → IsStack size s front (p ∷ back)
    → Visit size iday s front
        (live_ids (p ∷ back))
        (do s2 ← kill_from (size - s.stack_top) s.stack_top s; add_page iday s2)
forget_and_add size iday s front p back h =
    let left : size - s.stack_top ≡ length (p ∷ back) = omega (arith, h.top, h.room) in
    let p' = added iday (cleared p) in
    let s' : Stack = record {
      pages = front ++ p' ∷ (map cleared back ++ h.spare ∷ []);
      stack_top = length front + 1;
      unlinked = s.unlinked ++ live_ids (p ∷ back);
    } in
    (
      s',
      p',
      map cleared back,
      rw
          (kill_from-at (size - s.stack_top) s.stack_top (p ∷ back) front (h.spare ∷ []) s left
            h.top h.layout)
          (add_page-append iday front (cleared p) (map cleared back ++ h.spare ∷ [])
            (with_pages s (front ++ (map cleared (p ∷ back) ++ h.spare ∷ []))
              (s.unlinked ++ live_ids (p ∷ back)))
            refl h.top),
      record {
        spare = h.spare;
        unused = h.unused;
        layout = sym (append_assoc front (p' ∷ []) (map cleared back ++ h.spare ∷ []));
        top = length-append_one front p';
        room = omega (arith, length-append_one front p', length-map back, h.room);
      },
      refl,
      AllFree-map back,
      refl,
    )

-- `PushPageToStack` on a stack with places for `size` pages, of which there is one at least, never
-- faults. It names the file by the time given and puts the new page behind the pages in front of
-- the top, of which the oldest is dropped when they fill the stack. The stack is a stack again; no page
-- behind the new one is in use; and the files deleted are exactly the one of the dropped page and
-- those of the pages that "forward" led to.
pub push_page_to_stack-IsStack :
    (size iday : ℕ) (s : Stack) (front back : List Page)
    → 0 < size
    → IsStack size s front back
    → Visit size iday s
        (kept size front)
        (dropped size front ++ live_ids back)
        (push_page_to_stack size iday s)
unfolding push_page_to_stack
push_page_to_stack-IsStack size iday s [] [] pos h = absurd (omega (arith, h.room))
push_page_to_stack-IsStack size iday s [] (p ∷ back) pos h =
    let some_free : (0 == size) ≡ false = ground (arith, h.room) in
    rw (make_room-free size s [] p back h, some_free) (forget_and_add size iday s [] p back h)
push_page_to_stack-IsStack size iday s (q ∷ front) (p ∷ back) pos h =
    let some_free : (length (q ∷ front) == size) ≡ false = ground (arith, h.room) in
    rw (make_room-free size s (q ∷ front) p back h, some_free)
      (forget_and_add size iday s (q ∷ front) p back h)
push_page_to_stack-IsStack size iday s (q ∷ front) [] pos h =
    let full : size ≡ suc (length front) = omega (arith, h.room) in
    let s1 : Stack = record {
      pages = front ++ zero_page ∷ h.spare ∷ [];
      stack_top = length front;
      unlinked = s.unlinked ++ q.id ∷ [];
    } in
    let h1 : IsStack size s1 front (zero_page ∷ []) = record {
      spare = h.spare;
      unused = h.unused;
      layout = refl;
      top = refl;
      room = omega (arith, full);
    } in
    rw
      (
        make_room-full size s q front h.spare h.layout (omega (arith, h.top, full)) full,
        eq→== (length (q ∷ front)) size (sym full),
      )
      (Visit-gone size iday s s1 front [] (q.id ∷ []) _ (append-nil (s.unlinked ++ q.id ∷ []))
        (forget_and_add size iday s1 front zero_page [] h1))
