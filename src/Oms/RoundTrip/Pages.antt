-- ===== src/Oms/RoundTrip/Pages.antt =====
-- The parser on a page of texts, line breaks and paragraphs.
use elfloader3_elfs_archive.Prelude.{
  ℕ, suc, ◌+◌, ◌-◌, ◌*◌, ◌≤◌, ◌≡◌, refl, sym, ap, ◌∙◌, Bytes, List, [], ◌∷◌, ◌++◌, append_assoc,
  some, ok, length, length-append, get_elem?, get_elem?-lt, arith,
}
use mathlib.Core.Path.{subst}
use elfloader3_elfs_archive.Encoding.Compare.{short_at, slice_at}
use elfloader3_elfs_archive.Oms.State.{ParseState, View, ViewData, Env}
use elfloader3_elfs_archive.Oms.Items.{add_text_item, add_br_item, add_p_item}
use elfloader3_elfs_archive.Oms.Loop.{parse_loop, loop_fuel, returned}
use elfloader3_elfs_archive.Oms.RoundTrip.{
  Item, text, line_break, paragraph, print_all, show_all, AreItems, placed, at_tag,
}
use elfloader3_elfs_archive.Oms.RoundTrip.Rounds.{
  parse_loop-next, parse_loop-leave, step-line_break, step-paragraph, step-quit, step-text,
  step-text_length, step-text_bytes, get_elem?-at, short_at-at, slice_at-at,
}

-- The rounds that an item takes.
abbrev rounds : List Item → ℕ → ℕ
rounds [] k = suc k
rounds (text hi lo s ∷ is) k = suc (suc (suc (rounds is k)))
rounds (line_break ∷ is) k = suc (rounds is k)
rounds (paragraph ∷ is) k = suc (rounds is k)

module _ (env : Env) (oms : Bytes) (vd : ViewData) (title : Bytes) (first : ℕ)
    (start : get_elem? oms 0 ≡ some first) where
  abbrev Shows : ℕ → ℕ → ℕ → View → View → Type 0
  Shows k p q v v' =
      parse_loop k env oms (at_tag vd title p v)
      ≡ ok (returned (placed vd title ParseState.stop q (q + 1) v'))

  -- The three rounds of a text.
  text_rounds :
      (k p hi lo : ℕ) (s front body : Bytes) (v : View)
      → length s ≡ hi * 256 + lo
      → oms ≡ front ++ b'T' ∷ hi ∷ lo ∷ (s ++ body)
      → p ≡ length front
      → parse_loop (suc (suc (suc k))) env oms (at_tag vd title p v)
        ≡ parse_loop k env oms (at_tag vd title (p + 1 + 2 + (hi * 256 + lo)) (add_text_item v s))
  text_rounds k p hi lo s front body v l e t =
      let n = hi * 256 + lo in
      let letter = get_elem?-at front b'T' (hi ∷ lo ∷ (s ++ body)) oms p e t in
      let size : short_at oms (p + 1) ≡ ok n =
        short_at-at (front ++ b'T' ∷ []) hi lo (s ++ body) oms (p + 1)
          (e ∙ sym (append_assoc front (b'T' ∷ []) (hi ∷ lo ∷ (s ++ body))))
          (omega (arith, t, length-append front (b'T' ∷ []))) in
      let before = front ++ b'T' ∷ hi ∷ lo ∷ [] in
      let whole : oms ≡ before ++ (s ++ body) =
        e ∙ sym (append_assoc front (b'T' ∷ hi ∷ lo ∷ []) (s ++ body)) in
      let place : p + 1 + 2 ≡ length before =
        omega (arith, t, length-append front (b'T' ∷ hi ∷ lo ∷ [])) in
      let bytes : slice_at oms (p + 1 + 2) (p + 1 + 2 + n - (p + 1 + 2)) ≡ ok s =
        slice_at-at before s body oms (p + 1 + 2) (p + 1 + 2 + n - (p + 1 + 2)) whole place
          (omega (arith, l)) in
      let fits : p + 1 + 2 + n ≤ length oms = omega (
        arith,
        l,
        place,
        ap length whole,
        length-append before (s ++ body),
        length-append s body,
      ) in
      let fits1 : p + 1 ≤ length oms = omega (arith, fits) in
      let fits2 : p + 1 + 2 ≤ length oms = omega (arith, fits) in
      parse_loop-next (suc (suc k)) env oms _ _ fits1
        (step-text env oms vd title p first v start letter)
      ∙ (parse_loop-next (suc k) env oms _ _ fits2
            (step-text_length env oms vd title p first v start n letter size)
          ∙ parse_loop-next k env oms _ _ fits
              (step-text_bytes env oms vd title p first v start n s bytes))

  -- The byte of a tag that has no arguments, and the page behind it.
  behind : (c : ℕ) (front body : Bytes) → oms ≡ front ++ c ∷ body → oms ≡ (front ++ c ∷ []) ++ body
  behind c front body e = e ∙ sym (append_assoc front (c ∷ []) body)

  room :
      (c p : ℕ) (front body : Bytes)
      → oms ≡ front ++ c ∷ body
      → p ≡ length front
      → p + 1 ≤ length oms
  room c p front body e t = omega (arith, t, ap length e, length-append front (c ∷ body))

  next_place : (c p : ℕ) (front : Bytes) → p ≡ length front → p + 1 ≡ length (front ++ c ∷ [])
  next_place c p front t = omega (arith, t, length-append front (c ∷ []))

  print_all-Shows :
      (is : List Item) (k p q : ℕ) (v : View) (front rest : Bytes)
      → AreItems is
      → oms ≡ front ++ (print_all is ++ b'Q' ∷ rest)
      → p ≡ length front
      → q ≡ p + length (print_all is)
      → Shows (rounds is k) p q v (show_all v is)
  unfolding print_all show_all AreItems
  print_all-Shows [] k p q v front rest h e t d =
      let here : q ≡ p = omega (arith, d) in
      rw here (
        parse_loop-leave k env oms _ _ (room b'Q' p front rest e t)
          (step-quit env oms vd title p first v start (get_elem?-at front b'Q' rest oms p e t)))
  print_all-Shows (line_break ∷ is) k p q v front rest (h, hs) e t d =
      let body = print_all is ++ b'Q' ∷ rest in
      parse_loop-next (rounds is k) env oms _ _ (room b'B' p front body e t)
        (step-line_break env oms vd title p first v start (get_elem?-at front b'B' body oms p e t))
      ∙ print_all-Shows is k (p + 1) q (add_br_item v) (front ++ b'B' ∷ []) rest hs
          (behind b'B' front body e) (next_place b'B' p front t) (omega (arith, d))
  print_all-Shows (paragraph ∷ is) k p q v front rest (h, hs) e t d =
      let body = print_all is ++ b'Q' ∷ rest in
      parse_loop-next (rounds is k) env oms _ _ (room b'V' p front body e t)
        (step-paragraph env oms vd title p first v start (get_elem?-at front b'V' body oms p e t))
      ∙ print_all-Shows is k (p + 1) q (add_p_item v) (front ++ b'V' ∷ []) rest hs
          (behind b'V' front body e) (next_place b'V' p front t) (omega (arith, d))
  print_all-Shows (text hi lo s ∷ is) k p q v front rest (h, hs) e t d =
      let body = print_all is ++ b'Q' ∷ rest in
      let flat : oms ≡ front ++ b'T' ∷ hi ∷ lo ∷ (s ++ body) =
        e ∙ ap (λ l. front ++ b'T' ∷ hi ∷ lo ∷ l) (append_assoc s (print_all is) (b'Q' ∷ rest)) in
      let written = b'T' ∷ hi ∷ lo ∷ s in
      text_rounds (rounds is k) p hi lo s front body v h flat t
      ∙ print_all-Shows is k (p + 1 + 2 + (hi * 256 + lo)) q (add_text_item v s) (front ++ written)
          rest hs (flat ∙ sym (append_assoc front written body))
          (omega (arith, t, h, length-append front written))
          (omega (arith, d, h, length-append s (print_all is)))

rounds-add : (is : List Item) (k : ℕ) → rounds is k ≡ rounds is 0 + k
rounds-add [] k = omega arith
rounds-add (text hi lo s ∷ is) k = omega (arith, rounds-add is k)
rounds-add (line_break ∷ is) k = omega (arith, rounds-add is k)
rounds-add (paragraph ∷ is) k = omega (arith, rounds-add is k)

rounds-le : (is : List Item) → rounds is 0 ≤ 3 * length (print_all is) + 1
unfolding print_all
rounds-le [] = omega arith
rounds-le (text hi lo s ∷ is) = omega (arith, rounds-le is, length-append s (print_all is))
rounds-le (line_break ∷ is) = omega (arith, rounds-le is)
rounds-le (paragraph ∷ is) = omega (arith, rounds-le is)

-- The page up to its end: what is in front of the items, the items, the tag 'Q', and what follows.
abbrev pub page_of : Bytes → List Item → Bytes → Bytes
page_of front is rest = front ++ (print_all is ++ b'Q' ∷ rest)

rounds-loop_fuel :
    (is : List Item) (front rest : Bytes)
    → rounds is (loop_fuel (page_of front is rest) - rounds is 0)
      ≡ loop_fuel (page_of front is rest)
rounds-loop_fuel is front rest = omega (
  arith,
  rounds-add is (loop_fuel (page_of front is rest) - rounds is 0),
  rounds-le is,
  length-append front (print_all is ++ b'Q' ∷ rest),
  length-append (print_all is) (b'Q' ∷ rest),
)

-- A parser that has its title and stands in front of the first of any number of texts, line breaks and
-- paragraphs, closed by the tag 'Q', with whatever bytes in front and behind, never faults. With the
-- rounds that it is given it stops at the 'Q', and the view has got each item, in their order,
-- each text with exactly its own bytes.
pub parse_loop-print_all :
    (env : Env) (vd : ViewData) (title front rest : Bytes) (v : View) (is : List Item)
    → AreItems is
    → parse_loop
        (loop_fuel (page_of front is rest))
        env
        (page_of front is rest)
        (at_tag vd title (length front) v)
      ≡ ok (
          returned (
            placed vd title ParseState.stop
              (length front + length (print_all is))
              (length front + length (print_all is) + 1)
              (show_all v is)))
parse_loop-print_all env vd title front rest v is h =
    let oms = page_of front is rest in
    let (first, start) = get_elem?-lt oms 0 (
      omega (
        arith,
        length-append front (print_all is ++ b'Q' ∷ rest),
        length-append (print_all is) (b'Q' ∷ rest),
      )) in
    let spare = loop_fuel oms - rounds is 0 in
    subst
      (λ k.
        parse_loop k env oms (at_tag vd title (length front) v)
        ≡ ok (
            returned (
              placed vd title ParseState.stop (length front + length (print_all is))
                (length front + length (print_all is) + 1) (show_all v is))))
      (rounds-loop_fuel is front rest)
      (print_all-Shows env oms vd title first start is spare (length front)
        (length front + length (print_all is)) v front rest h refl refl refl)
