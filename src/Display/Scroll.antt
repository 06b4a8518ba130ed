-- ===== src/Display/Scroll.antt =====
-- Where the window stands after `scrollUp`.
use elfloader3_elfs_archive.Prelude.{
  ℕ, zero, suc, ◌+◌, ◌-◌, ◌≤◌, ◌≡◌, refl, sym, ap, ◌∙◌, true, false, List, [], ◌∷◌, some, Out, ok,
  or_fault, bad_index, eq_bind, length, get_elem?, get_elem?-lt, leb, if◌then◌else◌, if_true,
  if_false, Bool-cases, inl, inr, arith, ℤ, pos, negsuc,
}
use elfloader3_elfs_archive.Display.{Line}
use elfloader3_elfs_archive.Display.Lines.{
  Lines, minus, is_past, take_amount, scroll_up_loop, scroll_up,
}

-- The height of the first `k` lines.
abbrev pub above : List Line → ℕ → ℕ
above ls zero = 0
above [] (suc k) = 0
above (p ∷ ls) (suc k) = p.pixheight + above ls k

-- The place of the top of the window, in pixels from the top of the page.
abbrev pub top : Lines → ℕ
top n = above n.lines_cache n.view_line + n.pixdisp

above-suc :
    (ls : List Line) (k : ℕ) (p : Line)
    → get_elem? ls k ≡ some p
    → above ls (suc k) ≡ above ls k + p.pixheight
above-suc [] k p e = cc
above-suc (q ∷ ls) zero p e =
    let same : q ≡ p = cc in ap (λ (r : Line). r.pixheight + above ls 0) same ∙ omega arith
above-suc (q ∷ ls) (suc k) p e = omega (arith, above-suc ls k p e)

take_amount-minus :
    (y d h : ℕ) (amount : ℤ)
    → is_past d amount ≡ true
    → take_amount (y + d) (minus amount h) ≡ take_amount (y + h + d) amount
take_amount-minus y d h (pos a) past = elim (Bool-cases (leb h a)) [
  | inl low ↦ rw low (ground (arith, low, past))
  | inr high ↦ rw high (ground (arith, high, past))
]
take_amount-minus y d h (negsuc a) past = cc

take_amount-past :
    (d : ℕ) (amount : ℤ)
    → 0 + (if is_past d amount then 0 else take_amount d amount) ≡ take_amount (0 + d) amount
take_amount-past d (pos a) = ground arith
take_amount-past d (negsuc a) = omega arith

take_amount-add :
    (y d : ℕ) (amount : ℤ)
    → is_past d amount ≡ false
    → y + take_amount d amount ≡ take_amount (y + d) amount
take_amount-add y d (pos a) there = ground (arith, there)
take_amount-add y d (negsuc a) there = omega arith

abbrev pub Scrolled : ℕ → Lines → Out Lines → Type 0
Scrolled y n m =
    (n' : Lines) × (m ≡ ok n')
    × (top n' ≡ y)
    × (n'.view_line ≤ n.view_line)
    × (n'.lines_cache ≡ n.lines_cache)

abbrev at_line : ℕ → Lines → Lines
at_line k n = record n { view_line = k }

scroll_up_loop-Scrolled :
    (k : ℕ) (amount : ℤ) (n : Lines)
    → k ≤ length n.lines_cache
    → Scrolled
        (take_amount (above n.lines_cache k + n.pixdisp) amount)
        (at_line k n)
        (scroll_up_loop k amount n)
unfolding scroll_up_loop
scroll_up_loop-Scrolled zero amount n few = (
  record n {
    view_line = 0;
    pixdisp = if is_past n.pixdisp amount then 0 else take_amount n.pixdisp amount;
  },
  refl,
  take_amount-past n.pixdisp amount,
  omega arith,
  refl,
)
scroll_up_loop-Scrolled (suc k) amount n few = elim (Bool-cases (is_past n.pixdisp amount)) [
  | inl past ↦
      let (p, here) = get_elem?-lt n.lines_cache k (omega (arith, few)) in
      let (n', e, at, le, same) =
        scroll_up_loop-Scrolled k (minus amount p.pixheight) n (omega (arith, few)) in
      let y = take_amount-minus (above n.lines_cache k) n.pixdisp p.pixheight amount past in
      (
        n',
        if_true (is_past n.pixdisp amount) _ _ past
            ∙ (eq_bind (λ (q : Line). scroll_up_loop k (minus amount q.pixheight) n)
                  (ap (or_fault bad_index) here)
                ∙ e),
        at
            ∙ (y
                ∙ ap (λ t. take_amount (t + n.pixdisp) amount)
                    (sym (above-suc n.lines_cache k p here))),
        omega (arith, le),
        same,
      )
  | inr there ↦ (
    record n { view_line = suc k; pixdisp = take_amount n.pixdisp amount },
    if_false (is_past n.pixdisp amount) _ _ there,
    take_amount-add (above n.lines_cache (suc k)) n.pixdisp amount there,
    omega arith,
    refl,
  )
]

-- `scrollUp` moves the window up by exactly the pixels it is given, or to the top of the page where there are
-- fewer above it: it does not fault, ends, goes to no line behind, and leaves the lines as they are. The
-- line at the top of the window is one of those that were found, or the one behind them.
pub scroll_up-Scrolled :
    (n : Lines) (amount : ℕ)
    → n.view_line ≤ length n.lines_cache
    → Scrolled (top n - amount) n (scroll_up n amount)
unfolding scroll_up
scroll_up-Scrolled n amount few = scroll_up_loop-Scrolled n.view_line (pos amount) n few
