-- ===== src/Display/Restoring.antt =====
-- The window goes back to a line of its page that was found before.
use elfloader3_elfs_archive.Prelude.{
  ℕ, zero, suc, ◌+◌, ◌-◌, ◌^◌, ◌%◌, ◌≤◌, ◌<◌, ◌≡◌, ◌⊎◌, inl, inr, refl, ap, ◌∙◌, true, false, ok,
  ltb, leb, length, eq_bind, if_true, if_false, arith,
}
use elfloader3_elfs_archive.Oms.State.{View}
use elfloader3_elfs_archive.Display.{Screen}
use elfloader3_elfs_archive.Display.Lines.{Lines, line_down, line_up}
use elfloader3_elfs_archive.Display.Position.{up_or_stay, line_downs, line_ups, restore_line}

abbrev pub at_line : ℕ → Lines → Lines
at_line i n = record n { view_line = i }

line_down-known :
    (s : Screen) (v : View) (n : Lines)
    → n.view_line + 1 < length n.lines_cache
    → line_down s v n ≡ ok (true, at_line (n.view_line + 1) n)
unfolding line_down
line_down-known s v n below =
    if_true (ltb (n.view_line + 1) (length n.lines_cache)) _ _ (ground (arith, below))

line_downs-known :
    (s : Screen) (v : View) (k : ℕ) (n : Lines)
    → n.view_line + k < length n.lines_cache
    → line_downs s v k n ≡ ok (at_line (n.view_line + k) n)
unfolding line_downs
line_downs-known s v zero n below = ap (λ i. ok (at_line i n)) (omega arith)
line_downs-known s v (suc k) n below =
    eq_bind _ (line_down-known s v n (omega (arith, below)))
    ∙ (line_downs-known s v k (at_line (n.view_line + 1) n) (omega (arith, below))
        ∙ ap (λ i. ok (at_line i n)) (omega arith))

up_or_stay-at : (i : ℕ) (n : Lines) → up_or_stay (at_line (suc i) n) ≡ at_line i n
unfolding line_up
up_or_stay-at i n = refl

line_ups-at : (k i : ℕ) (n : Lines) → line_ups k (at_line (i + k) n) ≡ at_line i n
unfolding line_ups
line_ups-at zero i n = ap (λ j. at_line j n) (omega arith)
line_ups-at (suc k) i n =
    ap (line_ups k) (ap (λ j. up_or_stay (at_line j n)) (omega arith) ∙ up_or_stay-at (i + k) n)
    ∙ line_ups-at k i n

line_ups-known : (k : ℕ) (n : Lines) → k ≤ n.view_line → line_ups k n ≡ at_line (n.view_line - k) n
line_ups-known k n le =
    ap (λ j. line_ups k (at_line j n)) (omega (arith, le)) ∙ line_ups-at k (n.view_line - k) n

-- The difference of two lines as the code counts it.
abbrev Diff : ℕ → ℕ → Type 0
Diff saved view =
    let down = (saved + 2 ^ 32 - view) % 2 ^ 32 in
    let up = (view + 2 ^ 32 - saved) % 2 ^ 32 in
    ((leb (2 ^ 31) down ≡ true) × (up + saved ≡ view))
    ⊎ ((leb (2 ^ 31) down ≡ false) × (view + down ≡ saved))

diff : (saved view : ℕ) → saved < 2 ^ 31 → view < 2 ^ 31 → Diff saved view
diff saved view s v = grind (arith, s, v)

-- Fewer than 2^31 lines are known, and the saved line and the one in view are among them: the window is then
-- at the saved line, and nothing else has changed, whether it had to go up or down.
pub restore_line-known :
    (s : Screen) (v : View) (saved : ℕ) (n : Lines)
    → saved < length n.lines_cache
    → n.view_line < length n.lines_cache
    → length n.lines_cache < 2 ^ 31
    → restore_line s v saved n ≡ ok (record n { view_line = saved })
unfolding restore_line
restore_line-known s v saved n known here few =
    let down = (saved + 2 ^ 32 - n.view_line) % 2 ^ 32 in
    let up = (n.view_line + 2 ^ 32 - saved) % 2 ^ 32 in
    elim (diff saved n.view_line (omega (arith, known, few)) (omega (arith, here, few))) [
      | inl (e, d) ↦
          if_true _ _ _ e
          ∙ ap ok
              (line_ups-known up n (omega (arith, d)) ∙ ap (λ i. at_line i n) (omega (arith, d)))
      | inr (e, d) ↦
          if_false _ _ _ e
          ∙ (line_downs-known s v down n (omega (arith, d, known)) ∙ ap (λ i. ok (at_line i n)) d)
    ]
