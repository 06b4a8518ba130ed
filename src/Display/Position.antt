-- ===== src/Display/Position.antt =====
-- How the window is brought to a line of its page: the loops on `LineDown` and `LineUp` in BalletMini/main.c
-- and BalletMini/display_utils.c, and `GoToLocalLinkPos`.
use elfloader3_elfs_archive.Prelude.{
  ℕ, zero, suc, ◌+◌, ◌-◌, ◌^◌, ◌%◌, Bool, true, false, Bytes, List, [], ◌∷◌, Option, none, some,
  Out, ok, fault, bad_index, read_past_end, out_of_fuel, or_fault, ◌>>=◌, get_elem?, drop, leb, ltb,
  ◌==◌, if◌then◌else◌,
}
use elfloader3_elfs_archive.Oms.State.{View, RefCache}
use elfloader3_elfs_archive.Display.{Screen, Line}
use elfloader3_elfs_archive.Display.Lines.{Lines, line_down, line_up}

abbrev pub up_or_stay : Lines → Lines
up_or_stay n = elim (line_up n) [ none ↦ n | some n' ↦ n' ]

-- `while (line_diff--)`, by the way that it goes.
unfoldable pub line_downs : Screen → View → ℕ → Lines → Out Lines
line_downs s v zero n = ok n
line_downs s v (suc k) n = do r ← line_down s v n; line_downs s v k r.1

unfoldable pub line_ups : ℕ → Lines → Lines
line_ups zero n = n
line_ups (suc k) n = line_ups k (up_or_stay n)

-- The difference of the two lines, which are unsigned, is read as an `int`.
unfoldable pub restore_line : Screen → View → ℕ → Lines → Out Lines
unfolding line_downs line_ups
restore_line s v saved n =
    let down = (saved + 2 ^ 32 - n.view_line) % 2 ^ 32 in
    let up = (n.view_line + 2 ^ 32 - saved) % 2 ^ 32 in
    if leb (2 ^ 31) down then ok (line_ups up n) else line_downs s v down n

-- `while(LineDown(vd));`, in so many rounds.
unfoldable pub fill_lines : Screen → View → ℕ → Lines → Out Lines
fill_lines s v zero n = fault out_of_fuel
fill_lines s v (suc k) n = do
  r ← line_down s v n
  let rest = fill_lines s v k r.1
  if r.0 then rest else ok r.1

-- `while (((vd->lines_cache[vd->view_line]).pos < pos) && (LineDown(vd)));`, in so many rounds.
unfoldable pub down_to : Screen → View → ℕ → ℕ → Lines → Out Lines
down_to s v place zero n = fault out_of_fuel
down_to s v place (suc k) n = do
  p ← or_fault bad_index (get_elem? n.lines_cache n.view_line)
  let round : Out Lines = (do
    r ← line_down s v n
    let rest = down_to s v place k r.1
    if r.0 then rest else ok r.1)
  if ltb p.pos place then round else ok n

-- `!strncmp(anchor, vd->oms+rf_taga->value, rf_taga->size)`: a C string, whose end is a zero, and the page.
unfoldable pub strncmp_equal : Bytes → Bytes → ℕ → Out Bool
strncmp_equal anchor text zero = ok true
strncmp_equal anchor [] (suc k) = fault read_past_end
strncmp_equal [] (d ∷ text) (suc k) = ok (d == 0)
strncmp_equal (c ∷ anchor) (d ∷ text) (suc k) =
    let rest = strncmp_equal anchor text k in if c == d then rest else ok false

-- The first 'A' whose name the link begins with.
unfoldable pub find_anchor : Bytes → Bytes → List RefCache → Out (Option RefCache)
unfolding strncmp_equal
find_anchor oms anchor [] = ok none
find_anchor oms anchor (r ∷ rs) = do
  here ← if r.tag == 65 then strncmp_equal anchor (drop r.value oms) r.size else ok false
  let rest = find_anchor oms anchor rs
  if here then ok (some r) else rest

-- The first line from `i` on that ends at the place or behind it, among so many.
unfoldable pub line_behind : ℕ → ℕ → ℕ → List Line → Out (Option ℕ)
line_behind place zero i ls = ok none
line_behind place (suc k) i [] = fault bad_index
line_behind place (suc k) i (p ∷ ls) =
    let rest = line_behind place k (i + 1) ls in if leb place p.pos then ok (some i) else rest

-- Further down than the window: at the line before the one that is found there.
unfoldable pub go_further : Screen → View → ℕ → ℕ → Lines → Out Lines
unfolding down_to
go_further s v fuel place n = do
  r ← line_down s v n
  let below : Out Lines = (do
    n' ← down_to s v place fuel r.1
    p ← or_fault bad_index (get_elem? n'.lines_cache n'.view_line)
    ok (up_or_stay (if leb place p.pos then up_or_stay n' else n')))
  if r.0 then below else ok r.1

-- `GoToLocalLinkPos`
unfoldable pub go_to_local_link_pos : Screen → View → ℕ → Bytes → Bytes → Lines → Out Lines
unfolding find_anchor line_behind go_further
go_to_local_link_pos s v fuel oms anchor n = do
  found ← find_anchor oms anchor v.ref_cache
  elim found [
    | none ↦ ok n
    | some a ↦ (do
      there ← line_behind a.id2 (n.view_line + 1) 0 n.lines_cache
      elim there [ some i ↦ ok (record n { view_line = i }) | none ↦ go_further s v fuel a.id2 n ])
  ]
