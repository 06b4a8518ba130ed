-- ===== src/Display/Cache.antt =====
-- The room of the lines, and the line at the top of the window.
use elfloader3_elfs_archive.Prelude.{
  ℕ, ◌+◌, ◌-◌, ◌%◌, ◌≤◌, ◌<◌, ◌≡◌, refl, sym, ap, ◌∙◌, Bool, true, false, List, [], ◌∷◌, ◌++◌, none,
  some, ok, bad_index, or_fault, eq_bind, length, length-append, length-set, get_elem?,
  get_elem?-lt, set, ltb, ◌==◌, if◌then◌else◌, if_true, if_false, Bool-cases, inl, inr, arith,
}
use elfloader3_elfs_archive.Oms.State.{View}
use elfloader3_elfs_archive.Display.{Screen, Line}
use elfloader3_elfs_archive.Display.Layout.{search_next_display_line}
use elfloader3_elfs_archive.Display.Lines.{
  Lines, linescachechunk, first_line, new_cache_line, first_cached, add_line, line_down,
}

-- The room is whole chunks and holds the lines; the line at the top is one of them, or the first of none.
pub record IsCached (n : Lines) : Type 0 where
  pub has_room : length n.lines_cache ≤ n.lines_cache_cap
  pub whole_chunks : n.lines_cache_cap % linescachechunk ≡ 0
  pub in_view :
      n.view_line + 1 ≤ length n.lines_cache + (if length n.lines_cache == 0 then 1 else 0)

-- What a new line does to the lines.
abbrev pub Added : Lines → Line → Lines → Type 0
Added n p n' =
    (n'.lines_cache ≡ n.lines_cache ++ p ∷ [])
    × (n'.lines_cache_pos ≡ p.pos)
    × (n'.view_line ≡ n.view_line)
    × (length n'.lines_cache ≤ n'.lines_cache_cap)
    × (n'.lines_cache_cap % linescachechunk ≡ 0)

new_cap :
    (size cap : ℕ)
    → size ≤ cap
    → cap % 256 ≡ 0
    → (let c = if size % 256 == 0 then size + 256 else cap in (size < c) × (c % 256 ≡ 0))
new_cap size cap le whole = ground (arith, le, whole)

new_cache_line-Added :
    (n : Lines) (p : Line)
    → length n.lines_cache ≤ n.lines_cache_cap
    → n.lines_cache_cap % linescachechunk ≡ 0
    → (n' : Lines) × (new_cache_line n p ≡ ok n') × Added n p n'
unfolding new_cache_line
new_cache_line-Added n p le whole =
    let size = length n.lines_cache in
    let cap = if size % linescachechunk == 0 then size + linescachechunk else n.lines_cache_cap in
    let (room, chunks) = new_cap size n.lines_cache_cap le whole in
    (
      record n {
        lines_cache = n.lines_cache ++ p ∷ [];
        lines_cache_cap = cap;
        lines_cache_pos = p.pos;
      },
      if_true (ltb size cap) _ _ (ground (arith, room)),
      (refl, refl, refl, omega (arith, room, length-append n.lines_cache (p ∷ [])), chunks),
    )

-- A step down by one line, if there was one.
abbrev pub Stepped : ℕ → Bool → Lines → Type 0
Stepped view_line b n' = IsCached n' × (n'.view_line ≡ view_line + (if b then 1 else 0))

in_cache :
    (n : Lines)
    → length n.lines_cache ≤ n.lines_cache_cap
    → n.lines_cache_cap % linescachechunk ≡ 0
    → n.view_line + 1 ≤ length n.lines_cache
    → IsCached n
in_cache n room whole view = record {
  has_room = room;
  whole_chunks = whole;
  in_view = omega (arith, view);
}

add_line-Stepped :
    (s : Screen) (v : View) (n : Lines) (plc q : Line) (b : Bool)
    → IsCached n
    → n.view_line + 1 ≤ length n.lines_cache
    → get_elem? n.lines_cache (length n.lines_cache - 1) ≡ some plc
    → search_next_display_line s v n.lines_cache_pos plc ≡ ok (b, q)
    → (n' : Lines) × (add_line s v n ≡ ok (b, n')) × Stepped n.view_line b n'
unfolding add_line
add_line-Stepped s v n plc q false c view there found =
    let l = length-set n.lines_cache (length n.lines_cache - 1) q in
    let n' : Lines = record n { lines_cache = set n.lines_cache (length n.lines_cache - 1) q } in
    (
      n',
      eq_bind _ (ap (or_fault bad_index) there) ∙ eq_bind _ found,
      (
        in_cache n' (omega (arith, l, c.has_room)) c.whole_chunks (omega (arith, l, view)),
        omega arith,
      ),
    )
add_line-Stepped s v n plc q true c view there found =
    let l = length-set n.lines_cache (length n.lines_cache - 1) q in
    let n1 : Lines = record n { lines_cache = set n.lines_cache (length n.lines_cache - 1) q } in
    let next : Line = record q { ycoord = q.ycoord + q.pixheight } in
    let (n2, added, (lines, place, same, room, chunks)) =
      new_cache_line-Added n1 next (omega (arith, l, c.has_room)) c.whole_chunks in
    let longer = length-append n1.lines_cache (next ∷ []) in
    let n' : Lines = record n2 { view_line = n2.view_line + 1 } in
    let more : length n2.lines_cache ≡ length n1.lines_cache + 1 = ap length lines ∙ longer in
    (
      n',
      eq_bind _ (ap (or_fault bad_index) there)
          ∙ (eq_bind _ found
              ∙ eq_bind (λ (m : Lines). ok (true, record m { view_line = m.view_line + 1 })) added),
      (in_cache n' room chunks (omega (arith, l, view, more, same)), omega (arith, same)),
    )

-- The line whose end is to be found, and where it begins.
abbrev pub last_line : List Line → Line
last_line ls = elim (get_elem? ls (length ls - 1)) [ none ↦ first_line | some p ↦ p ]

abbrev pub start_of : List Line → ℕ → ℕ
start_of [] place = 0
start_of (p ∷ ls) place = place

abbrev with_lines : List Line → Lines → Lines
with_lines ls n = record n { lines_cache = ls }

abbrev Started : Lines → Type 0
Started n =
    (n1 : Lines) × (first_cached n ≡ ok n1)
    × IsCached n1
    × (n1.view_line + 1 ≤ length n1.lines_cache)
    × (get_elem? n1.lines_cache (length n1.lines_cache - 1) ≡ some (last_line n.lines_cache))
    × (n1.lines_cache_pos ≡ start_of n.lines_cache n.lines_cache_pos)
    × (n1.view_line ≡ n.view_line)

last-some :
    (p : Line) (ls : List Line)
    → get_elem? (p ∷ ls) (length (p ∷ ls) - 1) ≡ some (last_line (p ∷ ls))
last-some p ls =
    let (q, e) = get_elem?-lt (p ∷ ls) (length (p ∷ ls) - 1) (omega arith) in
    e ∙ ap (λ o. some (elim o [ none ↦ first_line | some r ↦ r ])) (sym e)

first_cached-Started :
    (ls : List Line) (n : Lines) → IsCached (with_lines ls n) → Started (with_lines ls n)
unfolding first_cached
first_cached-Started [] n c =
    let (n1, e, (lines, place, same, room, chunks)) =
      new_cache_line-Added (with_lines [] n) first_line c.has_room c.whole_chunks in
    let one : length n1.lines_cache ≡ 1 = ap length lines in
    let top : n1.view_line + 1 ≤ length n1.lines_cache = omega (arith, one, same, c.in_view) in
    (n1, e, in_cache n1 room chunks top, top, rw lines refl, place, same)
first_cached-Started (p ∷ ls) n c =
    (with_lines (p ∷ ls) n, refl, c, ground (arith, c.in_view), last-some p ls, refl, refl)

-- `LineDown` keeps the lines in their room, whatever the page: the room is whole chunks of 256 lines and always
-- has a place for the line that is added, and the line at the top of the window is one that was found.
-- Where the end of the last line can be looked for, it does not fault; it goes down by one line, or, only when
-- the text ends there, stays.
pub line_down-Stepped :
    (s : Screen) (v : View) (n : Lines) (q : Line) (b : Bool)
    → IsCached n
    → search_next_display_line s v
        (start_of n.lines_cache n.lines_cache_pos)
        (last_line n.lines_cache)
      ≡ ok (b, q)
    → (b' : Bool) × (n' : Lines) × (line_down s v n ≡ ok (b', n'))
      × Stepped n.view_line b' n'
      × (b' ≡ false → b ≡ false)
unfolding line_down
line_down-Stepped s v n q b c found =
    elim (Bool-cases (ltb (n.view_line + 1) (length n.lines_cache))) [
      | inl below ↦
          let n' : Lines = record n { view_line = n.view_line + 1 } in
          (
            true,
            n',
            if_true _ _ _ below,
            (in_cache n' c.has_room c.whole_chunks (ground (arith, below)), refl),
            (λ e. cc),
          )
      | inr last ↦
          let (n1, e, c1, view, there, place, same) = first_cached-Started n.lines_cache n c in
          let found1 : search_next_display_line s v n1.lines_cache_pos (last_line n.lines_cache)
              ≡ ok (b, q) =
            ap (λ k. search_next_display_line s v k (last_line n.lines_cache)) place ∙ found in
          let (n', e', (c', stepped)) =
            add_line-Stepped s v n1 (last_line n.lines_cache) q b c1 view there found1 in
          (
            b,
            n',
            if_false _ _ _ last ∙ (eq_bind (λ (m : Lines). add_line s v m) e ∙ e'),
            (c', stepped ∙ ap (λ k. k + (if b then 1 else 0)) same),
            (λ e. e),
          )
    ]
