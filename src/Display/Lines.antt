-- ===== src/Display/Lines.antt =====
-- The lines that are found so far, the line at the top of the window, and the references of the page.
use elfloader3_elfs_archive.Prelude.{
  ℕ, zero, suc, ◌+◌, ◌-◌, ◌%◌, Bool, true, false, Bytes, List, [], ◌∷◌, ◌++◌, Option, none, some,
  Out, ok, fault, bad_index, ◌>>=◌, or_fault, overflow, length, get_elem?, set, drop, leb, ltb,
  ◌==◌, ◌&&◌, if◌then◌else◌, ℤ, pos, negsuc, sub_ℕ,
}
use elfloader3_elfs_archive.Encoding.Compare.{omstrcmp, short_at}
use elfloader3_elfs_archive.Oms.State.{View, RefCache}
use elfloader3_elfs_archive.Display.{Screen, Line}
use elfloader3_elfs_archive.Display.Layout.{search_next_display_line}

-- `lines_cache`, whose length is `lines_cache_size`, with the room allocated for it.
pub record Lines : Type 0 where
  pub lines_cache : List Line
  pub lines_cache_cap : ℕ
  pub lines_cache_pos : ℕ
  pub view_line : ℕ
  pub pixdisp : ℕ

abbrev pub linescachechunk : ℕ
linescachechunk = 256

abbrev pub first_line : Line
first_line = record {
  pos = 0;
  ink1 = 0x0000;
  ink2 = 0x0064;
  paper1 = 0xFFFF;
  paper2 = 0xFF64;
  bold = false;
  underline = false;
  is_ref = false;
  center = false;
  right = false;
  center_at_all = false;
  pixheight = 0;
  ycoord = 0;
}

-- A line is copied behind the others; there has to be room for it.
unfoldable pub new_cache_line : Lines → Line → Out Lines
new_cache_line n p =
    let size = length n.lines_cache in
    let cap = if size % linescachechunk == 0 then size + linescachechunk else n.lines_cache_cap in
    if ltb size cap
    then ok (record n {
      lines_cache = n.lines_cache ++ p ∷ [];
      lines_cache_cap = cap;
      lines_cache_pos = p.pos;
    })
    else fault overflow

-- The first line of all is put there, and then the end of the last one is looked for.
unfoldable pub first_cached : Lines → Out Lines
unfolding new_cache_line
first_cached n = elim n.lines_cache [ [] ↦ new_cache_line n first_line | p ∷ ps ↦ ok n ]

unfoldable pub add_line : Screen → View → Lines → Out (Bool × Lines)
unfolding new_cache_line
add_line s v n = do
  let last = length n.lines_cache - 1
  plc ← or_fault bad_index (get_elem? n.lines_cache last)
  found ← search_next_display_line s v n.lines_cache_pos plc
  let n' = record n { lines_cache = set n.lines_cache last found.1 }
  let next : Line = record found.1 { ycoord = found.1.ycoord + found.1.pixheight }
  if found.0
      then (do
        n'' ← new_cache_line n' next
        ok (true, record n'' { view_line = n''.view_line + 1 }))
      else ok (false, n')

-- `LineDown`
unfoldable pub line_down : Screen → View → Lines → Out (Bool × Lines)
unfolding first_cached add_line
line_down s v n =
    if ltb (n.view_line + 1) (length n.lines_cache)
    then ok (true, record n { view_line = n.view_line + 1 })
    else (do n' ← first_cached n; add_line s v n')

-- `LineUp`
unfoldable pub line_up : Lines → Option Lines
line_up n = elim n.view_line [ zero ↦ none | suc k ↦ some (record n { view_line = k }) ]

-- `amount` is an int, from which heights are taken away.
abbrev pub minus : ℤ → ℕ → ℤ
minus (pos a) h = sub_ℕ a h
minus (negsuc a) h = negsuc (a + h)

abbrev pub is_past : ℕ → ℤ → Bool
is_past d (pos a) = ltb d a
is_past d (negsuc a) = false

abbrev pub take_amount : ℕ → ℤ → ℕ
take_amount d (pos a) = d - a
take_amount d (negsuc a) = d + (a + 1)

-- `while (vd->pixdisp-amount<0)`, which goes up by a line in each round.
unfoldable pub scroll_up_loop : ℕ → ℤ → Lines → Out Lines
scroll_up_loop zero amount n = ok (record n {
  view_line = 0;
  pixdisp = if is_past n.pixdisp amount then 0 else take_amount n.pixdisp amount;
})
scroll_up_loop (suc k) amount n =
    if is_past n.pixdisp amount
    then (do
      p ← or_fault bad_index (get_elem? n.lines_cache k)
      scroll_up_loop k (minus amount p.pixheight) n)
    else ok (record n { view_line = suc k; pixdisp = take_amount n.pixdisp amount })

-- `scrollUp`
unfoldable pub scroll_up : Lines → ℕ → Out Lines
unfolding scroll_up_loop
scroll_up n amount = scroll_up_loop n.view_line (pos amount) n

-- The place in `ref_cache` of the first reference that has the property.
unfoldable pub first_ref : (RefCache → Bool) → List RefCache → Option ℕ
first_ref p [] = none
first_ref p (r ∷ rs) =
    let rest = first_ref p rs in
    if p r then some 0 else elim rest [ none ↦ none | some i ↦ some (i + 1) ]

-- `FindReferenceByBegin`
unfoldable pub find_reference_by_begin : List RefCache → ℕ → Option ℕ
unfolding first_ref
find_reference_by_begin rs place = first_ref (λ r. r.begin == place) rs

-- `FindReference`: one that begins at the place, or else one that holds it.
unfoldable pub find_reference : List RefCache → ℕ → Option ℕ
unfolding find_reference_by_begin first_ref
find_reference rs place = elim (find_reference_by_begin rs place) [
  | none ↦ first_ref (λ r. leb r.begin place && ltb place r.end) rs
  | some i ↦ some i
]

-- `while (pos<vd->rawtext_size&&vd->rawtext[pos]!=UTF16_ENA_INVERT) pos++;`, on the text from `pos` on.
unfoldable pub next_invert : List ℕ → ℕ → ℕ
next_invert [] place = place
next_invert (c ∷ text) place =
    let further = next_invert text (place + 1) in if c == 0xE005 then place else further

-- `FindReferenceFirst`
unfoldable pub find_reference_first : View → ℕ → Option ℕ
unfolding next_invert find_reference_by_begin
find_reference_first v place =
    find_reference_by_begin v.ref_cache (next_invert (drop place v.rawtext) place)

-- `FindReferenceById`: the references from `i` on, after the length of the id was read.
unfoldable pub search_ids : Bytes → ℕ → List RefCache → ℕ → Out (Option ℕ)
search_ids oms id [] i = ok none
search_ids oms id (r ∷ rs) i = do
  d ← omstrcmp oms r.id id
  let rest = search_ids oms id rs (i + 1)
  elim d [ pos zero ↦ ok (some i) | _ ↦ rest ]

unfoldable pub find_reference_by_id : Bytes → ℕ → List RefCache → ℕ → Out (Option ℕ)
unfolding search_ids
find_reference_by_id oms id rs i = do sz ← short_at oms id; search_ids oms id (drop i rs) i
