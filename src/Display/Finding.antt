-- ===== src/Display/Finding.antt =====
-- `FindStringOnPage`, the search for a text in the page, in BalletMini/display_utils.c.
use elfloader3_elfs_archive.Prelude.{
  ℕ, zero, suc, ◌+◌, ◌≤◌, ◌<◌, ◌≡◌, Bool, true, List, [], ◌∷◌, Option, none, some, Out, ok, fault,
  bad_index, out_of_fuel, or_fault, ◌>>=◌, Avoids, returns, faults, Avoids-bind, Avoids-mono,
  length, get_elem?, drop, ltb, ltb→lt, ◌==◌, ==→eq, if◌then◌else◌, if_cases, arith,
}
use elfloader3_elfs_archive.Encoding.Compare.{compare_wchar}
use elfloader3_elfs_archive.Oms.State.{View}
use elfloader3_elfs_archive.Display.{Screen}
use elfloader3_elfs_archive.Display.Lines.{Lines, line_down}
use elfloader3_elfs_archive.Display.Position.{up_or_stay, down_to}
use elfloader3_elfs_archive.Display.Ends.{IsFuel}

-- How many characters of the word are found one after the other at the beginning of the text.
unfoldable pub match_count : Bool → List ℕ → List ℕ → Out ℕ
match_count cs text [] = ok 0
match_count cs [] (w ∷ word) = fault bad_index
match_count cs (c ∷ text) (w ∷ word) =
    let rest = match_count cs text word in
    if compare_wchar c w cs then (do j ← rest; ok (j + 1)) else ok 0

-- The loop on `i`, in so many rounds.
unfoldable pub search_word : Bool → List ℕ → List ℕ → ℕ → ℕ → Out (Option ℕ)
unfolding match_count
search_word cs text word zero i = fault out_of_fuel
search_word cs text word (suc k) i =
    let round : Out (Option ℕ) = (do
      j ← match_count cs (drop i text) word
      let rest = search_word cs text word k (i + 1 + j)
      if j == length word then ok (some i) else rest) in
    if ltb i (length text) then round else ok none

-- The window goes to the line before the word's, from below.
unfoldable pub go_to_word : Screen → View → ℕ → Option ℕ → Lines → Out Lines
unfolding down_to
go_to_word s v fuel none n = ok n
go_to_word s v fuel (some i) n = do
  r ← line_down s v n
  let below = down_to s v i fuel r.1
  if r.0 then below else ok r.1

-- `FindStringOnPage`, with `search_string` and `search_isCaseSens`; none leaves `found_word_pos` as it is.
unfoldable pub find_string_on_page :
    Screen → View → ℕ → List ℕ → Bool → Lines → Out (Option ℕ × Lines)
unfolding search_word go_to_word
find_string_on_page s v fuel word cs n = do
  r ← line_down s v n
  p ← or_fault bad_index (get_elem? r.1.lines_cache r.1.view_line)
  found ← search_word cs v.rawtext word (length v.rawtext + 1) (p.pos + 1)
  n' ← go_to_word s v fuel found r.1
  ok (found, (if r.0 then up_or_stay n' else n'))

-- The word stands at the beginning of the text, up to case unless that counts.
pub data Occurs (cs : Bool) : List ℕ → List ℕ → Type 0 where
  whole_word : {text : List ℕ} → Occurs cs text []
  one_more :
      {c w : ℕ} {text word : List ℕ}
      → compare_wchar c w cs ≡ true
      → Occurs cs text word
      → Occurs cs (c ∷ text) (w ∷ word)

abbrev Counted : Bool → List ℕ → List ℕ → ℕ → Type 0
Counted cs text word j = j ≡ length word → Occurs cs text word

match_count-Counted :
    (cs : Bool) (text word : List ℕ)
    → Avoids IsFuel (Counted cs text word) (match_count cs text word)
unfolding match_count
match_count-Counted cs text [] = returns (λ e. whole_word)
match_count-Counted cs [] (w ∷ word) = faults (λ e. cc)
match_count-Counted cs (c ∷ text) (w ∷ word) =
    if_cases (Avoids IsFuel (Counted cs (c ∷ text) (w ∷ word))) (compare_wchar c w cs)
      (λ same.
        Avoids-bind (match_count-Counted cs text word)
          (λ j counted. returns (λ e. one_more same (counted (omega (arith, e))))))
      (λ other. returns (λ e. absurd (omega (arith, e))))

-- What is found stands in the text from `i` on.
abbrev pub FoundFrom : Bool → List ℕ → List ℕ → ℕ → Option ℕ → Type 0
FoundFrom cs text word i none = Unit
FoundFrom cs text word i (some k) = (i ≤ k) × (k < length text) × Occurs cs (drop k text) word

later_found :
    (cs : Bool) (text word : List ℕ) (i i' : ℕ) (o : Option ℕ)
    → i ≤ i'
    → FoundFrom cs text word i' o
    → FoundFrom cs text word i o
later_found cs text word i i' none le found = tt
later_found cs text word i i' (some k) le (from, below, occurs) =
    (omega (arith, le, from), below, occurs)

search_word-rounds :
    (cs : Bool) (text word : List ℕ) (fuel i : ℕ)
    → 0 < fuel
    → length text < fuel + i
    → Avoids IsFuel (FoundFrom cs text word i) (search_word cs text word fuel i)
unfolding search_word
search_word-rounds cs text word zero i some_round enough = absurd (omega (arith, some_round))
search_word-rounds cs text word (suc k) i some_round enough =
    let P : Out (Option ℕ) → Type 0 = Avoids IsFuel (FoundFrom cs text word i) in
    if_cases P (ltb i (length text))
      (λ below.
        let lt = ltb→lt i (length text) below in
        Avoids-bind (match_count-Counted cs (drop i text) word) (λ j counted.
          if_cases P (j == length word)
            (λ all. returns (omega arith, lt, counted (==→eq j (length word) all)))
            (λ part.
              Avoids-mono
                (search_word-rounds cs text word k (i + 1 + j) (omega (arith, lt, enough))
                  (omega (arith, enough)))
                (λ o found. later_found cs text word i (i + 1 + j) o (omega arith) found))))
      (λ behind. returns tt)

-- For any text and word, the loop of `FindStringOnPage` ends within one round for each character and one
-- more, and the place that it finds, if any, is in the text, not before the one it began from, and every
-- character of the word stands there, by `CompareWchar`.
pub search_word-FoundFrom :
    (cs : Bool) (text word : List ℕ) (i : ℕ)
    → Avoids IsFuel (FoundFrom cs text word i) (search_word cs text word (length text + 1) i)
search_word-FoundFrom cs text word i =
    search_word-rounds cs text word (length text + 1) i (omega arith) (omega arith)
