-- ===== src/History/Recent.antt =====
-- `AddURLToHistory` as its user sees it: the address first, then the others in their order.
use elfloader3_elfs_archive.Prelude.{
  ℕ, zero, suc, ◌+◌, ◌-◌, ◌≤◌, ◌<◌, ◌≡◌, refl, sym, ap, ◌∙◌, true, false, Bytes, List, [], ◌∷◌,
  ◌++◌, append-nil, Option, none, some, ok, eq_bind, ◌>>=◌, length, take_all, length-append,
  replicate, length-replicate, take, drop, set, if_intro, if_true, if_false, arith, Bool-cases, inl,
  inr,
}
use elfloader3_elfs_archive.History.{
  max_file_size, new_line, Array, pointers, array_of, same_text, find_url, to_front, move_found,
  shift_down, put_first, min_depth, insert, write_lines, updated, Saved, add_url_to_history,
  get_history,
}
use elfloader3_elfs_archive.History.Lines.{
  IsLine, AreLines, no_lines, line_more, file_of, get_history-file_of, read_lines-read_buffer,
}
use elfloader3_elfs_archive.History.Order.{to_front-first, shift_down-pushed}
use elfloader3_elfs_archive.History.Adding.{
  remove_url, Found, Missing, find_url-cases, same_text_refl,
}
use elfloader3_elfs_archive.History.Writing.{
  write_lines-file_of, take-pointers, length-file_of-take, length-take_min,
}

-- The entries after a visit: the address, and the others without it, as many as there is room for.
abbrev pub recent : ℕ → Bytes → List Bytes → List Bytes
recent depth url lines = take depth (url ∷ remove_url url lines)

insert-same :
    (d : ℕ) (url : Bytes) (count : ℕ) (h : Array)
    → insert (suc d) url count (some url ∷ h) ≡ ok (count, some url ∷ h)
unfolding insert
insert-same d url count h = if_true (same_text url url) _ _ (same_text_refl url)

drop-all : (d : ℕ) (h : Array) → length h ≡ d → drop d h ≡ []
drop-all zero [] e = refl
drop-all zero (x ∷ h) e = absurd (omega (arith, e))
drop-all (suc d) [] e = refl
drop-all (suc d) (x ∷ h) e = drop-all d h (omega (arith, e))

put_first-pushed :
    (d : ℕ) (url : Bytes) (x : Option Bytes) (h : Array)
    → length h ≡ d
    → put_first (suc d) url (x ∷ h) ≡ some url ∷ take d (x ∷ h)
unfolding put_first
put_first-pushed d url x h e =
    let pred : suc d - 1 ≡ d = omega arith in
    ap (λ k. set (shift_down k (x ∷ h)) 0 (some url)) pred
    ∙ (ap (λ a. set a 0 (some url)) (shift_down-pushed d x h (omega (arith, e)))
        ∙ ap (λ l. some url ∷ l)
            (ap (λ l. take d (x ∷ h) ++ l) (drop-all d h e) ∙ append-nil (take d (x ∷ h))))

insert-new :
    (d : ℕ) (url line : Bytes) (count : ℕ) (h : Array)
    → same_text line url ≡ false
    → length h ≡ d
    → insert (suc d) url count (some line ∷ h)
      ≡ ok (min_depth (count + 1) (suc d), some url ∷ take d (some line ∷ h))
unfolding insert
insert-new d url line count h other e =
    if_false (same_text line url) _ _ other
    ∙ ap (λ a. ok (min_depth (count + 1) (suc d), a)) (put_first-pushed d url (some line) h e)

length-pointers : (lines : List Bytes) → length (pointers lines) ≡ length lines
length-pointers [] = refl
length-pointers (line ∷ lines) = ap suc (length-pointers lines)

updated-by :
    (depth count : ℕ) (url : Bytes) (lines lines' : List Bytes) (o : Option ℕ) (more : Array)
    → find_url url lines ≡ o
    → insert depth url (length lines) (move_found o (array_of depth lines))
      ≡ ok (count, pointers lines' ++ more)
    → count ≡ length lines'
    → length (file_of lines') < max_file_size
    → updated depth url lines ≡ ok (file_of lines')
unfolding updated
updated-by depth count url lines lines' o more found inserted same fits =
    ap
      (λ f.
        insert depth url (length lines) (move_found f (array_of depth lines))
        >>= (λ (q : ℕ × Array). write_lines q.0 q.1 []))
      found
    ∙ (eq_bind (λ (q : ℕ × Array). write_lines q.0 q.1 []) inserted
        ∙ (ap (λ n. write_lines n (pointers lines' ++ more) []) same
            ∙ write_lines-file_of lines' more [] (omega (arith, fits))))

find_url-first :
    (url line : Bytes) (lines : List Bytes)
    → same_text line url ≡ true
    → find_url url (line ∷ lines) ≡ some 0
unfolding find_url
find_url-first url line lines e = if_true (same_text line url) _ _ e

missing-first :
    (url line : Bytes) (lines : List Bytes)
    → find_url url (line ∷ lines) ≡ none
    → same_text line url ≡ false
missing-first url line lines e = elim (Bool-cases (same_text line url)) [
  | inl same ↦ let found = find_url-first url line lines same in cc
  | inr other ↦ other
]

file_of-remove :
    (url : Bytes) (lines : List Bytes)
    → length (file_of (remove_url url lines)) ≤ length (file_of lines)
unfolding remove_url
file_of-remove url [] = omega arith
file_of-remove url (line ∷ lines) =
    let l1 = length-append line (new_line ++ file_of lines) in
    let l2 = length-append line (new_line ++ file_of (remove_url url lines)) in
    if_intro (λ (ls : List Bytes). length (file_of ls) ≤ length (file_of (line ∷ lines)))
      (same_text line url) (omega (arith, l1)) (omega (arith, l1, l2, file_of-remove url lines))

-- The file has room for the entries after a visit.
recent-fits :
    (d : ℕ) (url : Bytes) (lines : List Bytes)
    → length url + 2 + length (file_of lines) < max_file_size
    → length (file_of (recent (suc d) url lines)) < max_file_size
recent-fits d url lines fits =
    let l1 = length-append url (new_line ++ file_of (take d (remove_url url lines))) in
    omega (arith, l1, file_of-remove url lines, length-file_of-take d (remove_url url lines), fits)

updated-Missing :
    (d : ℕ) (url line : Bytes) (rest : List Bytes)
    → length rest ≤ d
    → length (file_of (recent (suc d) url (line ∷ rest))) < max_file_size
    → Missing url (line ∷ rest)
    → updated (suc d) url (line ∷ rest) ≡ ok (file_of (recent (suc d) url (line ∷ rest)))
unfolding move_found
updated-Missing d url line rest few fits (e, same) =
    let lines : List Bytes = line ∷ rest in
    let n = suc d - length lines in
    let nones : Array = replicate n none in
    let l0 = length-pointers rest in
    let l1 = length-append (pointers rest) nones in
    let l2 = length-replicate {A = Option Bytes} n none in
    let whole : length (pointers rest ++ nones) ≡ d = omega (arith, l0, l1, l2, few) in
    let (more, cut) = take-pointers d lines nones in
    let kept : pointers (take d lines) ≡ pointers (take d (remove_url url lines)) =
      ap (λ ls. pointers (take d ls)) (sym same) in
    updated-by (suc d) (min_depth (length lines + 1) (suc d)) url lines (recent (suc d) url lines)
      none more e
      (insert-new d url line (length lines) (pointers rest ++ nones) (missing-first url line rest e)
          whole
        ∙ ap (λ a. ok (min_depth (length lines + 1) (suc d), some url ∷ a))
            (cut ∙ ap (λ ls. ls ++ more) kept))
      (ap (λ ls. min_depth (length ls + 1) (suc d)) (sym same)
        ∙ ground (arith, length-take_min d (remove_url url lines)))
      fits

updated-Found :
    (d : ℕ) (url : Bytes) (lines : List Bytes)
    → length lines ≤ suc d
    → length (file_of (recent (suc d) url lines)) < max_file_size
    → Found url lines
    → updated (suc d) url lines ≡ ok (file_of (recent (suc d) url lines))
unfolding move_found
updated-Found d url lines few fits (i, e, lt, l, at) =
    let nones : Array = replicate (suc d - length lines) none in
    let l0 = length-pointers lines in
    let l1 = length-append (pointers lines) nones in
    let found = at nones in
    let all : take d (remove_url url lines) ≡ remove_url url lines =
      take_all d (remove_url url lines) (omega (arith, l, few)) in
    let moved : to_front i (pointers lines ++ nones)
        ≡ some url ∷ (pointers (remove_url url lines) ++ nones) =
      to_front-first i (pointers lines ++ nones) (omega (arith, lt, l0, l1))
      ∙ (ap (λ p. p ∷ (take i (pointers lines ++ nones) ++ drop (suc i) (pointers lines ++ nones)))
            found.0
          ∙ ap (λ a. some url ∷ a) found.1) in
    updated-by (suc d) (length lines) url lines (recent (suc d) url lines) (some i) nones e
      (ap (insert (suc d) url (length lines)) moved
        ∙ (insert-same d url (length lines) (pointers (remove_url url lines) ++ nones)
            ∙ ap (λ ls. ok (length lines, some url ∷ (pointers ls ++ nones))) (sym all)))
      (sym l ∙ ap (λ ls. suc (length ls)) (sym all)) fits

pub updated-recent :
    (d : ℕ) (url line : Bytes) (rest : List Bytes)
    → length rest ≤ d
    → length url + 2 + length (file_of (line ∷ rest)) < max_file_size
    → updated (suc d) url (line ∷ rest) ≡ ok (file_of (recent (suc d) url (line ∷ rest)))
updated-recent d url line rest few fits =
    let small = recent-fits d url (line ∷ rest) fits in
    elim (find_url-cases url (line ∷ rest)) [
      | inl missing ↦ updated-Missing d url line rest few small missing
      | inr found ↦ updated-Found d url (line ∷ rest) (omega (arith, few)) small found
    ]

length-take_le : (d : ℕ) (lines : List Bytes) → length (take d lines) ≤ d
length-take_le d lines = ground (arith, length-take_min d lines)

AreLines-take : (d : ℕ) (lines : List Bytes) → AreLines lines → AreLines (take d lines)
AreLines-take zero lines ls = no_lines
AreLines-take (suc d) [] ls = ls
AreLines-take (suc d) (line ∷ lines) (line_more l ls) = line_more l (AreLines-take d lines ls)

AreLines-remove :
    (url : Bytes) (lines : List Bytes) → AreLines lines → AreLines (remove_url url lines)
unfolding remove_url
AreLines-remove url [] ls = ls
AreLines-remove url (line ∷ lines) (line_more l ls) =
    if_intro AreLines (same_text line url) ls (line_more l (AreLines-remove url lines ls))

abbrev pub saved : Bytes → Saved
saved text = record { file = some text; is_message_shown = false }

-- `AddURLToHistory`, on the file of some lines that are not more than the history holds and not none, puts
-- the address first, with the other lines behind it in their order, each address once if it was once
-- before, and drops the last one if there are more than the history holds; and `GetHistory` reads exactly
-- these back. The file can be opened, no line has a zero or a carriage return, and the lines and
-- the address fit the buffer of the file.
pub get_history-add_url :
    (d : ℕ) (url line : Bytes) (rest : List Bytes)
    → IsLine url
    → AreLines (line ∷ rest)
    → length rest ≤ d
    → length url + 2 + length (file_of (line ∷ rest)) < max_file_size
    → (let lines = recent (suc d) url (line ∷ rest) in
        (add_url_to_history (suc d) true true url (some (file_of (line ∷ rest)))
          ≡ ok (saved (file_of lines)))
        × (get_history (suc d) (some (file_of lines)) ≡ ok (some lines)))
unfolding add_url_to_history
get_history-add_url d url line rest l ls few fits =
    let read =
      read_lines-read_buffer (suc d) (line ∷ rest) ls (omega (arith, few)) (omega (arith, fits)) in
    let kept : AreLines (recent (suc d) url (line ∷ rest)) =
      line_more l
        (AreLines-take d (remove_url url (line ∷ rest)) (AreLines-remove url (line ∷ rest) ls)) in
    let short : length (recent (suc d) url (line ∷ rest)) ≤ suc d =
      omega (arith, length-take_le d (remove_url url (line ∷ rest))) in
    (
      eq_bind (λ (ls : List Bytes). updated (suc d) url ls >>= (λ text. ok (saved text))) read
          ∙ eq_bind (λ (text : Bytes). ok (saved text)) (updated-recent d url line rest few fits),
      get_history-file_of (suc d) (recent (suc d) url (line ∷ rest)) kept short
          (recent-fits d url (line ∷ rest) fits),
    )
