-- ===== src/History.antt =====
-- BalletMini/history.c: the addresses that the user has visited, in a file with one on each line.
pub mod Lines
pub mod Order
pub mod Adding
pub mod Writing
pub mod Recent
pub mod Examples
use elfloader3_elfs_archive.Prelude.{
  ℕ, zero, suc, ◌+◌, ◌-◌, Bool, true, false, Bytes, List, [], ◌∷◌, ◌++◌, Option, none, some, Out,
  ok, fault, bad_index, bad_pointer, overflow, ◌>>=◌, or_fault, length, take, drop, set, get_elem?,
  replicate, leb, ◌==◌, ◌&&◌, not, if◌then◌else◌,
}

-- `MAX_FILE_SIZE` and `NEW_LINE`
abbrev pub max_file_size : ℕ
max_file_size = 32768

abbrev pub new_line : Bytes
new_line = 13 ∷ 10 ∷ []

-- The buffer after `_read`: the zero that was put behind the file stays there if the file leaves it room.
unfoldable pub read_buffer : Bytes → Bytes
read_buffer file =
    if leb (length file + 1) max_file_size then file ++ 0 ∷ [] else take max_file_size file

abbrev pub starts_new_line : Bytes → Bool
starts_new_line (a ∷ b ∷ s) = a == 13 && b == 10
starts_new_line _ = false

abbrev pub longer : ℕ → Option (Bytes × Bytes) → Option (Bytes × Bytes)
longer c none = none
longer c (some (line, rest)) = some (c ∷ line, rest)

-- `strstr(tmp, NEW_LINE)`: the bytes before the first match, and those behind it. The search stops at a
-- zero; without one it reads behind the buffer.
unfoldable pub find_new_line : Bytes → Out (Option (Bytes × Bytes))
find_new_line [] = fault bad_index
find_new_line (a ∷ s) =
    let further = find_new_line s in
    if a == 0
    then ok none
    else if starts_new_line (a ∷ s)
    then ok (some ([], drop 1 s))
    else (do r ← further; ok (longer a r))

-- The loop over the lines, of which it takes no more than `HISTORY_DEPTH`.
unfoldable pub read_lines : ℕ → Bytes → Out (List Bytes)
unfolding find_new_line
read_lines zero tmp = ok []
read_lines (suc n) [] = ok []
read_lines (suc n) (c ∷ tmp) = do
  found ← find_new_line (c ∷ tmp)
  elim found [
    | none ↦ ok []
    | some (line, rest) ↦ (do lines ← read_lines n rest; ok (line ∷ lines))
  ]

-- `GetHistory`: the entries and their number; `none` if the file cannot be opened.
unfoldable pub get_history : ℕ → Option Bytes → Out (Option (List Bytes))
unfolding read_buffer read_lines
get_history depth none = ok none
get_history depth (some file) = do lines ← read_lines depth (read_buffer file); ok (some lines)

-- `history`, an array of `HISTORY_DEPTH` pointers.
abbrev pub Array : Type 0
Array = List (Option Bytes)

abbrev pub pointers : List Bytes → Array
pointers [] = []
pointers (line ∷ lines) = some line ∷ pointers lines

abbrev pub array_of : ℕ → List Bytes → Array
array_of depth lines = pointers lines ++ replicate (depth - length lines) none

-- `!strcmp(a, b)`
unfoldable pub same_text : Bytes → Bytes → Bool
same_text [] [] = true
same_text (a ∷ s) (b ∷ t) = a == b && same_text s t
same_text _ _ = false

abbrev pub pointer_at : Array → ℕ → Option Bytes
pointer_at h i = elim (get_elem? h i) [ none ↦ none | some p ↦ p ]

-- `while(i) { ... i--; }`
unfoldable pub to_front : ℕ → Array → Array
to_front zero h = h
to_front (suc i) h = to_front i (set (set h (suc i) (pointer_at h i)) i (pointer_at h (suc i)))

-- The loop that looks for the address among the entries that were read.
unfoldable pub find_url : Bytes → List Bytes → Option ℕ
unfolding same_text
find_url url [] = none
find_url url (line ∷ lines) =
    let later = find_url url lines in
    if same_text line url then some 0 else elim later [ none ↦ none | some i ↦ some (i + 1) ]

unfoldable pub move_found : Option ℕ → Array → Array
unfolding to_front
move_found none h = h
move_found (some i) h = to_front i h

-- `for(i = HISTORY_DEPTH-1; i>0; i--) history[i] = history[i-1];`
unfoldable pub shift_down : ℕ → Array → Array
shift_down zero h = h
shift_down (suc i) h = shift_down i (set h (suc i) (pointer_at h i))

unfoldable pub put_first : ℕ → Bytes → Array → Array
unfolding shift_down
put_first depth url h = set (shift_down (depth - 1) h) 0 (some url)

abbrev pub min_depth : ℕ → ℕ → ℕ
min_depth n depth = if leb n depth then n else depth

-- `strcmp(history[0], url)`: with no entry that was read, the pointer is null.
unfoldable pub insert : ℕ → Bytes → ℕ → Array → Out (ℕ × Array)
unfolding put_first same_text
insert zero url count h = ok (count, h)
insert (suc d) url count h = do
  first ← or_fault bad_pointer (pointer_at h 0)
  if same_text first url
      then ok (count, h)
      else ok (min_depth (count + 1) (suc d), put_first (suc d) url h)

-- `strcat` into the buffer of the file.
abbrev pub append_text : Bytes → Bytes → Out Bytes
append_text tmp s =
    if leb (length tmp + length s + 1) max_file_size then ok (tmp ++ s) else fault overflow

unfoldable pub write_lines : ℕ → Array → Bytes → Out Bytes
write_lines zero h tmp = ok tmp
write_lines (suc n) [] tmp = fault bad_index
write_lines (suc n) (p ∷ h) tmp = do
  line ← or_fault bad_pointer p
  tmp1 ← append_text tmp line
  tmp2 ← append_text tmp1 new_line
  write_lines n h tmp2

-- What the lines become, with the array's loops.
unfoldable pub updated : ℕ → Bytes → List Bytes → Out Bytes
unfolding find_url move_found insert write_lines
updated depth url lines = do
  h ← insert depth url (length lines) (move_found (find_url url lines) (array_of depth lines))
  write_lines h.0 h.1 []

-- What `AddURLToHistory` leaves: the file, if there is one, and whether a message was shown.
pub record Saved : Type 0 where
  pub file : Option Bytes
  pub is_message_shown : Bool

abbrev pub contents : Option Bytes → Bytes
contents none = []
contents (some file) = file

-- `AddURLToHistory`, with the answers to the two calls of `_open`. Opening for reading makes a file that is
-- missing; the file is deleted before it is written anew.
unfoldable pub add_url_to_history : ℕ → Bool → Bool → Bytes → Option Bytes → Out Saved
unfolding read_buffer read_lines updated
add_url_to_history depth opens reopens url old =
    if not opens then ok (record { file = old; is_message_shown = true }) else (do
      lines ← read_lines depth (read_buffer (contents old))
      text ← updated depth url lines
      ok (
          if reopens
          then (record { file = some text; is_message_shown = false })
          else (record { file = none; is_message_shown = true })))

-- `CheckHistory`: if the file cannot be opened to be read, the default address is written over its beginning.
unfoldable pub check_history : Bool → Bool → Bytes → Option Bytes → Saved
check_history reads writes url old =
    if reads
    then (record { file = some (contents old); is_message_shown = false })
    else if writes
    then (record {
      file = some ((url ++ new_line) ++ drop (length (url ++ new_line)) (contents old));
      is_message_shown = false;
    })
    else (record { file = old; is_message_shown = true })
