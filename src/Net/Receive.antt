-- ===== src/Net/Receive.antt =====
-- `get_answer`: the header of the answer is kept until it is whole, the rest goes to the parser.
pub mod Stream
use elfloader3_elfs_archive.Prelude.{
  ℕ, suc, ◌+◌, Bool, true, false, Bytes, List, [], ◌∷◌, ◌++◌, Option, none, some, take, drop, ◌==◌,
  ◌&&◌, ◌||◌, not, if◌then◌else◌,
}
use elfloader3_elfs_archive.Net.State.{Net, Ipc, data_arrived, header}

abbrev pub starts_blank_line : Bytes → Bool
starts_blank_line (a ∷ b ∷ c ∷ d ∷ s) = (a == 13 && b == 10) && (c == 13 && d == 10)
starts_blank_line _ = false

abbrev pub next_place : Option ℕ → Option ℕ
next_place none = none
next_place (some i) = some (i + 1)

-- `strstr(s, "\r\n\r\n")`, which looks no further than the first zero: the place of the first match.
unfoldable pub find_blank_line : Bytes → Option ℕ
find_blank_line [] = none
find_blank_line (a ∷ s) =
    let further = next_place (find_blank_line s) in
    if a == 0 then none else if starts_blank_line (a ∷ s) then some 0 else further

-- `writecache`: the file of the page, if it has one, gets the bytes.
abbrev pub write_cache : Option Bytes → Bytes → Bytes → Bytes
write_cache none cache bytes = cache
write_cache (some name) cache bytes = cache ++ bytes

-- The bytes go to the parser in a message, unless the user has stopped the page.
abbrev pub post : Bool → List Ipc → Bytes → List Ipc
post is_running ipc bytes = if is_running then ipc ++ data_arrived bytes ∷ [] else ipc

abbrev pub deliver : Net → Bytes → Net
deliver n bytes = record n {
  cache = write_cache n.fncache n.cache bytes;
  ipc = post (not n.is_terminated && not n.is_stopped) n.ipc bytes;
}

-- With no body yet the buffer of the header is kept.
abbrev pub deliver_body : Net → Bytes → Net
deliver_body n [] = n
deliver_body n (c ∷ body) = let d = deliver n (c ∷ body) in record d { recvq = none }

unfoldable pub take_body : Net → Bytes → ℕ → Net
take_body n answer i =
    deliver_body
      (record n {
        recvq = some answer;
        receive_mode = true;
        console = header (take (i + 2) answer);
      })
      (drop (i + 4) answer)

abbrev pub or_empty : Option Bytes → Bytes
or_empty none = []
or_empty (some q) = q

-- `get_answer`, with what `recv` gives: nothing, or at most 1024 bytes.
unfoldable pub get_answer : Bytes → Net → Net
unfolding take_body find_blank_line
get_answer [] n = n
get_answer (c ∷ rb) n =
    if n.receive_mode
    then deliver n (c ∷ rb)
    else let answer = or_empty n.recvq ++ c ∷ rb in
      elim (find_blank_line answer) [
        | none ↦ record n { recvq = some answer }
        | some i ↦ take_body n answer i
      ]
