-- ===== src/Net/Send.antt =====
-- `bsend`: the queue of bytes that are to be sent.
pub mod Order
use elfloader3_elfs_archive.Prelude.{
  ℕ, Bool, true, false, Bytes, List, [], ◌∷◌, ◌++◌, Option, none, some, length, take, drop, ltb,
  leb, ◌==◌, if◌then◌else◌,
}
use elfloader3_elfs_archive.Net.State.{ConnectState, Net, data_sent, data_sending}

-- What `send` answers: how many bytes the network has room for, of which it takes no more than it is
-- offered; that there is no room (0xC9 or 0xD6); or another error.
pub data Answer : Type 0 where
  sent : ℕ → Answer
  no_room failed : Answer

-- `connect_state < 2`
abbrev pub is_below_connected : ConnectState → Bool
is_below_connected ConnectState.connected = false
is_below_connected ConnectState.receiving = false
is_below_connected _ = true

abbrev pub min : ℕ → ℕ → ℕ
min a b = if leb a b then a else b

abbrev pub chunk : ℕ
chunk = 0x400

-- `while((i=sendq_l)!=0)`, over the answers to the calls of `send`. A call that has no answer waits
-- as one that has no room. After a short write the timer starts.
unfoldable pub send_loop : List Answer → Bytes → Net → Net
send_loop answers [] n = record n { sendq = none }
send_loop [] (c ∷ q) n = record n { sendq = some (c ∷ q) }
send_loop (no_room ∷ answers) (c ∷ q) n = record n { sendq = some (c ∷ q) }
send_loop (failed ∷ answers) (c ∷ q) n = record n { sendq = some (c ∷ q) }
send_loop (sent room ∷ answers) (c ∷ q) n =
    let i = min (length (c ∷ q)) chunk in
    let j = min room i in
    let left = drop j (c ∷ q) in
    let n' = record n {
      wire = n.wire ++ take j (c ∷ q);
      console = if length left == 0 then data_sent else data_sending (length left);
    } in
    let more = send_loop answers left n' in
    if ltb j i then record n' { sendq = some left; send_timer = true } else more

-- An empty queue has no bytes to send: its buffer is freed.
unfoldable pub send_queue : List Answer → Option Bytes → Net → Net
unfolding send_loop
send_queue answers none n = record n { sendq = none }
send_queue answers (some q) n = send_loop answers q n

unfoldable pub append_queue : List Answer → Option Bytes → Bytes → Net → Net
unfolding send_loop
append_queue answers none p n = send_loop answers p n
append_queue answers (some q) p n = record n { sendq = some (q ++ p) }

-- `bsend(len, p)`: `none` is the null pointer of a resend.
unfoldable pub bsend : List Answer → Option Bytes → Net → Net
unfolding append_queue send_queue
bsend answers none n =
    if is_below_connected n.connect_state then n else send_queue answers n.sendq n
bsend answers (some p) n =
    if is_below_connected n.connect_state then n else append_queue answers n.sendq p n
