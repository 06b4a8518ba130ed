-- ===== src/Net/Machine/Sending.antt =====
-- What sending and receiving bytes does to the connection.
use elfloader3_elfs_archive.Prelude.{
  ℕ, ◌+◌, true, false, ◌≡◌, refl, sym, ◌∙◌, Bytes, List, [], ◌∷◌, ◌++◌, append_assoc, append-nil,
  Option, none, some, ltb, length, take, drop, ◌==◌, if◌then◌else◌, if_intro, if_true, if_false,
}
use elfloader3_elfs_archive.Net.State.{Net, data_sent, data_sending, header}
use elfloader3_elfs_archive.Net.Send.{
  Answer, sent, no_room, failed, min, chunk, is_below_connected, send_loop, send_queue,
  append_queue, bsend,
}
use elfloader3_elfs_archive.Net.Receive.{
  get_answer, take_body, deliver_body, find_blank_line, or_empty,
}

-- What the bytes of a connection do not touch: the connection.
abbrev pub Keeps : Net → Net → Type 0
Keeps n m = (m.connect_state ≡ n.connect_state) × (m.sock ≡ n.sock)

abbrev pub Extends : Bytes → Bytes → Type 0
Extends w w' = (p : Bytes) × (w' ≡ w ++ p)

Extends-refl : (w : Bytes) → Extends w w
Extends-refl w = ([], sym (append-nil w))

send_loop-Keeps : (answers : List Answer) (q : Bytes) (n : Net) → Keeps n (send_loop answers q n)
unfolding send_loop
send_loop-Keeps answers [] n = (refl, refl)
send_loop-Keeps [] (c ∷ q) n = (refl, refl)
send_loop-Keeps (no_room ∷ answers) (c ∷ q) n = (refl, refl)
send_loop-Keeps (failed ∷ answers) (c ∷ q) n = (refl, refl)
send_loop-Keeps (sent room ∷ answers) (c ∷ q) n =
    let i = min (length (c ∷ q)) chunk in
    let j = min room i in
    if_intro (Keeps n) (ltb j i) (refl, refl) (send_loop-Keeps answers (drop j (c ∷ q)) _)

send_loop-Extends :
    (answers : List Answer) (q : Bytes) (n : Net) → Extends n.wire (send_loop answers q n).wire
unfolding send_loop
send_loop-Extends answers [] n = Extends-refl n.wire
send_loop-Extends [] (c ∷ q) n = Extends-refl n.wire
send_loop-Extends (no_room ∷ answers) (c ∷ q) n = Extends-refl n.wire
send_loop-Extends (failed ∷ answers) (c ∷ q) n = Extends-refl n.wire
send_loop-Extends (sent room ∷ answers) (c ∷ q) n =
    let i = min (length (c ∷ q)) chunk in
    let j = min room i in
    let (p, e) = send_loop-Extends answers (drop j (c ∷ q)) (record n {
      wire = n.wire ++ take j (c ∷ q);
      console =
          if length (drop j (c ∷ q)) == 0
          then data_sent
          else data_sending (length (drop j (c ∷ q)));
    }) in
    if_intro (λ (m : Net). Extends n.wire m.wire) (ltb j i) (take j (c ∷ q), refl)
      ((take j (c ∷ q) ++ p, e ∙ append_assoc n.wire (take j (c ∷ q)) p))

-- `send` is called on a connection that is up, and then only adds to what was sent.
abbrev pub Sent : Net → Net → Type 0
Sent n m = Keeps n m × Extends n.wire m.wire

send_queue-Sent :
    (answers : List Answer) (o : Option Bytes) (n : Net) → Sent n (send_queue answers o n)
unfolding send_queue
send_queue-Sent answers none n = ((refl, refl), Extends-refl n.wire)
send_queue-Sent answers (some q) n = (send_loop-Keeps answers q n, send_loop-Extends answers q n)

append_queue-Sent :
    (answers : List Answer) (o : Option Bytes) (p : Bytes) (n : Net)
    → Sent n (append_queue answers o p n)
unfolding append_queue
append_queue-Sent answers none p n = (send_loop-Keeps answers p n, send_loop-Extends answers p n)
append_queue-Sent answers (some q) p n = ((refl, refl), Extends-refl n.wire)

-- As long as the connection is not up, `bsend` does nothing.
pub bsend-Sent :
    (answers : List Answer) (p : Option Bytes) (n : Net)
    → is_below_connected n.connect_state ≡ false
    → Sent n (bsend answers p n)
unfolding bsend
bsend-Sent answers none n e =
    rw (if_false (is_below_connected n.connect_state) n (send_queue answers n.sendq n) e)
      (send_queue-Sent answers n.sendq n)
bsend-Sent answers (some p) n e =
    rw (if_false (is_below_connected n.connect_state) n (append_queue answers n.sendq p n) e)
      (append_queue-Sent answers n.sendq p n)

pub bsend-below :
    (answers : List Answer) (p : Option Bytes) (n : Net)
    → is_below_connected n.connect_state ≡ true
    → bsend answers p n ≡ n
unfolding bsend
bsend-below answers none n e = if_true _ _ _ e
bsend-below answers (some p) n e = if_true _ _ _ e

-- What `recv` gives does not touch the connection either, and nothing is sent.
abbrev pub Quiet : Net → Net → Type 0
Quiet n m = Keeps n m × (m.wire ≡ n.wire)

deliver_body-Quiet : (n : Net) (body : Bytes) → Quiet n (deliver_body n body)
deliver_body-Quiet n [] = ((refl, refl), refl)
deliver_body-Quiet n (c ∷ body) = ((refl, refl), refl)

take_body-Quiet : (n : Net) (answer : Bytes) (i : ℕ) → Quiet n (take_body n answer i)
unfolding take_body
take_body-Quiet n answer i =
    deliver_body-Quiet
      (record n {
        recvq = some answer;
        receive_mode = true;
        console = header (take (i + 2) answer);
      })
      (drop (i + 4) answer)

pub get_answer-Quiet : (rb : Bytes) (n : Net) → Quiet n (get_answer rb n)
unfolding get_answer
get_answer-Quiet [] n = ((refl, refl), refl)
get_answer-Quiet (c ∷ rb) n =
    let answer = or_empty n.recvq ++ c ∷ rb in
    if_intro (Quiet n) n.receive_mode ((refl, refl), refl)
      (elim (find_blank_line answer)
        as (λ o.
          Quiet n
            (elim o [ none ↦ record n { recvq = some answer } | some i ↦ take_body n answer i ])) [
              | none ↦ ((refl, refl), refl)
              | some i ↦ take_body-Quiet n answer i
            ])
