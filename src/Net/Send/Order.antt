-- ===== src/Net/Send/Order.antt =====
-- The bytes given to `bsend` go out once each and in their order.
use elfloader3_elfs_archive.Prelude.{
  ℕ, zero, suc, ◌-◌, ◌*◌, ◌≤◌, ◌≡◌, refl, sym, ap, ◌∙◌, false, Bytes, List, [], ◌∷◌, ◌++◌,
  append_assoc, append-nil, Option, none, some, length, take, drop, ltb, if_intro, arith, replicate,
}
use mathlib.Core.Path.{subst}
use elfloader3_elfs_archive.Net.State.{Net}
use elfloader3_elfs_archive.Net.Send.{
  Answer, sent, no_room, failed, is_below_connected, min, chunk, send_loop, send_queue,
  append_queue, bsend,
}

abbrev pub queued : Option Bytes → Bytes
queued none = []
queued (some q) = q

-- What was sent, and what is to be sent after it.
abbrev pub stream : Net → Bytes
stream n = n.wire ++ queued n.sendq

take-append-drop : (i : ℕ) (s : Bytes) → take i s ++ drop i s ≡ s
take-append-drop zero s = refl
take-append-drop (suc i) [] = refl
take-append-drop (suc i) (c ∷ s) = ap (λ r. c ∷ r) (take-append-drop i s)

stream-send_loop :
    (answers : List Answer) (q : Bytes) (n : Net) → stream (send_loop answers q n) ≡ n.wire ++ q
unfolding send_loop
stream-send_loop answers [] n = refl
stream-send_loop [] (c ∷ q) n = refl
stream-send_loop (no_room ∷ answers) (c ∷ q) n = refl
stream-send_loop (failed ∷ answers) (c ∷ q) n = refl
stream-send_loop (sent room ∷ answers) (c ∷ q) n =
    let i = min (length (c ∷ q)) chunk in
    let j = min room i in
    let whole : (n.wire ++ take j (c ∷ q)) ++ drop j (c ∷ q) ≡ n.wire ++ c ∷ q =
      append_assoc n.wire (take j (c ∷ q)) (drop j (c ∷ q))
      ∙ ap (λ r. n.wire ++ r) (take-append-drop j (c ∷ q)) in
    if_intro (λ m. stream m ≡ n.wire ++ c ∷ q) (ltb j i) whole
      (stream-send_loop answers (drop j (c ∷ q)) _ ∙ whole)

stream-send_queue :
    (answers : List Answer) (n : Net) → stream (send_queue answers n.sendq n) ≡ stream n
unfolding send_queue
stream-send_queue answers n =
    elim n.sendq as (λ q. stream (send_queue answers q n) ≡ n.wire ++ queued q) [
      | none ↦ refl
      | some q ↦ stream-send_loop answers q n
    ]

stream-append_queue :
    (answers : List Answer) (p : Bytes) (n : Net)
    → stream (append_queue answers n.sendq p n) ≡ stream n ++ p
unfolding append_queue
stream-append_queue answers p n =
    elim n.sendq as (λ q. stream (append_queue answers q p n) ≡ (n.wire ++ queued q) ++ p) [
      | none ↦ rw (append-nil n.wire) (stream-send_loop answers p n)
      | some q ↦ sym (append_assoc n.wire q p)
    ]

-- However the network answers, a call of `bsend` on a connection adds its bytes behind all that was sent
-- and queued before, and loses or repeats none; a resend changes nothing of the stream.
pub stream-bsend :
    (answers : List Answer) (p : Option Bytes) (n : Net)
    → is_below_connected n.connect_state ≡ false
    → stream (bsend answers p n) ≡ stream n ++ queued p
unfolding bsend
stream-bsend answers none n h = rw (h, append-nil (stream n)) (stream-send_queue answers n)
stream-bsend answers (some p) n h = rw h (stream-append_queue answers p n)

-- The network has room for whole chunks.
abbrev pub chunks : ℕ → List Answer
chunks k = replicate k (sent chunk)

length-drop : (i : ℕ) (s : Bytes) → length (drop i s) ≡ length s - i
length-drop zero s = omega arith
length-drop (suc i) [] = omega arith
length-drop (suc i) (c ∷ s) = omega (arith, length-drop i s)

min-chunk : (l k : ℕ) → l ≤ suc k * chunk → l - min chunk (min l chunk) ≤ k * chunk
min-chunk l k h = ground (arith, h)

send_loop-drains :
    (k : ℕ) (q : Bytes) (n : Net) → length q ≤ k * chunk → (send_loop (chunks k) q n).sendq ≡ none
unfolding send_loop
send_loop-drains k [] n h = refl
send_loop-drains zero (c ∷ q) n h = absurd (omega (arith, h))
send_loop-drains (suc k) (c ∷ q) n h =
    let i = min (length (c ∷ q)) chunk in
    let whole : ltb (min chunk i) i ≡ false = ground arith in
    let left : length (drop (min chunk i) (c ∷ q)) ≤ k * chunk =
      omega (arith, length-drop (min chunk i) (c ∷ q), min-chunk (length (c ∷ q)) k h) in
    rw whole (send_loop-drains k (drop (min chunk i) (c ∷ q)) _ left)

abbrev Drains : Bytes → Bytes → Net → Type 0
Drains wire p m = (m.sendq ≡ none) × (m.wire ≡ wire ++ p)

drained :
    (k : ℕ) (q : Bytes) (n : Net)
    → length q ≤ k * chunk
    → Drains n.wire q (send_loop (chunks k) q n)
drained k q n h =
    let empty = send_loop-drains k q n h in
    let whole = stream-send_loop (chunks k) q n in
    (
      empty,
      sym (append-nil (send_loop (chunks k) q n).wire)
          ∙ ap (λ r. (send_loop (chunks k) q n).wire ++ queued r) (sym empty)
          ∙ whole,
    )

-- When the network has room for as many chunks as there are bytes, a call of `bsend` on a connection
-- leaves no queue: with nothing queued before, all of its bytes are sent; a resend sends the queue.
pub bsend-drains :
    (k : ℕ) (p : Bytes) (n : Net)
    → is_below_connected n.connect_state ≡ false
    → length p ≤ k * chunk
    → (n.sendq ≡ none
        → ((bsend (chunks k) (some p) n).sendq ≡ none)
          × ((bsend (chunks k) (some p) n).wire ≡ n.wire ++ p))
      × (n.sendq ≡ some p
          → ((bsend (chunks k) none n).sendq ≡ none)
            × ((bsend (chunks k) none n).wire ≡ n.wire ++ p))
unfolding bsend append_queue send_queue
bsend-drains k p n up room = (
  (λ e.
      rw up (
        subst (λ q. Drains n.wire p (append_queue (chunks k) q p n)) (sym e) (drained k p n room))),
  (λ e.
      rw up
        (subst (λ q. Drains n.wire p (send_queue (chunks k) q n)) (sym e) (drained k p n room))),
)
