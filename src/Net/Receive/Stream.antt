-- ===== src/Net/Receive/Stream.antt =====
-- However the answer is cut into parts, its body reaches the parser whole.
use elfloader3_elfs_archive.Prelude.{
  ℕ, zero, suc, ◌+◌, ◌≤◌, ◌≡◌, refl, sym, ap, ◌∙◌, true, false, Bytes, List, [], ◌∷◌, ◌++◌,
  append_assoc, append-nil, Option, none, some, length, drop, ◌==◌, if_true, if_false, Bool-cases,
  Option-cases, inl, inr, arith,
}
use mathlib.Core.Path.{subst}
use elfloader3_elfs_archive.Net.State.{Net, Ipc, data_arrived, data_end}
use elfloader3_elfs_archive.Net.Receive.{
  starts_blank_line, next_place, find_blank_line, deliver, deliver_body, take_body, or_empty,
  get_answer,
}

-- The parts that `recv` gives, one call after the other.
unfoldable pub get_answers : List Bytes → Net → Net
unfolding get_answer
get_answers [] n = n
get_answers (rb ∷ rest) n = get_answers rest (get_answer rb n)

abbrev pub joined : List Bytes → Bytes
joined [] = []
joined (rb ∷ rest) = rb ++ joined rest

-- What the messages to the parser carry.
abbrev pub parsed : List Ipc → Bytes
parsed [] = []
parsed (data_arrived bytes ∷ ms) = bytes ++ parsed ms
parsed (data_end ∷ ms) = parsed ms

-- The body of an answer: what follows the first blank line.
unfoldable pub body_of : Bytes → Bytes
unfolding find_blank_line
body_of answer = elim (find_blank_line answer) [ none ↦ [] | some i ↦ drop (i + 4) answer ]

parsed-append :
    (ms : List Ipc) (bytes : Bytes) → parsed (ms ++ data_arrived bytes ∷ []) ≡ parsed ms ++ bytes
parsed-append [] bytes = append-nil bytes
parsed-append (data_arrived b ∷ ms) bytes =
    ap (λ r. b ++ r) (parsed-append ms bytes) ∙ sym (append_assoc b (parsed ms) bytes)
parsed-append (data_end ∷ ms) bytes = parsed-append ms bytes

-- A blank line that is found lies in the bytes, and is found there when more follow.
starts-append : (s t : Bytes) → 4 ≤ length s → starts_blank_line (s ++ t) ≡ starts_blank_line s
starts-append (a ∷ b ∷ c ∷ d ∷ s) t h = refl
starts-append (a ∷ b ∷ c ∷ []) t h = absurd (omega (arith, h))
starts-append (a ∷ b ∷ []) t h = absurd (omega (arith, h))
starts-append (a ∷ []) t h = absurd (omega (arith, h))
starts-append [] t h = absurd (omega (arith, h))

starts-length : (s : Bytes) → starts_blank_line s ≡ true → 4 ≤ length s
starts-length (a ∷ b ∷ c ∷ d ∷ s) h = omega arith
starts-length (a ∷ b ∷ c ∷ []) h = cc
starts-length (a ∷ b ∷ []) h = cc
starts-length (a ∷ []) h = cc
starts-length [] h = cc

some-next : (o : Option ℕ) (i : ℕ) → next_place o ≡ some i → (j : ℕ) × (o ≡ some j) × (j + 1 ≡ i)
some-next none i h = cc
some-next (some j) i h = (j, refl, ground (arith, h))

find-append :
    (s t : Bytes) (i : ℕ)
    → find_blank_line s ≡ some i
    → (find_blank_line (s ++ t) ≡ some i) × (i + 4 ≤ length s)
unfolding find_blank_line
find-append [] t i h = cc
find-append (a ∷ s) t i h = elim (Bool-cases (a == 0)) [
  | inl stop ↦ let no : none ≡ some i = (rw stop at h) in cc
  | inr go ↦ elim (Bool-cases (starts_blank_line (a ∷ s))) [
    | inl here ↦
        let long = starts-length (a ∷ s) here in
        let first : some 0 ≡ some i = (rw (go, here) at h) in
        let zero_i : 0 ≡ i = ground (arith, first) in
        (rw (go, starts-append (a ∷ s) t long, here) first, omega (arith, long, zero_i))
    | inr later ↦
        let below : next_place (find_blank_line s) ≡ some i = (rw (go, later) at h) in
        let (j, found, e) = some-next (find_blank_line s) i below in
        let (kept, long) = find-append s t j found in
        let enough : 4 ≤ length (a ∷ s) = omega (arith, long) in
        (rw (go, starts-append (a ∷ s) t enough, later, kept) (ap some e), omega (arith, long, e))
  ]
]

take-append : (i : ℕ) (s t : Bytes) → i ≤ length s → drop i (s ++ t) ≡ drop i s ++ t
take-append zero s t h = refl
take-append (suc i) [] t h = absurd (omega (arith, h))
take-append (suc i) (c ∷ s) t h = take-append i s t (omega (arith, h))

abbrev pub IsRunning : Net → Type 0
IsRunning n = (n.is_terminated ≡ false) × (n.is_stopped ≡ false)

-- A part after the header.
deliver-parsed :
    (n : Net) (bytes : Bytes)
    → IsRunning n
    → (parsed (deliver n bytes).ipc ≡ parsed n.ipc ++ bytes)
      × ((deliver n bytes).receive_mode ≡ n.receive_mode)
      × IsRunning (deliver n bytes)
deliver-parsed n bytes (up, going) = (rw (up, going) (parsed-append n.ipc bytes), refl, (up, going))

get_answer-none : (n : Net) → get_answer [] n ≡ n
unfolding get_answer
get_answer-none n = refl

get_answer-later :
    (c : ℕ) (rb : Bytes) (n : Net)
    → n.receive_mode ≡ true
    → get_answer (c ∷ rb) n ≡ deliver n (c ∷ rb)
unfolding get_answer
get_answer-later c rb n mode = if_true n.receive_mode _ _ mode

-- After the header every part goes to the parser as it comes.
get_answers-parsed :
    (parts : List Bytes) (n : Net)
    → IsRunning n
    → n.receive_mode ≡ true
    → parsed (get_answers parts n).ipc ≡ parsed n.ipc ++ joined parts
unfolding get_answers
get_answers-parsed [] n up mode = sym (append-nil (parsed n.ipc))
get_answers-parsed ([] ∷ parts) n up mode =
    ap (λ m. parsed (get_answers parts m).ipc) (get_answer-none n)
    ∙ get_answers-parsed parts n up mode
get_answers-parsed ((c ∷ rb) ∷ parts) n up mode =
    let (now, mode', up') = deliver-parsed n (c ∷ rb) up in
    ap (λ m. parsed (get_answers parts m).ipc) (get_answer-later c rb n mode)
    ∙ (get_answers-parsed parts (deliver n (c ∷ rb)) up' (mode' ∙ mode)
        ∙ (ap (λ l. l ++ joined parts) now ∙ append_assoc (parsed n.ipc) (c ∷ rb) (joined parts)))

-- The bytes of the header that are kept, and one part more.
get_answer-header :
    (c : ℕ) (rb : Bytes) (n : Net) (o : Option ℕ)
    → n.receive_mode ≡ false
    → find_blank_line (or_empty n.recvq ++ c ∷ rb) ≡ o
    → get_answer (c ∷ rb) n ≡ (elim o [
      | none ↦ record n { recvq = some (or_empty n.recvq ++ c ∷ rb) }
      | some i ↦ take_body n (or_empty n.recvq ++ c ∷ rb) i
    ])
unfolding get_answer
get_answer-header c rb n o mode e = if_false n.receive_mode _ _ mode ∙ rw e refl

deliver_body-parsed :
    (n : Net) (body : Bytes)
    → n.receive_mode ≡ true
    → IsRunning n
    → (parsed (deliver_body n body).ipc ≡ parsed n.ipc ++ body)
      × ((deliver_body n body).receive_mode ≡ true)
      × IsRunning (deliver_body n body)
deliver_body-parsed n [] mode up = (sym (append-nil (parsed n.ipc)), mode, up)
deliver_body-parsed n (c ∷ body) mode up =
    let (now, mode', up') = deliver-parsed n (c ∷ body) up in (now, mode' ∙ mode, up')

-- The part that ends the header.
take_body-parsed :
    (n : Net) (answer : Bytes) (i : ℕ)
    → IsRunning n
    → (parsed (take_body n answer i).ipc ≡ parsed n.ipc ++ drop (i + 4) answer)
      × ((take_body n answer i).receive_mode ≡ true)
      × IsRunning (take_body n answer i)
unfolding take_body
take_body-parsed n answer i up = deliver_body-parsed _ (drop (i + 4) answer) refl up

body_of-none : (s : Bytes) → find_blank_line s ≡ none → body_of s ≡ []
unfolding body_of
body_of-none s e = rw (body_of, e) refl

body_of-append :
    (s t : Bytes) (i : ℕ) → find_blank_line s ≡ some i → body_of (s ++ t) ≡ drop (i + 4) s ++ t
unfolding body_of
body_of-append s t i e =
    let (found, long) = find-append s t i e in rw (body_of, found) (take-append (i + 4) s t long)

-- The parts behind the `held` bytes of a header that is not whole.
abbrev Reaches : List Bytes → Net → Bytes → Type 0
Reaches parts n held =
    parsed (get_answers parts n).ipc ≡ parsed n.ipc ++ body_of (held ++ joined parts)

get_answers-ended :
    (parts : List Bytes) (n : Net) (answer : Bytes) (i : ℕ)
    → IsRunning n
    → find_blank_line answer ≡ some i
    → parsed (get_answers parts (take_body n answer i)).ipc
      ≡ parsed n.ipc ++ body_of (answer ++ joined parts)
get_answers-ended parts n answer i up found =
    let (now, mode, up') = take_body-parsed n answer i up in
    get_answers-parsed parts (take_body n answer i) up' mode
    ∙ (ap (λ l. l ++ joined parts) now
        ∙ (append_assoc (parsed n.ipc) (drop (i + 4) answer) (joined parts)
            ∙ ap (λ l. parsed n.ipc ++ l) (sym (body_of-append answer (joined parts) i found))))

get_answers-held :
    (parts : List Bytes) (n : Net)
    → IsRunning n
    → n.receive_mode ≡ false
    → find_blank_line (or_empty n.recvq) ≡ none
    → Reaches parts n (or_empty n.recvq)
unfolding get_answers
get_answers-held [] n up mode unended =
    rw (append-nil (or_empty n.recvq), body_of-none (or_empty n.recvq) unended)
      (sym (append-nil (parsed n.ipc)))
get_answers-held ([] ∷ parts) n up mode unended =
    ap (λ m. parsed (get_answers parts m).ipc) (get_answer-none n)
    ∙ get_answers-held parts n up mode unended
get_answers-held ((c ∷ rb) ∷ parts) n up mode unended =
    let answer = or_empty n.recvq ++ c ∷ rb in
    subst (λ t. parsed (get_answers parts (get_answer (c ∷ rb) n)).ipc ≡ parsed n.ipc ++ body_of t)
      (append_assoc (or_empty n.recvq) (c ∷ rb) (joined parts))
      (elim (Option-cases (find_blank_line answer)) [
        | inl none_yet ↦
            ap (λ m. parsed (get_answers parts m).ipc) (get_answer-header c rb n none mode none_yet)
            ∙ get_answers-held parts (record n { recvq = some answer }) up mode none_yet
        | inr (i, found) ↦
            ap (λ m. parsed (get_answers parts m).ipc)
              (get_answer-header c rb n (some i) mode found)
            ∙ get_answers-ended parts n answer i up found
      ])

find_blank_line-nil : find_blank_line [] ≡ none
unfolding find_blank_line
find_blank_line-nil = refl

-- However the answer of the server is cut into parts, and from the first part on, what reaches the parser
-- are the bytes behind the first blank line of the whole, once each and in their order; and none
-- where there is no blank line. The page is running, and no part was read before.
pub get_answers-body_of :
    (parts : List Bytes) (n : Net)
    → IsRunning n
    → n.receive_mode ≡ false
    → n.recvq ≡ none
    → parsed (get_answers parts n).ipc ≡ parsed n.ipc ++ body_of (joined parts)
get_answers-body_of parts n up mode empty =
    let unended : find_blank_line (or_empty n.recvq) ≡ none =
      subst (λ q. find_blank_line (or_empty q) ≡ none) (sym empty) find_blank_line-nil in
    get_answers-held parts n up mode unended
    ∙ ap (λ q. parsed n.ipc ++ body_of (or_empty q ++ joined parts)) empty
