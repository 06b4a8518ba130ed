-- ===== src/Browser/Parts.antt =====
-- Which parts of a file are sent to the window, and which are in the cache.
use elfloader3_elfs_archive.Prelude.{
  ℕ, suc, ◌+◌, ◌≤◌, ◌≡◌, inl, inr, refl, sym, ap, ◌∙◌, true, false, Bytes, List, [], ◌∷◌, ◌++◌,
  append_assoc, append-nil, map, Option, none, some, length, take, ◌==◌, if_cases, if◌then◌else◌,
  Bool-cases, arith,
}
use elfloader3_elfs_archive.PageStack.State.{up_page_stack}
use elfloader3_elfs_archive.Browser.Arriving.{
  ipc_data_arrived, ipc_data_end, Getting, Flags, write_part, send_part, read_loop, read_ended,
  get_file,
}

-- What the file gives before its end or an error.
abbrev pub parts : List Bytes → List Bytes
parts [] = []
parts (buf ∷ bufs) = let rest = parts bufs in if length buf == 0 then [] else buf ∷ rest

abbrev pub joined : List Bytes → Bytes
joined [] = []
joined (buf ∷ bufs) = buf ++ joined bufs

abbrev pub written : List Bytes → Option Bytes → Option Bytes
written bufs none = none
written bufs (some s) = some (s ++ joined bufs)

-- Where the loop ends that began in round `i` with `n` parts before it, `k` parts sent and `m` written: behind
-- all of them; or in the round of the last part that was sent, which found a stop after it; or in the round
-- of the part behind that, which found a stop before it was sent.
pub data Ending (flags : Flags) (i n k m : ℕ) : Type 0 where
  all_parts : k ≡ n → m ≡ n → Ending flags i n k m
  stop_after : (j : ℕ) → k ≡ suc j → m ≡ k → k ≤ n → (flags (i + j)).1 ≡ true → Ending flags i n k m
  stop_before : m ≡ suc k → m ≤ n → (flags (i + k)).0 ≡ false → Ending flags i n k m

-- `k` parts were sent and `m` written.
abbrev pub Sends : Flags → ℕ → List Bytes → Getting → Getting → Type 0
Sends flags i ps g g' =
    (k : ℕ) × (m : ℕ) × (g'.sent ≡ g.sent ++ map ipc_data_arrived (take k ps))
    × (g'.cache ≡ written (take m ps) g.cache)
    × Ending flags i (length ps) k m

written-nil : (c : Option Bytes) → c ≡ written [] c
written-nil none = refl
written-nil (some s) = ap some (sym (append-nil s))

written-cons :
    (buf : Bytes) (bufs : List Bytes) (g : Getting)
    → written bufs (write_part buf g).cache ≡ written (buf ∷ bufs) g.cache
written-cons buf bufs g = go buf bufs g.cache
  where
    go :
        (b : Bytes) (bs : List Bytes) (c : Option Bytes)
        → written bs (elim c [ none ↦ none | some s ↦ some (s ++ b) ]) ≡ written (b ∷ bs) c
    go b bs none = refl
    go b bs (some s) = ap some (append_assoc s b (joined bs))

-- A stop that a round has seen when it was to send its part is still there when it looks again.
abbrev pub StaysStopped : Flags → Type 0
StaysStopped flags = (i : ℕ) → (flags i).0 ≡ false → (flags i).1 ≡ true

Ending-suc :
    (flags : Flags) (i n k m : ℕ)
    → Ending flags (suc i) n k m
    → Ending flags i (suc n) (suc k) (suc m)
Ending-suc flags i n k m (all_parts e e') = all_parts (ap suc e) (ap suc e')
Ending-suc flags i n k m (stop_after j e e' le last) =
    stop_after (suc j) (ap suc e) (ap suc e') (omega (arith, le))
      (ap (λ r. (flags r).1) (omega arith) ∙ last)
Ending-suc flags i n k m (stop_before e le off) =
    stop_before (ap suc e) (omega (arith, le)) (ap (λ r. (flags r).0) (omega arith) ∙ off)

round_zero : (i : ℕ) → i + 0 ≡ i
round_zero i = omega arith

-- A round whose part is sent goes on with the rest.
Sends-cons :
    (flags : Flags) (i : ℕ) (buf : Bytes) (ps : List Bytes) (g g' : Getting)
    → Sends flags (suc i) ps (send_part (ipc_data_arrived buf) (write_part buf g)) g'
    → Sends flags i (buf ∷ ps) g g'
Sends-cons flags i buf ps g g' (k, m, sent, cache, ending) = (
  suc k,
  suc m,
  sent ∙ append_assoc g.sent (ipc_data_arrived buf ∷ []) (map ipc_data_arrived (take k ps)),
  cache ∙ written-cons buf (take m ps) g,
  Ending-suc flags i (length ps) k m ending,
)

abbrev after_part : Flags → ℕ → Bytes → List Bytes → Getting → Getting
after_part flags i buf bufs g =
    let g1 = write_part buf g in
    let g2 = if (flags i).0 then send_part (ipc_data_arrived buf) g1 else g1 in
    if (flags i).1 then g2 else read_loop flags (suc i) bufs g2

after_part-Sends :
    (flags : Flags) (i : ℕ) (buf : Bytes) (bufs : List Bytes) (g : Getting)
    → StaysStopped flags
    → ((g1 : Getting) → Sends flags (suc i) (parts bufs) g1 (read_loop flags (suc i) bufs g1))
    → Sends flags i (buf ∷ parts bufs) g (after_part flags i buf bufs g)
after_part-Sends flags i buf bufs g stays rest =
    let ps = parts bufs in
    let g1 = write_part buf g in
    let g2 = send_part (ipc_data_arrived buf) g1 in
    if_cases
      (λ g'.
        Sends flags i (buf ∷ ps) g (if (flags i).1 then g' else read_loop flags (suc i) bufs g'))
      (flags i).0
      (λ sends.
        if_cases (λ g'. Sends flags i (buf ∷ ps) g g') (flags i).1
          (λ last. (
            1,
            1,
            refl,
            written-nil g1.cache ∙ written-cons buf [] g,
            stop_after 0 refl refl (omega arith) (ap (λ r. (flags r).1) (round_zero i) ∙ last),
          ))
          (λ goes_on. Sends-cons flags i buf ps g (read_loop flags (suc i) bufs g2) (rest g2)))
      (λ stopped. rw (stays i stopped) (
        0,
        1,
        sym (append-nil g.sent),
        written-nil g1.cache ∙ written-cons buf [] g,
        stop_before refl (omega arith) (ap (λ r. (flags r).0) (round_zero i) ∙ stopped),
      ))

read_loop-Sends :
    (flags : Flags) (i : ℕ) (bufs : List Bytes) (g : Getting)
    → StaysStopped flags
    → Sends flags i (parts bufs) g (read_loop flags i bufs g)
unfolding read_loop
read_loop-Sends flags i [] g stays =
    (0, 0, sym (append-nil g.sent), written-nil g.cache, all_parts refl refl)
read_loop-Sends flags i (buf ∷ bufs) g stays = elim (Bool-cases (length buf == 0)) [
  | inl none_left ↦
      rw none_left (0, 0, sym (append-nil g.sent), written-nil g.cache, all_parts refl refl)
  | inr there ↦ rw there (
      after_part-Sends flags i buf bufs g stays (λ g1. read_loop-Sends flags (suc i) bufs g1 stays))
]

-- The same, with the message of the end behind the parts.
abbrev pub Gets : Flags → List Bytes → Option Bytes → Getting → Getting → Type 0
Gets flags ps opened g g' =
    (k : ℕ) × (m : ℕ) × (g'.sent ≡ g.sent ++ map ipc_data_arrived (take k ps) ++ ipc_data_end ∷ [])
    × (g'.cache ≡ written (take m ps) opened)
    × Ending flags 0 (length ps) k m

ended-Gets :
    (flags : Flags) (ps : List Bytes) (g g' : Getting)
    → Sends flags 0 ps g g'
    → Gets flags ps g.cache g (read_ended g')
ended-Gets flags ps g g' (k, m, sent, cache, ending) =
    (k, m, ap (λ ms. ms ++ ipc_data_end ∷ []) sent, cache, ending)

-- The file of the cache, if there is a name for it and it could be opened.
abbrev pub cache_of : Option (Option Bytes) → Option Bytes
cache_of none = none
cache_of (some opened) = opened

-- A file that can be opened, and a stop that, once a round has seen it when it was to send its part, is still
-- there when it looks again: the messages hold the first parts of the file in their order, each once, and the
-- end comes behind them, once. The parts are all of the file, or the last of them was sent in a round that found
-- a stop after it, or the next one was not sent since its round found a stop before it. The cache holds the
-- parts that were sent, and in the last case that next one too.
pub get_file-Gets :
    (size : ℕ) (flags : Flags) (bufs : List Bytes) (fncache : Option (Option Bytes)) (g : Getting)
    → StaysStopped flags
    → Gets flags (parts bufs) (cache_of fncache) g (get_file size flags (some bufs) fncache g)
unfolding get_file
get_file-Gets size flags bufs none g stays =
    let g0 = record g { stack = up_page_stack size g.stack; cache = none } in
    ended-Gets flags (parts bufs) g0 (read_loop flags 0 bufs g0)
      (read_loop-Sends flags 0 bufs g0 stays)
get_file-Gets size flags bufs (some opened) g stays =
    let g0 = record g { cache = opened } in
    ended-Gets flags (parts bufs) g0 (read_loop flags 0 bufs g0)
      (read_loop-Sends flags 0 bufs g0 stays)
