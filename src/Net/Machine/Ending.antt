-- ===== src/Net/Machine/Ending.antt =====
-- How a connection ends.
use elfloader3_elfs_archive.Prelude.{
  ℕ, true, ◌≡◌, refl, sym, ap, ◌∙◌, List, [], ◌∷◌, ◌++◌, Option, none, some, arith, if_true,
}
use mathlib.Core.Path.{subst}
use elfloader3_elfs_archive.Net.State.{
  ConnectState, closing, idle, connecting, connected, receiving, Net, Task, data_end,
  shutdown_socket, close_socket, Console,
}
use elfloader3_elfs_archive.Net.Connect.{
  show, SocketMsg, remote_closed, closed, of_socket, end_socket, free_socket, parse_socket_msg,
  on_socket, on_closed, is_ours,
}
use elfloader3_elfs_archive.Net.Machine.{with_tasks}

-- The socket was closed by the server, or by us.
pub data IsClose : SocketMsg → Type 0 where
  by_server : IsClose remote_closed
  by_us : IsClose closed

-- A connection that is neither idle nor closing.
pub data IsOpen : ConnectState → Type 0 where
  is_connecting : IsOpen connecting
  is_connected : IsOpen connected
  is_receiving : IsOpen receiving

-- All that is left of the connection over socket `s` that `n` had.
abbrev pub Ended : ℕ → Net → Net → Type 0
Ended s n m =
    (m.connect_state ≡ idle)
    × (m.sock ≡ none)
    × (m.sendq ≡ none)
    × (m.recvq ≡ none)
    × (m.url ≡ none)
    × (m.is_stopped ≡ true)
    × (m.tasks ≡ [])
    × (m.ipc ≡ n.ipc ++ data_end ∷ [])
    × (m.calls ≡ n.calls ++ shutdown_socket s ∷ close_socket s ∷ [])

abbrev pub after_first : ℕ → SocketMsg → Net → Net
after_first s m n = parse_socket_msg (of_socket s m) n

abbrev pub after_second : ℕ → SocketMsg → SocketMsg → Net → Net
after_second s m m' n =
    parse_socket_msg (of_socket s m') (end_socket (with_tasks [] (after_first s m n)))

-- The first message begins the end and the second one completes it.
abbrev pub Closes : ℕ → Net → Net → Net → Type 0
Closes s n first second =
    ((first.connect_state ≡ closing) × (first.tasks ≡ Task.end_socket ∷ []))
    × (second.tasks ≡ Task.free_socket ∷ [])
    × Ended s n (free_socket (with_tasks [] second))

same_socket : (s : ℕ) → is_ours (some s) s ≡ true
same_socket s = ground arith

-- A message of our socket that says it is closed.
close_message :
    {m : SocketMsg} (s : ℕ)
    → IsClose m
    → (c : Console) × ((n : Net)
        → n.sock ≡ some s
        → parse_socket_msg (of_socket s m) n ≡ on_closed (show c n))
unfolding parse_socket_msg on_socket
close_message s by_server = (
  Console.remote_closed,
  (λ n e. if_true (is_ours n.sock s) _ _ (ap (λ o. is_ours o s) e ∙ same_socket s)),
)
close_message s by_us = (
  Console.local_closed,
  (λ n e. if_true (is_ours n.sock s) _ _ (ap (λ o. is_ours o s) e ∙ same_socket s)),
)

abbrev with_conn : ConnectState → Option ℕ → List Task → Net → Net
with_conn st o ts n = record n { connect_state = st; sock = o; tasks = ts }

closed-Closes :
    {st : ConnectState} (s : ℕ) (c c' : Console) (n : Net)
    → IsOpen st
    → Closes s n (on_closed (show c (with_conn st (some s) [] n))) (
        on_closed
          (show c' (end_socket (with_tasks [] (on_closed (show c (with_conn st (some s) [] n)))))))
unfolding on_closed end_socket free_socket
closed-Closes s c c' n is_connecting =
    ((refl, refl), refl, (refl, refl, refl, refl, refl, refl, refl, refl, refl))
closed-Closes s c c' n is_connected =
    ((refl, refl), refl, (refl, refl, refl, refl, refl, refl, refl, refl, refl))
closed-Closes s c c' n is_receiving =
    ((refl, refl), refl, (refl, refl, refl, refl, refl, refl, refl, refl, refl))

open-sock :
    {st : ConnectState} (s : ℕ) (c : Console) (n : Net)
    → IsOpen st
    → (on_closed (show c (with_conn st (some s) [] n))).sock ≡ some s
unfolding on_closed
open-sock s c n is_connecting = refl
open-sock s c n is_connected = refl
open-sock s c n is_receiving = refl

free_socket_at-Closes :
    {st : ConnectState} {m m' : SocketMsg} (s : ℕ) (n : Net)
    → IsOpen st
    → IsClose m
    → IsClose m'
    → Closes s n
        (after_first s m (with_conn st (some s) [] n))
        (after_second s m m' (with_conn st (some s) [] n))
unfolding end_socket
free_socket_at-Closes {st} {m} {m'} s n up first second =
    let (c, handles) = close_message s first in
    let (c', handles') = close_message s second in
    let begun = handles (with_conn st (some s) [] n) refl in
    let left : Net = end_socket (with_tasks [] (on_closed (show c (with_conn st (some s) [] n)))) in
    subst (λ a. Closes s n a (parse_socket_msg (of_socket s m') (end_socket (with_tasks [] a))))
      (sym begun)
      (subst (Closes s n (on_closed (show c (with_conn st (some s) [] n))))
        (sym (handles' left (open-sock s c n up))) (closed-Closes s c c' n up))

-- Two messages that our socket is closed, by the server or by us, end an open connection whose tasks are
-- done: the first asks for its socket to be shut down and closed, the second for the rest to be freed.
-- After these tasks the program is idle again, without a socket, a queue or an address, the page has stopped,
-- the parser was told once that the page has ended, and the socket was shut down and closed once.
pub free_socket-Closes :
    {m m' : SocketMsg} (s : ℕ) (n : Net)
    → IsOpen n.connect_state
    → n.sock ≡ some s
    → n.tasks ≡ []
    → IsClose m
    → IsClose m'
    → Closes s n (after_first s m n) (after_second s m m' n)
free_socket-Closes {m} {m'} s n up e rest first second =
    let at : Option ℕ → List Task → Net = λ o ts. with_conn n.connect_state o ts n in
    subst (λ ts. Closes s n (after_first s m (at n.sock ts)) (after_second s m m' (at n.sock ts)))
      (sym rest)
      (subst (λ o. Closes s n (after_first s m (at o [])) (after_second s m m' (at o []))) (sym e)
        (free_socket_at-Closes s n up first second))
