-- ===== src/Net/Machine/Refinement.antt =====
-- The steps of inet.c move along the diagram of the connection.
use elfloader3_elfs_archive.Prelude.{
  ℕ, ◌≡◌, refl, Bytes, List, Option, none, some, ok, ap, bind-ok, ok-injective, or_fault,
  bad_pointer, if_intro, ◌==◌, not,
}
use mathlib.Core.Path.{subst}
use elfloader3_elfs_archive.Net.State.{
  ConnectState, closing, idle, connecting, connected, receiving, Net, Task, Console, is_zero,
}
use elfloader3_elfs_archive.Net.Send.{Answer, bsend}
use elfloader3_elfs_archive.Net.Request.{Settings, Request, post_bytes, send_post}
use elfloader3_elfs_archive.Net.Connect.{
  Phone, Msg, disconnect_ind, connect_cnf, dnr_host_by_name, of_socket, SocketMsg, data_read,
  buffer_free, remote_closed, closed, show, end_socket, stop_inet, parse_socket_msg, on_socket,
  on_closed, on_connected, on_data_read, is_ours, is_idle, start_inet,
}
use elfloader3_elfs_archive.Net.Machine.{
  Runs, connects, posts, reads, ends, frees, stops, resends, Step, message, task, timer, start,
  asks_stop, Steps, done, ◌▸◌,
}
use elfloader3_elfs_archive.Net.Machine.Diagram.{
  Conn, stays, falls, links, sends, gives_up, loses, Views, is_down, is_opening, is_connected,
  is_receiving, is_shutting, Sees, Sim, Course, here, ◌▹◌,
}
use elfloader3_elfs_archive.Net.Machine.Dialing.{create_connect-Sim, free_socket-Sim}
use elfloader3_elfs_archive.Net.Machine.Sending.{bsend-Sent, bsend-below, get_answer-Quiet}

abbrev with_conn : ConnectState → Option ℕ → Net → Net
with_conn st o n = record n { connect_state = st; sock = o }

-- What changes nothing of the connection.
unmoved : {c : Conn} {w : Bytes} {st : ConnectState} {o : Option ℕ} → Views st o c → Sees c w st o w
unmoved v = (_, stays, v)

on_closed-Sim :
    {st : ConnectState} {o : Option ℕ} {c : Conn} (n : Net)
    → Views st o c
    → Sim c n.wire (on_closed (with_conn st o n))
unfolding on_closed
on_closed-Sim n is_down = unmoved is_down
on_closed-Sim n is_opening = (_, gives_up, is_shutting)
on_closed-Sim n is_connected = (_, loses, is_shutting)
on_closed-Sim n is_receiving = (_, loses, is_shutting)
on_closed-Sim n is_shutting = (_, falls, is_down)

on_connected-Sim :
    {st : ConnectState} {o : Option ℕ} {c : Conn} (n : Net)
    → Views st o c
    → Sim c n.wire (on_connected (with_conn st o n))
unfolding on_connected
on_connected-Sim n is_opening = (_, links, is_connected)
on_connected-Sim n is_down = unmoved is_down
on_connected-Sim n is_connected = unmoved is_connected
on_connected-Sim n is_receiving = unmoved is_receiving
on_connected-Sim n is_shutting = unmoved is_shutting

on_data_read-Sim :
    {st : ConnectState} {o : Option ℕ} {c : Conn} (n : Net)
    → Views st o c
    → Sim c n.wire (on_data_read (with_conn st o n))
unfolding on_data_read
on_data_read-Sim n is_opening = unmoved is_opening
on_data_read-Sim n is_down = unmoved is_down
on_data_read-Sim n is_connected = unmoved is_receiving
on_data_read-Sim n is_receiving = unmoved is_receiving
on_data_read-Sim n is_shutting = unmoved is_shutting

on_socket-Sim :
    {c : Conn} (m : SocketMsg) (n : Net)
    → Views n.connect_state n.sock c
    → Sim c n.wire (on_socket m n)
unfolding on_socket
on_socket-Sim SocketMsg.connected n v = on_connected-Sim n v
on_socket-Sim data_read n v = on_data_read-Sim n v
on_socket-Sim buffer_free n v = unmoved v
on_socket-Sim remote_closed n v = on_closed-Sim (show Console.remote_closed n) v
on_socket-Sim closed n v = on_closed-Sim (show Console.local_closed n) v

parse_socket_msg-Sim :
    {c : Conn} (m : Msg) (n : Net)
    → Views n.connect_state n.sock c
    → Sim c n.wire (parse_socket_msg m n)
unfolding parse_socket_msg
parse_socket_msg-Sim disconnect_ind n v = unmoved v
parse_socket_msg-Sim connect_cnf n v = unmoved v
parse_socket_msg-Sim {c} (dnr_host_by_name id) n v =
    if_intro (Sim c n.wire) (id == n.dnr_id)
      (if_intro (Sim c n.wire) (is_zero n.dnr_tries) (unmoved v) (unmoved v)) (unmoved v)
parse_socket_msg-Sim {c} (of_socket s m) n v =
    if_intro (Sim c n.wire) (is_ours n.sock s) (on_socket-Sim m n v) (unmoved v)

bsend-Sim :
    {st : ConnectState} {o : Option ℕ} {c : Conn} (answers : List Answer) (p : Option Bytes)
    (n : Net)
    → Views st o c
    → Sim c n.wire (bsend answers p (with_conn st o n))
bsend-Sim answers p n is_down =
    rw (bsend-below answers p (with_conn idle _ n) refl) (unmoved is_down)
bsend-Sim answers p n (is_opening {s}) =
    rw (bsend-below answers p (with_conn connecting (some s) n) refl) (unmoved is_opening)
bsend-Sim answers p n (is_shutting {s}) =
    rw (bsend-below answers p (with_conn closing (some s) n) refl) (unmoved is_shutting)
bsend-Sim answers p n (is_connected {s}) =
    let ((state, sock), (q, wire)) = bsend-Sent answers p (with_conn connected (some s) n) refl in
    rw (state, sock, wire) ((_, sends q, is_connected))
bsend-Sim answers p n (is_receiving {s}) =
    let ((state, sock), (q, wire)) = bsend-Sent answers p (with_conn receiving (some s) n) refl in
    rw (state, sock, wire) ((_, sends q, is_receiving))

send_post-Sim :
    {c : Conn} (s : Settings) (answers : List Answer) (r r' : Request) (n n' : Net)
    → Views n.connect_state n.sock c
    → send_post s answers r n ≡ ok (r', n')
    → Sim c n.wire n'
unfolding send_post
send_post-Sim {c} s answers r r' n n' v h =
    let (url, given, h1) = bind-ok (or_fault bad_pointer n.url) _ h in
    let (p, made, h2) = bind-ok (post_bytes s r url) _ h1 in
    subst (Sim c n.wire) (ap (λ (x : Request × Net). x.1) (ok-injective h2))
      (bsend-Sim answers (some p) n v)

Runs-Sim :
    {c : Conn} {t : Task} {n n' : Net}
    → Views n.connect_state n.sock c
    → Runs t n n'
    → Sim c n.wire n'
unfolding end_socket stop_inet
Runs-Sim {c} {n} v (connects phone) = create_connect-Sim phone n c
Runs-Sim {n} {n'} v (posts {r'} s answers r h) = send_post-Sim s answers r r' n n' v h
Runs-Sim {n} v (reads rb) =
    let ((state, sock), wire) = get_answer-Quiet rb n in rw (state, sock, wire) (unmoved v)
Runs-Sim v ends = unmoved v
Runs-Sim {c} {n} v frees = free_socket-Sim n c
Runs-Sim {c} {n} v stops = free_socket-Sim (end_socket n) c
Runs-Sim {n} v (resends answers) = bsend-Sim answers none n v

start_inet-Sim :
    {c : Conn} (phone : Phone) (url fncache : Option Bytes) (n : Net)
    → Views n.connect_state n.sock c
    → Sim c n.wire (start_inet phone url fncache n)
unfolding start_inet
start_inet-Sim {c} phone none fncache n v =
    if_intro (Sim c n.wire) (not (is_idle n.connect_state)) (unmoved v)
      (if_intro (Sim c n.wire) (not phone.is_gprs_enabled) (unmoved v) (unmoved v))
start_inet-Sim {c} phone (some url) none n v =
    if_intro (Sim c n.wire) (not (is_idle n.connect_state)) (unmoved v)
      (if_intro (Sim c n.wire) (not phone.is_gprs_enabled) (unmoved v) (unmoved v))
start_inet-Sim {c} phone (some url) (some fncache) n v =
    if_intro (Sim c n.wire) (not (is_idle n.connect_state)) (unmoved v)
      (if_intro (Sim c n.wire) (not phone.is_gprs_enabled) (unmoved v) (unmoved v))

Step-Sim : {c : Conn} {n n' : Net} → Views n.connect_state n.sock c → Step n n' → Sim c n.wire n'
Step-Sim {n} v (message m) = parse_socket_msg-Sim m n v
Step-Sim v (task e r) = Runs-Sim v r
Step-Sim v (timer e) = unmoved v
Step-Sim {n} v (start phone url fncache) = start_inet-Sim phone url fncache n v
Step-Sim v asks_stop = unmoved v

-- Whatever the phone, the server, the timer and the user do, and in whatever order, the connection moves
-- along its diagram from where it was: it goes up only from a socket that was dialled and has
-- connected, it sends only while it is up and then adds to what was sent, and it stays on one socket until
-- it goes down or dials anew. At the end the program's variables stand for where it is, and a
-- connection that is not down has its socket.
pub Steps-Course :
    {n n' : Net} (c : Conn)
    → Views n.connect_state n.sock c
    → Steps n n'
    → (c' : Conn) × Course c n.wire c' n'.wire × Views n'.connect_state n'.sock c'
Steps-Course c v done = (c, here, v)
Steps-Course c v (step ▸ steps) =
    let (c1, move, v1) = Step-Sim v step in
    let (c2, course, v2) = Steps-Course c1 v1 steps in (c2, move ▹ course, v2)
