-- ===== src/Net/Connect.antt =====
-- `create_connect`, the end of a connection, `ParseSocketMsg`, `StartINET` and `StopINET`.
use elfloader3_elfs_archive.Prelude.{
  ℕ, Bool, true, false, Bytes, List, [], ◌∷◌, ◌++◌, Option, none, some, ◌==◌, ◌||◌, not,
  if◌then◌else◌, pos,
}
use elfloader3_elfs_archive.Net.State.{
  ConnectState, Console, Popup, Task, data_end, Call, shutdown_socket, close_socket, gprs_off,
  unlink_cache, Net, pred_ℤ, is_zero,
}

-- What the phone answers: `async_gethostbyname` gives an error number, the request's number, and the
-- address, if the result is there and has one; `socket` and `connect` may fail.
pub record Phone : Type 0 where
  pub is_gprs_enabled : Bool
  pub host_is_ip : Bool
  pub dns_error : ℕ
  pub dns_id : ℕ
  pub dns_result : Option Bool
  pub new_socket : Option ℕ
  pub connects : Bool

abbrev pub show : Console → Net → Net
show c n = record n { console = c }

abbrev pub pop_up : Popup → Net → Net
pop_up p n = record n { popups = n.popups ++ p ∷ [] }

abbrev pub run_later : Task → Net → Net
run_later t n = record n { tasks = n.tasks ++ t ∷ [] }

abbrev pub call : Call → Net → Net
call c n = record n { calls = n.calls ++ c ∷ [] }

-- L_CONNECT
unfoldable pub open_socket : Phone → Net → Net
open_socket phone n0 =
    let n = show Console.open_socket n0 in
    elim phone.new_socket [
      | none ↦ call gprs_off (record n { sock = none })
      | some s ↦
          if phone.connects
          then record n { sock = some s; connect_state = ConnectState.connecting }
          else pop_up Popup.connect_fault
              (show Console.connect_fault (call (close_socket s) (record n { sock = none })))
    ]

-- The address is there, is not there yet, or is not a result at all.
unfoldable pub use_address : Phone → Net → Net
unfolding open_socket
use_address phone n = elim phone.dns_result [
  | none ↦ record n { dnr_tries = pred_ℤ n.dnr_tries }
  | some has_address ↦
      if has_address
      then open_socket phone (record (show Console.ok_dnr n) { dnr_tries = pos 0 })
      else n
]

unfoldable pub resolve : Phone → Net → Net
unfolding use_address
resolve phone n0 =
    let n = record (show Console.get_host_by_name n0) { dnr_id = phone.dns_id } in
    if phone.dns_error == 0
    then use_address phone n
    else if phone.dns_error == 0xC9 || phone.dns_error == 0xD6
    then (if phone.dns_id == 0 then use_address phone n else show Console.wait_dnr n)
    else pop_up Popup.fault_dnr (show Console.fault_dnr n)

unfoldable pub create_connect : Phone → Net → Net
unfolding resolve open_socket
create_connect phone n0 =
    let n = record n0 { connect_state = ConnectState.idle; receive_mode = false } in
    let n' = record n { dnr_id = 0 } in
    if not phone.is_gprs_enabled
    then record n { is_gprs_online = false }
    else if phone.host_is_ip
    then open_socket phone (show Console.ip_connect n')
    else resolve phone n'

abbrev pub clear_send_queue : Net → Net
clear_send_queue n = record n { sendq = none; send_timer = false }

abbrev pub clear_receive_queue : Net → Net
clear_receive_queue n = record n { recvq = none }

abbrev pub hang_up : Option ℕ → List Call
hang_up none = []
hang_up (some s) = shutdown_socket s ∷ close_socket s ∷ []

-- The socket is shut, and its number kept until `free_socket`.
unfoldable pub end_socket : Net → Net
end_socket n = record n { send_timer = false; calls = n.calls ++ hang_up n.sock }

unfoldable pub free_socket : Net → Net
free_socket n = record (clear_receive_queue (clear_send_queue n)) {
  sock = none;
  connect_state = ConnectState.idle;
  url = none;
  fncache = none;
  is_stopped = true;
  console = Console.blank;
}

unfoldable pub stop_inet : Net → Net
unfolding end_socket free_socket
stop_inet n = free_socket (end_socket n)

-- The messages that `ParseSocketMsg` knows; those of a socket carry its number.
pub data SocketMsg : Type 0 where
  connected data_read buffer_free remote_closed closed : SocketMsg

pub data Msg : Type 0 where
  disconnect_ind connect_cnf : Msg
  dnr_host_by_name : ℕ → Msg
  of_socket : ℕ → SocketMsg → Msg

-- ENIP_SOCK_CLOSED_ALL
unfoldable pub on_closed : Net → Net
on_closed n = elim n.connect_state [
  | ConnectState.closing ↦
      let n' = run_later Task.free_socket (record n { connect_state = ConnectState.idle }) in
      record n' { ipc = n.ipc ++ data_end ∷ [] }
  | ConnectState.idle ↦ n
  | _ ↦ run_later Task.end_socket (record n { connect_state = ConnectState.closing })
]

unfoldable pub on_connected : Net → Net
on_connected n0 =
    let n = show Console.link_connected n0 in
    elim n0.connect_state [
      | ConnectState.connecting ↦
          run_later Task.send_post (record n { connect_state = ConnectState.connected })
      | _ ↦ n
    ]

unfoldable pub on_data_read : Net → Net
on_data_read n0 =
    let n = show Console.data_received n0 in
    let read = run_later Task.get_answer (record n { connect_state = ConnectState.receiving }) in
    elim n0.connect_state [ ConnectState.connected ↦ read | ConnectState.receiving ↦ read | _ ↦ n ]

unfoldable pub on_socket : SocketMsg → Net → Net
unfolding on_connected on_data_read on_closed
on_socket connected n = on_connected n
on_socket data_read n = on_data_read n
on_socket buffer_free n = run_later Task.resend n
on_socket remote_closed n = on_closed (show Console.remote_closed n)
on_socket closed n = on_closed (show Console.local_closed n)

abbrev pub is_ours : Option ℕ → ℕ → Bool
is_ours none s = false
is_ours (some t) s = t == s

unfoldable pub parse_socket_msg : Msg → Net → Net
unfolding on_socket
parse_socket_msg disconnect_ind n = record n { is_gprs_online = false }
parse_socket_msg connect_cnf n = record n { is_gprs_online = true }
parse_socket_msg (dnr_host_by_name id) n =
    if id == n.dnr_id
    then (let n' = show Console.answer_dnr n in
        if is_zero n.dnr_tries then n' else run_later Task.create_connect n')
    else n
parse_socket_msg (of_socket s m) n = if is_ours n.sock s then on_socket m n else n

-- `StartINET`, which is refused while there is a connection.
abbrev pub is_idle : ConnectState → Bool
is_idle ConnectState.idle = true
is_idle _ = false

abbrev pub unlink_old : Option Bytes → Net → Net
unlink_old none n = n
unlink_old (some name) n = record n { calls = n.calls ++ unlink_cache name ∷ []; cache = [] }

unfoldable pub start_page : Option Bytes → Option Bytes → Net → Net
start_page none fncache n = record n { is_stopped = true }
start_page (some address) fncache n =
    run_later Task.create_connect
      (unlink_old fncache (record n { url = some address; fncache = fncache }))

unfoldable pub start_inet : Phone → Option Bytes → Option Bytes → Net → Net
unfolding start_page
start_inet phone url fncache n =
    if not (is_idle n.connect_state)
    then pop_up Popup.inet_busy n
    else if not phone.is_gprs_enabled
    then pop_up Popup.enable_gprs (record n { is_stopped = true })
    else start_page url fncache n
