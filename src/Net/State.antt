-- ===== src/Net/State.antt =====
-- The static variables of BalletMini/inet.c, what the phone answers to its calls, and what leaves it.
use elfloader3_elfs_archive.Prelude.{ℕ, zero, suc, Bool, Bytes, List, Option, ℤ, pos, negsuc}

-- `connect_state`: -1, 0, 1, 2 and 3.
pub data ConnectState : Type 0 where
  closing idle connecting connected receiving : ConnectState

-- What `ws_console` shows: a text of the language file, or the header of the answer.
pub data Console : Type 0 where
  blank ip_connect get_host_by_name wait_dnr fault_dnr ok_dnr open_socket connect_fault : Console
  data_sent answer_dnr link_connected data_received remote_closed local_closed : Console
  data_sending : ℕ → Console
  header : Bytes → Console

-- `ShowMSG`
pub data Popup : Type 0 where
  fault_dnr connect_fault inet_busy enable_gprs : Popup

-- `SUBPROC`: what the helper process is to run.
pub data Task : Type 0 where
  create_connect send_post get_answer end_socket free_socket stop_inet : Task
  -- `bsend(0, NULL)`
  resend : Task

-- `GBS_SendMessage` to the browser itself.
pub data Ipc : Type 0 where
  data_arrived : Bytes → Ipc
  data_end : Ipc

-- Calls that change the phone: sockets, the GPRS session and the file of the page.
pub data Call : Type 0 where
  shutdown_socket close_socket : ℕ → Call
  gprs_off : Call
  unlink_cache : Bytes → Call

-- `sock` is -1 for none. The queues are their buffers, of which `sendq_l` and `recvq_l` are the
-- lengths. `wire` is what was handed to `send`, in order, and `cache` what was written to the file of the page.
pub record Net : Type 0 where
  pub is_gprs_online : Bool
  pub dnr_id : ℕ
  pub dnr_tries : ℤ
  pub connect_state : ConnectState
  pub sock : Option ℕ
  pub sendq : Option Bytes
  pub recvq : Option Bytes
  pub receive_mode : Bool
  pub url : Option Bytes
  pub fncache : Option Bytes
  pub send_timer : Bool
  pub is_stopped : Bool
  pub is_terminated : Bool
  pub console : Console
  pub popups : List Popup
  pub tasks : List Task
  pub ipc : List Ipc
  pub calls : List Call
  pub wire : Bytes
  pub cache : Bytes

-- `n--` on an int.
abbrev pub pred_ℤ : ℤ → ℤ
pred_ℤ (pos zero) = negsuc 0
pred_ℤ (pos (suc n)) = pos n
pred_ℤ (negsuc n) = negsuc (suc n)

abbrev pub is_zero : ℤ → Bool
is_zero (pos zero) = Bool.true
is_zero _ = Bool.false
