-- ===== src/Net/Examples.antt =====
-- One page over a connection: a phone with GPRS whose network takes all it is offered.
use elfloader3_elfs_archive.Prelude.{
  ℕ, zero, suc, ◌+◌, ◌≡◌, ◌≤◌, ◌/◌, ◌%◌, refl, true, false, Bytes, List, [], ◌∷◌, ◌++◌, length,
  leb→le, replicate, length-replicate, none, some, ok, if◌then◌else◌, ◌==◌, pos, arith,
}
use elfloader3_elfs_archive.Oms.Forms.{codes}
use elfloader3_elfs_archive.Net.State.{ConnectState, Console, Net}
use elfloader3_elfs_archive.Net.Send.{sent, no_room, bsend}
use elfloader3_elfs_archive.Net.Send.Order.{stream, queued, chunks, stream-bsend, bsend-drains}
use elfloader3_elfs_archive.Net.Receive.Stream.{
  get_answers, parsed, joined, body_of, get_answers-body_of,
}
use elfloader3_elfs_archive.Net.Connect.{
  Phone, SocketMsg, of_socket, remote_closed, closed, create_connect, start_inet, parse_socket_msg,
}
use elfloader3_elfs_archive.Net.Request.{
  Settings, base_fields, post_bytes, send_post, goto_params_offset,
}
use elfloader3_elfs_archive.Net.Request.Fields.{IsShort}
use elfloader3_elfs_archive.Net.Request.Moving.{ends, goes_on}
use elfloader3_elfs_archive.Net.Request.Length.{request, post_bytes-params}
use elfloader3_elfs_archive.Net.Request.Posting.{send_post-request}
use elfloader3_elfs_archive.Net.Machine.{
  Steps, done, ◌▸◌, start, task, message, connects, with_tasks,
}
use elfloader3_elfs_archive.Net.Machine.Diagram.{Conn, down, Course, Views, is_down}
use elfloader3_elfs_archive.Net.Machine.Refinement.{Steps-Course}
use elfloader3_elfs_archive.Net.Machine.Ending.{
  by_server, by_us, is_receiving, Closes, after_first, after_second, free_socket-Closes,
}

abbrev fresh : Net
fresh = record {
  is_gprs_online = true;
  dnr_id = 0;
  dnr_tries = pos 3;
  connect_state = ConnectState.idle;
  sock = none;
  sendq = none;
  recvq = none;
  receive_mode = false;
  url = none;
  fncache = none;
  send_timer = false;
  is_stopped = false;
  is_terminated = false;
  console = Console.blank;
  popups = [];
  tasks = [];
  ipc = [];
  calls = [];
  wire = [];
  cache = [];
}

abbrev phone : Phone
phone = record {
  is_gprs_enabled = true;
  host_is_ip = true;
  dns_error = 0;
  dns_id = 0;
  dns_result = none;
  new_socket = some 7;
  connects = true;
}

-- `sprintf("%d")`, for numbers of at most ten digits.
abbrev digits : ℕ → ℕ → Bytes → Bytes
digits zero n out = out
digits (suc k) n out =
    let more = digits k (n / 10) ((48 + n % 10) ∷ out) in if n == 0 then out else more

abbrev print_dec : ℕ → Bytes
print_dec n = if n == 0 then 48 ∷ [] else digits 10 n []

digits-length : (k n : ℕ) (out : Bytes) → length (digits k n out) ≤ k + length out
digits-length zero n out = omega arith
digits-length (suc k) n out = ground (arith, digits-length k (n / 10) ((48 + n % 10) ∷ out))

print_dec-length : (n : ℕ) → length (print_dec n) ≤ 11
print_dec-length n = ground (arith, digits-length 10 n [])

abbrev settings : Settings
settings = record {
  lang_code = codes "ru";
  pic_quality = 2;
  java_heap_size = 1000;
  view_w = 128;
  screen_h = 160;
  om_post_host = codes "server4.operamini.com";
  om_post_port = 80;
  auth_code = codes "abc";
  auth_prefix = codes "t00";
  print_dec = print_dec;
}

settings-IsShort : IsShort settings
settings-IsShort = record {
  short_lang = omega arith;
  short_code = omega arith;
  short_prefix = omega arith;
  short_host = omega arith;
  short_dec = print_dec-length;
}

abbrev linked : Net
linked = record fresh {
  connect_state = ConnectState.connected;
  sock = some 7;
  url = some (codes "http://a.b/");
  sendq = some (codes "xy");
}

abbrev reading : Net
reading = record fresh { connect_state = ConnectState.receiving; sock = some 7 }

stream-bsend_example :
    stream (bsend (sent 3 ∷ no_room ∷ []) none linked) ≡ stream linked ++ queued none
stream-bsend_example = stream-bsend (sent 3 ∷ no_room ∷ []) none linked refl

bsend-drains_example :
    (linked.sendq ≡ none
      → ((bsend (chunks 1) (some (codes "xy")) linked).sendq ≡ none)
        × ((bsend (chunks 1) (some (codes "xy")) linked).wire ≡ linked.wire ++ codes "xy"))
    × (linked.sendq ≡ some (codes "xy")
        → ((bsend (chunks 1) none linked).sendq ≡ none)
          × ((bsend (chunks 1) none linked).wire ≡ linked.wire ++ codes "xy"))
bsend-drains_example = bsend-drains 1 (codes "xy") linked refl (omega arith)

abbrev parts : List Bytes
parts = codes "HTTP/1.1 200 OK\r\n\r" ∷ codes "\nab" ∷ codes "cd" ∷ []

get_answers-body_of_example :
    parsed (get_answers parts reading).ipc ≡ parsed reading.ipc ++ body_of (joined parts)
get_answers-body_of_example = get_answers-body_of parts reading (refl, refl) refl refl

send_post-request_example :
    (n' : Net) × (send_post settings
        (sent 5 ∷ [])
        (record { from_url = none; goto_params = none })
        linked
      ≡ ok (record { from_url = none; goto_params = none }, n'))
    × (stream n' ≡ stream linked ++ request settings none (codes "http://a.b/") none)
    × (n'.url ≡ none)
send_post-request_example =
    send_post-request settings (sent 5 ∷ []) none linked (codes "http://a.b/") settings-IsShort refl
      refl

abbrev junk : Bytes
junk = replicate goto_params_offset 0

small_request : length (request settings none (codes "http://a.b/") (some (97 ∷ 61 ∷ []))) ≤ 4098
unfolding base_fields
small_request = leb→le _ 4098 refl

post_bytes-params_example :
    post_bytes settings
      (record { from_url = none; goto_params = some (junk ++ (97 ∷ 61 ∷ [] ++ 0 ∷ [])) })
      (codes "http://a.b/")
    ≡ ok (request settings none (codes "http://a.b/") (some (97 ∷ 61 ∷ [])))
post_bytes-params_example =
    post_bytes-params settings none (codes "http://a.b/") junk (97 ∷ 61 ∷ []) [] settings-IsShort
      (goes_on refl (goes_on refl ends)) (length-replicate {A = ℕ} goto_params_offset 0)
      small_request

abbrev asked : Net
asked = start_inet phone (some (codes "http://a.b/")) none fresh

abbrev dialled : Net
dialled = create_connect phone (with_tasks [] asked)

abbrev up_now : Net
up_now = parse_socket_msg (of_socket 7 SocketMsg.connected) dialled

fresh-Steps : Steps fresh up_now
unfolding start_inet create_connect
fresh-Steps =
    start phone (some (codes "http://a.b/")) none
    ▸ task refl (connects phone)
    ▸ message (of_socket 7 SocketMsg.connected)
    ▸ done

Steps-Course_example :
    (c' : Conn) × Course down [] c' up_now.wire × Views up_now.connect_state up_now.sock c'
Steps-Course_example = Steps-Course down is_down fresh-Steps

free_socket-Closes_example :
    Closes 7 reading
      (after_first 7 remote_closed reading)
      (after_second 7 remote_closed closed reading)
free_socket-Closes_example = free_socket-Closes 7 reading is_receiving refl refl by_server by_us
