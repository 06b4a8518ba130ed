-- ===== src/Net/Machine/Dialing.antt =====
-- `create_connect` and `free_socket` along the diagram.
use elfloader3_elfs_archive.Prelude.{
  ℕ, false, ◌≡◌, refl, Bool-cases, Option-cases, inl, inr, if_intro, ◌==◌, ◌||◌, not, Bytes, Option,
  pos,
}
use elfloader3_elfs_archive.Net.State.{ConnectState, idle, Net, Console}
use elfloader3_elfs_archive.Net.Connect.{
  Phone, show, create_connect, open_socket, use_address, resolve, free_socket,
}
use elfloader3_elfs_archive.Net.Machine.Diagram.{
  Conn, down, opening, dials, falls, is_down, is_opening, Sees, Sim,
}

pub down-Sees :
    {st : ConnectState} {o : Option ℕ} {w : Bytes} (c : Conn) → st ≡ idle → Sees c w st o w
down-Sees c e = rw e ((down, falls, is_down))

open_socket-Sim :
    (phone : Phone) (n : Net) (c : Conn)
    → n.connect_state ≡ idle
    → Sim c n.wire (open_socket phone n)
unfolding open_socket
open_socket-Sim phone n c e = elim (Option-cases phone.new_socket) [
  | inl missing ↦ rw (open_socket, missing) (down-Sees c e)
  | inr (s, given) ↦ elim (Bool-cases phone.connects) [
    | inl accepted ↦ rw (open_socket, given, accepted) ((opening s, dials, is_opening))
    | inr fails ↦ rw (open_socket, given, fails) (down-Sees c e)
  ]
]

use_address-Sim :
    (phone : Phone) (n : Net) (c : Conn)
    → n.connect_state ≡ idle
    → Sim c n.wire (use_address phone n)
unfolding use_address
use_address-Sim phone n c e = elim (Option-cases phone.dns_result) [
  | inl none_yet ↦ rw (use_address, none_yet) (down-Sees c e)
  | inr (a, given) ↦ elim (Bool-cases a) [
    | inl there ↦
        rw (use_address, given, there)
          (open_socket-Sim phone (record (show Console.ok_dnr n) { dnr_tries = pos 0 }) c e)
    | inr missing ↦ rw (use_address, given, missing) (down-Sees c e)
  ]
]

resolve-Sim :
    (phone : Phone) (n : Net) (c : Conn) → n.connect_state ≡ idle → Sim c n.wire (resolve phone n)
unfolding resolve
resolve-Sim phone n c e =
    if_intro (Sim c n.wire) (phone.dns_error == 0)
      (use_address-Sim phone (record (show Console.get_host_by_name n) { dnr_id = phone.dns_id }) c
        e)
      (if_intro (Sim c n.wire) (phone.dns_error == 0xC9 || phone.dns_error == 0xD6)
        (if_intro (Sim c n.wire) (phone.dns_id == 0)
          (use_address-Sim phone
            (record (show Console.get_host_by_name n) { dnr_id = phone.dns_id }) c e)
          (down-Sees c e))
        (down-Sees c e))

pub create_connect-Sim :
    (phone : Phone) (n : Net) (c : Conn) → Sim c n.wire (create_connect phone n)
unfolding create_connect
create_connect-Sim phone n c =
    let m : Net = record n { connect_state = idle; receive_mode = false; dnr_id = 0 } in
    if_intro (Sim c n.wire) (not phone.is_gprs_enabled) (down-Sees c refl) (
      if_intro (Sim c n.wire) phone.host_is_ip
        (open_socket-Sim phone (show Console.ip_connect m) c refl) (resolve-Sim phone m c refl))

pub free_socket-Sim : (n : Net) (c : Conn) → Sim c n.wire (free_socket n)
unfolding free_socket
free_socket-Sim n c = (down, falls, is_down)
