-- ===== src/Net/Machine/Diagram.antt =====
-- The connection as its user sees it.
use elfloader3_elfs_archive.Prelude.{ℕ, Bytes, ◌++◌, Option, some}
use elfloader3_elfs_archive.Net.State.{
  ConnectState, closing, idle, connecting, connected, receiving, Net,
}

pub data Conn : Type 0 where
  down : Conn
  opening up shutting : ℕ → Conn

-- The moves of a connection, with all the bytes that were sent before and after.
pub data Moves : Conn → Bytes → Conn → Bytes → Type 0 where
  stays : {c : Conn} {w : Bytes} → Moves c w c w
  dials : {c : Conn} {w : Bytes} {s : ℕ} → Moves c w (opening s) w
  falls : {c : Conn} {w : Bytes} → Moves c w down w
  links : {w : Bytes} {s : ℕ} → Moves (opening s) w (up s) w
  sends : {w : Bytes} {s : ℕ} (p : Bytes) → Moves (up s) w (up s) (w ++ p)
  gives_up : {w : Bytes} {s : ℕ} → Moves (opening s) w (shutting s) w
  loses : {w : Bytes} {s : ℕ} → Moves (up s) w (shutting s) w

-- What the variables `connect_state` and `sock` stand for: with a connection there is its socket.
pub data Views : ConnectState → Option ℕ → Conn → Type 0 where
  is_down : {o : Option ℕ} → Views idle o down
  is_opening : {s : ℕ} → Views connecting (some s) (opening s)
  is_connected : {s : ℕ} → Views connected (some s) (up s)
  is_receiving : {s : ℕ} → Views receiving (some s) (up s)
  is_shutting : {s : ℕ} → Views closing (some s) (shutting s)

abbrev pub Sees : Conn → Bytes → ConnectState → Option ℕ → Bytes → Type 0
Sees c w st o w' = (c' : Conn) × Moves c w c' w' × Views st o c'

abbrev pub Sim : Conn → Bytes → Net → Type 0
Sim c w n = Sees c w n.connect_state n.sock n.wire

-- Moves one after the other.
infixr 5 ◌▹◌
pub data Course : Conn → Bytes → Conn → Bytes → Type 0 where
  here : {c : Conn} {w : Bytes} → Course c w c w
  ◌▹◌ :
      {c c' c'' : Conn} {w w' w'' : Bytes}
      → Moves c w c' w'
      → Course c' w' c'' w''
      → Course c w c'' w''
