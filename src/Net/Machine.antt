-- ===== src/Net/Machine.antt =====
-- The steps of the connection: messages of the phone, tasks of the helper process, the timer, and the
-- calls of the browser.
pub mod Diagram
pub mod Ending
pub mod Sending
pub mod Dialing
pub mod Refinement
use elfloader3_elfs_archive.Prelude.{ℕ, Bool, true, ◌≡◌, Bytes, List, ◌∷◌, Option, none, ok}
use elfloader3_elfs_archive.Net.State.{Net, Task}
use elfloader3_elfs_archive.Net.Send.{Answer, bsend}
use elfloader3_elfs_archive.Net.Receive.{get_answer}
use elfloader3_elfs_archive.Net.Request.{Settings, Request, send_post}
use elfloader3_elfs_archive.Net.Connect.{
  Phone, Msg, run_later, create_connect, end_socket, free_socket, stop_inet, parse_socket_msg,
  start_inet,
}

-- What the helper process does with a task: the phone's answers are any. A run that faults is undefined in C and has no step.
pub data Runs : Task → Net → Net → Type 0 where
  connects : {n : Net} (phone : Phone) → Runs Task.create_connect n (create_connect phone n)
  posts :
      {n n' : Net} {r' : Request} (s : Settings) (answers : List Answer) (r : Request)
      → send_post s answers r n ≡ ok (r', n')
      → Runs Task.send_post n n'
  reads : {n : Net} (rb : Bytes) → Runs Task.get_answer n (get_answer rb n)
  ends : {n : Net} → Runs Task.end_socket n (end_socket n)
  frees : {n : Net} → Runs Task.free_socket n (free_socket n)
  stops : {n : Net} → Runs Task.stop_inet n (stop_inet n)
  resends : {n : Net} (answers : List Answer) → Runs Task.resend n (bsend answers none n)

abbrev pub with_tasks : List Task → Net → Net
with_tasks ts n = record n { tasks = ts }

-- Tasks are run in the order in which they were given.
pub data Step : Net → Net → Type 0 where
  message : {n : Net} (m : Msg) → Step n (parse_socket_msg m n)
  task :
      {n n' : Net} {t : Task} {ts : List Task}
      → n.tasks ≡ t ∷ ts
      → Runs t (with_tasks ts n) n'
      → Step n n'
  timer :
      {n : Net}
      → n.send_timer ≡ true
      → Step n (run_later Task.resend (record n { send_timer = Bool.false }))
  start :
      {n : Net} (phone : Phone) (url fncache : Option Bytes)
      → Step n (start_inet phone url fncache n)
  asks_stop : {n : Net} → Step n (run_later Task.stop_inet n)

infixr 5 ◌▸◌
pub data Steps : Net → Net → Type 0 where
  done : {n : Net} → Steps n n
  ◌▸◌ : {n n' n'' : Net} → Step n n' → Steps n' n'' → Steps n n''
