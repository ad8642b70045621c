-- ===== src/World.antt =====
-- What the threads of src/main.c meet from outside: the steps that other threads take while one
-- waits, and the answers of the system (memory, sockets, D-Bus). Each answer may depend on the time.
use sib_tcp.Prelude.{ℕ, ℤ, Bool, Option, List, Bytes}
use sib_tcp.Ssap.{Call}

-- A step of another thread: a signal of the SIB object, with the arguments that its handler
-- `handle_*_cnf` or `handle_*_ind` gets; one round of `sub_wake_thread`; or what the handler of
-- another client's request does to the tables.
pub data Event : Type 0 where
  join_cnf leave_cnf remove_cnf : (space node : Bytes) (msgnum success : ℤ) → Event
  insert_cnf update_cnf query_cnf :
      (space node : Bytes) (msgnum success : ℤ) (payload : Option Bytes) → Event
  subscribe_cnf :
      (space node : Bytes) (msgnum success : ℤ) (subid : Bytes) (results : Option Bytes) → Event
  subscription_ind :
      (space node : Bytes) (msgnum seqnum : ℤ) (subid : Bytes) (new obsolete : Option Bytes) → Event
  unsubscribe_cnf : (space node : Bytes) (msgnum status : ℤ) (subid : Bytes) → Event
  unsubscribe_ind leave_ind : Event
  wakes : Event
  adds_request : (node : Bytes) (msgnum : ℤ) (fd : ℕ) → Event
  removes_request : (node : Bytes) (msgnum : ℤ) → Event
  adds_subscription : (subid : Bytes) (fd : ℕ) → Event
  removes_subscription : (subid : Bytes) → Event

pub record Env : Type 0 where
  -- `g_try_new0` gives memory
  pub allocates : ℕ → Bool
  -- the `int` that `sib_object_send_*` returns
  pub dbus_result : ℕ → Call → ℤ
  -- the pending error of a socket, as `getsockopt (fd, SOL_SOCKET, SO_ERROR, …)` reads it
  pub so_error : ℕ → ℕ → ℤ
  -- how many bytes `send` takes from the front of a buffer, `none` for -1
  pub send_result : ℕ → ℕ → Bytes → Option ℕ
  -- what `recv` puts into a buffer of RECVBUFSIZE bytes, `none` for a negative result
  pub recv_result : ℕ → ℕ → Option Bytes
  -- the value of a variable that was never assigned
  pub indeterminate : ℕ → ℤ
  -- what others do before a waiting thread gets its lock for the first, second, … time
  pub waits : ℕ → List (List Event)
  -- the number of rounds for which a loop is watched
  pub rounds : ℕ
