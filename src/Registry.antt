-- ===== src/Registry.antt =====
-- What the tables of `Listener` in src/main.c promise: two partial maps, from a node and a message
-- number, and from a subscription id, to the socket of the client that waits. Keys as strings, waiters
-- on the heap and the order of the entries are left out of it.
pub mod Keys
pub mod Requests
pub mod Subscriptions
pub mod Refines
pub mod Undoing
use sib_tcp.Prelude.{
  ℕ, Bool, true, false, Option, none, some, List, [], ◌∷◌, ℤ, Bytes, ◌&&◌, bytes_eq, int_eq,
  if◌then◌else◌,
}
use sib_tcp.World.{Env}
use sib_tcp.State.{M, pure, load, ◌>>=◌}
use sib_tcp.Listener.{
  succeeded, failed, listener_add_request, listener_get_request, listener_remove_request,
  listener_get_subscription, listener_remove_subscription,
}
use sib_tcp.Waiting.{register_waiter, register_subscriber}

pub record Registry : Type 0 where
  pub requests : Bytes → ℤ → Option ℕ
  pub subscriptions : Bytes → Option ℕ

abbrev pub empty : Registry
empty = record { requests = λ node msgnum. none; subscriptions = λ subid. none }

-- What a thread asks of the listener: to keep a new waiter for the socket `fd`, to find the socket
-- of a waiter, or to remove one.
pub data Operation : Type 0 where
  add_request : (node : Bytes) (msgnum : ℤ) (fd : ℕ) → Operation
  get_request remove_request : (node : Bytes) (msgnum : ℤ) → Operation
  add_subscription : (subid : Bytes) (fd : ℕ) → Operation
  get_subscription remove_subscription : (subid : Bytes) → Operation

pub data Answer : Type 0 where
  socket : Option ℕ → Answer
  status : ℤ → Answer

abbrev pub set_request : Bytes → ℤ → Option ℕ → Registry → Registry
set_request node msgnum v r = record r {
  requests = λ n i. if bytes_eq node n && int_eq msgnum i then v else r.requests n i;
}

abbrev pub set_subscription : Bytes → Option ℕ → Registry → Registry
set_subscription subid v r = record r {
  subscriptions = λ u. if bytes_eq subid u then v else r.subscriptions u;
}

-- A name that is taken is not added again, and one that is not there is not removed.
unfoldable pub perform : Operation → Registry → Answer × Registry
perform (add_request node msgnum fd) r = elim (r.requests node msgnum) [
  | none ↦ (status succeeded, set_request node msgnum (some fd) r)
  | some _ ↦ (status failed, r)
]
perform (get_request node msgnum) r = (socket (r.requests node msgnum), r)
perform (remove_request node msgnum) r = elim (r.requests node msgnum) [
  | none ↦ (status failed, r)
  | some _ ↦ (status succeeded, set_request node msgnum none r)
]
perform (add_subscription subid fd) r = elim (r.subscriptions subid) [
  | none ↦ (status succeeded, set_subscription subid (some fd) r)
  | some _ ↦ (status failed, r)
]
perform (get_subscription subid) r = (socket (r.subscriptions subid), r)
perform (remove_subscription subid) r = elim (r.subscriptions subid) [
  | none ↦ (status failed, r)
  | some _ ↦ (status succeeded, set_subscription subid none r)
]

unfoldable pub perform_all : List Operation → Registry → List Answer × Registry
perform_all [] r = ([], r)
perform_all (op ∷ ops) r =
    let first = perform op r in let rest = perform_all ops first.1 in (first.0 ∷ rest.0, rest.1)

abbrev added : Option ℕ → ℤ
added none = failed
added (some _) = succeeded

module _ {Msg : Type 0} (env : Env) where
  -- The socket of a waiter that was found.
  unfoldable pub socket_of : Option ℕ → M Msg Answer
  socket_of none = pure (socket none)
  socket_of (some p) = do w ← load p; pure (socket (some w.fd))

  -- The operations on the tables, with the waiters that go into them.
  unfoldable pub run_operation : Operation → M Msg Answer
  run_operation (add_request node msgnum fd) = do
    waiter ← register_waiter env fd (listener_add_request node msgnum)
    pure (status (added waiter))
  run_operation (get_request node msgnum) = do
    waiter ← listener_get_request node msgnum
    socket_of waiter
  run_operation (remove_request node msgnum) = do
    ret ← listener_remove_request node msgnum
    pure (status ret)
  run_operation (add_subscription subid fd) = do
    subscriber ← register_subscriber env fd subid
    pure (status subscriber.1)
  run_operation (get_subscription subid) = do
    waiter ← listener_get_subscription subid
    socket_of waiter
  run_operation (remove_subscription subid) = do
    ret ← listener_remove_subscription subid
    pure (status ret)

  unfoldable pub run_operations : List Operation → M Msg (List Answer)
  run_operations [] = pure []
  run_operations (op ∷ ops) = do a ← run_operation op; rest ← run_operations ops; pure (a ∷ rest)
