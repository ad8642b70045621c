-- ===== src/Waiting/Pending.antt =====
-- A request that waits for its confirmation, and the steps of other threads that are not about it.
pub mod Steps
pub mod Events
use sib_tcp.Prelude.{
  ℕ, suc, ◌+◌, ◌≤◌, ◌≡◌, refl, sym, ap, ◌∙◌, inl, inr, Bool, true, false, Option, none, some, List,
  [], ◌∷◌, ℤ, Bytes, arith, ◌==◌, ==_refl, ==_iff, if◌then◌else◌, bytes_eq, bytes_eq_iff,
  Bool-cases, Option-cases,
}
use sib_tcp.Ssap.{Sibmsg}
use sib_tcp.Key.{get_request_key}
use sib_tcp.Table.{Table, lookup, insert, remove, lookup-insert, lookup-remove}
use sib_tcp.Table.Uses.{uses, uses-insert, uses-remove-le, uses_of_lookup, lookup-injective}
use sib_tcp.World.{
  Env, Event, join_cnf, leave_cnf, insert_cnf, remove_cnf, update_cnf, query_cnf, subscribe_cnf,
  subscription_ind, unsubscribe_cnf, unsubscribe_ind, leave_ind, wakes, adds_request,
  removes_request, adds_subscription, removes_subscription,
}
use sib_tcp.State.{State, M, Waiter, Outcome, Action, done, continue, update, store, ◌>>=◌, ◌>>◌}
use sib_tcp.Waiters.{waiter_completed, waiter_destroy}
use sib_tcp.Listener.{
  listener_get_request, listener_add_request, listener_remove_request, listener_get_subscription,
  listener_add_subscription, listener_remove_subscription,
}
use sib_tcp.Callbacks.{
  complete_with, complete_found, wake_all, sub_wake_thread, confirm_subscriber, handle_join_cnf,
  handle_leave_cnf, handle_insert_cnf, handle_remove_cnf, handle_update_cnf, handle_query_cnf,
  handle_subscribe_cnf, handle_subscription_ind, handle_unsubscribe_cnf,
}
use sib_tcp.Waiting.{register_waiter, register_subscriber, run_event, run_events}
use sib_tcp.Waiting.Registering.{with_request, with_dropped}
use sib_tcp.Consistency.{IsConsistent, Returns, Returns-continue, Returns-mono, live}
use sib_tcp.Consistency.Steps.{Extends, store-Extends, live_of_request, live_of_subscription}

-- The request with this key waits on `p`, whose content is `w`; the trace is `l`.
pub record Pending {Msg : Type 0} (key : Bytes) (p : ℕ) (w : Waiter Msg) (l : List Action)
    (s : State Msg) : Type 0 where
  pub consistent : IsConsistent s
  pub registered : lookup key s.requests ≡ some p
  pub content : s.heap p ≡ some w
  pub quiet : s.trace ≡ l

-- The event is not about the request with this key.
abbrev pub Spares : Bytes → Event → Type 0
Spares key (join_cnf space node msgnum v) = bytes_eq (get_request_key node msgnum) key ≡ false
Spares key (leave_cnf space node msgnum v) = bytes_eq (get_request_key node msgnum) key ≡ false
Spares key (remove_cnf space node msgnum v) = bytes_eq (get_request_key node msgnum) key ≡ false
Spares key (insert_cnf space node msgnum v b) = bytes_eq (get_request_key node msgnum) key ≡ false
Spares key (update_cnf space node msgnum v b) = bytes_eq (get_request_key node msgnum) key ≡ false
Spares key (query_cnf space node msgnum v b) = bytes_eq (get_request_key node msgnum) key ≡ false
Spares key (subscribe_cnf space node msgnum v i b) =
    bytes_eq (get_request_key node msgnum) key ≡ false
Spares key (unsubscribe_cnf space node msgnum v i) =
    bytes_eq (get_request_key node msgnum) key ≡ false
Spares key (removes_request node msgnum) = bytes_eq (get_request_key node msgnum) key ≡ false
Spares key _ = Unit
