-- ===== src/Subscription/Listening.antt =====
-- A subscriber that waits, and the steps of other threads that are not about its subscription.
pub mod Steps
pub mod Events
use sib_tcp.Prelude.{
  ℕ, ◌≡◌, refl, inl, inr, true, false, Option, none, some, List, [], ◌∷◌, ℤ, Bytes, arith, ◌==◌,
  ==_refl, bytes_eq, bytes_eq_iff, Bool-cases, Option-cases, All,
}
use sib_tcp.Ssap.{Sibmsg}
use sib_tcp.Key.{get_request_key}
use sib_tcp.Table.{lookup}
use sib_tcp.Table.Uses.{uses_of_lookup, lookup-injective}
use sib_tcp.World.{
  Env, Event, join_cnf, leave_cnf, insert_cnf, remove_cnf, update_cnf, query_cnf, subscribe_cnf,
  subscription_ind, unsubscribe_cnf, unsubscribe_ind, leave_ind, wakes, adds_request,
  removes_request, adds_subscription, removes_subscription,
}
use sib_tcp.State.{State, Waiter, Action, store}
use sib_tcp.Waiters.{waiter_completed, waiter_destroy}
use sib_tcp.Listener.{
  listener_get_request, listener_add_request, listener_remove_request, listener_get_subscription,
  listener_add_subscription, listener_remove_subscription,
}
use sib_tcp.Callbacks.{
  complete_with, complete_found, confirm_subscriber, handle_join_cnf, handle_leave_cnf,
  handle_insert_cnf, handle_remove_cnf, handle_update_cnf, handle_query_cnf, handle_subscribe_cnf,
  handle_subscription_ind, handle_unsubscribe_cnf,
}
use sib_tcp.Waiting.{register_waiter, register_subscriber, run_event, run_events}
use sib_tcp.Consistency.{
  IsConsistent, Returns, Returns-continue, IfDone, IfDone-continue, Returns-and_done,
}

-- The subscription is on the waiter `q`, whose content is `w`; the trace is `l`.
pub record Listening {Msg : Type 0} (subid : Bytes) (q : ℕ) (w : Waiter Msg) (l : List Action)
    (s : State Msg) : Type 0 where
  pub consistent : IsConsistent s
  pub subscribed : lookup subid s.subscriptions ≡ some q
  pub content : s.heap q ≡ some w
  pub quiet : s.trace ≡ l

-- The event is not about this subscription.
abbrev pub Passes : Bytes → Event → Type 0
Passes subid (subscription_ind space node msgnum v i b c) = bytes_eq i subid ≡ false
Passes subid (unsubscribe_cnf space node msgnum v i) = bytes_eq i subid ≡ false
Passes subid (removes_subscription i) = bytes_eq i subid ≡ false
Passes subid wakes = ⊥
Passes subid _ = Unit
