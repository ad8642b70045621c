-- ===== src/Consistency/Events.antt =====
-- Whatever other threads do while one waits, the state stays consistent.
use sib_tcp.Prelude.{
  ℕ, ◌+◌, ◌≤◌, ◌≡◌, refl, inl, inr, true, false, Option, none, some, List, [], ◌∷◌, ℤ, Bytes, arith,
  ==_refl, Option-cases,
}
use sib_tcp.Ssap.{Sibmsg}
use sib_tcp.Table.{lookup, insert}
use sib_tcp.Table.Uses.{uses-insert}
use sib_tcp.World.{
  Env, Event, join_cnf, leave_cnf, insert_cnf, remove_cnf, update_cnf, query_cnf, subscribe_cnf,
  subscription_ind, unsubscribe_cnf, unsubscribe_ind, leave_ind, wakes, adds_request,
  removes_request, adds_subscription, removes_subscription,
}
use sib_tcp.State.{State, Waiter, update}
use sib_tcp.Key.{get_request_key}
use sib_tcp.Waiters.{waiter_completed}
use sib_tcp.Listener.{listener_add_subscription}
use sib_tcp.Callbacks.{
  handle_join_cnf, handle_leave_cnf, handle_insert_cnf, handle_remove_cnf, handle_update_cnf,
  handle_query_cnf, handle_subscribe_cnf, handle_subscription_ind, confirm_subscriber,
  handle_unsubscribe_cnf,
}
use sib_tcp.Waiting.{register_subscriber, run_event, run_events}
use sib_tcp.Consistency.{live, IsConsistent, Keeps, Returns, Returns-continue, Returns-mono}
use sib_tcp.Consistency.Steps.{
  Extends, Consistent, store-Extends, chain, complete_with-Extends, live_of_request,
  live_of_subscription, request_reply-Keeps, subscription_reply-Keeps, sub_wake-Keeps,
  remove_request-Keeps, remove_subscription-Keeps, register_request-Keeps,
}

module _ {Msg : Type 0} (env : Env) where
  pub register_subscriber-Keeps :
      (memory : (t : ℕ) → env.allocates t ≡ true) (fd : ℕ) (subid : Bytes)
      → Keeps {Msg = Msg} (register_subscriber env fd subid)
  unfolding register_subscriber listener_add_subscription
  register_subscriber-Keeps memory fd subid s h =
      elim (Option-cases (lookup subid s.subscriptions)) [
        | inl free ↦ rw (memory s.clock, free, ==_refl s.next) added
        | inr (p, e) ↦
            rw (memory s.clock, e, ==_refl s.next)
              (record {
                owned = λ q. ground (arith, h.owned q, h.fresh s.next);
                fresh = λ q le. ground (arith, h.fresh q);
              })
      ]
    where
      blank : Waiter Msg
      blank = record { req_ready = false; fd = fd; rsp = none; subscription_id = none; key = none }

      added : IsConsistent (record s {
        subscriptions = insert subid s.next s.subscriptions;
        heap =
            update
              (update s.heap s.next (some blank))
              s.next
              (some (record blank { key = some subid }));
        next = s.next + 1;
        clock = s.clock + 1;
      })
      added = record {
        owned = λ q.
            ground (arith, h.owned q, h.fresh s.next, uses-insert q subid s.next s.subscriptions);
        fresh = λ q le. ground (arith, h.fresh q);
      }

module _ {Msg : Type 0} (lib : Sibmsg Msg) (env : Env) where
  confirm_subscriber-Extends :
      (p : ℕ) (o : Option ℕ) (space node : Bytes) (msgnum status : ℤ) (subid : Bytes)
      (s : State Msg)
      → IsConsistent s
      → 1 ≤ live (s.heap p)
      → ((q : ℕ) → o ≡ some q → 1 ≤ live (s.heap q))
      → Returns (Extends s) (confirm_subscriber lib p o space node msgnum status subid s)
  unfolding confirm_subscriber
  confirm_subscriber-Extends p none space node msgnum status subid s h here there =
      store-Extends p _ s h here
  confirm_subscriber-Extends p (some q) space node msgnum status subid s h here there =
      complete_with-Extends _ q s h (there q refl)

  unsubscribe_cnf-Keeps :
      (space node : Bytes) (msgnum status : ℤ) (subid : Bytes)
      → Keeps (handle_unsubscribe_cnf lib space node msgnum status subid)
  unfolding handle_unsubscribe_cnf waiter_completed
  unsubscribe_cnf-Keeps space node msgnum status subid s h =
      elim (Option-cases (lookup (get_request_key node msgnum) s.requests)) [
        | inl absent ↦ rw absent h
        | inr (p, e) ↦ rw e (
            Returns-mono (Extends s) Consistent _
              (chain s _ _
                (confirm_subscriber-Extends p (lookup subid s.subscriptions) space node msgnum
                  status subid s h (live_of_request s (get_request_key node msgnum) p h e)
                  (λ q found. live_of_subscription s subid q h found))
                λ _ t x.
                  store-Extends p _ t x.0
                    (omega (arith, x.1 p, live_of_request s (get_request_key node msgnum) p h e)))
              λ _ _ r. r.0)
      ]

  -- One event.
  pub run_event-Keeps :
      (memory : (t : ℕ) → env.allocates t ≡ true) (e : Event) → Keeps (run_event lib env e)
  unfolding run_event handle_join_cnf handle_leave_cnf handle_remove_cnf handle_insert_cnf
      handle_update_cnf handle_query_cnf handle_subscribe_cnf handle_subscription_ind
  run_event-Keeps memory (join_cnf space node msgnum v) s h = request_reply-Keeps node msgnum _ s h
  run_event-Keeps memory (leave_cnf space node msgnum v) s h = request_reply-Keeps node msgnum _ s h
  run_event-Keeps memory (remove_cnf space node msgnum v) s h =
      request_reply-Keeps node msgnum _ s h
  run_event-Keeps memory (insert_cnf space node msgnum v b) s h =
      request_reply-Keeps node msgnum _ s h
  run_event-Keeps memory (update_cnf space node msgnum v b) s h =
      request_reply-Keeps node msgnum _ s h
  run_event-Keeps memory (query_cnf space node msgnum v b) s h =
      request_reply-Keeps node msgnum _ s h
  run_event-Keeps memory (subscribe_cnf space node msgnum v i b) s h =
      request_reply-Keeps node msgnum _ s h
  run_event-Keeps memory (subscription_ind space node msgnum v i b c) s h =
      subscription_reply-Keeps i _ s h
  run_event-Keeps memory (unsubscribe_cnf space node msgnum v i) s h =
      unsubscribe_cnf-Keeps space node msgnum v i s h
  run_event-Keeps memory unsubscribe_ind s h = h
  run_event-Keeps memory leave_ind s h = h
  run_event-Keeps memory wakes s h = sub_wake-Keeps s h
  run_event-Keeps memory (adds_request node msgnum fd) s h =
      Returns-continue Consistent Consistent _ _ (register_request-Keeps env fd node msgnum s h)
        λ _ _ r. r
  run_event-Keeps memory (removes_request node msgnum) s h =
      Returns-continue Consistent Consistent _ _ (remove_request-Keeps node msgnum s h) λ _ _ r. r
  run_event-Keeps memory (adds_subscription subid fd) s h =
      Returns-continue Consistent Consistent _ _ (register_subscriber-Keeps env memory fd subid s h)
        λ _ _ r. r
  run_event-Keeps memory (removes_subscription subid) s h =
      Returns-continue Consistent Consistent _ _ (remove_subscription-Keeps subid s h) λ _ _ r. r

  -- Whatever steps the other threads take, in any order: none touches a waiter that has been freed,
  -- and from a consistent state they lead to a consistent one, where memory does not run out.
  pub run_events-IsConsistent :
      (memory : (t : ℕ) → env.allocates t ≡ true) (es : List Event) (s : State Msg)
      → IsConsistent s
      → Returns (λ _ t. IsConsistent t) (run_events lib env es s)
  unfolding run_events
  run_events-IsConsistent memory [] s h = h
  run_events-IsConsistent memory (e ∷ es) s h =
      Returns-continue Consistent Consistent (run_event lib env e s) _
        (run_event-Keeps memory e s h) λ _ t k. run_events-IsConsistent memory es t k
