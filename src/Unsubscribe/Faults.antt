-- ===== src/Unsubscribe/Faults.antt =====
-- What `listener_handle_unsubscribe` does to waiters that are in use: its removal of the request at
-- the end does not depend on the branch that was taken.
use sib_tcp.Prelude.{
  ℕ, ◌+◌, ◌≡◌, refl, true, false, none, some, List, [], ◌∷◌, Bytes, arith, ◌==◌, ==_refl, is_neg,
  bytes_eq_refl,
}
use sib_tcp.Ssap.{Sibmsg, send_unsubscribe}
use sib_tcp.Key.{get_request_key}
use sib_tcp.Table.{lookup, lookup-insert, lookup-remove}
use sib_tcp.World.{Env, Event}
use sib_tcp.State.{State, Waiter}
use sib_tcp.Waiters.{waiter_new, waiter_destroy}
use sib_tcp.Listener.{listener_add_request, listener_remove_request}
use sib_tcp.Socket.Delivery.{received}
use sib_tcp.Waiting.{run_events, wait_rounds}
use sib_tcp.Consistency.{IsConsistent, Returns, Faults}
use sib_tcp.Consistency.Steps.{live_waiter, live_of_request}
use sib_tcp.Request.{call_daemon, buffer}
use sib_tcp.Unsubscribe.{listener_handle_unsubscribe}

module _ {Msg : Type 0} (lib : Sibmsg Msg) (env : Env) (fd : ℕ) (msg : Msg) (s : State Msg) where
  abbrev pub key : Bytes
  key = get_request_key (lib.get_nodeid msg) (lib.get_msgnumber msg)

  -- An unsubscribe request whose key is that of a request that waits on `p`, in a consistent state
  -- with memory: the handler returns and has sent nothing, and the other request is no longer
  -- pending, its waiter has been freed, and the thread that waits on it reads freed memory as
  -- soon as it gets the lock.
  pub duplicate_unsubscribe :
      (p : ℕ) (rest : List (List Event))
      → IsConsistent s
      → env.allocates s.clock ≡ true
      → lookup key s.requests ≡ some p
      → Returns
          (λ _ t.
            (t.trace ≡ s.trace)
            × (lookup key t.requests ≡ none)
            × (t.heap p ≡ none)
            × Faults (λ u. u.trace ≡ s.trace) (wait_rounds lib env ([] ∷ rest) p t))
          (listener_handle_unsubscribe lib env fd msg s)
  unfolding listener_handle_unsubscribe waiter_new waiter_destroy listener_add_request
      listener_remove_request wait_rounds
  duplicate_unsubscribe p rest h memory taken =
      let (w, held) = live_waiter _ (live_of_request s key p h taken) in
      rw (memory, taken, ==_refl s.next, taken, other p w held, held)
        (
          refl,
          rw (lookup-remove key key s.requests, bytes_eq_refl key) refl,
          rw (==_refl p) refl,
          unfold run_events in rw (==_refl p) (refl, refl),
        )
    where
      other : (p : ℕ) (w : Waiter Msg) → s.heap p ≡ some w → (s.next == p) ≡ false
      other p w held = ground (arith, h.fresh p)

  -- An unsubscribe request that the daemon does not take: if its key is free, memory is there and
  -- the response can be built, the handler reads a waiter that it has freed, and no socket has
  -- been given anything.
  pub refused_unsubscribe-Faults :
      (k : ℕ) (text : Bytes)
      → env.allocates s.clock ≡ true
      → lookup key s.requests ≡ none
      → is_neg (
          env.dbus_result (s.clock + 1) (
            send_unsubscribe
              (lib.get_spaceid msg)
              (lib.get_nodeid msg)
              (lib.get_msgnumber msg)
              (lib.get_subscriptionid msg)))
        ≡ true
      → buffer lib env (
          lib.create_unsubscribe_response
            (lib.get_nodeid msg)
            (lib.get_spaceid msg)
            (lib.get_msgnumber msg)
            lib.ss_operation_failed
            (lib.get_subscriptionid msg))
        ≡ some text
      → Faults
          (λ t. received k t.trace ≡ received k s.trace)
          (listener_handle_unsubscribe lib env fd msg s)
  unfolding listener_handle_unsubscribe waiter_new waiter_destroy listener_add_request
      listener_remove_request call_daemon received
  refused_unsubscribe-Faults k text memory free refused built =
      rw
        (
          memory,
          free,
          ==_refl s.next,
          ==_refl s.next,
          refused,
          lookup-insert key key s.next s.requests,
          bytes_eq_refl key,
          ==_refl s.next,
          built,
          ==_refl s.next,
        )
        (refl, refl)
