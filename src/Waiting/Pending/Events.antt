-- ===== src/Waiting/Pending/Events.antt =====
-- What other threads do about other requests leaves a pending request as it is.
use sib_tcp.Prelude.{
  ℕ, ◌≡◌, ◌∙◌, inl, inr, All, true, false, some, List, [], ◌∷◌, ℤ, Bytes, arith, ◌==◌, ==_refl,
  bytes_eq, bytes_eq_iff, Bool-cases, Option-cases,
}
use sib_tcp.Ssap.{Sibmsg}
use sib_tcp.Key.{get_request_key}
use sib_tcp.Table.{lookup, lookup-insert, lookup-remove}
use sib_tcp.World.{
  Env, Event, join_cnf, leave_cnf, insert_cnf, remove_cnf, update_cnf, query_cnf, subscribe_cnf,
  subscription_ind, unsubscribe_cnf, unsubscribe_ind, leave_ind, wakes, adds_request,
  removes_request, adds_subscription, removes_subscription,
}
use sib_tcp.State.{State, Waiter, Outcome, Action}
use sib_tcp.Waiters.{waiter_destroy}
use sib_tcp.Listener.{
  listener_add_request, listener_remove_request, listener_add_subscription,
  listener_remove_subscription,
}
use sib_tcp.Callbacks.{
  handle_join_cnf, handle_leave_cnf, handle_insert_cnf, handle_remove_cnf, handle_update_cnf,
  handle_query_cnf, handle_subscribe_cnf, handle_subscription_ind,
}
use sib_tcp.Waiting.{register_waiter, register_subscriber, run_event, run_events}
use sib_tcp.Consistency.{Returns-both, IsConsistent, Returns, Returns-continue, Returns-mono}
use sib_tcp.Consistency.Steps.{live_waiter, live_of_request, live_of_subscription}
use sib_tcp.Waiting.Pending.{Pending, Spares}
use sib_tcp.Consistency.Events.{run_event-Keeps}
use sib_tcp.Waiting.Pending.Steps.{
  Still, other_request, other_subscription, request_reply-Pending, subscription_reply-Pending,
  sub_wake-Pending, unsubscribe_cnf-Pending,
}

module _ {Msg : Type 0} (key : Bytes) (p : ℕ) (w : Waiter Msg) (l : List Action) where
  -- `Pending` without the consistency of the state.
  abbrev Framed : {A : Type 0} → A → State Msg → Type 0
  Framed _ t = (lookup key t.requests ≡ some p) × (t.heap p ≡ some w) × (t.trace ≡ l)

  remove_request-Framed :
      (node : Bytes) (msgnum : ℤ) (s : State Msg)
      → bytes_eq (get_request_key node msgnum) key ≡ false
      → Pending key p w l s
      → Returns Framed (listener_remove_request node msgnum s)
  unfolding listener_remove_request waiter_destroy
  remove_request-Framed node msgnum s apart h = elim (Option-cases (lookup k s.requests)) [
    | inl absent ↦ rw absent (h.registered, h.content, h.quiet)
    | inr (q, e) ↦
        let (v, held) = live_waiter _ (live_of_request s k q h.consistent e) in
        let differ = other_request key p w l s k q h apart e in
        rw (e, held)
          (lookup-remove k key s.requests ∙ (rw apart h.registered), ground arith, h.quiet)
  ]
    where
      k : Bytes
      k = get_request_key node msgnum

  remove_subscription-Framed :
      (subid : Bytes) (s : State Msg)
      → Pending key p w l s
      → Returns Framed (listener_remove_subscription subid s)
  unfolding listener_remove_subscription waiter_destroy
  remove_subscription-Framed subid s h = elim (Option-cases (lookup subid s.subscriptions)) [
    | inl absent ↦ rw absent (h.registered, h.content, h.quiet)
    | inr (q, e) ↦
        let (v, held) = live_waiter _ (live_of_subscription s subid q h.consistent e) in
        let differ = other_subscription key p w l s subid q h e in
        rw (e, held) (h.registered, ground arith, h.quiet)
  ]

  -- A new waiter is not the one that waits.
  next_differs : (s : State Msg) → Pending key p w l s → (s.next == p) ≡ false
  next_differs s h = ground (arith, h.consistent.fresh p)

  register_request-Framed :
      (env : Env) (fd : ℕ) (node : Bytes) (msgnum : ℤ) (s : State Msg)
      → Pending key p w l s
      → Returns Framed (register_waiter env fd (listener_add_request node msgnum) s)
  unfolding register_waiter listener_add_request
  register_request-Framed env fd node msgnum s h = elim (Bool-cases (env.allocates s.clock)) [
    | inl memory ↦ elim (Option-cases (lookup k s.requests)) [
      | inl free ↦
          rw (memory, free, ==_refl s.next)
            (
              lookup-insert k key s.next s.requests ∙ ground (arith, bytes_eq_iff k key),
              ground (arith, next_differs s h),
              h.quiet,
            )
      | inr (q, e) ↦
          rw (memory, e, ==_refl s.next) (h.registered, ground (arith, next_differs s h), h.quiet)
    ]
    | inr full ↦ rw full (h.registered, h.content, h.quiet)
  ]
    where
      k : Bytes
      k = get_request_key node msgnum

  register_subscriber-Framed :
      (env : Env) (memory : (t : ℕ) → env.allocates t ≡ true) (fd : ℕ) (subid : Bytes)
      (s : State Msg)
      → Pending key p w l s
      → Returns Framed (register_subscriber env fd subid s)
  unfolding register_subscriber listener_add_subscription waiter_destroy
  register_subscriber-Framed env memory fd subid s h =
      elim (Option-cases (lookup subid s.subscriptions)) [
        | inl free ↦
            rw (memory s.clock, free, ==_refl s.next)
              (h.registered, ground (arith, next_differs s h), h.quiet)
        | inr (q, e) ↦
            rw (memory s.clock, e, ==_refl s.next)
              (h.registered, ground (arith, next_differs s h), h.quiet)
      ]

  with_consistency :
      {A : Type 0} (o : Outcome Msg A)
      → Returns (λ _ t. IsConsistent t) o
      → Returns Framed o
      → Returns (Still key p w l) o
  with_consistency o c f =
      Returns-mono _ (Still key p w l) o (Returns-both (λ _ t. IsConsistent t) Framed o c f)
        λ a t x. record { consistent = x.0; registered = x.1.0; content = x.1.1; quiet = x.1.2 }

  module _ (lib : Sibmsg Msg) (env : Env) (memory : (t : ℕ) → env.allocates t ≡ true) where
    pub run_event-Pending :
        (e : Event) (s : State Msg)
        → Spares key e
        → Pending key p w l s
        → Returns (Still key p w l) (run_event lib env e s)
    unfolding run_event handle_join_cnf handle_leave_cnf handle_remove_cnf handle_insert_cnf
        handle_update_cnf handle_query_cnf handle_subscribe_cnf handle_subscription_ind
    run_event-Pending (join_cnf space node msgnum v) s a h =
        request_reply-Pending key p w l node msgnum _ s a h
    run_event-Pending (leave_cnf space node msgnum v) s a h =
        request_reply-Pending key p w l node msgnum _ s a h
    run_event-Pending (remove_cnf space node msgnum v) s a h =
        request_reply-Pending key p w l node msgnum _ s a h
    run_event-Pending (insert_cnf space node msgnum v b) s a h =
        request_reply-Pending key p w l node msgnum _ s a h
    run_event-Pending (update_cnf space node msgnum v b) s a h =
        request_reply-Pending key p w l node msgnum _ s a h
    run_event-Pending (query_cnf space node msgnum v b) s a h =
        request_reply-Pending key p w l node msgnum _ s a h
    run_event-Pending (subscribe_cnf space node msgnum v i b) s a h =
        request_reply-Pending key p w l node msgnum _ s a h
    run_event-Pending (subscription_ind space node msgnum v i b c) s a h =
        subscription_reply-Pending key p w l i _ s h
    run_event-Pending (unsubscribe_cnf space node msgnum v i) s a h =
        unsubscribe_cnf-Pending key p w l lib space node msgnum v i s a h
    run_event-Pending unsubscribe_ind s a h = h
    run_event-Pending leave_ind s a h = h
    run_event-Pending wakes s a h = sub_wake-Pending key p w l s h
    run_event-Pending (adds_request node msgnum fd) s a h =
        with_consistency _
          (run_event-Keeps lib env memory (adds_request node msgnum fd) s h.consistent)
          (Returns-continue Framed Framed _ _ (register_request-Framed env fd node msgnum s h)
            λ _ _ r. r)
    run_event-Pending (removes_request node msgnum) s a h =
        with_consistency _
          (run_event-Keeps lib env memory (removes_request node msgnum) s h.consistent)
          (Returns-continue Framed Framed _ _ (remove_request-Framed node msgnum s a h) λ _ _ r. r)
    run_event-Pending (adds_subscription subid fd) s a h =
        with_consistency _
          (run_event-Keeps lib env memory (adds_subscription subid fd) s h.consistent)
          (Returns-continue Framed Framed _ _ (register_subscriber-Framed env memory fd subid s h)
            λ _ _ r. r)
    run_event-Pending (removes_subscription subid) s a h =
        with_consistency _
          (run_event-Keeps lib env memory (removes_subscription subid) s h.consistent)
          (Returns-continue Framed Framed _ _ (remove_subscription-Framed subid s h) λ _ _ r. r)

    -- Any number of steps.
    pub run_events-Pending :
        (es : List Event) (s : State Msg)
        → All (Spares key) es
        → Pending key p w l s
        → Returns (Still key p w l) (run_events lib env es s)
    unfolding run_events
    run_events-Pending [] s a h = h
    run_events-Pending (e ∷ es) s a h =
        Returns-continue (Still key p w l) (Still key p w l) (run_event lib env e s) _
          (run_event-Pending e s a.0 h) λ _ t k. run_events-Pending es t a.1 k
