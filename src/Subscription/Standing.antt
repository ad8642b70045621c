-- ===== src/Subscription/Standing.antt =====
-- While other threads take their steps, a subscription that none of them ends stays in the table.
use sib_tcp.Prelude.{
  ℕ, ◌≡◌, ◌∙◌, inl, inr, true, false, Option, none, some, List, [], ◌∷◌, ℤ, Bytes, arith, ==_refl,
  bytes_eq, bytes_eq_iff, Bool-cases, Option-cases, All,
}
use sib_tcp.Ssap.{Sibmsg}
use sib_tcp.Key.{get_request_key}
use sib_tcp.Table.{Table, lookup, lookup-insert, lookup-remove}
use sib_tcp.World.{
  Env, Event, join_cnf, leave_cnf, insert_cnf, remove_cnf, update_cnf, query_cnf, subscribe_cnf,
  subscription_ind, unsubscribe_cnf, unsubscribe_ind, leave_ind, wakes, adds_request,
  removes_request, adds_subscription, removes_subscription,
}
use sib_tcp.State.{State, Waiter, store}
use sib_tcp.Waiters.{waiter_completed, waiter_destroy}
use sib_tcp.Listener.{
  listener_get_request, listener_add_request, listener_remove_request, listener_get_subscription,
  listener_add_subscription, listener_remove_subscription,
}
use sib_tcp.Callbacks.{
  complete_with, complete_found, wake_all, sub_wake_thread, confirm_subscriber, handle_join_cnf,
  handle_leave_cnf, handle_insert_cnf, handle_remove_cnf, handle_update_cnf, handle_query_cnf,
  handle_subscribe_cnf, handle_subscription_ind, handle_unsubscribe_cnf,
}
use sib_tcp.Waiting.{register_waiter, register_subscriber, run_event, run_events}
use sib_tcp.Consistency.{
  IsConsistent, Returns, Returns-continue, IfDone, IfDone-continue, Returns-and_done,
}
use sib_tcp.Consistency.Events.{run_event-Keeps}

-- The event does not end this subscription.
abbrev pub Leaves : Bytes → Event → Type 0
Leaves subid (removes_subscription i) = bytes_eq i subid ≡ false
Leaves subid _ = Unit

-- The state is consistent, and the subscription is on the waiter `q`.
pub record Stands {Msg : Type 0} (subid : Bytes) (q : ℕ) (s : State Msg) : Type 0 where
  pub consistent : IsConsistent s
  pub subscribed : lookup subid s.subscriptions ≡ some q

module _ {Msg : Type 0} (subid : Bytes) (q : ℕ) where
  abbrev Held : {A : Type 0} → A → State Msg → Type 0
  Held _ t = lookup subid t.subscriptions ≡ some q

  store-Held :
      (p : ℕ) (f : Waiter Msg → Waiter Msg) (s : State Msg)
      → lookup subid s.subscriptions ≡ some q
      → IfDone Held (store p f s)
  store-Held p f s h = elim (Option-cases (s.heap p)) [ inl e ↦ rw e tt | inr (w, e) ↦ rw e h ]

  complete_with-Held :
      (rsp : Msg) (p : ℕ) (s : State Msg)
      → lookup subid s.subscriptions ≡ some q
      → IfDone Held (complete_with rsp p s)
  unfolding complete_with waiter_completed
  complete_with-Held rsp p s h =
      IfDone-continue Held Held _ _ (store-Held p (λ w. record w { rsp = some rsp }) s h)
        λ _ t k. store-Held p (λ w. record w { req_ready = true }) t k

  complete_found-Held :
      (rsp : Msg) (o : Option ℕ) (s : State Msg)
      → lookup subid s.subscriptions ≡ some q
      → IfDone Held (complete_found rsp o s)
  unfolding complete_found
  complete_found-Held rsp none s h = h
  complete_found-Held rsp (some p) s h = complete_with-Held rsp p s h

  wake_all-Held :
      (l : Table) (s : State Msg)
      → lookup subid s.subscriptions ≡ some q
      → IfDone Held (wake_all l s)
  unfolding wake_all
  wake_all-Held [] s h = h
  wake_all-Held ((k, p) ∷ l) s h =
      IfDone-continue Held Held _ _
        (store-Held p (λ w. record w { rsp = none; req_ready = true }) s h)
        λ _ t k. wake_all-Held l t k

  module _ (lib : Sibmsg Msg) (env : Env) where
    unsubscribe_cnf-Held :
        (space node : Bytes) (msgnum status : ℤ) (i : Bytes) (s : State Msg)
        → lookup subid s.subscriptions ≡ some q
        → IfDone Held (handle_unsubscribe_cnf lib space node msgnum status i s)
    unfolding handle_unsubscribe_cnf confirm_subscriber listener_get_request
        listener_get_subscription waiter_completed
    unsubscribe_cnf-Held space node msgnum status i s h =
        elim (Option-cases (lookup (get_request_key node msgnum) s.requests)) [
          | inl absent ↦ rw absent h
          | inr (p, e) ↦ elim (Option-cases (lookup i s.subscriptions)) [
            | inl gone ↦
                rw (e, gone)
                  (IfDone-continue Held Held _ _ (store-Held p _ s h) λ _ t k. store-Held p _ t k)
            | inr (r, d) ↦
                rw (e, d)
                  (IfDone-continue Held Held _ _ (complete_with-Held _ r s h)
                    λ _ t k. store-Held p _ t k)
          ]
        ]

    remove_request-Held :
        (node : Bytes) (msgnum : ℤ) (s : State Msg)
        → lookup subid s.subscriptions ≡ some q
        → IfDone Held (listener_remove_request node msgnum s)
    unfolding listener_remove_request waiter_destroy
    remove_request-Held node msgnum s h =
        elim (Option-cases (lookup (get_request_key node msgnum) s.requests)) [
          | inl absent ↦ rw absent h
          | inr (p, e) ↦ elim (Option-cases (s.heap p)) [
            | inl gone ↦ rw (e, gone) tt
            | inr (w, d) ↦ rw (e, d) h
          ]
        ]

    remove_subscription-Held :
        (i : Bytes) (s : State Msg)
        → bytes_eq i subid ≡ false
        → lookup subid s.subscriptions ≡ some q
        → IfDone Held (listener_remove_subscription i s)
    unfolding listener_remove_subscription waiter_destroy
    remove_subscription-Held i s apart h = elim (Option-cases (lookup i s.subscriptions)) [
      | inl absent ↦ rw absent h
      | inr (p, e) ↦ elim (Option-cases (s.heap p)) [
        | inl gone ↦ rw (e, gone) tt
        | inr (w, d) ↦ rw (e, d) (lookup-remove i subid s.subscriptions ∙ (rw apart h))
      ]
    ]

    register_request-Held :
        (fd : ℕ) (node : Bytes) (msgnum : ℤ) (s : State Msg)
        → lookup subid s.subscriptions ≡ some q
        → IfDone Held (register_waiter env fd (listener_add_request node msgnum) s)
    unfolding register_waiter listener_add_request
    register_request-Held fd node msgnum s h = elim (Bool-cases (env.allocates s.clock)) [
      | inl memory ↦ elim (Option-cases (lookup (get_request_key node msgnum) s.requests)) [
        | inl free ↦ rw (memory, free, ==_refl s.next) h
        | inr (p, e) ↦ rw (memory, e, ==_refl s.next) h
      ]
      | inr full ↦ rw full h
    ]

    register_subscriber-Held :
        (fd : ℕ) (i : Bytes) (s : State Msg)
        → lookup subid s.subscriptions ≡ some q
        → IfDone Held (register_subscriber env fd i s)
    unfolding register_subscriber listener_add_subscription waiter_destroy
    register_subscriber-Held fd i s h = elim (Bool-cases (env.allocates s.clock)) [
      | inl memory ↦ elim (Option-cases (lookup i s.subscriptions)) [
        | inl free ↦
            rw (memory, free, ==_refl s.next)
              (lookup-insert i subid s.next s.subscriptions ∙ ground (arith, bytes_eq_iff i subid))
        | inr (p, e) ↦ rw (memory, e, ==_refl s.next) h
      ]
      | inr full ↦ rw full tt
    ]

    module _ (memory : (t : ℕ) → env.allocates t ≡ true) where
      run_event-Held :
          (e : Event) (s : State Msg)
          → Leaves subid e
          → lookup subid s.subscriptions ≡ some q
          → IfDone Held (run_event lib env e s)
      unfolding run_event handle_join_cnf handle_leave_cnf handle_remove_cnf handle_insert_cnf
          handle_update_cnf handle_query_cnf handle_subscribe_cnf handle_subscription_ind
          listener_get_request listener_get_subscription sub_wake_thread
      run_event-Held (join_cnf space node msgnum v) s a h = complete_found-Held _ _ s h
      run_event-Held (leave_cnf space node msgnum v) s a h = complete_found-Held _ _ s h
      run_event-Held (remove_cnf space node msgnum v) s a h = complete_found-Held _ _ s h
      run_event-Held (insert_cnf space node msgnum v b) s a h = complete_found-Held _ _ s h
      run_event-Held (update_cnf space node msgnum v b) s a h = complete_found-Held _ _ s h
      run_event-Held (query_cnf space node msgnum v b) s a h = complete_found-Held _ _ s h
      run_event-Held (subscribe_cnf space node msgnum v i b) s a h = complete_found-Held _ _ s h
      run_event-Held (subscription_ind space node msgnum v i b c) s a h =
          complete_found-Held _ _ s h
      run_event-Held (unsubscribe_cnf space node msgnum v i) s a h =
          unsubscribe_cnf-Held space node msgnum v i s h
      run_event-Held unsubscribe_ind s a h = h
      run_event-Held leave_ind s a h = h
      run_event-Held wakes s a h = wake_all-Held s.subscriptions s h
      run_event-Held (adds_request node msgnum fd) s a h =
          IfDone-continue Held Held _ _ (register_request-Held fd node msgnum s h) λ _ _ k. k
      run_event-Held (removes_request node msgnum) s a h =
          IfDone-continue Held Held _ _ (remove_request-Held node msgnum s h) λ _ _ k. k
      run_event-Held (adds_subscription i fd) s a h =
          IfDone-continue Held Held _ _ (register_subscriber-Held fd i s h) λ _ _ k. k
      run_event-Held (removes_subscription i) s a h =
          IfDone-continue Held Held _ _ (remove_subscription-Held i s a h) λ _ _ k. k

      -- One step.
      pub run_event-Stands :
          (e : Event) (s : State Msg)
          → Leaves subid e
          → Stands subid q s
          → Returns (λ _ t. Stands subid q t) (run_event lib env e s)
      run_event-Stands e s a h =
          Returns-and_done (λ _ t. IsConsistent t) Held (λ _ t. Stands subid q t) _
            (run_event-Keeps lib env memory e s h.consistent) (run_event-Held e s a h.subscribed)
            λ _ t c k. record { consistent = c; subscribed = k }

      -- Any number of steps.
      pub run_events-Stands :
          (es : List Event) (s : State Msg)
          → All (Leaves subid) es
          → Stands subid q s
          → Returns (λ _ t. Stands subid q t) (run_events lib env es s)
      unfolding run_events
      run_events-Stands [] s a h = h
      run_events-Stands (e ∷ es) s a h =
          Returns-continue (λ _ t. Stands subid q t) (λ _ t. Stands subid q t)
            (run_event lib env e s) _ (run_event-Stands e s a.0 h)
            λ _ t k. run_events-Stands es t a.1 k
