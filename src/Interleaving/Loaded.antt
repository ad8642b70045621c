-- ===== src/Interleaving/Loaded.antt =====
-- A response that a subscriber has got stays with it while other threads take their steps, but for
-- the waking thread.
use sib_tcp.Prelude.{
  ℕ, ◌≡◌, refl, Bool, inl, inr, true, false, Option, none, some, ℤ, Bytes, ==_refl, ==_iff,
  Bool-cases, Option-cases, ◌==◌,
}
use sib_tcp.Ssap.{Sibmsg}
use sib_tcp.Key.{get_request_key}
use sib_tcp.Table.{lookup}
use sib_tcp.World.{
  Env, Event, join_cnf, leave_cnf, insert_cnf, remove_cnf, update_cnf, query_cnf, subscribe_cnf,
  subscription_ind, unsubscribe_cnf, unsubscribe_ind, leave_ind, wakes, adds_request,
  removes_request, adds_subscription, removes_subscription,
}
use sib_tcp.State.{State, Waiter, store}
use sib_tcp.Waiters.{waiter_completed, waiter_destroy}
use sib_tcp.Listener.{
  listener_get_request, listener_add_request, listener_remove_request, listener_get_subscription,
  listener_add_subscription, listener_remove_subscription,
}
use sib_tcp.Callbacks.{
  complete_with, complete_found, confirm_subscriber, handle_join_cnf, handle_leave_cnf,
  handle_insert_cnf, handle_remove_cnf, handle_update_cnf, handle_query_cnf, handle_subscribe_cnf,
  handle_subscription_ind, handle_unsubscribe_cnf,
}
use sib_tcp.Waiting.{register_waiter, register_subscriber, run_event}
use sib_tcp.Consistency.{IfDone, IfDone-continue}

-- There is a response.
abbrev pub is_some : {Msg : Type 0} → Option Msg → Bool
is_some none = false
is_some (some rsp) = true

-- There is a response, unless the waiter is gone.
abbrev pub has_response : {Msg : Type 0} → Option (Waiter Msg) → Bool
has_response none = true
has_response (some w) = is_some w.rsp

-- The event is not a round of the waking thread.
abbrev pub Sleeps : Event → Type 0
Sleeps wakes = ⊥
Sleeps _ = Unit

module _ {Msg : Type 0} (q : ℕ) where
  abbrev Kept : {A : Type 0} → A → State Msg → Type 0
  Kept _ t = has_response (t.heap q) ≡ true

  -- A store that does not take a response away.
  pub store-Loaded :
      (p : ℕ) (f : Waiter Msg → Waiter Msg) (s : State Msg)
      → ((w : Waiter Msg) → is_some w.rsp ≡ true → is_some (f w).rsp ≡ true)
      → has_response (s.heap q) ≡ true
      → IfDone Kept (store p f s)
  store-Loaded p f s keeps h = elim (Option-cases (s.heap p)) [
    | inl e ↦ rw e tt
    | inr (w, e) ↦ rw e (elim (Bool-cases (p == q)) [
      | inl same ↦ rw same (keeps w (held w e ((==_iff p q).0 same)))
      | inr differ ↦ rw differ h
    ])
  ]
    where
      held : (w : Waiter Msg) → s.heap p ≡ some w → p ≡ q → is_some w.rsp ≡ true
      held w e same = rw e at (rw (← same) at h)

  complete_with-Loaded :
      (rsp : Msg) (p : ℕ) (s : State Msg)
      → has_response (s.heap q) ≡ true
      → IfDone Kept (complete_with rsp p s)
  unfolding complete_with waiter_completed
  complete_with-Loaded rsp p s h =
      IfDone-continue Kept Kept _ _
        (store-Loaded p (λ w. record w { rsp = some rsp }) s (λ _ _. refl) h)
        λ _ t k. store-Loaded p (λ w. record w { req_ready = true }) t (λ _ x. x) k

  complete_found-Loaded :
      (rsp : Msg) (o : Option ℕ) (s : State Msg)
      → has_response (s.heap q) ≡ true
      → IfDone Kept (complete_found rsp o s)
  unfolding complete_found
  complete_found-Loaded rsp none s h = h
  complete_found-Loaded rsp (some p) s h = complete_with-Loaded rsp p s h

  module _ (lib : Sibmsg Msg) (env : Env) where
    unsubscribe_cnf-Loaded :
        (space node : Bytes) (msgnum status : ℤ) (i : Bytes) (s : State Msg)
        → has_response (s.heap q) ≡ true
        → IfDone Kept (handle_unsubscribe_cnf lib space node msgnum status i s)
    unfolding handle_unsubscribe_cnf confirm_subscriber listener_get_request
        listener_get_subscription waiter_completed
    unsubscribe_cnf-Loaded space node msgnum status i s h =
        elim (Option-cases (lookup (get_request_key node msgnum) s.requests)) [
          | inl absent ↦ rw absent h
          | inr (p, e) ↦ elim (Option-cases (lookup i s.subscriptions)) [
            | inl gone ↦
                rw (e, gone)
                  (IfDone-continue Kept Kept _ _
                    (store-Loaded p
                      (λ w. record w {
                        rsp =
                            some
                              (lib.new_unsubscribe_rsp space node msgnum lib.ss_operation_failed i);
                      })
                      s (λ _ _. refl) h)
                    λ _ t k. store-Loaded p (λ w. record w { req_ready = true }) t (λ _ x. x) k)
            | inr (r, d) ↦
                rw (e, d)
                  (IfDone-continue Kept Kept _ _ (complete_with-Loaded _ r s h)
                    λ _ t k. store-Loaded p (λ w. record w { req_ready = true }) t (λ _ x. x) k)
          ]
        ]

    remove_request-Loaded :
        (node : Bytes) (msgnum : ℤ) (s : State Msg)
        → has_response (s.heap q) ≡ true
        → IfDone Kept (listener_remove_request node msgnum s)
    unfolding listener_remove_request waiter_destroy
    remove_request-Loaded node msgnum s h =
        elim (Option-cases (lookup (get_request_key node msgnum) s.requests)) [
          | inl absent ↦ rw absent h
          | inr (p, e) ↦ elim (Option-cases (s.heap p)) [
            | inl gone ↦ rw (e, gone) tt
            | inr (w, d) ↦
                rw (e, d)
                  (elim (Bool-cases (p == q)) [
                    | inl same ↦ rw same refl
                    | inr differ ↦ rw differ h
                  ])
          ]
        ]

    remove_subscription-Loaded :
        (i : Bytes) (s : State Msg)
        → has_response (s.heap q) ≡ true
        → IfDone Kept (listener_remove_subscription i s)
    unfolding listener_remove_subscription waiter_destroy
    remove_subscription-Loaded i s h = elim (Option-cases (lookup i s.subscriptions)) [
      | inl absent ↦ rw absent h
      | inr (p, e) ↦ elim (Option-cases (s.heap p)) [
        | inl gone ↦ rw (e, gone) tt
        | inr (w, d) ↦
            rw (e, d)
              (elim (Bool-cases (p == q)) [ inl same ↦ rw same refl | inr differ ↦ rw differ h ])
      ]
    ]

    register_request-Loaded :
        (fd : ℕ) (node : Bytes) (msgnum : ℤ) (s : State Msg)
        → (s.next == q) ≡ false
        → has_response (s.heap q) ≡ true
        → IfDone Kept (register_waiter env fd (listener_add_request node msgnum) s)
    unfolding register_waiter listener_add_request
    register_request-Loaded fd node msgnum s new h = elim (Bool-cases (env.allocates s.clock)) [
      | inl memory ↦ elim (Option-cases (lookup (get_request_key node msgnum) s.requests)) [
        | inl free ↦ rw (memory, free, ==_refl s.next, new) h
        | inr (p, e) ↦ rw (memory, e, ==_refl s.next, new) h
      ]
      | inr full ↦ rw full h
    ]

    register_subscriber-Loaded :
        (fd : ℕ) (i : Bytes) (s : State Msg)
        → (s.next == q) ≡ false
        → has_response (s.heap q) ≡ true
        → IfDone Kept (register_subscriber env fd i s)
    unfolding register_subscriber listener_add_subscription waiter_destroy
    register_subscriber-Loaded fd i s new h = elim (Bool-cases (env.allocates s.clock)) [
      | inl memory ↦ elim (Option-cases (lookup i s.subscriptions)) [
        | inl free ↦ rw (memory, free, ==_refl s.next, new) h
        | inr (p, e) ↦ rw (memory, e, ==_refl s.next, new) h
      ]
      | inr full ↦ rw full tt
    ]

    pub run_event-Loaded :
        (e : Event) (s : State Msg)
        → Sleeps e
        → (s.next == q) ≡ false
        → has_response (s.heap q) ≡ true
        → IfDone Kept (run_event lib env e s)
    unfolding run_event handle_join_cnf handle_leave_cnf handle_remove_cnf handle_insert_cnf
        handle_update_cnf handle_query_cnf handle_subscribe_cnf handle_subscription_ind
        listener_get_request listener_get_subscription
    run_event-Loaded (join_cnf space node msgnum v) s a new h = complete_found-Loaded _ _ s h
    run_event-Loaded (leave_cnf space node msgnum v) s a new h = complete_found-Loaded _ _ s h
    run_event-Loaded (remove_cnf space node msgnum v) s a new h = complete_found-Loaded _ _ s h
    run_event-Loaded (insert_cnf space node msgnum v b) s a new h = complete_found-Loaded _ _ s h
    run_event-Loaded (update_cnf space node msgnum v b) s a new h = complete_found-Loaded _ _ s h
    run_event-Loaded (query_cnf space node msgnum v b) s a new h = complete_found-Loaded _ _ s h
    run_event-Loaded (subscribe_cnf space node msgnum v i b) s a new h =
        complete_found-Loaded _ _ s h
    run_event-Loaded (subscription_ind space node msgnum v i b c) s a new h =
        complete_found-Loaded _ _ s h
    run_event-Loaded (unsubscribe_cnf space node msgnum v i) s a new h =
        unsubscribe_cnf-Loaded space node msgnum v i s h
    run_event-Loaded unsubscribe_ind s a new h = h
    run_event-Loaded leave_ind s a new h = h
    run_event-Loaded wakes s a new h = absurd a
    run_event-Loaded (adds_request node msgnum fd) s a new h =
        IfDone-continue Kept Kept _ _ (register_request-Loaded fd node msgnum s new h) λ _ _ k. k
    run_event-Loaded (removes_request node msgnum) s a new h =
        IfDone-continue Kept Kept _ _ (remove_request-Loaded node msgnum s h) λ _ _ k. k
    run_event-Loaded (adds_subscription i fd) s a new h =
        IfDone-continue Kept Kept _ _ (register_subscriber-Loaded fd i s new h) λ _ _ k. k
    run_event-Loaded (removes_subscription i) s a new h =
        IfDone-continue Kept Kept _ _ (remove_subscription-Loaded i s h) λ _ _ k. k
