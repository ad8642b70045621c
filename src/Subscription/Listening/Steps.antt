-- ===== src/Subscription/Listening/Steps.antt =====
-- What other threads do to other waiters leaves that of a subscriber as it is.
use sib_tcp.Prelude.{
  ℕ, ◌≡◌, refl, inl, inr, true, false, Option, none, some, List, ℤ, Bytes, arith, ◌==◌, ==_refl,
  bytes_eq, bytes_eq_iff, Bool-cases, Option-cases,
}
use sib_tcp.Ssap.{Sibmsg}
use sib_tcp.Key.{get_request_key}
use sib_tcp.Table.{lookup}
use sib_tcp.Table.Uses.{uses_of_lookup, lookup-injective}
use sib_tcp.World.{Env}
use sib_tcp.State.{State, Waiter, Action, store}
use sib_tcp.Waiters.{waiter_completed, waiter_destroy}
use sib_tcp.Listener.{
  listener_get_request, listener_add_request, listener_remove_request, listener_get_subscription,
  listener_add_subscription, listener_remove_subscription,
}
use sib_tcp.Callbacks.{complete_with, complete_found, confirm_subscriber, handle_unsubscribe_cnf}
use sib_tcp.Waiting.{register_waiter, register_subscriber}
use sib_tcp.Consistency.{IfDone, IfDone-continue}
use sib_tcp.Subscription.Listening.{Listening}

module _ {Msg : Type 0} (subid : Bytes) (q : ℕ) (w : Waiter Msg) (l : List Action) where
  -- What stands in the waiter, and what was done.
  abbrev pub Untouched : {A : Type 0} → A → State Msg → Type 0
  Untouched _ t = (t.heap q ≡ some w) × (t.trace ≡ l)

  abbrev pub Listens : {A : Type 0} → A → State Msg → Type 0
  Listens _ t = Listening subid q w l t

  -- A request leads to another waiter, and so does another subscription.
  pub other_request :
      (s : State Msg) (k : Bytes) (p : ℕ)
      → Listening subid q w l s
      → lookup k s.requests ≡ some p
      → (p == q) ≡ false
  other_request s k p h e = ground (
    arith,
    h.consistent.owned q,
    uses_of_lookup q subid s.subscriptions h.subscribed,
    uses_of_lookup q k s.requests,
    uses_of_lookup p k s.requests e,
  )

  pub other_subscription :
      (s : State Msg) (i : Bytes) (p : ℕ)
      → Listening subid q w l s
      → bytes_eq i subid ≡ false
      → lookup i s.subscriptions ≡ some p
      → (p == q) ≡ false
  other_subscription s i p h apart e = elim (Bool-cases (p == q)) [
    | inr differ ↦ differ
    | inl same ↦ absurd (
        ground (
          arith,
          bytes_eq_iff i subid,
          lookup-injective q i subid s.subscriptions (ground (arith, h.consistent.owned q))
              (ground arith) h.subscribed,
        ))
  ]

  pub store-Untouched :
      (p : ℕ) (f : Waiter Msg → Waiter Msg) (s : State Msg)
      → (s.heap q ≡ some w) × (s.trace ≡ l)
      → (p == q) ≡ false
      → IfDone Untouched (store p f s)
  store-Untouched p f s h differ = elim (Option-cases (s.heap p)) [
    | inl gone ↦ rw gone tt
    | inr (v, e) ↦ rw e (ground (arith, h.0, differ), h.1)
  ]

  pub complete_with-Untouched :
      (rsp : Msg) (p : ℕ) (s : State Msg)
      → (s.heap q ≡ some w) × (s.trace ≡ l)
      → (p == q) ≡ false
      → IfDone Untouched (complete_with rsp p s)
  unfolding complete_with waiter_completed
  complete_with-Untouched rsp p s h differ =
      IfDone-continue Untouched Untouched _ _
        (store-Untouched p (λ v. record v { rsp = some rsp }) s h differ)
        λ _ t k. store-Untouched p (λ v. record v { req_ready = true }) t k differ

  pub complete_found-Untouched :
      (rsp : Msg) (o : Option ℕ) (s : State Msg)
      → (s.heap q ≡ some w) × (s.trace ≡ l)
      → ((p : ℕ) → o ≡ some p → (p == q) ≡ false)
      → IfDone Untouched (complete_found rsp o s)
  unfolding complete_found
  complete_found-Untouched rsp none s h differ = h
  complete_found-Untouched rsp (some p) s h differ =
      complete_with-Untouched rsp p s h (differ p refl)

  module _ (s : State Msg) (h : Listening subid q w l s) where
    pub reply-Untouched :
        (node : Bytes) (msgnum : ℤ) (rsp : Msg)
        → IfDone Untouched (complete_found rsp (lookup (get_request_key node msgnum) s.requests) s)
    reply-Untouched node msgnum rsp =
        complete_found-Untouched rsp _ s (h.content, h.quiet)
          λ p e. other_request s (get_request_key node msgnum) p h e

    pub indication-Untouched :
        (i : Bytes) (rsp : Msg)
        → bytes_eq i subid ≡ false
        → IfDone Untouched (complete_found rsp (lookup i s.subscriptions) s)
    indication-Untouched i rsp apart =
        complete_found-Untouched rsp _ s (h.content, h.quiet)
          λ p e. other_subscription s i p h apart e

    pub unsubscribe_cnf-Untouched :
        (lib : Sibmsg Msg) (space node : Bytes) (msgnum status : ℤ) (i : Bytes)
        → bytes_eq i subid ≡ false
        → IfDone Untouched (handle_unsubscribe_cnf lib space node msgnum status i s)
    unfolding handle_unsubscribe_cnf confirm_subscriber listener_get_request
        listener_get_subscription waiter_completed
    unsubscribe_cnf-Untouched lib space node msgnum status i apart =
        elim (Option-cases (lookup (get_request_key node msgnum) s.requests)) [
          | inl absent ↦ rw absent (h.content, h.quiet)
          | inr (p, e) ↦
              let differ = other_request s (get_request_key node msgnum) p h e in
              elim (Option-cases (lookup i s.subscriptions)) [
                | inl gone ↦
                    rw (e, gone)
                      (IfDone-continue Untouched Untouched _ _
                        (store-Untouched p _ s (h.content, h.quiet) differ)
                        λ _ t k. store-Untouched p _ t k differ)
                | inr (r, d) ↦
                    rw (e, d)
                      (IfDone-continue Untouched Untouched _ _
                        (complete_with-Untouched _ r s (h.content, h.quiet)
                          (other_subscription s i r h apart d))
                        λ _ t k. store-Untouched p _ t k differ)
              ]
        ]

    pub remove_request-Untouched :
        (node : Bytes) (msgnum : ℤ) → IfDone Untouched (listener_remove_request node msgnum s)
    unfolding listener_remove_request waiter_destroy
    remove_request-Untouched node msgnum =
        elim (Option-cases (lookup (get_request_key node msgnum) s.requests)) [
          | inl absent ↦ rw absent (h.content, h.quiet)
          | inr (p, e) ↦
              let differ = other_request s (get_request_key node msgnum) p h e in
              elim (Option-cases (s.heap p)) [
                | inl gone ↦ rw (e, gone) tt
                | inr (v, d) ↦ rw (e, d) (ground (arith, h.content), h.quiet)
              ]
        ]

    pub remove_subscription-Untouched :
        (i : Bytes) → bytes_eq i subid ≡ false → IfDone Untouched (listener_remove_subscription i s)
    unfolding listener_remove_subscription waiter_destroy
    remove_subscription-Untouched i apart = elim (Option-cases (lookup i s.subscriptions)) [
      | inl absent ↦ rw absent (h.content, h.quiet)
      | inr (p, e) ↦
          let differ = other_subscription s i p h apart e in
          elim (Option-cases (s.heap p)) [
            | inl gone ↦ rw (e, gone) tt
            | inr (v, d) ↦ rw (e, d) (ground (arith, h.content), h.quiet)
          ]
    ]

    next_differs : (s.next == q) ≡ false
    next_differs = ground (arith, h.content, h.consistent.fresh q)

    pub register_request-Untouched :
        (env : Env) (fd : ℕ) (node : Bytes) (msgnum : ℤ)
        → IfDone Untouched (register_waiter env fd (listener_add_request node msgnum) s)
    unfolding register_waiter listener_add_request
    register_request-Untouched env fd node msgnum = elim (Bool-cases (env.allocates s.clock)) [
      | inl memory ↦ elim (Option-cases (lookup (get_request_key node msgnum) s.requests)) [
        | inl free ↦
            rw (memory, free, ==_refl s.next) (ground (arith, h.content, next_differs), h.quiet)
        | inr (p, e) ↦
            rw (memory, e, ==_refl s.next) (ground (arith, h.content, next_differs), h.quiet)
      ]
      | inr full ↦ rw full (h.content, h.quiet)
    ]

    pub register_subscriber-Untouched :
        (env : Env) (fd : ℕ) (i : Bytes) → IfDone Untouched (register_subscriber env fd i s)
    unfolding register_subscriber listener_add_subscription waiter_destroy
    register_subscriber-Untouched env fd i = elim (Bool-cases (env.allocates s.clock)) [
      | inl memory ↦ elim (Option-cases (lookup i s.subscriptions)) [
        | inl free ↦
            rw (memory, free, ==_refl s.next) (ground (arith, h.content, next_differs), h.quiet)
        | inr (p, e) ↦
            rw (memory, e, ==_refl s.next) (ground (arith, h.content, next_differs), h.quiet)
      ]
      | inr full ↦ rw full tt
    ]
