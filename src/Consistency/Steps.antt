-- ===== src/Consistency/Steps.antt =====
-- Every step that another thread takes keeps the state consistent and touches no freed waiter.
use sib_tcp.Prelude.{
  ℕ, ◌≤◌, ◌≡◌, refl, inl, inr, true, Option, none, some, [], ◌∷◌, ℤ, Bytes, arith, ==_refl,
  Option-cases, Bool-cases,
}
use sib_tcp.Table.{Table, lookup, remove}
use sib_tcp.Table.Uses.{uses, uses-insert, uses-remove-le, uses_of_lookup}
use sib_tcp.State.{State, Waiter, Outcome, continue, update, store, M, ◌>>=◌}
use sib_tcp.Waiters.{waiter_destroy}
use sib_tcp.Key.{get_request_key}
use sib_tcp.Listener.{
  listener_get_request, listener_add_request, listener_remove_request, listener_get_subscription,
  listener_remove_subscription,
}
use sib_tcp.Callbacks.{complete_with, complete_found, wake_all, sub_wake_thread}
use sib_tcp.World.{Env}
use sib_tcp.Waiting.{register_waiter}
use sib_tcp.Waiting.Registering.{with_request, with_dropped}
use sib_tcp.Consistency.{IsConsistent, Returns, Returns-continue, Returns-mono, Keeps, live}

module _ {Msg : Type 0} where
  pub live_of_request :
      (s : State Msg) (k : Bytes) (p : ℕ)
      → IsConsistent s
      → lookup k s.requests ≡ some p
      → 1 ≤ live (s.heap p)
  live_of_request s k p h e = omega (arith, h.owned p, uses_of_lookup p k s.requests e)

  pub live_of_subscription :
      (s : State Msg) (k : Bytes) (p : ℕ)
      → IsConsistent s
      → lookup k s.subscriptions ≡ some p
      → 1 ≤ live (s.heap p)
  live_of_subscription s k p h e = omega (arith, h.owned p, uses_of_lookup p k s.subscriptions e)

  pub live_waiter : (o : Option (Waiter Msg)) → 1 ≤ live o → (w : Waiter Msg) × (o ≡ some w)
  live_waiter none h = absurd (omega arith)
  live_waiter (some w) h = (w, refl)

  abbrev pub Consistent : {A : Type 0} → A → State Msg → Type 0
  Consistent _ t = IsConsistent t

  -- Consistent, and no waiter of `s` has gone.
  abbrev pub Extends : {A : Type 0} → State Msg → A → State Msg → Type 0
  Extends s _ t = IsConsistent t × ((q : ℕ) → live (s.heap q) ≤ live (t.heap q))

  pub store-Extends :
      (p : ℕ) (f : Waiter Msg → Waiter Msg) (s : State Msg)
      → IsConsistent s
      → 1 ≤ live (s.heap p)
      → Returns (Extends s) (store p f s)
  store-Extends p f s h here = elim (Option-cases (s.heap p)) [
    | inl gone ↦ absurd (ground arith)
    | inr (w, e) ↦ rw e (
      record { owned = λ q. ground (arith, h.owned q); fresh = λ q le. ground (arith, h.fresh q) },
      λ q. ground arith,
    )
  ]

  -- One action after another.
  pub chain :
      {A B : Type 0} (s : State Msg) (o : Outcome Msg A) (f : A → M Msg B)
      → Returns (Extends s) o
      → ((a : A) (t : State Msg) → Extends s a t → Returns (Extends t) (f a t))
      → Returns (Extends s) (continue o f)
  chain {A} {B} s o f h k = Returns-continue (Extends s) (Extends s) o f h λ a t e.
      Returns-mono (Extends t) (Extends s) (f a t) (k a t e)
        λ b u d. (d.0, λ q. omega (arith, e.1 q, d.1 q))

  pub complete_with-Extends :
      (rsp : Msg) (p : ℕ) (s : State Msg)
      → IsConsistent s
      → 1 ≤ live (s.heap p)
      → Returns (Extends s) (complete_with rsp p s)
  unfolding complete_with
  complete_with-Extends rsp p s h here =
      chain s _ _ (store-Extends p (λ w. record w { rsp = some rsp }) s h here)
        λ _ t e. store-Extends p (λ w. record w { req_ready = true }) t e.0 (omega (arith, e.1 p))

  complete_found-Keeps :
      (rsp : Msg) (o : Option ℕ) (s : State Msg)
      → ((p : ℕ) → o ≡ some p → 1 ≤ live (s.heap p))
      → IsConsistent s
      → Returns Consistent (complete_found rsp o s)
  unfolding complete_found
  complete_found-Keeps rsp none s l h = h
  complete_found-Keeps rsp (some p) s l h =
      Returns-mono (Extends s) Consistent (complete_with rsp p s)
        (complete_with-Extends rsp p s h (l p refl)) λ _ _ r. r.0

  pub request_reply-Keeps :
      (node : Bytes) (msgnum : ℤ) (rsp : Msg)
      → Keeps (do waiter ← listener_get_request node msgnum; complete_found rsp waiter)
  unfolding listener_get_request
  request_reply-Keeps node msgnum rsp s h =
      complete_found-Keeps rsp _ s (λ p e. live_of_request s (get_request_key node msgnum) p h e) h

  pub subscription_reply-Keeps :
      (subid : Bytes) (rsp : Msg)
      → Keeps (do waiter ← listener_get_subscription subid; complete_found rsp waiter)
  unfolding listener_get_subscription
  subscription_reply-Keeps subid rsp s h =
      complete_found-Keeps rsp _ s (λ p e. live_of_subscription s subid p h e) h

  wake_all-Keeps :
      (l : Table) (s : State Msg)
      → ((p : ℕ) → uses p l ≤ live (s.heap p))
      → IsConsistent s
      → Returns Consistent (wake_all l s)
  unfolding wake_all
  wake_all-Keeps [] s below h = h
  wake_all-Keeps ((k, q) ∷ l) s below h = elim (Option-cases (s.heap q)) [
    | inl gone ↦ absurd (unfold uses in ground (arith, below q))
    | inr (w, e) ↦
        rw e (wake_all-Keeps l _ (unfold uses in λ p. ground (arith, below p)) (woken w e))
  ]
    where
      woken :
          (w : Waiter Msg)
          → s.heap q ≡ some w
          → IsConsistent (record s {
            heap = update s.heap q (some (record w { req_ready = true; rsp = none }));
          })
      woken w e = record {
        owned = λ p. ground (arith, h.owned p);
        fresh = λ p le. ground (arith, h.fresh p);
      }

  pub sub_wake-Keeps : Keeps {Msg = Msg} sub_wake_thread
  unfolding sub_wake_thread
  sub_wake-Keeps s h = wake_all-Keeps s.subscriptions s (λ p. omega (arith, h.owned p)) h

  pub remove_request-Keeps :
      (node : Bytes) (msgnum : ℤ) → Keeps {Msg = Msg} (listener_remove_request node msgnum)
  unfolding listener_remove_request waiter_destroy
  remove_request-Keeps node msgnum s h =
      elim (Option-cases (lookup (get_request_key node msgnum) s.requests)) [
        | inl absent ↦ rw absent h
        | inr (p, e) ↦
            let (w, held) = live_waiter _ (live_of_request s key p h e) in rw (e, held) (freed p e)
      ]
    where
      key : Bytes
      key = get_request_key node msgnum

      freed :
          (p : ℕ)
          → lookup key s.requests ≡ some p
          → IsConsistent
              (record s { requests = remove key s.requests; heap = update s.heap p none })
      freed p e = record {
        owned = λ q.
            ground
              (arith, h.owned q, uses-remove-le q key s.requests, uses_of_lookup p key s.requests);
        fresh = λ q le. ground (arith, h.fresh q);
      }

  pub remove_subscription-Keeps :
      (subid : Bytes) → Keeps {Msg = Msg} (listener_remove_subscription subid)
  unfolding listener_remove_subscription waiter_destroy
  remove_subscription-Keeps subid s h = elim (Option-cases (lookup subid s.subscriptions)) [
    | inl absent ↦ rw absent h
    | inr (p, e) ↦
        let (w, held) = live_waiter _ (live_of_subscription s subid p h e) in
        rw (e, held) (freed p e)
  ]
    where
      freed :
          (p : ℕ)
          → lookup subid s.subscriptions ≡ some p
          → IsConsistent (record s {
            subscriptions = remove subid s.subscriptions;
            heap = update s.heap p none;
          })
      freed p e = record {
        owned = λ q. ground (
          arith,
          h.owned q,
          uses-remove-le q subid s.subscriptions,
          uses_of_lookup p subid s.subscriptions,
        );
        fresh = λ q le. ground (arith, h.fresh q);
      }

  pub register_request-Keeps :
      (env : Env) (fd : ℕ) (node : Bytes) (msgnum : ℤ)
      → Keeps {Msg = Msg} (register_waiter env fd (listener_add_request node msgnum))
  unfolding register_waiter listener_add_request
  register_request-Keeps env fd node msgnum s h = elim (Bool-cases (env.allocates s.clock)) [
    | inl memory ↦ elim (Option-cases (lookup key s.requests)) [
      | inl free ↦ rw (memory, free, ==_refl s.next) added
      | inr (p, e) ↦ rw (memory, e, ==_refl s.next) dropped
    ]
    | inr full ↦ rw full (record { owned = h.owned; fresh = h.fresh })
  ]
    where
      key : Bytes
      key = get_request_key node msgnum

      added : IsConsistent (with_request env fd node msgnum s)
      added = record {
        owned = λ q. ground (arith, h.owned q, h.fresh s.next, uses-insert q key s.next s.requests);
        fresh = λ q le. ground (arith, h.fresh q);
      }

      dropped : IsConsistent (with_dropped env fd node msgnum s)
      dropped = record {
        owned = λ q. ground (arith, h.owned q, h.fresh s.next);
        fresh = λ q le. ground (arith, h.fresh q);
      }
