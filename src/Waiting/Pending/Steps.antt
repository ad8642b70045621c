-- ===== src/Waiting/Pending/Steps.antt =====
-- A completed waiter of another request, or of a subscription, leaves a pending request as it is.
use sib_tcp.Prelude.{
  ℕ, ◌≤◌, ◌≡◌, refl, inl, inr, true, false, Option, none, some, List, [], ◌∷◌, ℤ, Bytes, arith,
  ◌==◌, ==_refl, bytes_eq, bytes_eq_iff, Bool-cases, Option-cases,
}
use sib_tcp.Ssap.{Sibmsg}
use sib_tcp.Key.{get_request_key}
use sib_tcp.Table.{Table, lookup}
use sib_tcp.Table.Uses.{uses, uses_of_lookup, lookup-injective}
use sib_tcp.State.{State, M, Waiter, Outcome, Action, continue, store}
use sib_tcp.Waiters.{waiter_completed}
use sib_tcp.Listener.{listener_get_request, listener_get_subscription}
use sib_tcp.Callbacks.{
  complete_with, complete_found, wake_all, sub_wake_thread, confirm_subscriber,
  handle_unsubscribe_cnf,
}
use sib_tcp.Waiting.Pending.{Pending}
use sib_tcp.Consistency.{Returns, Returns-continue, Returns-mono, live}
use sib_tcp.Consistency.Steps.{live_of_request, live_of_subscription}

module _ {Msg : Type 0} (key : Bytes) (p : ℕ) (w : Waiter Msg) (l : List Action) where
  -- Another key leads to another waiter, and so does a subscription.
  pub other_request :
      (s : State Msg) (k : Bytes) (q : ℕ)
      → Pending key p w l s
      → bytes_eq k key ≡ false
      → lookup k s.requests ≡ some q
      → (q == p) ≡ false
  other_request s k q h apart e = elim (Bool-cases (q == p)) [
    | inr differ ↦ differ
    | inl same ↦ absurd (
        ground (
          arith,
          bytes_eq_iff k key,
          lookup-injective p k key s.requests (ground (arith, h.consistent.owned p)) (ground arith)
              h.registered,
        ))
  ]

  pub other_subscription :
      (s : State Msg) (k : Bytes) (q : ℕ)
      → Pending key p w l s
      → lookup k s.subscriptions ≡ some q
      → (q == p) ≡ false
  other_subscription s k q h e = ground (
    arith,
    h.consistent.owned p,
    uses_of_lookup p key s.requests h.registered,
    uses_of_lookup p k s.subscriptions,
    uses_of_lookup q k s.subscriptions e,
  )

  -- Still pending, and no waiter of `s` has gone.
  abbrev Stays : {A : Type 0} → State Msg → A → State Msg → Type 0
  Stays s _ t = Pending key p w l t × ((r : ℕ) → live (s.heap r) ≤ live (t.heap r))

  abbrev pub Still : {A : Type 0} → A → State Msg → Type 0
  Still _ t = Pending key p w l t

  store-Pending :
      (q : ℕ) (f : Waiter Msg → Waiter Msg) (s : State Msg)
      → Pending key p w l s
      → 1 ≤ live (s.heap q)
      → (q == p) ≡ false
      → Returns (Stays s) (store q f s)
  store-Pending q f s h here differ = elim (Option-cases (s.heap q)) [
    | inl gone ↦ absurd (ground arith)
    | inr (v, e) ↦ rw e (
      record {
        consistent = record {
          owned = λ r. ground (arith, h.consistent.owned r);
          fresh = λ r le. ground (arith, h.consistent.fresh r);
        };
        registered = h.registered;
        content = ground arith;
        quiet = h.quiet;
      },
      λ r. ground arith,
    )
  ]

  chain :
      {A B : Type 0} (s : State Msg) (o : Outcome Msg A) (f : A → M Msg B)
      → Returns (Stays s) o
      → ((a : A) (t : State Msg) → Stays s a t → Returns (Stays t) (f a t))
      → Returns (Stays s) (continue o f)
  chain {A} {B} s o f h k = Returns-continue (Stays s) (Stays s) o f h λ a t e.
      Returns-mono (Stays t) (Stays s) (f a t) (k a t e)
        λ b u d. (d.0, λ q. omega (arith, e.1 q, d.1 q))

  complete_with-Pending :
      (rsp : Msg) (q : ℕ) (s : State Msg)
      → Pending key p w l s
      → 1 ≤ live (s.heap q)
      → (q == p) ≡ false
      → Returns (Stays s) (complete_with rsp q s)
  unfolding complete_with
  complete_with-Pending rsp q s h here differ =
      chain s _ _ (store-Pending q (λ v. record v { rsp = some rsp }) s h here differ) λ _ t e.
        store-Pending q (λ v. record v { req_ready = true }) t e.0 (omega (arith, e.1 q)) differ

  complete_found-Pending :
      (rsp : Msg) (o : Option ℕ) (s : State Msg)
      → ((q : ℕ) → o ≡ some q → (1 ≤ live (s.heap q)) × ((q == p) ≡ false))
      → Pending key p w l s
      → Returns Still (complete_found rsp o s)
  unfolding complete_found
  complete_found-Pending rsp none s f h = h
  complete_found-Pending rsp (some q) s f h =
      Returns-mono (Stays s) Still (complete_with rsp q s)
        (complete_with-Pending rsp q s h (f q refl).0 (f q refl).1) λ _ _ r. r.0

  pub request_reply-Pending :
      (node : Bytes) (msgnum : ℤ) (rsp : Msg) (s : State Msg)
      → bytes_eq (get_request_key node msgnum) key ≡ false
      → Pending key p w l s
      → Returns Still
          (continue (listener_get_request node msgnum s) λ waiter. complete_found rsp waiter)
  unfolding listener_get_request
  request_reply-Pending node msgnum rsp s apart h =
      complete_found-Pending rsp _ s
        (λ q e. (
          live_of_request s (get_request_key node msgnum) q h.consistent e,
          other_request s (get_request_key node msgnum) q h apart e,
        ))
        h

  pub subscription_reply-Pending :
      (subid : Bytes) (rsp : Msg) (s : State Msg)
      → Pending key p w l s
      → Returns Still
          (continue (listener_get_subscription subid s) λ waiter. complete_found rsp waiter)
  unfolding listener_get_subscription
  subscription_reply-Pending subid rsp s h =
      complete_found-Pending rsp _ s
        (λ q e. (live_of_subscription s subid q h.consistent e, other_subscription s subid q h e)) h

  wake_all-Pending :
      (t : Table) (s : State Msg)
      → ((q : ℕ) → uses q t ≤ live (s.heap q))
      → uses p t ≡ 0
      → Pending key p w l s
      → Returns Still (wake_all t s)
  unfolding wake_all
  wake_all-Pending [] s below apart h = h
  wake_all-Pending ((k, q) ∷ t) s below apart h =
      Returns-continue (Stays s) Still _ _
        (store-Pending q (λ v. record v { rsp = none; req_ready = true }) s h
          (unfold uses in ground (arith, below q, ==_refl q)) (unfold uses in ground arith))
        λ _ u x.
          wake_all-Pending t u (λ r. unfold uses in ground (arith, below r, x.1 r))
            (unfold uses in ground arith) x.0

  pub sub_wake-Pending : (s : State Msg) → Pending key p w l s → Returns Still (sub_wake_thread s)
  unfolding sub_wake_thread
  sub_wake-Pending s h =
      wake_all-Pending s.subscriptions s (λ q. omega (arith, h.consistent.owned q))
        (ground (arith, h.consistent.owned p, uses_of_lookup p key s.requests h.registered)) h

  confirm_subscriber-Pending :
      (lib : Sibmsg Msg) (q : ℕ) (o : Option ℕ) (space node : Bytes) (msgnum status : ℤ)
      (subid : Bytes) (s : State Msg)
      → Pending key p w l s
      → 1 ≤ live (s.heap q)
      → (q == p) ≡ false
      → ((r : ℕ) → o ≡ some r → (1 ≤ live (s.heap r)) × ((r == p) ≡ false))
      → Returns (Stays s) (confirm_subscriber lib q o space node msgnum status subid s)
  unfolding confirm_subscriber
  confirm_subscriber-Pending lib q none space node msgnum status subid s h here differ f =
      store-Pending q _ s h here differ
  confirm_subscriber-Pending lib q (some r) space node msgnum status subid s h here differ f =
      complete_with-Pending _ r s h (f r refl).0 (f r refl).1

  pub unsubscribe_cnf-Pending :
      (lib : Sibmsg Msg) (space node : Bytes) (msgnum status : ℤ) (subid : Bytes) (s : State Msg)
      → bytes_eq (get_request_key node msgnum) key ≡ false
      → Pending key p w l s
      → Returns Still (handle_unsubscribe_cnf lib space node msgnum status subid s)
  unfolding handle_unsubscribe_cnf waiter_completed
  unsubscribe_cnf-Pending lib space node msgnum status subid s apart h =
      elim (Option-cases (lookup (get_request_key node msgnum) s.requests)) [
        | inl absent ↦ rw absent h
        | inr (q, e) ↦
            let here = live_of_request s (get_request_key node msgnum) q h.consistent e in
            let differ = other_request s (get_request_key node msgnum) q h apart e in
            rw e (
              Returns-mono (Stays s) Still _
                (chain s _ _
                  (confirm_subscriber-Pending lib q (lookup subid s.subscriptions) space node msgnum
                    status subid s h here differ
                    (λ r found. (
                      live_of_subscription s subid r h.consistent found,
                      other_subscription s subid r h found,
                    )))
                  λ _ t x. store-Pending q _ t x.0 (omega (arith, x.1 q, here)) differ)
                λ _ _ r. r.0)
      ]
