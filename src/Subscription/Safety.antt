-- ===== src/Subscription/Safety.antt =====
-- The sending loop of a subscription reads no waiter that has been freed.
use sib_tcp.Prelude.{
  ℕ, ◌+◌, zero, suc, ◌≡◌, inl, inr, true, false, none, some, List, [], ◌∷◌, ℤ, pos, Bytes, arith,
  Bool-cases, Option-cases, All, int_eq, is_neg, drop,
}
use sib_tcp.Ssap.{Sibmsg, send_unsubscribe}
use sib_tcp.World.{Env, Event}
use sib_tcp.State.{State, M, Waiter, Action, continue, pure, load, store, ◌>>◌}
use sib_tcp.Listener.{listener_remove_subscription}
use sib_tcp.Socket.{socket_broken, send_some, send_rounds, client_send_message}
use sib_tcp.Request.{call_daemon}
use sib_tcp.Waiting.{wait_rounds, waiter_wait_for_finished}
use sib_tcp.Subscription.{
  Saved, Arrival, indication, unsubscribed, invalid, Next, again, finished, send_checked,
  auto_unsubscribe, on_arrival, probe, subscription_round, subscription_rounds,
}
use sib_tcp.Subscription.Standing.{Leaves, Stands, run_events-Stands}
use sib_tcp.Consistency.{IsConsistent, Returns, Safely, Safely-continue, Returns-Safely}
use sib_tcp.Consistency.Steps.{live_waiter, live_of_subscription, remove_subscription-Keeps}

module _ {Msg : Type 0} (lib : Sibmsg Msg) (env : Env) (memory : (t : ℕ) → env.allocates t ≡ true)
    (subid : Bytes) (q : ℕ) where
  abbrev pub Standing : {A : Type 0} → A → State Msg → Type 0
  Standing _ t = Stands subid q t

  abbrev pub Consistent : {A : Type 0} → A → State Msg → Type 0
  Consistent _ t = IsConsistent t

  -- Between two rounds the subscription stands; after the last one the state is consistent.
  abbrev pub Going : Next → State Msg → Type 0
  Going again t = Stands subid q t
  Going finished t = IsConsistent t

  pub touch :
      (c : ℕ) (l : List Action) (s : State Msg)
      → Stands subid q s
      → Stands subid q (record s { clock = c; trace = l })
  touch c l s h = record {
    consistent = record { owned = h.consistent.owned; fresh = h.consistent.fresh };
    subscribed = h.subscribed;
  }

  pub waiter_of : (s : State Msg) → Stands subid q s → (w : Waiter Msg) × (s.heap q ≡ some w)
  waiter_of s h = live_waiter _ (live_of_subscription s subid q h.consistent h.subscribed)

  pub store-Stands :
      (f : Waiter Msg → Waiter Msg) (s : State Msg)
      → Stands subid q s
      → Returns Standing (store q f s)
  store-Stands f s h =
      let (w, e) = waiter_of s h in
      rw e (record {
        consistent = record {
          owned = λ p. ground (arith, h.consistent.owned p);
          fresh = λ p le. ground (arith, h.consistent.fresh p);
        };
        subscribed = h.subscribed;
      })

  -- The waiter of a subscription that stands can be read.
  pub load-Safely :
      {A : Type 0} (Q : A → State Msg → Type 0) (f : Waiter Msg → M Msg A) (s : State Msg)
      → Stands subid q s
      → ((w : Waiter Msg) → Safely Q (f w s))
      → Safely Q (continue (load q s) f)
  load-Safely Q f s h k = let (w, e) = waiter_of s h in rw e (k w)

  wait_rounds-Safely :
      (others : List (List Event)) (s : State Msg)
      → All (All (Leaves subid)) others
      → Stands subid q s
      → Safely Standing (wait_rounds lib env others q s)
  unfolding wait_rounds
  wait_rounds-Safely [] s a h = tt
  wait_rounds-Safely (es ∷ rest) s a h =
      Safely-continue Standing Standing _ _
        (Returns-Safely Standing Standing _ (run_events-Stands subid q lib env memory es s a.0 h)
          λ _ _ k. k)
        λ _ t k. load-Safely Standing _ t k λ w. elim (Bool-cases w.req_ready) [
          | inl ready ↦ rw ready (
              Returns-Safely Standing Standing _
                (store-Stands (λ v. record v { req_ready = false }) t k) λ _ _ j. j)
          | inr waiting ↦ rw waiting (wait_rounds-Safely rest t a.1 k)
        ]

  send_rounds-Safely :
      (fuel fd : ℕ) (buf : Bytes) (s : State Msg)
      → Stands subid q s
      → Safely Standing (send_rounds env fuel fd buf s)
  unfolding send_rounds socket_broken send_some
  send_rounds-Safely fuel fd [] s h = h
  send_rounds-Safely zero fd (c ∷ buf) s h = tt
  send_rounds-Safely (suc fuel) fd (c ∷ buf) s h =
      elim (Bool-cases (int_eq (env.so_error s.clock fd) (pos 0))) [
        | inr bad ↦ rw bad (touch _ _ s h)
        | inl fine ↦ elim (Option-cases (env.send_result (s.clock + 1) fd (c ∷ buf))) [
          | inl lost ↦ rw (fine, lost) (touch _ _ s h)
          | inr (k, e) ↦
              rw (fine, e) (send_rounds-Safely fuel fd (drop k (c ∷ buf)) _ (touch _ _ s h))
        ]
      ]

  pub send_checked-Safely :
      (fd : ℕ) (text : Bytes) (s : State Msg)
      → Stands subid q s
      → Safely Standing (send_checked lib env fd text s)
  unfolding send_checked socket_broken client_send_message
  send_checked-Safely fd text s h = elim (Bool-cases (int_eq (env.so_error s.clock fd) (pos 0))) [
    | inr bad ↦ rw bad (touch _ _ s h)
    | inl fine ↦ rw fine (
        Safely-continue Standing Standing _ _
          (send_rounds-Safely env.rounds fd text _ (touch _ _ s h))
          λ r t k. elim (Bool-cases (is_neg r)) [ inl bad ↦ rw bad k | inr good ↦ rw good k ])
  ]

  pub removed-Safely :
      (i : Bytes) (s : State Msg)
      → IsConsistent s
      → Safely Going ((do listener_remove_subscription i; pure finished) s)
  removed-Safely i s h =
      Safely-continue Consistent Going _ _
        (Returns-Safely Consistent Consistent _ (remove_subscription-Keeps i s h) λ _ _ k. k)
        λ _ _ k. k

  auto_unsubscribe-Safely :
      (space node : Bytes) (num : ℤ) (i : Bytes) (s : State Msg)
      → Stands subid q s
      → Safely Going (auto_unsubscribe lib env space node num i s)
  unfolding auto_unsubscribe call_daemon
  auto_unsubscribe-Safely space node num i s h =
      elim (Bool-cases (is_neg (env.dbus_result s.clock (send_unsubscribe space node num i)))) [
        | inl bad ↦ rw bad (removed-Safely i _ (touch _ _ s h).consistent)
        | inr good ↦ rw good (removed-Safely i _ (touch _ _ s h).consistent)
      ]

  on_arrival-Safely :
      (fd : ℕ) (rsp : Msg) (a : Arrival) (s : State Msg)
      → Stands subid q s
      → Safely Going (on_arrival lib env q fd rsp a s)
  unfolding on_arrival
  on_arrival-Safely fd rsp (indication text) s h =
      Safely-continue Standing Going _ _ (send_checked-Safely fd text s h) λ out t k.
        elim (Bool-cases out) [
          | inr lost ↦ rw lost (auto_unsubscribe-Safely _ _ _ _ t k)
          | inl sent ↦ rw sent (
              Safely-continue Standing Going _ _
                (Returns-Safely Standing Standing _
                  (store-Stands (λ w. record w { rsp = none }) t k) λ _ _ j. j)
                λ _ _ j. j)
        ]
  on_arrival-Safely fd rsp (unsubscribed text) s h =
      Safely-continue Standing Going _ _ (send_checked-Safely fd text s h)
        λ _ t k. removed-Safely _ t k.consistent
  on_arrival-Safely fd rsp invalid s h = removed-Safely _ s h.consistent

  pub probe-Safely :
      (fd : ℕ) (saved : Saved) (s : State Msg)
      → Stands subid q s
      → Safely Going (probe lib env fd saved s)
  unfolding probe send_some socket_broken
  probe-Safely fd saved s h = elim (Option-cases (env.send_result s.clock fd (b' ' ∷ []))) [
    | inl lost ↦ rw lost (auto_unsubscribe-Safely _ _ _ _ _ (touch _ _ s h))
    | inr (k, e) ↦ elim (Bool-cases (int_eq (env.so_error (s.clock + 1) fd) (pos 0))) [
      | inr bad ↦ rw (e, bad) (auto_unsubscribe-Safely _ _ _ _ _ (touch _ _ s h))
      | inl fine ↦ rw (e, fine) (touch _ _ s h)
    ]
  ]

  module _ (apart : (t : ℕ) → All (All (Leaves subid)) (env.waits t)) (saved : Saved) where
    round-Safely :
        (s : State Msg) → Stands subid q s → Safely Going (subscription_round lib env q saved s)
    unfolding subscription_round waiter_wait_for_finished
    round-Safely s h =
        Safely-continue Standing Going _ _
          (wait_rounds-Safely (env.waits s.clock) _ (apart s.clock) (touch _ _ s h))
          λ _ t k. load-Safely Going _ t k λ w. elim (Option-cases w.rsp) [
            | inl none' ↦ rw none' (probe-Safely w.fd saved t k)
            | inr (rsp, e) ↦ rw e (on_arrival-Safely w.fd rsp _ t k)
          ]

    go_on-Safely :
        (m : M Msg (Unit {0}))
        → ((t : State Msg) → Stands subid q t → Safely Consistent (m t))
        → (n : Next) (t : State Msg) → Going n t
        → Safely Consistent
            ((elim n as (λ _. M Msg (Unit {0})) [ again ↦ m | finished ↦ pure tt ]) t)
    go_on-Safely m k again t h = k t h
    go_on-Safely m k finished t h = h

    -- The sending loop of a subscription that stands in a consistent state, with memory and while
    -- no other thread removes it from the table or runs but while it waits, reads no freed memory and
    -- no null pointer, whatever comes, whatever the socket and the daemon answer and for however many rounds, and leaves a
    -- consistent state where it ends.
    pub subscription_rounds-Safely :
        (fuel : ℕ) (s : State Msg)
        → Stands subid q s
        → Safely (λ _ t. IsConsistent t) (subscription_rounds lib env fuel q saved s)
    unfolding subscription_rounds
    subscription_rounds-Safely zero s h = tt
    subscription_rounds-Safely (suc fuel) s h =
        Safely-continue Going Consistent _ _ (round-Safely s h) (
          go_on-Safely (subscription_rounds lib env fuel q saved)
            λ t k. subscription_rounds-Safely fuel t k)
