-- ===== src/Subscription/Waking.antt =====
-- src/main.c, `sub_wake_thread`, which wakes every subscriber from time to time, and the messages
-- that wait for the subscribers.
use sib_tcp.Prelude.{
  ℕ, ◌≤◌, ◌≡◌, refl, ◌⊎◌, inl, inr, true, Option, none, some, [], ◌∷◌, ℤ, Bytes, arith, ◌==◌,
  ==_refl, Bool-cases,
}
use sib_tcp.Ssap.{Sibmsg}
use sib_tcp.Table.{Table, lookup}
use sib_tcp.Table.Uses.{uses, uses_of_lookup}
use sib_tcp.State.{State, Waiter, update, ◌>>◌}
use sib_tcp.Listener.{listener_get_subscription}
use sib_tcp.Callbacks.{
  complete_with, complete_found, wake_all, sub_wake_thread, handle_subscription_ind,
}
use sib_tcp.Consistency.{IsConsistent, Returns, Returns-continue, Returns-mono, Returns-both, live}
use sib_tcp.Consistency.Steps.{live_waiter, live_of_subscription, Extends, complete_with-Extends}

-- The waiter is to wake up, and has no message.
abbrev pub WokenBlank : {Msg : Type 0} → ℕ → State Msg → Type 0
WokenBlank {Msg} p s =
    (w : Waiter Msg) × (s.heap p ≡ some w) × (w.rsp ≡ none) × (w.req_ready ≡ true)

module _ {Msg : Type 0} where
  abbrev Owned : Table → State Msg → Type 0
  Owned t s = (p : ℕ) → uses p t ≤ live (s.heap p)

  still_or_woken :
      (subid : Bytes) (q : ℕ) (t : Table) (s : State Msg) (p : ℕ) (w : Waiter Msg)
      → (1 ≤ uses p ((subid, q) ∷ t)) ⊎ WokenBlank p s
      → (1 ≤ uses p t)
        ⊎ WokenBlank p
            (record s { heap = update s.heap q (some (record w { rsp = none; req_ready = true })) })
  unfolding uses
  still_or_woken subid q t s p w k = elim (Bool-cases (q == p)) [
    | inl same ↦ inr (record w { rsp = none; req_ready = true }, rw same refl, refl, refl)
    | inr other ↦ elim k [
      | inl n ↦ inl (ground (arith, n))
      | inr (v, e, r, ready) ↦ inr (v, rw other e, r, ready)
    ]
  ]

  wake_all-WokenBlank :
      (t : Table) (s : State Msg) (p : ℕ)
      → Owned t s
      → (1 ≤ uses p t) ⊎ WokenBlank p s
      → Returns (λ _ u. WokenBlank p u) (wake_all t s)
  unfolding wake_all uses
  wake_all-WokenBlank [] s p h (inl k) = absurd (omega (arith, k))
  wake_all-WokenBlank [] s p h (inr k) = k
  wake_all-WokenBlank ((subid, q) ∷ t) s p h k =
      let (w, e) = live_waiter (s.heap q) (ground (arith, h q)) in
      rw e (wake_all-WokenBlank t _ p (λ r. ground (arith, h r)) (still_or_woken subid q t s p w k))

  pub sub_wake-WokenBlank :
      (s : State Msg) (subid : Bytes) (p : ℕ)
      → IsConsistent s
      → lookup subid s.subscriptions ≡ some p
      → Returns (λ _ t. WokenBlank p t) (sub_wake_thread s)
  unfolding sub_wake_thread
  sub_wake-WokenBlank s subid p h e =
      wake_all-WokenBlank s.subscriptions s p (λ q. omega (arith, h.owned q))
        (inl (omega (arith, uses_of_lookup p subid s.subscriptions e)))

  complete_with-subscriptions :
      (rsp : Msg) (p : ℕ) (s : State Msg)
      → 1 ≤ live (s.heap p)
      → Returns (λ _ t. t.subscriptions ≡ s.subscriptions) (complete_with rsp p s)
  unfolding complete_with
  complete_with-subscriptions rsp p s h =
      let (w, e) = live_waiter (s.heap p) h in rw (e, ==_refl p) refl

module _ {Msg : Type 0} (lib : Sibmsg Msg) where
  -- An indication for a subscriber, and then a round of the waking thread before the subscriber
  -- runs: in a consistent state where the subscription is registered, both return, and the
  -- subscriber is then to wake up with no message, so that the indication is lost.
  pub wake_drops_indication :
      (space node : Bytes) (msgnum seqnum : ℤ) (subid : Bytes) (new obsolete : Option Bytes) (p : ℕ)
      (s : State Msg)
      → IsConsistent s
      → lookup subid s.subscriptions ≡ some p
      → Returns
          (λ _ t. WokenBlank p t)
          ((do
            handle_subscription_ind lib space node msgnum seqnum subid new obsolete
            sub_wake_thread)
            s)
  unfolding handle_subscription_ind listener_get_subscription complete_found
  wake_drops_indication space node msgnum seqnum subid new obsolete p s h e = rw e (
      Returns-continue (λ _ t. IsConsistent t × (t.subscriptions ≡ s.subscriptions))
        (λ _ t. WokenBlank p t) _ _
        (Returns-both (λ _ t. IsConsistent t) (λ _ t. t.subscriptions ≡ s.subscriptions) _
          (Returns-mono (Extends s) (λ _ t. IsConsistent t) _
            (complete_with-Extends _ p s h (live_of_subscription s subid p h e)) λ _ _ r. r.0)
          (complete_with-subscriptions _ p s (live_of_subscription s subid p h e)))
        λ _ t x. sub_wake-WokenBlank t subid p x.0 (rw x.1 e))
