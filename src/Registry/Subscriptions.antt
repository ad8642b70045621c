-- ===== src/Registry/Subscriptions.antt =====
-- The operations on subscriptions do what the registry promises.
use sib_tcp.Prelude.{
  ℕ, ◌+◌, ◌≡◌, refl, ap, sym, subst, ◌∙◌, inl, inr, true, false, none, some, Bytes, arith,
  bytes_eq_iff, Option-cases, ==_refl,
}
use sib_tcp.Key.{get_request_key}
use sib_tcp.Table.{lookup, insert, remove, lookup-insert, lookup-remove}
use sib_tcp.World.{Env}
use sib_tcp.State.{State, Waiter, update, done}
use sib_tcp.Listener.{
  listener_add_subscription, listener_get_subscription, listener_remove_subscription, succeeded,
  failed,
}
use sib_tcp.Waiters.{waiter_destroy}
use sib_tcp.Waiting.{register_subscriber}
use sib_tcp.Waiting.Registering.{new_waiter}
use sib_tcp.Consistency.{Returns}
use sib_tcp.Consistency.Steps.{
  Consistent, live_waiter, live_of_subscription, remove_subscription-Keeps,
}
use sib_tcp.Consistency.Events.{register_subscriber-Keeps}
use sib_tcp.Registry.{
  Registry, add_subscription, get_subscription, remove_subscription, socket, status,
  set_subscription, perform, run_operation, socket_of,
}
use sib_tcp.Registry.Keys.{
  Represents, request_not_next, subscription_not_next, subscription_other, tables_disjoint,
}
use sib_tcp.Registry.Requests.{Refines, refines}

module _ {Msg : Type 0} (env : Env) (memory : (t : ℕ) → env.allocates t ≡ true) (s : State Msg)
    (r : Registry) (h : Represents s r) (subid : Bytes) where
  pub get_subscription-Refines :
      Returns (Refines (get_subscription subid) r) (run_operation env (get_subscription subid) s)
  unfolding run_operation perform listener_get_subscription socket_of
  get_subscription-Refines = elim (Option-cases (lookup subid s.subscriptions)) [
    | inl absent ↦
        rw (absent, socket_of) (ap socket (sym (h.subscriptions subid ∙ rw absent refl)), h)
    | inr (p, e) ↦
        let (w, held) = live_waiter _ (live_of_subscription s subid p h.consistent e) in
        rw (e, socket_of, held) (ap socket (sym (h.subscriptions subid ∙ rw (e, held) refl)), h)
  ]

  abbrev blank : ℕ → Waiter Msg
  blank fd = record { req_ready = false; fd = fd; rsp = none; subscription_id = none; key = none }

  abbrev with_subscription : ℕ → State Msg
  with_subscription fd = record s {
    subscriptions = insert subid s.next s.subscriptions;
    heap = update (update s.heap s.next (some (blank fd))) s.next (some (new_waiter subid fd));
    next = s.next + 1;
    clock = s.clock + 1;
  }

  abbrev with_none : ℕ → State Msg
  with_none fd = record s {
    heap = update (update s.heap s.next (some (blank fd))) s.next none;
    next = s.next + 1;
    clock = s.clock + 1;
  }

  subscribe_free :
      (fd : ℕ)
      → lookup subid s.subscriptions ≡ none
      → register_subscriber env fd subid s ≡ done (s.next, succeeded) (with_subscription fd)
  unfolding register_subscriber listener_add_subscription
  subscribe_free fd free = rw (memory s.clock, free, ==_refl s.next) refl

  subscribe_taken :
      (fd p : ℕ)
      → lookup subid s.subscriptions ≡ some p
      → register_subscriber env fd subid s ≡ done (s.next, failed) (with_none fd)
  unfolding register_subscriber listener_add_subscription
  subscribe_taken fd p e = rw (memory s.clock, e, ==_refl s.next) refl

  Represents-subscribed :
      (fd : ℕ)
      → lookup subid s.subscriptions ≡ none
      → Represents (with_subscription fd) (set_subscription subid (some fd) r)
  Represents-subscribed fd absent = record {
    consistent =
        subst (Returns Consistent) (subscribe_free fd absent)
          (register_subscriber-Keeps env memory fd subid s h.consistent);
    requests = λ n i.
        ground (arith, h.requests n i, request_not_next s h.consistent (get_request_key n i));
    subscriptions = λ u. ground (
      arith,
      bytes_eq_iff subid u,
      lookup-insert subid u s.next s.subscriptions,
      h.subscriptions u,
      subscription_not_next s h.consistent u,
    );
  }

  Represents-refused :
      (fd p : ℕ) → lookup subid s.subscriptions ≡ some p → Represents (with_none fd) r
  Represents-refused fd p e = record {
    consistent =
        subst (Returns Consistent) (subscribe_taken fd p e)
          (register_subscriber-Keeps env memory fd subid s h.consistent);
    requests = λ n i.
        ground (arith, h.requests n i, request_not_next s h.consistent (get_request_key n i));
    subscriptions = λ u. ground (arith, h.subscriptions u, subscription_not_next s h.consistent u);
  }

  pub add_subscription-Refines :
      (fd : ℕ)
      → Returns
          (Refines (add_subscription subid fd) r)
          (run_operation env (add_subscription subid fd) s)
  unfolding run_operation perform
  add_subscription-Refines fd = elim (Option-cases (lookup subid s.subscriptions)) [
    | inl absent ↦ rw (subscribe_free fd absent) (
        refines (add_subscription subid fd) r (status succeeded) _
          (set_subscription subid (some fd) r) (rw (perform, h.subscriptions subid, absent) refl)
          (Represents-subscribed fd absent))
    | inr (p, e) ↦
        let (w, held) = live_waiter _ (live_of_subscription s subid p h.consistent e) in
        rw (subscribe_taken fd p e) (
          refines (add_subscription subid fd) r (status failed) _ r
            (rw (perform, h.subscriptions subid, e, held) refl) (Represents-refused fd p e))
  ]

  unsubscribe_found :
      (p : ℕ)
      → lookup subid s.subscriptions ≡ some p
      → listener_remove_subscription subid s
        ≡ done succeeded
            (record s { subscriptions = remove subid s.subscriptions; heap = update s.heap p none })
  unfolding listener_remove_subscription waiter_destroy
  unsubscribe_found p e =
      let (w, held) = live_waiter _ (live_of_subscription s subid p h.consistent e) in
      rw (e, held) refl

  Represents-unsubscribed :
      (p : ℕ)
      → lookup subid s.subscriptions ≡ some p
      → Represents
          (record s { subscriptions = remove subid s.subscriptions; heap = update s.heap p none })
          (set_subscription subid none r)
  Represents-unsubscribed p e = record {
    consistent =
        subst (Returns Consistent) (unsubscribe_found p e)
          (remove_subscription-Keeps subid s h.consistent);
    requests = λ n i. ground (
      arith,
      h.requests n i,
      (λ (f : lookup (get_request_key n i) s.requests ≡ some p).
          tables_disjoint s h.consistent (get_request_key n i) subid p f e),
    );
    subscriptions = λ u. ground (
      arith,
      bytes_eq_iff subid u,
      lookup-remove subid u s.subscriptions,
      h.subscriptions u,
      subscription_other s h.consistent subid u p e,
    );
  }

  pub remove_subscription-Refines :
      Returns
        (Refines (remove_subscription subid) r)
        (run_operation env (remove_subscription subid) s)
  unfolding run_operation perform listener_remove_subscription
  remove_subscription-Refines = elim (Option-cases (lookup subid s.subscriptions)) [
    | inl absent ↦ rw absent (
        refines (remove_subscription subid) r (status failed) _ r
          (rw (perform, h.subscriptions subid, absent) refl) h)
    | inr (p, e) ↦
        let (w, held) = live_waiter _ (live_of_subscription s subid p h.consistent e) in
        rw (unsubscribe_found p e) (
          refines (remove_subscription subid) r (status succeeded) _ (set_subscription subid none r)
            (rw (perform, h.subscriptions subid, e, held) refl) (Represents-unsubscribed p e))
  ]
