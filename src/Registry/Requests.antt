-- ===== src/Registry/Requests.antt =====
-- The operations on pending requests do what the registry promises.
use sib_tcp.Prelude.{
  ℕ, ◌≡◌, refl, ap, sym, subst, ◌∙◌, inl, inr, true, none, some, ℤ, Bytes, arith, Option-cases,
}
use sib_tcp.Key.{get_request_key}
use sib_tcp.Table.{lookup, remove, lookup-insert, lookup-remove}
use sib_tcp.World.{Env}
use sib_tcp.State.{State, update, done}
use sib_tcp.Listener.{listener_get_request, listener_remove_request, succeeded, failed}
use sib_tcp.Waiters.{waiter_destroy}
use sib_tcp.Waiting.Registering.{with_request, with_dropped, register_free, register_taken}
use sib_tcp.Consistency.{Returns}
use sib_tcp.Consistency.Steps.{
  Consistent, live_waiter, live_of_request, remove_request-Keeps, register_request-Keeps,
}
use sib_tcp.Registry.{
  Registry, Operation, add_request, get_request, remove_request, Answer, socket, status,
  set_request, perform, run_operation, socket_of,
}
use sib_tcp.Registry.Keys.{
  Represents, same_key, request_not_next, subscription_not_next, request_other, tables_disjoint,
}

-- What the operation gives is what the registry gives, and it stays represented.
abbrev pub Refines : {Msg : Type 0} → Operation → Registry → Answer → State Msg → Type 0
Refines op r a t = (a ≡ (perform op r).0) × Represents t (perform op r).1

pub refines :
    {Msg : Type 0} (op : Operation) (r : Registry) (a : Answer) (t : State Msg) (u : Registry)
    → perform op r ≡ (a, u)
    → Represents t u
    → Refines op r a t
refines op r a t u e h = (sym (ap (λ x. x.0) e), subst (Represents t) (sym (ap (λ x. x.1) e)) h)

module _ {Msg : Type 0} (env : Env) (memory : (t : ℕ) → env.allocates t ≡ true) (s : State Msg)
    (r : Registry) (h : Represents s r) (node : Bytes) (msgnum : ℤ) where
  abbrev key : Bytes
  key = get_request_key node msgnum

  pub get_request-Refines :
      Returns (Refines (get_request node msgnum) r) (run_operation env (get_request node msgnum) s)
  unfolding run_operation perform listener_get_request socket_of
  get_request-Refines = elim (Option-cases (lookup key s.requests)) [
    | inl absent ↦
        rw (absent, socket_of) (ap socket (sym (h.requests node msgnum ∙ rw absent refl)), h)
    | inr (p, e) ↦
        let (w, held) = live_waiter _ (live_of_request s key p h.consistent e) in
        rw (e, socket_of, held) (ap socket (sym (h.requests node msgnum ∙ rw (e, held) refl)), h)
  ]

  -- A change of one name, in the registry and in the state.
  Represents-added :
      (fd : ℕ)
      → lookup key s.requests ≡ none
      → Represents (with_request env fd node msgnum s) (set_request node msgnum (some fd) r)
  Represents-added fd absent = record {
    consistent =
        subst (Returns Consistent) (register_free env fd node msgnum s (memory s.clock) absent)
          (register_request-Keeps env fd node msgnum s h.consistent);
    requests = λ n i. ground (
      arith,
      same_key node n msgnum i,
      lookup-insert key (get_request_key n i) s.next s.requests,
      h.requests n i,
      request_not_next s h.consistent (get_request_key n i),
    );
    subscriptions = λ u. ground (arith, h.subscriptions u, subscription_not_next s h.consistent u);
  }

  Represents-dropped :
      (fd p : ℕ) → lookup key s.requests ≡ some p → Represents (with_dropped env fd node msgnum s) r
  Represents-dropped fd p e = record {
    consistent =
        subst (Returns Consistent) (register_taken env fd node msgnum s p (memory s.clock) e)
          (register_request-Keeps env fd node msgnum s h.consistent);
    requests = λ n i.
        ground (arith, h.requests n i, request_not_next s h.consistent (get_request_key n i));
    subscriptions = λ u. ground (arith, h.subscriptions u, subscription_not_next s h.consistent u);
  }

  pub add_request-Refines :
      (fd : ℕ)
      → Returns
          (Refines (add_request node msgnum fd) r)
          (run_operation env (add_request node msgnum fd) s)
  unfolding run_operation perform
  add_request-Refines fd = elim (Option-cases (lookup key s.requests)) [
    | inl absent ↦ rw (register_free env fd node msgnum s (memory s.clock) absent) (
        refines (add_request node msgnum fd) r (status succeeded) _
          (set_request node msgnum (some fd) r) (rw (perform, h.requests node msgnum, absent) refl)
          (Represents-added fd absent))
    | inr (p, e) ↦
        let (w, held) = live_waiter _ (live_of_request s key p h.consistent e) in
        rw (register_taken env fd node msgnum s p (memory s.clock) e) (
          refines (add_request node msgnum fd) r (status failed) _ r
            (rw (perform, h.requests node msgnum, e, held) refl) (Represents-dropped fd p e))
  ]

  remove_found :
      (p : ℕ)
      → lookup key s.requests ≡ some p
      → listener_remove_request node msgnum s
        ≡ done succeeded
            (record s { requests = remove key s.requests; heap = update s.heap p none })
  unfolding listener_remove_request waiter_destroy
  remove_found p e =
      let (w, held) = live_waiter _ (live_of_request s key p h.consistent e) in rw (e, held) refl

  Represents-removed :
      (p : ℕ)
      → lookup key s.requests ≡ some p
      → Represents
          (record s { requests = remove key s.requests; heap = update s.heap p none })
          (set_request node msgnum none r)
  Represents-removed p e = record {
    consistent =
        subst (Returns Consistent) (remove_found p e)
          (remove_request-Keeps node msgnum s h.consistent);
    requests = λ n i. ground (
      arith,
      same_key node n msgnum i,
      lookup-remove key (get_request_key n i) s.requests,
      h.requests n i,
      request_other s h.consistent key (get_request_key n i) p e,
    );
    subscriptions =
        λ u. ground (arith, h.subscriptions u, tables_disjoint s h.consistent key u p e);
  }

  pub remove_request-Refines :
      Returns
        (Refines (remove_request node msgnum) r)
        (run_operation env (remove_request node msgnum) s)
  unfolding run_operation perform listener_remove_request
  remove_request-Refines = elim (Option-cases (lookup key s.requests)) [
    | inl absent ↦ rw absent (
        refines (remove_request node msgnum) r (status failed) _ r
          (rw (perform, h.requests node msgnum, absent) refl) h)
    | inr (p, e) ↦
        let (w, held) = live_waiter _ (live_of_request s key p h.consistent e) in
        rw (remove_found p e) (
          refines (remove_request node msgnum) r (status succeeded) _
            (set_request node msgnum none r) (rw (perform, h.requests node msgnum, e, held) refl)
            (Represents-removed p e))
  ]
