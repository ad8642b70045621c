-- ===== src/Registry/Keys.antt =====
-- The state of src/main.c represents a registry: the sockets that are found through its keys and
-- waiters.
use sib_tcp.Prelude.{
  ℕ, ◌≤◌, ◌≡◌, ◌≢◌, refl, ap, false, Option, none, some, ℤ, Bytes, ◌&&◌, arith, bytes_eq,
  bytes_eq_iff, int_eq, int_eq_iff,
}
use sib_tcp.Key.{get_request_key}
use sib_tcp.Key.Unique.{get_request_key-injective}
use sib_tcp.Table.{lookup}
use sib_tcp.State.{State, Waiter, update}
use sib_tcp.Consistency.{IsConsistent, live}
use sib_tcp.Consistency.Steps.{live_of_request, live_of_subscription}
use sib_tcp.Table.Uses.{uses_of_lookup, lookup-injective}
use sib_tcp.Registry.{Registry}

-- Two requests have the same key just if they have the same name.
pub same_key :
    (n m : Bytes) (i j : ℤ)
    → bytes_eq (get_request_key n i) (get_request_key m j) ≡ (bytes_eq n m && int_eq i j)
same_key n m i j = ground (
  arith,
  bytes_eq_iff (get_request_key n i) (get_request_key m j),
  bytes_eq_iff n m,
  int_eq_iff i j,
  get_request_key-injective n m i j,
)

module _ {Msg : Type 0} where
  abbrev pub fd_of : Option (Waiter Msg) → Option ℕ
  fd_of none = none
  fd_of (some w) = some w.fd

  abbrev pub fd_at : (ℕ → Option (Waiter Msg)) → Option ℕ → Option ℕ
  fd_at heap none = none
  fd_at heap (some p) = fd_of (heap p)

  pub record Represents (s : State Msg) (r : Registry) : Type 0 where
    pub consistent : IsConsistent s
    pub requests :
        (n : Bytes) (i : ℤ)
        → r.requests n i ≡ fd_at s.heap (lookup (get_request_key n i) s.requests)
    pub subscriptions : (u : Bytes) → r.subscriptions u ≡ fd_at s.heap (lookup u s.subscriptions)

  -- A cell that was free, or that nothing in question points to, may change.
  pub fd_at-update :
      (heap : ℕ → Option (Waiter Msg)) (p : ℕ) (v : Option (Waiter Msg)) (o : Option ℕ)
      → (o ≢ some p)
      → fd_at (update heap p v) o ≡ fd_at heap o
  fd_at-update heap p v none h = refl
  fd_at-update heap p v (some q) h = ap fd_of (ground arith)

  live_le : (o : Option (Waiter Msg)) → live o ≤ 1
  live_le none = omega arith
  live_le (some w) = omega arith

  -- No table points to the next cell.
  pub request_not_next :
      (s : State Msg) → IsConsistent s → (k : Bytes) → lookup k s.requests ≢ some s.next
  request_not_next s h k e =
      absurd (ground (arith, live_of_request s k s.next h e, h.fresh s.next (omega arith)))

  pub subscription_not_next :
      (s : State Msg) → IsConsistent s → (k : Bytes) → lookup k s.subscriptions ≢ some s.next
  subscription_not_next s h k e =
      absurd (ground (arith, live_of_subscription s k s.next h e, h.fresh s.next (omega arith)))

  -- A waiter stands in one table, under one key.
  pub request_other :
      (s : State Msg)
      → IsConsistent s
      → (k j : Bytes) (p : ℕ) → lookup k s.requests ≡ some p
      → bytes_eq k j ≡ false
      → lookup j s.requests ≢ some p
  request_other s h k j p e n f = ground (
    arith,
    n,
    bytes_eq_iff k j,
    lookup-injective p k j s.requests (omega (arith, h.owned p, live_le (s.heap p))) e f,
  )

  pub subscription_other :
      (s : State Msg)
      → IsConsistent s
      → (k j : Bytes) (p : ℕ) → lookup k s.subscriptions ≡ some p
      → bytes_eq k j ≡ false
      → lookup j s.subscriptions ≢ some p
  subscription_other s h k j p e n f = ground (
    arith,
    n,
    bytes_eq_iff k j,
    lookup-injective p k j s.subscriptions (omega (arith, h.owned p, live_le (s.heap p))) e f,
  )

  pub tables_disjoint :
      (s : State Msg)
      → IsConsistent s
      → (k u : Bytes) (p : ℕ) → lookup k s.requests ≡ some p
      → lookup u s.subscriptions ≢ some p
  tables_disjoint s h k u p e f = omega (
    arith,
    h.owned p,
    live_le (s.heap p),
    uses_of_lookup p k s.requests e,
    uses_of_lookup p u s.subscriptions f,
  )
