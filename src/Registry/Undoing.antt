-- ===== src/Registry/Undoing.antt =====
-- A registration that is taken back leaves the tables and the waiters as they were.
use sib_tcp.Prelude.{ℕ, ◌≡◌, refl, true, none, ℤ, Bytes, arith, bytes_eq_refl, ==_refl}
use sib_tcp.Key.{get_request_key}
use sib_tcp.Table.{lookup, lookup-insert, remove-insert}
use sib_tcp.World.{Env}
use sib_tcp.State.{State, ◌>>◌}
use sib_tcp.Listener.{
  succeeded, listener_add_request, listener_remove_request, listener_add_subscription,
  listener_remove_subscription,
}
use sib_tcp.Waiters.{waiter_destroy}
use sib_tcp.Waiting.{register_waiter, register_subscriber}
use sib_tcp.Waiting.Registering.{register_free}
use sib_tcp.Consistency.{IsConsistent, Returns}

-- The removal succeeded, and tables and waiters are those of `s` again.
abbrev pub Undone : {Msg : Type 0} → State Msg → ℤ → State Msg → Type 0
Undone s r t =
    (r ≡ succeeded)
    × (t.requests ≡ s.requests)
    × (t.subscriptions ≡ s.subscriptions)
    × ((p : ℕ) → t.heap p ≡ s.heap p)

module _ {Msg : Type 0} (env : Env) (fd : ℕ) (s : State Msg) (h : IsConsistent s)
    (memory : env.allocates s.clock ≡ true) where
  request-Undone :
      (node : Bytes) (msgnum : ℤ)
      → lookup (get_request_key node msgnum) s.requests ≡ none
      → Returns (Undone s) (
          (do
            register_waiter env fd (listener_add_request node msgnum)
            listener_remove_request node msgnum)
            s)
  unfolding listener_remove_request waiter_destroy
  request-Undone node msgnum free =
      rw
        (
          register_free env fd node msgnum s memory free,
          lookup-insert key key s.next s.requests,
          bytes_eq_refl key,
          ==_refl s.next,
        )
        (refl, remove-insert key s.next s.requests free, refl, λ p. ground (arith, h.fresh s.next))
    where
      key : Bytes
      key = get_request_key node msgnum

  subscription-Undone :
      (subid : Bytes)
      → lookup subid s.subscriptions ≡ none
      → Returns
          (Undone s)
          ((do register_subscriber env fd subid; listener_remove_subscription subid) s)
  unfolding register_subscriber listener_add_subscription listener_remove_subscription
      waiter_destroy
  subscription-Undone subid free =
      rw
        (
          memory,
          free,
          ==_refl s.next,
          lookup-insert subid subid s.next s.subscriptions,
          bytes_eq_refl subid,
          ==_refl s.next,
        )
        (
          refl,
          refl,
          remove-insert subid s.next s.subscriptions free,
          λ p. ground (arith, h.fresh s.next),
        )

  -- In a consistent state, with memory, adding a new waiter under a key or a subscription id that is
  -- free and then removing it succeeds and leaves both tables, in their order, and every waiter as
  -- they were.
  pub registration-Undone :
      (node : Bytes) (msgnum : ℤ) (subid : Bytes)
      → lookup (get_request_key node msgnum) s.requests ≡ none
      → lookup subid s.subscriptions ≡ none
      → Returns (Undone s) (
          (do
            register_waiter env fd (listener_add_request node msgnum)
            listener_remove_request node msgnum)
            s)
        × Returns
            (Undone s)
            ((do register_subscriber env fd subid; listener_remove_subscription subid) s)
  registration-Undone node msgnum subid new unknown =
      (request-Undone node msgnum new, subscription-Undone subid unknown)
