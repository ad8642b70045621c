-- ===== src/Request/Duplicate.antt =====
-- A request whose key is that of a request that is pending.
use sib_tcp.Prelude.{ℕ, ◌≡◌, refl, true, some, arith}
use sib_tcp.Ssap.{Sibmsg}
use sib_tcp.Key.{get_request_key}
use sib_tcp.Table.{lookup}
use sib_tcp.World.{Env}
use sib_tcp.State.{State}
use sib_tcp.Waiting.Registering.{register_taken}
use sib_tcp.Consistency.{IsConsistent, Returns}
use sib_tcp.Request.{handle_request}
use sib_tcp.Request.Operations.{Operation, handler, handler_lem}

module _ {Msg : Type 0} (lib : Sibmsg Msg) (env : Env) (op : Operation) (fd : ℕ) (msg : Msg)
    (s : State Msg) where
  -- A request whose key is taken by one that is pending is dropped: its handler returns, nothing is
  -- sent to any client or to the daemon, the tables are as they were, and so is every waiter.
  pub duplicate_dropped :
      (p : ℕ)
      → IsConsistent s
      → env.allocates s.clock ≡ true
      → lookup (get_request_key (lib.get_nodeid msg) (lib.get_msgnumber msg)) s.requests ≡ some p
      → Returns
          (λ _ t.
            (t.trace ≡ s.trace)
            × (t.requests ≡ s.requests)
            × (t.subscriptions ≡ s.subscriptions)
            × ((q : ℕ) → t.heap q ≡ s.heap q))
          (handler lib env op fd msg s)
  unfolding handle_request
  duplicate_dropped p h memory pending =
      rw
        (
          handler_lem lib env op fd msg,
          register_taken env fd (lib.get_nodeid msg) (lib.get_msgnumber msg) s p memory pending,
        )
        (refl, refl, refl, λ q. ground (arith, h.fresh s.next))
