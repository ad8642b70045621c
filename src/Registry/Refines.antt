-- ===== src/Registry/Refines.antt =====
-- The tables of src/main.c implement the registry.
use sib_tcp.Prelude.{ℕ, ◌≡◌, refl, true, List, [], ◌∷◌}
use mathlib.Core.Path.{ap₂}
use sib_tcp.World.{Env}
use sib_tcp.State.{State}
use sib_tcp.Consistency.{Returns, Returns-continue}
use sib_tcp.Registry.{
  Registry, Operation, add_request, get_request, remove_request, add_subscription, get_subscription,
  remove_subscription, Answer, perform, perform_all, run_operation, run_operations,
}
use sib_tcp.Registry.Keys.{Represents}
use sib_tcp.Registry.Requests.{
  Refines, add_request-Refines, get_request-Refines, remove_request-Refines,
}
use sib_tcp.Registry.Subscriptions.{
  add_subscription-Refines, get_subscription-Refines, remove_subscription-Refines,
}

-- The answers are the registry's, and it stays represented.
abbrev pub RefinesAll :
    {Msg : Type 0} → List Operation → Registry → List Answer → State Msg → Type 0
RefinesAll ops r answers t = (answers ≡ (perform_all ops r).0) × Represents t (perform_all ops r).1

module _ {Msg : Type 0} (env : Env) (memory : (t : ℕ) → env.allocates t ≡ true) where
  run_operation-Refines :
      (op : Operation) (s : State Msg) (r : Registry)
      → Represents s r
      → Returns (Refines op r) (run_operation env op s)
  run_operation-Refines (add_request n i fd) s r h = add_request-Refines env memory s r h n i fd
  run_operation-Refines (get_request n i) s r h = get_request-Refines env memory s r h n i
  run_operation-Refines (remove_request n i) s r h = remove_request-Refines env memory s r h n i
  run_operation-Refines (add_subscription u fd) s r h =
      add_subscription-Refines env memory s r h u fd
  run_operation-Refines (get_subscription u) s r h = get_subscription-Refines env memory s r h u
  run_operation-Refines (remove_subscription u) s r h =
      remove_subscription-Refines env memory s r h u

  -- While memory does not run out, any sequence of operations on the two tables, from a state that
  -- represents a registry, runs to its end without a fault, gives the answers that the registry
  -- gives, and leaves a state that represents what the registry has become.
  pub run_operations-RefinesAll :
      (ops : List Operation) (s : State Msg) (r : Registry)
      → Represents s r
      → Returns (RefinesAll ops r) (run_operations env ops s)
  unfolding run_operations perform_all
  run_operations-RefinesAll [] s r h = (refl, h)
  run_operations-RefinesAll (op ∷ ops) s r h =
      Returns-continue (Refines op r) (RefinesAll (op ∷ ops) r) (run_operation env op s) _
        (run_operation-Refines op s r h)
        λ a t x.
          Returns-continue (RefinesAll ops (perform op r).1) (RefinesAll (op ∷ ops) r)
            (run_operations env ops t) _ (run_operations-RefinesAll ops t (perform op r).1 x.1)
            λ rest u y. (ap₂ ◌∷◌ x.0 y.0, y.1)
