-- ===== src/Tests/Registering.antt =====
-- The theorem about the registry, at concrete inputs.
use sib_tcp.Prelude.{refl, List, [], ◌∷◌, codes, pos}
use sib_tcp.Table.{lookup}
use sib_tcp.Consistency.{Returns}
use sib_tcp.Registry.{
  empty, Operation, add_request, get_request, remove_request, add_subscription, remove_subscription,
  run_operations,
}
use sib_tcp.Registry.Keys.{Represents}
use sib_tcp.State.{◌>>◌}
use sib_tcp.Listener.{listener_add_request, listener_remove_request, listener_remove_subscription}
use sib_tcp.Waiting.{register_waiter, register_subscriber}
use sib_tcp.Registry.Undoing.{Undone, registration-Undone}
use sib_tcp.Registry.Refines.{RefinesAll, run_operations-RefinesAll}
use sib_tcp.Tests.{system, idle_state, idle_state-IsConsistent}

idle_state-Represents : Represents idle_state empty
unfolding lookup
idle_state-Represents = record {
  consistent = idle_state-IsConsistent;
  requests = λ n i. refl;
  subscriptions = λ u. refl;
}

-- A request is added twice, found, and removed; a subscription goes in between.
abbrev operations : List Operation
operations =
    add_request (codes "n1") (pos 7) 4
    ∷ add_request (codes "n1") (pos 7) 5
    ∷ add_subscription (codes "s1") 6
    ∷ get_request (codes "n1") (pos 7)
    ∷ remove_request (codes "n1") (pos 7)
    ∷ get_request (codes "n1") (pos 7)
    ∷ remove_subscription (codes "s1")
    ∷ []

run_operations-RefinesAll_example :
    Returns (RefinesAll operations empty) (run_operations (system (pos 0) []) operations idle_state)
run_operations-RefinesAll_example =
    run_operations-RefinesAll (system (pos 0) []) (λ t. refl) operations idle_state empty
      idle_state-Represents

registration-Undone_example :
    Returns (Undone idle_state) (
      (do
        register_waiter (system (pos 0) []) 4 (listener_add_request (codes "n1") (pos 7))
        listener_remove_request (codes "n1") (pos 7))
        idle_state)
    × Returns (Undone idle_state) (
        (do
          register_subscriber (system (pos 0) []) 4 (codes "s1")
          listener_remove_subscription (codes "s1"))
          idle_state)
unfolding lookup
registration-Undone_example =
    registration-Undone (system (pos 0) []) 4 idle_state idle_state-IsConsistent refl (codes "n1")
      (pos 7) (codes "s1") refl refl
