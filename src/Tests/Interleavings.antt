-- ===== src/Tests/Interleavings.antt =====
-- The theorems about interleavings, at concrete inputs.
use sib_tcp.Prelude.{pos, some, none, List, [], ◌∷◌, codes, bytes_eq, refl, arith}
use sib_tcp.Table.{lookup}
use sib_tcp.World.{Event, subscription_ind, removes_subscription, wakes}
use sib_tcp.Subscription.{Saved, indication, arrival_of, send_checked, probe}
use sib_tcp.Socket.{client_send_message, send_rounds, socket_broken}
use sib_tcp.Request.{buffer}
use sib_tcp.Waiting.{run_event}
use sib_tcp.Callbacks.{complete_found, handle_subscription_ind}
use sib_tcp.Listener.{listener_get_subscription, listener_remove_subscription}
use sib_tcp.Subscription.Standing.{Stands}
use sib_tcp.Waiting.Registering.{new_waiter}
use sib_tcp.Consistency.{Returns, Safely}
use sib_tcp.Interleaving.{
  Turn, own, other, later, completes, loop_step, filled, waiting, built, run,
}
use sib_tcp.Interleaving.Places.{Sound}
use sib_tcp.Interleaving.Safety.{InTime, run-Sound}
use sib_tcp.Interleaving.Loss.{Crashes, Overtaken, wakes-Crashes, run-Overtaken}
use sib_tcp.Tests.{toy, system, subscribed_state, subscribed_state-IsConsistent, system-Delivers}

abbrev noted : Saved
noted = record { nodeid = codes "kp"; spaceid = codes "x"; subid = codes "i" }

abbrev arrival : Event
arrival =
    subscription_ind (codes "x") (codes "kp") (pos 1) (pos 1) (codes "i") (some (codes "new")) none

subscribed_state-Stands : Stands (codes "i") 0 subscribed_state
unfolding lookup bytes_eq
subscribed_state-Stands = record { consistent = subscribed_state-IsConsistent; subscribed = refl }

-- The second half of the handler of an indication, whose first half was before.
abbrev second_half : Turn
second_half =
    completes (codes "x") (codes "kp") (pos 2) (pos 2) (codes "i") (some (codes "more")) none

-- An indication comes, is read and sent while the handler of another goes on; then one comes while
-- another subscription ends.
abbrev turns : List Turn
turns =
    own
    ∷ other arrival
    ∷ own
    ∷ own
    ∷ later
    ∷ own
    ∷ second_half
    ∷ other (removes_subscription (codes "j"))
    ∷ own
    ∷ other arrival
    ∷ own
    ∷ own
    ∷ own
    ∷ own
    ∷ []

turns-InTime :
    InTime
      (toy (λ v. v))
      (system (pos 0) [])
      (λ t. refl)
      (codes "i")
      0
      noted
      turns
      waiting
      subscribed_state
unfolding InTime loop_step lookup bytes_eq run_event complete_found handle_subscription_ind
    listener_get_subscription listener_remove_subscription buffer arrival_of send_checked
    client_send_message send_rounds socket_broken probe
turns-InTime = ((λ e. ground (arith, e)), tt)

run-Sound_example :
    Safely
      (Sound (codes "i") 0)
      (run (toy (λ v. v)) (system (pos 0) []) 0 noted turns waiting subscribed_state)
unfolding bytes_eq
run-Sound_example =
    run-Sound (toy (λ v. v)) (system (pos 0) []) (λ t. refl) (codes "i") 0 noted turns waiting
      subscribed_state
      (
        tt,
        (
          (tt, tt),
          (tt, (tt, (tt, (tt, (tt, ((refl, tt), (tt, ((tt, tt), (tt, (tt, (tt, (tt, tt)))))))))))),
        ),
      )
      turns-InTime subscribed_state-Stands

wakes-Crashes_example : Crashes (
    run (toy (λ v. v)) (system (pos 0) []) 0 noted (other wakes ∷ own ∷ []) filled subscribed_state)
wakes-Crashes_example =
    wakes-Crashes (toy (λ v. v)) (system (pos 0) []) 0 noted (codes "i") filled subscribed_state tt
      subscribed_state-Stands

run-Overtaken_example :
    Returns (Overtaken 0 (codes "kp!") (new_waiter (codes "i") 4) subscribed_state) (
      run
        (toy (λ v. v))
        (system (pos 0) [])
        0
        noted
        (own ∷ other arrival ∷ own ∷ own ∷ own ∷ own ∷ [])
        (built (indication (codes "kp!")))
        subscribed_state)
unfolding lookup bytes_eq
run-Overtaken_example =
    run-Overtaken (toy (λ v. v)) (system (pos 0) []) 0 noted (codes "x") (codes "kp") (pos 1)
      (pos 1) (codes "i") (some (codes "new")) none (codes "kp!") (new_waiter (codes "i") 4)
      subscribed_state refl refl (system-Delivers (pos 0) [] 4) (omega arith)
