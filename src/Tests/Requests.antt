-- ===== src/Tests/Requests.antt =====
-- The theorems about keys, sockets, the shared state and requests, at concrete inputs.
use sib_tcp.Prelude.{
  ℕ, ℤ, pos, negsuc, false, bytes_eq, none, some, List, [], ◌∷◌, ◌++◌, codes, ◌≡◌, refl, arith, ◌+◌,
  ◌≤◌, All, Bytes, length,
}
use sib_tcp.Key.{get_request_key}
use sib_tcp.Key.Unique.{get_request_key-injective}
use sib_tcp.Key.Bounds.{IsDigit, get_request_key_bounded}
use sib_tcp.Table.{lookup}
use sib_tcp.World.{Event, join_cnf, leave_cnf, wakes, adds_request}
use sib_tcp.State.{dbus}
use sib_tcp.Socket.{client_send_message}
use sib_tcp.Socket.Delivery.{
  client_send_message-Delivered, client_send_message-SentPart, Delivered, SentPart,
}
use sib_tcp.Waiting.{run_events}
use sib_tcp.Consistency.{Returns, IsConsistent}
use sib_tcp.Consistency.Events.{run_events-IsConsistent}
use sib_tcp.Request.{buffer}
use sib_tcp.Request.Handlers.{join_exchange}
use sib_tcp.Request.Operations.{joins, handler, response}
use sib_tcp.Request.Completing.{completed}
use sib_tcp.Waiting.Registering.{new_waiter}
use sib_tcp.Request.Answering.{Answered}
use sib_tcp.Request.Served.{served, unbuilt_stays}
use sib_tcp.Request.Duplicate.{duplicate_dropped}
use sib_tcp.Tests.{
  Note, toy, system, idle_state, idle_state-IsConsistent, pending_state, pending_state-IsConsistent,
  system-Delivers,
}
use sib_tcp.Ssap.{join, other, send_join}

get_request_key-injective_example : (codes "n_1" ≡ codes "n_1") × (pos 23 ≡ pos 23)
get_request_key-injective_example =
    get_request_key-injective (codes "n_1") (codes "n_1") (pos 23) (pos 23) refl

get_request_key_bounded_example :
    (digits : Bytes) × (get_request_key (codes "kp") (negsuc 2147483647)
      ≡ codes "kp" ++ (b'_' ∷ digits))
    × All IsDigit digits
    × (length (get_request_key (codes "kp") (negsuc 2147483647)) ≤ 2 + 11)
get_request_key_bounded_example =
    get_request_key_bounded (codes "kp") (negsuc 2147483647) (omega arith)

abbrev request : Note
request = record {
  name = join;
  kind = other;
  node = codes "kp";
  space = codes "x";
  num = pos 12;
  status = pos 0;
  subid = [];
  payload = none;
}

-- Another client's request comes and goes; then the join of this one is confirmed.
abbrev before : List Event
before =
    wakes
    ∷ adds_request (codes "b") (pos 1) 5
    ∷ leave_cnf (codes "x") (codes "b") (pos 1) (pos 0)
    ∷ []

abbrev confirming : ℤ → List (List Event)
confirming v = [] ∷ (before ++ (join_cnf (codes "x") (codes "kp") (pos 12) v ∷ [])) ∷ []

run_events-IsConsistent_example :
    Returns
      (λ _ t. IsConsistent t)
      (run_events (toy (λ v. v)) (system (pos 0) []) before idle_state)
run_events-IsConsistent_example =
    run_events-IsConsistent (toy (λ v. v)) (system (pos 0) []) (λ t. refl) before idle_state
      idle_state-IsConsistent

client_send_message-Delivered_example :
    Returns
      (Delivered 4 (codes "hello") idle_state)
      (client_send_message (system (pos 0) []) 4 (codes "hello") idle_state)
client_send_message-Delivered_example =
    client_send_message-Delivered (system (pos 0) []) 4 (system-Delivers (pos 0) [] 4)
      (codes "hello") idle_state (omega arith)

client_send_message-SentPart_example :
    SentPart 4
      (codes "hello")
      idle_state
      (client_send_message (system (pos 0) []) 4 (codes "hello") idle_state)
client_send_message-SentPart_example =
    client_send_message-SentPart (system (pos 0) []) 4 (codes "hello") idle_state

served_example :
    Returns
      (λ _ t.
        Answered
          (toy (λ v. v))
          (system (pos 0) (confirming (pos 0)))
          request
          4
          (codes "kp!")
          0
          []
          t)
      (handler (toy (λ v. v)) (system (pos 0) (confirming (pos 0))) joins 4 request idle_state)
unfolding lookup buffer join_exchange bytes_eq get_request_key
served_example =
    served (toy (λ v. v)) (system (pos 0) (confirming (pos 0))) joins 4 request idle_state _
      (codes "x") (pos 0) none ([] ∷ []) before [] [] (codes "kp!") idle_state-IsConsistent
      (λ t. refl) refl refl refl refl (tt, tt) (tt, (tt, (refl, tt))) tt refl
      (system-Delivers (pos 0) (confirming (pos 0)) 4) (omega arith)

unbuilt_stays_example :
    Returns
      (λ _ t.
        (lookup (codes "kp_12") t.requests ≡ some 0)
        × (t.heap 0
            ≡ some (
                completed
                  (new_waiter (codes "kp_12") 4)
                  (response (toy (λ v. v)) joins (codes "x") (codes "kp") (pos 12) (pos 9) none)
                  false))
        × (t.trace ≡ dbus (send_join (codes "x") (codes "kp") (pos 12) []) ∷ []))
      (handler (toy (λ v. v)) (system (pos 0) (confirming (pos 9))) joins 4 request idle_state)
unfolding lookup buffer join_exchange bytes_eq get_request_key
unbuilt_stays_example =
    unbuilt_stays (toy (λ v. v)) (system (pos 0) (confirming (pos 9))) joins 4 request idle_state _
      (codes "x") (pos 9) none ([] ∷ []) before [] [] idle_state-IsConsistent (λ t. refl) refl refl
      refl refl (tt, tt) (tt, (tt, (refl, tt))) tt refl

duplicate_dropped_example :
    Returns
      (λ _ t.
        (t.trace ≡ [])
        × (t.requests ≡ (codes "kp_12", 0) ∷ [])
        × (t.subscriptions ≡ [])
        × ((q : ℕ) → t.heap q ≡ (pending_state (codes "kp_12")).heap q))
      (handler (toy (λ v. v)) (system (pos 0) []) joins 4 request (pending_state (codes "kp_12")))
unfolding lookup bytes_eq get_request_key
duplicate_dropped_example =
    duplicate_dropped (toy (λ v. v)) (system (pos 0) []) joins 4 request
      (pending_state (codes "kp_12")) 0 (pending_state-IsConsistent (codes "kp_12")) refl refl
