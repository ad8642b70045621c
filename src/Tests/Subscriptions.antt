-- ===== src/Tests/Subscriptions.antt =====
-- The theorems about subscriptions, at concrete inputs.
use sib_tcp.Prelude.{pos, negsuc, none, some, [], ◌∷◌, codes, bytes_eq, ◌≡◌, refl}
use sib_tcp.Ssap.{subscribe, unsubscribe, cnf, other}
use sib_tcp.Key.{get_request_key}
use sib_tcp.Table.{lookup}
use sib_tcp.State.{◌>>◌}
use sib_tcp.Socket.Delivery.{received}
use sib_tcp.Callbacks.{handle_subscription_ind, sub_wake_thread}
use sib_tcp.Waiting.{wait_rounds}
use sib_tcp.Consistency.{Returns, Faults}
use sib_tcp.Request.{buffer, query_type_of}
use sib_tcp.Unsubscribe.{listener_handle_unsubscribe}
use sib_tcp.Unsubscribe.Faults.{duplicate_unsubscribe}
use sib_tcp.Subscription.Waking.{WokenBlank, wake_drops_indication}
use sib_tcp.Subscribe.{on_confirmation}
use sib_tcp.Subscribe.Faults.{refused_subscription-Faults}
use sib_tcp.Service.{listener_handle_request}
use sib_tcp.Service.Refusing.{refused_request-Faults}
use sib_tcp.Tests.{
  Note, toy, system, idle_state, pending_state, pending_state-IsConsistent, subscribed_state,
  subscribed_state-IsConsistent,
}

abbrev unsubscribing : Note
unsubscribing = record {
  name = unsubscribe;
  kind = other;
  node = codes "kp";
  space = codes "x";
  num = pos 12;
  status = pos 0;
  subid = codes "i";
  payload = none;
}

abbrev subscribing : Note
subscribing = record unsubscribing { name = subscribe }

-- The daemon confirms with the status 0, not 2.
abbrev confirmation : Note
confirmation = record subscribing { kind = cnf }

wake_drops_indication_example :
    Returns
      (λ _ t. WokenBlank 0 t)
      ((do
        handle_subscription_ind
            (toy (λ v. v))
            (codes "x")
            (codes "kp")
            (pos 1)
            (pos 1)
            (codes "i")
            (some (codes "new"))
            none
        sub_wake_thread)
        subscribed_state)
unfolding lookup bytes_eq
wake_drops_indication_example =
    wake_drops_indication (toy (λ v. v)) (codes "x") (codes "kp") (pos 1) (pos 1) (codes "i")
      (some (codes "new")) none 0 subscribed_state subscribed_state-IsConsistent refl

duplicate_unsubscribe_example :
    Returns
      (λ _ t.
        (t.trace ≡ [])
        × (lookup (codes "kp_12") t.requests ≡ none)
        × (t.heap 0 ≡ none)
        × Faults (λ u. u.trace ≡ []) (wait_rounds (toy (λ v. v)) (system (pos 0) []) ([] ∷ []) 0 t))
      (listener_handle_unsubscribe
        (toy (λ v. v))
        (system (pos 0) [])
        5
        unsubscribing
        (pending_state (codes "kp_12")))
unfolding lookup bytes_eq get_request_key
duplicate_unsubscribe_example =
    duplicate_unsubscribe (toy (λ v. v)) (system (pos 0) []) 5 unsubscribing
      (pending_state (codes "kp_12")) 0 [] (pending_state-IsConsistent (codes "kp_12")) refl refl

refused_subscription-Faults_example :
    Faults
      (λ t. received 4 t.trace ≡ received 4 [])
      (on_confirmation
        (toy (λ v. v))
        (system (pos 0) [])
        4
        subscribing
        0
        (some confirmation)
        (pending_state (codes "kp_12")))
unfolding lookup buffer
refused_subscription-Faults_example =
    refused_subscription-Faults (toy (λ v. v)) (system (pos 0) []) 4 subscribing
      (pending_state (codes "kp_12")) 0 confirmation 4 (codes "kp!") refl refl refl refl

refused_request-Faults_example :
    Faults
      (λ t. received 4 t.trace ≡ received 4 [])
      (listener_handle_request (toy (λ v. pos 0)) (system (negsuc 0) []) 4 subscribing idle_state)
unfolding lookup buffer query_type_of
refused_request-Faults_example =
    refused_request-Faults (toy (λ v. pos 0)) (system (negsuc 0) []) 4 subscribing idle_state 4 refl
      refl tt refl (λ v. (codes "kp!", refl))
