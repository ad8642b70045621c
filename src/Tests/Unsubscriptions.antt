-- ===== src/Tests/Unsubscriptions.antt =====
-- The theorems about the end of a subscription, at concrete inputs.
use sib_tcp.Prelude.{
  refl, none, some, List, [], ◌∷◌, codes, bytes_eq, pos, arith, ◌==◌, if◌then◌else◌,
}
use sib_tcp.Ssap.{unsubscribe, subscribe, ind, other}
use sib_tcp.Key.{get_request_key}
use sib_tcp.Table.{lookup, insert}
use sib_tcp.World.{Event, unsubscribe_cnf, adds_request, join_cnf}
use sib_tcp.State.{State}
use sib_tcp.Consistency.{IsConsistent, Returns}
use sib_tcp.Request.{buffer}
use sib_tcp.Subscription.{subscription_round}
use sib_tcp.Subscription.Listening.{Listening}
use sib_tcp.Table.Uses.{uses}
use sib_tcp.Waiters.{waiter_new}
use sib_tcp.Listener.{listener_add_request}
use sib_tcp.Waiting.{register_waiter, run_event, run_events}
use sib_tcp.Subscription.Streaming.{Unsubscribes}
use sib_tcp.Subscription.Indicated.{Last, subscription_round-Last}
use sib_tcp.Waiting.Registering.{new_waiter}
use sib_tcp.Unsubscribe.{listener_handle_unsubscribe}
use sib_tcp.Unsubscribe.Handing.{HandedOver, listener_handle_unsubscribe-HandedOver}
use sib_tcp.Tests.{
  subscribed_state-IsConsistent, note, Note, toy, system, subscribed_state, system-Delivers,
}
use sib_tcp.Tests.Indications.{strings}

-- The request of the unsubscription waits on the waiter 1.
abbrev unsubscribing_state : State Note
unsubscribing_state = record subscribed_state {
  requests = (codes "kp_12", 1) ∷ [];
  heap = λ p.
      if p == 1
      then some (new_waiter (codes "kp_12") 4)
      else if p == 0
      then some (new_waiter (codes "i") 4)
      else none;
  next = 2;
}

-- Another client's request begins before the confirmation comes, and is answered after it.
abbrev confirming_among_others : List (List Event)
confirming_among_others =
    (adds_request (codes "n") (pos 3) 7
      ∷ unsubscribe_cnf (codes "x") (codes "kp") (pos 12) (pos 0) (codes "i")
      ∷ join_cnf (codes "x") (codes "n") (pos 3) (pos 0)
      ∷ [])
    ∷ []

unsubscribing_state-IsConsistent : IsConsistent unsubscribing_state
unfolding uses
unsubscribing_state-IsConsistent = record { owned = λ p. ground arith; fresh = λ p h. ground arith }

unsubscribing_state-Listening :
    Listening (codes "i") 0 (new_waiter (codes "i") 4) [] unsubscribing_state
unfolding lookup bytes_eq
unsubscribing_state-Listening = record {
  consistent = unsubscribing_state-IsConsistent;
  subscribed = refl;
  content = refl;
  quiet = refl;
}

among_others-Unsubscribes :
    Unsubscribes
      (toy (λ v. v))
      (system (pos 0) confirming_among_others)
      0
      strings
      (codes "i")
      (codes "kp!")
      unsubscribing_state
unfolding buffer run_events run_event register_waiter waiter_new listener_add_request
    get_request_key lookup insert bytes_eq
among_others-Unsubscribes = record {
  space = codes "x";
  node = codes "kp";
  msgnum = pos 12;
  status = pos 0;
  before = adds_request (codes "n") (pos 3) 7 ∷ [];
  after = join_cnf (codes "x") (codes "n") (pos 3) (pos 0) ∷ [];
  rest = [];
  comes = refl;
  first = (tt, tt);
  later = (tt, tt);
  asked = (1, refl);
  name = refl;
  kind = refl;
  same = refl;
  built = refl;
  few = omega arith;
}

subscription_round-Last_example :
    Returns
      (Last
        (toy (λ v. v))
        (system (pos 0) confirming_among_others)
        (λ t. refl)
        0
        strings
        (codes "i")
        unsubscribing_state
        (new_waiter (codes "i") 4)
        (codes "kp!"))
      (subscription_round
        (toy (λ v. v))
        (system (pos 0) confirming_among_others)
        0
        strings
        unsubscribing_state)
subscription_round-Last_example =
    subscription_round-Last (toy (λ v. v)) (system (pos 0) confirming_among_others) (λ t. refl) 0
      strings (codes "i") unsubscribing_state (new_waiter (codes "i") 4) (codes "kp!")
      unsubscribing_state-Listening (system-Delivers (pos 0) confirming_among_others 4)
      among_others-Unsubscribes

abbrev late : Note
late = note subscribe ind (codes "x") (codes "kp") (pos 13) (pos 0) (codes "i") none

listener_handle_unsubscribe-HandedOver_example :
    Returns
      (λ _ t.
        HandedOver
          (toy (λ v. v))
          (system (pos 0) confirming_among_others)
          (λ t. refl)
          4
          (note unsubscribe other (codes "x") (codes "kp") (pos 12) (pos 0) (codes "i") none)
          subscribed_state
          (codes "x")
          (pos 0)
          (codes "i")
          0
          (new_waiter (codes "i") 4)
          t)
      (listener_handle_unsubscribe
        (toy (λ v. v))
        (system (pos 0) confirming_among_others)
        4
        (note unsubscribe other (codes "x") (codes "kp") (pos 12) (pos 0) (codes "i") none)
        subscribed_state)
unfolding lookup bytes_eq get_request_key
listener_handle_unsubscribe-HandedOver_example =
    listener_handle_unsubscribe-HandedOver (toy (λ v. v)) (system (pos 0) confirming_among_others)
      (λ t. refl) 4
      (note unsubscribe other (codes "x") (codes "kp") (pos 12) (pos 0) (codes "i") none)
      subscribed_state (codes "x") (pos 0) (codes "i") 0 (new_waiter (codes "i") 4)
      (adds_request (codes "n") (pos 3) 7 ∷ [])
      (join_cnf (codes "x") (codes "n") (pos 3) (pos 0) ∷ []) [] subscribed_state-IsConsistent refl
      refl refl ((tt, tt), (tt, tt)) ((refl, tt), (tt, tt)) refl refl
