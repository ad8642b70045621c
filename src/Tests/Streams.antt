-- ===== src/Tests/Streams.antt =====
-- The theorems about a whole subscription, at concrete inputs.
use sib_tcp.Prelude.{
  refl, none, some, List, [], ◌∷◌, ◌++◌, codes, bytes_eq, pos, arith, ◌==◌, if◌then◌else◌,
}
use sib_tcp.Ssap.{subscribe, other, cnf}
use sib_tcp.Key.{get_request_key}
use sib_tcp.Table.{lookup, insert, remove}
use sib_tcp.Waiters.{waiter_completed, waiter_destroy}
use sib_tcp.World.{
  Env, Event, adds_request, join_cnf, subscribe_cnf, subscription_ind, unsubscribe_cnf,
}
use sib_tcp.Consistency.{Returns}
use sib_tcp.Request.{buffer, query_type_of}
use sib_tcp.Waiting.Registering.{new_waiter}
use sib_tcp.Waiting.{register_waiter, waiter_wait_for_finished, wait_rounds, run_events, run_event}
use sib_tcp.Callbacks.{
  handle_join_cnf, handle_subscription_ind, handle_subscribe_cnf, complete_found, complete_with,
}
use sib_tcp.Socket.{socket_broken, client_send_message}
use sib_tcp.Subscription.{arrival_of, subscription_round}
use sib_tcp.Subscription.Streaming.{Streams, concat}
use sib_tcp.Listener.{listener_get_request, listener_add_request, listener_remove_request}
use sib_tcp.Subscribe.{on_confirmation, listener_handle_subscribe}
use sib_tcp.Subscribe.Lasting.{Begins, waiting_state, Lived, subscription-Lived}
use sib_tcp.Subscribe.Opening.{OpensAs, confirmed_subscription}
use sib_tcp.Tests.{
  note, Note, toy, system, pending_state, pending_state-IsConsistent, system-Delivers,
}

-- An answer of the daemon to nobody comes last.
abbrev opened : List (List Event)
opened =
    (subscribe_cnf (codes "x") (codes "kp") (pos 13) (pos 2) (codes "i") none
      ∷ join_cnf (codes "x") (codes "n") (pos 3) (pos 0)
      ∷ [])
    ∷ []

-- An answer of the daemon to nobody comes first.
abbrev indicated : List (List Event)
indicated =
    (join_cnf (codes "x") (codes "n") (pos 3) (pos 0)
      ∷ subscription_ind (codes "x") (codes "kp") (pos 1) (pos 1) (codes "i") (some (codes "new"))
          none
      ∷ [])
    ∷ []

-- A request of another client begins first.
abbrev confirmed : List (List Event)
confirmed =
    (adds_request (codes "n") (pos 3) 7
      ∷ unsubscribe_cnf (codes "x") (codes "kp") (pos 12) (pos 0) (codes "i")
      ∷ [])
    ∷ []

-- First the confirmation, then an indication, and then the end.
abbrev streaming : Env
streaming = record (system (pos 0) []) {
  waits = λ t. if t == 2 then opened else if t == 9 then indicated else confirmed;
}

-- The daemon confirms a subscription with the status 2.
abbrev asking : Note
asking = note subscribe other (codes "x") (codes "kp") (pos 12) (pos 0) (codes "i") none

abbrev accepted : Note
accepted = note subscribe cnf (codes "x") (codes "kp") (pos 12) (pos 2) (codes "i") none

confirmed_subscription_example :
    OpensAs
      (toy (λ v. pos 0))
      (system (pos 0) [])
      5
      asking
      accepted
      (pending_state (codes "kp_12"))
      0
      (new_waiter (codes "kp_12") 4)
      (codes "kp!")
      (on_confirmation
        (toy (λ v. pos 0))
        (system (pos 0) [])
        5
        asking
        0
        (some accepted)
        (pending_state (codes "kp_12")))
unfolding lookup bytes_eq buffer get_request_key
confirmed_subscription_example =
    confirmed_subscription (toy (λ v. pos 0)) (system (pos 0) []) 5 asking accepted
      (pending_state (codes "kp_12")) 0 (new_waiter (codes "kp_12") 4) (codes "kp!")
      (pending_state-IsConsistent (codes "kp_12")) refl refl refl refl refl refl
      (system-Delivers (pos 0) [] 5) (system-Delivers (pos 0) [] 4) (omega arith)

-- The request of another number, to end the subscription, waits on the waiter 0.
abbrev lasting : Note
lasting = note subscribe other (codes "x") (codes "kp") (pos 13) (pos 0) (codes "i") none

lasting-Begins :
    Returns
      (λ _ v.
        Begins
          (toy (λ v. pos 0))
          streaming
          5
          lasting
          (pending_state (codes "kp_12"))
          (codes "x")
          (pos 2)
          (codes "i")
          none
          (codes "kp!")
          (codes "kp!" ∷ [])
          (codes "kp!")
          v)
      (waiter_wait_for_finished (toy (λ v. pos 0)) streaming 1 (
        waiting_state
          (toy (λ v. pos 0))
          streaming
          5
          lasting
          (pending_state (codes "kp_12"))
          (codes "x")
          (pos 2)
          (codes "i")
          none))
unfolding Streams subscription_round lookup bytes_eq buffer get_request_key waiter_wait_for_finished
    wait_rounds run_events run_event handle_subscription_ind arrival_of socket_broken
    client_send_message listener_remove_request insert remove waiter_destroy handle_join_cnf
    register_waiter listener_add_request handle_subscribe_cnf complete_found complete_with
    waiter_completed listener_get_request query_type_of
lasting-Begins = (
  refl,
  (
    record {
      space = codes "x";
      node = codes "kp";
      msgnum = pos 1;
      seqnum = pos 1;
      new = some (codes "new");
      obsolete = none;
      before = join_cnf (codes "x") (codes "n") (pos 3) (pos 0) ∷ [];
      after = [];
      rest = [];
      comes = refl;
      first = (tt, tt);
      later = tt;
      name = refl;
      kind = refl;
      built = refl;
      few = omega arith;
    },
    record {
      space = codes "x";
      node = codes "kp";
      msgnum = pos 12;
      status = pos 0;
      before = adds_request (codes "n") (pos 3) 7 ∷ [];
      after = [];
      rest = [];
      comes = refl;
      first = (tt, tt);
      later = tt;
      asked = (0, refl);
      name = refl;
      kind = refl;
      same = refl;
      built = refl;
      few = omega arith;
    },
  ),
)

subscription-Lived_example :
    Returns
      (λ _ t.
        Lived
          (toy (λ v. pos 0))
          streaming
          5
          lasting
          (pending_state (codes "kp_12"))
          (codes "x")
          (pos 2)
          (codes "i")
          none
          (codes "kp!" ++ (concat (codes "kp!" ∷ []) ++ codes "kp!"))
          t)
      (listener_handle_subscribe
        (toy (λ v. pos 0))
        streaming
        5
        lasting
        (pending_state (codes "kp_12")))
unfolding lookup bytes_eq buffer get_request_key query_type_of
subscription-Lived_example =
    subscription-Lived (toy (λ v. pos 0)) streaming 5 lasting (pending_state (codes "kp_12"))
      (codes "x") (pos 2) (codes "i") none []
      (join_cnf (codes "x") (codes "n") (pos 3) (pos 0) ∷ []) [] (codes "kp!") (codes "kp!")
      (codes "kp!" ∷ []) (pending_state-IsConsistent (codes "kp_12")) (λ t. refl) refl refl refl
      refl tt (refl, tt) refl refl (record { sound = λ t. refl; progress = λ t c b. (1, refl) })
      (omega arith) (omega arith) lasting-Begins
