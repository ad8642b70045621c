-- ===== src/Tests/Indications.antt =====
-- The theorems about the sending loop of a subscription, at concrete inputs.
use sib_tcp.Prelude.{refl, none, some, List, [], ◌∷◌, codes, bytes_eq, pos, arith}
use sib_tcp.Table.{lookup}
use sib_tcp.World.{Env, Event, subscription_ind, adds_request, join_cnf}
use sib_tcp.Consistency.{Returns}
use sib_tcp.Request.{buffer}
use sib_tcp.Subscription.{Saved, subscription_round}
use sib_tcp.Subscription.Streaming.{Indicates}
use sib_tcp.Subscription.Indicated.{
  Sent, subscription_round-Sent, Abandoned, message_of, broken_client_unsubscribed,
}
use sib_tcp.Waiting.Registering.{new_waiter}
use sib_tcp.Subscription.{probe}
use sib_tcp.Subscription.Probing.{Verdict, probe-Verdict}
use sib_tcp.Tests.{subscribed_state-IsConsistent, toy, system, subscribed_state, system-Delivers}

abbrev pub strings : Saved
strings = record { nodeid = codes "kp"; spaceid = codes "x"; subid = codes "i" }

-- Another client's request begins before the indication comes, and the daemon answers it after.
abbrev among_others : List (List Event)
among_others =
    (adds_request (codes "n") (pos 3) 7
      ∷ subscription_ind (codes "x") (codes "kp") (pos 1) (pos 1) (codes "i") (some (codes "new"))
          none
      ∷ join_cnf (codes "x") (codes "n") (pos 3) (pos 0)
      ∷ [])
    ∷ []

-- Every socket has an error.
abbrev broken : Env
broken = record (system (pos 0) among_others) { so_error = λ t fd. pos 32 }

among_others-Indicates :
    Indicates
      (toy (λ v. v))
      (system (pos 0) among_others)
      0
      strings
      (codes "i")
      (codes "kp!")
      subscribed_state
unfolding buffer
among_others-Indicates = record {
  space = codes "x";
  node = codes "kp";
  msgnum = pos 1;
  seqnum = pos 1;
  new = some (codes "new");
  obsolete = none;
  before = adds_request (codes "n") (pos 3) 7 ∷ [];
  after = join_cnf (codes "x") (codes "n") (pos 3) (pos 0) ∷ [];
  rest = [];
  comes = refl;
  first = (tt, tt);
  later = (tt, tt);
  name = refl;
  kind = refl;
  built = refl;
  few = omega arith;
}

subscription_round-Sent_example :
    Returns
      (Sent
        (toy (λ v. v))
        (system (pos 0) among_others)
        (λ t. refl)
        0
        strings
        (codes "i")
        subscribed_state
        (new_waiter (codes "i") 4)
        (codes "kp!"))
      (subscription_round (toy (λ v. v)) (system (pos 0) among_others) 0 strings subscribed_state)
unfolding lookup bytes_eq buffer
subscription_round-Sent_example =
    subscription_round-Sent (toy (λ v. v)) (system (pos 0) among_others) (λ t. refl) 0 strings
      (codes "i") subscribed_state (new_waiter (codes "i") 4) (codes "kp!")
      (record {
        consistent = subscribed_state-IsConsistent;
        subscribed = refl;
        content = refl;
        quiet = refl;
      })
      (system-Delivers (pos 0) among_others 4) among_others-Indicates

broken-Indicates :
    Indicates (toy (λ v. v)) (broken) 0 strings (codes "i") (codes "kp!") subscribed_state
unfolding buffer
broken-Indicates = record {
  space = codes "x";
  node = codes "kp";
  msgnum = pos 1;
  seqnum = pos 1;
  new = some (codes "new");
  obsolete = none;
  before = adds_request (codes "n") (pos 3) 7 ∷ [];
  after = join_cnf (codes "x") (codes "n") (pos 3) (pos 0) ∷ [];
  rest = [];
  comes = refl;
  first = (tt, tt);
  later = (tt, tt);
  name = refl;
  kind = refl;
  built = refl;
  few = omega arith;
}

broken_client_unsubscribed_example :
    Returns
      (Abandoned
        (toy (λ v. v))
        broken
        (λ t. refl)
        0
        strings
        (codes "i")
        subscribed_state
        (new_waiter (codes "i") 4)
        (message_of
          (toy (λ v. v))
          broken
          (λ t. refl)
          0
          strings
          (codes "i")
          subscribed_state
          (new_waiter (codes "i") 4)
          broken-Indicates))
      (subscription_round (toy (λ v. v)) broken 0 strings subscribed_state)
unfolding lookup bytes_eq buffer
broken_client_unsubscribed_example =
    broken_client_unsubscribed (toy (λ v. v)) broken (λ t. refl) 0 strings (codes "i")
      subscribed_state (new_waiter (codes "i") 4) (codes "kp!")
      (record {
        consistent = subscribed_state-IsConsistent;
        subscribed = refl;
        content = refl;
        quiet = refl;
      })
      (λ t. refl) broken-Indicates refl

probe-Verdict_example :
    Returns
      (Verdict (toy (λ v. v)) broken 4 strings subscribed_state 0 (new_waiter (codes "i") 4))
      (probe (toy (λ v. v)) broken 4 strings subscribed_state)
unfolding lookup bytes_eq
probe-Verdict_example =
    probe-Verdict (toy (λ v. v)) broken 4 strings subscribed_state 0 (new_waiter (codes "i") 4) refl
      refl
