-- ===== src/Subscription/Streaming.antt =====
-- What comes to a subscriber: an indication each time it waits, and at last the confirmation that the
-- client has unsubscribed.
use sib_tcp.Prelude.{ℕ, ◌+◌, All, ◌≤◌, ◌≡◌, Option, some, List, [], ◌∷◌, ◌++◌, ℤ, Bytes, length}
use sib_tcp.Ssap.{Sibmsg, subscribe, ind, unsubscribe, cnf}
use sib_tcp.Key.{get_request_key}
use sib_tcp.Table.{lookup}
use sib_tcp.World.{Env, Event, subscription_ind, unsubscribe_cnf}
use sib_tcp.State.{State, Waiter}
use sib_tcp.Socket.Delivery.{received}
use sib_tcp.Consistency.{Returns}
use sib_tcp.Request.{buffer}
use sib_tcp.Waiting.{run_events}
use sib_tcp.Subscription.Listening.{Listening, Passes}
use sib_tcp.Subscription.{Saved, subscription_round}

unfoldable pub concat : List Bytes → Bytes
concat [] = []
concat (b ∷ bs) = b ++ concat bs

module _ {Msg : Type 0} (lib : Sibmsg Msg) (env : Env) (q : ℕ) (saved : Saved) (subid : Bytes) where
  abbrev pub indication : Bytes → Bytes → ℤ → ℤ → Option Bytes → Option Bytes → Msg
  indication space node msgnum seqnum new obsolete =
      lib.new_subscription_ind space node msgnum seqnum subid new obsolete

  abbrev text_of : Msg → Option Bytes
  text_of m = buffer lib env (
      lib.create_subscription_ind (lib.get_nodeid m) (lib.get_spaceid m) (lib.get_msgnumber m)
        (lib.get_update_sequence m) (lib.get_subscriptionid m) (lib.get_results_added m)
        (lib.get_results_removed m))

  abbrev ending_of : Msg → Option Bytes
  ending_of m = buffer lib env (
      lib.create_unsubscribe_response (lib.get_nodeid m) (lib.get_spaceid m) (lib.get_msgnumber m)
        (lib.get_msg_status m) (lib.get_subscriptionid m))

  -- When the subscriber waits in `s`, an indication comes that the library makes into this text, with
  -- any number of events before and after it that are not about the subscription.
  pub record Indicates (text : Bytes) (s : State Msg) : Type 0 where
    pub space : Bytes
    pub node : Bytes
    pub msgnum : ℤ
    pub seqnum : ℤ
    pub new : Option Bytes
    pub obsolete : Option Bytes
    pub before : List Event
    pub after : List Event
    pub rest : List (List Event)
    pub comes :
        env.waits s.clock
        ≡ (before ++ (subscription_ind space node msgnum seqnum subid new obsolete ∷ after)) ∷ rest
    pub first : All (Passes subid) before
    pub later : All (Passes subid) after
    pub name : lib.get_name (indication space node msgnum seqnum new obsolete) ≡ subscribe
    pub kind : lib.get_type (indication space node msgnum seqnum new obsolete) ≡ ind
    pub built : text_of (indication space node msgnum seqnum new obsolete) ≡ some text
    pub few : length text ≤ env.rounds

  -- When the subscriber waits in `s`, the daemon confirms, to a request that is pending then, that the
  -- client has unsubscribed, by a message that the library makes into this text, with events
  -- before and after it as above.
  pub record Unsubscribes (text : Bytes) (s : State Msg) : Type 0 where
    pub space : Bytes
    pub node : Bytes
    pub msgnum : ℤ
    pub status : ℤ
    pub before : List Event
    pub after : List Event
    pub rest : List (List Event)
    pub comes :
        env.waits s.clock
        ≡ (before ++ (unsubscribe_cnf space node msgnum status subid ∷ after)) ∷ rest
    pub first : All (Passes subid) before
    pub later : All (Passes subid) after
    pub asked :
        Returns
          (λ _ t. (p : ℕ) × (lookup (get_request_key node msgnum) t.requests ≡ some p))
          (run_events lib env before (record s { clock = s.clock + 1 }))
    pub name : lib.get_name (lib.new_unsubscribe_rsp space node msgnum status subid) ≡ unsubscribe
    pub kind : lib.get_type (lib.new_unsubscribe_rsp space node msgnum status subid) ≡ cnf
    pub same :
        lib.get_subscriptionid (lib.new_unsubscribe_rsp space node msgnum status subid) ≡ subid
    pub built : ending_of (lib.new_unsubscribe_rsp space node msgnum status subid) ≡ some text
    pub few : length text ≤ env.rounds

  -- The rounds from `s` on: these texts, one in each round, and then `P`.
  unfoldable pub Streams : (State Msg → Type 0) → List Bytes → State Msg → Type 0
  Streams P [] s = P s
  Streams P (text ∷ texts) s =
      Indicates text s × Returns (λ _ t. Streams P texts t) (subscription_round lib env q saved s)

  -- What holds of the subscription and its client between two rounds.
  pub record Sends (fd : ℕ) (sent : Bytes) (s t : State Msg) : Type 0 where
    pub waiter : Waiter Msg
    pub listens : Listening subid q waiter t.trace t
    pub socket : waiter.fd ≡ fd
    pub arrived : received fd t.trace ≡ received fd s.trace ++ sent
