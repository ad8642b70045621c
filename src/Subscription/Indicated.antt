-- ===== src/Subscription/Indicated.antt =====
-- A round of the sending loop of a subscription among the steps of other threads, from the signal to
-- the client.
use sib_tcp.Prelude.{
  ℕ, ◌≡◌, refl, ap, ◌∙◌, true, false, none, some, Option, ◌∷◌, ◌++◌, Bytes, pos, int_eq, ==_refl,
  bytes_eq_refl,
}
use sib_tcp.Ssap.{Sibmsg, send_unsubscribe}
use sib_tcp.Socket.{socket_broken}
use sib_tcp.Waiting.{waiter_wait_for_finished}
use sib_tcp.Key.{get_request_key}
use sib_tcp.Table.{lookup, lookup-remove}
use sib_tcp.World.{Env, subscription_ind, unsubscribe_cnf}
use sib_tcp.State.{State, Waiter, Action, dbus}
use sib_tcp.Waiters.{waiter_destroy}
use sib_tcp.Listener.{listener_remove_subscription}
use sib_tcp.Socket.Delivery.{received, Delivers, SameShared}
use sib_tcp.Consistency.{Returns, Returns-continue, Returns-mono}
use sib_tcp.Request.Answering.{SameShared-IsConsistent}
use sib_tcp.Subscription.{Saved, Next, again, finished, arrival_of, subscription_round}
use sib_tcp.Subscription.Rounds.{Out, send_checked-Out, auto_unsubscribe-finished}
use sib_tcp.Subscription.Streaming.{indication, Indicates, Unsubscribes}
use sib_tcp.Subscription.Listening.{Listening}
use sib_tcp.Subscription.Listening.Steps.{Listens}
use sib_tcp.Subscription.Listening.Events.{run_events-Listening}
use sib_tcp.Subscription.Awaiting.{
  got, ticked, stored, indication-Listens, confirmation-Listens, wait-Listens,
}

module _ {Msg : Type 0} (lib : Sibmsg Msg) (env : Env) (memory : (t : ℕ) → env.allocates t ≡ true)
    (q : ℕ) (saved : Saved) (subid : Bytes) (s : State Msg) (w : Waiter Msg) where
  -- The client has got the text, and the waiter is as before, with no message.
  abbrev pub Sent : Bytes → Next → State Msg → Type 0
  Sent text next t =
      (next ≡ again)
      × (received w.fd t.trace ≡ received w.fd s.trace ++ text)
      × Listening subid q (record w { req_ready = false; rsp = none }) t.trace t

  -- The subscriber after the message went out.
  moved :
      (rsp : Msg) (t u : State Msg)
      → Listening subid q (got lib env memory subid q w s.trace rsp) s.trace t
      → SameShared t u
      → Listening subid q (got lib env memory subid q w s.trace rsp) u.trace u
  moved rsp t u k x = record {
    consistent = SameShared-IsConsistent t u x k.consistent;
    subscribed = ap (lookup subid) x.subscriptions ∙ k.subscribed;
    content = ap (λ (h : ℕ → Option (Waiter Msg)). h q) x.heap ∙ k.content;
    quiet = refl;
  }

  abbrev pub message_of : {text : Bytes} → Indicates lib env q saved subid text s → Msg
  message_of i = indication lib env q saved subid i.space i.node i.msgnum i.seqnum i.new i.obsolete

  -- The wait ends with the indication.
  indication_awaited :
      (text : Bytes)
      → Listening subid q w s.trace s
      → (i : Indicates lib env q saved subid text s)
      → Returns
          (Listens subid q (got lib env memory subid q w s.trace (message_of i)) s.trace)
          (waiter_wait_for_finished lib env q s)
  indication_awaited text h i =
      wait-Listens lib env memory subid q w s.trace (message_of i)
        (subscription_ind i.space i.node i.msgnum i.seqnum subid i.new i.obsolete) (λ _. Unit)
        i.before i.after i.rest s i.comes i.first i.later h
        (Returns-mono (Listens subid q w s.trace) (λ _ _. Unit) _
          (run_events-Listening subid q w s.trace lib env memory i.before _ i.first
            (ticked lib env memory subid q w s.trace s h))
          λ _ _ _. tt)
        λ u x _.
          indication-Listens lib env memory subid q w s.trace i.space i.node i.msgnum i.seqnum i.new
            i.obsolete u x

  -- An indication that comes while the subscriber waits, among any steps of other threads that are
  -- not about its subscription nor rounds of the waking thread, goes to the client, whole and
  -- nothing else, in a round after which the loop goes on; the state is consistent again, the
  -- subscription is on its waiter as before, and the message has been taken from that. It is
  -- supposed that the state is consistent, that memory does not run out, that the message can be
  -- built, that its name and type are those of an indication, that the client's socket has no error
  -- and takes some of whatever it is given, and that the text has at most as many bytes as rounds
  -- are watched.
  pub subscription_round-Sent :
      (text : Bytes)
      → Listening subid q w s.trace s
      → Delivers env w.fd
      → Indicates lib env q saved subid text s
      → Returns (Sent text) (subscription_round lib env q saved s)
  unfolding subscription_round arrival_of
  subscription_round-Sent text h d i =
      Returns-continue (Listens subid q (got lib env memory subid q w s.trace message) s.trace)
        (Sent text) _ _ (indication_awaited text h i)
        λ _ t k.
          rw (k.content, i.name, i.kind, i.built)
            (Returns-continue (Out lib env w.fd text t) (Sent text) _ _
              (send_checked-Out lib env w.fd text t d i.few)
              λ out u x.
                let m = moved message t u k x.2 in
                rw (x.0, m.content)
                  (
                    refl,
                    x.1 ∙ ap (λ l. received w.fd l ++ text) k.quiet,
                    stored subid q (got lib env memory subid q w s.trace message)
                        (record w { req_ready = false; rsp = none }) u.trace u m,
                  ))
    where
      message : Msg
      message = message_of i

  abbrev pub farewell : Msg → Action
  farewell m =
      dbus (send_unsubscribe (lib.get_spaceid m) (lib.get_nodeid m) (lib.get_msgnumber m) subid)

  -- Only the daemon was asked, to end the subscription that the message is about, which has gone.
  abbrev pub Abandoned : Msg → Next → State Msg → Type 0
  Abandoned m next t =
      (next ≡ finished)
      × (t.trace ≡ farewell m ∷ s.trace)
      × (lookup subid t.subscriptions ≡ none)
      × (t.heap q ≡ none)

  -- If the client's socket has an error when an indication comes, among any steps of other threads
  -- that are not about its subscription nor rounds of the waking thread, the round is the last:
  -- nothing is sent to the client, the daemon is asked once to unsubscribe, whatever it answers, and
  -- the subscription is gone and its waiter freed. It is supposed that the state is consistent, that
  -- memory does not run out, that the message can be built, and that its name, type and subscription
  -- id are those of the indication.
  pub broken_client_unsubscribed :
      (text : Bytes)
      → Listening subid q w s.trace s
      → ((t : ℕ) → int_eq (env.so_error t w.fd) (pos 0) ≡ false)
      → (i : Indicates lib env q saved subid text s) → lib.get_subscriptionid (message_of i) ≡ subid
      → Returns (Abandoned (message_of i)) (subscription_round lib env q saved s)
  unfolding subscription_round arrival_of socket_broken
  broken_client_unsubscribed text h bad i same =
      Returns-continue (Listens subid q (got lib env memory subid q w s.trace message) s.trace)
        (Abandoned message) _ _ (indication_awaited text h i)
        λ _ t k.
          rw (k.content, i.name, i.kind, i.built, bad t.clock, same)
            (Returns-mono _ (Abandoned message) _
              (auto_unsubscribe-finished lib env _ _ _ subid q
                (got lib env memory subid q w s.trace message) _ k.subscribed k.content)
              λ _ u x. (x.0, x.1 ∙ ap (◌∷◌ (farewell message)) k.quiet, x.2, x.3))
    where
      message : Msg
      message = message_of i

  -- The client has got the text, and nothing is left of the subscription.
  abbrev pub Last : Bytes → Next → State Msg → Type 0
  Last text next t =
      (next ≡ finished)
      × (received w.fd t.trace ≡ received w.fd s.trace ++ text)
      × (lookup subid t.subscriptions ≡ none)
      × (t.heap q ≡ none)

  -- The confirmation of an unsubscription that comes while the subscriber waits, among any steps of
  -- other threads that are not about its subscription nor rounds of the waking thread, and to a
  -- request that is pending when it comes, goes to the client, whole and nothing else; the round
  -- is the last, the subscription is gone and its waiter freed. It is supposed that the state is
  -- consistent with the subscription on its waiter, that memory does not run out, that the message
  -- can be built, that its name, type and subscription id are those of the confirmation, that the
  -- client's socket has no error and takes some of whatever it is given, and that the text has at
  -- most as many bytes as rounds are watched.
  pub subscription_round-Last :
      (text : Bytes)
      → Listening subid q w s.trace s
      → Delivers env w.fd
      → Unsubscribes lib env q saved subid text s
      → Returns (Last text) (subscription_round lib env q saved s)
  unfolding subscription_round arrival_of listener_remove_subscription waiter_destroy
  subscription_round-Last text h d i =
      Returns-continue (Listens subid q (got lib env memory subid q w s.trace message) s.trace)
        (Last text) _ _
        (wait-Listens lib env memory subid q w s.trace message
          (unsubscribe_cnf i.space i.node i.msgnum i.status subid)
          (λ t. (p : ℕ) × (lookup (get_request_key i.node i.msgnum) t.requests ≡ some p)) i.before
          i.after i.rest s i.comes i.first i.later h i.asked
          λ u x (p, asked).
            confirmation-Listens lib env memory subid q w s.trace i.space i.node i.msgnum i.status u
              p x asked)
        λ _ t k.
          rw (k.content, i.name, i.kind, i.built)
            (Returns-continue (Out lib env w.fd text t) (Last text) _ _
              (send_checked-Out lib env w.fd text t d i.few)
              λ out u x.
                let m = moved message t u k x.2 in
                rw (i.same, m.subscribed, m.content, i.same)
                  (
                    refl,
                    x.1 ∙ ap (λ l. received w.fd l ++ text) k.quiet,
                    lookup-remove subid subid u.subscriptions ∙ (rw (bytes_eq_refl subid) refl),
                    rw (==_refl q) refl,
                  ))
    where
      message : Msg
      message = lib.new_unsubscribe_rsp i.space i.node i.msgnum i.status subid
