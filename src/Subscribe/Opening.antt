-- ===== src/Subscribe/Opening.antt =====
-- What `listener_handle_subscribe` does where the daemon has accepted the subscription.
use sib_tcp.Prelude.{
  ℕ, ◌+◌, ◌≤◌, ◌≡◌, refl, ap, ◌∙◌, true, false, none, some, ◌++◌, ℤ, pos, Bytes, ◌==◌, ==_refl,
  int_eq, is_neg, length, bytes_eq_refl, arith,
}
use sib_tcp.Ssap.{Sibmsg}
use sib_tcp.Key.{get_request_key}
use sib_tcp.Table.{lookup, insert, remove, lookup-insert, lookup-remove}
use sib_tcp.World.{Env}
use sib_tcp.State.{State, M, Waiter, Outcome, done, fault, stuck, continue, update, pure, ◌>>◌}
use sib_tcp.Waiters.{waiter_new, waiter_destroy}
use sib_tcp.Listener.{succeeded, listener_add_subscription, listener_remove_request}
use sib_tcp.Socket.{socket_broken, client_send_message}
use sib_tcp.Socket.Delivery.{received, Delivers, Delivered, client_send_message-Delivered}
use sib_tcp.Waiting.{register_subscriber}
use sib_tcp.Waiting.Registering.{new_waiter}
use sib_tcp.Consistency.{IsConsistent, Returns, Returns-continue}
use sib_tcp.Consistency.Steps.{remove_request-Keeps}
use sib_tcp.Table.Uses.{uses-insert}
use sib_tcp.Request.Answering.{SameShared-IsConsistent}
use sib_tcp.Request.{buffer}
use sib_tcp.Subscription.{subscription_rounds}
use sib_tcp.Subscribe.{on_confirmation, conclude, subscribed, saved_of}

module _ {Msg : Type 0} (lib : Sibmsg Msg) (env : Env) (fd : ℕ) (msg rsp : Msg) (s : State Msg)
    (p : ℕ) (w : Waiter Msg) (text : Bytes) where
  abbrev subid : Bytes
  subid = lib.get_subscriptionid rsp

  abbrev key : Bytes
  key = get_request_key (lib.get_nodeid msg) (lib.get_msgnumber msg)

  -- The client has the confirmation, the request is over, and the subscription is registered for a
  -- new waiter on the client's socket.
  pub record Opened (t : State Msg) : Type 0 where
    pub arrived : received w.fd t.trace ≡ received w.fd s.trace ++ text
    pub over : lookup key t.requests ≡ none
    pub freed : t.heap p ≡ none
    pub registered : lookup subid t.subscriptions ≡ some s.next
    pub waiter : t.heap s.next ≡ some (new_waiter subid fd)

  -- The subscription is registered, and the client's socket has no error.
  abbrev pub registered_state : State Msg
  registered_state = record s {
    subscriptions = insert subid s.next s.subscriptions;
    heap =
        update
          (update s.heap s.next (
            some (record {
              req_ready = false;
              fd = fd;
              rsp = none;
              subscription_id = none;
              key = none;
            })))
          s.next (some (new_waiter subid fd));
    next = s.next + 1;
    clock = s.clock + 1 + 1;
  }

  -- The outcome is that of the sending loop from such a state, which has `Q`.
  abbrev pub OpensWith : (State Msg → Type 0) → Outcome Msg (Unit {0}) → Type 0
  OpensWith Q o =
      (t : State Msg) × (o ≡ subscription_rounds lib env env.rounds s.next (saved_of lib env rsp) t)
      × Opened t
      × Q t

  abbrev pub OpensAs : Outcome Msg (Unit {0}) → Type 0
  OpensAs o =
      (t : State Msg) × (o ≡ subscription_rounds lib env env.rounds s.next (saved_of lib env rsp) t)
      × Opened t

  -- What the handler does between the registration and the loop.
  abbrev pub confirms : M Msg ℤ
  confirms = do
    client_send_message env w.fd text
    listener_remove_request (lib.get_nodeid msg) (lib.get_msgnumber msg)

  removes :
      (t : State Msg)
      → lookup key t.requests ≡ some p
      → t.heap p ≡ some w
      → listener_remove_request (lib.get_nodeid msg) (lib.get_msgnumber msg) t
        ≡ done succeeded
            (record t { requests = remove key t.requests; heap = update t.heap p none })
  unfolding listener_remove_request waiter_destroy
  removes t asked here = rw (asked, here) refl

  sent_and_removed :
      s.heap p ≡ some w
      → (p == s.next) ≡ false
      → (s.next == p) ≡ false
      → lookup key s.requests ≡ some p
      → (Q : State Msg → Type 0) (o : Outcome Msg ℤ)
      → Returns (Delivered w.fd text registered_state) o
      → Returns
          (λ _ t. Q t)
          (continue o λ _. listener_remove_request (lib.get_nodeid msg) (lib.get_msgnumber msg))
      → OpensWith Q (
          continue
            (continue o λ ret. elim (is_neg ret) [ true ↦ pure false | false ↦ pure true ])
            λ out. do
              listener_remove_request (lib.get_nodeid msg) (lib.get_msgnumber msg)
              elim out [
                | true ↦ subscription_rounds lib env env.rounds s.next (saved_of lib env rsp)
                | false ↦ pure tt
              ])
  unfolding listener_remove_request waiter_destroy
  sent_and_removed here apart apart' asked Q (done r t) (ok, got, same) k = (
    record t { requests = remove key t.requests; heap = update t.heap p none },
    rw (ok, same.requests, asked, same.heap, apart', here) refl,
    record {
      arrived = got;
      over = lookup-remove key key t.requests ∙ (rw (bytes_eq_refl key) refl);
      freed = rw (==_refl p) refl;
      registered =
          ap (lookup subid) same.subscriptions
          ∙ lookup-insert subid subid s.next s.subscriptions
          ∙ rw (bytes_eq_refl subid) refl;
      waiter = rw (apart, same.heap, ==_refl s.next) refl;
    },
    rw (removes t (rw same.requests asked) (rw (same.heap, apart') here)) at k,
  )
  sent_and_removed here apart apart' asked Q (fault e t) h k = absurd h
  sent_and_removed here apart apart' asked Q (stuck t) h k = absurd h

  -- With what holds of the state in which the loop begins.
  pub confirmed-OpensWith :
      (Q : State Msg → Type 0)
      → IsConsistent s
      → env.allocates s.clock ≡ true
      → s.heap p ≡ some w
      → lookup key s.requests ≡ some p
      → lookup subid s.subscriptions ≡ none
      → int_eq (lib.get_msg_status rsp) (pos 2) ≡ true
      → buffer lib env (
          lib.create_subscribe_response
            (lib.get_nodeid rsp)
            (lib.get_spaceid rsp)
            (lib.get_msgnumber rsp)
            (lib.get_msg_status rsp)
            (some subid)
            (lib.get_m3xml rsp))
        ≡ some text
      → Delivers env fd
      → Delivers env w.fd
      → length text ≤ env.rounds
      → Returns (λ _ t. Q t) (confirms registered_state)
      → OpensWith Q (on_confirmation lib env fd msg p (some rsp) s)
  unfolding on_confirmation conclude subscribed register_subscriber waiter_new
      listener_add_subscription socket_broken
  confirmed-OpensWith Q h memory here asked free status built d e few k =
      rw
        (
          memory,
          free,
          ==_refl s.next,
          built,
          conclude,
          status,
          ==_refl s.next,
          d.sound (s.clock + 1),
          apart,
          here,
        )
        (sent_and_removed here apart' apart asked Q _
          (client_send_message-Delivered env w.fd e text registered_state few) k)
    where
      apart : (s.next == p) ≡ false
      apart = ground (arith, h.fresh p, here)

      apart' : (p == s.next) ≡ false
      apart' = ground (arith, h.fresh p, here)

  -- The state in which the loop begins is consistent.
  pub confirms-Keeps :
      IsConsistent s
      → lookup subid s.subscriptions ≡ none
      → Delivers env w.fd
      → length text ≤ env.rounds
      → Returns (λ _ t. IsConsistent t) (confirms registered_state)
  confirms-Keeps h free e few =
      Returns-continue (Delivered w.fd text registered_state) (λ _ t. IsConsistent t) _ _
        (client_send_message-Delivered env w.fd e text registered_state few)
        λ r t x. remove_request-Keeps (lib.get_nodeid msg) (lib.get_msgnumber msg) t (
          SameShared-IsConsistent registered_state t x.2 (record {
            owned = λ r.
                ground
                  (arith, h.owned r, h.fresh s.next, uses-insert r subid s.next s.subscriptions);
            fresh = λ r le. ground (arith, h.fresh r);
          }))

  confirms-Returns :
      (s.next == p) ≡ false
      → s.heap p ≡ some w
      → lookup key s.requests ≡ some p
      → Delivers env w.fd
      → length text ≤ env.rounds
      → Returns (λ _ _. Unit {0}) (confirms registered_state)
  confirms-Returns apart here asked e few =
      Returns-continue (Delivered w.fd text registered_state) (λ _ _. Unit {0}) _ _
        (client_send_message-Delivered env w.fd e text registered_state few)
        λ r t x. rw (removes t (rw x.2.requests asked) (rw (x.2.heap) (rw apart here))) tt

  -- A confirmation with status 2 of a subscription that is not registered yet: the handler goes on as
  -- the sending loop of the subscription, from a state in which the client has got the
  -- confirmation, whole and nothing else, the request is no longer pending and its waiter freed,
  -- and the subscription is registered on a new waiter for the client's socket. It is supposed that
  -- the state is consistent and the request pending in it, that memory is there and the response
  -- can be built, that the sockets have no error and take some of whatever they are given, and
  -- that the response has at most as many bytes as rounds are watched.
  pub confirmed_subscription :
      IsConsistent s
      → env.allocates s.clock ≡ true
      → s.heap p ≡ some w
      → lookup key s.requests ≡ some p
      → lookup subid s.subscriptions ≡ none
      → int_eq (lib.get_msg_status rsp) (pos 2) ≡ true
      → buffer lib env (
          lib.create_subscribe_response
            (lib.get_nodeid rsp)
            (lib.get_spaceid rsp)
            (lib.get_msgnumber rsp)
            (lib.get_msg_status rsp)
            (some subid)
            (lib.get_m3xml rsp))
        ≡ some text
      → Delivers env fd
      → Delivers env w.fd
      → length text ≤ env.rounds
      → OpensAs (on_confirmation lib env fd msg p (some rsp) s)
  confirmed_subscription h memory here asked free status built d e few =
      let (t, o, x, _) =
        confirmed-OpensWith (λ _. Unit) h memory here asked free status built d e few
          (confirms-Returns (ground (arith, h.fresh p, here)) here asked e few) in
      (t, o, x)
