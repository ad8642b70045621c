-- ===== src/Subscribe/Faults.antt =====
-- What `listener_handle_subscribe` does where the subscription does not come about.
use sib_tcp.Prelude.{
  ℕ, ◌+◌, ◌≡◌, refl, true, false, Option, none, some, pos, Bytes, ==_refl, int_eq, bytes_eq_refl,
}
use sib_tcp.Ssap.{Sibmsg, Call, QueryType, send_subscribe}
use sib_tcp.Key.{get_request_key}
use sib_tcp.Table.{lookup, lookup-insert}
use sib_tcp.World.{Env}
use sib_tcp.State.{State, ◌>>◌}
use sib_tcp.Waiters.{waiter_new, waiter_destroy}
use sib_tcp.Listener.{
  listener_remove_request, listener_add_subscription, listener_remove_subscription,
}
use sib_tcp.Socket.Delivery.{received}
use sib_tcp.Waiting.{register_subscriber}
use sib_tcp.Waiting.Registering.{with_request, register_free}
use sib_tcp.Consistency.{Faults}
use sib_tcp.Request.{buffer, query_type_of}
use sib_tcp.Request.Handlers.{query_status}
use sib_tcp.Request.Operations.{if_typed}
use sib_tcp.Request.Refused.{NotTaken, attempted, typed_refused}
use sib_tcp.Subscribe.{on_confirmation, conclude, not_sent, listener_handle_subscribe}

module _ {Msg : Type 0} (lib : Sibmsg Msg) (env : Env) (fd : ℕ) (msg : Msg) (s : State Msg) where
  -- A confirmation of a subscription with a status other than 2, for a subscription id that is not
  -- registered: if memory is there and the response can be built, the handler registers the
  -- subscription, removes it again, which frees its waiter, and then reads that waiter. No
  -- socket has been given anything.
  pub refused_subscription-Faults :
      (p : ℕ) (rsp : Msg) (k : ℕ) (text : Bytes)
      → env.allocates s.clock ≡ true
      → lookup (lib.get_subscriptionid rsp) s.subscriptions ≡ none
      → int_eq (lib.get_msg_status rsp) (pos 2) ≡ false
      → buffer lib env (
          lib.create_subscribe_response
            (lib.get_nodeid rsp)
            (lib.get_spaceid rsp)
            (lib.get_msgnumber rsp)
            (lib.get_msg_status rsp)
            (some (lib.get_subscriptionid rsp))
            (lib.get_m3xml rsp))
        ≡ some text
      → Faults
          (λ t. received k t.trace ≡ received k s.trace)
          (on_confirmation lib env fd msg p (some rsp) s)
  unfolding on_confirmation conclude register_subscriber waiter_new waiter_destroy
      listener_add_subscription listener_remove_subscription
  refused_subscription-Faults p rsp k text memory free status built =
      rw
        (
          memory,
          free,
          ==_refl s.next,
          built,
          conclude,
          status,
          lookup-insert subid subid s.next s.subscriptions,
          bytes_eq_refl subid,
          ==_refl s.next,
          ==_refl s.next,
        )
        (refl, refl)
    where
      subid : Bytes
      subid = lib.get_subscriptionid rsp

  abbrev pub style : QueryType
  style = query_type_of (lib.get_query_style msg)

  abbrev pub subscription_call : Call
  subscription_call =
      send_subscribe (lib.get_spaceid msg) (lib.get_nodeid msg) (lib.get_msgnumber msg) style
        (lib.get_m3xml msg)

  abbrev pub key : Bytes
  key = get_request_key (lib.get_nodeid msg) (lib.get_msgnumber msg)

  not_sent-Faults :
      (o : Option Call) (k : ℕ) (text : Bytes)
      → Faults
          (λ t. received k t.trace ≡ received k s.trace)
          ((do
            listener_remove_request (lib.get_nodeid msg) (lib.get_msgnumber msg)
            not_sent lib env msg s.next (some text))
            (attempted o (with_request env fd (lib.get_nodeid msg) (lib.get_msgnumber msg) s)))
  unfolding listener_remove_request waiter_destroy not_sent received
  not_sent-Faults none k text =
      rw
        (lookup-insert key key s.next s.requests, bytes_eq_refl key, ==_refl s.next, ==_refl s.next)
        (refl, refl)
  not_sent-Faults (some call) k text =
      rw
        (lookup-insert key key s.next s.requests, bytes_eq_refl key, ==_refl s.next, ==_refl s.next)
        (refl, refl)

  -- A subscribe request with a query that is not supported, or that the daemon does not take: if
  -- its key is free, memory is there and the response can be built, the handler reads a waiter
  -- that it has freed, and no socket has been given anything.
  pub refused_subscribe-Faults :
      (k : ℕ) (text : Bytes)
      → env.allocates s.clock ≡ true
      → lookup key s.requests ≡ none
      → NotTaken env (s.clock + 1) (if_typed style subscription_call)
      → buffer lib env (
          lib.create_subscribe_response
            (lib.get_nodeid msg)
            (lib.get_spaceid msg)
            (lib.get_msgnumber msg)
            (query_status lib env style)
            none
            none)
        ≡ some text
      → Faults
          (λ t. received k t.trace ≡ received k s.trace)
          (listener_handle_subscribe lib env fd msg s)
  unfolding listener_handle_subscribe
  refused_subscribe-Faults k text memory free refused built =
      rw
        (
          register_free env fd (lib.get_nodeid msg) (lib.get_msgnumber msg) s memory free,
          typed_refused lib env style subscription_call
              (with_request env fd (lib.get_nodeid msg) (lib.get_msgnumber msg) s) refused,
          built,
        )
        (not_sent-Faults (if_typed style subscription_call) k text)
