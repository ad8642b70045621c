-- ===== src/Service/Refusing.antt =====
-- A request of any kind that does not go out to the daemon.
use sib_tcp.Prelude.{ℕ, ◌+◌, ◌≡◌, true, Option, none, some, ℤ, Bytes}
use sib_tcp.Ssap.{
  Sibmsg, Built, Call, Name, not_set, join, leave, insert, update, remove, query, subscribe,
  unsubscribe, unknown, send_subscribe, send_unsubscribe,
}
use sib_tcp.Key.{get_request_key}
use sib_tcp.Table.{lookup}
use sib_tcp.World.{Env}
use sib_tcp.State.{State}
use sib_tcp.Socket.Delivery.{received}
use sib_tcp.Request.{buffer, query_type_of}
use sib_tcp.Request.Handlers.{query_status}
use sib_tcp.Request.Operations.{
  joins, leaves, inserts, removes, updates, queries, call_of, if_typed,
}
use sib_tcp.Request.Refused.{NotTaken, refused_response, refused-Faults}
use sib_tcp.Subscribe.Faults.{refused_subscribe-Faults}
use sib_tcp.Unsubscribe.Faults.{refused_unsubscribe-Faults}
use sib_tcp.Service.{serve_name, listener_handle_request}
use sib_tcp.Consistency.{Faults}

-- The message asks for something.
abbrev pub IsRequest : Name → Type 0
IsRequest not_set = ⊥
IsRequest unknown = ⊥
IsRequest _ = Unit

module _ {Msg : Type 0} (lib : Sibmsg Msg) where
  open lib use {get_nodeid, get_spaceid, get_msgnumber, get_subscriptionid}

  -- What the daemon is to be asked; `none` if the request is of an unsupported form.
  abbrev pub asked : Name → Msg → Option Call
  asked join msg = call_of lib joins msg
  asked leave msg = call_of lib leaves msg
  asked insert msg = call_of lib inserts msg
  asked update msg = call_of lib updates msg
  asked remove msg = call_of lib removes msg
  asked query msg = call_of lib queries msg
  asked subscribe msg = if_typed (query_type_of (lib.get_query_style msg)) (
      send_subscribe (get_spaceid msg) (get_nodeid msg) (get_msgnumber msg)
        (query_type_of (lib.get_query_style msg)) (lib.get_m3xml msg))
  asked unsubscribe msg = some (
      send_unsubscribe (get_spaceid msg) (get_nodeid msg) (get_msgnumber msg)
        (get_subscriptionid msg))
  asked _ msg = none

  -- The response that says that it did not; `v` is the value of a status that was never assigned.
  abbrev pub regret : Env → Name → Msg → ℤ → Built
  regret env join msg v = refused_response lib env joins msg v
  regret env leave msg v = refused_response lib env leaves msg v
  regret env insert msg v = refused_response lib env inserts msg v
  regret env update msg v = refused_response lib env updates msg v
  regret env remove msg v = refused_response lib env removes msg v
  regret env query msg v = refused_response lib env queries msg v
  regret env subscribe msg v =
      lib.create_subscribe_response (get_nodeid msg) (get_spaceid msg) (get_msgnumber msg)
        (query_status lib env (query_type_of (lib.get_query_style msg))) none none
  regret env _ msg v =
      lib.create_unsubscribe_response (get_nodeid msg) (get_spaceid msg) (get_msgnumber msg)
        lib.ss_operation_failed (get_subscriptionid msg)

  module _ (env : Env) (fd : ℕ) (msg : Msg) (s : State Msg) (k : ℕ)
      (memory : env.allocates s.clock ≡ true)
      (free : lookup (get_request_key (get_nodeid msg) (get_msgnumber msg)) s.requests ≡ none) where
    refused_name-Faults :
        (name : Name)
        → IsRequest name
        → NotTaken env (s.clock + 1) (asked name msg)
        → ((v : ℤ) → (text : Bytes) × (buffer lib env (regret env name msg v) ≡ some text))
        → Faults (λ t. received k t.trace ≡ received k s.trace) (serve_name lib env name fd msg s)
    unfolding serve_name
    refused_name-Faults not_set r h b = absurd r
    refused_name-Faults unknown r h b = absurd r
    refused_name-Faults join r h b = refused-Faults lib env joins fd msg s k memory free h b
    refused_name-Faults leave r h b = refused-Faults lib env leaves fd msg s k memory free h b
    refused_name-Faults insert r h b = refused-Faults lib env inserts fd msg s k memory free h b
    refused_name-Faults update r h b = refused-Faults lib env updates fd msg s k memory free h b
    refused_name-Faults remove r h b = refused-Faults lib env removes fd msg s k memory free h b
    refused_name-Faults query r h b = refused-Faults lib env queries fd msg s k memory free h b
    refused_name-Faults subscribe r h b =
        let (text, e) = b lib.ss_status_ok in
        refused_subscribe-Faults lib env fd msg s k text memory free h e
    refused_name-Faults unsubscribe r h b =
        let (text, e) = b lib.ss_status_ok in
        refused_unsubscribe-Faults lib env fd msg s k text memory free h e

    -- A request of any of the eight kinds that is of an unsupported form, or that the daemon does not
    -- take: if its key is free, memory is there and the library can build the response, serving it
    -- reads a waiter that has been freed, and nothing has reached any client.
    pub refused_request-Faults :
        IsRequest (lib.get_name msg)
        → NotTaken env (s.clock + 1) (asked (lib.get_name msg) msg)
        → ((v : ℤ)
            → (text : Bytes) × (buffer lib env (regret env (lib.get_name msg) msg v) ≡ some text))
        → Faults
            (λ t. received k t.trace ≡ received k s.trace)
            (listener_handle_request lib env fd msg s)
    unfolding listener_handle_request
    refused_request-Faults r h b = refused_name-Faults (lib.get_name msg) r h b
