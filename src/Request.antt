-- ===== src/Request.antt =====
-- src/main.c, `listener_handle_join`, `_leave`, `_insert`, `_remove`, `_update` and `_query`: one
-- request of a client is passed on to the SIB daemon, and the confirmation is sent back.
-- The six functions have one shape. `handle_request` is that shape, and an `Exchange` is
-- what a handler puts into it.
pub mod Handlers
pub mod Operations
pub mod Completing
pub mod Dispatching
pub mod Answering
pub mod Served
pub mod Duplicate
pub mod Refused
use sib_tcp.Prelude.{
  ℕ, Bool, true, false, Option, none, some, ℤ, Bytes, int_eq, is_neg, if◌then◌else◌,
}
use sib_tcp.Ssap.{
  Sibmsg, Built, Call, GraphStyle, tmpl, rdf, other_graph, EncodingType, m3xml, rdfxml,
  invalid_encoding, QueryStyle, q_not_set, n3, q_tmpl, sparql, wql_values, wql_nodetypes,
  wql_related, wql_istype, wql_issubtype, unknown_query, QueryType, template, sparql_select, values,
  nodetypes, related, istype, issubtype, invalid_query,
}
use sib_tcp.World.{Env}
use sib_tcp.State.{M, pure, gets, load, tick, emit, dbus, ◌>>=◌, ◌>>◌}
use sib_tcp.Waiting.{register_waiter, waiter_wait_for_finished}
use sib_tcp.Listener.{listener_add_request, listener_remove_request}
use sib_tcp.Socket.{client_send_message}

-- The `if` ladder over the graph style in insert, remove and update.
unfoldable pub encoding_of : GraphStyle → EncodingType
encoding_of tmpl = m3xml
encoding_of rdf = rdfxml
encoding_of other_graph = invalid_encoding

-- The `switch` over the query style in query and subscribe.
unfoldable pub query_type_of : QueryStyle → QueryType
query_type_of q_not_set = invalid_query
query_type_of n3 = invalid_query
query_type_of q_tmpl = template
query_type_of sparql = sparql_select
query_type_of wql_values = values
query_type_of wql_nodetypes = nodetypes
query_type_of wql_related = related
query_type_of wql_istype = istype
query_type_of wql_issubtype = issubtype
query_type_of unknown_query = invalid_query

-- What one handler puts in: the call to the daemon (true if it went out), the response to a
-- request that did not go out, and the response to a confirmation.
pub record Exchange (Msg : Type 0) : Type 0 where
  pub dispatch : M Msg Bool
  pub refusal : M Msg Built
  pub reply : Msg → Built

module _ {Msg : Type 0} (lib : Sibmsg Msg) (env : Env) where
  -- `sib_object_send_* (…) < 0`, negated
  unfoldable pub call_daemon : Call → M Msg Bool
  call_daemon call = do
    ret ← tick λ t. env.dbus_result t call
    emit (dbus call)
    elim (is_neg ret) [ true ↦ pure false | false ↦ pure true ]

  -- `if (ss_StatusOK != ssBufDesc_Create* (bd, …)) ssBufDesc_free (&bd);`: the buffer, or NULL
  unfoldable pub buffer : Built → Option Bytes
  buffer b = elim (int_eq b.status lib.ss_status_ok) [ true ↦ some b.text | false ↦ none ]

  -- `if (waiter->rsp) { bd = …; }`
  unfoldable pub reply_buffer : (Msg → Built) → Option Msg → Option Bytes
  unfolding buffer
  reply_buffer reply none = none
  reply_buffer reply (some rsp) = buffer (reply rsp)

  -- From the call of the daemon to the response that is to be sent, if there is one.
  unfoldable pub exchange : Exchange Msg → Msg → ℕ → M Msg (Option Bytes)
  exchange x msg p = do
    out ← x.dispatch
    elim out [
      | true ↦ do waiter_wait_for_finished lib env p; w ← load p; pure (reply_buffer x.reply w.rsp)
      | false ↦ do
        listener_remove_request (lib.get_nodeid msg) (lib.get_msgnumber msg)
        b ← x.refusal
        pure (buffer b)
    ]

  -- `if (bd && waiter) { client_send_message (waiter->fd, …); listener_remove_request (…); … }`
  unfoldable pub respond : Msg → ℕ → Option Bytes → M Msg (Unit {0})
  respond msg p none = pure tt
  respond msg p (some text) = do
    w ← load p
    client_send_message env w.fd text
    listener_remove_request (lib.get_nodeid msg) (lib.get_msgnumber msg)
    pure tt

  unfoldable pub serve_waiter : Exchange Msg → Msg → Option ℕ → M Msg (Unit {0})
  unfolding exchange respond
  serve_waiter x msg none = pure tt
  serve_waiter x msg (some p) = do bd ← exchange x msg p; respond msg p bd

  unfoldable pub handle_request : Exchange Msg → ℕ → Msg → M Msg (Unit {0})
  unfolding serve_waiter
  handle_request x fd msg = do
    waiter ←
        register_waiter env fd (listener_add_request (lib.get_nodeid msg) (lib.get_msgnumber msg))
    serve_waiter x msg waiter
