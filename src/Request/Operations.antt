-- ===== src/Request/Operations.antt =====
-- The six kinds of request that src/main.c serves in one shape, with what belongs to each: its
-- handler, the call of the SIB daemon, the confirmation of that call and the response to it.
use sib_tcp.Prelude.{ℕ, ℤ, Option, none, some, Bytes, ◌≡◌, refl}
use sib_tcp.Ssap.{
  Sibmsg, Call, EncodingType, QueryType, invalid_encoding, invalid_query, send_join, send_leave,
  send_insert, send_remove, send_update, send_query,
}
use sib_tcp.World.{Env, Event, join_cnf, leave_cnf, insert_cnf, remove_cnf, update_cnf, query_cnf}
use sib_tcp.State.{M}
use sib_tcp.Request.{Exchange, handle_request, encoding_of, query_type_of}
use sib_tcp.Request.Handlers.{
  text_or_empty, join_exchange, leave_exchange, insert_exchange, remove_exchange, update_exchange,
  query_exchange, listener_handle_join, listener_handle_leave, listener_handle_insert,
  listener_handle_remove, listener_handle_update, listener_handle_query,
}

pub data Operation : Type 0 where
  joins leaves inserts removes updates queries : Operation

-- The signal that confirms a request, and the message that its handler makes of it. The last
-- argument is used by insert, update and query only.
abbrev pub confirmation : Operation → Bytes → Bytes → ℤ → ℤ → Option Bytes → Event
confirmation joins space node msgnum success payload = join_cnf space node msgnum success
confirmation leaves space node msgnum success payload = leave_cnf space node msgnum success
confirmation inserts space node msgnum success payload =
    insert_cnf space node msgnum success payload
confirmation removes space node msgnum success payload = remove_cnf space node msgnum success
confirmation updates space node msgnum success payload =
    update_cnf space node msgnum success payload
confirmation queries space node msgnum success payload = query_cnf space node msgnum success payload

-- A call with an encoding or a query type that is supported.
abbrev pub if_encoded : EncodingType → Call → Option Call
if_encoded invalid_encoding call = none
if_encoded _ call = some call

abbrev pub if_typed : QueryType → Call → Option Call
if_typed invalid_query call = none
if_typed _ call = some call

module _ {Msg : Type 0} (lib : Sibmsg Msg) where
  open lib use {get_nodeid, get_spaceid, get_msgnumber}

  abbrev pub response : Operation → Bytes → Bytes → ℤ → ℤ → Option Bytes → Msg
  response joins space node msgnum success payload = lib.new_join_rsp space node msgnum success
  response leaves space node msgnum success payload = lib.new_leave_rsp space node msgnum success
  response inserts space node msgnum success payload =
      lib.new_insert_rsp space node msgnum success payload
  response removes space node msgnum success payload = lib.new_remove_rsp space node msgnum success
  response updates space node msgnum success payload =
      lib.new_update_rsp space node msgnum success payload
  response queries space node msgnum success payload =
      lib.new_query_rsp space node msgnum success payload

  -- What the daemon is to be asked for a request; `none` if the request is of an unsupported form.
  abbrev pub call_of : Operation → Msg → Option Call
  call_of joins msg = some (
      send_join (get_spaceid msg) (get_nodeid msg) (get_msgnumber msg)
        (text_or_empty (lib.get_credentials msg)))
  call_of leaves msg = some (send_leave (get_spaceid msg) (get_nodeid msg) (get_msgnumber msg))
  call_of inserts msg = if_encoded (encoding_of (lib.get_graph_style msg)) (
      send_insert (get_spaceid msg) (get_nodeid msg) (get_msgnumber msg)
        (encoding_of (lib.get_graph_style msg)) (lib.get_insert_graph msg))
  call_of removes msg = if_encoded (encoding_of (lib.get_graph_style msg)) (
      send_remove (get_spaceid msg) (get_nodeid msg) (get_msgnumber msg)
        (encoding_of (lib.get_graph_style msg)) (lib.get_remove_graph msg))
  call_of updates msg = if_encoded (encoding_of (lib.get_graph_style msg)) (
      send_update (get_spaceid msg) (get_nodeid msg) (get_msgnumber msg)
        (encoding_of (lib.get_graph_style msg)) (lib.get_insert_graph msg)
        (lib.get_remove_graph msg))
  call_of queries msg = if_typed (query_type_of (lib.get_query_style msg)) (
      send_query (get_spaceid msg) (get_nodeid msg) (get_msgnumber msg)
        (query_type_of (lib.get_query_style msg)) (lib.get_m3xml msg))

  module _ (env : Env) where
    abbrev pub exchange_of : Operation → Msg → Exchange Msg
    exchange_of joins = join_exchange lib env
    exchange_of leaves = leave_exchange lib env
    exchange_of inserts = insert_exchange lib env
    exchange_of removes = remove_exchange lib env
    exchange_of updates = update_exchange lib env
    exchange_of queries = query_exchange lib env

    -- The handler of each kind.
    abbrev pub handler : Operation → ℕ → Msg → M Msg (Unit {0})
    handler joins = listener_handle_join lib env
    handler leaves = listener_handle_leave lib env
    handler inserts = listener_handle_insert lib env
    handler removes = listener_handle_remove lib env
    handler updates = listener_handle_update lib env
    handler queries = listener_handle_query lib env

    pub handler_lem :
        (op : Operation) (fd : ℕ) (msg : Msg)
        → handler op fd msg ≡ handle_request lib env (exchange_of op msg) fd msg
    unfolding listener_handle_join listener_handle_leave listener_handle_insert
        listener_handle_remove listener_handle_update listener_handle_query
    handler_lem joins fd msg = refl
    handler_lem leaves fd msg = refl
    handler_lem inserts fd msg = refl
    handler_lem removes fd msg = refl
    handler_lem updates fd msg = refl
    handler_lem queries fd msg = refl
