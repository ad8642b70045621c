-- ===== src/Request/Handlers.antt =====
-- src/main.c, the six handlers `listener_handle_*` whose shape is `handle_request`.
use sib_tcp.Prelude.{ℕ, Bool, false, Option, none, some, [], ℤ, Bytes}
use sib_tcp.Ssap.{
  Sibmsg, EncodingType, QueryType, invalid_encoding, invalid_query, send_join, send_leave,
  send_insert, send_remove, send_update, send_query,
}
use sib_tcp.World.{Env}
use sib_tcp.State.{M, pure, tick, ◌>>=◌}
use sib_tcp.Request.{Exchange, encoding_of, query_type_of, call_daemon, handle_request}

abbrev pub text_or_empty : Option Bytes → Bytes
text_or_empty none = []
text_or_empty (some t) = t

module _ {Msg : Type 0} (lib : Sibmsg Msg) (env : Env) where
  open lib use {get_nodeid, get_spaceid, get_msgnumber, get_msg_status}

  -- A request with an encoding that is not supported is not sent.
  unfoldable pub call_if_encoded : EncodingType → M Msg Bool → M Msg Bool
  call_if_encoded invalid_encoding call = pure false
  call_if_encoded _ call = call

  unfoldable pub call_if_typed : QueryType → M Msg Bool → M Msg Bool
  call_if_typed invalid_query call = pure false
  call_if_typed _ call = call

  -- `status` in insert, remove and update: it is assigned only if the encoding is invalid.
  unfoldable pub encoding_status : EncodingType → M Msg ℤ
  encoding_status invalid_encoding = pure lib.ss_sib_fail_not_impl
  encoding_status _ = tick env.indeterminate

  unfoldable pub query_status : QueryType → ℤ
  query_status invalid_query = lib.ss_sib_fail_not_impl
  query_status _ = lib.ss_operation_failed

  unfoldable pub join_exchange : Msg → Exchange Msg
  unfolding call_daemon
  join_exchange msg = record {
    dispatch = call_daemon lib env (
        send_join (get_spaceid msg) (get_nodeid msg) (get_msgnumber msg)
          (text_or_empty (lib.get_credentials msg)));
    refusal = pure (
        lib.create_join_response (get_nodeid msg) (get_spaceid msg) (get_msgnumber msg)
          lib.ss_operation_failed);
    reply = λ rsp.
        lib.create_join_response (get_nodeid rsp) (get_spaceid rsp) (get_msgnumber rsp)
          (get_msg_status rsp);
  }

  unfoldable pub leave_exchange : Msg → Exchange Msg
  unfolding call_daemon
  leave_exchange msg = record {
    dispatch =
        call_daemon lib env (send_leave (get_spaceid msg) (get_nodeid msg) (get_msgnumber msg));
    refusal = pure (
        lib.create_leave_response (get_nodeid msg) (get_spaceid msg) (get_msgnumber msg)
          lib.ss_operation_failed);
    reply = λ rsp.
        lib.create_leave_response (get_nodeid rsp) (get_spaceid rsp) (get_msgnumber rsp)
          (get_msg_status rsp);
  }

  unfoldable pub insert_exchange : Msg → Exchange Msg
  unfolding call_daemon call_if_encoded encoding_status encoding_of
  insert_exchange msg = record {
    dispatch = call_if_encoded (encoding_of (lib.get_graph_style msg)) (
        call_daemon lib env (
          send_insert (get_spaceid msg) (get_nodeid msg) (get_msgnumber msg)
            (encoding_of (lib.get_graph_style msg)) (lib.get_insert_graph msg)));
    refusal = do
      status ← encoding_status (encoding_of (lib.get_graph_style msg))
      pure (
          lib.create_insert_response (get_nodeid msg) (get_spaceid msg) (get_msgnumber msg) status
            none);
    reply = λ rsp.
        lib.create_insert_response (get_nodeid rsp) (get_spaceid rsp) (get_msgnumber rsp)
          (get_msg_status rsp) (lib.get_insert_graph rsp);
  }

  unfoldable pub remove_exchange : Msg → Exchange Msg
  unfolding call_daemon call_if_encoded encoding_status encoding_of
  remove_exchange msg = record {
    dispatch = call_if_encoded (encoding_of (lib.get_graph_style msg)) (
        call_daemon lib env (
          send_remove (get_spaceid msg) (get_nodeid msg) (get_msgnumber msg)
            (encoding_of (lib.get_graph_style msg)) (lib.get_remove_graph msg)));
    refusal = do
      status ← encoding_status (encoding_of (lib.get_graph_style msg))
      pure (
          lib.create_remove_response (get_nodeid msg) (get_spaceid msg) (get_msgnumber msg) status);
    reply = λ rsp.
        lib.create_remove_response (get_nodeid rsp) (get_spaceid rsp) (get_msgnumber rsp)
          (get_msg_status rsp);
  }

  unfoldable pub update_exchange : Msg → Exchange Msg
  unfolding call_daemon call_if_encoded encoding_status encoding_of
  update_exchange msg = record {
    dispatch = call_if_encoded (encoding_of (lib.get_graph_style msg)) (
        call_daemon lib env (
          send_update (get_spaceid msg) (get_nodeid msg) (get_msgnumber msg)
            (encoding_of (lib.get_graph_style msg)) (lib.get_insert_graph msg)
            (lib.get_remove_graph msg)));
    refusal = do
      status ← encoding_status (encoding_of (lib.get_graph_style msg))
      pure (
          lib.create_update_response (get_nodeid msg) (get_spaceid msg) (get_msgnumber msg) status
            none);
    reply = λ rsp.
        lib.create_update_response (get_nodeid rsp) (get_spaceid rsp) (get_msgnumber rsp)
          (get_msg_status rsp) (lib.get_m3xml rsp);
  }

  unfoldable pub query_exchange : Msg → Exchange Msg
  unfolding call_daemon call_if_typed query_status query_type_of
  query_exchange msg = record {
    dispatch = call_if_typed (query_type_of (lib.get_query_style msg)) (
        call_daemon lib env (
          send_query (get_spaceid msg) (get_nodeid msg) (get_msgnumber msg)
            (query_type_of (lib.get_query_style msg)) (lib.get_m3xml msg)));
    refusal = pure (
        lib.create_query_response (get_nodeid msg) (get_spaceid msg) (get_msgnumber msg)
          (query_status (query_type_of (lib.get_query_style msg))) none);
    reply = λ rsp.
        lib.create_query_response (get_nodeid rsp) (get_spaceid rsp) (get_msgnumber rsp)
          (get_msg_status rsp) (lib.get_m3xml rsp);
  }

  unfoldable pub listener_handle_join : ℕ → Msg → M Msg (Unit {0})
  unfolding join_exchange
  listener_handle_join fd msg = handle_request lib env (join_exchange msg) fd msg

  unfoldable pub listener_handle_leave : ℕ → Msg → M Msg (Unit {0})
  unfolding leave_exchange
  listener_handle_leave fd msg = handle_request lib env (leave_exchange msg) fd msg

  unfoldable pub listener_handle_insert : ℕ → Msg → M Msg (Unit {0})
  unfolding insert_exchange
  listener_handle_insert fd msg = handle_request lib env (insert_exchange msg) fd msg

  unfoldable pub listener_handle_remove : ℕ → Msg → M Msg (Unit {0})
  unfolding remove_exchange
  listener_handle_remove fd msg = handle_request lib env (remove_exchange msg) fd msg

  unfoldable pub listener_handle_update : ℕ → Msg → M Msg (Unit {0})
  unfolding update_exchange
  listener_handle_update fd msg = handle_request lib env (update_exchange msg) fd msg

  unfoldable pub listener_handle_query : ℕ → Msg → M Msg (Unit {0})
  unfolding query_exchange
  listener_handle_query fd msg = handle_request lib env (query_exchange msg) fd msg
