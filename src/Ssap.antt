-- ===== src/Ssap.antt =====
-- The two libraries that src/main.c is written against and that are not part of the repository:
-- the SSAP message library (sibmsg.h: NodeMsgContent_t, parseSSAPmsg_*, nodemsgcontent_*,
-- ssBufDesc_*) and the D-Bus proxy of the SIB daemon (sib_object.h: sib_object_send_*).
-- The constants that src/main.c names are data types; the functions are the fields of `Sibmsg`, a
-- parameter of everything that calls them. A node id, a space id and a subscription id are strings
-- (not NULL); where the code passes or tests for NULL the type is `Option Bytes`.
use sib_tcp.Prelude.{ℤ, Option, Bytes}

-- MSG_N_*, as `parseSSAPmsg_get_name` returns them; `unknown` stands for every other value.
pub data Name : Type 0 where
  not_set join leave insert update remove query subscribe unsubscribe unknown : Name

-- MSG_T_*; `other` stands for every type but the two that are tested for.
pub data Kind : Type 0 where
  ind cnf other : Kind

-- MSG_G_*.
pub data GraphStyle : Type 0 where
  tmpl rdf other_graph : GraphStyle

-- MSG_Q_*; `unknown_query` stands for the values of the `default` branch.
pub data QueryStyle : Type 0 where
  q_not_set n3 q_tmpl sparql wql_values wql_nodetypes wql_related wql_istype : QueryStyle
  wql_issubtype unknown_query : QueryStyle

-- `EncodingType` and `QueryType` of sib_object.h.
pub data EncodingType : Type 0 where
  m3xml rdfxml invalid_encoding : EncodingType

pub data QueryType : Type 0 where
  template sparql_select values nodetypes related istype issubtype invalid_query : QueryType

-- A call of `sib_object_send_*`: the request that goes to the SIB daemon.
pub data Call : Type 0 where
  send_join : (space node : Bytes) (msgnum : ℤ) (credentials : Bytes) → Call
  send_leave : (space node : Bytes) (msgnum : ℤ) → Call
  send_insert :
      (space node : Bytes) (msgnum : ℤ) (encoding : EncodingType) (graph : Option Bytes) → Call
  send_remove :
      (space node : Bytes) (msgnum : ℤ) (encoding : EncodingType) (graph : Option Bytes) → Call
  send_update :
      (space node : Bytes) (msgnum : ℤ) (encoding : EncodingType) (inserted removed : Option Bytes)
      → Call
  send_query : (space node : Bytes) (msgnum : ℤ) (style : QueryType) (text : Option Bytes) → Call
  send_subscribe :
      (space node : Bytes) (msgnum : ℤ) (style : QueryType) (text : Option Bytes) → Call
  send_unsubscribe : (space node : Bytes) (msgnum : ℤ) (subid : Bytes) → Call

-- What a builder `ssBufDesc_Create*` gives: its status, and the text of the buffer that it filled.
pub record Built : Type 0 where
  pub status : ℤ
  pub text : Bytes

-- The message library over its opaque type of messages.
pub record Sibmsg (Msg : Type 0) : Type 0 where
  pub ss_status_ok : ℤ
  pub ss_operation_failed : ℤ
  pub ss_sib_fail_not_impl : ℤ
  pub ss_parsing_in_progress : ℤ
  -- parseSSAPmsg_get_*
  pub get_name : Msg → Name
  pub get_type : Msg → Kind
  pub get_nodeid : Msg → Bytes
  pub get_spaceid : Msg → Bytes
  pub get_msgnumber : Msg → ℤ
  pub get_msg_status : Msg → ℤ
  pub get_graph_style : Msg → GraphStyle
  pub get_query_style : Msg → QueryStyle
  pub get_credentials : Msg → Option Bytes
  pub get_insert_graph : Msg → Option Bytes
  pub get_remove_graph : Msg → Option Bytes
  pub get_m3xml : Msg → Option Bytes
  pub get_subscriptionid : Msg → Bytes
  pub get_update_sequence : Msg → ℤ
  pub get_results_added : Msg → Option Bytes
  pub get_results_removed : Msg → Option Bytes
  -- parseSSAPmsg_new, parseSSAPmsg_section (which also changes the message) and
  -- parseSSAPmsg_parsedbytecount
  pub new_message : Msg
  pub parse_section : Msg → Bytes → ℤ × Msg
  pub parsedbytecount : Msg → ℤ
  -- nodemsgcontent_new_*_rsp: space id, node id, message number, status, payload
  pub new_join_rsp : Bytes → Bytes → ℤ → ℤ → Msg
  pub new_leave_rsp : Bytes → Bytes → ℤ → ℤ → Msg
  pub new_insert_rsp : Bytes → Bytes → ℤ → ℤ → Option Bytes → Msg
  pub new_remove_rsp : Bytes → Bytes → ℤ → ℤ → Msg
  pub new_update_rsp : Bytes → Bytes → ℤ → ℤ → Option Bytes → Msg
  pub new_query_rsp : Bytes → Bytes → ℤ → ℤ → Option Bytes → Msg
  pub new_subscribe_rsp : Bytes → Bytes → ℤ → ℤ → Bytes → Option Bytes → Msg
  pub new_subscription_ind : Bytes → Bytes → ℤ → ℤ → Bytes → Option Bytes → Option Bytes → Msg
  pub new_unsubscribe_rsp : Bytes → Bytes → ℤ → ℤ → Bytes → Msg
  -- ssBufDesc_Create*: node id, space id, message number, then as in the call
  pub create_join_response : Bytes → Bytes → ℤ → ℤ → Built
  pub create_leave_response : Bytes → Bytes → ℤ → ℤ → Built
  pub create_insert_response : Bytes → Bytes → ℤ → ℤ → Option Bytes → Built
  pub create_remove_response : Bytes → Bytes → ℤ → ℤ → Built
  pub create_update_response : Bytes → Bytes → ℤ → ℤ → Option Bytes → Built
  pub create_query_response : Bytes → Bytes → ℤ → ℤ → Option Bytes → Built
  pub create_subscribe_response : Bytes → Bytes → ℤ → ℤ → Option Bytes → Option Bytes → Built
  pub create_subscription_ind : Bytes → Bytes → ℤ → ℤ → Bytes → Option Bytes → Option Bytes → Built
  pub create_unsubscribe_response : Bytes → Bytes → ℤ → ℤ → Bytes → Built
