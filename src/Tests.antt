-- ===== src/Tests.antt =====
-- A message library and a system on which the theorems are tried: messages are records of what
-- their accessors return, and a socket takes two bytes at a time.
mod Requests
mod Subscriptions
mod Connections
mod Accepting
mod Starting
mod Registering
mod Interleavings
mod Streams
mod Enciphering
mod Conveying
mod Serving
mod Indications
mod Unsubscriptions
use sib_tcp.Prelude.{
  ℕ, zero, suc, ℤ, pos, negsuc, Bool, true, false, Option, none, some, List, [], ◌∷◌, ◌++◌, Bytes,
  codes, refl, arith, ◌==◌, if◌then◌else◌,
}
use sib_tcp.Ssap.{
  Sibmsg, Built, Name, join, leave, insert, remove, update, query, subscribe, unsubscribe, Kind,
  ind, cnf, other, GraphStyle, rdf, QueryStyle, q_tmpl,
}
use sib_tcp.World.{Env, Event}
use sib_tcp.State.{State}
use sib_tcp.Consistency.{IsConsistent}
use sib_tcp.Socket.Delivery.{Delivers}
use sib_tcp.Waiting.Registering.{new_waiter}
use sib_tcp.Table.Uses.{uses}

pub record Note : Type 0 where
  pub name : Name
  pub kind : Kind
  pub node : Bytes
  pub space : Bytes
  pub num : ℤ
  pub status : ℤ
  pub subid : Bytes
  pub payload : Option Bytes

abbrev pub note : Name → Kind → Bytes → Bytes → ℤ → ℤ → Bytes → Option Bytes → Note
note name kind space node num status subid payload = record {
  name = name;
  kind = kind;
  node = node;
  space = space;
  num = num;
  status = status;
  subid = subid;
  payload = payload;
}

abbrev reply : (ℤ → ℤ) → Bytes → ℤ → Built
reply f node v = record { status = f v; text = node ++ codes "!" }

-- The argument says which status a builder returns for which status of a response.
abbrev pub toy : (ℤ → ℤ) → Sibmsg Note
toy f = record {
  ss_status_ok = pos 0;
  ss_operation_failed = pos 3;
  ss_sib_fail_not_impl = pos 4;
  ss_parsing_in_progress = pos 1;
  get_name = λ m. m.name;
  get_type = λ m. m.kind;
  get_nodeid = λ m. m.node;
  get_spaceid = λ m. m.space;
  get_msgnumber = λ m. m.num;
  get_msg_status = λ m. m.status;
  get_graph_style = λ m. rdf;
  get_query_style = λ m. q_tmpl;
  get_credentials = λ m. none;
  get_insert_graph = λ m. m.payload;
  get_remove_graph = λ m. m.payload;
  get_m3xml = λ m. m.payload;
  get_subscriptionid = λ m. m.subid;
  get_update_sequence = λ m. pos 0;
  get_results_added = λ m. m.payload;
  get_results_removed = λ m. none;
  new_message = note Name.not_set other [] [] (pos 0) (pos 0) [] none;
  parse_section = λ m b. (pos 1, m);
  parsedbytecount = λ m. pos 0;
  new_join_rsp = λ s n k v. note join cnf s n k v [] none;
  new_leave_rsp = λ s n k v. note leave cnf s n k v [] none;
  new_insert_rsp = λ s n k v b. note insert cnf s n k v [] b;
  new_remove_rsp = λ s n k v. note remove cnf s n k v [] none;
  new_update_rsp = λ s n k v b. note update cnf s n k v [] b;
  new_query_rsp = λ s n k v b. note query cnf s n k v [] b;
  new_subscribe_rsp = λ s n k v i b. note subscribe cnf s n k v i b;
  new_subscription_ind = λ s n k v i b c. note subscribe ind s n k v i b;
  new_unsubscribe_rsp = λ s n k v i. note unsubscribe cnf s n k v i none;
  create_join_response = λ n s k v. reply f n v;
  create_leave_response = λ n s k v. reply f n v;
  create_insert_response = λ n s k v b. reply f n v;
  create_remove_response = λ n s k v. reply f n v;
  create_update_response = λ n s k v b. reply f n v;
  create_query_response = λ n s k v b. reply f n v;
  create_subscribe_response = λ n s k v i b. reply f n v;
  create_subscription_ind = λ n s k v i b c. reply f n (pos 0);
  create_unsubscribe_response = λ n s k v i. reply f n v;
}

-- The daemon answers `answer`, and others do `others` whenever a thread waits.
abbrev pub system : ℤ → List (List Event) → Env
system answer others = record {
  allocates = λ t. true;
  dbus_result = λ t c. answer;
  so_error = λ t fd. pos 0;
  send_result = λ t fd buf. some 2;
  recv_result = λ t fd. none;
  indeterminate = λ t. pos 7;
  waits = λ t. others;
  rounds = 50;
}

abbrev pub idle_state : State Note
idle_state = record {
  requests = [];
  subscriptions = [];
  heap = λ p. none;
  next = 0;
  trace = [];
  clock = 0;
}

pub idle_state-IsConsistent : IsConsistent idle_state
unfolding uses
idle_state-IsConsistent = record { owned = λ p. omega arith; fresh = λ p h. refl }

pub system-Delivers :
    (answer : ℤ) (others : List (List Event)) (fd : ℕ) → Delivers (system answer others) fd
system-Delivers answer others fd = record { sound = λ t. refl; progress = λ t c buf. (1, refl) }

-- A state in which the request with this key waits, on the waiter 0, for the client at socket 4.
abbrev pub pending_state : Bytes → State Note
pending_state key = record {
  requests = (key, 0) ∷ [];
  subscriptions = [];
  heap = λ p. if p == 0 then some (new_waiter key 4) else none;
  next = 1;
  trace = [];
  clock = 0;
}

pub pending_state-IsConsistent : (key : Bytes) → IsConsistent (pending_state key)
unfolding uses
pending_state-IsConsistent key = record { owned = λ p. ground arith; fresh = λ p h. ground arith }

-- A state in which the subscription `i` stands, on the waiter 0, for the client at socket 4.
abbrev pub subscribed_state : State Note
subscribed_state = record {
  requests = [];
  subscriptions = (codes "i", 0) ∷ [];
  heap = λ p. if p == 0 then some (new_waiter (codes "i") 4) else none;
  next = 1;
  trace = [];
  clock = 0;
}

pub subscribed_state-IsConsistent : IsConsistent subscribed_state
unfolding uses
subscribed_state-IsConsistent = record { owned = λ p. ground arith; fresh = λ p h. ground arith }
