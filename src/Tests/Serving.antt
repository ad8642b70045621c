-- ===== src/Tests/Serving.antt =====
-- The theorem about a whole connection, at a concrete input.
use sib_tcp.Prelude.{
  ◌≤◌, Bool, ◌≡◌, refl, true, false, none, some, [], ◌∷◌, codes, bytes_eq, pos, arith, length, leb,
  if◌then◌else◌,
}
use sib_tcp.Ssap.{Sibmsg, join, other}
use sib_tcp.Key.{get_request_key}
use sib_tcp.Table.{lookup, insert}
use sib_tcp.World.{Env, join_cnf}
use sib_tcp.Consistency.{Returns}
use sib_tcp.Listener.{listener_add_request, listener_remove_request}
use sib_tcp.Waiting.{register_waiter, waiter_wait_for_finished, wait_rounds, run_events, run_event}
use sib_tcp.Callbacks.{handle_join_cnf}
use sib_tcp.Socket.{client_send_message}
use sib_tcp.Request.{buffer, handle_request, reply_buffer}
use sib_tcp.Request.Handlers.{join_exchange, listener_handle_join}
use sib_tcp.Request.Operations.{joins}
use sib_tcp.Client.{fresh_client, section_at, client_receive_message}
use sib_tcp.Client.Framing.{Counts, FitsBuffer}
use sib_tcp.Subscription.Streaming.{concat}
use sib_tcp.Service.{client_rounds, listener_handle_request}
use sib_tcp.Service.Answers.{Talks, Conversed, client_rounds-Conversed}
use sib_tcp.Tests.{Note, note, system, idle_state, idle_state-IsConsistent}
use sib_tcp.Tests.Connections.{
  counting, fresh_client-IsClient, section_of-text, section_of-count, section_of-limited,
}

-- What the parser makes of any three bytes or more is a request to join.
abbrev joining : Sibmsg Note
joining = record counting {
  new_message = note join other (codes "x") (codes "kp") (pos 12) (pos 0) [] none;
}

abbrev joining_counts : Counts joining 2
joining_counts = record {
  text = λ m. m.subid;
  text_new = refl;
  text_section = section_of-text;
  count = section_of-count;
  limited = section_of-limited;
}

-- Two pieces come, and then the end of the connection; the daemon confirms at once.
abbrev brief : Env
brief = record (system (pos 0) ((join_cnf (codes "x") (codes "kp") (pos 12) (pos 0) ∷ []) ∷ [])) {
  recv_result = λ t fd. if leb t 1 then some (codes "ab") else some [];
}

brief-FitsBuffer : FitsBuffer brief
brief-FitsBuffer t fd bytes e = few (leb t 1) e
  where
    few : (b : Bool) → (if b then some (codes "ab") else some []) ≡ some bytes → length bytes ≤ 128
    few true x = ground (arith, x)
    few false x = ground (arith, x)

brief-Talks : Talks joining brief (codes "kp!" ∷ []) (fresh_client 4) idle_state
unfolding Talks client_receive_message lookup bytes_eq buffer get_request_key join_exchange
    listener_handle_request section_at listener_handle_join handle_request register_waiter
    listener_add_request waiter_wait_for_finished wait_rounds run_events run_event handle_join_cnf
    insert reply_buffer client_send_message listener_remove_request
brief-Talks = (
  refl,
  record {
    op = joins;
    name = refl;
    call = _;
    space = codes "x";
    status = pos 0;
    payload = none;
    idle = [];
    before = [];
    after = [];
    rest = [];
    free = refl;
    supported = refl;
    taken = refl;
    others = refl;
    quiet = tt;
    first = tt;
    later = tt;
    built = refl;
    few = omega arith;
  },
  refl,
)

client_rounds-Conversed_example :
    Returns
      (Conversed joining brief 4 (concat (codes "kp!" ∷ [])) idle_state)
      (client_rounds joining brief 2 (fresh_client 4) idle_state)
client_rounds-Conversed_example =
    client_rounds-Conversed joining brief 2 joining_counts brief-FitsBuffer (omega arith)
      (λ t. refl) 4 (record { sound = λ t. refl; progress = λ t c b. (1, refl) }) (codes "kp!" ∷ [])
      2 (fresh_client 4) idle_state (omega arith) fresh_client-IsClient idle_state-IsConsistent refl
      brief-Talks
