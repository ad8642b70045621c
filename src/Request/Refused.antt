-- ===== src/Request/Refused.antt =====
-- A request that is not supported, or that the SIB daemon does not take.
use sib_tcp.Prelude.{
  ℕ, ◌+◌, ◌≡◌, refl, ◌∙◌, true, false, Option, none, some, ℤ, Bytes, ==_refl, is_neg, bytes_eq_refl,
}
use sib_tcp.Ssap.{Sibmsg, Built, Call, EncodingType, invalid_encoding, QueryType, invalid_query}
use sib_tcp.Key.{get_request_key}
use sib_tcp.Table.{lookup, insert, lookup-insert}
use sib_tcp.World.{Env}
use sib_tcp.State.{State, done, continue, pure}
use sib_tcp.Listener.{listener_remove_request}
use sib_tcp.Waiters.{waiter_destroy}
use sib_tcp.Socket.Delivery.{received}
use sib_tcp.Waiting.Registering.{with_request, register_free}
use sib_tcp.Request.{Exchange, call_daemon, buffer, respond, handle_request}
use sib_tcp.Request.Handlers.{
  call_if_encoded, call_if_typed, encoding_status, join_exchange, leave_exchange, insert_exchange,
  remove_exchange, update_exchange, query_exchange,
}
use sib_tcp.Request.{encoding_of}
use sib_tcp.Request.Operations.{
  Operation, joins, leaves, inserts, removes, updates, queries, call_of, exchange_of, handler,
  handler_lem, if_encoded, if_typed,
}
use sib_tcp.Consistency.{Faults}
use sib_tcp.Request.Dispatching.{called}

-- Not supported, or refused: the daemon's `int` at time `t` is negative.
abbrev pub NotTaken : Env → ℕ → Option Call → Type 0
NotTaken env t none = Unit
NotTaken env t (some call) = is_neg (env.dbus_result t call) ≡ true

-- The state after the attempt.
abbrev pub attempted : {Msg : Type 0} → Option Call → State Msg → State Msg
attempted none s = s
attempted (some call) s = called call s

module _ {Msg : Type 0} (lib : Sibmsg Msg) (env : Env) where
  -- The response to a request that was not taken, with its status.
  abbrev pub refused_response : Operation → Msg → ℤ → Built
  refused_response joins msg v =
      lib.create_join_response (lib.get_nodeid msg) (lib.get_spaceid msg) (lib.get_msgnumber msg) v
  refused_response leaves msg v =
      lib.create_leave_response (lib.get_nodeid msg) (lib.get_spaceid msg) (lib.get_msgnumber msg) v
  refused_response inserts msg v =
      lib.create_insert_response (lib.get_nodeid msg) (lib.get_spaceid msg) (lib.get_msgnumber msg)
        v none
  refused_response removes msg v =
      lib.create_remove_response (lib.get_nodeid msg) (lib.get_spaceid msg) (lib.get_msgnumber msg)
        v
  refused_response updates msg v =
      lib.create_update_response (lib.get_nodeid msg) (lib.get_spaceid msg) (lib.get_msgnumber msg)
        v none
  refused_response queries msg v =
      lib.create_query_response (lib.get_nodeid msg) (lib.get_spaceid msg) (lib.get_msgnumber msg) v
        none

  plain_refused :
      (c : Call) (s : State Msg)
      → NotTaken env s.clock (some c)
      → call_daemon lib env c s ≡ done false (called c s)
  unfolding call_daemon
  plain_refused c s h = rw h

  encoded_refused :
      (e : EncodingType) (c : Call) (s : State Msg)
      → NotTaken env s.clock (if_encoded e c)
      → call_if_encoded lib env e (call_daemon lib env c) s
        ≡ done false (attempted (if_encoded e c) s)
  unfolding call_if_encoded
  encoded_refused invalid_encoding c s h = refl
  encoded_refused _ c s h = plain_refused c s h

  pub typed_refused :
      (q : QueryType) (c : Call) (s : State Msg)
      → NotTaken env s.clock (if_typed q c)
      → call_if_typed lib env q (call_daemon lib env c) s ≡ done false (attempted (if_typed q c) s)
  unfolding call_if_typed
  typed_refused invalid_query c s h = refl
  typed_refused _ c s h = plain_refused c s h

  dispatch_refused :
      (op : Operation) (msg : Msg) (s : State Msg)
      → NotTaken env s.clock (call_of lib op msg)
      → (exchange_of lib env op msg).dispatch s ≡ done false (attempted (call_of lib op msg) s)
  unfolding join_exchange leave_exchange insert_exchange remove_exchange update_exchange
      query_exchange
  dispatch_refused joins msg s h = plain_refused _ s h
  dispatch_refused leaves msg s h = plain_refused _ s h
  dispatch_refused inserts msg s h = encoded_refused _ _ s h
  dispatch_refused removes msg s h = encoded_refused _ _ s h
  dispatch_refused updates msg s h = encoded_refused _ _ s h
  dispatch_refused queries msg s h = typed_refused _ _ s h

  status_total :
      (e : EncodingType) (s : State Msg)
      → (v : ℤ) × (k : ℕ) × (encoding_status lib env e s ≡ done v (record s { clock = k }))
  unfolding encoding_status
  status_total invalid_encoding s = (_, s.clock, refl)
  status_total _ s = (_, s.clock + 1, refl)

  refusal_total :
      (op : Operation) (msg : Msg) (s : State Msg)
      → (v : ℤ) × (k : ℕ) × ((exchange_of lib env op msg).refusal s
          ≡ done (refused_response op msg v) (record s { clock = k }))
  unfolding join_exchange leave_exchange insert_exchange remove_exchange update_exchange
      query_exchange
  refusal_total joins msg s = (_, s.clock, refl)
  refusal_total leaves msg s = (_, s.clock, refl)
  refusal_total queries msg s = (_, s.clock, refl)
  refusal_total inserts msg s =
      let (v, k, e) = status_total (encoding_of (lib.get_graph_style msg)) s in (v, k, rw e)
  refusal_total removes msg s =
      let (v, k, e) = status_total (encoding_of (lib.get_graph_style msg)) s in (v, k, rw e)
  refusal_total updates msg s =
      let (v, k, e) = status_total (encoding_of (lib.get_graph_style msg)) s in (v, k, rw e)

  module _ (fd : ℕ) (msg : Msg) (s : State Msg) where
    abbrev key : Bytes
    key = get_request_key (lib.get_nodeid msg) (lib.get_msgnumber msg)

    abbrev begun : State Msg
    begun = with_request env fd (lib.get_nodeid msg) (lib.get_msgnumber msg) s

    registered : lookup key (insert key s.next s.requests) ≡ some s.next
    registered = lookup-insert key key s.next s.requests ∙ (rw (bytes_eq_refl key))

    -- After the removal: the response is built, and the freed waiter is read.
    refused_tail :
        (x : Exchange Msg) (k : ℕ) (b : State Msg → Built) (u : State Msg)
        → ((v : State Msg) → (clock : ℕ) × (x.refusal v ≡ done (b v) (record v { clock = clock })))
        → ((v : State Msg) → (text : Bytes) × (buffer lib env (b v) ≡ some text))
        → u.heap s.next ≡ none
        → received k u.trace ≡ received k s.trace
        → Faults
            (λ t. received k t.trace ≡ received k s.trace)
            (continue
              (continue (x.refusal u) (λ r. pure (buffer lib env r)))
              (λ bd. respond lib env msg s.next bd))
    unfolding respond
    refused_tail x k b u ends built gone quiet =
        let (clock, e) = ends u in let (text, t) = built u in rw (e, t, gone) (refl, quiet)

    -- The response would be sent through a waiter that is gone.
    refused_exchange :
        (x : Exchange Msg) (o : Option Call) (k : ℕ) (b : State Msg → Built)
        → env.allocates s.clock ≡ true
        → lookup key s.requests ≡ none
        → x.dispatch begun ≡ done false (attempted o begun)
        → ((u : State Msg) → (clock : ℕ) × (x.refusal u ≡ done (b u) (record u { clock = clock })))
        → ((u : State Msg) → (text : Bytes) × (buffer lib env (b u) ≡ some text))
        → Faults (λ t. received k t.trace ≡ received k s.trace) (handle_request lib env x fd msg s)
    unfolding handle_request listener_remove_request waiter_destroy received
    refused_exchange x none k b memory free refused ends built =
        rw
          (
            register_free env fd (lib.get_nodeid msg) (lib.get_msgnumber msg) s memory free,
            refused,
            registered,
            ==_refl s.next,
          )
          (refused_tail x k b _ ends built (rw (==_refl s.next)) refl)
    refused_exchange x (some c) k b memory free refused ends built =
        rw
          (
            register_free env fd (lib.get_nodeid msg) (lib.get_msgnumber msg) s memory free,
            refused,
            registered,
            ==_refl s.next,
          )
          (refused_tail x k b _ ends built (rw (==_refl s.next)) refl)

  -- Each request that is of an unsupported form, or that the daemon does not take, makes its
  -- handler read a waiter that it has freed, and nothing reaches any client: whichever of the six
  -- kinds it is, if its key is free, memory is there and the library can build the response.
  pub refused-Faults :
      (op : Operation) (fd : ℕ) (msg : Msg) (s : State Msg) (k : ℕ)
      → env.allocates s.clock ≡ true
      → lookup (get_request_key (lib.get_nodeid msg) (lib.get_msgnumber msg)) s.requests ≡ none
      → NotTaken env (s.clock + 1) (call_of lib op msg)
      → ((v : ℤ) → (text : Bytes) × (buffer lib env (refused_response op msg v) ≡ some text))
      → Faults (λ t. received k t.trace ≡ received k s.trace) (handler lib env op fd msg s)
  refused-Faults op fd msg s k memory free refused built = rw (handler_lem lib env op fd msg) (
      refused_exchange fd msg s (exchange_of lib env op msg) (call_of lib op msg) k
        (λ u. refused_response op msg (refusal_total op msg u).0) memory free
        (dispatch_refused op msg (begun fd msg s) refused)
        (λ u. let (v, c, e) = refusal_total op msg u in (c, e))
        (λ u. built (refusal_total op msg u).0))
