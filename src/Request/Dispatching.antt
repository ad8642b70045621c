-- ===== src/Request/Dispatching.antt =====
-- A request goes out to the SIB daemon.
use sib_tcp.Prelude.{◌+◌, ◌≡◌, true, false, some, ◌∷◌, arith, is_neg}
use sib_tcp.Ssap.{
  Sibmsg, Call, EncodingType, m3xml, rdfxml, invalid_encoding, QueryType, invalid_query,
}
use sib_tcp.World.{Env}
use sib_tcp.State.{State, dbus, done}
use sib_tcp.Request.{call_daemon}
use sib_tcp.Request.Handlers.{
  call_if_encoded, call_if_typed, join_exchange, leave_exchange, insert_exchange, remove_exchange,
  update_exchange, query_exchange,
}
use sib_tcp.Request.Operations.{
  Operation, joins, leaves, inserts, removes, updates, queries, call_of, exchange_of, if_encoded,
  if_typed,
}

-- The state after a call of the daemon.
abbrev pub called : {Msg : Type 0} → Call → State Msg → State Msg
called call s = record s { clock = s.clock + 1; trace = dbus call ∷ s.trace }

module _ {Msg : Type 0} (lib : Sibmsg Msg) (env : Env) where
  call_taken :
      (call : Call) (s : State Msg)
      → is_neg (env.dbus_result s.clock call) ≡ false
      → call_daemon lib env call s ≡ done true (called call s)
  unfolding call_daemon
  call_taken call s h = rw h

  plain_call :
      (c call : Call) (s : State Msg)
      → some c ≡ some call
      → is_neg (env.dbus_result s.clock call) ≡ false
      → call_daemon lib env c s ≡ done true (called call s)
  plain_call c call s e h = let e' : c ≡ call = ground arith in rw e' (call_taken call s h)

  encoded_call :
      (e : EncodingType) (c call : Call) (s : State Msg)
      → if_encoded e c ≡ some call
      → is_neg (env.dbus_result s.clock call) ≡ false
      → call_if_encoded lib env e (call_daemon lib env c) s ≡ done true (called call s)
  unfolding call_if_encoded
  encoded_call m3xml c call s e h = let e' : c ≡ call = ground arith in rw e' (call_taken call s h)
  encoded_call rdfxml c call s e h = let e' : c ≡ call = ground arith in rw e' (call_taken call s h)
  encoded_call invalid_encoding c call s e h = cc

  pub typed_call :
      (q : QueryType) (c call : Call) (s : State Msg)
      → if_typed q c ≡ some call
      → is_neg (env.dbus_result s.clock call) ≡ false
      → call_if_typed lib env q (call_daemon lib env c) s ≡ done true (called call s)
  unfolding call_if_typed
  typed_call invalid_query c call s e h = cc
  typed_call _ c call s e h = let e' : c ≡ call = ground arith in rw e' (call_taken call s h)

  pub dispatch_taken :
      (op : Operation) (msg : Msg) (call : Call) (s : State Msg)
      → call_of lib op msg ≡ some call
      → is_neg (env.dbus_result s.clock call) ≡ false
      → (exchange_of lib env op msg).dispatch s ≡ done true (called call s)
  unfolding join_exchange leave_exchange insert_exchange remove_exchange update_exchange
      query_exchange
  dispatch_taken joins msg call s e h = plain_call _ call s e h
  dispatch_taken leaves msg call s e h = plain_call _ call s e h
  dispatch_taken inserts msg call s e h = encoded_call _ _ call s e h
  dispatch_taken removes msg call s e h = encoded_call _ _ call s e h
  dispatch_taken updates msg call s e h = encoded_call _ _ call s e h
  dispatch_taken queries msg call s e h = typed_call _ _ call s e h
