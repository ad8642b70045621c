-- ===== src/Request/Served.antt =====
-- A request that the SIB daemon takes and confirms.
use sib_tcp.Prelude.{
  ℕ, ◌+◌, ◌≤◌, ◌≡◌, refl, ap, ◌∙◌, true, false, Option, none, some, List, ◌∷◌, ◌++◌, ℤ, Bytes, All,
  arith, ==_refl, subst, is_neg, length, bytes_eq_refl,
}
use sib_tcp.Ssap.{Sibmsg, Call}
use sib_tcp.Key.{get_request_key}
use sib_tcp.Table.{lookup, lookup-insert}
use sib_tcp.World.{Env, Event}
use sib_tcp.State.{State, Waiter, dbus}
use sib_tcp.Socket.Delivery.{received-dbus, Delivers}
use sib_tcp.Waiting.{waiter_wait_for_finished}
use sib_tcp.Waiting.Registering.{with_request, new_waiter, register_free}
use sib_tcp.Waiting.Pending.{Pending, Spares}
use sib_tcp.Waiting.Pending.Steps.{Still}
use sib_tcp.Consistency.{IsConsistent, Returns, Returns-continue, Returns-mono}
use sib_tcp.Consistency.Steps.{Consistent, register_request-Keeps}
use sib_tcp.Request.{buffer, reply_buffer, handle_request, respond}
use sib_tcp.Request.Operations.{
  Operation, confirmation, response, call_of, exchange_of, handler, handler_lem,
}
use sib_tcp.Request.Completing.{completed, wait_rounds-Pending}
use sib_tcp.Request.Dispatching.{called, dispatch_taken}
use sib_tcp.Request.Answering.{Answered, respond-Answered}

module _ {Msg : Type 0} (lib : Sibmsg Msg) (env : Env) (op : Operation) (fd : ℕ) (msg : Msg)
    (s : State Msg) (call : Call) (space : Bytes) (status : ℤ) (payload : Option Bytes) where
  abbrev node : Bytes
  node = lib.get_nodeid msg

  abbrev num : ℤ
  num = lib.get_msgnumber msg

  abbrev pub request_key : Bytes
  request_key = get_request_key node num

  abbrev pub confirmed : Event
  confirmed = confirmation op space node num status payload

  -- The state in which the handler begins to wait.
  abbrev waiting : State Msg
  waiting = record (called call (with_request env fd node num s)) { clock = s.clock + 1 + 1 + 1 }

  waiting-Pending :
      IsConsistent s
      → env.allocates s.clock ≡ true
      → lookup request_key s.requests ≡ none
      → Pending request_key s.next (new_waiter request_key fd) (dbus call ∷ s.trace) waiting
  waiting-Pending h memory free = record {
    consistent = record { owned = c.owned; fresh = c.fresh };
    registered =
        lookup-insert request_key request_key s.next s.requests ∙ (rw (bytes_eq_refl request_key));
    content = ground (arith, ==_refl s.next);
    quiet = refl;
  }
    where
      c : IsConsistent (with_request env fd node num s)
      c =
          subst (Returns Consistent) (register_free env fd node num s memory free)
            (register_request-Keeps env fd node num s h)

  -- The waiter once it has been woken.
  abbrev woken : Waiter Msg
  woken =
      completed (new_waiter request_key fd) (response lib op space node num status payload) false

  abbrev pub built : Option Bytes
  built =
      buffer lib env
        ((exchange_of lib env op msg).reply (response lib op space node num status payload))

  -- A request that the daemon takes and confirms comes to the point where its response is sent.
  confirmed_lem :
      (P : State Msg → Type 0) (idle : List (List Event)) (before after : List Event)
      (rest : List (List Event))
      → IsConsistent s
      → ((t : ℕ) → env.allocates t ≡ true)
      → lookup request_key s.requests ≡ none
      → call_of lib op msg ≡ some call
      → is_neg (env.dbus_result (s.clock + 1) call) ≡ false
      → env.waits (s.clock + 1 + 1) ≡ idle ++ ((before ++ (confirmed ∷ after)) ∷ rest)
      → All (All (Spares request_key)) idle
      → All (Spares request_key) before
      → All (Spares request_key) after
      → ((u : State Msg)
          → Pending request_key s.next woken (dbus call ∷ s.trace) u
          → Returns (λ _ t. P t) (respond lib env msg s.next built u))
      → Returns (λ _ t. P t) (handler lib env op fd msg s)
  unfolding handle_request waiter_wait_for_finished reply_buffer
  confirmed_lem P idle before after rest h memory free supported taken others quiet first later go =
      rw
        (
          handler_lem lib env op fd msg,
          register_free env fd node num s (memory s.clock) free,
          dispatch_taken lib env op msg call (with_request env fd node num s) supported taken,
          others,
        )
        (Returns-continue
          (λ bd u. (bd ≡ built) × Pending request_key s.next woken (dbus call ∷ s.trace) u)
          (λ _ t. P t) _ _
          (Returns-continue (Still request_key s.next woken (dbus call ∷ s.trace)) _ _ _
            (wait_rounds-Pending lib env memory node num s.next (new_waiter request_key fd)
              (dbus call ∷ s.trace) op space status payload idle before after rest waiting refl
              quiet first later (waiting-Pending h (memory s.clock) free))
            λ _ u k. rw k.content (refl, k))
          λ bd u x. rw (x.0) (go u x.1))

  -- A request that is supported, new, taken by the daemon and confirmed is answered: whichever of
  -- the six kinds it is, whatever other threads do about other requests before and after the
  -- confirmation, and however often the waiting thread gets its lock before, the handler returns,
  -- the client has got the response made of the confirmation, whole and nothing else, the request
  -- is no longer pending, its waiter has been freed, and the state is consistent. It is supposed
  -- that the state is consistent before, that memory does not run out, that the response can be
  -- built, that the client's socket has no error and takes some of whatever it is given, and that
  -- the response has at most as many bytes as the sending loop is watched for rounds.
  pub served :
      (idle : List (List Event)) (before after : List Event) (rest : List (List Event))
      (text : Bytes)
      → IsConsistent s
      → ((t : ℕ) → env.allocates t ≡ true)
      → lookup request_key s.requests ≡ none
      → call_of lib op msg ≡ some call
      → is_neg (env.dbus_result (s.clock + 1) call) ≡ false
      → env.waits (s.clock + 1 + 1) ≡ idle ++ ((before ++ (confirmed ∷ after)) ∷ rest)
      → All (All (Spares request_key)) idle
      → All (Spares request_key) before
      → All (Spares request_key) after
      → built ≡ some text
      → Delivers env fd
      → length text ≤ env.rounds
      → Returns (λ _ t. Answered lib env msg fd text s.next s.trace t) (handler lib env op fd msg s)
  served idle before after rest text h memory free supported taken others quiet first later e d
        fits =
      confirmed_lem (λ t. Answered lib env msg fd text s.next s.trace t) idle before after rest h
        memory free supported taken others quiet first later
        λ u x. rw e (
          Returns-mono _ (λ _ t. Answered lib env msg fd text s.next s.trace t) _
            (respond-Answered lib env msg s.next woken (dbus call ∷ s.trace) text u d fits x)
            λ _ t y. record {
              arrived = y.arrived ∙ ap (λ b. b ++ text) (received-dbus fd call s.trace);
              unregistered = y.unregistered;
              freed = y.freed;
              consistent = y.consistent;
            })

  -- If the response to the confirmation cannot be built, the handler returns with the request still
  -- pending on its waiter and nothing sent, under the same conditions on the state, the daemon and
  -- the other threads.
  pub unbuilt_stays :
      (idle : List (List Event)) (before after : List Event) (rest : List (List Event))
      → IsConsistent s
      → ((t : ℕ) → env.allocates t ≡ true)
      → lookup request_key s.requests ≡ none
      → call_of lib op msg ≡ some call
      → is_neg (env.dbus_result (s.clock + 1) call) ≡ false
      → env.waits (s.clock + 1 + 1) ≡ idle ++ ((before ++ (confirmed ∷ after)) ∷ rest)
      → All (All (Spares request_key)) idle
      → All (Spares request_key) before
      → All (Spares request_key) after
      → built ≡ none
      → Returns
          (λ _ t.
            (lookup request_key t.requests ≡ some s.next)
            × (t.heap s.next ≡ some woken)
            × (t.trace ≡ dbus call ∷ s.trace))
          (handler lib env op fd msg s)
  unfolding respond
  unbuilt_stays idle before after rest h memory free supported taken others quiet first later e =
      confirmed_lem _ idle before after rest h memory free supported taken others quiet first later
        λ u x. rw e (x.registered, x.content, x.quiet)
