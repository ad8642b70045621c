-- ===== src/Waiting/Registering.antt =====
-- How a request handler begins: a new waiter, registered under the key of the request.
use sib_tcp.Prelude.{ℕ, ◌+◌, ◌≡◌, true, false, none, some, ℤ, Bytes, arith, ==_refl}
use sib_tcp.Key.{get_request_key}
use sib_tcp.Table.{lookup, insert}
use sib_tcp.World.{Env}
use sib_tcp.State.{State, Waiter, done, update}
use sib_tcp.Listener.{listener_add_request}
use sib_tcp.Waiting.{register_waiter}

abbrev pub new_waiter : {Msg : Type 0} → Bytes → ℕ → Waiter Msg
new_waiter key fd = record {
  req_ready = false;
  fd = fd;
  rsp = none;
  subscription_id = none;
  key = some key;
}

module _ {Msg : Type 0} (env : Env) (fd : ℕ) (node : Bytes) (msgnum : ℤ) (s : State Msg) where
  abbrev key : Bytes
  key = get_request_key node msgnum

  -- The state after a registration that succeeds.
  abbrev pub with_request : State Msg
  with_request = record s {
    requests = insert key s.next s.requests;
    heap =
        update
          (update s.heap s.next (
            some (record {
              req_ready = false;
              fd = fd;
              rsp = none;
              subscription_id = none;
              key = none;
            })))
          s.next (some (new_waiter key fd));
    next = s.next + 1;
    clock = s.clock + 1;
  }

  pub register_free :
      env.allocates s.clock ≡ true
      → lookup key s.requests ≡ none
      → register_waiter env fd (listener_add_request node msgnum) s
        ≡ done (some s.next) with_request
  unfolding register_waiter listener_add_request
  register_free memory free = ground (arith, ==_refl s.next)

  -- The state after a registration that found the key taken: the new waiter is gone again.
  abbrev pub with_dropped : State Msg
  with_dropped = record s {
    heap =
        update
          (update s.heap s.next (
            some (record {
              req_ready = false;
              fd = fd;
              rsp = none;
              subscription_id = none;
              key = none;
            })))
          s.next none;
    next = s.next + 1;
    clock = s.clock + 1;
  }

  pub register_taken :
      (p : ℕ)
      → env.allocates s.clock ≡ true
      → lookup key s.requests ≡ some p
      → register_waiter env fd (listener_add_request node msgnum) s ≡ done none with_dropped
  unfolding register_waiter listener_add_request
  register_taken p memory taken = ground (arith, ==_refl s.next)
