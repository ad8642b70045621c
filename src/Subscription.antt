-- ===== src/Subscription.antt =====
-- src/main.c, `listener_handle_subscribe`, from `while (!subscription_finished)`: the loop in which
-- the handler of a subscription sends its indications, until the subscription ends.
pub mod Waking
pub mod Rounds
pub mod Probing
pub mod Streaming
pub mod Whole
pub mod Standing
pub mod Listening
pub mod Awaiting
pub mod Indicated
pub mod Safety
use sib_tcp.Prelude.{
  ℕ, zero, suc, ℤ, pos, Bool, true, false, Option, none, some, [], ◌∷◌, Bytes, is_neg, int_eq,
}
use sib_tcp.Ssap.{
  Sibmsg, Built, Name, subscribe, unsubscribe, Kind, ind, cnf, QueryType, invalid_query,
  send_subscribe, send_unsubscribe,
}
use sib_tcp.World.{Env}
use sib_tcp.State.{M, stuck, pure, load, store, emit, closed, ◌>>=◌, ◌>>◌}
use sib_tcp.Waiting.{register_waiter, register_subscriber, waiter_wait_for_finished}
use sib_tcp.Listener.{listener_add_request, listener_remove_request, listener_remove_subscription}
use sib_tcp.Socket.{socket_broken, send_some, client_send_message}
use sib_tcp.Request.{call_daemon, buffer, query_type_of}
use sib_tcp.Request.Handlers.{call_if_typed, query_status}

-- The strings that the handler copies from the confirmation (`nodeid`, `spaceid`, `subid`).
pub record Saved : Type 0 where
  pub nodeid : Bytes
  pub spaceid : Bytes
  pub subid : Bytes

-- What a message is to the sending loop, with the text to send.
pub data Arrival : Type 0 where
  indication : Bytes → Arrival
  unsubscribed : Bytes → Arrival
  invalid : Arrival

-- Whether the loop goes on.
pub data Next : Type 0 where
  again finished : Next

module _ {Msg : Type 0} (lib : Sibmsg Msg) (env : Env) where
  open lib use {get_nodeid, get_spaceid, get_msgnumber, get_msg_status, get_subscriptionid}

  as_indication : Option Bytes → Arrival
  as_indication none = invalid
  as_indication (some text) = indication text

  as_unsubscribed : Option Bytes → Arrival
  as_unsubscribed none = invalid
  as_unsubscribed (some text) = unsubscribed text

  -- The conditions of the two `if`s on name, type and the response that is built.
  unfoldable pub arrival_of : Name → Kind → Msg → Arrival
  unfolding as_indication as_unsubscribed buffer
  arrival_of subscribe ind rsp = as_indication (
      buffer lib env (
        lib.create_subscription_ind (get_nodeid rsp) (get_spaceid rsp) (get_msgnumber rsp)
          (lib.get_update_sequence rsp) (get_subscriptionid rsp) (lib.get_results_added rsp)
          (lib.get_results_removed rsp)))
  arrival_of unsubscribe cnf rsp = as_unsubscribed (
      buffer lib env (
        lib.create_unsubscribe_response (get_nodeid rsp) (get_spaceid rsp) (get_msgnumber rsp)
          (get_msg_status rsp) (get_subscriptionid rsp)))
  arrival_of _ _ rsp = invalid

  -- `getsockopt`, and the message if the socket has no error: true if it went out.
  unfoldable pub send_checked : ℕ → Bytes → M Msg Bool
  send_checked fd text = do
    broken ← socket_broken env fd
    elim broken [
      | true ↦ pure false
      | false ↦ do
        ret ← client_send_message env fd text
        elim (is_neg ret) [ true ↦ pure false | false ↦ pure true ]
    ]

  -- "AUTO UNSUB": the daemon is asked to unsubscribe, and the subscription goes from the table.
  unfoldable pub auto_unsubscribe : Bytes → Bytes → ℤ → Bytes → M Msg Next
  auto_unsubscribe space node num subid = do
    call_daemon lib env (send_unsubscribe space node num subid)
    listener_remove_subscription subid
    pure finished

  -- The subscriber has a message.
  unfoldable pub on_arrival : ℕ → ℕ → Msg → Arrival → M Msg Next
  unfolding send_checked auto_unsubscribe
  on_arrival q fd rsp (indication text) = do
    out ← send_checked fd text
    elim out [
      | true ↦ do store q λ w. record w { rsp = none }; pure again
      | false ↦
          auto_unsubscribe (get_spaceid rsp) (get_nodeid rsp) (get_msgnumber rsp)
            (get_subscriptionid rsp)
    ]
  on_arrival q fd rsp (unsubscribed text) = do
    send_checked fd text
    listener_remove_subscription (get_subscriptionid rsp)
    pure finished
  on_arrival q fd rsp invalid = do
    listener_remove_subscription (get_subscriptionid rsp)
    pure finished

  -- The subscriber was woken with no message: a blank is sent to see whether the client is there.
  unfoldable pub probe : ℕ → Saved → M Msg Next
  unfolding auto_unsubscribe
  probe fd saved = do
    n ← send_some env fd (b' ' ∷ [])
    broken ← socket_broken env fd
    elim n [
      | none ↦ auto_unsubscribe saved.spaceid saved.nodeid (pos 1) saved.subid
      | some k ↦ elim broken [
        | true ↦ auto_unsubscribe saved.spaceid saved.nodeid (pos 1) saved.subid
        | false ↦ pure again
      ]
    ]

  -- One round of the sending loop.
  unfoldable pub subscription_round : ℕ → Saved → M Msg Next
  unfolding on_arrival probe
  subscription_round q saved = do
    waiter_wait_for_finished lib env q
    w ← load q
    elim w.rsp [
      | none ↦ probe w.fd saved
      | some rsp ↦ on_arrival q w.fd rsp (arrival_of (lib.get_name rsp) (lib.get_type rsp) rsp)
    ]

  -- `while (!subscription_finished)`
  unfoldable pub subscription_rounds : ℕ → ℕ → Saved → M Msg (Unit {0})
  unfolding subscription_round
  subscription_rounds zero q saved = stuck
  subscription_rounds (suc fuel) q saved = do
    next ← subscription_round q saved
    elim next [ again ↦ subscription_rounds fuel q saved | finished ↦ pure tt ]
