-- ===== src/Subscribe.antt =====
-- src/main.c, `listener_handle_subscribe`: the subscription is asked for, registered and confirmed,
-- and the handler goes on as the sender of its indications (`Subscription`).
pub mod Faults
pub mod Opening
pub mod Confirming
pub mod Lasting
use sib_tcp.Prelude.{
  ℕ, zero, suc, ℤ, pos, Bool, true, false, Option, none, some, [], ◌∷◌, Bytes, is_neg, int_eq,
}
use sib_tcp.Ssap.{
  Sibmsg, Built, Name, subscribe, unsubscribe, Kind, ind, cnf, QueryType, invalid_query,
  send_subscribe, send_unsubscribe,
}
use sib_tcp.World.{Env}
use sib_tcp.State.{M, stuck, pure, load, store, emit, closed, ◌>>=◌, ◌>>◌}
use sib_tcp.Waiting.{register_waiter, register_subscriber, waiter_wait_for_finished}
use sib_tcp.Listener.{listener_add_request, listener_remove_request, listener_remove_subscription}
use sib_tcp.Socket.{socket_broken, send_some, client_send_message}
use sib_tcp.Request.{call_daemon, buffer, query_type_of}
use sib_tcp.Request.Handlers.{call_if_typed, query_status}
use sib_tcp.Subscription.{Saved, subscription_rounds}

module _ {Msg : Type 0} (lib : Sibmsg Msg) (env : Env) where
  open lib use {get_nodeid, get_spaceid, get_msgnumber, get_msg_status, get_subscriptionid}

  -- The status is 2: the confirmation is sent, and the loop entered if that went well.
  unfoldable pub subscribed : Msg → ℕ → ℕ → Bytes → Saved → M Msg (Unit {0})
  subscribed msg p q text saved = do
    sub ← load q
    broken ← socket_broken env sub.fd
    out ← elim broken [
      | true ↦ pure false
      | false ↦ do
        w ← load p
        ret ← client_send_message env w.fd text
        elim (is_neg ret) [ true ↦ pure false | false ↦ pure true ]
    ]
    listener_remove_request (get_nodeid msg) (get_msgnumber msg)
    elim out [ true ↦ subscription_rounds lib env env.rounds q saved | false ↦ pure tt ]

  -- Any other status: the subscription is dropped, the confirmation sent and the socket closed.
  unfoldable pub subscription_refused : Msg → ℕ → ℕ → Bytes → Saved → M Msg (Unit {0})
  subscription_refused msg p q text saved = do
    listener_remove_subscription saved.subid
    sub ← load q
    broken ← socket_broken env sub.fd
    elim broken [
      | true ↦ pure tt
      | false ↦ do w ← load p; client_send_message env w.fd text; pure tt
    ]
    listener_remove_request (get_nodeid msg) (get_msgnumber msg)
    v ← load p
    emit (closed v.fd)

  -- The response to the confirmation, whose registration as a subscription gave `ret`.
  unfoldable pub subscribe_response : Msg → Msg → ℤ → Built
  subscribe_response msg rsp ret = elim (is_neg ret) [
    | true ↦
        lib.create_subscribe_response (get_nodeid msg) (get_spaceid msg) (get_msgnumber msg)
          lib.ss_status_ok none none
    | false ↦
        lib.create_subscribe_response (get_nodeid rsp) (get_spaceid rsp) (get_msgnumber rsp)
          (get_msg_status rsp) (some (get_subscriptionid rsp)) (lib.get_m3xml rsp)
  ]

  unfoldable pub saved_of : Msg → Saved
  saved_of rsp = record {
    nodeid = get_nodeid rsp;
    spaceid = get_spaceid rsp;
    subid = get_subscriptionid rsp;
  }

  -- From `if (bd && waiter && waiter->rsp && status == 2)` to the end.
  unfoldable pub conclude : Msg → ℕ → ℕ → Msg → Option Bytes → M Msg (Unit {0})
  unfolding subscribed subscription_refused saved_of
  conclude msg p q rsp none = pure tt
  conclude msg p q rsp (some text) = elim (int_eq (get_msg_status rsp) (pos 2)) [
    | true ↦ subscribed msg p q text (saved_of rsp)
    | false ↦ subscription_refused msg p q text (saved_of rsp)
  ]

  -- The daemon has confirmed (`if (waiter->rsp)`).
  unfoldable pub on_confirmation : ℕ → Msg → ℕ → Option Msg → M Msg (Unit {0})
  unfolding subscribe_response conclude
  on_confirmation fd msg p none = pure tt
  on_confirmation fd msg p (some rsp) = do
    (q, ret) ← register_subscriber env fd (get_subscriptionid rsp)
    conclude msg p q rsp (buffer lib env (subscribe_response msg rsp ret))

  -- The request did not go out. The conditions after it read `waiter->rsp` if there is a response.
  unfoldable pub not_sent : Msg → ℕ → Option Bytes → M Msg (Unit {0})
  not_sent msg p none = pure tt
  not_sent msg p (some text) = do load p; pure tt

  unfoldable pub subscribe_with : ℕ → Msg → Option ℕ → M Msg (Unit {0})
  unfolding call_if_typed query_status query_type_of on_confirmation not_sent
  subscribe_with fd msg none = pure tt
  subscribe_with fd msg (some p) = do
    let style = query_type_of (lib.get_query_style msg)
    out ← call_if_typed lib env style (
        call_daemon lib env (
          send_subscribe (get_spaceid msg) (get_nodeid msg) (get_msgnumber msg) style
            (lib.get_m3xml msg)))
    elim out [
      | true ↦ do waiter_wait_for_finished lib env p; w ← load p; on_confirmation fd msg p w.rsp
      | false ↦ do
        listener_remove_request (get_nodeid msg) (get_msgnumber msg)
        not_sent msg p (
            buffer lib env (
              lib.create_subscribe_response (get_nodeid msg) (get_spaceid msg) (get_msgnumber msg)
                (query_status lib env style) none none))
    ]

  unfoldable pub listener_handle_subscribe : ℕ → Msg → M Msg (Unit {0})
  unfolding subscribe_with
  listener_handle_subscribe fd msg = do
    waiter ← register_waiter env fd (listener_add_request (get_nodeid msg) (get_msgnumber msg))
    subscribe_with fd msg waiter
