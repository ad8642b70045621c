-- ===== src/Unsubscribe.antt =====
-- src/main.c, `listener_handle_unsubscribe`.
pub mod Faults
pub mod Awaiting
pub mod Handing
use sib_tcp.Prelude.{ℕ, ℤ, Bool, true, false, Option, none, some, Bytes, is_neg}
use sib_tcp.Ssap.{Sibmsg, send_unsubscribe}
use sib_tcp.World.{Env}
use sib_tcp.State.{M, pure, load, store, ◌>>=◌, ◌>>◌}
use sib_tcp.Waiters.{waiter_new, waiter_destroy}
use sib_tcp.Waiting.{waiter_wait_for_finished}
use sib_tcp.Listener.{listener_add_request, listener_remove_request}
use sib_tcp.Socket.{client_send_message}
use sib_tcp.Request.{call_daemon, buffer, reply_buffer}

module _ {Msg : Type 0} (lib : Sibmsg Msg) (env : Env) where
  open lib use {get_nodeid, get_spaceid, get_msgnumber, get_msg_status, get_subscriptionid}

  -- The request went to the daemon, or did not: `bd`, with NULL as `none`.
  unfoldable pub unsubscribe_exchange : Msg → ℕ → Bool → M Msg (Option Bytes)
  unsubscribe_exchange msg p true = do
    waiter_wait_for_finished lib env p
    w ← load p
    pure (
        reply_buffer lib env
          (λ rsp.
            lib.create_unsubscribe_response (get_nodeid rsp) (get_spaceid rsp) (get_msgnumber rsp)
              (get_msg_status rsp) (get_subscriptionid rsp))
          w.rsp)
  unsubscribe_exchange msg p false = do
    listener_remove_request (get_nodeid msg) (get_msgnumber msg)
    pure (
        buffer lib env (
          lib.create_unsubscribe_response (get_nodeid msg) (get_spaceid msg) (get_msgnumber msg)
            lib.ss_operation_failed (get_subscriptionid msg)))

  -- The branches on the result of `listener_add_request`, up to the response.
  unfoldable pub unsubscribe_buffer : Msg → ℕ → ℤ → M Msg (Option Bytes)
  unfolding unsubscribe_exchange
  unsubscribe_buffer msg p ret = elim (is_neg ret) [
    | true ↦ do waiter_destroy p; pure none
    | false ↦ do
      store p λ w. record w { subscription_id = some (get_subscriptionid msg) }
      out ← call_daemon lib env (
          send_unsubscribe (get_spaceid msg) (get_nodeid msg) (get_msgnumber msg)
            (get_subscriptionid msg))
      unsubscribe_exchange msg p out
  ]

  -- `if (bd) { client_send_message (waiter->fd, …); … }`
  unfoldable pub send_buffer : ℕ → Option Bytes → M Msg (Unit {0})
  send_buffer p none = pure tt
  send_buffer p (some text) = do w ← load p; client_send_message env w.fd text; pure tt

  unfoldable pub unsubscribe_with : Msg → Option ℕ → M Msg (Unit {0})
  unfolding unsubscribe_buffer send_buffer
  unsubscribe_with msg none = pure tt
  unsubscribe_with msg (some p) = do
    ret ← listener_add_request (get_nodeid msg) (get_msgnumber msg) p
    bd ← unsubscribe_buffer msg p ret
    send_buffer p bd
    listener_remove_request (get_nodeid msg) (get_msgnumber msg)
    pure tt

  unfoldable pub listener_handle_unsubscribe : ℕ → Msg → M Msg (Unit {0})
  unfolding waiter_new unsubscribe_with
  listener_handle_unsubscribe fd msg = do waiter ← waiter_new env fd; unsubscribe_with msg waiter
