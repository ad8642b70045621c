-- ===== src/Service.antt =====
-- src/main.c, `listener_handle_request` and `client_handler_thread`: the messages of a connection
-- are received and served one after the other, until a receive fails or the client has closed.
pub mod Answers
pub mod Refusing
use sib_tcp.Prelude.{ℕ, zero, suc, ℤ, pos, negsuc, Bool, true, false}
use sib_tcp.Ssap.{
  Sibmsg, Name, not_set, join, leave, insert, update, remove, query, subscribe, unsubscribe,
  unknown,
}
use sib_tcp.World.{Env}
use sib_tcp.State.{M, stuck, pure, ◌>>=◌, ◌>>◌}
use sib_tcp.Request.Handlers.{
  listener_handle_join, listener_handle_leave, listener_handle_insert, listener_handle_remove,
  listener_handle_update, listener_handle_query,
}
use sib_tcp.Subscribe.{listener_handle_subscribe}
use sib_tcp.Unsubscribe.{listener_handle_unsubscribe}
use sib_tcp.Client.{Client, client_receive_message}

-- `ret > 0`
abbrev pub is_pos : ℤ → Bool
is_pos (pos zero) = false
is_pos (pos (suc n)) = true
is_pos (negsuc n) = false

module _ {Msg : Type 0} (lib : Sibmsg Msg) (env : Env) where
  -- The `switch` over `parseSSAPmsg_get_name (msg)`.
  unfoldable pub serve_name : Name → ℕ → Msg → M Msg (Unit {0})
  serve_name not_set fd msg = pure tt
  serve_name join fd msg = listener_handle_join lib env fd msg
  serve_name leave fd msg = listener_handle_leave lib env fd msg
  serve_name insert fd msg = listener_handle_insert lib env fd msg
  serve_name update fd msg = listener_handle_update lib env fd msg
  serve_name remove fd msg = listener_handle_remove lib env fd msg
  serve_name query fd msg = listener_handle_query lib env fd msg
  serve_name subscribe fd msg = listener_handle_subscribe lib env fd msg
  serve_name unsubscribe fd msg = listener_handle_unsubscribe lib env fd msg
  serve_name unknown fd msg = pure tt

  unfoldable pub listener_handle_request : ℕ → Msg → M Msg (Unit {0})
  unfolding serve_name
  listener_handle_request fd msg = serve_name (lib.get_name msg) fd msg

  -- The loop of the thread, and the client as it leaves it.
  unfoldable pub client_rounds : ℕ → Client → M Msg Client
  client_rounds zero c = stuck
  client_rounds (suc fuel) c = do
    r ← client_receive_message lib env c lib.new_message
    elim (is_pos r.result) [
      | true ↦ do listener_handle_request r.client.fd r.message; client_rounds fuel r.client
      | false ↦ pure r.client
    ]
