-- ===== src/Socket.antt =====
-- src/main.c, `client_send_message`, as built without HIP DEX: the whole buffer is sent, as often
-- as `send` takes only a part of it.
pub mod Delivery
use sib_tcp.Prelude.{
  ℕ, zero, suc, Bool, true, false, Option, none, some, List, [], ◌∷◌, ℤ, pos, Bytes, int_eq,
  if◌then◌else◌, drop, take,
}
use sib_tcp.World.{Env}
use sib_tcp.State.{State, M, stuck, pure, tick, emit, sent, ◌>>=◌, ◌>>◌}
use sib_tcp.Listener.{succeeded, failed}

module _ {Msg : Type 0} (env : Env) where
  -- `optval != 0`, after `getsockopt (fd, SOL_SOCKET, SO_ERROR, &optval, &optlen)`
  unfoldable pub socket_broken : ℕ → M Msg Bool
  socket_broken fd =
      tick λ t. elim (int_eq (env.so_error t fd) (pos 0)) [ true ↦ false | false ↦ true ]

  -- `n = send (fd, buf + total, bytesleft, SEND_FLAGS)`: the bytes that went out are noted.
  unfoldable pub send_some : ℕ → Bytes → M Msg (Option ℕ)
  send_some fd buf = do
    n ← tick λ t. env.send_result t fd buf
    elim n [ none ↦ pure none | some k ↦ do emit (sent fd (take k buf)); pure (some k) ]

  -- `while (total < len)`, over what is left to send.
  unfoldable pub send_rounds : ℕ → ℕ → Bytes → M Msg ℤ
  unfolding socket_broken send_some
  send_rounds fuel fd [] = pure succeeded
  send_rounds zero fd (c ∷ buf) = stuck
  send_rounds (suc fuel) fd (c ∷ buf) = do
    broken ← socket_broken fd
    elim broken [
      | true ↦ pure failed
      | false ↦ do
        n ← send_some fd (c ∷ buf)
        elim n [ none ↦ pure failed | some k ↦ send_rounds fuel fd (drop k (c ∷ buf)) ]
    ]

  unfoldable pub client_send_message : ℕ → Bytes → M Msg ℤ
  unfolding send_rounds
  client_send_message fd buf = send_rounds env.rounds fd buf
