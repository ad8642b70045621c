-- ===== src/Hipdex.antt =====
-- src/main.c, as built with HIPDEX: `client_send_message`, `client_receive_message` and the probe of
-- `listener_handle_subscribe` encipher what they send and decipher what they get, by a security
-- association with the peer's address. The associations are kept by the library under hip-dex/.
pub mod Secrecy
pub mod Keystream
pub mod Streaming
use sib_tcp.Prelude.{ℕ, Bool, true, false, Option, none, some, [], ◌∷◌, ℤ, pos, Bytes, ◌≡◌, length}
use sib_tcp.Ssap.{Sibmsg}
use sib_tcp.World.{Env}
use sib_tcp.State.{M, pure, tick, ◌>>=◌}
use sib_tcp.Listener.{failed}
use sib_tcp.Socket.{socket_broken, send_some, client_send_message}
use sib_tcp.Client.{Client, Received, client_receive_message}
use sib_tcp.Subscription.{Saved, Next, again, auto_unsubscribe}

-- The answers of the system and of the library, which may depend on the time; an association is
-- known by its address.
pub record Hipdex : Type 0 where
  -- the peer's address, `none` for a negative result
  pub getpeername : ℕ → ℕ → Option ℕ
  -- HIPDEX_GetSA, `none` for NULL
  pub get_sa : ℕ → ℕ → Option ℕ
  -- HIPDEX_Encrypt and HIPDEX_Decrypt, which fill a buffer of the same length
  pub encrypt : ℕ → ℕ → Bytes → Bytes
  pub decrypt : ℕ → ℕ → Bytes → Bytes
  pub length_decrypt : (t sa : ℕ) (b : Bytes) → length (decrypt t sa b) ≡ length b

module _ {Msg : Type 0} (env : Env) (hip : Hipdex) where
  -- `getpeername`, and `HIPDEX_GetSA` of the address.
  unfoldable pub association : ℕ → M Msg (Option ℕ)
  association fd = do
    peer ← tick λ t. hip.getpeername t fd
    elim peer [ none ↦ pure none | some address ↦ tick λ t. hip.get_sa t address ]

  unfoldable pub client_send_message_hipdex : ℕ → Bytes → M Msg ℤ
  unfolding association
  client_send_message_hipdex fd buf = do
    sa ← association fd
    elim sa [
      | none ↦ pure failed
      | some a ↦ do cipher ← tick λ t. hip.encrypt t a buf; client_send_message env fd cipher
    ]

-- A call of HIPDEX_Decrypt: what it gives, and by how many bytes it moves the association's place in
-- its stream.
abbrev pub hipdex_decrypt : Hipdex → ℕ → ℕ → Bytes → Bytes × ℕ
hipdex_decrypt hip a t b = (hip.decrypt t a b, length b)

-- A `recv` into `cipher`, and HIPDEX_Decrypt of what it gave, if anything: what is in the buffer then,
-- and by how many bytes the association has moved.
abbrev pub decipher : Hipdex → ℕ → ℕ → Option Bytes → Option Bytes × ℕ
decipher hip a t none = (none, 0)
decipher hip a t (some []) = (some [], 0)
decipher hip a t (some (b ∷ more)) =
    let (text, moved) = hipdex_decrypt hip a t (b ∷ more) in (some text, moved)

abbrev pub deciphering : Env → Hipdex → ℕ → Env
deciphering env hip a = record env {
  recv_result = λ t fd. (decipher hip a t (env.recv_result t fd)).0;
}

module _ {Msg : Type 0} (lib : Sibmsg Msg) (env : Env) (hip : Hipdex) where
  unfoldable pub client_receive_message_hipdex : Client → Msg → M Msg (Received Msg)
  unfolding association
  client_receive_message_hipdex c msg = do
    sa ← association env hip c.fd
    elim sa [
      | none ↦ pure (record { result = failed; message = msg; client = c })
      | some a ↦ client_receive_message lib (deciphering env hip a) c msg
    ]

  -- The blank that a probe sends: in clear where there is no association.
  unfoldable pub blank_for : Option ℕ → M Msg Bytes
  blank_for none = pure (b' ' ∷ [])
  blank_for (some a) = tick λ t. hip.encrypt t a (b' ' ∷ [])

  -- `if ((optval != 0) || (n == -1) || (error_in_hipdex != 0))`
  unfoldable pub judge : Option ℕ → Option ℕ → Bool → Saved → M Msg Next
  unfolding auto_unsubscribe
  judge (some a) (some k) false saved = pure again
  judge _ _ _ saved = auto_unsubscribe lib env saved.spaceid saved.nodeid (pos 1) saved.subid

  unfoldable pub probe_hipdex : ℕ → Saved → M Msg Next
  unfolding association blank_for judge
  probe_hipdex fd saved = do
    sa ← association env hip fd
    cipher ← blank_for sa
    n ← send_some env fd cipher
    broken ← socket_broken env fd
    judge sa n broken saved
