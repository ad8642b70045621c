-- ===== src/Hipdex/Streaming.antt =====
-- A message on its way from `client_send_message` to `client_receive_message` of src/main.c, both as
-- built with HIPDEX, where the associations of the two ends share a stream cipher.
use sib_tcp.Prelude.{
  ℕ, zero, suc, ◌+◌, ◌≤◌, ◌≡◌, refl, sym, ap, ◌∙◌, Option, none, some, [], ◌∷◌, ◌++◌, Bytes, arith,
  length, take,
}
use sib_tcp.Ssap.{Sibmsg}
use sib_tcp.World.{Env}
use sib_tcp.State.{State}
use sib_tcp.Socket.Delivery.{Delivers, Delivered, client_send_message-Delivered}
use sib_tcp.Client.{Client, Received}
use sib_tcp.Client.Framing.{Counts, FitsBuffer, IsClient, IsReceived, unread, arrived}
use sib_tcp.Consistency.{Returns, Returns-mono}
use sib_tcp.Hipdex.{
  Hipdex, client_send_message_hipdex, client_receive_message_hipdex, deciphering, decipher,
}
use sib_tcp.Hipdex.Keystream.{Keystream, masked, length-masked, masked-append, masked-take}
use sib_tcp.Hipdex.Secrecy.{Peer, association-Peer, client_receive_message_hipdex-IsReceived}

-- By how many bytes the calls of HIPDEX_Decrypt have moved an association, in `n` calls of `recv` from
-- the time `t` on.
unfoldable pub moved : Env → Hipdex → ℕ → ℕ → ℕ → ℕ → ℕ
moved env hip a fd t zero = 0
moved env hip a fd t (suc n) =
    (decipher hip a t (env.recv_result t fd)).1 + moved env hip a fd (t + 1) n

-- What the library gives to a thread that, from the time `t` on, does nothing but receive: it
-- deciphers from the place to which its own calls have moved the association, which was at `place`.
abbrev pub Opens : Keystream → Env → Hipdex → ℕ → ℕ → ℕ → ℕ → Type 0
Opens key env hip a fd t place =
    (n : ℕ) (b : Bytes)
    → hip.decrypt (t + n) a b ≡ masked key.unseal (place + moved env hip a fd t n) b

-- What one call of `recv` gives.
unfoldable pub piece : Option Bytes → Bytes
piece none = []
piece (some bytes) = bytes

pub arrived-suc :
    (env : Env) (fd t n : ℕ)
    → arrived env fd t (suc n) ≡ piece (env.recv_result t fd) ++ arrived env fd (t + 1) n
unfolding arrived piece
arrived-suc env fd t n = came (env.recv_result t fd)
  where
    came :
        (o : Option Bytes)
        → (elim o [
          | none ↦ arrived env fd (t + 1) n
          | some bytes ↦ bytes ++ arrived env fd (t + 1) n
        ])
          ≡ piece o ++ arrived env fd (t + 1) n
    came none = refl
    came (some bytes) = refl

module _ (key : Keystream) (env : Env) (hip : Hipdex) (a fd : ℕ) where
  -- The association moves by what came.
  moved-decipher : (t : ℕ) (o : Option Bytes) → (decipher hip a t o).1 ≡ length (piece o)
  unfolding piece
  moved-decipher t none = refl
  moved-decipher t (some []) = refl
  moved-decipher t (some (c ∷ b)) = refl

  -- The places go on behind the piece that came.
  Opens-next :
      (t place : ℕ)
      → Opens key env hip a fd t place
      → Opens key env hip a fd (t + 1) (place + length (piece (env.recv_result t fd)))
  unfolding moved
  Opens-next t place opens n b =
      ap (λ u. hip.decrypt u a b) {x = t + 1 + n} {y = t + suc n} (omega arith)
      ∙ opens (suc n) b
      ∙ ap (λ m. masked key.unseal m b) (omega (arith, next))
    where
      next :
          moved env hip a fd t (suc n)
          ≡ length (piece (env.recv_result t fd)) + moved env hip a fd (t + 1) n
      next = ap (λ m. m + moved env hip a fd (t + 1) n) (moved-decipher t (env.recv_result t fd))

  piece-decipher :
      (t place : ℕ)
      → ((b : Bytes) → hip.decrypt t a b ≡ masked key.unseal place b)
      → (o : Option Bytes) → piece ((decipher hip a t o).0) ≡ masked key.unseal place (piece o)
  unfolding masked piece
  piece-decipher t place opens none = refl
  piece-decipher t place opens (some []) = refl
  piece-decipher t place opens (some (c ∷ b)) = opens (c ∷ b)

  -- Deciphered piece by piece, it is what it would be in one piece.
  arrived-deciphering :
      (t place n : ℕ)
      → Opens key env hip a fd t place
      → arrived (deciphering env hip a) fd t n ≡ masked key.unseal place (arrived env fd t n)
  unfolding arrived masked moved
  arrived-deciphering t place zero opens = refl
  arrived-deciphering t place (suc n) opens =
      arrived-suc (deciphering env hip a) fd t n
      ∙ ap (λ (b : Bytes). b ++ arrived (deciphering env hip a) fd (t + 1) n)
          (piece-decipher t place first (env.recv_result t fd))
      ∙ ap (◌++◌ (masked key.unseal place (piece (env.recv_result t fd)))) (
          arrived-deciphering (t + 1) (place + length (piece (env.recv_result t fd))) n
            (Opens-next t place opens))
      ∙ sym (masked-append key.unseal place (piece (env.recv_result t fd)) _)
      ∙ ap (masked key.unseal place) (sym (arrived-suc env fd t n))
    where
      first : (b : Bytes) → hip.decrypt t a b ≡ masked key.unseal place b
      first b =
          ap (λ u. hip.decrypt u a b) {x = t} {y = t + 0} (omega arith)
          ∙ opens 0 b
          ∙ ap (λ m. masked key.unseal m b) (omega arith)

-- What has come is always a front part of what was put on the wire.
abbrev pub Carries : Env → ℕ → ℕ → Bytes → Type 0
Carries env fd t wire = (n : ℕ) → (k : ℕ) × (arrived env fd t n ≡ take k wire)

-- A call that received, and whose parser was given `first` and then a front part of `buf`.
abbrev pub Conveyed :
    {Msg : Type 0}
    → (Msg → Bytes)
    → Env
    → Bytes
    → Bytes
    → Client
    → State Msg
    → Received Msg
    → State Msg
    → Type 0
Conveyed text env first buf c u r t =
    IsReceived text env first c u r t × (k : ℕ) × (text r.message ≡ first ++ take k buf)

module _ {Msg : Type 0} (lib : Sibmsg Msg) (key : Keystream) (place : ℕ)
    -- the end that sends
    (from : Env) (ours : Hipdex) (fd a : ℕ) (s : State Msg) (buf : Bytes)
    (known : Peer ours s.clock fd a)
    (sealed : ours.encrypt (s.clock + 1 + 1) a buf ≡ masked key.seal place buf)
    -- the end that receives
    (to : Env) (theirs : Hipdex) (b : ℕ) (c : Client) (h : IsClient c) (u : State Msg)
    (met : Peer theirs u.clock c.fd b)
    (opens : Opens key to theirs b c.fd (u.clock + 1 + 1) place) where
  sent_sealed :
      Delivers from fd
      → length buf ≤ from.rounds
      → Returns
          (Delivered fd (masked key.seal place buf) s)
          (client_send_message_hipdex from ours fd buf s)
  unfolding client_send_message_hipdex
  sent_sealed delivers enough =
      rw (association-Peer from ours fd s a known, sealed)
        (Returns-mono _ (Delivered fd (masked key.seal place buf) s) _
          (client_send_message-Delivered from fd delivers (masked key.seal place buf) _
            (omega (arith, length-masked key.seal place buf, enough)))
          λ r t x. (
            x.0,
            x.1,
            record {
              requests = x.2.requests;
              subscriptions = x.2.subscriptions;
              heap = x.2.heap;
              next = x.2.next;
            },
          ))

  received_open :
      (limit : ℕ) (p : Counts lib limit)
      → FitsBuffer to
      → limit + 2 ≤ to.rounds
      → Carries to c.fd (u.clock + 1 + 1) (masked key.seal place buf)
      → Returns
          (Conveyed p.text
            (deciphering to theirs b)
            (unread c h)
            buf
            c
            (record u { clock = u.clock + 1 + 1 }))
          (client_receive_message_hipdex lib to theirs c lib.new_message u)
  received_open limit p fits enough carries =
      Returns-mono
        (IsReceived p.text (deciphering to theirs b) (unread c h) c
          (record u { clock = u.clock + 1 + 1 }))
        (Conveyed p.text (deciphering to theirs b) (unread c h) buf c
          (record u { clock = u.clock + 1 + 1 }))
        _ (client_receive_message_hipdex-IsReceived lib to theirs limit p fits c u h b met enough)
        λ r t x.
          let (k, e) = carries x.calls in
          (
            x,
            k,
            x.given
                ∙ ap (◌++◌ (unread c h)) (
                    arrived-deciphering key to theirs b c.fd (u.clock + 1 + 1) place x.calls opens
                    ∙ ap (masked key.unseal place) e
                    ∙ masked-take key place k buf),
          )

  -- In a build with HIPDEX, between two ends that have an association and share a stream cipher,
  -- which is at the same place for both: a call of client_send_message returns 0 and puts the whole
  -- message, enciphered, on its socket; and if what comes to the other end is always a front part of
  -- that, a call of client_receive_message there, for a new message, returns and gives the parser
  -- what was unread and then a front part of the message in clear, in however many pieces it comes;
  -- and it ends as in a build without HIPDEX. It is supposed that the sender's socket has no error
  -- and takes some of whatever it is given, with no more bytes than rounds are watched; that
  -- the receiver only receives meanwhile, and its library deciphers from the place to which the
  -- code's own calls have moved it, each by the bytes that it deciphers; that `recv` gives no more
  -- than the buffer holds, the unread bytes lie in the buffer, the parser counts, and the loop is
  -- watched for two rounds more than the bytes on which the parser can be in progress.
  pub message-Conveyed :
      Delivers from fd
      → length buf ≤ from.rounds
      → (limit : ℕ) (p : Counts lib limit) → FitsBuffer to
      → limit + 2 ≤ to.rounds
      → Carries to c.fd (u.clock + 1 + 1) (masked key.seal place buf)
      → Returns
          (Delivered fd (masked key.seal place buf) s)
          (client_send_message_hipdex from ours fd buf s)
        × Returns
            (Conveyed p.text
              (deciphering to theirs b)
              (unread c h)
              buf
              c
              (record u { clock = u.clock + 1 + 1 }))
            (client_receive_message_hipdex lib to theirs c lib.new_message u)
  message-Conveyed delivers enough limit p fits rounds carries =
      (sent_sealed delivers enough, received_open limit p fits rounds carries)
