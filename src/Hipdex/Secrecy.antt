-- ===== src/Hipdex/Secrecy.antt =====
-- What leaves the program in a build with HIPDEX, and what its parser gets.
use sib_tcp.Prelude.{
  ℕ, ◌+◌, ◌≤◌, ◌≡◌, refl, ◌⊎◌, inl, inr, Option, none, some, [], ◌∷◌, ℤ, pos, Bytes, arith, length,
  take, Option-cases,
}
use sib_tcp.Ssap.{Sibmsg, send_unsubscribe}
use sib_tcp.Table.{lookup}
use sib_tcp.World.{Env}
use sib_tcp.State.{State, Outcome, Action, done, dbus, sent}
use sib_tcp.Listener.{failed}
use sib_tcp.Socket.Delivery.{SentPart, client_send_message-SentPart}
use sib_tcp.Client.{Client, recvbufsize}
use sib_tcp.Client.Framing.{Counts, FitsBuffer, IsClient, IsReceived, unread}
use sib_tcp.Client.Receiving.{client_receive_message-IsReceived}
use sib_tcp.Consistency.{Returns}
use sib_tcp.Subscription.{Saved, Next, finished}
use sib_tcp.Hipdex.{
  Hipdex, association, client_send_message_hipdex, client_receive_message_hipdex, deciphering,
  decipher,
}

-- The time at which an answer was asked of the library, after the peer and the association.
abbrev pub later : {Msg : Type 0} → State Msg → ℕ → State Msg
later s n = record s { clock = s.clock + n }

-- There is no association with the peer of this socket.
abbrev pub Stranger : Hipdex → ℕ → ℕ → Type 0
Stranger hip t fd =
    (hip.getpeername t fd ≡ none)
    ⊎ ((address : ℕ) × (hip.getpeername t fd ≡ some address) × (hip.get_sa (t + 1) address ≡ none))

-- There is this one.
abbrev pub Peer : Hipdex → ℕ → ℕ → ℕ → Type 0
Peer hip t fd a =
    (address : ℕ) × (hip.getpeername t fd ≡ some address) × (hip.get_sa (t + 1) address ≡ some a)

module _ {Msg : Type 0} (env : Env) (hip : Hipdex) (fd : ℕ) (s : State Msg) where
  association_cases : Stranger hip s.clock fd ⊎ ((a : ℕ) × Peer hip s.clock fd a)
  association_cases = elim (Option-cases (hip.getpeername s.clock fd)) [
    | inl e ↦ inl (inl e)
    | inr (address, e) ↦ elim (Option-cases (hip.get_sa (s.clock + 1) address)) [
      | inl f ↦ inl (inr (address, e, f))
      | inr (a, f) ↦ inr (a, (address, e, f))
    ]
  ]

  -- The question leaves all but the clock as it was.
  association-Stranger :
      Stranger hip s.clock fd
      → (n : ℕ) × (association env hip fd s ≡ done none (record s { clock = n }))
  unfolding association
  association-Stranger (inl e) = (s.clock + 1, rw e refl)
  association-Stranger (inr (address, e, f)) = (s.clock + 1 + 1, rw (e, f) refl)

  pub association-Peer :
      (a : ℕ)
      → Peer hip s.clock fd a
      → association env hip fd s ≡ done (some a) (record s { clock = s.clock + 1 + 1 })
  unfolding association
  association-Peer a (address, e, f) = rw (e, f) refl

  -- What a call has made of a buffer: -1 and nothing sent to anyone, for a stranger; or a front
  -- part of the enciphered buffer has gone to the peer, all of it if the call returned 0.
  abbrev pub Enciphered : Bytes → Outcome Msg ℤ → Type 0
  Enciphered buf o =
      (Stranger hip s.clock fd × (t : State Msg) × (o ≡ done failed t) × (t.trace ≡ s.trace))
      ⊎ ((a : ℕ) × Peer hip s.clock fd a
          × SentPart fd (hip.encrypt (s.clock + 1 + 1) a buf)
              (record s { clock = s.clock + 1 + 1 + 1 }) o)

  -- In a build with HIPDEX, whatever the socket does, what it is given by one call of
  -- client_send_message is a front part of the enciphered message, all of it if the call returns 0;
  -- where there is no association with the peer, the call returns -1 and nothing is sent.
  pub client_send_message_hipdex-Enciphered :
      (buf : Bytes) → Enciphered buf (client_send_message_hipdex env hip fd buf s)
  unfolding client_send_message_hipdex
  client_send_message_hipdex-Enciphered buf = elim association_cases [
    | inl strange ↦
        let (n, e) = association-Stranger strange in
        inl (strange, record s { clock = n }, rw e refl, refl)
    | inr (a, peer) ↦
        inr (a, peer, rw (association-Peer a peer) (client_send_message-SentPart env fd _ _))
  ]

module _ {Msg : Type 0} (lib : Sibmsg Msg) (env : Env) (hip : Hipdex) where
  deciphering-FitsBuffer : (a : ℕ) → FitsBuffer env → FitsBuffer (deciphering env hip a)
  deciphering-FitsBuffer a fits t fd bytes e = few (env.recv_result t fd) (fits t fd) e
    where
      few :
          (o : Option Bytes)
          → ((b : Bytes) → o ≡ some b → length b ≤ recvbufsize)
          → (decipher hip a t o).0 ≡ some bytes
          → length bytes ≤ recvbufsize
      few none h x = absurd (ground (arith, x))
      few (some []) h x = ground (arith, x)
      few (some (b ∷ more)) h x =
          ground (arith, x, hip.length_decrypt t a (b ∷ more), h (b ∷ more) refl)

  -- In a build with HIPDEX, if there is an association with the peer, a call of
  -- client_receive_message for a new message gives the parser the bytes that were unread and then
  -- what came, deciphered piece by piece, and ends as in a build without it, under the same
  -- conditions.
  pub client_receive_message_hipdex-IsReceived :
      (limit : ℕ) (p : Counts lib limit)
      → FitsBuffer env
      → (c : Client) (s : State Msg) (h : IsClient c) (a : ℕ) → Peer hip s.clock c.fd a
      → limit + 2 ≤ env.rounds
      → Returns
          (IsReceived p.text
            (deciphering env hip a)
            (unread c h)
            c
            (record s { clock = s.clock + 1 + 1 }))
          (client_receive_message_hipdex lib env hip c lib.new_message s)
  unfolding client_receive_message_hipdex
  client_receive_message_hipdex-IsReceived limit p fits c s h a peer enough =
      rw (association-Peer env hip c.fd s a peer) (
        client_receive_message-IsReceived lib (deciphering env hip a) limit p
          (deciphering-FitsBuffer a fits) c _ h enough)

  -- The call of the daemon with which a subscription ends.
  abbrev pub farewell : Saved → Action
  farewell saved = dbus (send_unsubscribe saved.spaceid saved.nodeid (pos 1) saved.subid)

  -- The blank was given to the socket in clear when it was known that there is no association, at the
  -- time `n`; what the socket took of it went out, then the daemon was asked to unsubscribe, and
  -- nothing else; the subscription has ended.
  abbrev pub Deserted : ℕ → Saved → State Msg → ℕ → Next → State Msg → Type 0
  Deserted fd saved s q next t =
      (next ≡ finished)
      × (n : ℕ) × (association env hip fd s ≡ done none (record s { clock = n }))
      × (((env.send_result n fd (b' ' ∷ []) ≡ none) × (t.trace ≡ farewell saved ∷ s.trace))
          ⊎ ((k : ℕ) × (env.send_result n fd (b' ' ∷ []) ≡ some k)
              × (t.trace ≡ farewell saved ∷ sent fd (take k (b' ' ∷ [])) ∷ s.trace)))
      × (lookup saved.subid t.subscriptions ≡ none)
      × (t.heap q ≡ none)
