-- ===== src/Client/Framing.antt =====
-- The bytes of a connection stay in the buffer of the client while they are cut into messages.
use sib_tcp.Prelude.{
  ℕ, zero, suc, ◌+◌, ◌-◌, ◌≤◌, ◌≡◌, refl, ◌⊎◌, true, some, none, [], ◌∷◌, ◌++◌, pos, ◌+ℤ◌, ◌-ℤ◌,
  Bytes, arith, int_eq, length, take, drop, length-drop,
}
use sib_tcp.Ssap.{Sibmsg}
use sib_tcp.World.{Env}
use sib_tcp.State.{State, done}
use sib_tcp.Listener.{failed}
use sib_tcp.Client.{Client, recvbufsize, Received, section_at}
use sib_tcp.Socket.Delivery.{SameShared}

-- The parser counts: a message knows the bytes that it was given, and one that is complete says
-- where it ended, which is in the section that completed it. It is not in progress any more once
-- it has more than `limit` bytes.
pub record Counts {Msg : Type 0} (lib : Sibmsg Msg) (limit : ℕ) : Type 0 where
  pub text : Msg → Bytes
  pub text_new : text lib.new_message ≡ []
  pub text_section : (m : Msg) (b : Bytes) → text ((lib.parse_section m b).1) ≡ text m ++ b
  pub count :
      (m : Msg) (b : Bytes)
      → int_eq ((lib.parse_section m b).0) lib.ss_status_ok ≡ true
      → (k : ℕ) × (lib.parsedbytecount ((lib.parse_section m b).1) ≡ pos (suc k))
        × (length (text m) ≤ k)
        × (suc k ≤ length (text m) + length b)
  pub limited :
      (m : Msg) (b : Bytes)
      → int_eq ((lib.parse_section m b).0) lib.ss_parsing_in_progress ≡ true
      → length (text m) + length b ≤ limit

-- The unread bytes, `rest` of them, are the last of the `len` bytes in the buffer.
pub record IsClient (c : Client) : Type 0 where
  pub size : length c.recvbuf ≡ recvbufsize
  pub filled : ℕ
  pub rest : ℕ
  pub len : c.len ≡ pos filled
  pub remaining_len : c.remaining_len ≡ pos rest
  pub rest_le : rest ≤ filled
  pub filled_le : filled ≤ recvbufsize

-- `recv` gives no more than was asked for.
abbrev pub FitsBuffer : Env → Type 0
FitsBuffer env =
    (t fd : ℕ) (bytes : Bytes) → env.recv_result t fd ≡ some bytes → length bytes ≤ recvbufsize

abbrev pub unread : (c : Client) → IsClient c → Bytes
unread c h = take h.rest (drop (h.filled - h.rest) c.recvbuf)

-- The bytes that came on a socket by `recv`, in `n` calls of the system from the time `t` on.
unfoldable pub arrived : Env → ℕ → ℕ → ℕ → Bytes
arrived env fd t zero = []
arrived env fd t (suc n) =
    let rest = arrived env fd (t + 1) n in
    elim (env.recv_result t fd) [ none ↦ rest | some bytes ↦ bytes ++ rest ]

-- What became of the message: an error or an end of the connection, or a message; its length is
-- the result, and it and the `rest` unread bytes are all that the parser was given.
abbrev pub Ended : {Msg : Type 0} → (Msg → Bytes) → ℕ → Received Msg → Type 0
Ended text rest r =
    (r.result ≡ failed)
    ⊎ ((r.result ≡ pos 0)
        ⊎ ((k : ℕ) × (r.result ≡ pos (suc k)) × (suc k + rest ≡ length (text r.message))))

-- The client is in order, its socket is the same, and the shared state is as before. The parser
-- was given `first` and then what came by `calls` calls of `recv`, and if there is a message, what
-- lies behind it is unread.
pub record IsReceived {Msg : Type 0} (text : Msg → Bytes) (env : Env) (first : Bytes) (c : Client)
    (s : State Msg) (r : Received Msg) (t : State Msg) : Type 0 where
  pub client : IsClient r.client
  pub ended : Ended text client.rest r
  pub calls : ℕ
  pub clock : t.clock ≡ s.clock + calls
  pub given : text r.message ≡ first ++ arrived env c.fd s.clock calls
  pub behind :
      (k : ℕ) → r.result ≡ pos (suc k) → unread r.client client ≡ drop (suc k) (text r.message)
  pub fd : r.client.fd ≡ c.fd
  pub trace : t.trace ≡ s.trace
  pub same : SameShared s t

length-take : (n : ℕ) (b : Bytes) → n ≤ length b → length (take n b) ≡ n
length-take zero b h = refl
length-take (suc n) [] h = absurd (omega (arith, h))
length-take (suc n) (x ∷ b) h = omega (arith, length-take n b (omega (arith, h)))

pub pos_add : (a b : ℕ) → pos a +ℤ pos b ≡ pos (a + b)
pos_add a b = ground arith

pub pos_sub : (a b : ℕ) → b ≤ a → pos a -ℤ pos b ≡ pos (a - b)
pos_sub a b h = ground arith

module _ (c : Client) (h : IsClient c) where
  pub length-unread : length (unread c h) ≡ h.rest
  length-unread =
      length-take h.rest _
        (omega (arith, length-drop (h.filled - h.rest) c.recvbuf, h.size, h.rest_le, h.filled_le))

  pub section_lem :
      {Msg : Type 0} (s : State Msg)
      → section_at {Msg = Msg} c.recvbuf (c.len -ℤ c.remaining_len) c.remaining_len s
        ≡ done (unread c h) s
  unfolding section_at
  section_lem s =
      rw (h.len, h.remaining_len, pos_sub h.filled h.rest h.rest_le)
        (ground (arith, h.rest_le, h.filled_le))
