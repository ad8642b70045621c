-- ===== src/Client.antt =====
-- src/main.c, `Client`, `client_new` and `client_receive_message`, as built without HIP DEX: the
-- bytes of a connection are cut into messages by the parser of the message library.
pub mod Framing
pub mod Unread
pub mod Refilling
pub mod Receiving
use sib_tcp.Prelude.{
  ℕ, zero, suc, ◌+◌, ℤ, pos, negsuc, ◌+ℤ◌, ◌-ℤ◌, Bool, true, false, Option, none, some, [], ◌∷◌,
  ◌++◌, Bytes, int_eq, leb, if◌then◌else◌, length, take, drop,
}
use sib_tcp.Ssap.{Sibmsg}
use sib_tcp.World.{Env}
use sib_tcp.State.{M, fault, out_of_bounds, stuck, pure, tick, ◌>>=◌}
use sib_tcp.Listener.{failed}

-- RECVBUFSIZE
abbrev pub recvbufsize : ℕ
recvbufsize = 128

pub record Client : Type 0 where
  pub fd : ℕ
  pub recvbuf : Bytes
  pub len : ℤ
  pub remaining_len : ℤ

abbrev zeros : ℕ → Bytes
zeros zero = []
zeros (suc n) = 0 ∷ zeros n

abbrev pub fresh_client : ℕ → Client
fresh_client fd = record {
  fd = fd;
  recvbuf = zeros recvbufsize;
  len = pos 0;
  remaining_len = pos 0;
}

-- Whether there is memory for the client, and then for its buffer; `none` is NULL.
unfoldable pub client_new : Bool → Bool → ℕ → Option Client
client_new false buffer fd = none
client_new true false fd = none
client_new true true fd = some (fresh_client fd)

-- What a call gives: its result, the message, and the client's fields.
pub record Received (Msg : Type 0) : Type 0 where
  pub result : ℤ
  pub message : Msg
  pub client : Client

-- `client->remaining_len` bytes at `client->recvbuf + index`, which must lie in the buffer.
unfoldable pub section_at : {Msg : Type 0} → Bytes → ℤ → ℤ → M Msg Bytes
section_at buf (pos i) (pos n) =
    if leb (i + n) recvbufsize then pure (take n (drop i buf)) else fault out_of_bounds
section_at buf (pos i) (negsuc n) = fault out_of_bounds
section_at buf (negsuc i) n = fault out_of_bounds

module _ {Msg : Type 0} (lib : Sibmsg Msg) (env : Env) where
  -- `recv`, which fills the front of the buffer: the outcome, and whether the loop goes on.
  unfoldable pub receive_more :
      (Client → Msg → ℤ → M Msg (Received Msg)) → Client → Msg → ℤ → M Msg (Received Msg)
  receive_more go c msg handled = do
    got ← tick λ t. env.recv_result t c.fd
    elim got [
      | none ↦ pure (record { result = failed; message = msg; client = c })
      | some bytes ↦ elim bytes [
        | [] ↦ pure (record { result = pos 0; message = msg; client = c })
        | b ∷ more ↦
            go
              (record c {
                recvbuf = (b ∷ more) ++ drop (length (b ∷ more)) c.recvbuf;
                len = pos (length (b ∷ more));
                remaining_len = pos (length (b ∷ more));
              })
              msg handled
      ]
    ]

  -- The branches on the status of `parseSSAPmsg_section`.
  unfoldable pub after_section :
      (Client → Msg → ℤ → M Msg (Received Msg)) → Client → ℤ → Msg → ℤ → M Msg (Received Msg)
  unfolding receive_more
  after_section go c status msg handled = elim (int_eq status lib.ss_status_ok) [
    | true ↦
        let count = lib.parsedbytecount msg in
        pure (record {
          result = count;
          message = msg;
          client = record c { remaining_len = handled -ℤ count };
        })
    | false ↦ elim (int_eq status lib.ss_parsing_in_progress) [
      | true ↦ receive_more go (record c { len = pos 0; remaining_len = pos 0 }) msg handled
      | false ↦ pure (record { result = failed; message = msg; client = c })
    ]
  ]

  -- `while (!finished)`
  unfoldable pub receive_rounds : ℕ → Client → Msg → ℤ → M Msg (Received Msg)
  unfolding after_section
  receive_rounds zero c msg handled = stuck
  receive_rounds (suc fuel) c msg handled = elim (int_eq c.remaining_len (pos 0)) [
    | true ↦ receive_more (receive_rounds fuel) c msg handled
    | false ↦ do
      part ← section_at c.recvbuf (c.len -ℤ c.remaining_len) c.remaining_len
      let parsed = lib.parse_section msg part
      after_section (receive_rounds fuel) c parsed.0 parsed.1 (handled +ℤ c.remaining_len)
  ]

  unfoldable pub client_receive_message : Client → Msg → M Msg (Received Msg)
  unfolding receive_rounds
  client_receive_message c msg = receive_rounds env.rounds c msg (pos 0)
