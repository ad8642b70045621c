-- ===== src/Tests/Connections.antt =====
-- The theorems about connections and the command line, at concrete inputs.
use sib_tcp.Prelude.{
  ℕ, suc, ◌+◌, ◌≤◌, ◌≡◌, refl, ap, true, false, some, [], ◌∷◌, Bytes, codes, bytes_eq, ℤ, pos,
  int_eq, length, length-append, ◌++◌, leb, arith, if◌then◌else◌,
}
use sib_tcp.Ssap.{Sibmsg}
use sib_tcp.World.{Env}
use sib_tcp.Consistency.{Returns}
use sib_tcp.Client.{fresh_client, client_receive_message}
use sib_tcp.Client.Framing.{Counts, IsClient, IsReceived, FitsBuffer, unread}
use sib_tcp.Client.Receiving.{client_receive_message-IsReceived}
use sib_tcp.Options.{parse_args, returns}
use sib_tcp.Options.Effect.{command_line, port_is, wakes_are, word, ended, parse_args-command_line}
use sib_tcp.Tests.{Note, toy, system, idle_state}

-- A parser for which a message is complete once it has three bytes; it keeps all it is given.
abbrev pub section_of : Note → Bytes → ℤ × Note
section_of m [] = (pos 2, record m { subid = m.subid ++ [] })
section_of m (x ∷ b) = (
  (if leb 3 (length m.subid + length (x ∷ b)) then pos 0 else pos 1),
  record m { subid = m.subid ++ (x ∷ b) },
)

abbrev pub counting : Sibmsg Note
counting = record (toy (λ v. v)) {
  parse_section = section_of;
  parsedbytecount = λ m. pos (length m.subid);
}

pub section_of-text : (m : Note) (b : Bytes) → ((section_of m b).1).subid ≡ m.subid ++ b
section_of-text m [] = refl
section_of-text m (x ∷ b) = refl

pub section_of-count :
    (m : Note) (b : Bytes)
    → int_eq ((section_of m b).0) (pos 0) ≡ true
    → (k : ℕ) × (pos (length ((section_of m b).1).subid) ≡ pos (suc k))
      × (length m.subid ≤ k)
      × (suc k ≤ length m.subid + length b)
section_of-count m [] h = absurd (ground (arith, h))
section_of-count m (x ∷ b) h = (
  length m.subid + length b,
  ap pos (omega (arith, length-append m.subid (x ∷ b))),
  omega arith,
  omega arith,
)

pub section_of-limited :
    (m : Note) (b : Bytes)
    → int_eq ((section_of m b).0) (pos 1) ≡ true
    → length m.subid + length b ≤ 2
section_of-limited m [] h = absurd (ground (arith, h))
section_of-limited m (x ∷ b) h = ground (arith, h)

abbrev pub counting_counts : Counts counting 2
counting_counts = record {
  text = λ m. m.subid;
  text_new = refl;
  text_section = section_of-text;
  count = section_of-count;
  limited = section_of-limited;
}

-- Each `recv` gives two bytes.
abbrev chatty : Env
chatty = record (system (pos 0) []) { recv_result = λ t fd. some (codes "ab") }

pub fresh_client-IsClient : IsClient (fresh_client 4)
fresh_client-IsClient = record {
  size = refl;
  filled = 0;
  rest = 0;
  len = refl;
  remaining_len = refl;
  rest_le = omega arith;
  filled_le = omega arith;
}

chatty-FitsBuffer : FitsBuffer chatty
chatty-FitsBuffer t fd bytes e = ground (arith, e)

client_receive_message-IsReceived_example :
    Returns
      (IsReceived
        (λ m. m.subid)
        chatty
        (unread (fresh_client 4) fresh_client-IsClient)
        (fresh_client 4)
        idle_state)
      (client_receive_message counting chatty (fresh_client 4) counting.new_message idle_state)
client_receive_message-IsReceived_example =
    client_receive_message-IsReceived counting chatty 2 counting_counts chatty-FitsBuffer
      (fresh_client 4) idle_state fresh_client-IsClient (omega arith)

parse_args-command_line_example :
    parse_args
      (λ v. pos (length v))
      (codes "-p" ∷ codes "80" ∷ codes "x" ∷ codes "-sub-wake-fr" ∷ codes "7" ∷ [])
    ≡ returns (record { port = pos 2; subwakefr = pos 1 })
unfolding command_line bytes_eq
parse_args-command_line_example =
    parse_args-command_line (λ v. pos (length v))
      (port_is false (codes "80") ∷ word (codes "x") ∷ wakes_are (codes "7") ∷ []) ended
      ((refl, refl, refl), ((refl, refl, refl), ((refl, refl, refl), tt)))
