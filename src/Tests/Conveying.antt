-- ===== src/Tests/Conveying.antt =====
-- The theorem about a message on its way in a build with HIPDEX, at concrete ends.
use sib_tcp.Prelude.{
  ℕ, zero, suc, ◌+◌, ◌-◌, ◌≤◌, ◌≡◌, refl, ap, ◌∙◌, Option, none, some, [], ◌∷◌, codes, pos, Bytes,
  arith, ◌==◌, if◌then◌else◌,
}
use sib_tcp.World.{Env}
use sib_tcp.Socket.Delivery.{Delivered}
use sib_tcp.Client.{fresh_client}
use sib_tcp.Client.Framing.{FitsBuffer, unread, arrived}
use sib_tcp.Consistency.{Returns}
use sib_tcp.Hipdex.{
  decipher, Hipdex, deciphering, client_send_message_hipdex, client_receive_message_hipdex,
}
use sib_tcp.Hipdex.Keystream.{Keystream, masked, length-masked}
use sib_tcp.Hipdex.Streaming.{moved, piece, arrived-suc, Opens, Carries, Conveyed, message-Conveyed}
use sib_tcp.Tests.{system, system-Delivers, idle_state}
use sib_tcp.Tests.Connections.{counting, counting_counts, fresh_client-IsClient}

-- A byte is moved by its place.
abbrev by_place : Keystream
by_place = record {
  seal = λ place c. c + place;
  unseal = λ place c. c - place;
  unseal_seal = λ place c. omega arith;
}

abbrev sender : Hipdex
sender = record {
  getpeername = λ t fd. some 9;
  get_sa = λ t address. some 1;
  encrypt = λ t a b. masked by_place.seal 5 b;
  decrypt = λ t a b. b;
  length_decrypt = λ t a b. refl;
}

-- What is sent of "abcd" comes in two parts, and then the connection fails.
abbrev came : ℕ → Option Bytes
came t = if t == 2 then some (102 ∷ 104 ∷ []) else if t == 3 then some (106 ∷ 108 ∷ []) else none

abbrev halves : Env
halves = record (system (pos 0) []) { recv_result = λ t fd. came t }

-- The places of the receiver's stream: two bytes on with each of the two parts.
abbrev place_at : ℕ → ℕ
place_at t = if t == 2 then 5 else if t == 3 then 7 else 9

abbrev receiver : Hipdex
receiver = record {
  getpeername = λ t fd. some 8;
  get_sa = λ t address. some 2;
  encrypt = λ t a b. b;
  decrypt = λ t a b. masked by_place.unseal (place_at t) b;
  length_decrypt = λ t a b. length-masked by_place.unseal _ b;
}

silence : (n t : ℕ) → 4 ≤ t → arrived halves 4 t n ≡ []
unfolding arrived piece
silence zero t h = refl
silence (suc n) t h =
    arrived-suc halves 4 t n ∙ rw (quiet, silence n (t + 1) (omega (arith, h))) refl
  where
    quiet : piece (came t) ≡ []
    quiet = ground (arith, h)

-- Nothing moves it any more.
still : (n t : ℕ) → 4 ≤ t → moved halves receiver 2 4 t n ≡ 0
unfolding moved
still zero t h = refl
still (suc n) t h = omega (arith, quiet, still n (t + 1) (omega (arith, h)))
  where
    quiet : (decipher receiver 2 t (came t)).1 ≡ 0
    quiet = ground (arith, h)

receiver-Opens : Opens by_place halves receiver 2 4 2 5
unfolding moved
receiver-Opens zero b = refl
receiver-Opens (suc zero) b = refl
receiver-Opens (suc (suc n)) b =
    ap (λ m. masked by_place.unseal m b) (ground (arith, still n 4 (omega arith)))

halves-Carries : Carries halves 4 2 (masked by_place.seal 5 (codes "abcd"))
unfolding arrived masked
halves-Carries zero = (0, refl)
halves-Carries (suc zero) = (2, refl)
halves-Carries (suc (suc n)) =
    (4, ap (λ (b : Bytes). 102 ∷ 104 ∷ 106 ∷ 108 ∷ b) (silence n 4 (omega arith)))

halves-FitsBuffer : FitsBuffer halves
halves-FitsBuffer t fd bytes e = ground (arith, e)

message-Conveyed_example :
    Returns
      (Delivered 4 (masked by_place.seal 5 (codes "abcd")) idle_state)
      (client_send_message_hipdex (system (pos 0) []) sender 4 (codes "abcd") idle_state)
    × Returns
        (Conveyed
          (λ m. m.subid)
          (deciphering halves receiver 2)
          (unread (fresh_client 4) fresh_client-IsClient)
          (codes "abcd")
          (fresh_client 4)
          (record idle_state { clock = 2 }))
        (client_receive_message_hipdex counting halves receiver
          (fresh_client 4)
          counting.new_message
          idle_state)
message-Conveyed_example =
    message-Conveyed counting by_place 5 (system (pos 0) []) sender 4 1 idle_state (codes "abcd")
      (9, refl, refl) refl halves receiver 2 (fresh_client 4) fresh_client-IsClient idle_state
      (8, refl, refl) receiver-Opens (system-Delivers (pos 0) [] 4) (omega arith) 2 counting_counts
      halves-FitsBuffer (omega arith) halves-Carries
