-- ===== src/Tests/Enciphering.antt =====
-- The theorems about a build with HIPDEX, at concrete inputs.
use sib_tcp.Prelude.{ℕ, suc, ◌+◌, ◌≡◌, refl, ap, some, [], ◌∷◌, codes, pos, Bytes, length, Option}
use sib_tcp.Subscription.{Saved}
use sib_tcp.Hipdex.{Hipdex, client_send_message_hipdex}
use sib_tcp.Hipdex.Secrecy.{Enciphered, client_send_message_hipdex-Enciphered}
use sib_tcp.Tests.{system, idle_state}

abbrev pub shifted : Bytes → Bytes
shifted [] = []
shifted (x ∷ b) = (x + 1) ∷ shifted b

pub length-shifted : (b : Bytes) → length (shifted b) ≡ length b
length-shifted [] = refl
length-shifted (x ∷ b) = ap suc (length-shifted b)

-- A cipher that shifts the bytes, and the associations `sa` for every address.
abbrev pub shifting : Option ℕ → Hipdex
shifting sa = record {
  getpeername = λ t fd. some 9;
  get_sa = λ t address. sa;
  encrypt = λ t a b. shifted b;
  decrypt = λ t a b. shifted b;
  length_decrypt = λ t a b. length-shifted b;
}

client_send_message_hipdex-Enciphered_example :
    Enciphered
      (system (pos 0) [])
      (shifting (some 1))
      4
      idle_state
      (codes "ab")
      (client_send_message_hipdex (system (pos 0) []) (shifting (some 1)) 4 (codes "ab") idle_state)
client_send_message_hipdex-Enciphered_example =
    client_send_message_hipdex-Enciphered (system (pos 0) []) (shifting (some 1)) 4 idle_state
      (codes "ab")

abbrev strings : Saved
strings = record { nodeid = codes "kp"; spaceid = codes "x"; subid = codes "i" }
