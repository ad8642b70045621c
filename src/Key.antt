-- ===== src/Key.antt =====
-- src/main.c, `get_request_key`: the key under which a request waits in the table of requests, the
-- node id, an underscore and the digits of the message number.
pub mod Digits
pub mod Unique
pub mod Bounds
use sib_tcp.Prelude.{
  ℕ, zero, suc, ◌+◌, ◌-◌, ◌/◌, ◌%◌, List, [], ◌∷◌, ◌++◌, ◌≡◌, refl, ℤ, pos, negsuc, Bool, true,
  false, Bytes, codes, int_eq,
}

-- `c = (msgid % 10) + '0'`: the remainder of a negative number is not positive in C, so the
-- character of a digit d lies d places below '0'.
abbrev pub digit_char : ℤ → ℕ
digit_char (pos n) = b'0' + n % 10
digit_char (negsuc n) = b'0' - suc n % 10

-- `msgid / 10`, which rounds towards zero.
abbrev negated : ℕ → ℤ
negated zero = pos 0
negated (suc n) = negsuc n

abbrev pub tenth : ℤ → ℤ
tenth (pos n) = pos (n / 10)
tenth (negsuc n) = negated (suc n / 10)

-- The number of rounds that suffices for the loop: each divides `msgid` by ten.
abbrev pub magnitude : ℤ → ℕ
magnitude (pos n) = n
magnitude (negsuc n) = suc n

-- `while (msgid) { c = …; gnum = g_string_prepend_c (gnum, c); msgid = msgid / 10; }`
pub prepend_digits : ℕ → ℤ → Bytes → Bytes
prepend_digits zero msgid gnum = gnum
prepend_digits (suc fuel) msgid gnum = elim (int_eq msgid (pos 0)) [
  | true ↦ gnum
  | false ↦ prepend_digits fuel (tenth msgid) (digit_char msgid ∷ gnum)
]

unfoldable pub get_request_key : Bytes → ℤ → Bytes
unfolding prepend_digits
get_request_key nodeid msgid = nodeid ++ (b'_' ∷ prepend_digits (magnitude msgid) msgid [])

key_of_join : get_request_key (codes "node") (pos 1205) ≡ codes "node_1205"
unfolding get_request_key
key_of_join = refl

key_of_zero : get_request_key (codes "n") (pos 0) ≡ codes "n_"
unfolding get_request_key
key_of_zero = refl

key_of_negative : get_request_key (codes "n") (negsuc 11) ≡ codes "n_/."
unfolding get_request_key
key_of_negative = refl
