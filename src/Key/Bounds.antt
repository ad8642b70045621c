-- ===== src/Key/Bounds.antt =====
-- How long a key gets, and which characters it has behind the node id.
use sib_tcp.Prelude.{
  ℕ, zero, suc, ◌+◌, ◌/◌, ◌^◌, ◌≤◌, ◌<◌, ◌≡◌, refl, inl, inr, [], ◌∷◌, ◌++◌, ℤ, pos, negsuc, Bytes,
  All, arith, int_eq, Bool-cases, length, length-append,
}
use sib_tcp.Key.{get_request_key, prepend_digits, digit_char, tenth, magnitude, negated}

-- A character between the apostrophe and '9'.
abbrev pub IsDigit : ℕ → Type 0
IsDigit c = (39 ≤ c) × (c ≤ 57)

digit_char-IsDigit : (m : ℤ) → IsDigit (digit_char m)
digit_char-IsDigit (pos n) = (omega arith, omega arith)
digit_char-IsDigit (negsuc n) = (omega arith, omega arith)

prepend_digits-IsDigit :
    (fuel : ℕ) (m : ℤ) (out : Bytes) → All IsDigit out → All IsDigit (prepend_digits fuel m out)
unfolding prepend_digits
prepend_digits-IsDigit zero m out h = h
prepend_digits-IsDigit (suc fuel) m out h = elim (Bool-cases (int_eq m (pos 0))) [
  | inl done ↦ rw (done, prepend_digits) h
  | inr more ↦
      rw (more, prepend_digits)
        (prepend_digits-IsDigit fuel (tenth m) (digit_char m ∷ out) (digit_char-IsDigit m, h))
]

magnitude-negated : (k : ℕ) → magnitude (negated k) ≡ k
magnitude-negated zero = refl
magnitude-negated (suc k) = refl

magnitude-tenth : (d : ℕ) (m : ℤ) → magnitude m < 10 ^ suc d → magnitude (tenth m) < 10 ^ d
magnitude-tenth d (pos n) h = omega (arith, h)
magnitude-tenth d (negsuc n) h = omega (arith, h, magnitude-negated (suc n / 10))

length-prepend_digits_le :
    (d fuel : ℕ) (m : ℤ) (out : Bytes)
    → magnitude m < 10 ^ d
    → length (prepend_digits fuel m out) ≤ length out + d
unfolding prepend_digits
length-prepend_digits_le d zero m out h = omega arith
length-prepend_digits_le zero (suc fuel) (pos zero) out h = omega arith
length-prepend_digits_le zero (suc fuel) (pos (suc n)) out h = absurd (omega (arith, h))
length-prepend_digits_le zero (suc fuel) (negsuc n) out h = absurd (omega (arith, h))
length-prepend_digits_le (suc d) (suc fuel) m out h = elim (Bool-cases (int_eq m (pos 0))) [
  | inl done ↦ rw (done, prepend_digits) (omega arith)
  | inr more ↦
      rw (more, prepend_digits)
        (omega (
          arith,
          length-prepend_digits_le d fuel (tenth m) (digit_char m ∷ out) (magnitude-tenth d m h),
        ))
]

-- For a message number of 32 bits, the key has at most 11 bytes more than the node id: the
-- underscore, and then characters between the apostrophe and '9', so that no byte of them ends the
-- string.
pub get_request_key_bounded :
    (node : Bytes) (msgid : ℤ)
    → magnitude msgid ≤ 2 ^ 31
    → (digits : Bytes) × (get_request_key node msgid ≡ node ++ (b'_' ∷ digits))
      × All IsDigit digits
      × (length (get_request_key node msgid) ≤ length node + 11)
unfolding get_request_key
get_request_key_bounded node msgid h = (
  prepend_digits (magnitude msgid) msgid [],
  refl,
  prepend_digits-IsDigit (magnitude msgid) msgid [] tt,
  omega (
    arith,
    length-append node (b'_' ∷ prepend_digits (magnitude msgid) msgid []),
    length-prepend_digits_le 10 (magnitude msgid) msgid [] (omega (arith, h)),
  ),
)
