-- ===== src/Key/Digits.antt =====
-- The digits of a message number can be read back.
use sib_tcp.Prelude.{
  ℕ, zero, suc, ◌+◌, ◌-◌, ◌*◌, ◌≤◌, ◌≡◌, ◌≢◌, ap, ◌∙◌, inl, inr, [], ◌∷◌, foldl, ℤ, pos, negsuc,
  pos_part, neg_part, true, false, Bytes, All, arith, int_eq, Bool-cases,
}
use native.Mathlib.Decide.{dec_lt}
use sib_tcp.Key.{prepend_digits, digit_char, tenth, magnitude}

-- Digits from '0' upwards count for the first part, digits below it for the second.
abbrev read_digit : ℕ × ℕ → ℕ → ℕ × ℕ
read_digit (p, n) c = (p * 10 + (c - b'0'), n * 10 + (b'0' - c))

pub read_from : ℕ × ℕ → Bytes → ℕ × ℕ
read_from = foldl read_digit

abbrev pub parts : ℤ → ℕ × ℕ
parts m = (pos_part m, neg_part m)

read_tenth : (m : ℤ) → read_digit (parts (tenth m)) (digit_char m) ≡ parts m
read_tenth (pos n) = ground arith
read_tenth (negsuc n) = elim (dec_lt n 9) [ yes small ↦ ground arith | no large ↦ ground arith ]

magnitude-tenth_le :
    (fuel : ℕ) (m : ℤ)
    → int_eq m (pos 0) ≡ false
    → magnitude m ≤ suc fuel
    → magnitude (tenth m) ≤ fuel
magnitude-tenth_le fuel (pos n) h le = ground arith
magnitude-tenth_le fuel (negsuc n) h le = ground arith

parts_of_zero : (m : ℤ) → int_eq m (pos 0) ≡ true → parts m ≡ (0, 0)
parts_of_zero (pos n) h = ground arith
parts_of_zero (negsuc n) h = cc

read-prepend_digits :
    (fuel : ℕ) (m : ℤ) (out : Bytes)
    → magnitude m ≤ fuel
    → read_from (0, 0) (prepend_digits fuel m out) ≡ read_from (parts m) out
unfolding prepend_digits read_from
read-prepend_digits zero (pos n) out h = let e : n ≡ 0 = omega arith in rw e
read-prepend_digits zero (negsuc n) out h = absurd (omega arith)
read-prepend_digits (suc fuel) m out h = elim (Bool-cases (int_eq m (pos 0))) [
  | inl done ↦ rw (done, prepend_digits, parts_of_zero m done)
  | inr more ↦
      rw (more, prepend_digits)
        (read-prepend_digits fuel (tenth m) (digit_char m ∷ out) (magnitude-tenth_le fuel m more h)
          ∙ ap (λ (v : ℕ × ℕ). read_from v out) (read_tenth m))
]

pub read-digits : (m : ℤ) → read_from (0, 0) (prepend_digits (magnitude m) m []) ≡ parts m
unfolding read_from
read-digits m = read-prepend_digits (magnitude m) m [] (omega arith)

-- No digit is an underscore.
digit_char-ne : (m : ℤ) → digit_char m ≢ b'_'
digit_char-ne (pos n) = omega arith
digit_char-ne (negsuc n) = omega arith

abbrev pub Plain : Bytes → Type 0
Plain = All (λ c. c ≢ b'_')

pub prepend_digits-Plain :
    (fuel : ℕ) (m : ℤ) (out : Bytes) → Plain out → Plain (prepend_digits fuel m out)
unfolding prepend_digits
prepend_digits-Plain zero m out h = h
prepend_digits-Plain (suc fuel) m out h = elim (Bool-cases (int_eq m (pos 0))) [
  | inl done ↦ rw (done, prepend_digits) h
  | inr more ↦
      rw (more, prepend_digits)
        (prepend_digits-Plain fuel (tenth m) (digit_char m ∷ out) (digit_char-ne m, h))
]

-- The parts of a number determine it.
pub parts-injective : (i j : ℤ) → parts i ≡ parts j → i ≡ j
parts-injective (pos a) (pos b) h = ground arith
parts-injective (pos a) (negsuc b) h = ground arith
parts-injective (negsuc a) (pos b) h = ground arith
parts-injective (negsuc a) (negsuc b) h = ground arith
