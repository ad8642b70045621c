-- ===== src/Key/Unique.antt =====
-- Two requests share a key only if they agree on the node id and the message number.
use mathlib.Core.Path.{ap₂}
use sib_tcp.Prelude.{ℕ, ◌≡◌, refl, ap, subst, sym, ◌∙◌, [], ◌∷◌, ◌++◌, ℤ, Bytes, arith}
use sib_tcp.Key.{get_request_key, prepend_digits, magnitude}
use sib_tcp.Key.Digits.{Plain, parts, read_from, read-digits, prepend_digits-Plain, parts-injective}

head_eq : {x y : ℕ} {xs ys : Bytes} → x ∷ xs ≡ y ∷ ys → x ≡ y
head_eq e = ground arith

tail_eq : {x y : ℕ} {xs ys : Bytes} → x ∷ xs ≡ y ∷ ys → xs ≡ ys
tail_eq e = ground arith

not-Plain_of_middle : (xs ys : Bytes) → Plain (xs ++ (b'_' ∷ ys)) → ⊥
not-Plain_of_middle [] ys (h, _) = h refl
not-Plain_of_middle (x ∷ xs) ys (_, h) = not-Plain_of_middle xs ys h

-- A text splits at its last underscore in one way.
last_underscore :
    (a b xs ys : Bytes)
    → Plain xs
    → Plain ys
    → a ++ (b'_' ∷ xs) ≡ b ++ (b'_' ∷ ys)
    → (a ≡ b) × (xs ≡ ys)
last_underscore [] [] xs ys hx hy e = ground arith
last_underscore [] (c ∷ b) xs ys hx hy e =
    absurd (not-Plain_of_middle b ys (subst Plain (tail_eq e) hx))
last_underscore (c ∷ a) [] xs ys hx hy e =
    absurd (not-Plain_of_middle a xs (subst Plain (tail_eq (sym e)) hy))
last_underscore (c ∷ a) (d ∷ b) xs ys hx hy e =
    let (same, rest) = last_underscore a b xs ys hx hy (tail_eq e) in
    (ap₂ ◌∷◌ (head_eq e) same, rest)

-- Two requests have the same key only if they come from the same node and carry the same message
-- number; a node id may hold underscores and digits, and a message number may be negative.
pub get_request_key-injective :
    (n m : Bytes) (i j : ℤ) → get_request_key n i ≡ get_request_key m j → (n ≡ m) × (i ≡ j)
unfolding get_request_key
get_request_key-injective n m i j e = (split.0, parts-injective i j numbers)
  where
    digits : ℤ → Bytes
    digits k = prepend_digits (magnitude k) k []

    split : (n ≡ m) × (digits i ≡ digits j)
    split =
        last_underscore n m (digits i) (digits j) (prepend_digits-Plain (magnitude i) i [] tt)
          (prepend_digits-Plain (magnitude j) j [] tt) e

    numbers : parts i ≡ parts j
    numbers = sym (read-digits i) ∙ ap (read_from (0, 0)) split.1 ∙ read-digits j
