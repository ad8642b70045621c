-- ===== src/Hipdex/Keystream.antt =====
-- Stream ciphers, as the associations of hip-dex/ use them for client_send_message and
-- client_receive_message of src/main.c.
use sib_tcp.Prelude.{
  ℕ, zero, suc, ◌+◌, ◌≡◌, refl, ap, ◌∙◌, [], ◌∷◌, ◌++◌, Bytes, arith, length, take,
}

-- A stream cipher: what is done to the byte at a place of the stream, and undone.
pub record Keystream : Type 0 where
  pub seal : ℕ → ℕ → ℕ
  pub unseal : ℕ → ℕ → ℕ
  pub unseal_seal : (place c : ℕ) → unseal place (seal place c) ≡ c

-- The bytes from a place of the stream on.
unfoldable pub masked : (ℕ → ℕ → ℕ) → ℕ → Bytes → Bytes
masked f place [] = []
masked f place (c ∷ b) = f place c ∷ masked f (suc place) b

pub length-masked : (f : ℕ → ℕ → ℕ) (place : ℕ) (b : Bytes) → length (masked f place b) ≡ length b
unfolding masked
length-masked f place [] = refl
length-masked f place (c ∷ b) = ap suc (length-masked f (suc place) b)

-- Two pieces, the second from the place behind the first.
pub masked-append :
    (f : ℕ → ℕ → ℕ) (place : ℕ) (a b : Bytes)
    → masked f place (a ++ b) ≡ masked f place a ++ masked f (place + length a) b
unfolding masked
masked-append f place [] b = ap (λ n. masked f n b) (omega arith)
masked-append f place (c ∷ a) b = ap (◌∷◌ (f place c)) (
    masked-append f (suc place) a b
    ∙ ap (λ n. masked f (suc place) a ++ masked f n b) (omega arith))

-- A front part that was enciphered is deciphered to the front part.
pub masked-take :
    (key : Keystream) (place k : ℕ) (b : Bytes)
    → masked key.unseal place (take k (masked key.seal place b)) ≡ take k b
unfolding masked
masked-take key place zero b = refl
masked-take key place (suc k) [] = refl
masked-take key place (suc k) (c ∷ b) =
    rw (key.unseal_seal place c) (ap (◌∷◌ c) (masked-take key (suc place) k b))
