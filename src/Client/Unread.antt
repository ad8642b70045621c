-- ===== src/Client/Unread.antt =====
-- The bytes in the buffer of a client: which are unread after a `recv`, and behind a message.
use mathlib.Core.Path.{ap₂}
use mathlib.Core.List.{append_assoc}
use sib_tcp.Prelude.{
  ℕ, suc, ◌+◌, ◌-◌, ◌≤◌, ◌≡◌, refl, ap, sym, ◌∙◌, some, ◌∷◌, ◌++◌, pos, Bytes, arith, length, take,
  drop, drop-take, drop-drop, drop-append, take-append, length-append, length-drop,
}
use sib_tcp.World.{Env}
use sib_tcp.Client.{Client, recvbufsize}
use sib_tcp.Client.Framing.{IsClient, unread, arrived}

abbrev pub refill : Client → ℕ → Bytes → Client
refill c b more = record c {
  recvbuf = (b ∷ more) ++ drop (length (b ∷ more)) c.recvbuf;
  len = pos (length (b ∷ more));
  remaining_len = pos (length (b ∷ more));
}

abbrev pub refilled :
    (c : Client) (h : IsClient c) (b : ℕ) (more : Bytes)
    → length (b ∷ more) ≤ recvbufsize
    → IsClient (refill c b more)
refilled c h b more few = record {
  size =
      length-append (b ∷ more) (drop (length (b ∷ more)) c.recvbuf)
      ∙ omega (arith, length-drop (length (b ∷ more)) c.recvbuf, h.size, few);
  filled = length (b ∷ more);
  rest = length (b ∷ more);
  len = refl;
  remaining_len = refl;
  rest_le = omega arith;
  filled_le = few;
}

abbrev pub emptied :
    (c : Client) → IsClient c → IsClient (record c { len = pos 0; remaining_len = pos 0 })
emptied c h = record {
  size = h.size;
  filled = 0;
  rest = 0;
  len = refl;
  remaining_len = refl;
  rest_le = omega arith;
  filled_le = omega arith;
}

unread-refill :
    (c : Client) (h : IsClient c) (b : ℕ) (more : Bytes) (few : length (b ∷ more) ≤ recvbufsize)
    → unread (refill c b more) (refilled c h b more few) ≡ b ∷ more
unread-refill c h b more few =
    ap (λ k. take (length (b ∷ more)) (drop k ((b ∷ more) ++ drop (length (b ∷ more)) c.recvbuf)))
      {y = 0} (omega arith)
    ∙ take-append (b ∷ more) _

-- What a `recv` gave comes behind what the parser was given before.
pub given_more :
    (env : Env) (c : Client) (h : IsClient c) (b : ℕ) (more : Bytes)
    (few : length (b ∷ more) ≤ recvbufsize) (first : Bytes) (t n : ℕ)
    → env.recv_result t c.fd ≡ some (b ∷ more)
    → (first ++ unread (refill c b more) (refilled c h b more few)) ++ arrived env c.fd (t + 1) n
      ≡ first ++ arrived env c.fd t (suc n)
unfolding arrived
given_more env c h b more few first t n e =
    rw (unread-refill c h b more few, arrived, e) (append_assoc (first) (b ∷ more) _)

-- Behind a message that ends in the section just read, the rest of the section is unread.
pub behind_message :
    (c : Client) (h : IsClient c) (first : Bytes) (k j : ℕ)
    → length first ≤ k
    → suc k ≤ length first + h.rest
    → pos (suc k) ≡ pos (suc j)
    → take
        (length first + h.rest - suc k)
        (drop (h.filled - (length first + h.rest - suc k)) c.recvbuf)
      ≡ drop (suc j) ((first ++ unread c h))
behind_message c h first k j low high e = sym (
    ap (λ n. drop n (first ++ unread c h)) same
    ∙ drop-append (suc k) (first) (unread c h) (omega (arith, low))
    ∙ drop-take (suc k - length first) h.rest (drop (h.filled - h.rest) c.recvbuf)
    ∙ ap (take (h.rest - (suc k - length first)))
        (drop-drop (h.filled - h.rest) (suc k - length first) c.recvbuf)
    ∙ ap₂ (λ i n. take i (drop n c.recvbuf)) (omega (arith, low, high))
        (omega (arith, low, high, h.rest_le)))
  where
    same : suc j ≡ suc k
    same = ground (arith, e)
