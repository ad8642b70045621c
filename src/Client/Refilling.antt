-- ===== src/Client/Refilling.antt =====
-- src/main.c, `client_receive_message`: what one `recv` adds to a message.
use sib_tcp.Prelude.{
  ℕ, suc, ◌+◌, ◌≤◌, ◌<◌, refl, sym, ◌∙◌, inl, inr, [], ◌∷◌, ◌++◌, pos, arith, length, Option-cases,
}
use mathlib.Core.List.{append-nil}
use sib_tcp.Ssap.{Sibmsg}
use sib_tcp.World.{Env}
use sib_tcp.State.{State}
use sib_tcp.Client.{Client, receive_more, receive_rounds}
use sib_tcp.Socket.Delivery.{SameShared}
use sib_tcp.Consistency.{Returns, Returns-mono}
use sib_tcp.Client.Unread.{refill, refilled, given_more}
use sib_tcp.Client.Framing.{Counts, IsClient, FitsBuffer, IsReceived, unread, arrived}

pub unchanged : {Msg : Type 0} (s : State Msg) (k : ℕ) → SameShared s (record s { clock = k })
unchanged s k = record { requests = refl; subscriptions = refl; heap = refl; next = refl }

module _ {Msg : Type 0} (lib : Sibmsg Msg) (env : Env) (limit : ℕ) (p : Counts lib limit)
    (fits : FitsBuffer env) where
  open p use {text}

  abbrev fed : Msg → ℕ
  fed m = length (text m)

  -- What is claimed of the loop with this fuel, where bytes are waiting.
  abbrev pub Ready : ℕ → Type 0
  Ready fuel =
      (c : Client) (h : IsClient c) (m : Msg) (s : State Msg)
      → 1 ≤ h.rest
      → fed m ≤ limit
      → limit < fed m + fuel
      → Returns (IsReceived text env (text m ++ unread c h) c s)
          (receive_rounds lib env fuel c m (pos (fed m)) s)

  pub receive_more-IsReceived :
      (fuel : ℕ)
      → Ready fuel
      → (c : Client) (h : IsClient c) (m : Msg) (s : State Msg) → fed m ≤ limit
      → limit < fed m + fuel
      → Returns
          (IsReceived text env (text m) c s)
          (receive_more lib env (receive_rounds lib env fuel) c m (pos (fed m)) s)
  unfolding receive_more arrived
  receive_more-IsReceived fuel go c h m s small enough =
      elim (Option-cases (env.recv_result s.clock c.fd)) [
        | inl bad ↦ rw bad (record {
          client = h;
          ended = inl refl;
          calls = 1;
          clock = refl;
          given = rw (arrived, bad) (sym (append-nil _));
          behind = λ k e. absurd (ground (arith, e));
          fd = refl;
          trace = refl;
          same = unchanged s (s.clock + 1);
        })
        | inr ([], e) ↦ rw e (record {
          client = h;
          ended = inr (inl refl);
          calls = 1;
          clock = refl;
          given = rw (arrived, e) (sym (append-nil _));
          behind = λ k x. absurd (ground (arith, x));
          fd = refl;
          trace = refl;
          same = unchanged s (s.clock + 1);
        })
        | inr (b ∷ more, e) ↦ rw e (
            Returns-mono
              (IsReceived text env
                (text m
                  ++ unread (refill c b more)
                      (refilled c h b more (fits s.clock c.fd (b ∷ more) e)))
                (refill c b more) (record s { clock = s.clock + 1 }))
              (IsReceived text env (text m) c s) _
              (go (refill c b more) (refilled c h b more (fits s.clock c.fd (b ∷ more) e)) m
                (record s { clock = s.clock + 1 }) (omega arith) small enough)
              λ r t x. record {
                client = x.client;
                ended = x.ended;
                calls = suc x.calls;
                clock = omega (arith, x.clock);
                given =
                    x.given
                    ∙ given_more env c h b more (fits s.clock c.fd (b ∷ more) e) (text m) s.clock
                        x.calls e;
                behind = x.behind;
                fd = x.fd;
                trace = x.trace;
                same = record {
                  requests = x.same.requests;
                  subscriptions = x.same.subscriptions;
                  heap = x.same.heap;
                  next = x.same.next;
                };
              })
      ]
