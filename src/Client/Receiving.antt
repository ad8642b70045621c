-- ===== src/Client/Receiving.antt =====
-- src/main.c, `client_receive_message`: every call returns, and reads inside the buffer.
use sib_tcp.Prelude.{
  ℕ, zero, suc, ◌+◌, ◌-◌, ◌≤◌, ◌<◌, ◌≡◌, refl, ap, sym, subst, ◌∙◌, inl, inr, true, false, [], ◌++◌,
  pos, ◌+ℤ◌, Bytes, arith, int_eq, ◌==◌, length, take, drop, length-append, Bool-cases,
}
use mathlib.Core.List.{append-nil}
use sib_tcp.Ssap.{Sibmsg}
use sib_tcp.World.{Env}
use sib_tcp.State.{State}
use sib_tcp.Client.{Client, receive_more, after_section, receive_rounds, client_receive_message}
use sib_tcp.Consistency.{Returns, Returns-mono}
use sib_tcp.Client.Unread.{emptied, behind_message}
use sib_tcp.Client.Framing.{
  Counts, IsClient, FitsBuffer, IsReceived, pos_add, pos_sub, unread, arrived, length-unread,
  section_lem,
}
use sib_tcp.Client.Refilling.{Ready, unchanged, receive_more-IsReceived}

module _ {Msg : Type 0} (lib : Sibmsg Msg) (env : Env) (limit : ℕ) (p : Counts lib limit)
    (fits : FitsBuffer env) where
  open p use {text}

  abbrev fed : Msg → ℕ
  fed m = length (text m)

  after_section-IsReceived :
      (fuel : ℕ)
      → Ready lib env limit p fits fuel
      → (c : Client) (h : IsClient c) (m : Msg) (s : State Msg) → 1 ≤ h.rest
      → fed m ≤ limit
      → limit < fed m + suc fuel
      → Returns (IsReceived text env (text m ++ unread c h) c s) (
          after_section lib env
            (receive_rounds lib env fuel)
            c
            ((lib.parse_section m (unread c h)).0)
            ((lib.parse_section m (unread c h)).1)
            (pos (fed m + h.rest))
            s)
  unfolding after_section arrived
  after_section-IsReceived fuel go c h m s some_ small enough =
      elim (Bool-cases (int_eq ((lib.parse_section m b).0) lib.ss_status_ok)) [
        | inl ok ↦
            let (k, e, low, high) = p.count m b ok in
            rw (after_section, ok, e)
              (record {
                client = record {
                  size = h.size;
                  filled = h.filled;
                  rest = fed m + h.rest - suc k;
                  len = h.len;
                  remaining_len = pos_sub (fed m + h.rest) (suc k) (omega (arith, high, long));
                  rest_le = omega (arith, low, h.rest_le);
                  filled_le = h.filled_le;
                };
                ended = inr (inr (k, refl, omega (arith, high, long, fed_parsed)));
                calls = 0;
                clock = omega arith;
                given = p.text_section m b ∙ sym (append-nil _);
                behind = λ j x.
                    behind_message c h (text m) k j low (omega (arith, high, long)) x
                    ∙ ap (drop (suc j)) (sym (p.text_section m b));
                fd = refl;
                trace = refl;
                same = unchanged s s.clock;
              })
        | inr not_ok ↦
            elim (Bool-cases (int_eq ((lib.parse_section m b).0) lib.ss_parsing_in_progress)) [
              | inl on ↦ rw (after_section, not_ok, on) (go_on on)
              | inr bad ↦
                  rw (after_section, not_ok, bad)
                    (record {
                      client = h;
                      ended = inl refl;
                      calls = 0;
                      clock = omega arith;
                      given = p.text_section m b ∙ sym (append-nil _);
                      behind = λ k x. absurd (ground (arith, x));
                      fd = refl;
                      trace = refl;
                      same = unchanged s s.clock;
                    })
            ]
      ]
    where
      b : Bytes
      b = unread c h

      long : length b ≡ h.rest
      long = length-unread c h

      parsed : Msg
      parsed = (lib.parse_section m b).1

      fed_parsed : fed parsed ≡ fed m + h.rest
      fed_parsed = ap length (p.text_section m b) ∙ length-append (text m) b ∙ ap (◌+◌ (fed m)) long

      go_on :
          int_eq ((lib.parse_section m b).0) lib.ss_parsing_in_progress ≡ true
          → Returns (IsReceived text env (text m ++ b) c s) (
              receive_more lib env
                (receive_rounds lib env fuel)
                (record c { len = pos 0; remaining_len = pos 0 })
                parsed
                (pos (fed m + h.rest))
                s)
      go_on on =
          Returns-mono
            (IsReceived text env (text parsed) (record c { len = pos 0; remaining_len = pos 0 }) s)
            (IsReceived text env (text m ++ b) c s) _
            (subst
              (λ n.
                Returns
                  (IsReceived text env (text parsed)
                    (record c { len = pos 0; remaining_len = pos 0 }) s)
                  (receive_more lib env (receive_rounds lib env fuel)
                    (record c { len = pos 0; remaining_len = pos 0 }) parsed (pos n) s))
              fed_parsed
              (receive_more-IsReceived lib env limit p fits fuel go _ (emptied c h) parsed s
                (omega (arith, fed_parsed, long, p.limited m b on))
                (omega (arith, fed_parsed, enough, some_))))
            λ r t x. record {
              client = x.client;
              ended = x.ended;
              calls = x.calls;
              clock = x.clock;
              given =
                  x.given ∙ ap (λ t. t ++ arrived env c.fd s.clock x.calls) (p.text_section m b);
              behind = x.behind;
              fd = x.fd;
              trace = x.trace;
              same = x.same;
            }

  rounds-Ready : (fuel : ℕ) → Ready lib env limit p fits fuel
  unfolding receive_rounds
  rounds-Ready zero c h m s some_ small enough = absurd (omega (arith, enough))
  rounds-Ready (suc fuel) c h m s some_ small enough =
      rw (receive_rounds, nonzero, section_lem c h s, handled)
        (after_section-IsReceived fuel (rounds-Ready fuel) c h m s some_ small enough)
    where
      nonzero : int_eq c.remaining_len (pos 0) ≡ false
      nonzero = rw h.remaining_len (ground (arith, some_))

      handled : pos (fed m) +ℤ c.remaining_len ≡ pos (fed m + h.rest)
      handled = ap (◌+ℤ◌ (pos (fed m))) h.remaining_len ∙ pos_add (fed m) h.rest

  started :
      (fuel : ℕ) (c : Client) (h : IsClient c) (m : Msg) (s : State Msg)
      → text m ≡ []
      → limit + 2 ≤ fuel
      → Returns
          (IsReceived text env (unread c h) c s)
          (receive_rounds lib env fuel c m (pos (fed m)) s)
  unfolding receive_rounds
  started zero c h m s new enough = absurd (omega (arith, enough))
  started (suc fuel) c h m s new enough = elim (Bool-cases (h.rest == 0)) [
    | inl empty ↦
        rw (receive_rounds, at_zero empty)
          (subst
            (λ b.
              Returns (IsReceived text env b c s)
                (receive_more lib env (receive_rounds lib env fuel) c m (pos (fed m)) s))
            (new ∙ none_left empty)
            (receive_more-IsReceived lib env limit p fits fuel (rounds-Ready fuel) c h m s
              (omega (arith, ap length new)) (omega (arith, ap length new, enough))))
    | inr some_ ↦
        subst
          (λ b.
            Returns (IsReceived text env b c s)
              (receive_rounds lib env (suc fuel) c m (pos (fed m)) s))
          (ap (λ (b : Bytes). b ++ unread c h) new)
          (rounds-Ready (suc fuel) c h m s (ground (arith, some_)) (omega (arith, ap length new))
            (omega (arith, ap length new, enough)))
  ]
    where
      none_left : (h.rest == 0) ≡ true → [] ≡ unread c h
      none_left empty =
          ap (λ k. take k (drop (h.filled - h.rest) c.recvbuf)) {x = 0} (ground (arith, empty))

      at_zero : (h.rest == 0) ≡ true → int_eq c.remaining_len (pos 0) ≡ true
      at_zero empty = rw h.remaining_len empty

  -- If the parser counts, is not in progress on more than `limit` bytes, `recv` gives no more than
  -- the buffer holds, and the loop is watched for two rounds more than `limit`, then a call for a
  -- new message returns, from a client whose unread bytes lie in its buffer, whatever pieces arrive:
  -- no read leaves the buffer; the parser has got the bytes that were unread and then those that
  -- came, in order, without a loss; the result is an error, an end, or the length of a message, and
  -- after a message just what lies behind it is unread; the client is in order again with the same
  -- socket, and the shared state is as before.
  pub client_receive_message-IsReceived :
      (c : Client) (s : State Msg) (h : IsClient c)
      → limit + 2 ≤ env.rounds
      → Returns
          (IsReceived text env (unread c h) c s)
          (client_receive_message lib env c lib.new_message s)
  unfolding client_receive_message
  client_receive_message-IsReceived c s h enough =
      subst
        (λ n.
          Returns (IsReceived text env (unread c h) c s)
            (receive_rounds lib env env.rounds c lib.new_message (pos n) s))
        (ap length p.text_new) (started env.rounds c h lib.new_message s p.text_new enough)
