-- ===== src/Socket/Delivery.antt =====
-- What a client gets of a message that is sent to it.
use mathlib.Core.List.{append_assoc, append-nil}
use sib_tcp.Prelude.{
  ℕ, zero, suc, ◌+◌, ◌≤◌, ◌≡◌, refl, sym, ap, ◌∙◌, ◌⊎◌, inl, inr, some, List, [], ◌∷◌, ◌++◌, ℤ, pos,
  Bytes, arith, ◌==◌, ==_refl, if◌then◌else◌, int_eq, length, take, drop, length-drop,
  take-append-drop, Bool-cases, Option-cases,
}
use sib_tcp.Ssap.{Call}
use sib_tcp.World.{Env}
use sib_tcp.State.{State, Outcome, done, stuck, fault, Action, dbus, sent, closed}
use sib_tcp.Listener.{succeeded, failed}
use sib_tcp.Socket.{send_rounds, client_send_message}
use sib_tcp.Consistency.{Returns, Returns-mono}

-- The bytes that the socket `fd` was given, in order.
unfoldable pub received : ℕ → List Action → Bytes
received fd [] = []
received fd (dbus c ∷ l) = received fd l
received fd (sent g buf ∷ l) = received fd l ++ (if g == fd then buf else [])
received fd (closed g ∷ l) = received fd l

-- Two states that differ at most in the trace and the clock.
pub record SameShared {Msg : Type 0} (s t : State Msg) : Type 0 where
  pub requests : t.requests ≡ s.requests
  pub subscriptions : t.subscriptions ≡ s.subscriptions
  pub heap : t.heap ≡ s.heap
  pub next : t.next ≡ s.next

-- A socket with no error, whose `send` takes at least a byte of what it is given.
pub record Delivers (env : Env) (fd : ℕ) : Type 0 where
  pub sound : (t : ℕ) → env.so_error t fd ≡ pos 0
  pub progress : (t c : ℕ) (buf : Bytes) → (k : ℕ) × (env.send_result t fd (c ∷ buf) ≡ some (suc k))

-- What is known of a call that sent `buf`.
abbrev pub Delivered : {Msg : Type 0} → ℕ → Bytes → State Msg → ℤ → State Msg → Type 0
Delivered fd buf s r t =
    (r ≡ succeeded) × (received fd t.trace ≡ received fd s.trace ++ buf) × SameShared s t

pub received-sent :
    (fd : ℕ) (l : List Action) (buf : Bytes) → received fd (sent fd buf ∷ l) ≡ received fd l ++ buf
unfolding received
received-sent fd l buf = rw (==_refl fd)

-- A part that went out, and then the rest.
received_parts :
    (fd k : ℕ) (l : List Action) (buf : Bytes)
    → received fd (sent fd (take k buf) ∷ l) ++ drop k buf ≡ received fd l ++ buf
received_parts fd k l buf =
    rw (received-sent fd l (take k buf), append_assoc)
      (ap (◌++◌ (received fd l)) (take-append-drop k buf))

module _ {Msg : Type 0} (env : Env) (fd : ℕ) where
  send_rounds-Delivered :
      Delivers env fd
      → (fuel : ℕ) (buf : Bytes) (s : State Msg) → length buf ≤ fuel
      → Returns (Delivered fd buf s) (send_rounds env fuel fd buf s)
  unfolding send_rounds
  send_rounds-Delivered d fuel [] s h = (
    refl,
    sym (append-nil _),
    record { requests = refl; subscriptions = refl; heap = refl; next = refl },
  )
  send_rounds-Delivered d zero (c ∷ buf) s h = absurd (omega arith)
  send_rounds-Delivered d (suc fuel) (c ∷ buf) s h =
      let (k, e) = d.progress (s.clock + 1) c buf in
      rw (d.sound s.clock, e)
        (Returns-mono _ (Delivered fd (c ∷ buf) s) _
          (send_rounds-Delivered d fuel (drop k buf) _ (omega (arith, length-drop k buf)))
          λ r t x. (
            x.0,
            x.1 ∙ received_parts fd (suc k) s.trace (c ∷ buf),
            record {
              requests = x.2.requests;
              subscriptions = x.2.subscriptions;
              heap = x.2.heap;
              next = x.2.next;
            },
          ))

  -- On a socket with no error, whose `send` always takes something, the whole message goes out,
  -- however it is cut into parts, and the call returns 0 within as many rounds as it has bytes.
  pub client_send_message-Delivered :
      Delivers env fd
      → (buf : Bytes) (s : State Msg) → length buf ≤ env.rounds
      → Returns (Delivered fd buf s) (client_send_message env fd buf s)
  unfolding client_send_message
  client_send_message-Delivered d buf s h = send_rounds-Delivered d env.rounds buf s h

-- `out` went out of `buf`, and `rest` did not.
pub record Split {Msg : Type 0} (fd : ℕ) (buf rest : Bytes) (s t : State Msg) : Type 0 where
  pub out : Bytes
  pub whole : out ++ rest ≡ buf
  pub arrived : received fd t.trace ≡ received fd s.trace ++ out
  pub shared : SameShared s t

-- What a call sent, whatever way it ended; where it returned 0, nothing is left.
abbrev pub SentPart : {Msg : Type 0} → ℕ → Bytes → State Msg → Outcome Msg ℤ → Type 0
SentPart fd buf s (done r t) =
    ((r ≡ succeeded) × Split fd buf [] s t)
    ⊎ ((r ≡ failed) × ((rest : Bytes) × Split fd buf rest s t))
SentPart fd buf s (stuck t) = (rest : Bytes) × Split fd buf rest s t
SentPart fd buf s (fault e t) = ⊥

module _ {Msg : Type 0} (fd k : ℕ) (buf : Bytes) (s t : State Msg)
    (note : t.trace ≡ sent fd (take k buf) ∷ s.trace) (same : SameShared s t) where
  Split-first :
      (rest : Bytes) (u : State Msg) → Split fd (drop k buf) rest t u → Split fd buf rest s u
  Split-first rest u x = record {
    out = take k buf ++ x.out;
    whole =
        append_assoc (take k buf) x.out rest
        ∙ ap (◌++◌ (take k buf)) x.whole
        ∙ take-append-drop k buf;
    arrived =
        x.arrived
        ∙ ap (λ l. received fd l ++ x.out) note
        ∙ ap (λ (b : Bytes). b ++ x.out) (received-sent fd s.trace (take k buf))
        ∙ append_assoc (received fd s.trace) (take k buf) x.out;
    shared = record {
      requests = x.shared.requests ∙ same.requests;
      subscriptions = x.shared.subscriptions ∙ same.subscriptions;
      heap = x.shared.heap ∙ same.heap;
      next = x.shared.next ∙ same.next;
    };
  }

  SentPart-first : (o : Outcome Msg ℤ) → SentPart fd (drop k buf) t o → SentPart fd buf s o
  SentPart-first (done r u) (inl (e, x)) = inl (e, Split-first [] u x)
  SentPart-first (done r u) (inr (e, (rest, x))) = inr (e, (rest, Split-first rest u x))
  SentPart-first (stuck u) (rest, x) = (rest, Split-first rest u x)
  SentPart-first (fault e u) x = absurd x

module _ {Msg : Type 0} (env : Env) (fd : ℕ) where
  nothing_sent :
      (buf : Bytes) (s t : State Msg) → t.trace ≡ s.trace → SameShared s t → Split fd buf buf s t
  nothing_sent buf s t e same = record {
    out = [];
    whole = refl;
    arrived = ap (received fd) e ∙ sym (append-nil _);
    shared = same;
  }

  send_rounds-SentPart :
      (fuel : ℕ) (buf : Bytes) (s : State Msg) → SentPart fd buf s (send_rounds env fuel fd buf s)
  unfolding send_rounds
  send_rounds-SentPart fuel [] s = inl (refl, nothing_sent [] s s refl same)
    where
      same : SameShared s s
      same = record { requests = refl; subscriptions = refl; heap = refl; next = refl }
  send_rounds-SentPart zero (c ∷ buf) s = (c ∷ buf, nothing_sent (c ∷ buf) s s refl same)
    where
      same : SameShared s s
      same = record { requests = refl; subscriptions = refl; heap = refl; next = refl }
  send_rounds-SentPart (suc fuel) (c ∷ buf) s =
      elim (Bool-cases (int_eq (env.so_error s.clock fd) (pos 0))) [
        | inr broken ↦
            rw broken
              (inr (refl, (c ∷ buf, nothing_sent (c ∷ buf) s _ refl (same _ refl refl refl refl))))
        | inl sound ↦ elim (Option-cases (env.send_result (s.clock + 1) fd (c ∷ buf))) [
          | inl fails ↦
              rw (sound, fails)
                (inr
                  (refl, (c ∷ buf, nothing_sent (c ∷ buf) s _ refl (same _ refl refl refl refl))))
          | inr (k, e) ↦
              rw (sound, e)
                (SentPart-first fd k (c ∷ buf) s _ refl (same _ refl refl refl refl) _
                  (send_rounds-SentPart fuel (drop k (c ∷ buf)) _))
        ]
      ]
    where
      same :
          (t : State Msg)
          → t.requests ≡ s.requests
          → t.subscriptions ≡ s.subscriptions
          → t.heap ≡ s.heap
          → t.next ≡ s.next
          → SameShared s t
      same t a b c d = record { requests = a; subscriptions = b; heap = c; next = d }

  -- Whatever the socket does, what a client gets by one call is a front part of the message, all of
  -- it if the call returns 0, and a call that returns has returned 0 or -1.
  pub client_send_message-SentPart :
      (buf : Bytes) (s : State Msg) → SentPart fd buf s (client_send_message env fd buf s)
  unfolding client_send_message
  client_send_message-SentPart buf s = send_rounds-SentPart env.rounds buf s

-- A call of the daemon is not seen by a client.
pub received-dbus : (fd : ℕ) (c : Call) (l : List Action) → received fd (dbus c ∷ l) ≡ received fd l
unfolding received
received-dbus fd c l = refl
