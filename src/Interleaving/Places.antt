-- ===== src/Interleaving/Places.antt =====
-- What holds of a subscription where its thread is.
use sib_tcp.Prelude.{
  ℕ, ◌+◌, ◌≡◌, refl, ap, ◌∙◌, inl, inr, true, false, some, ℤ, pos, Bytes, arith, Bool-cases,
  Option-cases, int_eq, is_neg, ◌==◌,
}
use sib_tcp.Ssap.{Sibmsg}
use sib_tcp.World.{Env}
use sib_tcp.State.{State, M, Waiter, Outcome, done, fault, stuck, continue, load}
use sib_tcp.Socket.{socket_broken}
use sib_tcp.Socket.Delivery.{SentPart, client_send_message-SentPart}
use sib_tcp.Subscription.{send_checked}
use sib_tcp.Subscription.Standing.{Stands}
use sib_tcp.Subscription.Safety.{waiter_of, send_checked-Safely}
use sib_tcp.Consistency.{IsConsistent, Safely, IfDone, IfDone-continue, Safely-and_done}
use sib_tcp.Interleaving.{
  Place, waiting, woken, filled, built, delivered, leaving, empty, over, current_response,
}
use sib_tcp.Interleaving.Loaded.{is_some, has_response}

send_part-heap :
    {Msg : Type 0} (fd : ℕ) (buf : Bytes) (s : State Msg) (o : Outcome Msg ℤ)
    → SentPart fd buf s o
    → IfDone (λ _ t. t.heap ≡ s.heap) o
send_part-heap fd buf s (done r t) (inl (e, x)) = x.shared.heap
send_part-heap fd buf s (done r t) (inr (e, (rest, x))) = x.shared.heap
send_part-heap fd buf s (stuck t) x = tt
send_part-heap fd buf s (fault e t) x = tt

module _ {Msg : Type 0} (lib : Sibmsg Msg) (env : Env) where
  pub send_checked-heap :
      (fd : ℕ) (text : Bytes) (s : State Msg)
      → IfDone (λ _ t. t.heap ≡ s.heap) (send_checked lib env fd text s)
  unfolding send_checked socket_broken
  send_checked-heap fd text s = elim (Bool-cases (int_eq (env.so_error s.clock fd) (pos 0))) [
    | inr bad ↦ rw bad refl
    | inl fine ↦ rw fine (
        IfDone-continue (λ _ t. t.heap ≡ s.heap) (λ _ t. t.heap ≡ s.heap) _ _
          (send_part-heap fd text (record s { clock = s.clock + 1 }) _
            (client_send_message-SentPart env fd text _))
          λ r t k. elim (Bool-cases (is_neg r)) [ inl bad ↦ rw bad k | inr good ↦ rw good k ])
  ]

module _ {Msg : Type 0} (subid : Bytes) (q : ℕ) where
  -- The subscription stands and its waiter has a response.
  pub record Full (s : State Msg) : Type 0 where
    pub stands : Stands subid q s
    pub loaded : has_response (s.heap q) ≡ true

  -- What holds where the thread is.
  abbrev pub Sound : Place → State Msg → Type 0
  Sound waiting t = Stands subid q t
  Sound woken t = Stands subid q t
  Sound filled t = Full t
  Sound (built a) t = Full t
  Sound (delivered out) t = Full t
  Sound leaving t = Full t
  Sound empty t = Stands subid q t
  Sound over t = IsConsistent t

module _ {Msg : Type 0} (lib : Sibmsg Msg) (env : Env) (memory : (t : ℕ) → env.allocates t ≡ true)
    (subid : Bytes) (q : ℕ) where
  pub next_differs : (s : State Msg) → Stands subid q s → (s.next == q) ≡ false
  next_differs s h =
      let (w, e) = waiter_of lib env memory subid q s h in ground (arith, h.consistent.fresh q)

  pub send_checked-Full :
      (fd : ℕ) (text : Bytes) (s : State Msg)
      → Full subid q s
      → Safely (λ _ t. Full subid q t) (send_checked lib env fd text s)
  send_checked-Full fd text s h =
      Safely-and_done (λ _ t. Stands subid q t) (λ _ t. t.heap ≡ s.heap) (λ _ t. Full subid q t) _
        (send_checked-Safely lib env memory subid q fd text s h.stands)
        (send_checked-heap lib env fd text s)
        λ _ t k e. record { stands = k; loaded = ap (λ m. has_response (m q)) e ∙ h.loaded }

  pub read-Full :
      {A : Type 0} (Q : A → State Msg → Type 0) (f : Waiter Msg → M Msg A) (s : State Msg)
      → Stands subid q s
      → ((w : Waiter Msg) → s.heap q ≡ some w → Safely Q (f w s))
      → Safely Q (continue (load q s) f)
  read-Full Q f s h k = let (w, e) = waiter_of lib env memory subid q s h in rw e (k w e)

  response_in :
      (w : Waiter Msg) (s : State Msg)
      → s.heap q ≡ some w
      → is_some w.rsp ≡ true
      → (rsp : Msg) × (current_response q s ≡ done rsp s)
  unfolding current_response
  response_in w s e h = elim (Option-cases w.rsp) [
    | inl absent ↦ absurd (ground arith)
    | inr (rsp, d) ↦ (rsp, rw (e, d) refl)
  ]

  pub response_found :
      (s : State Msg) → Full subid q s → (rsp : Msg) × (current_response q s ≡ done rsp s)
  response_found s h =
      let (w, e) = waiter_of lib env memory subid q s h.stands in
      response_in w s e (rw e at h.loaded)
