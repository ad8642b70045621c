-- ===== src/Waiting/Timed.antt =====
-- src/main.c, `waiter_timed_wait_for_finished`: what its result says.
use sib_tcp.Prelude.{
  ℕ, inl, inr, Bool-cases, ◌+◌, ◌≡◌, refl, Bool, true, false, List, [], ◌∷◌, ℤ, pos, negsuc, Bytes,
  arith, ==_refl, All, if◌then◌else◌,
}
use sib_tcp.Ssap.{Sibmsg}
use sib_tcp.World.{Env, Event}
use sib_tcp.State.{State, Waiter, Action, pure, tick, store, ◌>>=◌, ◌>>◌}
use sib_tcp.Waiting.{in_one_wait, waiter_timed_wait_for_finished}
use sib_tcp.Waiting.Pending.{Pending, Spares}
use sib_tcp.Waiting.Pending.Events.{run_events-Pending}
use sib_tcp.Consistency.{Returns, Returns-continue}

-- -1 where the waiter was ready, else whether the thread was woken in time.
abbrev pub verdict : {Msg : Type 0} → Waiter Msg → Bool → ℤ
verdict w b = if w.req_ready then negsuc 0 else if b then pos 1 else pos 0

abbrev pub lowered : {Msg : Type 0} → Waiter Msg → Waiter Msg
lowered w = record w { req_ready = false }

-- The result is `v`, and the request waits on, with the same response as before, if any.
abbrev pub Unanswered :
    {Msg : Type 0} → Bytes → ℕ → Waiter Msg → List Action → ℤ → ℤ → State Msg → Type 0
Unanswered key p w l v ret t = (ret ≡ v) × Pending key p (lowered w) l t

module _ {Msg : Type 0} (lib : Sibmsg Msg) (env : Env) (memory : (t : ℕ) → env.allocates t ≡ true)
    (key : Bytes) (p : ℕ) (w : Waiter Msg) (l : List Action) where
  store-Unanswered :
      (v : ℤ) (s : State Msg)
      → Pending key p w l s
      → Returns
          (Unanswered key p w l v)
          ((do store p λ u. record u { req_ready = false }; pure v) s)
  store-Unanswered v s h = rw h.content (
    refl,
    record {
      consistent = record {
        owned = λ q. ground (arith, h.consistent.owned q);
        fresh = λ q le. ground (arith, h.consistent.fresh q);
      };
      registered = h.registered;
      content = rw (==_refl p) refl;
      quiet = h.quiet;
    },
  )

  tick-Pending :
      (s : State Msg) → Pending key p w l s → Pending key p w l (record s { clock = s.clock + 1 })
  tick-Pending s h = record {
    consistent = record { owned = h.consistent.owned; fresh = h.consistent.fresh };
    registered = h.registered;
    content = h.content;
    quiet = h.quiet;
  }

  in_one_wait-Pending :
      (others : List (List Event)) (s : State Msg)
      → All (All (Spares key)) others
      → Pending key p w l s
      → Returns (λ _ t. Pending key p w l t) (in_one_wait lib env others s)
  unfolding in_one_wait
  in_one_wait-Pending [] s a h = h
  in_one_wait-Pending (es ∷ rest) s a h = run_events-Pending key p w l lib env memory es s a.0 h

  -- What the loop gives, before the flag is lowered.
  abbrev Judged : ℤ → ℤ → State Msg → Type 0
  Judged v ret t = (ret ≡ v) × Pending key p w l t

  timed_round-Judged :
      (woken : ℕ → Bool) (b : Bool) (s : State Msg)
      → ((t : ℕ) → woken t ≡ b)
      → All (All (Spares key)) (env.waits s.clock)
      → Pending key p w l s
      → Returns (Judged (if b then pos 1 else pos 0)) (
          (do
            others ← tick env.waits
            in_one_wait lib env others
            in_time ← tick woken
            pure (if in_time then pos 1 else pos 0))
            s)
  timed_round-Judged woken b s always apart h =
      Returns-continue (λ _ t. Pending key p w l t) (Judged (if b then pos 1 else pos 0)) _ _
        (in_one_wait-Pending (env.waits s.clock) (record s { clock = s.clock + 1 }) apart
          (tick-Pending s h))
        λ _ t k. rw (always t.clock) (refl, tick-Pending t k)

  -- Waiting with a timeout for a pending request, with memory, while the other threads do nothing
  -- about it, returns -1 when its waiter was ready from the start, else 1 when the thread is always
  -- woken in time and 0 when it never is; the request is pending as before, with the same response
  -- or none, its flag lowered.
  pub timed_wait-Unanswered :
      (woken : ℕ → Bool) (b : Bool) (s : State Msg)
      → ((t : ℕ) → woken t ≡ b)
      → All (All (Spares key)) (env.waits s.clock)
      → Pending key p w l s
      → Returns
          (Unanswered key p w l (verdict w b))
          (waiter_timed_wait_for_finished lib env woken p s)
  unfolding waiter_timed_wait_for_finished
  timed_wait-Unanswered woken b s always apart h = rw h.content (elim (Bool-cases w.req_ready) [
    | inl ready ↦ rw ready (store-Unanswered (negsuc 0) s h)
    | inr waiting ↦ rw waiting (
        Returns-continue (Judged (if b then pos 1 else pos 0))
          (Unanswered key p w l (if b then pos 1 else pos 0)) _ _
          (timed_round-Judged woken b s always apart h)
          λ r t k. rw (k.0) (store-Unanswered (if b then pos 1 else pos 0) t k.1))
  ])
