-- ===== src/Subscription/Probing.antt =====
-- A subscriber that was woken with no message looks whether its client is still there.
use sib_tcp.Prelude.{
  ℕ, ◌+◌, ◌≡◌, refl, sym, subst, ◌∙◌, take, ◌⊎◌, inl, inr, Bool-cases, Option-cases, true, false,
  none, some, [], ◌∷◌, pos, int_eq,
}
use sib_tcp.Ssap.{Sibmsg, send_unsubscribe}
use sib_tcp.Table.{lookup}
use sib_tcp.World.{Env}
use sib_tcp.State.{State, Waiter, Outcome, done, dbus, sent}
use sib_tcp.Socket.{socket_broken, send_some}
use sib_tcp.Consistency.{Returns, Returns-mono}
use sib_tcp.Subscription.{Saved, Next, again, finished, probe, auto_unsubscribe}
use sib_tcp.Subscription.Rounds.{auto_unsubscribe-finished}

-- The client takes a blank, and its socket has no error then.
abbrev pub IsThere : Env → ℕ → ℕ → Type 0
IsThere env fd clock =
    ((k : ℕ) × (env.send_result clock fd (b' ' ∷ []) ≡ some k))
    × (int_eq (env.so_error (clock + 1) fd) (pos 0) ≡ true)

-- It does not.
abbrev pub IsGone : Env → ℕ → ℕ → Type 0
IsGone env fd clock =
    (env.send_result clock fd (b' ' ∷ []) ≡ none)
    ⊎ (int_eq (env.so_error (clock + 1) fd) (pos 0) ≡ false)

module _ {Msg : Type 0} (lib : Sibmsg Msg) (env : Env) (fd : ℕ) (saved : Saved) (s : State Msg)
    (q : ℕ) (w : Waiter Msg) where
  abbrev pub GoesOn : Next → State Msg → Type 0
  GoesOn next t =
      (next ≡ again)
      × IsThere env fd s.clock
      × (t.requests ≡ s.requests)
      × (t.subscriptions ≡ s.subscriptions)
      × (t.heap ≡ s.heap)

  abbrev pub Ends : Next → State Msg → Type 0
  Ends next t =
      (next ≡ finished)
      × IsGone env fd s.clock
      × (t.requests ≡ s.requests)
      × (lookup saved.subid t.subscriptions ≡ none)
      × (t.heap q ≡ none)

  abbrev pub Verdict : Next → State Msg → Type 0
  Verdict next t = GoesOn next t ⊎ Ends next t

  -- The states in which the probe gives up: the blank did not go out, or it did.
  abbrev unsent : State Msg
  unsent = record s { clock = s.clock + 1 + 1 }

  abbrev noted : ℕ → State Msg
  noted k = record s { trace = sent fd (take k (b' ' ∷ [])) ∷ s.trace; clock = s.clock + 1 + 1 }

  abbrev given_up : State Msg → Outcome Msg Next
  given_up = auto_unsubscribe lib env saved.spaceid saved.nodeid (pos 1) saved.subid

  given_up-Ends :
      (u : State Msg)
      → IsGone env fd s.clock
      → u.requests ≡ s.requests
      → lookup saved.subid u.subscriptions ≡ some q
      → u.heap q ≡ some w
      → Returns Verdict (given_up u)
  given_up-Ends u gone same e here =
      Returns-mono
        (λ next t.
          (next ≡ finished)
          × (t.trace
              ≡ dbus (send_unsubscribe saved.spaceid saved.nodeid (pos 1) saved.subid) ∷ u.trace)
          × (lookup saved.subid t.subscriptions ≡ none)
          × (t.heap q ≡ none)
          × (t.requests ≡ u.requests))
        Verdict _
        (auto_unsubscribe-finished lib env saved.spaceid saved.nodeid (pos 1) saved.subid q w u e
          here)
        λ next t x. inr (x.0, gone, x.4 ∙ same, x.2, x.3)

  probe-unsent :
      env.send_result s.clock fd (b' ' ∷ []) ≡ none → probe lib env fd saved s ≡ given_up unsent
  unfolding probe send_some socket_broken
  probe-unsent fails = rw fails refl

  probe_broken :
      (k : ℕ)
      → env.send_result s.clock fd (b' ' ∷ []) ≡ some k
      → int_eq (env.so_error (s.clock + 1) fd) (pos 0) ≡ false
      → probe lib env fd saved s ≡ given_up (noted k)
  unfolding probe send_some socket_broken
  probe_broken k out bad = rw (out, bad) refl

  probe_sound :
      (k : ℕ)
      → env.send_result s.clock fd (b' ' ∷ []) ≡ some k
      → int_eq (env.so_error (s.clock + 1) fd) (pos 0) ≡ true
      → probe lib env fd saved s ≡ done again (noted k)
  unfolding probe send_some socket_broken
  probe_sound k out sound = rw (out, sound) refl

  -- A probe of a registered subscription returns. Either the client takes a blank and its socket has
  -- no error, and the loop goes on with the tables and the waiters as they were; or one of the two
  -- fails, and the loop ends with the subscription gone and its waiter freed.
  pub probe-Verdict :
      lookup saved.subid s.subscriptions ≡ some q
      → s.heap q ≡ some w
      → Returns Verdict (probe lib env fd saved s)
  probe-Verdict e here = elim (Option-cases (env.send_result s.clock fd (b' ' ∷ []))) [
    | inl fails ↦
        subst (Returns Verdict) (sym (probe-unsent fails))
          (given_up-Ends unsent (inl fails) refl e here)
    | inr (k, out) ↦ elim (Bool-cases (int_eq (env.so_error (s.clock + 1) fd) (pos 0))) [
      | inl sound ↦
          subst (Returns Verdict) (sym (probe_sound k out sound))
            (inl (refl, ((k, out), sound), refl, refl, refl))
      | inr bad ↦
          subst (Returns Verdict) (sym (probe_broken k out bad))
            (given_up-Ends (noted k) (inr bad) refl e here)
    ]
  ]
