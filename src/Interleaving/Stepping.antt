-- ===== src/Interleaving/Stepping.antt =====
-- One step of the sending loop of a subscription keeps what holds where the thread is.
use sib_tcp.Prelude.{
  ℕ, ◌≡◌, refl, inl, inr, true, false, none, Bytes, Bool-cases, Option-cases, is_neg,
}
use sib_tcp.Ssap.{Sibmsg, send_unsubscribe}
use sib_tcp.World.{Env}
use sib_tcp.State.{State, Waiter, store}
use sib_tcp.Request.{call_daemon}
use sib_tcp.Subscription.{Saved, indication, unsubscribed, invalid, Next, again, finished}
use sib_tcp.Subscription.Standing.{Stands}
use sib_tcp.Subscription.Safety.{Going, touch, store-Stands, probe-Safely}
use sib_tcp.Consistency.{IsConsistent, Safely, Safely-continue, Returns-Safely}
use sib_tcp.Consistency.Steps.{remove_subscription-Keeps}
use sib_tcp.Interleaving.{
  Place, waiting, woken, filled, built, delivered, leaving, empty, over, place_of, leave_loop,
  ask_daemon, loop_step,
}
use sib_tcp.Interleaving.Places.{Full, Sound, send_checked-Full, read-Full, response_found}

module _ {Msg : Type 0} (lib : Sibmsg Msg) (env : Env) (memory : (t : ℕ) → env.allocates t ≡ true)
    (subid : Bytes) (q : ℕ) (saved : Saved) where
  leave_loop-Sound :
      (s : State Msg) → Full subid q s → Safely (Sound subid q) (leave_loop lib env q saved s)
  unfolding leave_loop
  leave_loop-Sound s h =
      let (rsp, e) = response_found lib env memory subid q s h in
      rw e (
        Safely-continue (λ _ t. IsConsistent t) (Sound subid q) _ _
          (Returns-Safely (λ _ t. IsConsistent t) (λ _ t. IsConsistent t) _
            (remove_subscription-Keeps (lib.get_subscriptionid rsp) s h.stands.consistent)
            λ _ _ k. k)
          λ _ _ k. k)

  ask_daemon-Sound :
      (s : State Msg) → Full subid q s → Safely (Sound subid q) (ask_daemon lib env q saved s)
  unfolding ask_daemon call_daemon
  ask_daemon-Sound s h =
      let (rsp, e) = response_found lib env memory subid q s h in
      rw e
        (elim (Bool-cases (
          is_neg (
            env.dbus_result s.clock (
              send_unsubscribe (lib.get_spaceid rsp) (lib.get_nodeid rsp) (lib.get_msgnumber rsp)
                (lib.get_subscriptionid rsp))))) [
                  | inl bad ↦ rw bad (record {
                    stands = touch lib env memory subid q _ _ s h.stands;
                    loaded = h.loaded;
                  })
                  | inr good ↦ rw good (record {
                    stands = touch lib env memory subid q _ _ s h.stands;
                    loaded = h.loaded;
                  })
                ])

  probe-Sound :
      (n : Next) (t : State Msg) → Going lib env memory subid q n t → Sound subid q (place_of n) t
  probe-Sound again t k = k
  probe-Sound finished t k = k

  stored :
      (f : Waiter Msg → Waiter Msg) (s : State Msg)
      → Stands subid q s
      → Safely (λ _ t. Stands subid q t) (store q f s)
  stored f s h =
      Returns-Safely (λ _ t. Stands subid q t) (λ _ t. Stands subid q t) _
        (store-Stands lib env memory subid q f s h) λ _ _ k. k

  pub loop_step-Sound :
      (place : Place) (s : State Msg)
      → Sound subid q place s
      → Safely (Sound subid q) (loop_step lib env q saved place s)
  unfolding loop_step
  loop_step-Sound waiting s h = read-Full lib env memory subid q (Sound subid q) _ s h λ w e.
      elim (Bool-cases w.req_ready) [
        | inl ready ↦ rw ready (
            Safely-continue (λ _ t. Stands subid q t) (Sound subid q) _ _
              (stored (λ v. record v { req_ready = false }) s h) λ _ _ k. k)
        | inr not_yet ↦ rw not_yet h
      ]
  loop_step-Sound woken s h = read-Full lib env memory subid q (Sound subid q) _ s h λ w e.
      elim (Option-cases w.rsp) [
        | inl none' ↦ rw none' h
        | inr (rsp, d) ↦ rw d (record { stands = h; loaded = rw (e, d) refl })
      ]
  loop_step-Sound filled s h = let (rsp, e) = response_found lib env memory subid q s h in rw e h
  loop_step-Sound (built (indication text)) s h =
      read-Full lib env memory subid q (Sound subid q) _ s h.stands λ w e.
        Safely-continue (λ _ t. Full subid q t) (Sound subid q) _ _
          (send_checked-Full lib env memory subid q w.fd text s h) λ _ _ k. k
  loop_step-Sound (built (unsubscribed text)) s h =
      read-Full lib env memory subid q (Sound subid q) _ s h.stands λ w e.
        Safely-continue (λ _ t. Full subid q t) (Sound subid q) _ _
          (send_checked-Full lib env memory subid q w.fd text s h) λ _ _ k. k
  loop_step-Sound (built invalid) s h = leave_loop-Sound s h
  loop_step-Sound (delivered true) s h =
      Safely-continue (λ _ t. Stands subid q t) (Sound subid q) _ _
        (stored (λ w. record w { rsp = none }) s h.stands) λ _ _ k. k
  loop_step-Sound (delivered false) s h = ask_daemon-Sound s h
  loop_step-Sound leaving s h = leave_loop-Sound s h
  loop_step-Sound empty s h = read-Full lib env memory subid q (Sound subid q) _ s h λ w e.
      Safely-continue (Going lib env memory subid q) (Sound subid q) _ _
        (probe-Safely lib env memory subid q w.fd saved s h) probe-Sound
  loop_step-Sound over s h = h
