-- ===== src/Interleaving/Safety.antt =====
-- The sending loop of a subscription in small steps, among the steps of other threads.
use sib_tcp.Prelude.{ℕ, ◌+◌, ◌≡◌, ◌≢◌, refl, some, arith, ==_refl, true, List, [], ◌∷◌, Bytes, All}
use sib_tcp.Ssap.{Sibmsg}
use sib_tcp.World.{Env, Event}
use sib_tcp.State.{State, Outcome}
use sib_tcp.Callbacks.{complete_found, complete_with}
use sib_tcp.Waiters.{waiter_completed}
use sib_tcp.Waiting.{run_event}
use sib_tcp.Subscription.{Saved}
use sib_tcp.Subscription.Standing.{Leaves, Stands, run_event-Stands}
use sib_tcp.Subscription.Safety.{waiter_of, touch}
use sib_tcp.Consistency.{
  IsConsistent, IfDone, Safely, Safely-continue, Returns-Safely, Safely-and_done,
}
use sib_tcp.Consistency.Events.{run_event-Keeps}
use sib_tcp.Interleaving.{
  Place, waiting, woken, filled, built, delivered, leaving, empty, over, Turn, own, other, later,
  completes, loop_step, run,
}
use sib_tcp.Interleaving.Loaded.{has_response, Sleeps, run_event-Loaded}
use sib_tcp.Interleaving.Places.{Full, Sound, next_differs}
use sib_tcp.Interleaving.Stepping.{loop_step-Sound}

-- The turn is this thread's, or a step of another that neither ends the subscription nor is a round
-- of the waking thread, or the second half of a handler.
abbrev pub Spares : Bytes → Turn → Type 0
Spares subid own = Unit
Spares subid later = Unit
Spares subid (other e) = Leaves subid e × Sleeps e
Spares subid (completes space node msgnum seqnum i new obsolete) = Unit

module _ {Msg : Type 0} (lib : Sibmsg Msg) (env : Env) (memory : (t : ℕ) → env.allocates t ≡ true)
    (subid : Bytes) (q : ℕ) (saved : Saved) where
  later-Full : (s : State Msg) → Full subid q s → Full subid q (record s { clock = s.clock + 1 })
  later-Full s h = record {
    stands = touch lib env memory subid q _ _ s h.stands;
    loaded = h.loaded;
  }

  event-Stands :
      (e : Event) (s : State Msg)
      → Leaves subid e
      → Stands subid q s
      → Safely (λ _ t. Stands subid q t) (run_event lib env e s)
  event-Stands e s a h =
      Returns-Safely (λ _ t. Stands subid q t) (λ _ t. Stands subid q t) _
        (run_event-Stands subid q lib env memory e s a h) λ _ _ k. k

  event-Full :
      (e : Event) (s : State Msg)
      → Leaves subid e × Sleeps e
      → Full subid q s
      → Safely (λ _ t. Full subid q t) (run_event lib env e s)
  event-Full e s a h =
      Safely-and_done (λ _ t. Stands subid q t) (λ _ t. has_response (t.heap q) ≡ true)
        (λ _ t. Full subid q t) _ (event-Stands e s a.0 h.stands)
        (run_event-Loaded q lib env e s a.1 (next_differs lib env memory subid q s h.stands)
          h.loaded)
        λ _ t k l. record { stands = k; loaded = l }

  event-Sound :
      (place : Place) (e : Event) (s : State Msg)
      → Leaves subid e × Sleeps e
      → Sound subid q place s
      → Safely (λ _ t. Sound subid q place t) (run_event lib env e s)
  event-Sound waiting e s a h = event-Stands e s a.0 h
  event-Sound woken e s a h = event-Stands e s a.0 h
  event-Sound filled e s a h = event-Full e s a h
  event-Sound (built b) e s a h = event-Full e s a h
  event-Sound (delivered out) e s a h = event-Full e s a h
  event-Sound leaving e s a h = event-Full e s a h
  event-Sound empty e s a h = event-Stands e s a.0 h
  event-Sound over e s a h =
      Returns-Safely (λ _ t. IsConsistent t) (λ _ t. IsConsistent t) _
        (run_event-Keeps lib env memory e s h) λ _ _ k. k

  later-Sound :
      (place : Place) (s : State Msg)
      → Sound subid q place s
      → Sound subid q place (record s { clock = s.clock + 1 })
  later-Sound waiting s h = touch lib env memory subid q _ _ s h
  later-Sound woken s h = touch lib env memory subid q _ _ s h
  later-Sound filled s h = later-Full s h
  later-Sound (built b) s h = later-Full s h
  later-Sound (delivered out) s h = later-Full s h
  later-Sound leaving s h = later-Full s h
  later-Sound empty s h = touch lib env memory subid q _ _ s h
  later-Sound over s h = record { owned = h.owned; fresh = h.fresh }

  -- The second half of a handler, while the subscription stands.
  completes-Full :
      (rsp : Msg) (s : State Msg)
      → Stands subid q s
      → Safely (λ _ t. Full subid q t) (complete_found rsp (some q) s)
  unfolding complete_found complete_with waiter_completed
  completes-Full rsp s h =
      let (w, e) = waiter_of lib env memory subid q s h in
      rw (e, ==_refl q)
        (record {
          stands = record {
            consistent = record {
              owned = λ r. ground (arith, h.consistent.owned r, e);
              fresh = λ r le. ground (arith, h.consistent.fresh r, e);
            };
            subscribed = h.subscribed;
          };
          loaded = rw (==_refl q) refl;
        })

  Full-Sound :
      (place : Place) (t : State Msg) → place ≢ over → Full subid q t → Sound subid q place t
  Full-Sound waiting t goes h = h.stands
  Full-Sound woken t goes h = h.stands
  Full-Sound filled t goes h = h
  Full-Sound (built b) t goes h = h
  Full-Sound (delivered out) t goes h = h
  Full-Sound leaving t goes h = h
  Full-Sound empty t goes h = h.stands
  Full-Sound over t goes h = absurd (goes refl)

  Sound-Stands :
      (place : Place) (t : State Msg) → place ≢ over → Sound subid q place t → Stands subid q t
  Sound-Stands waiting t goes h = h
  Sound-Stands woken t goes h = h
  Sound-Stands filled t goes h = h.stands
  Sound-Stands (built b) t goes h = h.stands
  Sound-Stands (delivered out) t goes h = h.stands
  Sound-Stands leaving t goes h = h.stands
  Sound-Stands empty t goes h = h
  Sound-Stands over t goes h = absurd (goes refl)

  -- No handler that has looked the waiter up goes on after the loop has ended.
  unfoldable pub InTime : List Turn → Place → State Msg → Type 0
  InTime [] place s = Unit
  InTime (own ∷ turns) place s =
      IfDone (λ next t. InTime turns next t) (loop_step lib env q saved place s)
  InTime (other e ∷ turns) place s = IfDone (λ _ t. InTime turns place t) (run_event lib env e s)
  InTime (later ∷ turns) place s = InTime turns place (record s { clock = s.clock + 1 })
  InTime (completes space node msgnum seqnum i new obsolete ∷ turns) place s =
      (place ≢ over)
      × IfDone (λ _ t. InTime turns place t)
          (complete_found (lib.new_subscription_ind space node msgnum seqnum i new obsolete)
            (some q) s)

  both :
      {A : Type 0} (P Q : A → State Msg → Type 0) (o : Outcome Msg A)
      → Safely P o
      → IfDone Q o
      → Safely (λ a t. P a t × Q a t) o
  both P Q o h k = Safely-and_done P Q (λ a t. P a t × Q a t) o h k λ _ _ x y. (x, y)

  -- In any sequence of the small steps of the sending loop of a subscription and of steps of other
  -- threads, where a handler of an indication for the subscription may also be cut in two, between its
  -- lookup and its store, while any other signal handler is one step; with memory, from a place
  -- and a state with what holds there (a consistent state where the subscription stands, with a
  -- response where the loop is to read one), and while no other thread removes the subscription,
  -- the waking thread sleeps, and no handler that has looked the waiter up stores in it after the
  -- loop has ended: nothing reads freed memory, or a response where there is none; the subscription
  -- stands as long as the loop goes on, with a response wherever the loop is to read one, and when
  -- the loop has ended the state is consistent.
  pub run-Sound :
      (turns : List Turn) (place : Place) (s : State Msg)
      → All (Spares subid) turns
      → InTime turns place s
      → Sound subid q place s
      → Safely (Sound subid q) (run lib env q saved turns place s)
  unfolding run InTime
  run-Sound [] place s a b h = h
  run-Sound (own ∷ turns) place s a b h =
      Safely-continue _ (Sound subid q) _ _
        (both (Sound subid q) (λ next t. InTime turns next t) _
          (loop_step-Sound lib env memory subid q saved place s h) b)
        λ next t k. run-Sound turns next t a.1 k.1 k.0
  run-Sound (other e ∷ turns) place s a b h =
      Safely-continue _ (Sound subid q) _ _
        (both (λ _ t. Sound subid q place t) (λ _ t. InTime turns place t) _
          (event-Sound place e s a.0 h) b)
        λ _ t k. run-Sound turns place t a.1 k.1 k.0
  run-Sound (later ∷ turns) place s a b h = run-Sound turns place _ a.1 b (later-Sound place s h)
  run-Sound (completes space node msgnum seqnum i new obsolete ∷ turns) place s a b h =
      Safely-continue _ (Sound subid q) _ _
        (both (λ _ t. Full subid q t) (λ _ t. InTime turns place t) _
          (completes-Full (lib.new_subscription_ind space node msgnum seqnum i new obsolete) s
            (Sound-Stands place s b.0 h))
          b.1)
        λ _ t k. run-Sound turns place t a.1 k.1 (Full-Sound place t b.0 k.0)
