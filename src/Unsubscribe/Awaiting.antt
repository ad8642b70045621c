-- ===== src/Unsubscribe/Awaiting.antt =====
-- The wait of an unsubscription that its confirmation ends, among the steps of other threads.
use sib_tcp.Prelude.{
  ℕ, ◌+◌, ◌≡◌, refl, sym, subst, ◌==◌, ==_refl, true, false, some, List, ◌∷◌, ◌++◌, ℤ, Bytes, arith,
  All,
}
use sib_tcp.Ssap.{Sibmsg}
use sib_tcp.Key.{get_request_key}
use sib_tcp.World.{Env, Event, unsubscribe_cnf}
use sib_tcp.State.{State, Waiter, Action, update}
use sib_tcp.Waiters.{waiter_completed}
use sib_tcp.Listener.{listener_get_subscription, listener_get_request}
use sib_tcp.Callbacks.{confirm_subscriber, complete_with, handle_unsubscribe_cnf}
use sib_tcp.Waiting.{run_event, run_events, wait_rounds, waiter_wait_for_finished}
use sib_tcp.Waiting.Pending.{Pending, Spares}
use sib_tcp.Waiting.Pending.Steps.{Still}
use sib_tcp.Waiting.Pending.Events.{run_events-Pending}
use sib_tcp.Consistency.{Returns, Returns-continue, Returns-both, Returns-mono}
use sib_tcp.Subscription.Listening.{Listening, Passes}
use sib_tcp.Subscription.Listening.Steps.{Listens, other_request}
use sib_tcp.Subscription.Listening.Events.{run_events-Listening}
use sib_tcp.Subscription.Awaiting.{run_events-append, confirmation-Listens, ready}

module _ {Msg : Type 0} (lib : Sibmsg Msg) (env : Env) (memory : (t : ℕ) → env.allocates t ≡ true)
    (space node : Bytes) (msgnum status : ℤ) (subid : Bytes) (p q : ℕ) (v w : Waiter Msg)
    (l : List Action) where
  abbrev key : Bytes
  key = get_request_key node msgnum

  -- The request waits on `p`, whose content is `x`, and the subscription on `q`, with `y` in it.
  abbrev pub Both : Waiter Msg → Waiter Msg → State Msg → Type 0
  Both x y t = Pending key p x l t × Listening subid q y l t

  abbrev pub passed_on : Waiter Msg
  passed_on =
      ready lib env memory subid q w l (lib.new_unsubscribe_rsp space node msgnum status subid)

  abbrev asleep : Waiter Msg → Waiter Msg
  asleep x = record x { req_ready = false }

  others-Both :
      (x y : Waiter Msg) (es : List Event) (s : State Msg)
      → All (Spares key) es
      → All (Passes subid) es
      → Both x y s
      → Returns (λ _ t. Both x y t) (run_events lib env es s)
  others-Both x y es s a b h =
      Returns-both (Still key p x l) (Listens subid q y l) _
        (run_events-Pending key p x l lib env memory es s a h.0)
        (run_events-Listening subid q y l lib env memory es s b h.1)

  confirmation-Both :
      (s : State Msg)
      → Both v w s
      → Returns
          (λ _ t. Both (record v { req_ready = true }) passed_on t)
          (run_event lib env (unsubscribe_cnf space node msgnum status subid) s)
  unfolding run_event handle_unsubscribe_cnf listener_get_subscription listener_get_request
      confirm_subscriber complete_with waiter_completed
  confirmation-Both s h =
      let apart = other_request subid q w l s key p h.1 h.0.registered in
      let apart' : (q == p) ≡ false = ground (arith, apart) in
      Returns-mono _ (λ _ t. Both (record v { req_ready = true }) passed_on t) _
        (Returns-both (Listens subid q passed_on l)
          (λ _ t. (t.requests ≡ s.requests) × (t.heap p ≡ some (record v { req_ready = true }))) _
          (confirmation-Listens lib env memory subid q w l space node msgnum status s p h.1
            h.0.registered)
          (rw (h.0.registered, h.1.subscribed, h.1.content, ==_refl q, apart', h.0.content)
            (refl, rw (==_refl p) refl)))
        λ _ t x. (
          record {
            consistent = x.0.consistent;
            registered = rw (x.1.0) h.0.registered;
            content = x.1.1;
            quiet = x.0.quiet;
          },
          x.0,
        )

  pub wait-Both :
      (before after : List Event) (rest : List (List Event)) (s : State Msg)
      → env.waits s.clock
        ≡ (before ++ (unsubscribe_cnf space node msgnum status subid ∷ after)) ∷ rest
      → All (Spares key) before × All (Passes subid) before
      → All (Spares key) after × All (Passes subid) after
      → Both v w (record s { clock = s.clock + 1 })
      → Returns
          (λ _ t. Both (record v { req_ready = false }) passed_on t)
          (waiter_wait_for_finished lib env p s)
  unfolding waiter_wait_for_finished wait_rounds run_events
  wait-Both before after rest s comes first later h = rw comes (
      Returns-continue (λ _ t. Both woken passed_on t)
        (λ _ t. Both (record v { req_ready = false }) passed_on t) _ _
        (subst (Returns λ _ t. Both woken passed_on t) (sym (run_events-append lib env before _ _))
          (Returns-continue (λ _ t. Both v w t) (λ _ t. Both woken passed_on t) _ _
            (others-Both v w before _ first.0 first.1 h)
            λ _ t k.
              Returns-continue (λ _ u. Both woken passed_on u) (λ _ u. Both woken passed_on u) _ _
                (confirmation-Both t k)
                λ _ u j. others-Both woken passed_on after u later.0 later.1 j))
        λ _ t k. rw (k.0.content, k.0.content) (slept t k))
    where
      woken : Waiter Msg
      woken = record v { req_ready = true }

      slept :
          (t : State Msg)
          → Both woken passed_on t
          → Both
              (record v { req_ready = false })
              passed_on
              (record t { heap = update t.heap p (some (record v { req_ready = false })) })
      slept t k =
          let apart = other_request subid q passed_on l t key p k.1 k.0.registered in
          let apart' : (q == p) ≡ false = ground (arith, apart) in
          (
            record {
              consistent = record {
                owned = λ r. ground (arith, k.0.consistent.owned r, k.0.content);
                fresh = λ r le. ground (arith, k.0.consistent.fresh r, k.0.content);
              };
              registered = k.0.registered;
              content = rw (==_refl p) refl;
              quiet = k.0.quiet;
            },
            record {
              consistent = record {
                owned = λ r. ground (arith, k.0.consistent.owned r, k.0.content);
                fresh = λ r le. ground (arith, k.0.consistent.fresh r, k.0.content);
              };
              subscribed = k.1.subscribed;
              content = ground (arith, apart, apart', k.1.content);
              quiet = k.1.quiet;
            },
          )
