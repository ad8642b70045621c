-- ===== src/Subscription/Awaiting.antt =====
-- The wait of a subscriber that an event about its subscription ends, among events of others.
use sib_tcp.Prelude.{
  ℕ, ◌+◌, ◌≡◌, refl, sym, ◌∙◌, ◌==◌, subst, true, false, Option, some, List, [], ◌∷◌, ◌++◌, ℤ,
  Bytes, arith, ==_refl, All,
}
use sib_tcp.Ssap.{Sibmsg}
use sib_tcp.Key.{get_request_key}
use sib_tcp.Table.{lookup}
use sib_tcp.World.{Env, Event, subscription_ind, unsubscribe_cnf}
use sib_tcp.State.{State, M, Waiter, Outcome, Action, done, fault, stuck, continue, update}
use sib_tcp.Waiters.{waiter_completed}
use sib_tcp.Listener.{listener_get_subscription, listener_get_request}
use sib_tcp.Callbacks.{
  complete_with, complete_found, confirm_subscriber, handle_subscription_ind,
  handle_unsubscribe_cnf,
}
use sib_tcp.Waiting.{run_event, run_events, wait_rounds, waiter_wait_for_finished}
use sib_tcp.Consistency.{Returns, Returns-continue, Returns-both, Returns-mono, IsConsistent}
use sib_tcp.Consistency.Steps.{live_of_request, live_waiter}
use sib_tcp.Consistency.Events.{run_event-Keeps}
use sib_tcp.Subscription.Listening.{Listening, Passes}
use sib_tcp.Subscription.Listening.Steps.{Listens, other_request}
use sib_tcp.Subscription.Listening.Events.{run_events-Listening}

continue-continue :
    {Msg A B C : Type 0} (o : Outcome Msg A) (f : A → M Msg B) (g : B → M Msg C)
    → continue (continue o f) g ≡ continue o λ a t. continue (f a t) g
continue-continue (done a t) f g = refl
continue-continue (fault e t) f g = refl
continue-continue (stuck t) f g = refl

-- A new content of the waiter.
pub stored :
    {Msg : Type 0} (subid : Bytes) (q : ℕ) (w v : Waiter Msg) (l : List Action) (s : State Msg)
    → Listening subid q w l s
    → Listening subid q v l (record s { heap = update s.heap q (some v) })
stored subid q w v l s h = record {
  consistent = record {
    owned = λ r. ground (arith, h.consistent.owned r, h.content);
    fresh = λ r le. ground (arith, h.consistent.fresh r, h.content);
  };
  subscribed = h.subscribed;
  content = rw (==_refl q) refl;
  quiet = h.quiet;
}

continue_same :
    {Msg A B : Type 0} (o : Outcome Msg A) (f g : A → M Msg B)
    → ((a : A) (t : State Msg) → f a t ≡ g a t)
    → continue o f ≡ continue o g
continue_same (done a t) f g h = h a t
continue_same (fault e t) f g h = refl
continue_same (stuck t) f g h = refl

module _ {Msg : Type 0} (lib : Sibmsg Msg) (env : Env) where
  pub run_events-append :
      (es fs : List Event) (s : State Msg)
      → run_events lib env (es ++ fs) s
        ≡ continue (run_events lib env es s) λ _. run_events lib env fs
  unfolding run_events
  run_events-append [] fs s = refl
  run_events-append (e ∷ es) fs s =
      continue_same (run_event lib env e s) _ _ (λ _ t. run_events-append es fs t)
      ∙ sym (continue-continue (run_event lib env e s) _ _)

  module _ (memory : (t : ℕ) → env.allocates t ≡ true) (subid : Bytes) (q : ℕ) (w : Waiter Msg)
      (l : List Action) where
    -- What stands in the waiter when it has been woken with a response.
    abbrev pub ready : Msg → Waiter Msg
    ready rsp = record w { rsp = some rsp; req_ready = true }

    -- And when the subscriber has woken up.
    abbrev pub got : Msg → Waiter Msg
    got rsp = record w { rsp = some rsp; req_ready = false }

    with_response :
        (rsp : Msg) (o : Outcome Msg (Unit {0}))
        → Returns (λ _ t. IsConsistent t) o
        → Returns
            (λ _ t.
              (lookup subid t.subscriptions ≡ some q)
              × (t.heap q ≡ some (ready rsp))
              × (t.trace ≡ l))
            o
        → Returns (Listens subid q (ready rsp) l) o
    with_response rsp o c f =
        Returns-mono _ (Listens subid q (ready rsp) l) o
          (Returns-both (λ _ t. IsConsistent t) _ o c f)
          λ _ t x. record { consistent = x.0; subscribed = x.1.0; content = x.1.1; quiet = x.1.2 }

    pub indication-Listens :
        (space node : Bytes) (msgnum seqnum : ℤ) (new obsolete : Option Bytes) (s : State Msg)
        → Listening subid q w l s
        → Returns
            (Listens subid q
              (ready (lib.new_subscription_ind space node msgnum seqnum subid new obsolete))
              l)
            (run_event lib env (subscription_ind space node msgnum seqnum subid new obsolete) s)
    unfolding run_event handle_subscription_ind listener_get_subscription complete_found
        complete_with waiter_completed
    indication-Listens space node msgnum seqnum new obsolete s h =
        with_response (lib.new_subscription_ind space node msgnum seqnum subid new obsolete) _
          (run_event-Keeps lib env memory
            (subscription_ind space node msgnum seqnum subid new obsolete) s h.consistent)
          (rw (h.subscribed, h.content, ==_refl q) (h.subscribed, rw (==_refl q) refl, h.quiet))

    -- The request that asked for the unsubscription is pending.
    pub confirmation-Listens :
        (space node : Bytes) (msgnum status : ℤ) (s : State Msg) (p : ℕ)
        → Listening subid q w l s
        → lookup (get_request_key node msgnum) s.requests ≡ some p
        → Returns
            (Listens subid q (ready (lib.new_unsubscribe_rsp space node msgnum status subid)) l)
            (run_event lib env (unsubscribe_cnf space node msgnum status subid) s)
    unfolding run_event handle_unsubscribe_cnf listener_get_subscription listener_get_request
        confirm_subscriber complete_with waiter_completed
    confirmation-Listens space node msgnum status s p h asked =
        let (v, held) = live_waiter _ (live_of_request s _ p h.consistent asked) in
        let apart = other_request subid q w l s (get_request_key node msgnum) p h asked in
        let apart' : (q == p) ≡ false = ground (arith, apart) in
        with_response (lib.new_unsubscribe_rsp space node msgnum status subid) _
          (run_event-Keeps lib env memory (unsubscribe_cnf space node msgnum status subid) s
            h.consistent)
          (rw (asked, h.subscribed, h.content, ==_refl q, apart', held)
            (h.subscribed, rw (apart, ==_refl q) refl, h.quiet))

    pub ticked :
        (s : State Msg)
        → Listening subid q w l s
        → Listening subid q w l (record s { clock = s.clock + 1 })
    ticked s h = record {
      consistent = record {
        owned = λ r. ground (arith, h.consistent.owned r);
        fresh = λ r le. ground (arith, h.consistent.fresh r);
      };
      subscribed = h.subscribed;
      content = h.content;
      quiet = h.quiet;
    }

    -- The wait ends with the response, if the event brings it, with what holds of the state before
    -- the event.
    pub wait-Listens :
        (rsp : Msg) (e : Event) (Q : State Msg → Type 0) (before after : List Event)
        (rest : List (List Event)) (s : State Msg)
        → env.waits s.clock ≡ (before ++ (e ∷ after)) ∷ rest
        → All (Passes subid) before
        → All (Passes subid) after
        → Listening subid q w l s
        → Returns (λ _ u. Q u) (run_events lib env before (record s { clock = s.clock + 1 }))
        → ((u : State Msg)
            → Listening subid q w l u
            → Q u
            → Returns (Listens subid q (ready rsp) l) (run_event lib env e u))
        → Returns (Listens subid q (got rsp) l) (waiter_wait_for_finished lib env q s)
    unfolding waiter_wait_for_finished wait_rounds run_events
    wait-Listens rsp e Q before after rest s comes first later h told brings = rw comes (
        Returns-continue (Listens subid q (ready rsp) l) (Listens subid q (got rsp) l) _ _
          (batch (record s { clock = s.clock + 1 }) (ticked s h) told)
          λ _ t k. rw (k.content, k.content) (stored subid q (ready rsp) (got rsp) l t k))
      where
        batch :
            (u : State Msg)
            → Listening subid q w l u
            → Returns (λ _ u. Q u) (run_events lib env before u)
            → Returns (Listens subid q (ready rsp) l) (run_events lib env (before ++ (e ∷ after)) u)
        batch u x y =
            subst (Returns (Listens subid q (ready rsp) l))
              (sym (run_events-append before (e ∷ after) u))
              (Returns-continue (λ _ u. Listening subid q w l u × Q u)
                (Listens subid q (ready rsp) l) _ _
                (Returns-both (Listens subid q w l) (λ _ u. Q u) _
                  (run_events-Listening subid q w l lib env memory before u first x) y)
                λ _ v z.
                  Returns-continue (Listens subid q (ready rsp) l) (Listens subid q (ready rsp) l) _
                    _ (brings v z.0 z.1)
                    λ _ t k.
                      run_events-Listening subid q (ready rsp) l lib env memory after t later k)
