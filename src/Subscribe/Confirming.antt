-- ===== src/Subscribe/Confirming.antt =====
-- The confirmation of a subscription reaches the handler that waits for it, among events of others.
use sib_tcp.Prelude.{
  ℕ, ◌+◌, ◌≡◌, refl, sym, subst, true, false, some, List, ◌∷◌, ◌++◌, ℤ, Option, Bytes, arith,
  ==_refl, All,
}
use sib_tcp.Ssap.{Sibmsg}
use sib_tcp.Key.{get_request_key}
use sib_tcp.World.{Env, Event, subscribe_cnf}
use sib_tcp.Table.{lookup}
use sib_tcp.State.{State, Waiter, Action}
use sib_tcp.Waiters.{waiter_completed}
use sib_tcp.Listener.{listener_get_request}
use sib_tcp.Callbacks.{complete_with, complete_found, handle_subscribe_cnf}
use sib_tcp.Waiting.{run_event, run_events, wait_rounds, waiter_wait_for_finished}
use sib_tcp.Waiting.Pending.{Pending, Spares}
use sib_tcp.Waiting.Pending.Steps.{Still}
use sib_tcp.Waiting.Pending.Events.{run_events-Pending}
use sib_tcp.Consistency.{IsConsistent, Returns, Returns-continue, Returns-both, Returns-mono}
use sib_tcp.Consistency.Events.{run_event-Keeps}
use sib_tcp.Subscription.Awaiting.{run_events-append}

module _ {Msg : Type 0} (lib : Sibmsg Msg) (env : Env) (memory : (t : ℕ) → env.allocates t ≡ true)
    (space node : Bytes) (num status : ℤ) (subid : Bytes) (results : Option Bytes) (p : ℕ)
    (w : Waiter Msg) (l : List Action) where
  abbrev key : Bytes
  key = get_request_key node num

  abbrev ready : Waiter Msg
  ready = record w {
    rsp = some (lib.new_subscribe_rsp space node num status subid results);
    req_ready = true;
  }

  abbrev pub answered : Waiter Msg
  answered = record w {
    rsp = some (lib.new_subscribe_rsp space node num status subid results);
    req_ready = false;
  }

  confirmation-Pending :
      (s : State Msg)
      → Pending key p w l s
      → Returns
          (Still key p ready l)
          (run_event lib env (subscribe_cnf space node num status subid results) s)
  unfolding run_event handle_subscribe_cnf listener_get_request complete_found complete_with
      waiter_completed
  confirmation-Pending s h =
      Returns-mono _ (Still key p ready l) _
        (Returns-both (λ _ t. IsConsistent t)
          (λ _ t. (lookup key t.requests ≡ some p) × (t.heap p ≡ some ready) × (t.trace ≡ l)) _
          (run_event-Keeps lib env memory (subscribe_cnf space node num status subid results) s
            h.consistent)
          (rw (h.registered, h.content, ==_refl p) (h.registered, rw (==_refl p) refl, h.quiet)))
        λ _ t x. record { consistent = x.0; registered = x.1.0; content = x.1.1; quiet = x.1.2 }

  batch-Pending :
      (before after : List Event) (s : State Msg)
      → All (Spares key) before
      → All (Spares key) after
      → Pending key p w l s
      → Returns (Still key p ready l) (
          run_events lib env
            (before ++ (subscribe_cnf space node num status subid results ∷ after))
            s)
  unfolding run_events
  batch-Pending before after s first later h =
      subst (Returns (Still key p ready l)) (sym (run_events-append lib env before _ s)) (
        Returns-continue (Still key p w l) (Still key p ready l) _ _
          (run_events-Pending key p w l lib env memory before s first h)
          λ _ t k.
            Returns-continue (Still key p ready l) (Still key p ready l) _ _
              (confirmation-Pending t k)
              λ _ u j. run_events-Pending key p ready l lib env memory after u later j)

  -- The wait ends with the confirmation, the request still pending.
  pub wait-Pending :
      (before after : List Event) (rest : List (List Event)) (s : State Msg)
      → env.waits s.clock
        ≡ (before ++ (subscribe_cnf space node num status subid results ∷ after)) ∷ rest
      → All (Spares key) before
      → All (Spares key) after
      → Pending key p w l s
      → Returns (Still key p answered l) (waiter_wait_for_finished lib env p s)
  unfolding waiter_wait_for_finished wait_rounds
  wait-Pending before after rest s comes first later h = rw comes (
      Returns-continue (Still key p ready l) (Still key p answered l) _ _
        (batch-Pending before after (record s { clock = s.clock + 1 }) first later
          (record {
            consistent = record {
              owned = λ q. ground (arith, h.consistent.owned q);
              fresh = λ q le. ground (arith, h.consistent.fresh q);
            };
            registered = h.registered;
            content = h.content;
            quiet = h.quiet;
          }))
        λ _ t k.
          rw (k.content, k.content)
            (record {
              consistent = record {
                owned = λ q. ground (arith, k.consistent.owned q);
                fresh = λ q le. ground (arith, k.consistent.fresh q);
              };
              registered = k.registered;
              content = ground (arith, ==_refl p);
              quiet = k.quiet;
            }))
