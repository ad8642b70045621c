-- ===== src/Request/Completing.antt =====
-- A confirmation reaches the thread that waits for it.
use sib_tcp.Prelude.{
  ℕ, ◌≡◌, Bool, true, false, Option, some, List, [], ◌∷◌, ◌++◌, ℤ, Bytes, All, arith, ==_refl,
}
use sib_tcp.Ssap.{Sibmsg}
use sib_tcp.Key.{get_request_key}
use sib_tcp.Table.{lookup}
use sib_tcp.World.{Env, Event}
use sib_tcp.State.{State, Waiter, Action, continue}
use sib_tcp.Listener.{listener_get_request}
use sib_tcp.Callbacks.{
  complete_found, handle_join_cnf, handle_leave_cnf, handle_insert_cnf, handle_remove_cnf,
  handle_update_cnf, handle_query_cnf,
}
use sib_tcp.Waiting.{run_event, run_events, wait_rounds}
use sib_tcp.Waiting.Pending.{Pending, Spares}
use sib_tcp.Waiting.Pending.Steps.{Still}
use sib_tcp.Waiting.Pending.Events.{run_event-Pending, run_events-Pending}
use sib_tcp.Consistency.{Returns, Returns-continue, Returns-mono, Returns-both}
use sib_tcp.Consistency.Steps.{Consistent}
use sib_tcp.Consistency.Events.{run_event-Keeps}
use sib_tcp.Request.Operations.{
  Operation, joins, leaves, inserts, removes, updates, queries, confirmation, response,
}

abbrev pub completed : {Msg : Type 0} → Waiter Msg → Msg → Bool → Waiter Msg
completed w r ready = record w { rsp = some r; req_ready = ready }

module _ {Msg : Type 0} (lib : Sibmsg Msg) (env : Env) (memory : (t : ℕ) → env.allocates t ≡ true)
    (node : Bytes) (msgnum : ℤ) (p : ℕ) (w : Waiter Msg) (l : List Action) where
  abbrev key : Bytes
  key = get_request_key node msgnum

  complete-Framed :
      (rsp : Msg) (s : State Msg)
      → Pending key p w l s
      → Returns
          (λ _ t.
            (lookup key t.requests ≡ some p)
            × (t.heap p ≡ some (completed w rsp true))
            × (t.trace ≡ l))
          (continue (listener_get_request node msgnum s) λ waiter. complete_found rsp waiter)
  unfolding listener_get_request complete_found
  complete-Framed rsp s h =
      rw (h.registered, h.content, ==_refl p) (h.registered, ground (arith, ==_refl p), h.quiet)

  confirmation-Pending :
      (op : Operation) (space : Bytes) (v : ℤ) (b : Option Bytes) (s : State Msg)
      → Pending key p w l s
      → Returns
          (Still key p (completed w (response lib op space node msgnum v b) true) l)
          (run_event lib env (confirmation op space node msgnum v b) s)
  unfolding run_event handle_join_cnf handle_leave_cnf handle_insert_cnf handle_remove_cnf
      handle_update_cnf handle_query_cnf
  confirmation-Pending op space v b s h =
      Returns-mono _ (Still key p (completed w (response lib op space node msgnum v b) true) l) _
        (Returns-both Consistent _ _
          (run_event-Keeps lib env memory (confirmation op space node msgnum v b) s h.consistent)
          (framed op))
        λ _ t x. record { consistent = x.0; registered = x.1.0; content = x.1.1; quiet = x.1.2 }
    where
      framed :
          (o : Operation)
          → Returns
              (λ _ t.
                (lookup key t.requests ≡ some p)
                × (t.heap p ≡ some (completed w (response lib o space node msgnum v b) true))
                × (t.trace ≡ l))
              (run_event lib env (confirmation o space node msgnum v b) s)
      framed joins = complete-Framed _ s h
      framed leaves = complete-Framed _ s h
      framed inserts = complete-Framed _ s h
      framed removes = complete-Framed _ s h
      framed updates = complete-Framed _ s h
      framed queries = complete-Framed _ s h

  -- Other steps, the confirmation, and other steps again.
  batch-Pending :
      (op : Operation) (space : Bytes) (v : ℤ) (b : Option Bytes) (before after : List Event)
      (s : State Msg)
      → All (Spares key) before
      → All (Spares key) after
      → Pending key p w l s
      → Returns
          (Still key p (completed w (response lib op space node msgnum v b) true) l)
          (run_events lib env (before ++ (confirmation op space node msgnum v b ∷ after)) s)
  unfolding run_events
  batch-Pending op space v b [] after s _ later h =
      Returns-continue _ _ (run_event lib env (confirmation op space node msgnum v b) s) _
        (confirmation-Pending op space v b s h)
        λ _ t k. run_events-Pending key p _ l lib env memory after t later k
  batch-Pending op space v b (e ∷ es) after s first later h =
      Returns-continue (Still key p w l) _ (run_event lib env e s) _
        (run_event-Pending key p w l lib env memory e s first.0 h)
        λ _ t k. batch-Pending op space v b es after t first.1 later k

  pub wait_rounds-Pending :
      (op : Operation) (space : Bytes) (v : ℤ) (b : Option Bytes) (idle : List (List Event))
      (before after : List Event) (rest : List (List Event)) (s : State Msg)
      → w.req_ready ≡ false
      → All (All (Spares key)) idle
      → All (Spares key) before
      → All (Spares key) after
      → Pending key p w l s
      → Returns (Still key p (completed w (response lib op space node msgnum v b) false) l) (
          wait_rounds lib env
            (idle ++ ((before ++ (confirmation op space node msgnum v b ∷ after)) ∷ rest))
            p
            s)
  unfolding wait_rounds
  wait_rounds-Pending op space v b [] before after rest s new quiet first later h =
      Returns-continue (Still key p (completed w (response lib op space node msgnum v b) true) l) _
        _ _ (batch-Pending op space v b before after s first later h)
        λ _ t k.
          rw (k.content, k.content)
            (record {
              consistent = record {
                owned = λ q. ground (arith, k.consistent.owned q);
                fresh = λ q le. ground (arith, k.consistent.fresh q);
              };
              registered = k.registered;
              content = ground (arith, ==_refl p);
              quiet = k.quiet;
            })
  wait_rounds-Pending op space v b (es ∷ idle) before after rest s new quiet first later h =
      Returns-continue (Still key p w l) _ _ _
        (run_events-Pending key p w l lib env memory es s quiet.0 h)
        λ _ t k.
          rw (k.content, new)
            (wait_rounds-Pending op space v b idle before after rest t new quiet.1 first later k)
