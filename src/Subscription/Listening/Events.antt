-- ===== src/Subscription/Listening/Events.antt =====
-- Any steps of other threads that are not about a subscription leave it as it is.
use sib_tcp.Prelude.{ℕ, ◌≡◌, true, List, [], ◌∷◌, Bytes, All}
use sib_tcp.Ssap.{Sibmsg}
use sib_tcp.World.{
  Env, Event, join_cnf, leave_cnf, insert_cnf, remove_cnf, update_cnf, query_cnf, subscribe_cnf,
  subscription_ind, unsubscribe_cnf, unsubscribe_ind, leave_ind, wakes, adds_request,
  removes_request, adds_subscription, removes_subscription,
}
use sib_tcp.State.{State, Waiter, Action}
use sib_tcp.Listener.{listener_get_request, listener_get_subscription}
use sib_tcp.Callbacks.{
  handle_join_cnf, handle_leave_cnf, handle_insert_cnf, handle_remove_cnf, handle_update_cnf,
  handle_query_cnf, handle_subscribe_cnf, handle_subscription_ind,
}
use sib_tcp.Waiting.{run_event, run_events}
use sib_tcp.Consistency.{Returns, Returns-continue, IfDone, IfDone-continue, Returns-and_done}
use sib_tcp.Subscription.Standing.{Leaves, Stands, run_event-Stands}
use sib_tcp.Subscription.Listening.{Listening, Passes}
use sib_tcp.Subscription.Listening.Steps.{
  Untouched, Listens, reply-Untouched, indication-Untouched, unsubscribe_cnf-Untouched,
  remove_request-Untouched, remove_subscription-Untouched, register_request-Untouched,
  register_subscriber-Untouched,
}

leaves : (subid : Bytes) (e : Event) → Passes subid e → Leaves subid e
leaves subid (join_cnf space node msgnum v) a = tt
leaves subid (leave_cnf space node msgnum v) a = tt
leaves subid (remove_cnf space node msgnum v) a = tt
leaves subid (insert_cnf space node msgnum v b) a = tt
leaves subid (update_cnf space node msgnum v b) a = tt
leaves subid (query_cnf space node msgnum v b) a = tt
leaves subid (subscribe_cnf space node msgnum v i b) a = tt
leaves subid (subscription_ind space node msgnum v i b c) a = tt
leaves subid (unsubscribe_cnf space node msgnum v i) a = tt
leaves subid unsubscribe_ind a = tt
leaves subid leave_ind a = tt
leaves subid wakes a = tt
leaves subid (adds_request node msgnum fd) a = tt
leaves subid (removes_request node msgnum) a = tt
leaves subid (adds_subscription i fd) a = tt
leaves subid (removes_subscription i) a = a

module _ {Msg : Type 0} (subid : Bytes) (q : ℕ) (w : Waiter Msg) (l : List Action) where
  module _ (lib : Sibmsg Msg) (env : Env) (memory : (t : ℕ) → env.allocates t ≡ true) where
    run_event-Untouched :
        (e : Event) (s : State Msg)
        → Passes subid e
        → Listening subid q w l s
        → IfDone (Untouched subid q w l) (run_event lib env e s)
    unfolding run_event handle_join_cnf handle_leave_cnf handle_remove_cnf handle_insert_cnf
        handle_update_cnf handle_query_cnf handle_subscribe_cnf handle_subscription_ind
        listener_get_request listener_get_subscription
    run_event-Untouched (join_cnf space node msgnum v) s a h =
        reply-Untouched subid q w l s h node msgnum _
    run_event-Untouched (leave_cnf space node msgnum v) s a h =
        reply-Untouched subid q w l s h node msgnum _
    run_event-Untouched (remove_cnf space node msgnum v) s a h =
        reply-Untouched subid q w l s h node msgnum _
    run_event-Untouched (insert_cnf space node msgnum v b) s a h =
        reply-Untouched subid q w l s h node msgnum _
    run_event-Untouched (update_cnf space node msgnum v b) s a h =
        reply-Untouched subid q w l s h node msgnum _
    run_event-Untouched (query_cnf space node msgnum v b) s a h =
        reply-Untouched subid q w l s h node msgnum _
    run_event-Untouched (subscribe_cnf space node msgnum v i b) s a h =
        reply-Untouched subid q w l s h node msgnum _
    run_event-Untouched (subscription_ind space node msgnum v i b c) s a h =
        indication-Untouched subid q w l s h i _ a
    run_event-Untouched (unsubscribe_cnf space node msgnum v i) s a h =
        unsubscribe_cnf-Untouched subid q w l s h lib space node msgnum v i a
    run_event-Untouched unsubscribe_ind s a h = (h.content, h.quiet)
    run_event-Untouched leave_ind s a h = (h.content, h.quiet)
    run_event-Untouched wakes s a h = absurd a
    run_event-Untouched (adds_request node msgnum fd) s a h =
        IfDone-continue (Untouched subid q w l) (Untouched subid q w l) _ _
          (register_request-Untouched subid q w l s h env fd node msgnum) λ _ _ k. k
    run_event-Untouched (removes_request node msgnum) s a h =
        IfDone-continue (Untouched subid q w l) (Untouched subid q w l) _ _
          (remove_request-Untouched subid q w l s h node msgnum) λ _ _ k. k
    run_event-Untouched (adds_subscription i fd) s a h =
        IfDone-continue (Untouched subid q w l) (Untouched subid q w l) _ _
          (register_subscriber-Untouched subid q w l s h env fd i) λ _ _ k. k
    run_event-Untouched (removes_subscription i) s a h =
        IfDone-continue (Untouched subid q w l) (Untouched subid q w l) _ _
          (remove_subscription-Untouched subid q w l s h i a) λ _ _ k. k

    -- Any number of steps that are not about the subscription leave it, and its waiter, as it is.
    pub run_events-Listening :
        (es : List Event) (s : State Msg)
        → All (Passes subid) es
        → Listening subid q w l s
        → Returns (Listens subid q w l) (run_events lib env es s)
    unfolding run_events
    run_events-Listening [] s a h = h
    run_events-Listening (e ∷ es) s a h =
        Returns-continue (Listens subid q w l) (Listens subid q w l) (run_event lib env e s) _
          (Returns-and_done (λ _ t. Stands subid q t) (Untouched subid q w l) (Listens subid q w l)
            _
            (run_event-Stands subid q lib env memory e s (leaves subid e a.0)
              (record { consistent = h.consistent; subscribed = h.subscribed }))
            (run_event-Untouched e s a.0 h)
            λ _ t x y. record {
              consistent = x.consistent;
              subscribed = x.subscribed;
              content = y.0;
              quiet = y.1;
            })
          λ _ t k. run_events-Listening es t a.1 k
