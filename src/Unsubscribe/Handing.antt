-- ===== src/Unsubscribe/Handing.antt =====
-- What an unsubscription does that goes well: the answer is left to the subscriber.
use sib_tcp.Prelude.{
  ℕ, ◌+◌, ◌≡◌, refl, ◌∙◌, true, false, none, some, List, ◌∷◌, ◌++◌, ℤ, Bytes, arith, ==_refl,
  is_neg, bytes_eq_refl, All,
}
use sib_tcp.Ssap.{Sibmsg, Call, send_unsubscribe}
use sib_tcp.Key.{get_request_key}
use sib_tcp.Table.{lookup, lookup-insert, lookup-remove}
use sib_tcp.Table.Uses.{uses-insert}
use sib_tcp.World.{Env, Event, unsubscribe_cnf}
use sib_tcp.State.{State, Waiter, Action, dbus, update}
use sib_tcp.Waiters.{waiter_new, waiter_destroy}
use sib_tcp.Listener.{listener_add_request, listener_remove_request}
use sib_tcp.Consistency.{IsConsistent, Returns, Returns-continue, Returns-mono, Returns-both}
use sib_tcp.Consistency.Steps.{Consistent, remove_request-Keeps}
use sib_tcp.Waiting.Registering.{with_request, new_waiter}
use sib_tcp.Waiting.Pending.{Spares}
use sib_tcp.Subscription.Listening.{Passes}
use sib_tcp.Subscription.Listening.Steps.{other_request}
use sib_tcp.Request.{call_daemon, reply_buffer}
use sib_tcp.Unsubscribe.{send_buffer, unsubscribe_exchange, listener_handle_unsubscribe}
use sib_tcp.Unsubscribe.Awaiting.{Both, passed_on, wait-Both}

module _ {Msg : Type 0} (lib : Sibmsg Msg) (env : Env) (memory : (t : ℕ) → env.allocates t ≡ true)
    (fd : ℕ) (msg : Msg) (s : State Msg) (space : Bytes) (status : ℤ) (subid : Bytes) (q : ℕ)
    (w : Waiter Msg) where
  abbrev node : Bytes
  node = lib.get_nodeid msg

  abbrev num : ℤ
  num = lib.get_msgnumber msg

  abbrev key : Bytes
  key = get_request_key node num

  abbrev call : Call
  call = send_unsubscribe (lib.get_spaceid msg) node num (lib.get_subscriptionid msg)

  abbrev quiet : List Action
  quiet = dbus call ∷ s.trace

  -- The waiter of the request, while its thread waits.
  abbrev asking : Waiter Msg
  asking = record (new_waiter key fd) { subscription_id = some (lib.get_subscriptionid msg) }

  -- The state in which the handler begins to wait.
  abbrev waiting_state : State Msg
  waiting_state = record (with_request env fd node num s) {
    heap = update (with_request env fd node num s).heap s.next (some asking);
    trace = quiet;
    clock = s.clock + 1 + 1;
  }

  -- The waiter of the subscriber, with the confirmation.
  abbrev informed : Waiter Msg
  informed = passed_on lib env memory space node num status subid s.next q asking w quiet

  abbrev Confirmed : State Msg → Type 0
  Confirmed t =
      Both lib env memory space node num status subid s.next q asking w quiet asking informed t

  -- The subscriber has the confirmation, and nothing is left of the request.
  abbrev pub HandedOver : State Msg → Type 0
  HandedOver t =
      (t.trace ≡ quiet)
      × (lookup key t.requests ≡ none)
      × (t.heap s.next ≡ none)
      × (lookup subid t.subscriptions ≡ some q)
      × (t.heap q
          ≡ some (record w {
            rsp = some (lib.new_unsubscribe_rsp space node num status subid);
            req_ready = true;
          }))
      × IsConsistent t

  begins :
      IsConsistent s
      → lookup subid s.subscriptions ≡ some q
      → s.heap q ≡ some w
      → Both lib env memory space node num status subid s.next q asking w quiet asking w
          (record waiting_state { clock = s.clock + 1 + 1 + 1 })
  begins h subscribed here = (
    record {
      consistent = consistent;
      registered = lookup-insert key key s.next s.requests ∙ (rw (bytes_eq_refl key) refl);
      content = rw (==_refl s.next) refl;
      quiet = refl;
    },
    record {
      consistent = consistent;
      subscribed = subscribed;
      content = ground (arith, h.fresh q, here);
      quiet = refl;
    },
  )
    where
      consistent : IsConsistent (record waiting_state { clock = s.clock + 1 + 1 + 1 })
      consistent = record {
        owned = λ r. ground (arith, h.owned r, h.fresh s.next, uses-insert r key s.next s.requests);
        fresh = λ r le. ground (arith, h.fresh r);
      }

  ends :
      (t : State Msg)
      → Confirmed t
      → Returns (λ _ u. HandedOver u) (listener_remove_request node num t)
  unfolding listener_remove_request waiter_destroy
  ends t h =
      let apart = other_request subid q informed quiet t key s.next h.1 h.0.registered in
      Returns-mono _ (λ _ u. HandedOver u) _
        (Returns-both Consistent
          (λ _ u.
            (u.trace ≡ quiet)
            × (lookup key u.requests ≡ none)
            × (u.heap s.next ≡ none)
            × (lookup subid u.subscriptions ≡ some q)
            × (u.heap q ≡ t.heap q))
          _ (remove_request-Keeps node num t h.0.consistent)
          (rw (h.0.registered, h.0.content)
            (
              h.0.quiet,
              lookup-remove key key t.requests ∙ (rw (bytes_eq_refl key) refl),
              rw (==_refl s.next) refl,
              h.1.subscribed,
              ground (arith, apart),
            )))
        λ _ u x. (x.1.0, x.1.1, x.1.2, x.1.3, x.1.4 ∙ h.1.content, x.0)

  -- An unsubscribe request that is new and taken by the daemon, in a consistent state with memory,
  -- and confirmed, for a subscription that is registered, the first time that the handler waits,
  -- among any steps of other threads that are neither about the request nor about the subscription
  -- nor rounds of the waking thread, and while the subscriber itself takes no step: the handler
  -- returns and has sent nothing itself, its request is no longer pending and its waiter freed, the
  -- subscription is on its waiter as before, the subscriber has the confirmation and is to wake up,
  -- and the state is consistent.
  pub listener_handle_unsubscribe-HandedOver :
      (before after : List Event) (rest : List (List Event))
      → IsConsistent s
      → lookup key s.requests ≡ none
      → is_neg (env.dbus_result (s.clock + 1) call) ≡ false
      → env.waits (s.clock + 1 + 1)
        ≡ (before ++ (unsubscribe_cnf space node num status subid ∷ after)) ∷ rest
      → All (Spares key) before × All (Passes subid) before
      → All (Spares key) after × All (Passes subid) after
      → lookup subid s.subscriptions ≡ some q
      → s.heap q ≡ some w
      → Returns (λ _ t. HandedOver t) (listener_handle_unsubscribe lib env fd msg s)
  unfolding listener_handle_unsubscribe waiter_new listener_add_request call_daemon
      unsubscribe_exchange reply_buffer send_buffer
  listener_handle_unsubscribe-HandedOver before after rest h free taken comes first later subscribed
        here =
      rw (memory s.clock, free, ==_refl s.next, ==_refl s.next, taken)
        (Returns-continue (λ bd t. (bd ≡ none) × Confirmed t) (λ _ t. HandedOver t) _ _
          (Returns-continue (λ _ t. Confirmed t) (λ bd t. (bd ≡ none) × Confirmed t) _ _
            (wait-Both lib env memory space node num status subid s.next q asking w quiet before
              after rest waiting_state comes first later (begins h subscribed here))
            λ _ t k. rw k.0.content (refl, k))
          λ bd t k. rw k.0 (
            Returns-continue (λ _ u. HandedOver u) (λ _ u. HandedOver u) _ _ (ends t k.1)
              λ _ u x. x))
