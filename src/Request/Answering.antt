-- ===== src/Request/Answering.antt =====
-- The response is sent, and the request ends.
use sib_tcp.Prelude.{
  ℕ, ◌≤◌, ◌≡◌, refl, ap, ◌∙◌, none, some, List, ◌++◌, ℤ, Bytes, arith, ==_refl, length,
  bytes_eq_refl,
}
use sib_tcp.Ssap.{Sibmsg}
use sib_tcp.Key.{get_request_key}
use sib_tcp.Table.{lookup, lookup-remove}
use sib_tcp.World.{Env}
use sib_tcp.State.{State, Waiter, Action, pure}
use sib_tcp.Listener.{listener_remove_request}
use sib_tcp.Waiters.{waiter_destroy}
use sib_tcp.Socket.Delivery.{
  received, Delivers, Delivered, SameShared, client_send_message-Delivered,
}
use sib_tcp.Waiting.Pending.{Pending}
use sib_tcp.Consistency.{IsConsistent, Returns, Returns-continue, Returns-both}
use sib_tcp.Consistency.Steps.{Consistent, remove_request-Keeps}
use sib_tcp.Request.{respond}

pub SameShared-IsConsistent :
    {Msg : Type 0} (s t : State Msg) → SameShared s t → IsConsistent s → IsConsistent t
SameShared-IsConsistent s t e h = record {
  owned = λ p. rw (e.requests, e.subscriptions, e.heap) (h.owned p);
  fresh = λ p. rw (e.next, e.heap) (h.fresh p);
}

module _ {Msg : Type 0} (lib : Sibmsg Msg) (env : Env) (msg : Msg) where
  abbrev key : Bytes
  key = get_request_key (lib.get_nodeid msg) (lib.get_msgnumber msg)

  -- The text has reached the client, the request is no longer pending, its waiter has been freed,
  -- and the state is consistent.
  pub record Answered (fd : ℕ) (text : Bytes) (p : ℕ) (l : List Action) (t : State Msg)
      : Type 0 where
    pub arrived : received fd t.trace ≡ received fd l ++ text
    pub unregistered : lookup key t.requests ≡ none
    pub freed : t.heap p ≡ none
    pub consistent : IsConsistent t

  remove_Pending :
      (p : ℕ) (w : Waiter Msg) (l : List Action) (s : State Msg)
      → Pending key p w l s
      → Returns
          (λ _ t. (lookup key t.requests ≡ none) × (t.heap p ≡ none) × (t.trace ≡ l))
          (listener_remove_request (lib.get_nodeid msg) (lib.get_msgnumber msg) s)
  unfolding listener_remove_request waiter_destroy
  remove_Pending p w l s h =
      rw (h.registered, h.content)
        (
          lookup-remove key key s.requests ∙ (rw (bytes_eq_refl key)),
          ground (arith, ==_refl p),
          h.quiet,
        )

  pub respond-Answered :
      (p : ℕ) (w : Waiter Msg) (l : List Action) (text : Bytes) (s : State Msg)
      → Delivers env w.fd
      → length text ≤ env.rounds
      → Pending key p w l s
      → Returns (λ _ t. Answered w.fd text p l t) (respond lib env msg p (some text) s)
  unfolding respond
  respond-Answered p w l text s d fits h = rw h.content (
      Returns-continue (Delivered w.fd text s) (λ _ t. Answered w.fd text p l t) _ _
        (client_send_message-Delivered env w.fd d text s fits)
        λ _ t x.
          Returns-continue {A = ℤ} {B = Unit {0}} _ (λ _ u. Answered w.fd text p l u) _
            (λ _. pure tt)
            (Returns-both Consistent _ _
              (remove_request-Keeps (lib.get_nodeid msg) (lib.get_msgnumber msg) t
                (SameShared-IsConsistent s t x.2 h.consistent))
              (remove_Pending p w t.trace t (moved t x.2)))
            λ _ u y. record {
              arrived =
                  ap (received w.fd) y.1.2 ∙ (x.1 ∙ ap (λ k. received w.fd k ++ text) h.quiet);
              unregistered = y.1.0;
              freed = y.1.1;
              consistent = y.0;
            })
    where
      moved : (t : State Msg) → SameShared s t → Pending key p w t.trace t
      moved t e = record {
        consistent = SameShared-IsConsistent s t e h.consistent;
        registered = rw e.requests h.registered;
        content = rw e.heap h.content;
        quiet = refl;
      }
