-- ===== src/Subscription/Rounds.antt =====
-- Parts of a round of the sending loop of a subscription: a send, and the unsubscription of a client
-- that is not there any more.
use sib_tcp.Prelude.{
  ℕ, ◌+◌, ◌≤◌, ◌≡◌, refl, ◌∙◌, inl, inr, Bool-cases, Bool, true, none, some, ◌∷◌, ◌++◌, ℤ, Bytes,
  ==_refl, is_neg, length, bytes_eq_refl,
}
use sib_tcp.Ssap.{Sibmsg, send_unsubscribe}
use sib_tcp.Table.{lookup, remove, lookup-remove}
use sib_tcp.World.{Env}
use sib_tcp.State.{State, Waiter, dbus}
use sib_tcp.Waiters.{waiter_destroy}
use sib_tcp.Listener.{listener_remove_subscription}
use sib_tcp.Socket.{socket_broken}
use sib_tcp.Socket.Delivery.{
  received, Delivers, Delivered, SameShared, client_send_message-Delivered,
}
use sib_tcp.Consistency.{Returns, Returns-continue}
use sib_tcp.Request.{call_daemon}
use sib_tcp.Subscription.{finished, send_checked, auto_unsubscribe}

module _ {Msg : Type 0} (lib : Sibmsg Msg) (env : Env) where
  -- What is known of a text that was sent.
  abbrev pub Out : ℕ → Bytes → State Msg → Bool → State Msg → Type 0
  Out fd text s out t =
      (out ≡ true) × (received fd t.trace ≡ received fd s.trace ++ text) × SameShared s t

  pub send_checked-Out :
      (fd : ℕ) (text : Bytes) (s : State Msg)
      → Delivers env fd
      → length text ≤ env.rounds
      → Returns (Out fd text s) (send_checked lib env fd text s)
  unfolding send_checked socket_broken
  send_checked-Out fd text s d few = rw (d.sound s.clock) (
      Returns-continue (Delivered fd text (record s { clock = s.clock + 1 })) (Out fd text s) _ _
        (client_send_message-Delivered env fd d text _ few)
        λ r t x. rw (x.0) (refl, x.1, same t x.2))
    where
      same : (t : State Msg) → SameShared (record s { clock = s.clock + 1 }) t → SameShared s t
      same t x = record {
        requests = x.requests;
        subscriptions = x.subscriptions;
        heap = x.heap;
        next = x.next;
      }

  -- The daemon is asked, and the subscription goes, whatever the daemon answers.
  pub auto_unsubscribe-finished :
      (space node : Bytes) (num : ℤ) (subid : Bytes) (q : ℕ) (w : Waiter Msg) (s : State Msg)
      → lookup subid s.subscriptions ≡ some q
      → s.heap q ≡ some w
      → Returns
          (λ next t.
            (next ≡ finished)
            × (t.trace ≡ dbus (send_unsubscribe space node num subid) ∷ s.trace)
            × (lookup subid t.subscriptions ≡ none)
            × (t.heap q ≡ none)
            × (t.requests ≡ s.requests))
          (auto_unsubscribe lib env space node num subid s)
  unfolding auto_unsubscribe call_daemon listener_remove_subscription waiter_destroy
  auto_unsubscribe-finished space node num subid q w s e here =
      elim (Bool-cases (is_neg (env.dbus_result s.clock (send_unsubscribe space node num subid)))) [
        | inl bad ↦ rw (bad, e, here) (refl, refl, gone, rw (==_refl q) refl, refl)
        | inr good ↦ rw (good, e, here) (refl, refl, gone, rw (==_refl q) refl, refl)
      ]
    where
      gone : lookup subid (remove subid s.subscriptions) ≡ none
      gone = lookup-remove subid subid s.subscriptions ∙ (rw (bytes_eq_refl subid) refl)
