-- ===== src/Interleaving/Loss.antt =====
-- What the sending loop of a subscription loses to other threads.
use sib_tcp.Prelude.{
  ℕ, ◌+◌, ◌≤◌, ◌≡◌, refl, ap, ◌∙◌, true, false, Option, none, some, [], ◌∷◌, ◌++◌, ℤ, Bytes,
  ==_refl, length, zero, suc, take,
}
use mathlib.Core.List.{append-nil}
use sib_tcp.Ssap.{Sibmsg}
use sib_tcp.Table.{lookup}
use sib_tcp.World.{Env, wakes, subscription_ind}
use sib_tcp.State.{State, M, null_pointer, Waiter, Outcome, done, fault, stuck, continue, update}
use sib_tcp.Waiters.{waiter_completed}
use sib_tcp.Listener.{listener_get_subscription}
use sib_tcp.Socket.{socket_broken, send_some}
use sib_tcp.Socket.Delivery.{Delivers, received, received-sent, SameShared}
use sib_tcp.Callbacks.{complete_with, complete_found, handle_subscription_ind}
use sib_tcp.Waiting.{run_event}
use sib_tcp.Subscription.{Saved, indication, unsubscribed, invalid, probe}
use sib_tcp.Subscription.Standing.{Stands}
use sib_tcp.Subscription.Waking.{WokenBlank, sub_wake-WokenBlank}
use sib_tcp.Subscription.Rounds.{Out, send_checked-Out}
use sib_tcp.Consistency.{Returns, Returns-continue, Returns-mono}
use sib_tcp.Interleaving.{
  Place, waiting, woken, filled, built, delivered, leaving, empty, over, own, other,
  current_response, leave_loop, ask_daemon, loop_step, run,
}

take_nil : (k : ℕ) → take {A = ℕ} k [] ≡ []
take_nil zero = refl
take_nil (suc k) = refl

-- The thread is about to read its response.
abbrev pub Reads : Place → Type 0
Reads filled = Unit
Reads (built invalid) = Unit
Reads (delivered false) = Unit
Reads leaving = Unit
Reads _ = ⊥

-- A getter is given NULL.
abbrev pub Crashes : {Msg A : Type 0} → Outcome Msg A → Type 0
Crashes (done a s) = ⊥
Crashes (fault e s) = e ≡ null_pointer
Crashes (stuck s) = ⊥

Returns-Crashes :
    {Msg A B : Type 0} (P : A → State Msg → Type 0) (o : Outcome Msg A) (f : A → M Msg B)
    → Returns P o
    → ((a : A) (t : State Msg) → P a t → Crashes (f a t))
    → Crashes (continue o f)
Returns-Crashes P (done a t) f h k = k a t h
Returns-Crashes P (fault e t) f h k = absurd h
Returns-Crashes P (stuck t) f h k = absurd h

-- What is left of an indication that came while another was sent: a blank went out after the text
-- of the other.
abbrev pub Overtaken :
    {Msg : Type 0} → ℕ → Bytes → Waiter Msg → State Msg → Place → State Msg → Type 0
Overtaken q text w s place t =
    (place ≡ waiting)
    × (received w.fd t.trace ≡ (received w.fd s.trace ++ text) ++ (b' ' ∷ []))
    × (t.heap q ≡ some (record w { req_ready = false; rsp = none }))
    × (t.subscriptions ≡ s.subscriptions)
    × (t.requests ≡ s.requests)

module _ {Msg : Type 0} (lib : Sibmsg Msg) (env : Env) (q : ℕ) (saved : Saved) where
  current_response_null :
      (s : State Msg) → WokenBlank q s → current_response q s ≡ fault null_pointer s
  unfolding current_response
  current_response_null s (w, e, blank, ready) = rw (e, blank) refl

  loop_step-Crashes :
      (place : Place) (s : State Msg)
      → Reads place
      → WokenBlank q s
      → Crashes (continue (loop_step lib env q saved place s) (run lib env q saved []))
  unfolding loop_step run leave_loop ask_daemon
  loop_step-Crashes filled s r h = rw (current_response_null s h) refl
  loop_step-Crashes (built invalid) s r h = rw (current_response_null s h) refl
  loop_step-Crashes (delivered false) s r h = rw (current_response_null s h) refl
  loop_step-Crashes leaving s r h = rw (current_response_null s h) refl
  loop_step-Crashes waiting s r h = elim r [ ]
  loop_step-Crashes woken s r h = elim r [ ]
  loop_step-Crashes (built (indication text)) s r h = elim r [ ]
  loop_step-Crashes (built (unsubscribed text)) s r h = elim r [ ]
  loop_step-Crashes (delivered true) s r h = elim r [ ]
  loop_step-Crashes empty s r h = elim r [ ]
  loop_step-Crashes over s r h = elim r [ ]

  -- A round of the waking thread just before the loop reads its response, from a consistent state
  -- where the subscription stands: the loop gives NULL to a getter of the library, wherever it is.
  pub wakes-Crashes :
      (subid : Bytes) (place : Place) (s : State Msg)
      → Reads place
      → Stands subid q s
      → Crashes (run lib env q saved (other wakes ∷ own ∷ []) place s)
  unfolding run run_event
  wakes-Crashes subid place s r h =
      Returns-Crashes (λ _ t. WokenBlank q t) _ _
        (sub_wake-WokenBlank s subid q h.consistent h.subscribed)
        λ _ t k. loop_step-Crashes place t r k

  module _ (space node : Bytes) (msgnum seqnum : ℤ) (subid : Bytes)
      (new obsolete : Option Bytes) where
    arrives :
        (w : Waiter Msg) (t : State Msg)
        → t.heap q ≡ some w
        → lookup subid t.subscriptions ≡ some q
        → run_event lib env (subscription_ind space node msgnum seqnum subid new obsolete) t
          ≡ done tt (record t {
            heap =
                update
                  (update t.heap q (
                    some (record w {
                      rsp =
                          some
                            (lib.new_subscription_ind space node msgnum seqnum subid new obsolete);
                    })))
                  q
                  (some (record w {
                    req_ready = true;
                    rsp =
                        some (lib.new_subscription_ind space node msgnum seqnum subid new obsolete);
                  }));
          })
    unfolding run_event handle_subscription_ind listener_get_subscription complete_found
        complete_with waiter_completed
    arrives w t here subscribed = rw (subscribed, here, ==_refl q) refl

    -- The thread after the text went out.
    after-Overtaken :
        (w : Waiter Msg) (t : State Msg)
        → t.heap q ≡ some w
        → lookup subid t.subscriptions ≡ some q
        → Delivers env w.fd
        → Returns (Overtaken q [] w t) (
            run lib env q saved
              (other (subscription_ind space node msgnum seqnum subid new obsolete)
                ∷ own
                ∷ own
                ∷ own
                ∷ own
                ∷ [])
              (delivered true)
              t)
    unfolding run loop_step probe send_some socket_broken
    after-Overtaken w t here subscribed d =
        let (k, e) = d.progress t.clock b' ' [] in
        rw
          (
            arrives w t here subscribed,
            ==_refl q,
            ==_refl q,
            ==_refl q,
            ==_refl q,
            ==_refl q,
            e,
            d.sound (t.clock + 1),
          )
          (
            refl,
            received-sent w.fd t.trace (b' ' ∷ take k []) ∙ rw (take_nil k, append-nil) refl,
            rw (==_refl q) refl,
            refl,
            refl,
          )

    -- An indication that comes while the text of another is being sent is lost: the loop takes it for
    -- the one that it has sent, and where its client was to get it, a blank goes out. It is supposed
    -- that the subscription is on the waiter, that the client's socket has no error and takes some of
    -- whatever it is given, and that the text has at most as many bytes as rounds are watched. The
    -- loop waits after that, with no response, and the tables are as they were.
    pub run-Overtaken :
        (text : Bytes) (w : Waiter Msg) (s : State Msg)
        → s.heap q ≡ some w
        → lookup subid s.subscriptions ≡ some q
        → Delivers env w.fd
        → length text ≤ env.rounds
        → Returns (Overtaken q text w s) (
            run lib env q saved
              (own
                ∷ other (subscription_ind space node msgnum seqnum subid new obsolete)
                ∷ own
                ∷ own
                ∷ own
                ∷ own
                ∷ [])
              (built (indication text))
              s)
    unfolding run loop_step
    run-Overtaken text w s here subscribed d few = rw here (
        Returns-continue
          (λ place t.
            (place ≡ delivered true)
            × (received w.fd t.trace ≡ received w.fd s.trace ++ text)
            × SameShared s t)
          (Overtaken q text w s) _ _
          (Returns-continue (Out lib env w.fd text s)
            (λ place t.
              (place ≡ delivered true)
              × (received w.fd t.trace ≡ received w.fd s.trace ++ text)
              × SameShared s t)
            _ _ (send_checked-Out lib env w.fd text s d few)
            λ out t x. (ap delivered x.0, x.1, x.2))
          λ place t x. rw x.0 (
            Returns-mono (Overtaken q [] w t) (Overtaken q text w s) _
              (after-Overtaken w t (rw x.2.heap here) (rw x.2.subscriptions subscribed) d)
              λ _ u y. (
                y.0,
                y.1 ∙ rw (append-nil, x.1) refl,
                y.2,
                y.3 ∙ x.2.subscriptions,
                y.4 ∙ x.2.requests,
              )))
