-- ===== src/Interleaving.antt =====
-- src/main.c, the sending loop of `listener_handle_subscribe`, in the steps between which other
-- threads run: `subwaiter->rsp` is read afresh in each, without the waiter's lock. A step of another
-- thread is a whole `Event`, or the second half of a handler of an indication that has looked the
-- waiter up before.
pub mod Loaded
pub mod Places
pub mod Stepping
pub mod Safety
pub mod Loss
use sib_tcp.Prelude.{ℕ, ℤ, Option, Bool, true, false, none, some, List, [], ◌∷◌, Bytes}
use sib_tcp.Ssap.{Sibmsg, send_unsubscribe}
use sib_tcp.World.{Env, Event}
use sib_tcp.State.{M, fault, null_pointer, pure, load, store, tick, ◌>>=◌, ◌>>◌}
use sib_tcp.Listener.{listener_remove_subscription}
use sib_tcp.Request.{call_daemon}
use sib_tcp.Callbacks.{complete_found}
use sib_tcp.Waiting.{run_event}
use sib_tcp.Subscription.{
  Saved, Arrival, indication, unsubscribed, invalid, Next, again, finished, arrival_of,
  send_checked, probe,
}

-- Where the thread of a subscription is.
pub data Place : Type 0 where
  -- in `waiter_wait_for_finished (subwaiter)`
  waiting : Place
  -- at `if (subwaiter->rsp)`
  woken : Place
  -- at the conditions on the response, and the text for it
  filled : Place
  -- in a branch with its text
  built : Arrival → Place
  -- after the indication, and whether it went out
  delivered : Bool → Place
  -- at `listener_remove_subscription (…, subwaiter->rsp)`
  leaving : Place
  -- in the branch for no response
  empty : Place
  -- after the loop
  over : Place

-- A step of this thread, or one of another, or time that passes, or what `handle_subscription_ind`
-- does with this thread's waiter, which it has looked up at some time before.
pub data Turn : Type 0 where
  own : Turn
  other : Event → Turn
  later : Turn
  completes :
      (space node : Bytes) (msgnum seqnum : ℤ) (subid : Bytes) (new obsolete : Option Bytes) → Turn

abbrev pub place_of : Next → Place
place_of again = waiting
place_of finished = over

-- `subwaiter->rsp`, given to a getter of the library, which has a value only where there is a
-- response.
unfoldable pub current_response : {Msg : Type 0} → ℕ → M Msg Msg
current_response q = do w ← load q; elim w.rsp [ none ↦ fault null_pointer | some rsp ↦ pure rsp ]

module _ {Msg : Type 0} (lib : Sibmsg Msg) (env : Env) (q : ℕ) (saved : Saved) where
  open lib use {get_nodeid, get_spaceid, get_msgnumber, get_subscriptionid}

  unfoldable pub leave_loop : M Msg Place
  unfolding current_response
  leave_loop = do
    rsp ← current_response q
    listener_remove_subscription (get_subscriptionid rsp)
    pure over

  -- "AUTO UNSUB", after an indication that did not go out.
  unfoldable pub ask_daemon : M Msg Place
  unfolding current_response
  ask_daemon = do
    rsp ← current_response q
    call_daemon lib env (
        send_unsubscribe (get_spaceid rsp) (get_nodeid rsp) (get_msgnumber rsp)
          (get_subscriptionid rsp))
    pure leaving

  unfoldable pub loop_step : Place → M Msg Place
  unfolding leave_loop ask_daemon
  loop_step waiting = do
    w ← load q
    elim w.req_ready [
      | true ↦ do store q λ v. record v { req_ready = false }; pure woken
      | false ↦ pure waiting
    ]
  loop_step woken = do w ← load q; elim w.rsp [ none ↦ pure empty | some rsp ↦ pure filled ]
  loop_step filled = do
    rsp ← current_response q
    pure (built (arrival_of lib env (lib.get_name rsp) (lib.get_type rsp) rsp))
  loop_step (built (indication text)) = do
    w ← load q
    out ← send_checked lib env w.fd text
    pure (delivered out)
  loop_step (built (unsubscribed text)) = do
    w ← load q
    send_checked lib env w.fd text
    pure leaving
  loop_step (built invalid) = leave_loop
  loop_step (delivered true) = do store q λ w. record w { rsp = none }; pure waiting
  loop_step (delivered false) = ask_daemon
  loop_step leaving = leave_loop
  loop_step empty = do w ← load q; next ← probe lib env w.fd saved; pure (place_of next)
  loop_step over = pure over

  -- Any interleaving.
  unfoldable pub run : List Turn → Place → M Msg Place
  unfolding loop_step complete_found
  run [] place = pure place
  run (own ∷ turns) place = do next ← loop_step place; run turns next
  run (other e ∷ turns) place = do run_event lib env e; run turns place
  run (later ∷ turns) place = do tick λ _. tt; run turns place
  run (completes space node msgnum seqnum subid new obsolete ∷ turns) place = do
    complete_found (lib.new_subscription_ind space node msgnum seqnum subid new obsolete) (some q)
    run turns place
