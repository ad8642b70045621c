-- ===== src/Callbacks.antt =====
-- src/main.c, `handle_*_cnf`, `handle_*_ind` and `sub_wake_thread`: what the other threads do to a
-- waiter. Each handler is one step here. The code holds the waiter's lock from the store of the
-- response to the signal; before that, between the lookup, which is under the table's lock, and
-- the lock of the waiter, it holds neither, so that the waiter may be freed there. A handler cut
-- in two at that place is `complete_found` in a state later than that of its lookup.
use sib_tcp.Prelude.{ℕ, true, Option, none, some, [], ◌∷◌, ℤ, Bytes}
use sib_tcp.Ssap.{Sibmsg}
use sib_tcp.Table.{Table}
use sib_tcp.State.{M, pure, gets, store, ◌>>=◌, ◌>>◌}
use sib_tcp.Waiters.{waiter_completed}
use sib_tcp.Listener.{listener_get_request, listener_get_subscription}

module _ {Msg : Type 0} where
  -- `waiter->rsp = rsp; waiter_completed (waiter);`
  unfoldable pub complete_with : Msg → ℕ → M Msg (Unit {0})
  unfolding waiter_completed
  complete_with rsp p = do store p λ w. record w { rsp = some rsp }; waiter_completed p

  -- `if (waiter) { … } else { … }`, whose other branch only logs
  unfoldable pub complete_found : Msg → Option ℕ → M Msg (Unit {0})
  unfolding complete_with
  complete_found rsp none = pure tt
  complete_found rsp (some p) = complete_with rsp p

  -- One round of the loop over the table: every subscriber is woken, with no message.
  unfoldable pub wake_all : Table → M Msg (Unit {0})
  wake_all [] = pure tt
  wake_all ((subid, p) ∷ t) = do store p λ w. record w { rsp = none; req_ready = true }; wake_all t

  unfoldable pub sub_wake_thread : M Msg (Unit {0})
  unfolding wake_all
  sub_wake_thread = do t ← gets λ s. s.subscriptions; wake_all t

module _ {Msg : Type 0} (lib : Sibmsg Msg) where
  unfoldable pub handle_join_cnf : Bytes → Bytes → ℤ → ℤ → M Msg (Unit {0})
  unfolding complete_found listener_get_request
  handle_join_cnf space node msgnum success = do
    waiter ← listener_get_request node msgnum
    complete_found (lib.new_join_rsp space node msgnum success) waiter

  unfoldable pub handle_leave_cnf : Bytes → Bytes → ℤ → ℤ → M Msg (Unit {0})
  unfolding complete_found listener_get_request
  handle_leave_cnf space node msgnum success = do
    waiter ← listener_get_request node msgnum
    complete_found (lib.new_leave_rsp space node msgnum success) waiter

  unfoldable pub handle_insert_cnf : Bytes → Bytes → ℤ → ℤ → Option Bytes → M Msg (Unit {0})
  unfolding complete_found listener_get_request
  handle_insert_cnf space node msgnum success bnodes = do
    waiter ← listener_get_request node msgnum
    complete_found (lib.new_insert_rsp space node msgnum success bnodes) waiter

  unfoldable pub handle_remove_cnf : Bytes → Bytes → ℤ → ℤ → M Msg (Unit {0})
  unfolding complete_found listener_get_request
  handle_remove_cnf space node msgnum success = do
    waiter ← listener_get_request node msgnum
    complete_found (lib.new_remove_rsp space node msgnum success) waiter

  unfoldable pub handle_update_cnf : Bytes → Bytes → ℤ → ℤ → Option Bytes → M Msg (Unit {0})
  unfolding complete_found listener_get_request
  handle_update_cnf space node msgnum success bnodes = do
    waiter ← listener_get_request node msgnum
    complete_found (lib.new_update_rsp space node msgnum success bnodes) waiter

  unfoldable pub handle_query_cnf : Bytes → Bytes → ℤ → ℤ → Option Bytes → M Msg (Unit {0})
  unfolding complete_found listener_get_request
  handle_query_cnf space node msgnum success results = do
    waiter ← listener_get_request node msgnum
    complete_found (lib.new_query_rsp space node msgnum success results) waiter

  unfoldable pub handle_subscribe_cnf :
      Bytes → Bytes → ℤ → ℤ → Bytes → Option Bytes → M Msg (Unit {0})
  unfolding complete_found listener_get_request
  handle_subscribe_cnf space node msgnum success subid results = do
    waiter ← listener_get_request node msgnum
    complete_found (lib.new_subscribe_rsp space node msgnum success subid results) waiter

  unfoldable pub handle_subscription_ind :
      Bytes → Bytes → ℤ → ℤ → Bytes → Option Bytes → Option Bytes → M Msg (Unit {0})
  unfolding complete_found listener_get_subscription
  handle_subscription_ind space node msgnum seqnum subid new obsolete = do
    waiter ← listener_get_subscription subid
    complete_found (lib.new_subscription_ind space node msgnum seqnum subid new obsolete) waiter

  -- The two branches under `if (subwaiter)`: the confirmation goes to the subscriber, or, where
  -- there is none, a failure goes to the thread that asked.
  unfoldable pub confirm_subscriber :
      ℕ → Option ℕ → Bytes → Bytes → ℤ → ℤ → Bytes → M Msg (Unit {0})
  unfolding complete_with
  confirm_subscriber waiter (some subwaiter) space node msgnum status subid =
      complete_with (lib.new_unsubscribe_rsp space node msgnum status subid) subwaiter
  confirm_subscriber waiter none space node msgnum status subid = store waiter λ w. record w {
    rsp = some (lib.new_unsubscribe_rsp space node msgnum lib.ss_operation_failed subid);
  }

  unfoldable pub handle_unsubscribe_cnf : Bytes → Bytes → ℤ → ℤ → Bytes → M Msg (Unit {0})
  unfolding confirm_subscriber listener_get_request listener_get_subscription
  handle_unsubscribe_cnf space node msgnum status subid = do
    waiter ← listener_get_request node msgnum
    elim waiter [
      | none ↦ pure tt
      | some p ↦ do
        subwaiter ← listener_get_subscription subid
        confirm_subscriber p subwaiter space node msgnum status subid
        waiter_completed p
    ]

-- They do nothing with their arguments.
abbrev pub handle_unsubscribe_ind : {Msg : Type 0} → M Msg (Unit {0})
handle_unsubscribe_ind = pure tt

abbrev pub handle_leave_ind : {Msg : Type 0} → M Msg (Unit {0})
handle_leave_ind = pure tt
