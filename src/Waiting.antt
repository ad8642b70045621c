-- ===== src/Waiting.antt =====
-- src/main.c, `waiter_wait_for_finished`, and what runs while a thread waits.
pub mod Registering
pub mod Pending
pub mod Timed
use sib_tcp.Prelude.{
  ℕ, Bool, true, false, Option, none, some, List, [], ◌∷◌, ℤ, pos, negsuc, Bytes, if◌then◌else◌,
  is_neg,
}
use sib_tcp.Ssap.{Sibmsg}
use sib_tcp.World.{
  Event, Env, join_cnf, leave_cnf, insert_cnf, remove_cnf, update_cnf, query_cnf, subscribe_cnf,
  subscription_ind, unsubscribe_cnf, unsubscribe_ind, leave_ind, wakes, adds_request,
  removes_request, adds_subscription, removes_subscription,
}
use sib_tcp.State.{M, fault, null_pointer, stuck, pure, load, store, tick, ◌>>=◌, ◌>>◌}
use sib_tcp.Waiters.{waiter_new, waiter_destroy}
use sib_tcp.Listener.{
  listener_add_request, listener_remove_request, listener_add_subscription,
  listener_remove_subscription,
}
use sib_tcp.Callbacks.{
  sub_wake_thread, handle_join_cnf, handle_leave_cnf, handle_insert_cnf, handle_remove_cnf,
  handle_update_cnf, handle_query_cnf, handle_subscribe_cnf, handle_subscription_ind,
  handle_unsubscribe_cnf, handle_unsubscribe_ind, handle_leave_ind,
}

-- `waiter_new`, registration by `add`, and `waiter_destroy` where that fails: how every request
-- handler begins. The result is the waiter that is registered now, if any.
module _ {Msg : Type 0} (env : Env) where
  unfoldable pub keep_or_destroy : ℕ → ℤ → M Msg (Option ℕ)
  unfolding waiter_destroy
  keep_or_destroy p ret = if is_neg ret then (do waiter_destroy p; pure none) else pure (some p)

  unfoldable pub registered : (ℕ → M Msg ℤ) → Option ℕ → M Msg (Option ℕ)
  unfolding keep_or_destroy
  registered add none = pure none
  registered add (some p) = do ret ← add p; keep_or_destroy p ret

  unfoldable pub register_waiter : ℕ → (ℕ → M Msg ℤ) → M Msg (Option ℕ)
  unfolding waiter_new registered
  register_waiter fd add = do waiter ← waiter_new env fd; registered add waiter

  -- `subwaiter = waiter_new (client->fd)`, which is not tested, and its registration. The pointer is
  -- given back also where the registration failed and the waiter is gone, as the handler keeps it.
  unfoldable pub register_subscriber : ℕ → Bytes → M Msg (ℕ × ℤ)
  unfolding waiter_new waiter_destroy
  register_subscriber fd subid = do
    waiter ← waiter_new env fd
    elim waiter [
      | none ↦ fault null_pointer
      | some p ↦ do
        ret ← listener_add_subscription subid p
        elim (is_neg ret) [ true ↦ do waiter_destroy p; pure (p, ret) | false ↦ pure (p, ret) ]
    ]

module _ {Msg : Type 0} (lib : Sibmsg Msg) (env : Env) where
  unfoldable pub run_event : Event → M Msg (Unit {0})
  run_event (join_cnf space node msgnum success) = handle_join_cnf lib space node msgnum success
  run_event (leave_cnf space node msgnum success) = handle_leave_cnf lib space node msgnum success
  run_event (remove_cnf space node msgnum success) = handle_remove_cnf lib space node msgnum success
  run_event (insert_cnf space node msgnum success b) =
      handle_insert_cnf lib space node msgnum success b
  run_event (update_cnf space node msgnum success b) =
      handle_update_cnf lib space node msgnum success b
  run_event (query_cnf space node msgnum success r) =
      handle_query_cnf lib space node msgnum success r
  run_event (subscribe_cnf space node msgnum success subid r) =
      handle_subscribe_cnf lib space node msgnum success subid r
  run_event (subscription_ind space node msgnum seqnum subid new obsolete) =
      handle_subscription_ind lib space node msgnum seqnum subid new obsolete
  run_event (unsubscribe_cnf space node msgnum status subid) =
      handle_unsubscribe_cnf lib space node msgnum status subid
  run_event unsubscribe_ind = handle_unsubscribe_ind
  run_event leave_ind = handle_leave_ind
  run_event wakes = sub_wake_thread
  run_event (adds_request node msgnum fd) = do
    register_waiter env fd (listener_add_request node msgnum)
    pure tt
  run_event (removes_request node msgnum) = do listener_remove_request node msgnum; pure tt
  run_event (adds_subscription subid fd) = do register_subscriber env fd subid; pure tt
  run_event (removes_subscription subid) = do listener_remove_subscription subid; pure tt

  unfoldable pub run_events : List Event → M Msg (Unit {0})
  run_events [] = pure tt
  run_events (e ∷ es) = do run_event e; run_events es

  -- `while (!req_ready) g_cond_wait (cond, lock); req_ready = FALSE;` Each element of the list is
  -- what the others do before this thread holds the lock for the next time.
  unfoldable pub wait_rounds : List (List Event) → ℕ → M Msg (Unit {0})
  wait_rounds [] p = stuck
  wait_rounds (es ∷ rest) p = do
    run_events es
    w ← load p
    elim w.req_ready [
      | true ↦ store p λ v. record v { req_ready = false }
      | false ↦ wait_rounds rest p
    ]

  unfoldable pub waiter_wait_for_finished : ℕ → M Msg (Unit {0})
  waiter_wait_for_finished p = do others ← tick env.waits; wait_rounds others p

  -- What the others do in one wait, which also ends by itself.
  unfoldable pub in_one_wait : List (List Event) → M Msg (Unit {0})
  in_one_wait [] = pure tt
  in_one_wait (es ∷ rest) = run_events es

  -- `woken` tells whether `g_cond_timed_wait` was woken in time. It waits at most once, for the
  -- loop ends when `ret` is not -1 any more.
  unfoldable pub waiter_timed_wait_for_finished : (ℕ → Bool) → ℕ → M Msg ℤ
  unfolding in_one_wait
  waiter_timed_wait_for_finished woken p = do
    w ← load p
    ret ← elim w.req_ready [
      | true ↦ pure (negsuc 0)
      | false ↦ do
        others ← tick env.waits
        in_one_wait others
        in_time ← tick woken
        pure (if in_time then pos 1 else pos 0)
    ]
    store p λ v. record v { req_ready = false }
    pure ret
