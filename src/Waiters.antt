-- ===== src/Waiters.antt =====
-- src/main.c, `waiter_*`: the rendezvous of a thread that waits with the handler that completes it.
use sib_tcp.Prelude.{ℕ, ◌+◌, true, false, Option, none, some, if◌then◌else◌}
use sib_tcp.State.{Waiter, M, done, pure, modify, tick, load, store, update, ◌>>=◌, ◌>>◌}
use sib_tcp.World.{Env}

abbrev fresh_waiter : {Msg : Type 0} → ℕ → Waiter Msg
fresh_waiter fd = record {
  fd = fd;
  req_ready = false;
  rsp = none;
  subscription_id = none;
  key = none;
}

allocate : {Msg : Type 0} → ℕ → M Msg (Option ℕ)
allocate fd s =
    done (some s.next)
      (record s { heap = update s.heap s.next (some (fresh_waiter fd)); next = s.next + 1 })

-- `none` is NULL.
unfoldable pub waiter_new : {Msg : Type 0} → Env → ℕ → M Msg (Option ℕ)
unfolding allocate
waiter_new env fd = do granted ← tick env.allocates; if granted then allocate fd else pure none

-- Called with the lock held.
unfoldable pub waiter_completed : {Msg : Type 0} → ℕ → M Msg (Unit {0})
waiter_completed p = store p λ w. record w { req_ready = true }

unfoldable pub waiter_destroy : {Msg : Type 0} → ℕ → M Msg (Unit {0})
waiter_destroy p = do load p; modify λ s. record s { heap = update s.heap p none }
