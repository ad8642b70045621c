-- ===== src/Listener.antt =====
-- src/main.c, `listener_add_request` to `listener_remove_subscription`: the table of pending
-- requests, by request key, and the table of subscriptions, by subscription id. Both were made with
-- `waiter_destroy` for their values, so that a removal frees the waiter. A result is the C `int`.
use sib_tcp.Prelude.{ℕ, Option, none, some, ℤ, pos, negsuc, Bytes}
use sib_tcp.Key.{get_request_key}
use sib_tcp.Table.{lookup, insert, remove}
use sib_tcp.State.{M, pure, gets, modify, store, ◌>>=◌, ◌>>◌}
use sib_tcp.Waiters.{waiter_destroy}

abbrev pub succeeded : ℤ
succeeded = pos 0

-- -1
abbrev pub failed : ℤ
failed = negsuc 0

module _ {Msg : Type 0} where
  unfoldable pub listener_get_request : Bytes → ℤ → M Msg (Option ℕ)
  listener_get_request nodeid msgid = gets λ s. lookup (get_request_key nodeid msgid) s.requests

  unfoldable pub listener_add_request : Bytes → ℤ → ℕ → M Msg ℤ
  listener_add_request nodeid msgid p = do
    let key = get_request_key nodeid msgid
    found ← gets λ s. lookup key s.requests
    elim found [
      | none ↦ do
        modify λ s. record s { requests = insert key p s.requests }
        store p λ w. record w { key = some key }
        pure succeeded
      | some _ ↦ pure failed
    ]

  unfoldable pub listener_remove_request : Bytes → ℤ → M Msg ℤ
  listener_remove_request nodeid msgid = do
    let key = get_request_key nodeid msgid
    found ← gets λ s. lookup key s.requests
    elim found [
      | none ↦ pure failed
      | some p ↦ do
        modify λ s. record s { requests = remove key s.requests }
        waiter_destroy p
        pure succeeded
    ]

  unfoldable pub listener_get_subscription : Bytes → M Msg (Option ℕ)
  listener_get_subscription subid = gets λ s. lookup subid s.subscriptions

  unfoldable pub listener_add_subscription : Bytes → ℕ → M Msg ℤ
  listener_add_subscription subid p = do
    found ← gets λ s. lookup subid s.subscriptions
    elim found [
      | none ↦ do
        modify λ s. record s { subscriptions = insert subid p s.subscriptions }
        store p λ w. record w { key = some subid }
        pure succeeded
      | some _ ↦ pure failed
    ]

  unfoldable pub listener_remove_subscription : Bytes → M Msg ℤ
  listener_remove_subscription subid = do
    found ← gets λ s. lookup subid s.subscriptions
    elim found [
      | none ↦ pure failed
      | some p ↦ do
        modify λ s. record s { subscriptions = remove subid s.subscriptions }
        waiter_destroy p
        pure succeeded
    ]
