-- ===== src/State.antt =====
-- src/main.c, `Waiter` and `Listener`: the state that the threads of the program share, and the
-- actions on it. A waiter lives on a heap of cells, for the tables hold pointers to waiters that the
-- handlers use too; reading or writing a cell that has been freed is a fault.
use sib_tcp.Prelude.{ℕ, ◌+◌, Bool, Option, none, some, List, ◌∷◌, Bytes, ◌==◌, if◌then◌else◌}
use sib_tcp.Ssap.{Call}
use sib_tcp.Table.{Table}

-- `Waiter`; its lock and condition variable are the atomicity of the steps below.
pub record Waiter (Msg : Type 0) : Type 0 where
  pub req_ready : Bool
  pub fd : ℕ
  pub rsp : Option Msg
  pub subscription_id : Option Bytes
  pub key : Option Bytes

-- What the program does to the world outside, newest first.
pub data Action : Type 0 where
  dbus : Call → Action
  sent : (fd : ℕ) (buf : Bytes) → Action
  closed : (fd : ℕ) → Action

-- The shared part of `Listener` (its client table is in `Clients`), the heap of waiters, and the
-- number of calls made of the system so far.
pub record State (Msg : Type 0) : Type 0 where
  pub requests : Table
  pub subscriptions : Table
  pub heap : ℕ → Option (Waiter Msg)
  pub next : ℕ
  pub trace : List Action
  pub clock : ℕ

-- Undefined behaviour of the C program.
pub data Fault : Type 0 where
  use_after_free null_pointer out_of_bounds : Fault

-- How an action of one thread ends: it returns, it reads freed memory, or it never goes on (it
-- waits for a signal that does not come, or is still in a loop after the rounds that are watched).
pub data Outcome (Msg A : Type 0) : Type 0 where
  done : A → State Msg → Outcome Msg A
  fault : Fault → State Msg → Outcome Msg A
  stuck : State Msg → Outcome Msg A

abbrev pub M : Type 0 → Type 0 → Type 0
M Msg A = State Msg → Outcome Msg A

abbrev pub pure : {Msg A : Type 0} → A → M Msg A
pure a s = done a s

abbrev pub continue : {Msg A B : Type 0} → Outcome Msg A → (A → M Msg B) → Outcome Msg B
continue (done a s) f = f a s
continue (fault e s) f = fault e s
continue (stuck s) f = stuck s

infixl 5 ◌>>=◌ ◌>>◌
abbrev pub ◌>>=◌ : {Msg A B : Type 0} → M Msg A → (A → M Msg B) → M Msg B
◌>>=◌ m f s = continue (m s) f

abbrev pub ◌>>◌ : {Msg A B : Type 0} → M Msg A → M Msg B → M Msg B
m >> k = m >>= λ _. k

abbrev pub gets : {Msg A : Type 0} → (State Msg → A) → M Msg A
gets f s = done (f s) s

abbrev pub modify : {Msg : Type 0} → (State Msg → State Msg) → M Msg (Unit {0})
modify f s = done tt (f s)

-- Each question to the system is answered as of a time of its own.
abbrev pub tick : {Msg A : Type 0} → (ℕ → A) → M Msg A
tick f s = done (f s.clock) (record s { clock = s.clock + 1 })

abbrev pub emit : {Msg : Type 0} → Action → M Msg (Unit {0})
emit a = modify λ s. record s { trace = a ∷ s.trace }

abbrev pub update : {A : Type 0} → (ℕ → A) → ℕ → A → ℕ → A
update f p v q = if p == q then v else f q

-- `*p`.
abbrev pub at : {Msg A : Type 0} → Option (Waiter Msg) → (Waiter Msg → M Msg A) → M Msg A
at none f s = fault use_after_free s
at (some w) f s = f w s

abbrev pub load : {Msg : Type 0} → ℕ → M Msg (Waiter Msg)
load p s = at (s.heap p) pure s

abbrev pub store : {Msg : Type 0} → ℕ → (Waiter Msg → Waiter Msg) → M Msg (Unit {0})
store p f s = at (s.heap p) (λ w. modify λ t. record t { heap = update t.heap p (some (f w)) }) s
