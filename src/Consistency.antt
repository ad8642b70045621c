-- ===== src/Consistency.antt =====
-- The shared state of src/main.c is consistent: the tables point to waiters that have not been
-- freed, each waiter stands in at most one of them, and once.
pub mod Steps
pub mod Events
use sib_tcp.Prelude.{ℕ, ◌+◌, ◌≤◌, ◌≡◌, Option, none, some}
use sib_tcp.Table.Uses.{uses}
use sib_tcp.State.{State, M, Waiter, Outcome, done, fault, stuck, continue, use_after_free}

abbrev pub live : {Msg : Type 0} → Option (Waiter Msg) → ℕ
live none = 0
live (some w) = 1

pub record IsConsistent {Msg : Type 0} (s : State Msg) : Type 0 where
  pub owned : (p : ℕ) → uses p s.requests + uses p s.subscriptions ≤ live (s.heap p)
  pub fresh : (p : ℕ) → s.next ≤ p → s.heap p ≡ none

-- The action returns, in a state with `P`.
abbrev pub Returns : {Msg A : Type 0} → (A → State Msg → Type 0) → Outcome Msg A → Type 0
Returns P (done a s) = P a s
Returns P (fault e s) = ⊥
Returns P (stuck s) = ⊥

-- The action keeps the state consistent, and returns.
abbrev pub Keeps : {Msg A : Type 0} → M Msg A → Type 0
Keeps {Msg} m = (s : State Msg) → IsConsistent s → Returns (λ _ t. IsConsistent t) (m s)

pub Returns-continue :
    {Msg A B : Type 0} (P : A → State Msg → Type 0) (Q : B → State Msg → Type 0) (o : Outcome Msg A)
    (f : A → M Msg B)
    → Returns P o
    → ((a : A) (t : State Msg) → P a t → Returns Q (f a t))
    → Returns Q (continue o f)
Returns-continue P Q (done a t) f h k = k a t h
Returns-continue P Q (fault e t) f h k = absurd h
Returns-continue P Q (stuck t) f h k = absurd h

pub Returns-mono :
    {Msg A : Type 0} (P Q : A → State Msg → Type 0) (o : Outcome Msg A)
    → Returns P o
    → ((a : A) (t : State Msg) → P a t → Q a t)
    → Returns Q o
Returns-mono P Q (done a t) h k = k a t h
Returns-mono P Q (fault e t) h k = absurd h
Returns-mono P Q (stuck t) h k = absurd h

pub Returns-both :
    {Msg A : Type 0} (P Q : A → State Msg → Type 0) (o : Outcome Msg A)
    → Returns P o
    → Returns Q o
    → Returns (λ a t. P a t × Q a t) o
Returns-both P Q (done a t) h k = (h, k)
Returns-both P Q (fault e t) h k = absurd h
Returns-both P Q (stuck t) h k = absurd h

-- The action reads freed memory, and what was done up to then has `P`.
abbrev pub Faults : {Msg A : Type 0} → (State Msg → Type 0) → Outcome Msg A → Type 0
Faults P (done a s) = ⊥
Faults P (fault e s) = (e ≡ use_after_free) × P s
Faults P (stuck s) = ⊥

-- If the action returns, then with `P`.
abbrev pub IfDone : {Msg A : Type 0} → (A → State Msg → Type 0) → Outcome Msg A → Type 0
IfDone P (done a s) = P a s
IfDone P (fault e s) = Unit
IfDone P (stuck s) = Unit

pub IfDone-continue :
    {Msg A B : Type 0} (P : A → State Msg → Type 0) (Q : B → State Msg → Type 0) (o : Outcome Msg A)
    (f : A → M Msg B)
    → IfDone P o
    → ((a : A) (t : State Msg) → P a t → IfDone Q (f a t))
    → IfDone Q (continue o f)
IfDone-continue P Q (done a t) f h k = k a t h
IfDone-continue P Q (fault e t) f h k = tt
IfDone-continue P Q (stuck t) f h k = tt

pub Returns-and_done :
    {Msg A : Type 0} (P Q R : A → State Msg → Type 0) (o : Outcome Msg A)
    → Returns P o
    → IfDone Q o
    → ((a : A) (t : State Msg) → P a t → Q a t → R a t)
    → Returns R o
Returns-and_done P Q R (done a t) h k j = j a t h k
Returns-and_done P Q R (fault e t) h k j = absurd h
Returns-and_done P Q R (stuck t) h k j = absurd h

-- The action reads no freed memory and no null pointer, and if it returns, then with `P`.
abbrev pub Safely : {Msg A : Type 0} → (A → State Msg → Type 0) → Outcome Msg A → Type 0
Safely P (done a s) = P a s
Safely P (fault e s) = ⊥
Safely P (stuck s) = Unit

pub Safely-continue :
    {Msg A B : Type 0} (P : A → State Msg → Type 0) (Q : B → State Msg → Type 0) (o : Outcome Msg A)
    (f : A → M Msg B)
    → Safely P o
    → ((a : A) (t : State Msg) → P a t → Safely Q (f a t))
    → Safely Q (continue o f)
Safely-continue P Q (done a t) f h k = k a t h
Safely-continue P Q (fault e t) f h k = absurd h
Safely-continue P Q (stuck t) f h k = tt

pub Returns-Safely :
    {Msg A : Type 0} (P Q : A → State Msg → Type 0) (o : Outcome Msg A)
    → Returns P o
    → ((a : A) (t : State Msg) → P a t → Q a t)
    → Safely Q o
Returns-Safely P Q (done a t) h k = k a t h
Returns-Safely P Q (fault e t) h k = absurd h
Returns-Safely P Q (stuck t) h k = absurd h

pub Safely-and_done :
    {Msg A : Type 0} (P Q R : A → State Msg → Type 0) (o : Outcome Msg A)
    → Safely P o
    → IfDone Q o
    → ((a : A) (t : State Msg) → P a t → Q a t → R a t)
    → Safely R o
Safely-and_done P Q R (done a t) h k j = j a t h k
Safely-and_done P Q R (fault e t) h k j = absurd h
Safely-and_done P Q R (stuck t) h k j = tt
