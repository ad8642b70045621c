-- ===== src/Clients/Connected.antt =====
-- What holds of the connected clients between two steps of the threads.
use sib_tcp.Prelude.{ℕ, ◌≤◌, ◌<◌, ◌≡◌, ◌⊎◌, Bool, true, false, none, some, pos}
use sib_tcp.Client.{Client}
use sib_tcp.Clients.{
  Clients, Setup, no_clients, close_fd, listener_setup, accept_round, ended, handler_end,
}

-- A step of one of the threads: the accepting thread, which gets a descriptor that is not open, the
-- main thread, which assigns `listener`, or the handler of a client, which comes to its end, or closes
-- the client's socket before it, as `listener_handle_subscribe` does with a refused subscription.
pub data Step (s : Clients) : Clients → Type 0 where
  accepts :
      (fd : ℕ) (self buffer : Bool)
      → s.accepting ≡ true
      → s.is_open fd ≡ false
      → Step s (accept_round (some fd) self buffer s)
  accept_fails : s.accepting ≡ true → Step s (accept_round none true true s)
  assigns : Step s (record s { listener = true })
  closes : (p : ℕ) (c : Client) → 0 < s.handlers p → s.heap p ≡ some c → Step s (close_fd c.fd s)
  returns : (p : ℕ) (t : Clients) → 0 < s.handlers p → handler_end p s ≡ ended t → Step s t

-- The states that the threads can come to, however they take turns.
pub data Reachable : Clients → Type 0 where
  begin : (sys : Setup) → Reachable (listener_setup sys no_clients)
  further : (s t : Clients) → Reachable s → Step s t → Reachable t

-- Any number of steps.
pub data Steps (s : Clients) : Clients → Type 0 where
  here : Steps s s
  step : (t u : Clients) → Steps s t → Step t u → Steps s u

-- The clients that have a handler are the table's, each with one handler; no descriptor is open but
-- those of the table, the listening one, and 0, which `client_destroy` does not close.
pub record IsConnected (s : Clients) : Type 0 where
  pub known : (fd : ℕ) → s.is_open fd ≡ true → s.table fd ≡ none → (fd ≡ 0) ⊎ (s.lfd ≡ pos fd)
  pub client : (fd p : ℕ) → s.table fd ≡ some p → (c : Client) × (s.heap p ≡ some c) × (c.fd ≡ fd)
  pub served : (fd p : ℕ) → s.table fd ≡ some p → s.handlers p ≡ 1
  pub entry : (p : ℕ) (c : Client) → s.heap p ≡ some c → 0 < s.handlers p → s.table c.fd ≡ some p
  pub unserved : (p : ℕ) → s.heap p ≡ none → s.handlers p ≡ 0
  pub fresh : (p : ℕ) → s.next ≤ p → s.heap p ≡ none
