-- ===== src/Clients.antt =====
-- src/main.c, `listener_thread`, `client_destroy` and the end of `client_handler_thread`: the table
-- of connected clients, which the accepting thread fills and the clients' own threads empty.
pub mod Connected
pub mod Steps
pub mod Serving
pub mod Looping
use sib_tcp.Prelude.{
  ℕ, zero, suc, ◌+◌, ◌-◌, Bool, true, false, Option, none, some, ℤ, pos, if◌then◌else◌, ltb,
}
use sib_tcp.State.{Fault, use_after_free, null_pointer, update}
use sib_tcp.Listener.{failed}
use sib_tcp.Client.{Client, client_new}

-- The rest of `Listener`, with what belongs to it: the clients on the heap, the thread pool, the
-- descriptors that this code has open, and what it tells the process.
pub record Clients : Type 0 where
  -- `lfd`, -1 where there is none
  pub lfd : ℤ
  -- the accept loop runs
  pub accepting : Bool
  -- `clients`: the client of a descriptor, by its address
  pub table : ℕ → Option ℕ
  pub heap : ℕ → Option Client
  pub next : ℕ
  -- how many handlers a client has, in the pool or in its queue
  pub handlers : ℕ → ℕ
  pub is_open : ℕ → Bool
  -- the global `listener` has been assigned
  pub listener : Bool
  -- `g_main_loop_quit (mainloop)` and `exit (1)`
  pub quit : Bool
  pub exited : Bool

-- Before the thread runs.
abbrev pub no_clients : Clients
no_clients = record {
  lfd = pos 0;
  accepting = false;
  table = λ _. none;
  heap = λ _. none;
  next = 0;
  handlers = λ _. 0;
  is_open = λ _. false;
  listener = false;
  quit = false;
  exited = false;
}

abbrev pub opened : ℕ → Clients → Clients
opened fd s = record s { is_open = update s.is_open fd true }

-- `close (fd)`
abbrev pub close_fd : ℕ → Clients → Clients
close_fd fd s = record s { is_open = update s.is_open fd false }

-- What the system answers when the socket is set up: `none` is -1, and so is `false`.
pub record Setup : Type 0 where
  pub socket : Option ℕ
  pub setsockopt : Bool
  pub bind : Bool
  pub listen : Bool

-- After a failed `bind` or `listen`.
give_up : ℕ → Clients → Clients
give_up fd s = record (close_fd fd s) { lfd = failed; quit = true }

-- `listener_thread`, up to its loop.
unfoldable pub listener_setup : Setup → Clients → Clients
unfolding give_up
listener_setup sys s = elim sys.socket [
  | none ↦ record s { lfd = failed }
  | some fd ↦
      let t = record (opened fd s) { lfd = pos fd } in
      if sys.setsockopt
      then (if sys.bind
          then (if sys.listen then record t { accepting = true } else give_up fd t)
          else give_up fd t)
      else record t { exited = true }
]

-- What the loop does with a client for a descriptor, `none` for NULL. The pool queues a client for
-- which it has no thread yet.
unfoldable pub insert_client : Option Client → ℕ → Clients → Clients
insert_client none fd s = close_fd fd s
insert_client (some c) fd s =
    let t = record s { heap = update s.heap s.next (some c); next = s.next + 1 } in
    elim (s.table fd) [
      | none ↦ record t {
        table = update s.table fd (some s.next);
        handlers = update s.handlers s.next (suc (s.handlers s.next));
      }
      | some _ ↦ close_fd fd t
    ]

-- The body of the loop, for what `accept` gives, and what `client_new` finds of memory.
unfoldable pub accept_round : Option ℕ → Bool → Bool → Clients → Clients
unfolding insert_client client_new
accept_round none self buffer s = record s { accepting = false }
accept_round (some fd) self buffer s = insert_client (client_new self buffer fd) fd (opened fd s)

-- How a call ends: it returns, or the program crashes.
pub data Ended : Type 0 where
  ended : Clients → Ended
  crashed : Fault → Ended

unfoldable pub client_destroy : ℕ → Clients → Ended
client_destroy p s = elim (s.heap p) [
  | none ↦ crashed use_after_free
  | some c ↦
      ended (record (if ltb 0 c.fd then close_fd c.fd s else s) { heap = update s.heap p none })
]

-- `g_hash_table_remove (listener->clients, …)`, where the table owns its values.
unfoldable remove_client : ℕ → Clients → Ended
unfolding client_destroy
remove_client fd s = elim (s.table fd) [
  | none ↦ ended s
  | some p ↦ client_destroy p (record s { table = update s.table fd none })
]

-- What the handler of the client `p` does after its loop.
unfoldable pub handler_end : ℕ → Clients → Ended
unfolding remove_client
handler_end p s =
    if s.listener
    then elim (s.heap p) [
      | none ↦ crashed use_after_free
      | some c ↦ remove_client c.fd (record s { handlers = update s.handlers p (s.handlers p - 1) })
    ]
    else crashed null_pointer
