-- ===== src/Clients/Serving.antt =====
-- What becomes of a connection: how the accept loop takes it, and how its handler leaves it.
use sib_tcp.Prelude.{
  ℕ, suc, ◌<◌, ◌≡◌, ◌≢◌, refl, ap, ◌⊎◌, inl, inr, Bool, true, false, ◌&&◌, none, some, arith,
  Bool-cases, Option-cases, ==_refl, ltb,
}
use sib_tcp.State.{null_pointer}
use sib_tcp.Client.{Client, fresh_client, client_new}
use sib_tcp.Clients.{
  Clients, opened, close_fd, insert_client, accept_round, Ended, ended, crashed, handler_end,
}
use sib_tcp.Clients.Connected.{IsConnected, Reachable}
use sib_tcp.Clients.Steps.{gone, Reachable-IsConnected, handler_end-gone, handler_end-crashed}

-- `s` and `t` agree on the clients but for those at `fd` and `p`.
pub record SameElsewhere (fd p : ℕ) (s t : Clients) : Type 0 where
  pub accepting : t.accepting ≡ s.accepting
  pub table : (g : ℕ) → g ≢ fd → t.table g ≡ s.table g
  pub is_open : (g : ℕ) → g ≢ fd → t.is_open g ≡ s.is_open g
  pub heap : (q : ℕ) → q ≢ p → t.heap q ≡ s.heap q
  pub handlers : (q : ℕ) → q ≢ p → t.handlers q ≡ s.handlers q

-- A new client at the address `p` has the connection, and one handler is to serve it.
pub record IsServed (fd p : ℕ) (t : Clients) : Type 0 where
  pub entry : t.table fd ≡ some p
  pub client : t.heap p ≡ some (fresh_client fd)
  pub handlers : t.handlers p ≡ 1
  pub socket : t.is_open fd ≡ true

-- Nothing is left at `fd` and `p`.
pub record IsGone (fd p : ℕ) (t : Clients) : Type 0 where
  pub entry : t.table fd ≡ none
  pub client : t.heap p ≡ none
  pub handlers : t.handlers p ≡ 0
  pub socket : 0 < fd → t.is_open fd ≡ false

-- The connection was closed, and got no entry and no handler.
pub record IsRefused (fd : ℕ) (s t : Clients) : Type 0 where
  pub table : t.table ≡ s.table
  pub handlers : t.handlers ≡ s.handlers
  pub socket : t.is_open fd ≡ false

-- A client is in memory for which there is no entry and no handler.
abbrev pub Leaked : ℕ → ℕ → Clients → Type 0
Leaked fd p t =
    (t.heap p ≡ some (fresh_client fd)) × (t.handlers p ≡ 0) × ((g : ℕ) → t.table g ≢ some p)

abbrev pub Accepted : ℕ → Bool → Clients → Clients → Type 0
Accepted fd memory s t =
    SameElsewhere fd s.next s t
    × (((memory ≡ true) × (s.table fd ≡ none) × IsServed fd s.next t)
        ⊎ (((memory ≡ false) × IsRefused fd s t × (t.heap ≡ s.heap))
            ⊎ ((memory ≡ true) × (s.table fd ≢ none) × IsRefused fd s t × Leaked fd s.next t)))

abbrev pub Left : ℕ → Clients → Ended → Type 0
Left p s e =
    ((s.listener ≡ false) × (e ≡ crashed null_pointer))
    ⊎ ((s.listener ≡ true)
        × (c : Client) × (s.heap p ≡ some c)
        × (t : Clients) × (e ≡ ended t)
        × IsGone c.fd p t
        × SameElsewhere c.fd p s t)

module _ (s : Clients) (h : IsConnected s) where
  refused-Accepted :
      (fd : ℕ) → s.is_open fd ≡ false → Accepted fd false s (close_fd fd (opened fd s))
  refused-Accepted fd shut = (
    record {
      accepting = refl;
      table = λ g n. refl;
      is_open = λ g n. ground (arith, n);
      heap = λ q n. refl;
      handlers = λ q n. refl;
    },
    inr (inl (refl, record { table = refl; handlers = refl; socket = rw (==_refl fd) refl }, refl)),
  )

  joined-Accepted :
      (fd : ℕ)
      → s.table fd ≡ none
      → Accepted fd true s (insert_client (some (fresh_client fd)) fd (opened fd s))
  unfolding insert_client
  joined-Accepted fd absent =
      rw (insert_client, absent)
        (
          record {
            accepting = refl;
            table = λ g n. ground (arith, n);
            is_open = λ g n. ground (arith, n);
            heap = λ q n. ground (arith, n);
            handlers = λ q n. ground (arith, n);
          },
          inl (
            refl,
            refl,
            record {
              entry = rw (==_refl fd) refl;
              client = rw (==_refl s.next) refl;
              handlers =
                  rw (==_refl s.next) (ap suc (h.unserved s.next (h.fresh s.next (omega arith))));
              socket = rw (==_refl fd) refl;
            },
          ),
        )

  left_over-Accepted :
      (fd p : ℕ)
      → s.table fd ≡ some p
      → Accepted fd true s (insert_client (some (fresh_client fd)) fd (opened fd s))
  unfolding insert_client
  left_over-Accepted fd p stale =
      rw (insert_client, stale)
        (
          record {
            accepting = refl;
            table = λ g n. refl;
            is_open = λ g n. ground (arith, n);
            heap = λ q n. ground (arith, n);
            handlers = λ q n. refl;
          },
          inr (
              inr (
                refl,
                λ absent. ground (arith, absent),
                record { table = refl; handlers = refl; socket = rw (==_refl fd) refl },
                (
                  rw (==_refl s.next) refl,
                  h.unserved s.next (h.fresh s.next (omega arith)),
                  λ g e. not_new g e,
                ),
              )),
        )
    where
      not_new : (g : ℕ) → s.table g ≢ some s.next
      not_new g e =
          let (c, cell, same) = h.client g s.next e in ground (arith, cell, h.fresh s.next)

  gone-IsGone : (p : ℕ) (c : Client) → IsGone c.fd p (gone s h p c.fd)
  gone-IsGone p c = record {
    entry = rw (==_refl c.fd) refl;
    client = rw (==_refl p) refl;
    handlers = rw (==_refl p) refl;
    socket = λ positive. ground (arith, positive);
  }

  gone-SameElsewhere : (p : ℕ) (c : Client) → SameElsewhere c.fd p s (gone s h p c.fd)
  gone-SameElsewhere p c = record {
    accepting = elim (Bool-cases (ltb 0 c.fd)) [ inl y ↦ rw y refl | inr y ↦ rw y refl ];
    table = λ g n. ground (arith, n);
    is_open = λ g n. ground (arith, n);
    heap = λ q n. ground (arith, n);
    handlers = λ q n. ground (arith, n);
  }

-- In any state that the threads can come to, a connection that is accepted on a descriptor that was
-- not open gets a client of its own and one handler for it if there is memory and the descriptor has
-- no entry in the table. It is closed, with nothing else, if there is no memory. If the descriptor
-- has an entry still, of a client whose socket was closed before its handler has ended, the
-- connection is closed at once and gets no handler, and its client stays in memory, with no entry.
-- Nothing changes for the other connections.
pub accept_round-Accepted :
    (s : Clients)
    → Reachable s
    → (fd : ℕ) (self buffer : Bool) → s.is_open fd ≡ false
    → Accepted fd (self && buffer) s (accept_round (some fd) self buffer s)
unfolding accept_round client_new insert_client
accept_round-Accepted s r fd true true shut = elim (Option-cases (s.table fd)) [
  | inl absent ↦ joined-Accepted s (Reachable-IsConnected s r) fd absent
  | inr (p, stale) ↦ left_over-Accepted s (Reachable-IsConnected s r) fd p stale
]
accept_round-Accepted s r fd true false shut =
    refused-Accepted s (Reachable-IsConnected s r) fd shut
accept_round-Accepted s r fd false buffer shut =
    refused-Accepted s (Reachable-IsConnected s r) fd shut

-- A handler that runs and comes to its end removes its client from the table and from memory and
-- closes its socket, unless that is descriptor 0, and leaves the other connections as they are; it
-- crashes if the global `listener` is not assigned yet.
pub handler_end-Left :
    (s : Clients) → Reachable s → (p : ℕ) → 0 < s.handlers p → Left p s (handler_end p s)
handler_end-Left s r p runs = elim (Bool-cases s.listener) [
  | inr unset ↦ inl (unset, handler_end-crashed s h p unset)
  | inl set ↦
      let (c, cell, eq) = handler_end-gone s h p runs set in
      inr (set, c, cell, gone s h p c.fd, eq, gone-IsGone s h p c, gone-SameElsewhere s h p c)
]
  where
    h : IsConnected s
    h = Reachable-IsConnected s r
