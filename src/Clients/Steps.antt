-- ===== src/Clients/Steps.antt =====
-- Each step of the threads keeps the connected clients in order.
use sib_tcp.Prelude.{
  ℕ, ◌-◌, ◌<◌, ◌≡◌, refl, ap, sym, subst, ◌∙◌, ◌⊎◌, inl, inr, Bool, true, false, Option, none, some,
  pos, arith, Option-cases, Bool-cases, ◌==◌, if◌then◌else◌, ltb,
}
use sib_tcp.State.{Fault, update, use_after_free, null_pointer}
use sib_tcp.Client.{Client, fresh_client, client_new}
use sib_tcp.Clients.{
  Clients, Setup, no_clients, opened, close_fd, insert_client, listener_setup, accept_round,
  remove_client, ended, crashed, client_destroy, handler_end,
}
use sib_tcp.Clients.Connected.{
  IsConnected, Step, accepts, accept_fails, assigns, closes, returns, Reachable, begin, further,
}

-- There is no client yet, and at most the listening socket is open.
empty-IsConnected :
    (s : Clients)
    → ((fd : ℕ) → s.is_open fd ≡ true → (fd ≡ 0) ⊎ (s.lfd ≡ pos fd))
    → s.table ≡ no_clients.table
    → s.heap ≡ no_clients.heap
    → s.handlers ≡ no_clients.handlers
    → IsConnected s
empty-IsConnected s known table heap handlers = record {
  known = λ fd o e. known fd o;
  client = λ fd p e. absurd (ground (arith, no_entry fd, e));
  served = λ fd p e. absurd (ground (arith, no_entry fd, e));
  entry = λ p c e n. absurd (ground (arith, no_cell p, e));
  unserved = λ p e. ap (λ f. f p) handlers;
  fresh = λ p le. no_cell p;
}
  where
    no_entry : (fd : ℕ) → s.table fd ≡ none
    no_entry fd = ap (λ f. f fd) table

    no_cell : (p : ℕ) → s.heap p ≡ none
    no_cell p = ap (λ f. f p) heap

pub listener_setup-IsConnected : (sys : Setup) → IsConnected (listener_setup sys no_clients)
unfolding listener_setup
listener_setup-IsConnected sys = set_up sys.socket sys.setsockopt sys.bind sys.listen
  where
    set_up :
        (socket : Option ℕ) (setsockopt bind listen : Bool)
        → IsConnected (
            listener_setup
              (record { socket = socket; setsockopt = setsockopt; bind = bind; listen = listen })
              no_clients)
    set_up none a b c = empty-IsConnected _ (λ fd o. ground (arith, o)) refl refl refl
    set_up (some lfd) false b c = empty-IsConnected _ (λ fd o. ground (arith, o)) refl refl refl
    set_up (some lfd) true false c = empty-IsConnected _ (λ fd o. ground (arith, o)) refl refl refl
    set_up (some lfd) true true false =
        empty-IsConnected _ (λ fd o. ground (arith, o)) refl refl refl
    set_up (some lfd) true true true =
        empty-IsConnected _ (λ fd o. ground (arith, o)) refl refl refl

pub ended-injective : {s t : Clients} → ended s ≡ ended t → s ≡ t
ended-injective e = ap (λ x. elim x [ ended s ↦ s | crashed _ ↦ no_clients ]) e

pub crashed_not_ended : {s : Clients} {f : Fault} → crashed f ≡ ended s → ⊥
crashed_not_ended e = ground arith

pub if_true : {A : Type 0} (b : Bool) (x y : A) → b ≡ true → (if b then x else y) ≡ x
if_true b x y e = rw e refl

module _ (s : Clients) (h : IsConnected s) where
  closed-IsConnected : (fd : ℕ) → IsConnected (close_fd fd s)
  closed-IsConnected fd = record {
    known = λ g o e. ground (arith, h.known g);
    client = h.client;
    served = h.served;
    entry = h.entry;
    unserved = h.unserved;
    fresh = h.fresh;
  }

  refused-IsConnected : (fd : ℕ) → IsConnected (close_fd fd (opened fd s))
  refused-IsConnected fd = record {
    known = λ g o e. ground (arith, h.known g);
    client = h.client;
    served = h.served;
    entry = h.entry;
    unserved = h.unserved;
    fresh = h.fresh;
  }

  -- A client for a descriptor that is in the table still.
  left_over-IsConnected :
      (fd p : ℕ)
      → s.table fd ≡ some p
      → IsConnected (insert_client (some (fresh_client fd)) fd (opened fd s))
  unfolding insert_client
  left_over-IsConnected fd p stale =
      rw (insert_client, stale)
        (record {
          known = λ g o e. ground (arith, h.known g);
          client = λ g q e.
              let (c, cell, same) = h.client g q e in (c, ground (arith, cell, h.fresh q), same);
          served = h.served;
          entry = λ q c e n. ground (arith, h.entry q c, h.unserved s.next, h.fresh s.next);
          unserved = λ q e. ground (arith, h.unserved q);
          fresh = λ q le. ground (arith, h.fresh q);
        })

  inserted-IsConnected :
      (fd : ℕ)
      → s.table fd ≡ none
      → IsConnected (insert_client (some (fresh_client fd)) fd (opened fd s))
  unfolding insert_client
  inserted-IsConnected fd absent =
      rw (insert_client, absent)
        (record {
          known = λ g o e. ground (arith, h.known g);
          client = λ g p e. joined g p e;
          served =
              λ g p e. ground (arith, h.served g p, h.unserved s.next, h.fresh s.next, old g p);
          entry = λ p c e n. ground (arith, h.entry p c, absent, h.unserved s.next, h.fresh s.next);
          unserved = λ p e. ground (arith, h.unserved p);
          fresh = λ p le. ground (arith, h.fresh p);
        })
    where
      -- A client of the table is not the new one.
      old : (g p : ℕ) → s.table g ≡ some p → (s.next == p) ≡ false
      old g p e = let (c, cell, same) = h.client g p e in ground (arith, cell, h.fresh p)

      joined :
          (g p : ℕ)
          → update s.table fd (some s.next) g ≡ some p
          → (c : Client) × (update s.heap s.next (some (fresh_client fd)) p ≡ some c) × (c.fd ≡ g)
      joined g p e = elim (Bool-cases (fd == g)) [
        | inl y ↦ (fresh_client fd, ground (arith, e, y), ground (arith, y))
        | inr n ↦
            let (c, cell, same) = h.client g p (ground (arith, e, n)) in
            (c, ground (arith, cell, h.fresh p), same)
      ]

  accept_round-IsConnected :
      (fd : ℕ) (self buffer : Bool) → IsConnected (accept_round (some fd) self buffer s)
  unfolding accept_round client_new insert_client
  accept_round-IsConnected fd false buffer = refused-IsConnected fd
  accept_round-IsConnected fd true false = refused-IsConnected fd
  accept_round-IsConnected fd true true = elim (Option-cases (s.table fd)) [
    | inl absent ↦ inserted-IsConnected fd absent
    | inr (p, stale) ↦ left_over-IsConnected fd p stale
  ]

  -- The effect of the end of a handler that runs.
  abbrev pub gone : ℕ → ℕ → Clients
  gone p fd = record (if ltb 0 fd then close_fd fd s else s) {
    table = update s.table fd none;
    heap = update s.heap p none;
    handlers = update s.handlers p 0;
  }

  gone-IsConnected :
      (p : ℕ) (c : Client) → s.heap p ≡ some c → 0 < s.handlers p → IsConnected (gone p c.fd)
  gone-IsConnected p c e runs = record {
    known = λ g o n. ground (arith, h.known g);
    client = λ g q n.
        let (d, cell, same) = h.client g q (ground (arith, n)) in
        (d, ground (arith, cell, n, h.entry p c e runs), same);
    served = λ g q n.
        let (d, cell, same) = h.client g q (ground (arith, n)) in
        ground (arith, cell, same, n, e, h.served g q, h.entry p c e runs);
    entry = λ q d n m. ground (arith, h.entry q d, h.entry p c e runs);
    unserved = λ q n. ground (arith, h.unserved q);
    fresh = λ q le. ground (arith, h.fresh q);
  }

  pub handler_end-gone :
      (p : ℕ)
      → 0 < s.handlers p
      → s.listener ≡ true
      → (c : Client) × (s.heap p ≡ some c) × (handler_end p s ≡ ended (gone p c.fd))
  unfolding handler_end client_destroy
  handler_end-gone p runs set = elim (Option-cases (s.heap p)) [
    | inl e ↦ absurd (omega (arith, h.unserved p e))
    | inr (c, e) ↦ (c, e, if_true s.listener _ _ set ∙ destroyed c e)
  ]
    where
      destroyed :
          (c : Client)
          → s.heap p ≡ some c
          → elim (s.heap p) [
            | none ↦ crashed use_after_free
            | some d ↦
                remove_client d.fd (record s { handlers = update s.handlers p (s.handlers p - 1) })
          ]
            ≡ ended (gone p c.fd)
      destroyed c e = elim (Bool-cases (ltb 0 c.fd)) [
        | inl y ↦ rw (e, h.entry p c e runs, e, y, h.served c.fd p (h.entry p c e runs)) refl
        | inr y ↦ rw (e, h.entry p c e runs, e, y, h.served c.fd p (h.entry p c e runs)) refl
      ]

  -- Without `listener`, the end of a handler is a crash.
  pub handler_end-crashed : (p : ℕ) → s.listener ≡ false → handler_end p s ≡ crashed null_pointer
  unfolding handler_end
  handler_end-crashed p unset = rw unset refl

  ended-IsConnected :
      (p : ℕ) (t : Clients) → 0 < s.handlers p → handler_end p s ≡ ended t → IsConnected t
  ended-IsConnected p t runs e = elim (Bool-cases s.listener) [
    | inl set ↦
        let (c, cell, eq) = handler_end-gone p runs set in
        subst IsConnected (ended-injective (sym eq ∙ e)) (gone-IsConnected p c cell runs)
    | inr unset ↦ absurd (crashed_not_ended (sym (handler_end-crashed p unset) ∙ e))
  ]

  flagged-IsConnected : (a b : Bool) → IsConnected (record s { accepting = a; listener = b })
  flagged-IsConnected a b = record {
    known = h.known;
    client = h.client;
    served = h.served;
    entry = h.entry;
    unserved = h.unserved;
    fresh = h.fresh;
  }

  Step-IsConnected : (t : Clients) → Step s t → IsConnected t
  unfolding accept_round
  Step-IsConnected t (accepts fd self buffer on shut) = accept_round-IsConnected fd self buffer
  Step-IsConnected t (accept_fails on) = flagged-IsConnected false s.listener
  Step-IsConnected t assigns = flagged-IsConnected s.accepting true
  Step-IsConnected t (closes p c runs here) = closed-IsConnected c.fd
  Step-IsConnected t (returns p u runs e) = ended-IsConnected p u runs e

-- However the accepting thread, the main thread and the handlers take turns, also where handlers
-- close their client's socket before they end, every client that has a handler is in the table under
-- its descriptor, every client in the table is in memory and has one handler, and no descriptor is
-- open but those in the table, the listening socket and descriptor 0. It is supposed that
-- accept gives a descriptor that is not open.
pub Reachable-IsConnected : (s : Clients) → Reachable s → IsConnected s
Reachable-IsConnected s (begin sys) = listener_setup-IsConnected sys
Reachable-IsConnected t (further s u r step) = Step-IsConnected s (Reachable-IsConnected s r) t step
