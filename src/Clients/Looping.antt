-- ===== src/Clients/Looping.antt =====
-- How the accept loop begins, and what is left when it has ended.
use sib_tcp.Prelude.{
  ℕ, ◌≡◌, refl, sym, subst, ◌∙◌, ◌⊎◌, inl, inr, ◌≢◌, ◌&&◌, Bool, true, false, Option, none, some,
  pos, arith, Bool-cases, ◌==◌,
}
use sib_tcp.Listener.{failed}
use sib_tcp.Clients.{Clients, Setup, no_clients, listener_setup, accept_round}
use sib_tcp.Clients.Connected.{
  Step, accepts, accept_fails, assigns, closes, returns, Steps, here, step, Reachable, further,
}
use sib_tcp.Clients.Steps.{ended-injective, crashed_not_ended}
use sib_tcp.Clients.Serving.{handler_end-Left}

-- The accept loop has ended, and every entry of the table is an old one.
abbrev pub Dwindles : Clients → Clients → Type 0
Dwindles s t = (t.accepting ≡ false) × ((fd : ℕ) → (t.table fd ≡ s.table fd) ⊎ (t.table fd ≡ none))

Step-Dwindles : (s t : Clients) → Reachable s → s.accepting ≡ false → Step s t → Dwindles s t
Step-Dwindles s t r stopped (accepts fd self buffer on shut) = absurd (ground (arith, on, stopped))
Step-Dwindles s t r stopped (accept_fails on) = absurd (ground (arith, on, stopped))
Step-Dwindles s t r stopped assigns = (stopped, λ fd. inl refl)
Step-Dwindles s t r stopped (closes p c runs cell) = (stopped, λ fd. inl refl)
Step-Dwindles s t r stopped (returns p u runs e) = elim (handler_end-Left s r p runs) [
  | inl (unset, crash) ↦ absurd (crashed_not_ended (sym crash ∙ e))
  | inr (set, c, cell, v, eq, empty, same) ↦ subst (Dwindles s) (ended-injective (sym eq ∙ e)) (
    same.accepting ∙ stopped,
    λ fd. elim (Bool-cases (fd == c.fd)) [
      | inl y ↦ inr (ground (arith, y, empty.entry))
      | inr n ↦ inl (same.table fd (ground (arith, n)))
    ],
  )
]

stopped-Dwindles :
    (s t : Clients) → Reachable s → s.accepting ≡ false → Steps s t → Reachable t × Dwindles s t
stopped-Dwindles s t r stopped here = (r, (stopped, λ fd. inl refl))
stopped-Dwindles s t r stopped (step u v before last) =
    let (v_reachable, (off, old)) = stopped-Dwindles s u r stopped before in
    let (still_off, older) = Step-Dwindles u t v_reachable off last in
    (
      further u t v_reachable last,
      (
        still_off,
        λ fd. elim (older fd) [
          | inr e ↦ inr e
          | inl same ↦ elim (old fd) [ inl e ↦ inl (same ∙ e) | inr e ↦ inr (same ∙ e) ]
        ],
      ),
    )

-- In any state that the threads can come to and in which the accept loop runs, a failed accept ends
-- it for good: whatever the threads do after it, no connection comes into the table, where each
-- entry is the one from before the accept, or none.
pub failed_accept-Dwindles :
    (s t : Clients)
    → Reachable s
    → s.accepting ≡ true
    → Steps (accept_round none true true s) t
    → Dwindles s t
unfolding accept_round
failed_accept-Dwindles s t r on steps =
    let (_, gone_on) =
      stopped-Dwindles (accept_round none true true s) t (further s _ r (accept_fails on)) refl
        steps in
    gone_on

-- All went well, and the loop begins, on the open socket.
abbrev pub Ready : Setup → Clients → Type 0
Ready sys t =
    (sys.setsockopt && sys.bind && sys.listen ≡ true)
    × (lfd : ℕ) × (sys.socket ≡ some lfd)
    × (t.accepting ≡ true)
    × (t.lfd ≡ pos lfd)
    × (t.is_open lfd ≡ true)
    × (t.quit ≡ false)
    × (t.exited ≡ false)

-- No loop begins, and no socket is left open.
abbrev pub Closed : Clients → Type 0
Closed t =
    (t.accepting ≡ false)
    × (t.lfd ≡ failed)
    × ((fd : ℕ) → t.is_open fd ≡ false)
    × (t.exited ≡ false)

abbrev pub SetUp : Setup → Clients → Type 0
SetUp sys t =
    Ready sys t
    ⊎ (((sys.socket ≡ none) × Closed t × (t.quit ≡ false))
        ⊎ (((sys.socket ≢ none)
              × (sys.setsockopt ≡ true)
              × (sys.bind && sys.listen ≡ false)
              × Closed t
              × (t.quit ≡ true))
            ⊎ ((sys.socket ≢ none)
                × (sys.setsockopt ≡ false)
                × (t.exited ≡ true)
                × (t.accepting ≡ false))))

-- The set-up of the listening socket has four ends. If all its calls go well, the accept loop begins
-- on the open socket. If `socket` fails, there is no socket and no loop, and the main loop goes on.
-- If `bind` or `listen` fails, the socket is closed, there is no loop, and the main loop is told to
-- quit. If `setsockopt` fails, the program exits.
pub listener_setup-SetUp : (sys : Setup) → SetUp sys (listener_setup sys no_clients)
unfolding listener_setup
listener_setup-SetUp sys = set_up sys.socket sys.setsockopt sys.bind sys.listen
  where
    set_up :
        (socket : Option ℕ) (setsockopt bind listen : Bool)
        → let sys : Setup = record {
          socket = socket;
          setsockopt = setsockopt;
          bind = bind;
          listen = listen;
        } in
          SetUp sys (listener_setup sys no_clients)
    set_up none a b c = inr (inl (refl, (refl, refl, λ fd. refl, refl), refl))
    set_up (some lfd) false b c = inr (inr (inr (λ e. ground (arith, e), refl, refl, refl)))
    set_up (some lfd) true false c = inr (
        inr
          (inl (λ e. ground (arith, e), refl, refl, (refl, refl, λ fd. ground arith, refl), refl)))
    set_up (some lfd) true true false = inr (
        inr
          (inl (λ e. ground (arith, e), refl, refl, (refl, refl, λ fd. ground arith, refl), refl)))
    set_up (some lfd) true true true = inl (refl, lfd, refl, refl, refl, ground arith, refl, refl)
