-- ===== src/Startup/Registered.antt =====
-- What comes of the registration of a SIB, where the system grants what is asked for and where not.
use sib_tcp.Prelude.{
  ℕ, suc, zero, ◌≡◌, refl, sym, subst, ap, ◌∙◌, Bool, true, false, ◌&&◌, Option, none, some, List,
  [], ◌∷◌, ◌++◌, length, Option-cases, ◌⊎◌, inl, inr, ◌↔◌, arith,
}
use sib_tcp.State.{null_pointer}
use sib_tcp.Options.{Settings}
use sib_tcp.Startup.{
  Process, Answers, Source, create_control_idle, create_listener_idle, Ran, ran, crashed,
  listener_create_sib_object, listener_destroy, listener_new, start_threads, create_control,
  run_control_idle, run_listener_idle, run_source, run_idle, register_sib_cb,
}
use sib_tcp.Startup.Single.{IsSingle, Reachable, Reachable-IsSingle, match_none, match_some}

-- The system grants all.
abbrev pub granted : Answers
granted = record { memory = true; object = true; listener_thread = true; wake_thread = true }

-- The main loop runs `n` idle sources, one after the other.
unfoldable pub run_idles : Answers → ℕ → Process → Ran (Unit {0})
run_idles sys zero p = ran tt p
run_idles sys (suc n) p = elim (run_idle sys p) [
  | crashed e ↦ crashed e
  | ran _ q ↦ run_idles sys n q
]

-- A source that creates the listener is among them.
abbrev Due : List Source → Type 0
Due [] = ⊥
Due (create_listener_idle ∷ rest) = Unit
Due (create_control_idle ∷ rest) = Due rest

Due-append : (l : List Source) → Due (l ++ (create_listener_idle ∷ []))
Due-append [] = tt
Due-append (create_listener_idle ∷ rest) = tt
Due-append (create_control_idle ∷ rest) = Due-append rest

-- No source is left, there is a listener, the one that was there if there was one, and the program
-- goes on if it did.
abbrev pub Listens : Process → Ran (Unit {0}) → Type 0
Listens p (crashed e) = ⊥
Listens p (ran _ q) =
    (q.idle ≡ [])
    × ((l : ℕ) × (q.listener ≡ some l))
    × ((l : ℕ) → p.listener ≡ some l → q.listener ≡ some l)
    × (q.quit ≡ p.quit)

-- What a source does if all is granted.
abbrev Made : Process → Source → Ran (Unit {0}) → Type 0
Made p source (crashed e) = ⊥
Made p source (ran _ q) =
    (q.idle ≡ p.idle)
    × (source ≡ create_listener_idle → (l : ℕ) × (q.listener ≡ some l))
    × ((l : ℕ) → p.listener ≡ some l → q.listener ≡ some l)
    × (q.quit ≡ p.quit)

run_source-Made : (source : Source) (p : Process) → Made p source (run_source granted source p)
unfolding run_source run_control_idle run_listener_idle create_control listener_new start_threads
    listener_create_sib_object
run_source-Made create_control_idle p = elim (Option-cases p.control) [
  | inl e ↦ rw e (refl, λ x. absurd (ground (arith, x)), λ l x. x, refl)
  | inr (c, e) ↦ rw e (refl, λ x. absurd (ground (arith, x)), λ l x. x, refl)
]
run_source-Made create_listener_idle p = elim (Option-cases p.listener) [
  | inl e ↦
      subst (Made p create_listener_idle) (sym (match_none p.listener _ _ e))
        (refl, λ x. (p.next, refl), λ l x. absurd (ground (arith, x, e)), refl)
  | inr (l, e) ↦
      subst (Made p create_listener_idle) (sym (match_some p.listener l _ _ e))
        (refl, λ x. (l, e), λ k x. x, refl)
]

run_idle-source :
    (sys : Answers) (p : Process) (source : Source) (rest : List Source)
    → p.idle ≡ source ∷ rest
    → run_idle sys p ≡ run_source sys source (record p { idle = rest })
unfolding run_idle
run_idle-source sys p source rest e = rw e refl

run_idles-Listens :
    (l : List Source) (p : Process)
    → p.idle ≡ l
    → Due l ⊎ ((k : ℕ) × (p.listener ≡ some k))
    → Listens p (run_idles granted (length l) p)
unfolding run_idles
run_idles-Listens [] p e (inl due) = absurd due
run_idles-Listens [] p e (inr there) = (e, there, λ l x. x, refl)
run_idles-Listens (source ∷ rest) p e due =
    subst
      (λ r.
        Listens p (elim r [ crashed e ↦ crashed e | ran _ q ↦ run_idles granted (length rest) q ]))
      (sym (run_idle-source granted p source rest e))
      (goes_on (run_idles-Listens rest) (run_source granted source _) (run_source-Made source _)
        (still source due))
  where
    continues :
        (q : Process)
        → Made (record p { idle = rest }) source (ran tt q)
        → (r : Ran (Unit {0})) → Listens q r
        → Listens p r
    continues q made (crashed f) x = x
    continues q made (ran _ t) x = (x.0, x.1, λ l there. x.2 l (made.2 l there), x.3 ∙ made.3)

    still :
        (source : Source)
        → Due (source ∷ rest) ⊎ ((k : ℕ) × (p.listener ≡ some k))
        → (source ≡ create_listener_idle) ⊎ (Due rest ⊎ ((k : ℕ) × (p.listener ≡ some k)))
    still create_control_idle d = inr d
    still create_listener_idle d = inl refl

    goes_on :
        ((q : Process)
          → q.idle ≡ rest
          → Due rest ⊎ ((k : ℕ) × (q.listener ≡ some k))
          → Listens q (run_idles granted (length rest) q))
        → (r : Ran (Unit {0})) → Made (record p { idle = rest }) source r
        → (source ≡ create_listener_idle) ⊎ (Due rest ⊎ ((k : ℕ) × (p.listener ≡ some k)))
        → Listens p (elim r [ crashed e ↦ crashed e | ran _ q ↦ run_idles granted (length rest) q ])
    goes_on others (crashed f) made d = absurd made
    goes_on others (ran x q) made d = continues q made _ (
        others q made.0 (elim d [
          | inl same ↦ inr (made.1 same)
          | inr (inl due) ↦ inl due
          | inr (inr (k, there)) ↦ inr (k, made.2 k there)
        ]))

-- Where the system grants all, the registration of a SIB ends in a listener, if there was none
-- already: once the main loop has run the sources that are then due, whatever they are, `listener`
-- is set, and is the one that was there if there was one; nothing has crashed or told the main loop
-- to quit.
pub register_sib_cb-Listens :
    (p : Process) → Listens p (run_idles granted (suc (length p.idle)) (register_sib_cb p))
unfolding register_sib_cb
register_sib_cb-Listens p =
    subst (λ n. Listens p (run_idles granted n (register_sib_cb p))) (length-next p.idle)
      (kept _ (
        run_idles-Listens (p.idle ++ (create_listener_idle ∷ [])) (register_sib_cb p) refl
          (inl (Due-append p.idle))))
  where
    length-next : (l : List Source) → length (l ++ (create_listener_idle ∷ [])) ≡ suc (length l)
    length-next [] = refl
    length-next (x ∷ l) = ap suc (length-next l)

    kept : (r : Ran (Unit {0})) → Listens (register_sib_cb p) r → Listens p r
    kept (crashed e) x = x
    kept (ran _ q) x = x

-- What `listener_new` gives in a process without a listener.
abbrev pub New : Answers → Process → Ran (Option ℕ) → Type 0
New sys p r =
    ((sys.memory && sys.object && sys.listener_thread && sys.wake_thread ≡ true)
      × (q : Process) × (r ≡ ran (some p.next) q)
      × (q.listeners p.next ≡ listener_create_sib_object true)
      × (q.accepting p.next ≡ 1)
      × (q.waking p.next ≡ 1))
    ⊎ (((sys.memory ≡ true) × (sys.object ≡ false) × (r ≡ crashed null_pointer))
        ⊎ (((sys.memory ≡ false)
              ⊎ ((sys.object ≡ true) × (sys.listener_thread && sys.wake_thread ≡ false)))
            × (q : Process) × (r ≡ ran none q)
            × (q.listeners p.next ≡ none)
            × (q.waking p.next ≡ 0)
            × ((q.accepting p.next ≡ 1)
                ↔ (sys.memory && sys.object && sys.listener_thread ≡ true))))

-- `listener_new`, in any process that the steps can come to and where there is no listener yet: if
-- the system grants all, it gives a new one with all its signals and its two threads; if there is
-- memory but no object, it reads through NULL; if there is no memory, or an object but not both
-- threads, it gives NULL, and the listener, if there was one, has been freed, on which the first
-- thread runs if only the second one was refused.
pub listener_new-New :
    (set : Settings) (p : Process)
    → Reachable set p
    → p.listener ≡ none
    → (sys : Answers) → New sys p (listener_new sys p)
unfolding listener_new start_threads listener_destroy listener_create_sib_object
listener_new-New set p reach e sys =
    by_answers sys.memory sys.object sys.listener_thread sys.wake_thread
  where
    h : IsSingle set p
    h = Reachable-IsSingle set p reach

    unused : (p.listeners p.next ≡ none) × (p.accepting p.next ≡ 0)
    unused = h.fresh p.next (omega arith)

    idle : p.waking p.next ≡ 0
    idle = h.freed p.next unused.0

    by_answers :
        (memory object listener_thread wake_thread : Bool)
        → let sys : Answers = record {
          memory = memory;
          object = object;
          listener_thread = listener_thread;
          wake_thread = wake_thread;
        } in
          New sys p (listener_new sys p)
    by_answers false b c d = inr (inr (inl refl, p, refl, unused.0, idle, ground (arith, unused.1)))
    by_answers true false c d = inr (inl (refl, refl, rw e refl))
    by_answers true true false d =
        inr (inr (inr (refl, refl), _, refl, ground arith, idle, ground (arith, unused.1)))
    by_answers true true true false =
        inr (inr (inr (refl, refl), _, refl, ground arith, idle, ground (arith, unused.1)))
    by_answers true true true true = inl (
      refl,
      _,
      refl,
      ground arith,
      ground (arith, unused.1),
      ground (arith, h.freed p.next unused.0),
    )
