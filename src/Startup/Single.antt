-- ===== src/Startup/Single.antt =====
-- However often a SIB registers, there is one listener.
use sib_tcp.Prelude.{
  ℕ, suc, ◌+◌, ◌≤◌, ◌<◌, ◌==◌, ◌≡◌, ◌≢◌, refl, sym, subst, Bool, true, false, Option, none, some,
  List, [], ◌∷◌, Bool-cases, Option-cases, inl, inr, arith,
}
use sib_tcp.State.{update}
use sib_tcp.Startup.{
  Process, Answers, Source, create_control_idle, create_listener_idle, ControlSignal, refresh,
  healthcheck, shutdown, register_sib, Ran, ran, crashed, begun, main_signal_handler,
  listener_create_sib_object, listener_destroy, listener_new, start_threads, create_control,
  run_control_idle, run_listener_idle, run_source, run_idle, register_sib_cb, on_control, SibSignal,
  listener_thread_returns, sub_wake_thread_returns, keeps_waking,
}
use sib_tcp.Options.{Settings}

-- A step of the main thread, a signal to the process, or the end of one of the listener's threads:
-- `listener_thread` may return at any time, `sub_wake_thread` only where it does not loop.
pub data Step (set : Settings) (p : Process) : Process → Type 0 where
  runs : (sys : Answers) (q : Process) → run_idle sys p ≡ ran tt q → Step set p q
  handles :
      (signal : ControlSignal) (signals : List ControlSignal)
      → p.control ≡ some signals
      → Step set p (on_control signal p)
  interrupted : Step set p (main_signal_handler p)
  stops_accepting :
      (told : Bool) (l : ℕ) → 0 < p.accepting l → Step set p (listener_thread_returns told l p)
  stops_waking :
      (l : ℕ)
      → keeps_waking set.subwakefr ≡ false
      → 0 < p.waking l
      → Step set p (sub_wake_thread_returns l p)

pub data Reachable (set : Settings) : Process → Type 0 where
  begin : Reachable set (record begun { idle = create_control_idle ∷ [] })
  further : (p q : Process) → Reachable set p → Step set p q → Reachable set q

-- A listener in memory is the global one, and that one handles all the signals of its object. No
-- listener has two threads of a kind, and one that is not in memory has no waking thread. The
-- global one has its waking thread as long as that has not returned.
pub record IsSingle (set : Settings) (p : Process) : Type 0 where
  pub only : (l : ℕ) (signals : List SibSignal) → p.listeners l ≡ some signals → p.listener ≡ some l
  pub object : (l : ℕ) → p.listener ≡ some l → p.listeners l ≡ listener_create_sib_object true
  pub accepting : (l : ℕ) → p.accepting l ≤ 1
  pub waking : (l : ℕ) → p.waking l ≤ 1
  pub awake : (l : ℕ) → keeps_waking set.subwakefr ≡ true → p.listener ≡ some l → p.waking l ≡ 1
  pub freed : (l : ℕ) → p.listeners l ≡ none → p.waking l ≡ 0
  pub fresh : (l : ℕ) → p.next ≤ l → (p.listeners l ≡ none) × (p.accepting l ≡ 0)

abbrev After : Settings → Ran (Unit {0}) → Type 0
After set (ran _ q) = IsSingle set q
After set (crashed e) = Unit

pub match_none :
    {A : Type 0} (o : Option ℕ) (x : A) (f : ℕ → A)
    → o ≡ none
    → (elim o [ none ↦ x | some l ↦ f l ]) ≡ x
match_none o x f e = rw e refl

pub match_some :
    {A : Type 0} (o : Option ℕ) (l : ℕ) (x : A) (f : ℕ → A)
    → o ≡ some l
    → (elim o [ none ↦ x | some l ↦ f l ]) ≡ f l
match_some o l x f e = rw e refl

module _ (set : Settings) (p : Process) (h : IsSingle set p) where
  -- The rest of the process does not matter.
  moved-IsSingle :
      (control : Option (List ControlSignal)) (idle : List Source) (registered : ℕ)
      (signalled quit killed : Bool)
      → IsSingle set (record p {
        control = control;
        idle = idle;
        registered = registered;
        signalled = signalled;
        quit = quit;
        killed = killed;
      })
  moved-IsSingle c i r s k d = record {
    only = h.only;
    object = h.object;
    accepting = h.accepting;
    waking = h.waking;
    awake = h.awake;
    freed = h.freed;
    fresh = h.fresh;
  }

  -- A listener that was freed again before it got to be the global one leaves at most a thread.
  dropped-IsSingle :
      (accepting : ℕ → ℕ)
      → ((l : ℕ) → l ≢ p.next → accepting l ≡ p.accepting l)
      → accepting p.next ≤ 1
      → (signals : List SibSignal) → p.listener ≡ none
      → IsSingle set (record p {
        next = p.next + 1;
        listeners = update (update p.listeners p.next (some signals)) p.next none;
        accepting = accepting;
        quit = true;
      })
  dropped-IsSingle accepting same few signals e = record {
    only = λ l sigs x. h.only l sigs (ground (arith, x));
    object = λ l x. absurd (ground (arith, x, e));
    accepting = λ l. elim (Bool-cases (l == p.next)) [
      | inl y ↦ ground (arith, y, few)
      | inr n ↦ ground (arith, same l (ground (arith, n)), h.accepting l)
    ];
    waking = h.waking;
    awake = λ l on x. absurd (ground (arith, x, e));
    freed = λ l x. ground (arith, h.freed l, h.fresh l);
    fresh = λ l le. ground (arith, h.fresh l, same l, le);
  }

  made-IsSingle :
      p.listener ≡ none
      → IsSingle set (record p {
        listener = some p.next;
        next = p.next + 1;
        listeners = update p.listeners p.next (listener_create_sib_object true);
        accepting = update p.accepting p.next (suc (p.accepting p.next));
        waking = update p.waking p.next (suc (p.waking p.next));
      })
  unfolding listener_create_sib_object
  made-IsSingle e = record {
    only = λ l sigs x. ground (arith, h.only l sigs, x, e);
    object = λ l x. ground (arith, x);
    accepting = λ l. ground (arith, h.accepting l, h.fresh p.next);
    waking = λ l. ground (arith, h.waking l, h.fresh p.next, h.freed p.next);
    awake = λ l on x. ground (arith, x, h.fresh p.next, h.freed p.next);
    freed = λ l x. ground (arith, h.freed l, x);
    fresh = λ l le. ground (arith, h.fresh l, le);
  }

  created-IsSingle :
      (sys : Answers)
      → p.listener ≡ none
      → After set (elim (listener_new sys p) [
        | crashed e ↦ crashed e
        | ran none q ↦ ran tt (record q { quit = true })
        | ran (some l) q ↦ ran tt (record q { listener = some l })
      ])
  unfolding listener_new start_threads listener_create_sib_object listener_destroy
  created-IsSingle sys e = by_answers sys.memory sys.object sys.listener_thread sys.wake_thread
    where
      by_answers :
          (memory object listener_thread wake_thread : Bool)
          → After set
              (elim (listener_new
                (record {
                  memory = memory;
                  object = object;
                  listener_thread = listener_thread;
                  wake_thread = wake_thread;
                })
                p) [
                  | crashed e ↦ crashed e
                  | ran none q ↦ ran tt (record q { quit = true })
                  | ran (some l) q ↦ ran tt (record q { listener = some l })
                ])
      by_answers false b c d =
          moved-IsSingle p.control p.idle p.registered p.signalled true p.killed
      by_answers true false c d = rw e tt
      by_answers true true false d =
          dropped-IsSingle p.accepting (λ l n. refl) (h.accepting p.next) _ e
      by_answers true true true false =
          dropped-IsSingle _ (λ l n. ground (arith, n)) (ground (arith, h.fresh p.next)) _ e
      by_answers true true true true = made-IsSingle e

  run_listener_idle-IsSingle : (sys : Answers) → After set (run_listener_idle sys p)
  unfolding run_listener_idle
  run_listener_idle-IsSingle sys = elim (Option-cases p.listener) [
    | inr (l, e) ↦ subst (After set) (sym (match_some p.listener l _ _ e)) h
    | inl e ↦ subst (After set) (sym (match_none p.listener _ _ e)) (created-IsSingle sys e)
  ]

  run_control_idle-IsSingle : (sys : Answers) → After set (run_control_idle sys p)
  unfolding run_control_idle create_control
  run_control_idle-IsSingle sys = by_control p.control sys.object
    where
      by_control :
          (c : Option (List ControlSignal)) (object : Bool)
          → After set (elim c [
            | some _ ↦ ran tt p
            | none ↦ elim (create_control object) [
              | none ↦ ran tt (record p { quit = true })
              | some signals ↦ ran tt (record p { control = some signals })
            ]
          ])
      by_control (some _) object = h
      by_control none false = moved-IsSingle p.control p.idle p.registered p.signalled true p.killed
      by_control none true =
          moved-IsSingle (create_control true) p.idle p.registered p.signalled p.quit p.killed

module _ (set : Settings) where
  run_source-IsSingle :
      (sys : Answers) (source : Source) (p : Process)
      → IsSingle set p
      → After set (run_source sys source p)
  unfolding run_source
  run_source-IsSingle sys create_control_idle p h = run_control_idle-IsSingle set p h sys
  run_source-IsSingle sys create_listener_idle p h = run_listener_idle-IsSingle set p h sys

  run_idle-IsSingle : (sys : Answers) (p : Process) → IsSingle set p → After set (run_idle sys p)
  unfolding run_idle
  run_idle-IsSingle sys p h = by_idle p.idle
    where
      by_idle :
          (l : List Source)
          → After set (elim l [
            | [] ↦ ran tt p
            | source ∷ rest ↦ run_source sys source (record p { idle = rest })
          ])
      by_idle [] = h
      by_idle (source ∷ rest) =
          run_source-IsSingle sys source _
            (moved-IsSingle set p h p.control rest p.registered p.signalled p.quit p.killed)

  on_control-IsSingle :
      (signal : ControlSignal) (p : Process) → IsSingle set p → IsSingle set (on_control signal p)
  unfolding on_control register_sib_cb
  on_control-IsSingle refresh p h = h
  on_control-IsSingle healthcheck p h = h
  on_control-IsSingle shutdown p h = h
  on_control-IsSingle register_sib p h = moved-IsSingle set p h _ _ _ _ _ _

  main_signal_handler-IsSingle :
      (p : Process) → IsSingle set p → IsSingle set (main_signal_handler p)
  unfolding main_signal_handler
  main_signal_handler-IsSingle p h = elim (Bool-cases p.signalled) [
    | inl e ↦ rw e (moved-IsSingle set p h p.control p.idle p.registered true p.quit true)
    | inr e ↦ rw e (moved-IsSingle set p h p.control p.idle p.registered true true p.killed)
  ]

  accepted-IsSingle :
      (told : Bool) (l : ℕ) (p : Process)
      → IsSingle set p
      → IsSingle set (listener_thread_returns told l p)
  unfolding listener_thread_returns
  accepted-IsSingle told l p h = record {
    only = h.only;
    object = h.object;
    accepting = λ k. ground (arith, h.accepting k);
    waking = h.waking;
    awake = h.awake;
    freed = h.freed;
    fresh = λ k le. ground (arith, h.fresh k);
  }

  slept-IsSingle :
      (l : ℕ) (p : Process)
      → keeps_waking set.subwakefr ≡ false
      → IsSingle set p
      → IsSingle set (sub_wake_thread_returns l p)
  unfolding sub_wake_thread_returns
  slept-IsSingle l p off h = record {
    only = h.only;
    object = h.object;
    accepting = h.accepting;
    waking = λ k. ground (arith, h.waking k);
    awake = λ k on x. absurd (ground (arith, on, off));
    freed = λ k x. ground (arith, h.freed k);
    fresh = h.fresh;
  }

  Step-IsSingle : (p q : Process) → IsSingle set p → Step set p q → IsSingle set q
  Step-IsSingle p q h (runs sys r e) = subst (After set) e (run_idle-IsSingle sys p h)
  Step-IsSingle p q h (handles signal signals on) = on_control-IsSingle signal p h
  Step-IsSingle p q h interrupted = main_signal_handler-IsSingle p h
  Step-IsSingle p q h (stops_accepting told l some_) = accepted-IsSingle told l p h
  Step-IsSingle p q h (stops_waking l off some_) = slept-IsSingle l p off h

  -- However often a SIB registers, signals arrive, memory, objects or threads are refused, and
  -- threads return: a listener in memory is the global one, and that one handles all the signals of
  -- its object; no listener has two accepting or two waking threads, and one that is not in memory
  -- has no waking thread; and if the wake-up period is positive, the global listener has its waking
  -- thread.
  pub Reachable-IsSingle : (p : Process) → Reachable set p → IsSingle set p
  Reachable-IsSingle p begin = record {
    only = λ l signals e. absurd (ground (arith, e));
    object = λ l e. absurd (ground (arith, e));
    accepting = λ l. omega arith;
    waking = λ l. omega arith;
    awake = λ l on e. absurd (ground (arith, e));
    freed = λ l e. refl;
    fresh = λ l le. (refl, refl);
  }
  Reachable-IsSingle q (further p r before step) =
      Step-IsSingle p q (Reachable-IsSingle p before) step
