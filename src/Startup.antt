-- ===== src/Startup.antt =====
-- src/main.c, `main`, `main_signal_handler`, `create_control`, `register_sib_cb`, `listener_new` and the
-- idle functions: how the program comes to have a control object and a listener. The main loop
-- runs one source at a time.
pub mod Single
pub mod Registered
use sib_tcp.Prelude.{
  ℕ, zero, suc, ◌+◌, ◌-◌, ℤ, pos, negsuc, ◌||◌, Bool, true, false, Option, none, some, List, [],
  ◌∷◌, ◌++◌, if◌then◌else◌, Bytes,
}
use sib_tcp.State.{Fault, null_pointer, update}
use sib_tcp.Options.{Settings, returns, exits, parse_args}

-- The signals of the two objects of the SIB library that get a handler.
pub data ControlSignal : Type 0 where
  refresh healthcheck shutdown register_sib : ControlSignal

pub data SibSignal : Type 0 where
  join_cnf leave_cnf insert_cnf remove_cnf update_cnf query_cnf subscribe_cnf : SibSignal
  subscription_ind unsubscribe_ind unsubscribe_cnf leave_ind : SibSignal

-- An idle source of the main loop, by its function.
pub data Source : Type 0 where
  create_control_idle create_listener_idle : Source

-- The globals, the main loop and the threads.
pub record Process : Type 0 where
  -- `control`, by the signals that it handles
  pub control : Option (List ControlSignal)
  -- `listener`, by its address
  pub listener : Option ℕ
  -- the listeners in memory, each by the signals that its `object` handles
  pub listeners : ℕ → Option (List SibSignal)
  pub next : ℕ
  -- the threads of a listener: in `listener_thread`, and in `sub_wake_thread`
  pub accepting : ℕ → ℕ
  pub waking : ℕ → ℕ
  -- the idle sources, in the order in which they were added
  pub idle : List Source
  -- `sib_object_send_register_sib_return`
  pub registered : ℕ
  pub signalled : Bool
  -- `g_main_loop_quit (mainloop)`
  pub quit : Bool
  -- a signal was raised again with its default action
  pub killed : Bool

-- What the system answers: whether there is memory, an object, a thread.
pub record Answers : Type 0 where
  pub memory : Bool
  pub object : Bool
  pub listener_thread : Bool
  pub wake_thread : Bool

-- How a function of the main thread ends.
pub data Ran (A : Type 0) : Type 0 where
  ran : A → Process → Ran A
  crashed : Fault → Ran A

abbrev pub begun : Process
begun = record {
  control = none;
  listener = none;
  listeners = λ _. none;
  next = 0;
  accepting = λ _. 0;
  waking = λ _. 0;
  idle = [];
  registered = 0;
  signalled = false;
  quit = false;
  killed = false;
}

-- How `main` gets to its loop: the loop, with the settings of the command line, or an exit with a
-- status.
pub data Launched : Type 0 where
  looping : Settings → Process → Launched
  exited : ℤ → Launched

-- `main`, up to `g_main_loop_run`; `pool` says whether there is a thread pool.
unfoldable pub main_launch : (Bytes → ℤ) → List Bytes → Bool → Launched
main_launch atoi args pool = elim (parse_args atoi args) [
  | exits status ↦ exited status
  | returns settings ↦
      if pool
      then looping settings (record begun { idle = create_control_idle ∷ [] })
      else exited (pos 1)
]

unfoldable pub main_signal_handler : Process → Process
main_signal_handler p =
    if p.signalled then record p { killed = true } else record p { signalled = true; quit = true }

-- `none` is NULL.
unfoldable pub create_control : Bool → Option (List ControlSignal)
create_control false = none
create_control true = some (refresh ∷ healthcheck ∷ shutdown ∷ register_sib ∷ [])

-- The object's signals; `none` is -1.
unfoldable pub listener_create_sib_object : Bool → Option (List SibSignal)
listener_create_sib_object false = none
listener_create_sib_object true = some (
    join_cnf ∷ leave_cnf ∷ insert_cnf ∷ remove_cnf ∷ update_cnf ∷ query_cnf ∷ subscribe_cnf
    ∷ subscription_ind ∷ unsubscribe_ind ∷ unsubscribe_cnf ∷ leave_ind ∷ [])

-- It takes no argument, and closes the socket of the global `listener`.
unfoldable pub listener_destroy : Process → Ran (Unit {0})
listener_destroy p = elim p.listener [ none ↦ crashed null_pointer | some l ↦ ran tt p ]

-- A thread starts on the listener `l`, or `l` is freed and the result is NULL.
unfoldable start_threads : Answers → ℕ → Process → Ran (Option ℕ)
start_threads sys l p =
    let freed = λ (q : Process). ran none (record q { listeners = update q.listeners l none }) in
    let one : Process = record p { accepting = update p.accepting l (suc (p.accepting l)) } in
    if sys.listener_thread
    then (if sys.wake_thread
        then ran (some l) (record one { waking = update p.waking l (suc (p.waking l)) })
        else freed one)
    else freed p

unfoldable pub listener_new : Answers → Process → Ran (Option ℕ)
unfolding listener_create_sib_object listener_destroy start_threads
listener_new sys p =
    if sys.memory
    then (let l = p.next in
        let q : Process = record p { next = l + 1 } in
        elim (listener_create_sib_object sys.object) [
          | none ↦ elim (listener_destroy q) [ ran _ r ↦ ran none r | crashed e ↦ crashed e ]
          | some signals ↦
              start_threads sys l (record q { listeners = update q.listeners l (some signals) })
        ])
    else ran none p

-- `listener_thread` returns; `told` says whether it has called `g_main_loop_quit` first.
unfoldable pub listener_thread_returns : Bool → ℕ → Process → Process
listener_thread_returns told l p = record p {
  accepting = update p.accepting l (p.accepting l - 1);
  quit = p.quit || told;
}

-- `if (subwakefr > 0)`, the guard of the endless loop of `sub_wake_thread`
unfoldable pub keeps_waking : ℤ → Bool
keeps_waking (pos zero) = false
keeps_waking (pos (suc n)) = true
keeps_waking (negsuc n) = false

-- `sub_wake_thread` returns.
unfoldable pub sub_wake_thread_returns : ℕ → Process → Process
sub_wake_thread_returns l p = record p { waking = update p.waking l (p.waking l - 1) }

-- The results of the idle functions, which are always FALSE, take their source away.
unfoldable run_control_idle : Answers → Process → Ran (Unit {0})
unfolding create_control
run_control_idle sys p = elim p.control [
  | some _ ↦ ran tt p
  | none ↦ elim (create_control sys.object) [
    | none ↦ ran tt (record p { quit = true })
    | some signals ↦ ran tt (record p { control = some signals })
  ]
]

unfoldable run_listener_idle : Answers → Process → Ran (Unit {0})
unfolding listener_new
run_listener_idle sys p = elim p.listener [
  | some _ ↦ ran tt p
  | none ↦ elim (listener_new sys p) [
    | crashed e ↦ crashed e
    | ran none q ↦ ran tt (record q { quit = true })
    | ran (some l) q ↦ ran tt (record q { listener = some l })
  ]
]

-- The main loop runs its next idle source.
unfoldable pub run_source : Answers → Source → Process → Ran (Unit {0})
unfolding run_control_idle run_listener_idle
run_source sys create_control_idle p = run_control_idle sys p
run_source sys create_listener_idle p = run_listener_idle sys p

unfoldable pub run_idle : Answers → Process → Ran (Unit {0})
unfolding run_source
run_idle sys p = elim p.idle [
  | [] ↦ ran tt p
  | source ∷ rest ↦ run_source sys source (record p { idle = rest })
]

unfoldable pub register_sib_cb : Process → Process
register_sib_cb p = record p {
  idle = p.idle ++ (create_listener_idle ∷ []);
  registered = suc p.registered;
}

-- The handler of a signal of the control object; `refresh_cb`, `shutdown_cb` and `healthcheck_cb`
-- have empty bodies.
unfoldable pub on_control : ControlSignal → Process → Process
unfolding register_sib_cb
on_control refresh p = p
on_control healthcheck p = p
on_control shutdown p = p
on_control register_sib p = register_sib_cb p
