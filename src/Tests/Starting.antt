-- ===== src/Tests/Starting.antt =====
-- The theorems about the start of the program, at concrete inputs.
use sib_tcp.Prelude.{◌≡◌, refl, length, true, false, none, some, [], ◌∷◌, pos, arith}
use sib_tcp.State.{update}
use sib_tcp.Options.{defaults, parse_args}
use sib_tcp.Startup.{
  Process, Answers, begun, create_control_idle, register_sib, listener_new, main_launch, looping,
  run_idle, run_source, create_control, on_control, register_sib_cb, listener_create_sib_object,
  listener_thread_returns,
}
use sib_tcp.Startup.Single.{
  IsSingle, Reachable, begin, further, runs, handles, stops_accepting, Reachable-IsSingle,
}
use sib_tcp.Startup.Registered.{
  granted, run_idles, Listens, New, register_sib_cb-Listens, listener_new-New,
}

-- The control object is there.
abbrev with_control : Process
with_control = record begun { control = create_control true }

with_control-Reachable : Reachable defaults with_control
unfolding run_idle run_source create_control
with_control-Reachable = further _ _ begin (runs granted _ refl)

-- A SIB has registered, and the listener is there, with its two threads.
abbrev with_listener : Process
with_listener = record with_control {
  listener = some 0;
  listeners = update (λ _. none) 0 (listener_create_sib_object true);
  next = 1;
  accepting = update (λ _. 0) 0 1;
  waking = update (λ _. 0) 0 1;
  registered = 1;
}

with_listener-Reachable : Reachable defaults with_listener
unfolding create_control on_control register_sib_cb run_idle run_source listener_new
with_listener-Reachable =
    further _ _ (further _ _ with_control-Reachable (handles register_sib _ refl))
      (runs granted _ refl)

-- Its accepting thread has returned.
abbrev deaf : Process
deaf = listener_thread_returns true 0 with_listener

Reachable-IsSingle_example : IsSingle defaults deaf
Reachable-IsSingle_example =
    Reachable-IsSingle defaults deaf
      (further _ _ with_listener-Reachable (stops_accepting true 0 (omega arith)))

register_sib_cb-Listens_example :
    Listens with_control (run_idles granted 1 (register_sib_cb with_control))
register_sib_cb-Listens_example = register_sib_cb-Listens with_control

-- The second thread is refused.
abbrev no_waker : Answers
no_waker = record granted { wake_thread = false }

listener_new-New_example : New no_waker with_control (listener_new no_waker with_control)
listener_new-New_example =
    listener_new-New defaults with_control with_control-Reachable refl no_waker

-- Without arguments, the program comes to its loop.
launched :
    main_launch (λ v. pos (length v)) [] true
    ≡ looping defaults (record begun { idle = create_control_idle ∷ [] })
unfolding main_launch parse_args
launched = refl
