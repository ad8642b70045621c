-- ===== src/Lib.antt =====
-- sib-tcp: the TCP access point of a Smart-M3 semantic information broker (src/main.c). Clients
-- connect over TCP and send SSAP messages; the program passes each request on to the SIB daemon over
-- D-Bus, waits for the daemon's confirmation, and sends the response back on the client's socket. A
-- subscription goes on: its thread sends an indication for each change until the subscription
-- ends.
--
-- The parts, and the files that model them. Unless another path is given, the code is src/main.c.
--   Ssap          the two libraries that the code calls and that are not in the repository: the SSAP
--                 message library and the D-Bus proxy of the daemon. The functions of the first are
--                 the fields of `Sibmsg`, a parameter of everything; a call of the second is a
--                 value `Call` that goes into the trace.
--   World         the answers of the system (memory, sockets, D-Bus), and the steps of other
--                 threads, `Event`.
--   State         `Waiter` and `Listener`; a heap of waiters, the trace of what goes out, and the
--                 actions on them.
--   Startup       main up to its loop, main_signal_handler, create_control, register_sib_cb,
--                 listener_new, listener_create_sib_object, listener_destroy and the idle functions
--   Clients       listener_thread, client_destroy, and the end of client_handler_thread: the table of
--                 connected clients
--   Waiters       waiter_new, waiter_completed, waiter_destroy
--   Key, Table,   get_request_key, the hash tables, and listener_add_request,
--   Listener      listener_get_request, listener_remove_request and the same for subscriptions
--   Registry      what the two tables promise: partial maps from a request's node and number, and
--                 from a subscription id, to the socket of the client that waits
--   Callbacks     handle_join_cnf and the other signal handlers, and sub_wake_thread
--   Waiting       waiter_wait_for_finished and waiter_timed_wait_for_finished, and the steps of
--                 other threads while a thread waits
--   Socket        client_send_message
--   Request       listener_handle_join, _leave, _insert, _remove, _update and _query. The six have
--                 one shape, `handle_request`; what one of them puts into it is an `Exchange`.
--   Subscribe     listener_handle_subscribe up to its loop, and Subscription, the loop
--   Interleaving  the same loop in small steps, with the steps of other threads between any two
--   Unsubscribe   listener_handle_unsubscribe
--   Client        client_new and client_receive_message
--   Service       listener_handle_request and the loop of client_handler_thread
--   Hipdex        client_send_message, client_receive_message and the probe of a subscription as built
--                 with HIPDEX; the library under hip-dex/ is the parameter `Hipdex`
--   Options       parse_args
--   Consistency   the invariant of the shared state
-- The main thread makes the control object, and on a registration the listener (Startup), whose
-- thread accepts connections (Clients) and has the pool run a client thread for each.
-- The client thread (Service) receives a message (Client), calls the handler of its name (Request,
-- Subscribe, Unsubscribe), which registers a waiter (Listener), calls the daemon and waits (Waiting);
-- a signal handler (Callbacks) finds the waiter by the key of the request and completes it.
--
-- How the code becomes definitions. An action of a thread is a function from a state to an outcome:
-- it returns, it reads freed memory or leaves a buffer (a fault), or it never goes on. A waiter is
-- a pointer to a heap cell, which `waiter_destroy` empties, so that a use after free is a fault
-- and not a value. The tables own their waiters: a removal frees. The questions to the system
-- are numbered by a clock, and each answer may depend on its number. A thread that waits lets others
-- run: `Env.waits` gives, for each time that it gets the lock, the events before. Between waits a
-- handler is one step, and so is each signal handler, from its lookup in the table to its signal,
-- though the code lets go of the table's lock before it takes the waiter's. Interleaving
-- takes the loop of a subscription, which reads its response without that lock, apart into steps, and
-- runs it by a list of turns, its own and those of other threads, in any order; there the handler of an
-- indication may be cut in two between the two locks. The accepting
-- thread and the main thread are step relations (`Step` in Clients/Connected and
-- Startup/Single): what is said of them is said of every state that steps can come to, in whatever
-- order.
--
-- Numbers. A C `int` is an integer `ℤ` of Prelude, not bounded to 32 bits: the only arithmetic
-- on it is in the byte counts of client_receive_message and in the digits of a key, where
-- `%` and `/` round towards zero as in C. Lengths are natural numbers.
--
-- Fuel. The key's digits take at most as many rounds as the message number's magnitude. A loop that
-- the peer can keep going (send, receive, the subscription's loop, the client's loop) is watched
-- for `Env.rounds` rounds, after which the outcome is `stuck`. A client that takes a byte each time
-- needs at most as many rounds as the message has bytes. The option parser has a round for each
-- argument.
--
-- Not modelled. The files under hip-dex/daemon and hip-dex/protocol are a copy of the HDX++ library,
-- and those under hip-dex/binaries demonstrations of it. Of src/main.c: the initialisation of GLib
-- and D-Bus and the end of main, which keep no state of their own; print_usage, of which only the
-- exit is modelled; the logging. Interleavings inside a handler between two waits are not modelled
-- either, but for the loop of a subscription (and there a send is one step, and so is any signal
-- handler but that of an indication), nor the key streams
-- of a security association, which the library keeps: what Hipdex/Streaming needs of them, it
-- supposes.
mod Prelude
pub mod Ssap
pub mod Key
pub mod Table
pub mod World
pub mod State
pub mod Waiters
pub mod Listener
pub mod Callbacks
pub mod Waiting
pub mod Socket
pub mod Request
pub mod Consistency
pub mod Registry
pub mod Unsubscribe
pub mod Subscription
pub mod Interleaving
pub mod Subscribe
pub mod Client
pub mod Clients
pub mod Startup
pub mod Service
pub mod Hipdex
pub mod Options
mod Tests
