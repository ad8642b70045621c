-- ===== src/Tests/Accepting.antt =====
-- The theorems about the table of connected clients, at concrete inputs.
use sib_tcp.Prelude.{refl, arith, true, some, none}
use sib_tcp.Client.{fresh_client, client_new}
use sib_tcp.Clients.{
  Clients, Setup, no_clients, listener_setup, accept_round, close_fd, handler_end, insert_client,
}
use sib_tcp.Clients.Connected.{
  IsConnected, Reachable, begin, further, Steps, here, step, accepts, assigns, closes,
}
use sib_tcp.Clients.Steps.{Reachable-IsConnected}
use sib_tcp.Clients.Serving.{Accepted, accept_round-Accepted, Left, handler_end-Left}
use sib_tcp.Clients.Looping.{Dwindles, failed_accept-Dwindles, SetUp, listener_setup-SetUp}

abbrev all_well : Setup
all_well = record { socket = some 3; setsockopt = true; bind = true; listen = true }

abbrev listening : Clients
listening = listener_setup all_well no_clients

-- A client on the descriptor 4.
abbrev joined : Clients
joined = accept_round (some 4) true true (record listening { listener = true })

abbrev deaf : Clients
deaf = accept_round none true true joined

joined-Reachable : Reachable joined
unfolding listener_setup
joined-Reachable =
    further _ _ (further _ _ (begin all_well) assigns) (accepts 4 true true refl refl)

deaf_step : Steps deaf (record deaf { listener = true })
deaf_step = step _ _ here assigns

-- The handler of that client has closed its socket.
abbrev shut : Clients
shut = close_fd 4 joined

shut-Reachable : Reachable shut
unfolding accept_round insert_client client_new listener_setup
shut-Reachable = further _ _ joined-Reachable (closes 0 (fresh_client 4) (omega arith) refl)

Reachable-IsConnected_example : IsConnected shut
Reachable-IsConnected_example = Reachable-IsConnected shut shut-Reachable

accept_round-Accepted_example : Accepted 4 true shut (accept_round (some 4) true true shut)
unfolding accept_round insert_client client_new listener_setup
accept_round-Accepted_example = accept_round-Accepted shut shut-Reachable 4 true true refl

handler_end-Left_example : Left 0 joined (handler_end 0 joined)
unfolding accept_round insert_client client_new listener_setup
handler_end-Left_example = handler_end-Left joined joined-Reachable 0 (omega arith)

failed_accept-Dwindles_example : Dwindles joined (record deaf { listener = true })
unfolding accept_round insert_client client_new listener_setup
failed_accept-Dwindles_example =
    failed_accept-Dwindles joined (record deaf { listener = true }) joined-Reachable refl deaf_step

listener_setup-SetUp_example : SetUp all_well listening
listener_setup-SetUp_example = listener_setup-SetUp all_well
