-- ===== src/Pc/Client/Tests.antt =====
-- A client that asks for the start of a test.
use battery_tester.Prelude.{◌≡◌, refl, [], ◌∷◌, ◌++◌, List, true, none, some, ok, returns, arith}
use battery_tester.Pc.Messages.{Event, ServerCmd}
use battery_tester.Pc.Ipc.{Postcard, for_each_conn, ipc_task, ipc_shutdown, returned}
use battery_tester.Pc.Client.{Subcommands, from_subcommand, client}
use battery_tester.Pc.Client.Arrival.{all_sent, whole, client_is_heard}
use battery_tester.Pc.Client.Callers.{Caller, asks, fails, leaves, calls, notices, ipc_task-callers}

-- A codec that knows one message.
abbrev only_start : Postcard ServerCmd
only_start = record { to_extend = λ cmd. 3 ∷ []; from_bytes = λ bytes. some ServerCmd.start_test }

client_is_heard_example :
    let (bytes, result) = client only_start (ok tt) all_sent Subcommands.start in
    (result ≡ ok tt)
    × (for_each_conn only_start [] true (ok (whole bytes)) ≡ returns (Event.start_test ∷ [], []))
unfolding from_subcommand
client_is_heard_example = client_is_heard only_start [] Subcommands.start (refl, omega arith)

-- Somebody hangs up at once, a connection fails, a start is asked for, and somebody sends two bytes.
abbrev callers : List Caller
callers =
    leaves [] none
    ∷ fails (110 ∷ [])
    ∷ asks Subcommands.start
    ∷ leaves (0 ∷ 0 ∷ []) (some (111 ∷ []))
    ∷ []

ipc_task-callers_example :
    ipc_task only_start
      (101 ∷ [])
      (ok tt)
      (ok tt)
      (calls only_start callers ++ ipc_shutdown ∷ ipc_shutdown ∷ [])
    ≡ (returned (ok tt), (Event.start_test ∷ [], notices (101 ∷ []) callers))
unfolding from_subcommand
ipc_task-callers_example =
    ipc_task-callers only_start (101 ∷ []) callers (ipc_shutdown ∷ [])
      (omega arith, ((refl, omega arith), (omega arith, tt)))
