-- ===== src/Pc/Client/Callers.antt =====
-- Many clients at the server's socket (battery_tester_pc/src/client.rs against ipc.rs).
use battery_tester.Prelude.{
  ◌<◌, ◌≡◌, refl, true, List, [], ◌∷◌, ◌++◌, Option, none, some, Result, ok, err, returns, length,
  arith,
}
use battery_tester.Wire.{Bytes}
use battery_tester.Pc.Text.{Text, codes}
use battery_tester.Pc.Printer.{Print, buf}
use battery_tester.Pc.Messages.{Event, ServerCmd}
use battery_tester.Pc.Ipc.{
  Postcard, Connection, Arm, IpcTask, conn_op, ipc_shutdown, returned, for_each_conn, or_else,
  serve, ipc_task,
}
use battery_tester.Pc.Client.{Subcommands, from_subcommand, client}
use battery_tester.Pc.Client.Arrival.{all_sent, whole, Carried, asked, client_is_heard}

-- A client that sends a command and hangs up, a connection that fails before it is there, and one
-- that ends before the length of a message has come.
pub data Caller : Type 0 where
  asks : Subcommands → Caller
  fails : Text → Caller
  leaves : Bytes → Option Text → Caller

abbrev pub calls : Postcard ServerCmd → List Caller → List Arm
calls c [] = []
calls c (asks cmd ∷ cs) = conn_op true (ok (whole (client c (ok tt) all_sent cmd).0)) ∷ calls c cs
calls c (fails e ∷ cs) = conn_op true (err e) ∷ calls c cs
calls c (leaves bytes broken ∷ cs) =
    conn_op true (ok (record { received = bytes; broken = broken })) ∷ calls c cs

-- What the users ask for.
abbrev pub wishes : List Caller → List Event
wishes [] = []
wishes (asks cmd ∷ cs) = asked cmd ∷ wishes cs
wishes (_ ∷ cs) = wishes cs

abbrev pub AllCarried : Postcard ServerCmd → List Caller → Type 0
AllCarried c [] = Unit
AllCarried c (asks cmd ∷ cs) = Carried c (from_subcommand cmd) × AllCarried c cs
AllCarried c (fails e ∷ cs) = AllCarried c cs
AllCarried c (leaves bytes broken ∷ cs) = (length bytes < 4) × AllCarried c cs

-- What the server prints of those who ask for nothing.
abbrev pub notices : Text → List Caller → List Print
notices eof [] = []
notices eof (asks cmd ∷ cs) = notices eof cs
notices eof (fails e ∷ cs) = buf (codes "Error receiving connection: " ++ e) ∷ notices eof cs
notices eof (leaves bytes none ∷ cs) = buf (codes "bad command: " ++ eof) ∷ notices eof cs
notices eof (leaves bytes (some e) ∷ cs) = buf (codes "bad command: " ++ e) ∷ notices eof cs

left_early :
    (c : Postcard ServerCmd) (eof : Text) (bytes : Bytes) (broken : Option Text)
    → length bytes < 4
    → for_each_conn c eof true (ok (record { received = bytes; broken = broken }))
      ≡ returns ([], buf (codes "bad command: " ++ or_else eof broken) ∷ [])
unfolding for_each_conn
left_early c eof [] broken h = refl
left_early c eof (x ∷ []) broken h = refl
left_early c eof (x ∷ y ∷ []) broken h = refl
left_early c eof (x ∷ y ∷ z ∷ []) broken h = refl
left_early c eof (x ∷ y ∷ z ∷ w ∷ more) broken h = absurd (omega arith)

-- One connection, and those behind it.
serve_next :
    (c : Postcard ServerCmd) (eof : Text) (conn_res : Result Connection Text) (arms : List Arm)
    (first es : List Event) (said ps : List Print) (t : IpcTask)
    → for_each_conn c eof true conn_res ≡ returns (first, said)
    → serve c eof arms ≡ (t, (es, ps))
    → serve c eof (conn_op true conn_res ∷ arms) ≡ (t, (first ++ es, said ++ ps))
unfolding serve
serve_next c eof conn_res arms first es said ps t e rest = rw (serve, e, rest) refl

failed_early :
    (c : Postcard ServerCmd) (eof e : Text)
    → for_each_conn c eof true (err e)
      ≡ returns ([], buf (codes "Error receiving connection: " ++ e) ∷ [])
unfolding for_each_conn
failed_early c eof e = refl

serve-calls :
    (c : Postcard ServerCmd) (eof : Text) (callers : List Caller) (later : List Arm)
    → AllCarried c callers
    → serve c eof (calls c callers ++ ipc_shutdown ∷ later)
      ≡ (returned (ok tt), (wishes callers, notices eof callers))
serve-calls c eof [] later h = unfold serve in refl
serve-calls c eof (asks cmd ∷ cs) later h =
    serve_next c eof _ _ _ _ _ _ _ (client_is_heard c eof cmd h.0).1
      (serve-calls c eof cs later h.1)
serve-calls c eof (fails e ∷ cs) later h =
    serve_next c eof _ _ _ _ _ _ _ (failed_early c eof e) (serve-calls c eof cs later h)
serve-calls c eof (leaves bytes none ∷ cs) later h =
    serve_next c eof _ _ _ _ _ _ _ (left_early c eof bytes none h.0)
      (serve-calls c eof cs later h.1)
serve-calls c eof (leaves bytes (some e) ∷ cs) later h =
    serve_next c eof _ _ _ _ _ _ _ (left_early c eof bytes (some e) h.0)
      (serve-calls c eof cs later h.1)

-- Any number of connections, of clients that ask for something and can send it, of ones that fail
-- and of ones that leave before the length of a message, and then the word to stop: while the control
-- task takes events, it gets exactly what the users asked for, each once and in order; one line is
-- printed for each of the other connections; the task returns without an error, and does not look
-- at what comes later.
pub ipc_task-callers :
    (c : Postcard ServerCmd) (eof : Text) (callers : List Caller) (later : List Arm)
    → AllCarried c callers
    → ipc_task c eof (ok tt) (ok tt) (calls c callers ++ ipc_shutdown ∷ later)
      ≡ (returned (ok tt), (wishes callers, notices eof callers))
unfolding ipc_task
ipc_task-callers c eof callers later h = serve-calls c eof callers later h
