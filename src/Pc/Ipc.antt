-- ===== src/Pc/Ipc.antt =====
-- How a command gets from a client to the control task (battery_tester_pc/src/ipc.rs, and write_ipc
-- of lib.rs). Errors are texts.
use battery_tester.Prelude.{
  ℕ, ◌+◌, ◌*◌, ◌/◌, Bool, true, false, not, List, [], ◌∷◌, ◌++◌, Option, none, some, Result, ok,
  err, Checked, returns, panic, ltb, if◌then◌else◌, length, take, u8, u32,
}
use battery_tester.Common.{AllowUndercurrent}
use battery_tester.Wire.{Bytes}
use battery_tester.Pc.Text.{Text, codes}
use battery_tester.Pc.State.{is_some}
use battery_tester.Pc.Printer.{Print, buf}
use battery_tester.Pc.Messages.{Event, ServerCmd}

-- `postcard`, which the program does not implement, at messages of any size. That it gives a message
-- back is a hypothesis of the theorems.
pub record Postcard (A : Type 0) : Type 0 where
  pub to_extend : A → Bytes
  pub from_bytes : Bytes → Option A

-- `write_u32` and `read_u32` send the most significant byte first.
unfoldable pub write_u32 : ℕ → Bytes
write_u32 n = u8 (n / 16777216) ∷ u8 (n / 65536) ∷ u8 (n / 256) ∷ u8 n ∷ []

-- What the stream answers to `write_u32`, `write_all` and `flush`; an error of a write comes with the
-- number of its bytes that have gone before.
pub record Sending : Type 0 where
  pub length_write : Result (Unit {0}) (ℕ × Text)
  pub body_write : Result (Unit {0}) (ℕ × Text)
  pub flushing : Result (Unit {0}) Text

-- The bytes that have gone, and what the function returns of errors.
send_parts : Sending → Bytes → Bytes → Bytes × Result (Unit {0}) Text
send_parts a len body = elim a.length_write [
  | err (n, e) ↦ (take n len, err e)
  | ok _ ↦ elim a.body_write [
    | err (n, e) ↦ (len ++ take n body, err e)
    | ok _ ↦ (len ++ body, a.flushing)
  ]
]

unfoldable pub write_ipc : {A : Type 0} → Postcard A → A → Sending → Bytes × Result (Unit {0}) Text
unfolding write_u32 send_parts
write_ipc c cmd a =
    let serialized = c.to_extend cmd in
    send_parts a (write_u32 (u32 (length serialized))) serialized

-- The event of a command.
unfoldable pub event_of : ServerCmd → Event
event_of (ServerCmd.set_battery_id id) = Event.batt_id id
event_of (ServerCmd.set_serial_dev dev) = Event.set_serial_device dev
event_of (ServerCmd.set_cutoff_millis millivolts) = Event.set_cutoff millivolts
event_of ServerCmd.start_test = Event.start_test
event_of ServerCmd.cancel_test = Event.cancel_test
event_of ServerCmd.shut_down = Event.shutdown
event_of ServerCmd.clear_fault = Event.clear_fault
event_of ServerCmd.allow_undercurrent = Event.under_current_response AllowUndercurrent.yes
event_of ServerCmd.disallow_undercurrent = Event.under_current_response AllowUndercurrent.no

-- A connection: the bytes that come, and the error of the stream behind them, by its `{:?}`, unless
-- the client hangs up.
pub record Connection : Type 0 where
  pub received : Bytes
  pub broken : Option Text

abbrev pub or_else {ℓ} : {A : Type ℓ} → A → Option A → A
or_else a none = a
or_else a (some b) = b

-- What a task sends to the control task, and what it prints.
abbrev pub Said : Type 0
Said = List Event × List Print

-- `event_tx.send(..).await.unwrap()` panics if the control task takes no events any more.
send_event : Bool → Option ServerCmd → Checked Said
unfolding event_of
send_event listening none = panic
send_event true (some cmd) = returns (event_of cmd ∷ [], [])
send_event false (some cmd) = panic

-- Whether the bytes of the message can be read, by `read_exact` into 512 bytes, or by `read_to_end`
-- and a slice.
readable : ℕ → Connection → Bytes → Bool
readable to_read conn stream =
    if ltb (length stream) to_read
    then false
    else (if ltb 512 to_read then not (is_some conn.broken) else true)

-- `read_u32` and what follows. Without the four bytes of a length the error is printed; `eof` is the
-- `{:?}` of the error of a stream that ended.
read_cmd : Postcard ServerCmd → Text → Bool → Connection → Bytes → Checked Said
unfolding send_event readable
read_cmd c eof listening conn (a ∷ b ∷ d ∷ e ∷ stream) =
    let to_read = a * 16777216 + b * 65536 + d * 256 + e in
    if readable to_read conn stream
    then send_event listening (c.from_bytes (take to_read stream))
    else panic
read_cmd c eof listening conn _ =
    returns ([], buf (codes "bad command: " ++ or_else eof conn.broken) ∷ [])

unfoldable pub for_each_conn :
    Postcard ServerCmd → Text → Bool → Result Connection Text → Checked Said
unfolding read_cmd
for_each_conn c eof listening (ok conn) = read_cmd c eof listening conn conn.received
for_each_conn c eof listening (err e) =
    returns ([], buf (codes "Error receiving connection: " ++ e) ∷ [])

-- The arms of the `select!` of `ipc_task`: the next connection, with whether the control task still
-- takes events; the end of the connections; and the word of the control task.
pub data Arm : Type 0 where
  conn_op : Bool → Result Connection Text → Arm
  no_more ipc_shutdown : Arm

-- Where `ipc_task` stands: it waits, or has returned, or has panicked.
pub data IpcTask : Type 0 where
  serving panicked : IpcTask
  returned : Result (Unit {0}) Text → IpcTask

unfoldable pub serve : Postcard ServerCmd → Text → List Arm → IpcTask × Said
serve c eof [] = (serving, ([], []))
serve c eof (no_more ∷ arms) = (returned (ok tt), ([], []))
serve c eof (ipc_shutdown ∷ arms) = (returned (ok tt), ([], []))
serve c eof (conn_op listening conn_res ∷ arms) =
    let (task, (events, prints)) = serve c eof arms in
    elim (for_each_conn c eof listening conn_res) [
      | panic ↦ (panicked, ([], []))
      | returns (first, said) ↦ (task, (first ++ events, said ++ prints))
    ]

-- `Endpoint::new` and `incoming` may fail before.
unfoldable pub ipc_task :
    Postcard ServerCmd
    → Text
    → Result (Unit {0}) Text
    → Result (Unit {0}) Text
    → List Arm
    → IpcTask × Said
unfolding serve
ipc_task c eof (err e) incoming arms = (returned (err e), ([], []))
ipc_task c eof (ok _) (err e) arms = (returned (err e), ([], []))
ipc_task c eof (ok _) (ok _) arms = serve c eof arms
