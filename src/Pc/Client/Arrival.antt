-- ===== src/Pc/Client/Arrival.antt =====
-- From the command line of the client to the event of the control task.
use battery_tester.Prelude.{
  ◌+◌, ◌*◌, ◌/◌, ◌≡◌, ◌<◌, refl, ap, ◌∙◌, [], ◌∷◌, ok, true, if◌then◌else◌, none, some, returns,
  length, take_all, u8, u32, le→not-ltb, arith,
}
use battery_tester.Common.{AllowUndercurrent}
use battery_tester.Wire.{Bytes}
use battery_tester.Pc.Text.{Text}
use battery_tester.Pc.Messages.{Event, ServerCmd}
use battery_tester.Pc.Ipc.{Postcard, Sending, Connection, write_ipc, event_of, for_each_conn}
use battery_tester.Pc.Client.{
  Subcommands, battery_id, serial_dev, set_cutoff, start, cancel, shutdown, clear_fault,
  allow_undercurrent, from_subcommand, client,
}

-- What the user asks for.
abbrev pub asked : Subcommands → Event
asked (battery_id cmd) = Event.batt_id (record { year = cmd.year; index = cmd.index })
asked (serial_dev cmd) = Event.set_serial_device cmd.device_name
asked (set_cutoff cmd) = Event.set_cutoff (record { raw = cmd.millivolts })
asked start = Event.start_test
asked cancel = Event.cancel_test
asked shutdown = Event.shutdown
asked clear_fault = Event.clear_fault
asked (allow_undercurrent resp) =
    Event.under_current_response
      (if resp.allow then AllowUndercurrent.yes else AllowUndercurrent.no)

event_of-from_subcommand : (cmd : Subcommands) → event_of (from_subcommand cmd) ≡ asked cmd
unfolding event_of from_subcommand
event_of-from_subcommand cmd = ground arith

-- Every write of the client succeeds.
abbrev pub all_sent : Sending
all_sent = record { length_write = ok tt; body_write = ok tt; flushing = ok tt }

-- What has come when the client has hung up.
abbrev pub whole : Bytes → Connection
whole bytes = record { received = bytes; broken = none }

-- The message of a command can be carried.
abbrev pub Carried : Postcard ServerCmd → ServerCmd → Type 0
Carried c cmd =
    (c.from_bytes (c.to_extend cmd) ≡ some cmd) × (length (c.to_extend cmd) < 4294967296)

for_each_conn-write_ipc :
    (c : Postcard ServerCmd) (eof : Text) (cmd : ServerCmd)
    → Carried c cmd
    → for_each_conn c eof true (ok (whole (write_ipc c cmd all_sent).0))
      ≡ returns (event_of cmd ∷ [], [])
unfolding for_each_conn write_ipc
for_each_conn-write_ipc c eof cmd (back, h) =
    let s = c.to_extend cmd in
    let n = length s in
    let read : u8 (u32 n / 16777216) * 16777216
          + u8 (u32 n / 65536) * 65536
          + u8 (u32 n / 256) * 256
          + u8 (u32 n)
        ≡ n =
      omega arith in
    rw (read, le→not-ltb n n (omega arith), take_all n s refl, back) (ground arith)

-- Whatever the user asks the client for, if postcard gives the message back that it was given, the
-- message is shorter than 4 GiB, the client can connect and none of its writes fails: the client
-- returns without an error, and the server's side of the connection does not panic, prints nothing,
-- and sends the control task, if that still takes events, exactly the event that was asked for.
pub client_is_heard :
    (c : Postcard ServerCmd) (eof : Text) (cmd : Subcommands)
    → Carried c (from_subcommand cmd)
    → let (bytes, result) = client c (ok tt) all_sent cmd in
      (result ≡ ok tt)
      × (for_each_conn c eof true (ok (whole bytes)) ≡ returns (asked cmd ∷ [], []))
unfolding client write_ipc
client_is_heard c eof cmd h = (
  refl,
  for_each_conn-write_ipc c eof (from_subcommand cmd) h
      ∙ ap (λ e. returns (e ∷ [], [])) (event_of-from_subcommand cmd),
)
