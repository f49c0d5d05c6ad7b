-- ===== src/Pc/Network/History.antt =====
-- The tasks alone, over one input more: server.rs, serial.rs and files.rs.
use battery_tester.Prelude.{
  ◌≡◌, refl, ap, sym, ◌∙◌, List, [], ◌∷◌, ◌++◌, Option, none, some, append-nil, append_assoc,
}
use battery_tester.Common.{BiCommand, BiReply}
use battery_tester.Wire.{Codec}
use battery_tester.Pc.Text.{Text}
use battery_tester.Pc.Messages.{ComCmd, Event, FileCmd}
use battery_tester.Pc.Files.{Task, handle_cmd, file_task}
use battery_tester.Pc.Server.Base.{
  FilePath, Debug, World, Out, print, to_com, to_file, ipc_shutdown,
}
use battery_tester.Pc.Server.Program.{Running, step, runs, start, program_event_task}
use battery_tester.Pc.Serial.Com.{
  Answers, Input, command, read, tick, ComTask, Output, serial_com_task,
}
use battery_tester.Pc.Serial.Com
use battery_tester.Pc.Driving.{com_cmds, taken}
use battery_tester.Pc.Recording.{file_cmds}

-- What goes out in two parts.
abbrev pub behind : {S O : Type 0} → List O → S × List O → S × List O
behind outs (s, more) = (s, outs ++ more)

behind-append :
    {S O : Type 0} (xs ys : List O) (x : S × List O) → behind xs (behind ys x) ≡ behind (xs ++ ys) x
behind-append xs ys (s, zs) = ap (λ o. (s, o)) (sym (append_assoc xs ys zs))

behind-nil : {S O : Type 0} (x : S × List O) → (x.0, x.1 ++ []) ≡ x
behind-nil (s, zs) = ap (λ o. (s, o)) (append-nil zs)

runs_one_more :
    (d : Debug) (r : Running) (es : List (World × Option Event)) (i : World × Option Event)
    → runs d r (es ++ i ∷ []) ≡ behind (runs d r es).1 (step d (runs d r es).0 i)
unfolding runs
runs_one_more d r [] i = behind-nil (step d r i)
runs_one_more d r (e ∷ es) i =
    ap (behind (step d r e).1) (runs_one_more d (step d r e).0 es i)
    ∙ behind-append (step d r e).1 (runs d (step d r e).0 es).1
        (step d (runs d (step d r e).0 es).0 i)

pub program_one_more :
    (d : Debug) (dir : FilePath) (es : List (World × Option Event)) (i : World × Option Event)
    → program_event_task d dir (es ++ i ∷ [])
      ≡ behind (program_event_task d dir es).1 (step d (program_event_task d dir es).0 i)
unfolding program_event_task
program_one_more d dir es i =
    ap (behind (start d dir).1) (runs_one_more d (start d dir).0 es i)
    ∙ behind-append (start d dir).1 (runs d (start d dir).0 es).1
        (step d (runs d (start d dir).0 es).0 i)

module _ (commands : Codec BiCommand) (replies : Codec BiReply) (debug : Option ComCmd → Text) where
  abbrev rounds : ComTask → List (Answers × Input) → ComTask × List Output
  rounds = serial_com_task commands replies debug

  abbrev round : ComTask → Answers × Input → ComTask × List Output
  round = Com.step commands replies debug

  pub com_one_more :
      (t : ComTask) (is : List (Answers × Input)) (i : Answers × Input)
      → serial_com_task commands replies debug t (is ++ i ∷ [])
        ≡ behind
            (serial_com_task commands replies debug t is).1
            (Com.step commands replies debug (serial_com_task commands replies debug t is).0 i)
  unfolding serial_com_task
  com_one_more t [] i = behind-nil (round t i)
  com_one_more t (e ∷ is) i =
      ap (behind (round t e).1) (com_one_more (round t e).0 is i)
      ∙ behind-append (round t e).1 (rounds (round t e).0 is).1
          (round (rounds (round t e).0 is).0 i)

-- None of some commands ends the file task.
abbrev pub NoStop : List FileCmd → Type 0
NoStop [] = Unit
NoStop (FileCmd.shutdown ∷ cs) = ⊥
NoStop (_ ∷ cs) = NoStop cs

file_one_behind :
    (x : Task × List Event) (cs : List FileCmd) (c : FileCmd)
    → file_task x.0 (cs ++ c ∷ []) ≡ behind (file_task x.0 cs).1 (handle_cmd (file_task x.0 cs).0 c)
    → behind x.1 (file_task x.0 (cs ++ c ∷ []))
      ≡ behind (x.1 ++ (file_task x.0 cs).1) (handle_cmd (file_task x.0 cs).0 c)
file_one_behind x cs c ih =
    ap (behind x.1) ih ∙ behind-append x.1 (file_task x.0 cs).1 (handle_cmd (file_task x.0 cs).0 c)

pub file_one_more :
    (t : Task) (cs : List FileCmd) (c : FileCmd)
    → NoStop cs
    → file_task t (cs ++ c ∷ []) ≡ behind (file_task t cs).1 (handle_cmd (file_task t cs).0 c)
unfolding file_task
file_one_more t [] FileCmd.shutdown h = refl
file_one_more t [] (FileCmd.push r) h = behind-nil (handle_cmd t (FileCmd.push r))
file_one_more t [] (FileCmd.new_file f) h = behind-nil (handle_cmd t (FileCmd.new_file f))
file_one_more t [] FileCmd.close_file h = behind-nil (handle_cmd t FileCmd.close_file)
file_one_more t (FileCmd.shutdown ∷ cs) c h = absurd h
file_one_more t (FileCmd.push r ∷ cs) c h =
    file_one_behind (handle_cmd t (FileCmd.push r)) cs c
      (file_one_more (handle_cmd t (FileCmd.push r)).0 cs c h)
file_one_more t (FileCmd.new_file f ∷ cs) c h =
    file_one_behind (handle_cmd t (FileCmd.new_file f)) cs c
      (file_one_more (handle_cmd t (FileCmd.new_file f)).0 cs c h)
file_one_more t (FileCmd.close_file ∷ cs) c h =
    file_one_behind (handle_cmd t FileCmd.close_file) cs c
      (file_one_more (handle_cmd t FileCmd.close_file).0 cs c h)

pub com_cmds-append : (xs ys : List Out) → com_cmds (xs ++ ys) ≡ com_cmds xs ++ com_cmds ys
unfolding com_cmds
com_cmds-append [] ys = refl
com_cmds-append (to_com c ∷ xs) ys = ap (λ t. c ∷ t) (com_cmds-append xs ys)
com_cmds-append (print p ∷ xs) ys = com_cmds-append xs ys
com_cmds-append (to_file c ∷ xs) ys = com_cmds-append xs ys
com_cmds-append (ipc_shutdown ∷ xs) ys = com_cmds-append xs ys

pub file_cmds-append : (xs ys : List Out) → file_cmds (xs ++ ys) ≡ file_cmds xs ++ file_cmds ys
unfolding file_cmds
file_cmds-append [] ys = refl
file_cmds-append (to_file c ∷ xs) ys = ap (λ t. c ∷ t) (file_cmds-append xs ys)
file_cmds-append (print p ∷ xs) ys = file_cmds-append xs ys
file_cmds-append (to_com c ∷ xs) ys = file_cmds-append xs ys
file_cmds-append (ipc_shutdown ∷ xs) ys = file_cmds-append xs ys

pub taken-append : (xs ys : List (Answers × Input)) → taken (xs ++ ys) ≡ taken xs ++ taken ys
unfolding taken
taken-append [] ys = refl
taken-append ((a, command (some c)) ∷ xs) ys = ap (λ t. c ∷ t) (taken-append xs ys)
taken-append ((a, command none) ∷ xs) ys = taken-append xs ys
taken-append ((a, read r) ∷ xs) ys = taken-append xs ys
taken-append ((a, tick) ∷ xs) ys = taken-append xs ys

nothing_first : (xs ys : List Event) → xs ++ ys ≡ [] → (xs ≡ []) × (ys ≡ [])
nothing_first [] ys h = (refl, h)
nothing_first (x ∷ xs) ys h = absurd (cc)

-- If some commands lead to no event, the first of them lead to none.
pub file_first :
    (t : Task) (xs ys : List FileCmd) → (file_task t (xs ++ ys)).1 ≡ [] → (file_task t xs).1 ≡ []
unfolding file_task
file_first t [] ys h = refl
file_first t (FileCmd.shutdown ∷ xs) ys h = h
file_first t (FileCmd.push r ∷ xs) ys h =
    let (p, q) = nothing_first (handle_cmd t (FileCmd.push r)).1 _ h in
    rw (p, file_first (handle_cmd t (FileCmd.push r)).0 xs ys q) refl
file_first t (FileCmd.new_file f ∷ xs) ys h =
    let (p, q) = nothing_first (handle_cmd t (FileCmd.new_file f)).1 _ h in
    rw (p, file_first (handle_cmd t (FileCmd.new_file f)).0 xs ys q) refl
file_first t (FileCmd.close_file ∷ xs) ys h =
    let (p, q) = nothing_first (handle_cmd t FileCmd.close_file).1 _ h in
    rw (p, file_first (handle_cmd t FileCmd.close_file).0 xs ys q) refl

pub NoStop-more :
    (cs : List FileCmd) (c : FileCmd) → NoStop cs → NoStop (c ∷ []) → NoStop (cs ++ c ∷ [])
NoStop-more [] c h k = k
NoStop-more (FileCmd.shutdown ∷ cs) c h k = absurd h
NoStop-more (FileCmd.push r ∷ cs) c h k = NoStop-more cs c h k
NoStop-more (FileCmd.new_file f ∷ cs) c h k = NoStop-more cs c h k
NoStop-more (FileCmd.close_file ∷ cs) c h k = NoStop-more cs c h k
