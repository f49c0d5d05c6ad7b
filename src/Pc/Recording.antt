-- ===== src/Pc/Recording.antt =====
-- The control task and the file task together: server.rs against files.rs.
use battery_tester.Prelude.{◌≡◌, refl, ap, sym, ◌∙◌, false, List, [], ◌∷◌, Option, none, some}
use mathlib.Core.Path.{subst}
use battery_tester.Common.{LoadState}
use battery_tester.Pc.State.{is_some}
use battery_tester.Pc.Messages.{Event, File, FileCmd}
use battery_tester.Pc.Files.{append_to, line, header_nl, DataPersistance, Disk, Task, file_task}
use battery_tester.Pc.Files.Log.{
  Log, flushed, file_of, log_cmd, log_task, Refines, file_task-Refines,
}
use battery_tester.Pc.Server.Base.{
  FilePath, Debug, World, Out, print, to_com, to_file, ipc_shutdown,
}
use battery_tester.Pc.Server.Program.{stopped, program_event_task}
use battery_tester.Pc.Server.Program.Invariant.{PushesOpen, open_after, load_after}
use battery_tester.Pc.Server.Program.Runs.{IsGood, program_event_task-StepGood}

-- What the control task puts into the channel of the file task.
unfoldable pub file_cmds : List Out → List FileCmd
file_cmds [] = []
file_cmds (to_file c ∷ os) = c ∷ file_cmds os
file_cmds (print p ∷ os) = file_cmds os
file_cmds (to_com c ∷ os) = file_cmds os
file_cmds (ipc_shutdown ∷ os) = file_cmds os

log_silent :
    (os : List Out) (current : Option File) (disk : Disk)
    → PushesOpen (is_some current) os
    → (log_task (record { current = current; disk = disk }) (file_cmds os)).1 ≡ []
unfolding file_cmds log_task log_cmd
log_silent [] c disk h = refl
log_silent (to_file (FileCmd.push r) ∷ os) none disk h = absurd (cc)
log_silent (to_file (FileCmd.push r) ∷ os) (some f) disk h =
    log_silent os (some f) (append_to disk f (line r)) h.1
log_silent (to_file (FileCmd.new_file f) ∷ os) c disk h =
    log_silent os (some f) (append_to disk f header_nl) h
log_silent (to_file FileCmd.close_file ∷ os) c disk h = log_silent os none disk h
log_silent (to_file FileCmd.shutdown ∷ os) c disk h = refl
log_silent (print p ∷ os) c disk h = log_silent os c disk h
log_silent (to_com k ∷ os) c disk h = log_silent os c disk h
log_silent (ipc_shutdown ∷ os) c disk h = log_silent os c disk h

-- Whatever events the control task receives: fed with all the file commands that it sends, in order,
-- the file task, begun with no file open, never reports that a record has no file.
pub no_file_error :
    (d : Debug) (dir : FilePath) (is : List (World × Option Event)) (disk : Disk)
    → (file_task
        (record { persistance = none; disk = disk })
        (file_cmds (program_event_task d dir is).1)).1
      ≡ []
no_file_error d dir is disk =
    (file_task-Refines (file_cmds (program_event_task d dir is).1) _ begun
      (record { file = refl; bytes = λ g. refl; counted = tt })).1
    ∙ log_silent (program_event_task d dir is).1 none disk (program_event_task-StepGood d dir is).1
  where
    begun : Log
    begun = record { current = none; disk = disk }

-- The log has no file open when the control task has closed it.
log_closed :
    (os : List Out) (current : Option File) (disk : Disk)
    → open_after (is_some current) os ≡ false
    → (log_task (record { current = current; disk = disk }) (file_cmds os)).0.current ≡ none
unfolding file_cmds log_task log_cmd
log_closed [] none disk h = refl
log_closed [] (some f) disk h = absurd (cc)
log_closed (to_file (FileCmd.push r) ∷ os) none disk h = log_closed os none disk h
log_closed (to_file (FileCmd.push r) ∷ os) (some f) disk h =
    log_closed os (some f) (append_to disk f (line r)) h
log_closed (to_file (FileCmd.new_file f) ∷ os) c disk h =
    log_closed os (some f) (append_to disk f header_nl) h
log_closed (to_file FileCmd.close_file ∷ os) c disk h = log_closed os none disk h
log_closed (to_file FileCmd.shutdown ∷ os) c disk h = refl
log_closed (print p ∷ os) c disk h = log_closed os c disk h
log_closed (to_com k ∷ os) c disk h = log_closed os c disk h
log_closed (ipc_shutdown ∷ os) c disk h = log_closed os c disk h

none_file : (o : Option DataPersistance) → file_of o ≡ none → o ≡ none
none_file none h = refl
none_file (some dp) h = absurd (cc)

-- With no file open the disks agree.
closed_lem :
    (t : Task) (l : Log)
    → Refines t l
    → l.current ≡ none
    → (t.persistance ≡ none) × ((g : File) → t.disk g ≡ l.disk g)
closed_lem t l h e =
    let p : t.persistance ≡ none = none_file t.persistance (h.file ∙ e) in
    (p, λ g. sym (ap (λ o. flushed o t.disk g) p) ∙ h.bytes g)

stopped_closed :
    (d : Debug) (dir : FilePath) (is : List (World × Option Event))
    → (program_event_task d dir is).0 ≡ stopped
    → open_after false (program_event_task d dir is).1 ≡ false
stopped_closed d dir is h =
    (subst
      (λ r.
        IsGood (load_after LoadState.off (program_event_task d dir is).1)
          (open_after false (program_event_task d dir is).1) dir r)
      h (program_event_task-StepGood d dir is).0).1

-- Whatever events the control task receives, if it has stopped: fed with all the file commands that it
-- has sent, in order, the file task, begun with no file open, ends with no file open, and every file
-- holds, byte for byte, what it would hold if each command had been written out at once.
pub nothing_held_back :
    (d : Debug) (dir : FilePath) (is : List (World × Option Event)) (disk : Disk)
    → (program_event_task d dir is).0 ≡ stopped
    → ((file_task
          (record { persistance = none; disk = disk })
          (file_cmds (program_event_task d dir is).1)).0.persistance
        ≡ none)
      × ((g : File)
          → (file_task
                (record { persistance = none; disk = disk })
                (file_cmds (program_event_task d dir is).1)).0.disk
              g
            ≡ (log_task
                  (record { current = none; disk = disk })
                  (file_cmds (program_event_task d dir is).1)).0.disk
                g)
nothing_held_back d dir is disk h =
    closed_lem _ _
      (file_task-Refines (file_cmds (program_event_task d dir is).1)
        (record { persistance = none; disk = disk }) (record { current = none; disk = disk })
        (record { file = refl; bytes = λ g. refl; counted = tt })).0
      (log_closed (program_event_task d dir is).1 none disk (stopped_closed d dir is h))
