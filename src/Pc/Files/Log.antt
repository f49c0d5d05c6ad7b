-- ===== src/Pc/Files/Log.antt =====
-- The specification of the file task (files.rs): a log that writes every command out at once.
use battery_tester.Prelude.{
  ℕ, ◌<◌, ◌≡◌, refl, List, [], ◌∷◌, ◌++◌, append-nil, append_assoc, Option, none, some, ◌==◌,
  if◌then◌else◌, ap, ◌∙◌, inl, inr, Bool-cases, u8, ◌+◌, arith,
}
use mathlib.Core.Path.{subst, ap₂}
use battery_tester.Pc.Text.{Text}
use battery_tester.Pc.Messages.{Event, File, FileCmd, SaveData}
use battery_tester.Pc.Files.{
  header_nl, Disk, append_to, DataPersistance, line, new_data, new_file, Task, handle_cmd,
  file_task,
}

-- The abstract task: the file that is open, and the disk.
pub record Log : Type 0 where
  pub current : Option File
  pub disk : Disk

log_push : Option File → Disk → SaveData → Log × List Event
log_push (some f) disk r = (record { current = some f; disk = append_to disk f (line r) }, [])
log_push none disk r = (record { current = none; disk = disk }, Event.file_error ∷ [])

unfoldable pub log_cmd : Log → FileCmd → Log × List Event
unfolding log_push
log_cmd l (FileCmd.push r) = log_push l.current l.disk r
log_cmd l (FileCmd.new_file f) =
    (record { current = some f; disk = append_to l.disk f header_nl }, [])
log_cmd l FileCmd.close_file = (record l { current = none }, [])
log_cmd l FileCmd.shutdown = (record l { current = none }, [])

unfoldable pub log_task : Log → List FileCmd → Log × List Event
log_task l [] = (l, [])
log_task l (FileCmd.shutdown ∷ cs) = log_cmd l FileCmd.shutdown
log_task l (c ∷ cs) =
    let (l', es) = log_cmd l c in let (end, more) = log_task l' cs in (end, es ++ more)

-- The bytes of a file when what is buffered for it is written.
abbrev pub flushed : Option DataPersistance → Disk → Disk
flushed none disk g = disk g
flushed (some dp) disk g = if g == dp.out_file then disk g ++ dp.out_buf else disk g

abbrev pub file_of : Option DataPersistance → Option File
file_of none = none
file_of (some dp) = some dp.out_file

-- Fewer than ten records are counted.
abbrev Counted : Option DataPersistance → Type 0
Counted none = Unit
Counted (some dp) = dp.buffered_records < 10

pub record Refines (t : Task) (l : Log) : Type 0 where
  pub file : file_of t.persistance ≡ l.current
  pub bytes : (g : File) → flushed t.persistance t.disk g ≡ l.disk g
  pub counted : Counted t.persistance

abbrev BothRefine : Task × List Event → Log × List Event → Type 0
BothRefine t l = Refines t.0 l.0 × (t.1 ≡ l.1)

-- One command and then the rest, on both sides.
continue :
    (cs : List FileCmd) (t : Task × List Event) (l : Log × List Event)
    → BothRefine t l
    → ((a : Task) (b : Log) → Refines a b → BothRefine (file_task a cs) (log_task b cs))
    → BothRefine
        ((file_task t.0 cs).0, t.1 ++ (file_task t.0 cs).1)
        ((log_task l.0 cs).0, l.1 ++ (log_task l.0 cs).1)
continue cs t l h rest = ((rest t.0 l.0 h.0).0, ap₂ ◌++◌ h.1 (rest t.0 l.0 h.0).1)

-- Nothing is held back when the buffer is empty.
emptied-flushed :
    (f : File) (n : ℕ) (disk : Disk) (g : File)
    → flushed (some (record { out_buf = []; buffered_records = n; out_file = f })) disk g ≡ disk g
emptied-flushed f n disk g = ground (arith, append-nil (disk g))

module _ (dp : DataPersistance) (disk ld : Disk)
    (bytes : (g : File) → flushed (some dp) disk g ≡ ld g) where
  buffered-flushed :
      (n : ℕ) (more : Text) (g : File)
      → flushed (some (record dp { out_buf = dp.out_buf ++ more; buffered_records = n })) disk g
        ≡ append_to ld dp.out_file more g
  buffered-flushed n more g = ground (arith, bytes g, append_assoc (disk g) dp.out_buf more)

  new_data-flushed :
      (r : SaveData) (g : File)
      → flushed (some (new_data dp r disk).0) (new_data dp r disk).1 g
        ≡ append_to ld dp.out_file (line r) g
  unfolding new_data
  new_data-flushed r g = elim (Bool-cases (u8 (dp.buffered_records + 1) == 10)) [
    | inl full ↦ rw full (
        emptied-flushed dp.out_file 0 (append_to disk dp.out_file (dp.out_buf ++ line r)) g
        ∙ buffered-flushed 0 (line r) g)
    | inr room ↦ rw room (buffered-flushed (u8 (dp.buffered_records + 1)) (line r) g)
  ]

  new_data_counted :
      (r : SaveData)
      → dp.buffered_records < 10
      → ((new_data dp r disk).0.buffered_records < 10)
        × ((new_data dp r disk).0.out_file ≡ dp.out_file)
  unfolding new_data
  new_data_counted r h = ground arith

  new_file-flushed :
      (f : File) (g : File)
      → flushed (some (new_file dp f disk).0) (new_file dp f disk).1 g ≡ append_to ld f header_nl g
  unfolding new_file
  new_file-flushed f g =
      emptied-flushed f dp.buffered_records
        (append_to (append_to disk dp.out_file dp.out_buf) f header_nl) g
      ∙ ap (λ t. if g == f then t ++ header_nl else t) (bytes g)

cmd_while_open :
    (dp : DataPersistance) (disk ld : Disk) (c : FileCmd)
    → ((g : File) → flushed (some dp) disk g ≡ ld g)
    → dp.buffered_records < 10
    → BothRefine
        (handle_cmd (record { persistance = some dp; disk = disk }) c)
        (log_cmd (record { current = some dp.out_file; disk = ld }) c)
unfolding handle_cmd log_cmd
cmd_while_open dp disk ld (FileCmd.push r) b n = (
  record {
    file = ap some (new_data_counted dp disk ld b r n).1;
    bytes = new_data-flushed dp disk ld b r;
    counted = (new_data_counted dp disk ld b r n).0;
  },
  refl,
)
cmd_while_open dp disk ld (FileCmd.new_file f) b n =
    (record { file = refl; bytes = new_file-flushed dp disk ld b f; counted = n }, refl)
cmd_while_open dp disk ld FileCmd.close_file b n =
    (record { file = refl; bytes = b; counted = tt }, refl)
cmd_while_open dp disk ld FileCmd.shutdown b n =
    (record { file = refl; bytes = b; counted = tt }, refl)

cmd_while_closed :
    (disk ld : Disk) (c : FileCmd)
    → ((g : File) → disk g ≡ ld g)
    → BothRefine
        (handle_cmd (record { persistance = none; disk = disk }) c)
        (log_cmd (record { current = none; disk = ld }) c)
unfolding handle_cmd log_cmd
cmd_while_closed disk ld (FileCmd.push r) b =
    (record { file = refl; bytes = b; counted = tt }, refl)
cmd_while_closed disk ld (FileCmd.new_file f) b = (
  record {
    file = refl;
    bytes = λ g.
        emptied-flushed f 0 (append_to disk f header_nl) g
        ∙ ap (λ t. if g == f then t ++ header_nl else t) (b g);
    counted = omega arith;
  },
  refl,
)
cmd_while_closed disk ld FileCmd.close_file b =
    (record { file = refl; bytes = b; counted = tt }, refl)
cmd_while_closed disk ld FileCmd.shutdown b =
    (record { file = refl; bytes = b; counted = tt }, refl)

cmd_in_any :
    (p : Option DataPersistance) (disk : Disk) (l : Log) (c : FileCmd)
    → Refines (record { persistance = p; disk = disk }) l
    → BothRefine (handle_cmd (record { persistance = p; disk = disk }) c) (log_cmd l c)
cmd_in_any (some dp) disk l c h =
    subst
      (λ k.
        BothRefine (handle_cmd (record { persistance = some dp; disk = disk }) c)
          (log_cmd (record { current = k; disk = l.disk }) c))
      h.file (cmd_while_open dp disk l.disk c h.bytes h.counted)
cmd_in_any none disk l c h =
    subst
      (λ k.
        BothRefine (handle_cmd (record { persistance = none; disk = disk }) c)
          (log_cmd (record { current = k; disk = l.disk }) c))
      h.file (cmd_while_closed disk l.disk c h.bytes)

pub handle_cmd-Refines :
    (t : Task) (l : Log) (c : FileCmd) → Refines t l → BothRefine (handle_cmd t c) (log_cmd l c)
handle_cmd-Refines t l c h = cmd_in_any t.persistance t.disk l c h

-- From states that agree, over any commands: the task that buffers up to ten records sends the same
-- events as the one that writes each command out at once, has the same file open, holds fewer than
-- ten records back, and what is on the disk together with what it holds back is, for every file,
-- byte for byte what the other has written.
pub file_task-Refines :
    (cs : List FileCmd) (t : Task) (l : Log)
    → Refines t l
    → BothRefine (file_task t cs) (log_task l cs)
unfolding file_task log_task
file_task-Refines [] t l h = (h, refl)
file_task-Refines (FileCmd.shutdown ∷ cs) t l h = handle_cmd-Refines t l FileCmd.shutdown h
file_task-Refines (FileCmd.close_file ∷ cs) t l h =
    continue cs (handle_cmd t FileCmd.close_file) (log_cmd l FileCmd.close_file)
      (handle_cmd-Refines t l FileCmd.close_file h) (λ a b k. file_task-Refines cs a b k)
file_task-Refines (FileCmd.new_file f ∷ cs) t l h =
    continue cs (handle_cmd t (FileCmd.new_file f)) (log_cmd l (FileCmd.new_file f))
      (handle_cmd-Refines t l (FileCmd.new_file f) h) (λ a b k. file_task-Refines cs a b k)
file_task-Refines (FileCmd.push r ∷ cs) t l h =
    continue cs (handle_cmd t (FileCmd.push r)) (log_cmd l (FileCmd.push r))
      (handle_cmd-Refines t l (FileCmd.push r) h) (λ a b k. file_task-Refines cs a b k)
