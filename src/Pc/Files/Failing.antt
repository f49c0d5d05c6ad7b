-- ===== src/Pc/Files/Failing.antt =====
-- The file task when a write or a flush may fail (battery_tester_pc/src/files.rs): each is followed by
-- `unwrap`. A command comes with whether all the writes that it leads to succeed.
use battery_tester.Prelude.{
  ℕ, ◌+◌, ◌<◌, ◌≡◌, refl, ap, ◌∙◌, Bool, true, false, not, inl, inr, Bool-cases, List, [], ◌∷◌,
  ◌++◌, Option, none, some, Checked, returns, panic, ◌>>=◌, ◌==◌, if◌then◌else◌, u8, arith,
}
use battery_tester.Pc.Messages.{Event, FileCmd, SaveData}
use battery_tester.Pc.Files.{
  Disk, DataPersistance, Task, new_data, new_file, new, flush_reset, write_all, handle_cmd,
  file_task,
}

-- Whether a command leads to a write.
writes_out : Option DataPersistance → FileCmd → Bool
writes_out none (FileCmd.push r) = false
writes_out (some dp) (FileCmd.push r) = u8 (dp.buffered_records + 1) == 10
writes_out o (FileCmd.new_file f) = true
writes_out none _ = false
writes_out (some dp) _ = true

-- One command; `unwrap` panics on a write that fails.
unfoldable pub handle_checked : Task → Bool → FileCmd → Checked (Task × List Event)
unfolding writes_out
handle_checked t written c =
    if writes_out t.persistance c
    then (if written then returns (handle_cmd t c) else panic)
    else returns (handle_cmd t c)

-- Whether a write may fail or not, what does not panic is what it was.
same_result {ℓ} :
    {A : Type ℓ} (writes written : Bool) (x r : A)
    → (if writes then (if written then returns x else panic) else returns x) ≡ returns r
    → r ≡ x
same_result true true x r h = cc
same_result true false x r h = cc
same_result false written x r h = cc

pub handle_checked_lem :
    (t : Task) (written : Bool) (c : FileCmd) (r : Task × List Event)
    → handle_checked t written c ≡ returns r
    → r ≡ handle_cmd t c
unfolding handle_checked
handle_checked_lem t written c r h =
    same_result (writes_out t.persistance c) written (handle_cmd t c) r h

-- The shutdown closes the file.
pub shutdown_closes : (t : Task) → (handle_cmd t FileCmd.shutdown).0.persistance ≡ none
unfolding handle_cmd
shutdown_closes t = closed_of t.persistance t.disk
  where
    closed_of :
        (o : Option DataPersistance) (disk : Disk)
        → (handle_cmd (record { persistance = o; disk = disk }) FileCmd.shutdown).0.persistance
          ≡ none
    closed_of none disk = refl
    closed_of (some dp) disk = refl

-- The task over the commands, up to the first panic.
unfoldable pub task_checked : Task → List (Bool × FileCmd) → Checked (Task × List Event)
unfolding handle_checked
task_checked t [] = returns (t, [])
task_checked t ((written, FileCmd.shutdown) ∷ cs) = handle_checked t written FileCmd.shutdown
task_checked t ((written, c) ∷ cs) = handle_checked t written c >>= λ r.
    task_checked r.0 cs >>= λ more. returns (more.0, r.1 ++ more.1)

-- The number of records that are held back, while a file is open.
abbrev pub held : Option DataPersistance → Option ℕ
held none = none
held (some dp) = some dp.buffered_records

-- Whether one of the commands needs a write that fails, told from the number of records held back: ten
-- records are written, and so are the rest of them and a header when a file is opened or closed.
abbrev pub fails : Option ℕ → List (Bool × FileCmd) → Bool
fails o [] = false
fails none ((written, FileCmd.push r) ∷ cs) = fails none cs
fails (some n) ((written, FileCmd.push r) ∷ cs) =
    let filled = fails (some 0) cs in
    let more = fails (some (n + 1)) cs in
    if n == 9 then (if written then filled else true) else more
fails none ((written, FileCmd.new_file f) ∷ cs) =
    let rest = fails (some 0) cs in if written then rest else true
fails (some n) ((written, FileCmd.new_file f) ∷ cs) =
    let rest = fails (some n) cs in if written then rest else true
fails none ((written, FileCmd.close_file) ∷ cs) = fails none cs
fails (some n) ((written, FileCmd.close_file) ∷ cs) =
    let rest = fails none cs in if written then rest else true
fails none ((written, FileCmd.shutdown) ∷ cs) = false
fails (some n) ((written, FileCmd.shutdown) ∷ cs) = not written

-- The commands alone.
abbrev pub commands : List (Bool × FileCmd) → List FileCmd
commands [] = []
commands ((written, c) ∷ cs) = c ∷ commands cs

-- A panic if a write has failed.
outcome : Bool → Task × List Event → Checked (Task × List Event)
outcome failed r = if failed then panic else returns r

-- One command and the rest, where the command goes well.
goes_well :
    (t t' : Task) (es : List Event) (written failed : Bool) (c : FileCmd)
    (cs : List (Bool × FileCmd))
    → handle_checked t written c ≡ returns (t', es)
    → task_checked t' cs ≡ outcome failed (file_task t' (commands cs))
    → (handle_checked t written c >>= λ r.
        task_checked r.0 cs >>= λ more. returns (more.0, r.1 ++ more.1))
      ≡ outcome failed ((file_task t' (commands cs)).0, es ++ (file_task t' (commands cs)).1)
unfolding outcome
goes_well t t' es written true c cs h k = rw (h, k) refl
goes_well t t' es written false c cs h k = rw (h, k) refl

-- Fewer than ten records are held back.
abbrev pub Counted : Option DataPersistance → Type 0
Counted none = Unit
Counted (some dp) = dp.buffered_records < 10

abbrev pub at : Option DataPersistance → Disk → Task
at o disk = record { persistance = o; disk = disk }

-- A record moves the counter on, and the tenth one sets it back.
new_data_count :
    (dp : DataPersistance) (r : SaveData) (disk : Disk)
    → dp.buffered_records < 10
    → (new_data dp r disk).0.buffered_records
      ≡ (if dp.buffered_records == 9 then 0 else dp.buffered_records + 1)
unfolding new_data write_all
new_data_count dp r disk h = ground arith

tenth : (n : ℕ) → n < 10 → (u8 (n + 1) == 10) ≡ (n == 9)
tenth n h = ground arith

counted_on : (n : ℕ) → n < 10 → (if n == 9 then 0 else n + 1) < 10
counted_on n h = ground arith

counted :
    (dp : DataPersistance) (r : SaveData) (disk : Disk)
    → dp.buffered_records < 10
    → (new_data dp r disk).0.buffered_records < 10
counted dp r disk h = let e = new_data_count dp r disk h in rw e (counted_on dp.buffered_records h)

push_checked :
    (dp : DataPersistance) (disk : Disk) (written : Bool) (r : SaveData)
    → dp.buffered_records < 10
    → handle_checked (at (some dp) disk) written (FileCmd.push r) ≡ (
        if dp.buffered_records == 9
        then (if written then returns (handle_cmd (at (some dp) disk) (FileCmd.push r)) else panic)
        else returns (handle_cmd (at (some dp) disk) (FileCmd.push r)))
unfolding handle_checked writes_out
push_checked dp disk written r h = rw (tenth dp.buffered_records h) refl

-- The counter behind a record.
abbrev counter : ℕ → ℕ
counter n = if n == 9 then 0 else n + 1

-- What a record is to come to while a file is open, where the rest is as it should be.
abbrev Goes : DataPersistance → Disk → Bool → SaveData → List (Bool × FileCmd) → Bool → Type 0
Goes dp disk written r cs failed =
    task_checked (at (some dp) disk) ((written, FileCmd.push r) ∷ cs)
    ≡ outcome failed (file_task (at (some dp) disk) (FileCmd.push r ∷ commands cs))

-- A record whose write, where it needs one, succeeds.
push-Goes :
    (dp : DataPersistance) (disk : Disk) (written : Bool) (r : SaveData)
    (cs : List (Bool × FileCmd))
    → dp.buffered_records < 10
    → handle_checked (at (some dp) disk) written (FileCmd.push r)
      ≡ returns (handle_cmd (at (some dp) disk) (FileCmd.push r))
    → task_checked (at (some (new_data dp r disk).0) (new_data dp r disk).1) cs
      ≡ outcome
          (fails (some (new_data dp r disk).0.buffered_records) cs)
          (file_task (at (some (new_data dp r disk).0) (new_data dp r disk).1) (commands cs))
    → (n : ℕ) → counter dp.buffered_records ≡ n
    → Goes dp disk written r cs (fails (some n) cs)
unfolding task_checked file_task handle_cmd
push-Goes dp disk written r cs h g ih n e =
    goes_well (at (some dp) disk) (at (some (new_data dp r disk).0) (new_data dp r disk).1) []
      written _ (FileCmd.push r) cs g ih
    ∙ ap
        (λ n.
          outcome (fails (some n) cs)
            (file_task (at (some dp) disk) (FileCmd.push r ∷ commands cs)))
        (new_data_count dp r disk h ∙ e)

push-fails :
    (dp : DataPersistance) (disk : Disk) (written : Bool) (r : SaveData)
    (cs : List (Bool × FileCmd))
    → dp.buffered_records < 10
    → task_checked (at (some (new_data dp r disk).0) (new_data dp r disk).1) cs
      ≡ outcome
          (fails (some (new_data dp r disk).0.buffered_records) cs)
          (file_task (at (some (new_data dp r disk).0) (new_data dp r disk).1) (commands cs))
    → Goes dp disk written r cs (fails (some dp.buffered_records) ((written, FileCmd.push r) ∷ cs))
unfolding task_checked outcome
push-fails dp disk true r cs h ih =
    let c = push_checked dp disk true r h in
    elim (Bool-cases (dp.buffered_records == 9)) [
      | inl e ↦ rw e (push-Goes dp disk true r cs h (c ∙ rw e refl) ih 0 (rw e refl))
      | inr e ↦
          rw e
            (push-Goes dp disk true r cs h (c ∙ rw e refl) ih (dp.buffered_records + 1) (rw e refl))
    ]
push-fails dp disk false r cs h ih =
    let c = push_checked dp disk false r h in
    elim (Bool-cases (dp.buffered_records == 9)) [
      | inl e ↦ rw (c, e) refl
      | inr e ↦
          rw e (
            push-Goes dp disk false r cs h (c ∙ rw e refl) ih (dp.buffered_records + 1) (rw e refl))
    ]

-- Over any commands, with fewer than ten records held back where a file is open: if a command needs a
-- write and that fails, which is told from the number of records held back, the file task panics;
-- otherwise it ends as the task whose writes all succeed.
pub task_checked-fails :
    (cs : List (Bool × FileCmd)) (o : Option DataPersistance) (disk : Disk)
    → Counted o
    → task_checked (at o disk) cs
      ≡ (if fails (held o) cs then panic else returns (file_task (at o disk) (commands cs)))
unfolding task_checked handle_checked writes_out file_task handle_cmd outcome
task_checked-fails [] o disk h = refl
task_checked-fails ((written, FileCmd.push r) ∷ cs) none disk h =
    goes_well (at none disk) (at none disk) _ written _ (FileCmd.push r) cs refl
      (task_checked-fails cs none disk tt)
task_checked-fails ((written, FileCmd.push r) ∷ cs) (some dp) disk h =
    push-fails dp disk written r cs h (
      task_checked-fails cs (some (new_data dp r disk).0) (new_data dp r disk).1
        (counted dp r disk h))
task_checked-fails ((true, FileCmd.new_file f) ∷ cs) none disk h =
    goes_well (at none disk) (at (some (new f disk).0) (new f disk).1) [] true _
      (FileCmd.new_file f) cs refl
      (task_checked-fails cs (some (new f disk).0) (new f disk).1 (omega arith))
task_checked-fails ((false, FileCmd.new_file f) ∷ cs) none disk h = refl
task_checked-fails ((true, FileCmd.new_file f) ∷ cs) (some dp) disk h =
    goes_well (at (some dp) disk) (at (some (new_file dp f disk).0) (new_file dp f disk).1) [] true
      _ (FileCmd.new_file f) cs refl
      (task_checked-fails cs (some (new_file dp f disk).0) (new_file dp f disk).1 h)
task_checked-fails ((false, FileCmd.new_file f) ∷ cs) (some dp) disk h = refl
task_checked-fails ((written, FileCmd.close_file) ∷ cs) none disk h =
    goes_well (at none disk) (at none disk) [] written _ FileCmd.close_file cs refl
      (task_checked-fails cs none disk tt)
task_checked-fails ((true, FileCmd.close_file) ∷ cs) (some dp) disk h =
    goes_well (at (some dp) disk) (at none (flush_reset dp disk).1) [] true _ FileCmd.close_file cs
      refl (task_checked-fails cs none (flush_reset dp disk).1 tt)
task_checked-fails ((false, FileCmd.close_file) ∷ cs) (some dp) disk h = refl
task_checked-fails ((written, FileCmd.shutdown) ∷ cs) none disk h = refl
task_checked-fails ((true, FileCmd.shutdown) ∷ cs) (some dp) disk h = refl
task_checked-fails ((false, FileCmd.shutdown) ∷ cs) (some dp) disk h = refl
