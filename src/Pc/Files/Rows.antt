-- ===== src/Pc/Files/Rows.antt =====
-- The bytes of a recording (battery_tester_pc/src/files.rs, lines 12 to 97).
use battery_tester.Prelude.{
  ℕ, ◌<◌, ◌≡◌, ◌^◌, refl, ap, sym, ◌∙◌, List, [], ◌∷◌, ◌++◌, map, append_assoc, append-nil,
  list_laws, eq→==, Option, none, some, arith,
}
use battery_tester.Pc.Text.{Text, decimal}
use battery_tester.Pc.Text.Decimal.{value, AllDigits, decimal-value}
use battery_tester.Pc.Messages.{File, FileCmd, SaveData}
use battery_tester.Pc.Files.{line, header_nl, append_to, DataPersistance, Disk, file_task}
use battery_tester.Pc.Files.Log.{file_of, flushed, log_cmd, log_task, file_task-Refines}

-- The numbers of a record are below 10 ^ 20, as all u64 and u16 are.
pub record IsRecord (r : SaveData) : Type 0 where
  pub dt : r.dt < 10 ^ 20
  pub duration : r.duration < 10 ^ 20
  pub millivolts : r.millivolts.raw < 10 ^ 20
  pub milliamps : r.milliamps.raw < 10 ^ 20

-- The first byte that is no digit ends a number.
digits_end :
    (xs us ys vs : Text) (c : ℕ)
    → AllDigits xs
    → AllDigits us
    → c < 48
    → xs ++ c ∷ ys ≡ us ++ c ∷ vs
    → (xs ≡ us) × (ys ≡ vs)
digits_end [] [] ys vs c h k l e = (refl, cc)
digits_end [] (u ∷ us) ys vs c h k l e = let p : c ≡ u = cc in absurd (omega (arith, k.0))
digits_end (x ∷ xs) [] ys vs c h k l e = let p : x ≡ c = cc in absurd (omega (arith, h.0))
digits_end (x ∷ xs) (u ∷ us) ys vs c h k l e =
    let (p, q) = digits_end xs us ys vs c h.2 k.2 l (cc) in (cc, q)

-- A number and the byte behind it are read back.
field_end :
    (m n c : ℕ) (ys vs : Text)
    → m < 10 ^ 20
    → n < 10 ^ 20
    → c < 48
    → decimal m ++ c ∷ ys ≡ decimal n ++ c ∷ vs
    → (m ≡ n) × (ys ≡ vs)
field_end m n c ys vs h k l e =
    let (p, q) =
      digits_end (decimal m) (decimal n) ys vs c (decimal-value m h).1 (decimal-value n k).1 l e in
    (sym (decimal-value m h).0 ∙ ap (value 0) p ∙ (decimal-value n k).0, q)

-- A line and what stands behind it, field by field.
abbrev spread : SaveData → Text → Text
spread r ys =
    decimal r.dt
    ++ (9
        ∷ (decimal r.duration
            ++ (9 ∷ (decimal r.millivolts.raw ++ (9 ∷ (decimal r.milliamps.raw ++ 10 ∷ ys))))))

spread_lem : (r : SaveData) (ys : Text) → line r ++ ys ≡ spread r ys
unfolding line
spread_lem r ys = simp list_laws

line_end :
    (r s : SaveData) (ys vs : Text)
    → IsRecord r
    → IsRecord s
    → spread r ys ≡ spread s vs
    → (r ≡ s) × (ys ≡ vs)
line_end r s ys vs h k e =
    let (p, e1) = field_end r.dt s.dt 9 _ _ h.dt k.dt (omega arith) e in
    let (q, e2) = field_end r.duration s.duration 9 _ _ h.duration k.duration (omega arith) e1 in
    let (u, e3) =
      field_end r.millivolts.raw s.millivolts.raw 9 _ _ h.millivolts k.millivolts (omega arith)
        e2 in
    let (v, e4) =
      field_end r.milliamps.raw s.milliamps.raw 10 _ _ h.milliamps k.milliamps (omega arith) e3 in
    (ground (arith, p, q, u, v), e4)

-- What the lines of some records come to.
abbrev pub rows : List SaveData → Text
rows [] = []
rows (r ∷ rs) = line r ++ rows rs

abbrev pub AllRecords : List SaveData → Type 0
AllRecords [] = Unit
AllRecords (r ∷ rs) = IsRecord r × AllRecords rs

not_empty : (xs ys : Text) (c : ℕ) → ¬ (xs ++ c ∷ ys ≡ [])
not_empty [] ys c e = cc
not_empty (x ∷ xs) ys c e = cc

spread_not_empty : (r : SaveData) (ys : Text) → ¬ (spread r ys ≡ [])
spread_not_empty r ys e = not_empty (decimal r.dt) _ 9 e

-- Two lists of records whose numbers are below 10 ^ 20, as all u64 are, and that are written as the
-- same bytes are the same list: nothing that was recorded is ambiguous.
pub rows-injective :
    (rs ss : List SaveData) → AllRecords rs → AllRecords ss → rows rs ≡ rows ss → rs ≡ ss
rows-injective [] [] h k e = refl
rows-injective [] (s ∷ ss) h k e =
    absurd (spread_not_empty s (rows ss) (sym (spread_lem s (rows ss)) ∙ sym e))
rows-injective (r ∷ rs) [] h k e =
    absurd (spread_not_empty r (rows rs) (sym (spread_lem r (rows rs)) ∙ e))
rows-injective (r ∷ rs) (s ∷ ss) h k e =
    let (p, q) =
      line_end r s (rows rs) (rows ss) h.0 k.0
        (sym (spread_lem r (rows rs)) ∙ e ∙ spread_lem s (rows ss)) in
    cc (p, rows-injective rs ss h.1 k.1 q)

-- The commands of one recording.
abbrev pub recording : File → List SaveData → List FileCmd
recording f rs = FileCmd.new_file f ∷ (map FileCmd.push rs ++ FileCmd.close_file ∷ [])

appended : (f : File) (disk : Disk) (t : Text) → append_to disk f t f ≡ disk f ++ t
appended f disk t = rw (eq→== f f refl) refl

logged :
    (rs : List SaveData) (f : File) (disk : Disk)
    → (log_task
          (record { current = some f; disk = disk })
          (map FileCmd.push rs ++ FileCmd.close_file ∷ [])).0.disk
        f
      ≡ disk f ++ rows rs
unfolding log_task log_cmd
logged [] f disk = sym (append-nil (disk f))
logged (r ∷ rs) f disk =
    logged rs f (append_to disk f (line r))
    ∙ ap (λ t. t ++ rows rs) (appended f disk (line r))
    ∙ append_assoc (disk f) (line r) (rows rs)

closed :
    (rs : List SaveData) (f : File) (disk : Disk)
    → (log_task
        (record { current = some f; disk = disk })
        (map FileCmd.push rs ++ FileCmd.close_file ∷ [])).0.current
      ≡ none
unfolding log_task log_cmd
closed [] f disk = refl
closed (r ∷ rs) f disk = closed rs f (append_to disk f (line r))

nothing_held :
    (p : Option DataPersistance) (disk : Disk) (g : File)
    → file_of p ≡ none
    → flushed p disk g ≡ disk g
nothing_held none disk g e = refl
nothing_held (some dp) disk g e = absurd (cc)

recording_logged :
    (f : File) (rs : List SaveData) (disk : Disk)
    → let end = (log_task (record { current = none; disk = disk }) (recording f rs)).0 in
      (end.current ≡ none) × (end.disk f ≡ disk f ++ (header_nl ++ rows rs))
unfolding log_task log_cmd
recording_logged f rs disk = (
  closed rs f (append_to disk f header_nl),
  logged rs f (append_to disk f header_nl)
      ∙ ap (λ t. t ++ rows rs) (appended f disk header_nl)
      ∙ append_assoc (disk f) header_nl (rows rs),
)

-- A file task without an open file that gets a new file, then records, then the command to close:
-- what the file then holds on the disk is what it held before, the header, and one line for each
-- record in order, with nothing held back.
pub recording_lem :
    (f : File) (rs : List SaveData) (disk : Disk)
    → (file_task (record { persistance = none; disk = disk }) (recording f rs)).0.disk f
      ≡ disk f ++ (header_nl ++ rows rs)
recording_lem f rs disk =
    let (current, written) = recording_logged f rs disk in
    let refined =
      (file_task-Refines (recording f rs) (record { persistance = none; disk = disk })
        (record { current = none; disk = disk })
        (record { file = refl; bytes = λ g. refl; counted = tt })).0 in
    sym (nothing_held _ _ f (refined.file ∙ current)) ∙ refined.bytes f ∙ written
