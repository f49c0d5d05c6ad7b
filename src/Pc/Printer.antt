-- ===== src/Pc/Printer.antt =====
-- The queue of lines to print (battery_tester_pc/src/lib.rs, lines 24 to 57 and 85 to 115).
use battery_tester.Prelude.{String, List, [], ◌∷◌, ◌++◌, length, leb, if◌then◌else◌}
use battery_tester.Pc.Text.{Text, codes}

pub data Print : Type 0 where
  static : String → Print
  dyn : Text → Print
  aloc : Text → Print
  shutdown : Print

unfoldable pub as_bytes : Print → Text
as_bytes (static s) = codes s
as_bytes (aloc b) = b
as_bytes shutdown = 10 ∷ []
as_bytes (dyn b) = b

-- What `Printer::stat` and `Printer::shutdown` send.
abbrev pub stat : String → Print
stat msg = static msg

abbrev pub stop : Print
stop = shutdown

-- What `Printer::buf` sends of a text written to it: a `TinyVec` stays inline up to 128 bytes.
unfoldable pub buf : Text → Print
buf written = if leb (length written) 128 then dyn written else aloc written

-- `print_task`: what reaches the standard output of the messages received, in order. The last line,
-- printed when the task ends, is left out.
unfoldable pub print_task : List Print → Text
unfolding as_bytes
print_task [] = []
print_task (shutdown ∷ ps) = []
print_task (static s ∷ ps) = as_bytes (static s) ++ (10 ∷ print_task ps)
print_task (aloc b ∷ ps) = as_bytes (aloc b) ++ (10 ∷ print_task ps)
print_task (dyn b ∷ ps) = as_bytes (dyn b) ++ (10 ∷ print_task ps)
