-- ===== src/Records/Disk.antt =====
-- The files of cw02/zad1 by name. `none` is a name that cannot be opened for update.
use Prim.Native.String.{String}
use text.Mathlib.Text.{◌==◌ as str_eq}
use systemy_operacyjne_c.Base.{ℕ, List, Option, none, some, if◌then◌else◌}
use systemy_operacyjne_c.Records.Io.{Handle, Result, exited}

abbrev pub Disk : Type 0
Disk = String → Option (List ℕ)

abbrev pub store : Disk → String → List ℕ → Disk
store d name bytes other = if str_eq other name then some bytes else d other

abbrev pub opened : List ℕ → Handle
opened bytes = record { bytes = bytes; offset = 0 }

-- Opens the file for update, lets the program work on it, and closes it. A file that cannot be
-- opened ends the program with status 1.
abbrev pub with_file :
    {S A : Type 0}
    → (Handle → S)
    → (S → Handle)
    → String
    → (S → Result A × S)
    → Disk
    → Result A × Disk
with_file start file name work d = elim (d name) [
  | none ↦ (exited 1, d)
  | some bytes ↦ let (r, s) = work (start (opened bytes)) in (r, store d name (file s).bytes)
]
