-- ===== src/Records/Generate.antt =====
-- generator.c: writes a file of random records, and copies a file of records. `urandom` is what
-- /dev/urandom gives, `can_create` says which names `fopen(_, "w")` accepts.
pub mod Laws
use Prim.Native.String.{String}
use systemy_operacyjne_c.Base.{
  ℕ, zero, suc, ◌+◌, ◌-◌, ◌%◌, Bool, true, false, List, [], ◌++◌, map, Option, none, some,
  if◌then◌else◌, ◌==◌, ltb, length, take, drop,
}
use systemy_operacyjne_c.Records.Io.{Result, ok, exited}
use systemy_operacyjne_c.Records.Disk.{Disk, store}

-- `record[j]%20+65` for a signed `char`: C's remainder takes the sign of its left operand.
unfoldable pub printable : ℕ → ℕ
printable b = if ltb b 128 then b % 20 + 65 else 65 - (256 - b) % 20

module _ (size : ℕ) where
  -- The `for` loop of `generateRecordsFile`: the rounds left, the random bytes left, and what is
  -- written so far.
  unfoldable pub generate_loop : ℕ → List ℕ → List ℕ → Result (Unit {0}) × List ℕ
  generate_loop zero random written = (ok tt, written)
  generate_loop (suc left) random written =
      let rest =
        generate_loop left (drop size random) (written ++ map printable (take size random)) in
      if length (take size random) == size then rest else (exited 1, written)

  -- The `for` loop of `copyFile`.
  unfoldable pub copy_loop : ℕ → List ℕ → List ℕ → Result (Unit {0}) × List ℕ
  copy_loop zero source written = (ok tt, written)
  copy_loop (suc left) source written =
      let rest = copy_loop left (drop size source) (written ++ take size source) in
      if length (take size source) == size then rest else (exited 1, written)

module _ (can_create : String → Bool) where
  -- `fopen(file_name, "w")` empties the file; a name that it refuses ends the program.
  abbrev pub with_new_file :
      String → (List ℕ → Result (Unit {0}) × List ℕ) → Disk → Result (Unit {0}) × Disk
  with_new_file name work d =
      if can_create name
      then (let (r, written) = work [] in (r, store d name written))
      else (exited 1, d)

  unfoldable pub generate_records_file : List ℕ → String → ℕ → ℕ → Disk → Result (Unit {0}) × Disk
  generate_records_file urandom file_name record_amount record_size =
      with_new_file file_name (generate_loop record_size record_amount urandom)

  unfoldable pub copy_file : String → String → ℕ → ℕ → Disk → Result (Unit {0}) × Disk
  copy_file source_file_name dest_file_name record_amount record_size d =
      elim (d source_file_name) [
        | none ↦ (exited 1, d)
        | some source ↦ with_new_file dest_file_name (copy_loop record_size record_amount source) d
      ]
