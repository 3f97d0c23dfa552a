-- ===== src/Records/Bsort.antt =====
-- bsort.c: bubble sort of a file of records by their first byte, a `char`, which is signed.
-- `recordAmount` and `recordSize` are `int`s that are not negative, with a product below 2^31.
pub mod Bubble
pub mod Passes
pub mod Sorts
use Prim.Native.String.{String}
use systemy_operacyjne_c.Base.{
  ℕ, zero, suc, ◌+◌, ◌-◌, ◌*◌, Bool, true, false, ◌&&◌, ◌||◌, List, if◌then◌else◌, ◌==◌, ltb,
  length, get_or,
}
use systemy_operacyjne_c.Base.Int.{ℤ, pos, negsuc, ltb_ℤ}
use systemy_operacyjne_c.Records.Io.{Result, M, RecordIo, pure, exit, modify, ◌>>=◌, ◌>>◌}
use systemy_operacyjne_c.Records.Handles.{sys_io, lib_io, Stream, positioned}
use systemy_operacyjne_c.Records.Disk.{Disk, with_file}

-- The value of a byte read as a signed `char`.
unfoldable pub signed_char : ℕ → ℤ
signed_char b = if ltb b 128 then pos b else negsuc (255 - b)

-- `record[0]`
unfoldable pub key : List ℕ → ℤ
key r = signed_char (get_or r 0 0)

-- `record1[0]>record2[0]`
unfoldable pub out_of_order : List ℕ → List ℕ → Bool
out_of_order r1 r2 = ltb_ℤ (key r2) (key r1)

module _ {S : Type 0} (io : RecordIo S) (size : ℕ) where
  -- A read or a write of another length than the record's prints a message and exits.
  unfoldable pub read_record : M S (List ℕ)
  read_record = do r ← io.read size; if length r == size then pure r else exit 1

  unfoldable pub write_record : List ℕ → M S (Unit {0})
  write_record r = do n ← io.write r; if n == size then pure tt else exit 1

  -- The body of the `for` loop at `elemNumber`: whether it changed the file.
  unfoldable pub swap_adjacent : ℕ → M S Bool
  swap_adjacent elem_number = do
    modify (io.seek (elem_number * size))
    record1 ← read_record
    record2 ← read_record
    if out_of_order record1 record2
        then (do
          modify (io.seek (elem_number * size))
          write_record record2
          write_record record1
          pure true)
        else pure false

  -- The `for` loop with `left` rounds to go; the result is `change`.
  unfoldable pub pass : ℕ → ℕ → Bool → M S Bool
  pass zero elem_number change = pure change
  pass (suc left) elem_number change = do
    swapped ← swap_adjacent elem_number
    pass left (elem_number + 1) (swapped || change)

  -- The `do` loop with `n` records to sort.
  unfoldable pub bubble_sort : ℕ → M S (Unit {0})
  bubble_sort zero = pass 0 0 false >>= λ _. modify (io.seek 0)
  bubble_sort (suc n) = pass n 0 false >>= λ change s. elim (change && ltb 1 n) [
    | true ↦ bubble_sort n (io.seek 0 s)
    | false ↦ pure tt (io.seek 0 s)
  ]

unfoldable pub bsort_sys : String → ℕ → ℕ → Disk → Result (Unit {0}) × Disk
bsort_sys file_name record_amount record_size =
    with_file (λ f. f) (λ f. f) file_name (bubble_sort sys_io record_size record_amount)

unfoldable pub bsort_lib : String → ℕ → ℕ → Disk → Result (Unit {0}) × Disk
bsort_lib file_name record_amount record_size =
    with_file (λ f. record { handle = f; last = positioned }) (λ s. s.handle) file_name
      (bubble_sort lib_io record_size record_amount)
