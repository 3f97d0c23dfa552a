-- ===== src/Records/Shuffle.antt =====
-- shuffler.c: exchanges each record, from the last one down, with one drawn from those before it.
-- `rand_at k` is the result of the k-th call of `rand` after `srand`. The sizes are as in Bsort.
pub mod Items
pub mod Laws
pub mod Moves
use Prim.Native.String.{String}
use systemy_operacyjne_c.Base.{
  ℕ, zero, suc, ◌+◌, ◌-◌, ◌*◌, ◌%◌, List, ◌++◌, if◌then◌else◌, ◌==◌, length, drop,
}
use systemy_operacyjne_c.Records.Io.{Result, M, RecordIo, pure, exit, modify, ◌>>=◌, ◌>>◌}
use systemy_operacyjne_c.Records.Handles.{sys_io, lib_io, positioned}
use systemy_operacyjne_c.Records.Disk.{Disk, with_file}
use systemy_operacyjne_c.Records.Bsort.{read_record, write_record}

-- What `read` leaves in a buffer: the bytes that came, and the old ones behind them.
abbrev pub overlay : List ℕ → List ℕ → List ℕ
overlay got buffer = got ++ drop (length got) buffer

module _ {S : Type 0} (io : RecordIo S) (size : ℕ) where
  -- The body of the loop of `ShuffleSys`, which does not look at what `read` returns. The buffers
  -- `record1` and `record2` live through the loop.
  unfoldable pub exchange_sys : ℕ → ℕ → List ℕ → List ℕ → M S (List ℕ × List ℕ)
  exchange_sys i j record1 record2 = do
    modify (io.seek (i * size))
    got1 ← io.read size
    modify (io.seek (j * size))
    got2 ← io.read size
    modify (io.seek (i * size))
    write_record io size (overlay got2 record2)
    modify (io.seek (j * size))
    write_record io size (overlay got1 record1)
    pure (overlay got1 record1, overlay got2 record2)

  -- The body of the loop of `ShuffleLib`, which exits on a short read.
  unfoldable pub exchange_lib : ℕ → ℕ → M S (Unit {0})
  exchange_lib i j = do
    modify (io.seek (i * size))
    record1 ← read_record io size
    modify (io.seek (j * size))
    record2 ← read_record io size
    modify (io.seek (i * size))
    write_record io size record2
    modify (io.seek (j * size))
    write_record io size record1

module _ {S : Type 0} (io : RecordIo S) (size : ℕ) (rand_at : ℕ → ℕ) where
  -- The loop from `i` down to 1, with `drawn` calls of `rand` made.
  unfoldable pub shuffle_sys_loop : ℕ → ℕ → List ℕ → List ℕ → M S (Unit {0})
  shuffle_sys_loop zero drawn record1 record2 = pure tt
  shuffle_sys_loop (suc i) drawn record1 record2 = do
    buffers ← exchange_sys io size (suc i) (rand_at drawn % suc i) record1 record2
    shuffle_sys_loop i (drawn + 1) buffers.0 buffers.1

  unfoldable pub shuffle_lib_loop : ℕ → ℕ → M S (Unit {0})
  shuffle_lib_loop zero drawn = pure tt
  shuffle_lib_loop (suc i) drawn = do
    exchange_lib io size (suc i) (rand_at drawn % suc i)
    shuffle_lib_loop i (drawn + 1)

-- `record1` and `record2` are what `malloc` gives.
unfoldable pub shuffle_sys :
    (ℕ → ℕ) → List ℕ → List ℕ → String → ℕ → ℕ → Disk → Result (Unit {0}) × Disk
shuffle_sys rand_at record1 record2 file_name record_amount record_size =
    with_file (λ f. f) (λ f. f) file_name
      (shuffle_sys_loop sys_io record_size rand_at (record_amount - 1) 0 record1 record2)

unfoldable pub shuffle_lib : (ℕ → ℕ) → String → ℕ → ℕ → Disk → Result (Unit {0}) × Disk
shuffle_lib rand_at file_name record_amount record_size =
    with_file (λ f. record { handle = f; last = positioned }) (λ s. s.handle) file_name
      (shuffle_lib_loop lib_io record_size rand_at (record_amount - 1) 0)
