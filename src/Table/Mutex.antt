-- ===== src/Table/Mutex.antt =====
-- Readers and writers with a mutex and a condition variable (cw09/zad1a/main.c), writers first. One
-- section under `mutex` is one step, since no thread reads or writes the counters outside of one; a
-- look at one cell and a change of one cell are steps of their own. `pthread_cond_wait` sleeps until
-- a broadcast or, as POSIX allows, for no reason, and then takes `mutex` and tests again.
pub mod Invariant
pub mod Steps
pub mod Laws
use systemy_operacyjne_c.Base.{
  ℕ, zero, suc, ◌+◌, ◌-◌, ◌<◌, ◌≡◌, List, map, if◌then◌else◌, ◌==◌, get_or, set, length, replicate,
}
use systemy_operacyjne_c.Table.{table_size, amount, put, hit, rand_table}

pub data ReaderAt : Type 0 where
  away : ReaderAt  -- not in the section at the head of the loop
  asleep : ReaderAt  -- in `pthread_cond_wait`
  roused : ReaderAt  -- about to test `writersInQueue` again
  reading : (i count : ℕ) → ReaderAt

pub data WriterAt : Type 0 where
  away : WriterAt
  asleep : WriterAt
  roused : WriterAt
  writing : (left : ℕ) → WriterAt

pub record State : Type 0 where
  pub readers : ℕ
  pub writers : ℕ
  pub writers_in_queue : ℕ
  pub table : List ℕ
  pub read_threads : List ReaderAt
  pub write_threads : List WriterAt

abbrev pub reader : State → ℕ → ReaderAt
reader s r = get_or s.read_threads r ReaderAt.away

abbrev pub writer : State → ℕ → WriterAt
writer s w = get_or s.write_threads w WriterAt.away

abbrev pub reader_goes : ℕ → ReaderAt → State → State
reader_goes r at s = record s { read_threads = set s.read_threads r at }

abbrev pub writer_goes : ℕ → WriterAt → State → State
writer_goes w at s = record s { write_threads = set s.write_threads w at }

abbrev pub rouse_reader : ReaderAt → ReaderAt
rouse_reader ReaderAt.away = ReaderAt.away
rouse_reader ReaderAt.asleep = ReaderAt.roused
rouse_reader ReaderAt.roused = ReaderAt.roused
rouse_reader (reading i count) = reading i count

abbrev pub rouse_writer : WriterAt → WriterAt
rouse_writer WriterAt.away = WriterAt.away
rouse_writer WriterAt.asleep = WriterAt.roused
rouse_writer WriterAt.roused = WriterAt.roused
rouse_writer (writing left) = writing left

-- `pthread_cond_broadcast(&cond)`.
abbrev pub broadcast : State → State
broadcast s = record s {
  read_threads = map rouse_reader s.read_threads;
  write_threads = map rouse_writer s.write_threads;
}

-- `while(writersInQueue!=0)`: the test, and what follows it.
abbrev pub reader_tests : ℕ → State → State
reader_tests r s =
    if s.writers_in_queue == 0
    then reader_goes r (reading 0 0) (record s { readers = s.readers + 1 })
    else reader_goes r ReaderAt.asleep s

abbrev pub reader_leaves : ℕ → State → State
reader_leaves r s = broadcast (reader_goes r ReaderAt.away (record s { readers = s.readers - 1 }))

-- `while(readers || writers)`: the test, and what follows it.
abbrev pub writer_tests : ℕ → ℕ → State → State
writer_tests w drawn s =
    if s.readers == 0
    then if s.writers == 0
      then writer_goes w (writing (amount drawn)) (record s { writers = s.writers + 1 })
      else writer_goes w WriterAt.asleep s
    else writer_goes w WriterAt.asleep s

abbrev pub writer_leaves : ℕ → State → State
writer_leaves w s = broadcast (
    writer_goes w WriterAt.away
      (record s { writers = s.writers - 1; writers_in_queue = s.writers_in_queue - 1 }))

-- One step of reader `r`, which counts the multiples of `div r`.
pub data ReaderStep (div : ℕ → ℕ) (s : State) (r : ℕ) : State → Type 0 where
  comes : reader s r ≡ ReaderAt.away → ReaderStep div s r (reader_tests r s)
  retries : reader s r ≡ ReaderAt.roused → ReaderStep div s r (reader_tests r s)
  stirs : reader s r ≡ ReaderAt.asleep → ReaderStep div s r (reader_goes r ReaderAt.roused s)
  looks :
      (i count : ℕ)
      → reader s r ≡ reading i count
      → i < table_size
      → ReaderStep div s r (reader_goes r (reading (i + 1) (count + hit (div r) s.table i)) s)
  leaves :
      (count : ℕ) → reader s r ≡ reading table_size count → ReaderStep div s r (reader_leaves r s)

-- One step of writer `w`; `drawn`, `k` and `value` are what `rand()` returns.
pub data WriterStep (s : State) (w : ℕ) : State → Type 0 where
  comes :
      (drawn : ℕ)
      → writer s w ≡ WriterAt.away
      → WriterStep s w
          (writer_tests w drawn (record s { writers_in_queue = s.writers_in_queue + 1 }))
  retries : (drawn : ℕ) → writer s w ≡ WriterAt.roused → WriterStep s w (writer_tests w drawn s)
  stirs : writer s w ≡ WriterAt.asleep → WriterStep s w (writer_goes w WriterAt.roused s)
  puts :
      (left k value : ℕ)
      → writer s w ≡ writing (suc left)
      → WriterStep s w (writer_goes w (writing left) (record s { table = put s.table k value }))
  leaves : writer s w ≡ writing 0 → WriterStep s w (writer_leaves w s)

pub data Step (div : ℕ → ℕ) (s : State) : State → Type 0 where
  by_reader : {t : State} (r : ℕ) → r < length s.read_threads → ReaderStep div s r t → Step div s t
  by_writer : {t : State} (w : ℕ) → w < length s.write_threads → WriterStep s w t → Step div s t

-- After `randTable` and `prepareWritersAndReaders`.
abbrev pub opening : (ℕ → ℕ) → (w_no r_no : ℕ) → State
opening drawn w_no r_no = record {
  readers = 0;
  writers = 0;
  writers_in_queue = 0;
  table = rand_table drawn table_size;
  read_threads = replicate r_no ReaderAt.away;
  write_threads = replicate w_no WriterAt.away;
}

pub data Reach (div : ℕ → ℕ) (start : State) : State → Type 0 where
  here : Reach div start start
  then_ : {s t : State} → Reach div start s → Step div s t → Reach div start t
