-- ===== src/Table/Semaphores.antt =====
-- Readers and writers with semaphores (cw09/zad1b/main.c), readers first. `sem_wait` waits until the
-- semaphore is positive. What a thread does between a `sem_wait` on `semCheck` and the next call is
-- one step with that call: nobody else reads or writes the counters meanwhile.
pub mod Invariant
pub mod Steps
pub mod Laws
use systemy_operacyjne_c.Base.{
  ℕ, zero, suc, ◌+◌, ◌-◌, ◌<◌, ◌≡◌, List, if◌then◌else◌, ◌==◌, get_or, set, length, replicate,
}
use systemy_operacyjne_c.Table.{table_size, amount, put, hit, rand_table}

pub data ReaderAt : Type 0 where
  away : ReaderAt
  entering : ReaderAt  -- before `readers++`, with `semCheck` taken
  reading : (i count : ℕ) → ReaderAt
  leaving : ReaderAt  -- before `readers--`, with `semCheck` taken

pub data WriterAt : Type 0 where
  away : WriterAt
  chosen : WriterAt  -- before `sem_wait(&semCheck)`, with `semWriter` taken
  checking : WriterAt  -- before `writers++`
  waiting : WriterAt  -- before `sem_wait(&semWait)`
  writing : (left : ℕ) → WriterAt
  done : WriterAt  -- before `sem_post(&semWriter)`

pub record State : Type 0 where
  pub sem_wait : ℕ
  pub sem_writer : ℕ
  pub sem_check : ℕ
  pub readers : ℕ
  pub writers : ℕ
  pub table : List ℕ
  pub read_threads : List ReaderAt
  pub write_threads : List WriterAt

abbrev pub reader : State → ℕ → ReaderAt
reader s r = get_or s.read_threads r ReaderAt.away

abbrev pub writer : State → ℕ → WriterAt
writer s w = get_or s.write_threads w WriterAt.away

abbrev pub reader_goes : ℕ → ReaderAt → State → State
reader_goes r at s = record s { read_threads = set s.read_threads r at }

abbrev pub writer_goes : ℕ → WriterAt → State → State
writer_goes w at s = record s { write_threads = set s.write_threads w at }

-- `if( readers==0 && writers !=0) sem_post(&semWait); else sem_post(&semCheck);`
abbrev pub hand_over : State → State
hand_over s =
    if s.readers == 0
    then if s.writers == 0
      then record s { sem_check = s.sem_check + 1 }
      else record s { sem_wait = s.sem_wait + 1 }
    else record s { sem_check = s.sem_check + 1 }

-- After `writers++`: `if(readers>0) { sem_post(&semCheck); ...`.
abbrev pub writer_checks : ℕ → ℕ → State → State
writer_checks w drawn s =
    if s.readers == 0
    then writer_goes w (writing (amount drawn)) s
    else writer_goes w waiting (record s { sem_check = s.sem_check + 1 })

-- One step of reader `r`, which counts the multiples of `div r`.
pub data ReaderStep (div : ℕ → ℕ) (s : State) (r : ℕ) : State → Type 0 where
  comes :
      reader s r ≡ ReaderAt.away
      → 0 < s.sem_check
      → ReaderStep div s r (reader_goes r entering (record s { sem_check = s.sem_check - 1 }))
  enters :
      reader s r ≡ entering
      → ReaderStep div s r (
          reader_goes r
            (reading 0 0)
            (record s { readers = s.readers + 1; sem_check = s.sem_check + 1 }))
  looks :
      (i count : ℕ)
      → reader s r ≡ reading i count
      → i < table_size
      → ReaderStep div s r (reader_goes r (reading (i + 1) (count + hit (div r) s.table i)) s)
  stops :
      (count : ℕ)
      → reader s r ≡ reading table_size count
      → 0 < s.sem_check
      → ReaderStep div s r (reader_goes r leaving (record s { sem_check = s.sem_check - 1 }))
  leaves :
      reader s r ≡ leaving
      → ReaderStep div s r
          (hand_over (reader_goes r ReaderAt.away (record s { readers = s.readers - 1 })))

-- One step of writer `w`; `drawn`, `k` and `value` are what `rand()` returns.
pub data WriterStep (s : State) (w : ℕ) : State → Type 0 where
  comes :
      writer s w ≡ WriterAt.away
      → 0 < s.sem_writer
      → WriterStep s w (writer_goes w chosen (record s { sem_writer = s.sem_writer - 1 }))
  takes :
      writer s w ≡ chosen
      → 0 < s.sem_check
      → WriterStep s w (writer_goes w checking (record s { sem_check = s.sem_check - 1 }))
  checks :
      (drawn : ℕ)
      → writer s w ≡ checking
      → WriterStep s w (writer_checks w drawn (record s { writers = s.writers + 1 }))
  resumes :
      (drawn : ℕ)
      → writer s w ≡ waiting
      → 0 < s.sem_wait
      → WriterStep s w
          (writer_goes w (writing (amount drawn)) (record s { sem_wait = s.sem_wait - 1 }))
  puts :
      (left k value : ℕ)
      → writer s w ≡ writing (suc left)
      → WriterStep s w (writer_goes w (writing left) (record s { table = put s.table k value }))
  stops :
      writer s w ≡ writing 0
      → WriterStep s w
          (writer_goes w done (record s { writers = s.writers - 1; sem_check = s.sem_check + 1 }))
  leaves :
      writer s w ≡ done
      → WriterStep s w (writer_goes w WriterAt.away (record s { sem_writer = s.sem_writer + 1 }))

pub data Step (div : ℕ → ℕ) (s : State) : State → Type 0 where
  by_reader :
      (r : ℕ) → r < length s.read_threads → {t : State} → ReaderStep div s r t → Step div s t
  by_writer : (w : ℕ) → w < length s.write_threads → {t : State} → WriterStep s w t → Step div s t

-- After `main` has made the semaphores, `randTable` and `prepareWritersAndReaders`.
abbrev pub opening : (ℕ → ℕ) → (w_no r_no : ℕ) → State
opening drawn w_no r_no = record {
  sem_wait = 0;
  sem_writer = 1;
  sem_check = 1;
  readers = 0;
  writers = 0;
  table = rand_table drawn table_size;
  read_threads = replicate r_no ReaderAt.away;
  write_threads = replicate w_no WriterAt.away;
}

pub data Reach (div : ℕ → ℕ) (start : State) : State → Type 0 where
  here : Reach div start start
  then_ : {s t : State} → Reach div start s → Step div s t → Reach div start t
