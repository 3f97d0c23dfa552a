-- ===== src/Table/Tests.antt =====
-- Runs of both variants of readers and writers.
use systemy_operacyjne_c.Base.{
  ℕ, zero, suc, ◌+◌, ◌≤◌, ◌<◌, ◌≡◌, ◌≢◌, ◌⊎◌, refl, ap, ◌∙◌, arith, length, length-set,
  get_or-set_self,
}
use systemy_operacyjne_c.Table.{hit, table_size, divisible, IsTable}
use systemy_operacyjne_c.Table.Mutex
use systemy_operacyjne_c.Table.Mutex.Laws.{
  writer_alone, count_is_current, writers_first, someone_awake,
}
use systemy_operacyjne_c.Table.Semaphores
use systemy_operacyjne_c.Table.Semaphores.Laws.{semaphores_exclude}

abbrev div : ℕ → ℕ
div r = 3

abbrev drawn : ℕ → ℕ
drawn k = k + 1

abbrev Run : Type 0
Run = (s : Mutex.State) × Mutex.Reach div (Mutex.opening drawn 1 1) s

abbrev writes : Run
writes =
    (_, Mutex.then_ Mutex.here (Mutex.by_writer 0 (omega arith) (Mutex.WriterStep.comes 0 refl)))

writer_alone_example :
    ((r i count : ℕ) → Mutex.reader writes.0 r ≢ Mutex.reading i count)
    × ((w' left' : ℕ) → Mutex.writer writes.0 w' ≡ Mutex.writing left' → 0 ≡ w')
writer_alone_example = writer_alone div drawn 1 1 writes.1 0 1 refl

-- Reader 0 looks at the first `n` cells.
abbrev scan :
    (n : ℕ)
    → n ≤ table_size
    → (s : Mutex.State) × (count : ℕ) × Mutex.Reach div (Mutex.opening drawn 1 1) s
      × (Mutex.reader s 0 ≡ Mutex.reading n count)
      × (0 < length s.read_threads)
scan zero h = (
  _,
  _,
  Mutex.then_ Mutex.here (Mutex.by_reader 0 (omega arith) (Mutex.ReaderStep.comes refl)),
  refl,
  omega arith,
)
scan (suc n) h =
    let (s, count, run, e, there) = scan n (omega arith) in
    (
      _,
      count + hit 3 s.table n,
      Mutex.then_ run (Mutex.by_reader 0 there (Mutex.ReaderStep.looks n count e (omega arith))),
      get_or-set_self s.read_threads 0 (Mutex.reading (n + 1) (count + hit 3 s.table n))
            Mutex.ReaderAt.away there
          ∙ ap (λ m. Mutex.reading m (count + hit 3 s.table n)) (omega arith),
      omega (
        arith,
        length-set s.read_threads 0 (Mutex.reading (n + 1) (count + hit 3 s.table n)),
        there,
      ),
    )

abbrev scanned :
    (s : Mutex.State) × (count : ℕ) × Mutex.Reach div (Mutex.opening drawn 1 1) s
    × (Mutex.reader s 0 ≡ Mutex.reading table_size count)
    × (0 < length s.read_threads)
scanned = scan table_size (omega arith)

count_is_current_example :
    (scanned.1 ≡ divisible 3 scanned.0.table table_size) × IsTable scanned.0.table
count_is_current_example = count_is_current div drawn 1 1 scanned.2 0 scanned.1 scanned.3

-- A reader reads, and the writer comes and sleeps.
abbrev queues : Run
queues = (
  _,
  Mutex.then_
      (Mutex.then_ Mutex.here (Mutex.by_reader 0 (omega arith) (Mutex.ReaderStep.comes refl)))
      (Mutex.by_writer 0 (omega arith) (Mutex.WriterStep.comes 0 refl)),
)

abbrev looks : (t : Mutex.State) × Mutex.Step div queues.0 t
looks = (_, Mutex.by_reader 0 (omega arith) (Mutex.ReaderStep.looks 0 0 refl (omega arith)))

writers_first_example : looks.0.readers ≤ queues.0.readers
writers_first_example = writers_first div drawn 1 1 queues.1 0 (λ e. ground arith) looks.1

someone_awake_example :
    ((r : ℕ) × (r < length queues.0.read_threads)
      × (Mutex.reader queues.0 r ≢ Mutex.ReaderAt.asleep))
    ⊎ ((w : ℕ) × (w < length queues.0.write_threads)
        × (Mutex.writer queues.0 w ≢ Mutex.WriterAt.asleep))
someone_awake_example = someone_awake div drawn 1 1 queues.1 (omega arith)

abbrev SemRun : Type 0
SemRun = (s : Semaphores.State) × Semaphores.Reach div (Semaphores.opening drawn 1 1) s

abbrev sem_checks : SemRun
sem_checks = (
  _,
  Semaphores.then_
      (Semaphores.then_ Semaphores.here
        (Semaphores.by_writer 0 (omega arith) (Semaphores.WriterStep.comes refl (omega arith))))
      (Semaphores.by_writer 0 (omega arith) (Semaphores.WriterStep.takes refl (omega arith))),
)

abbrev sem_writes : SemRun
sem_writes = (
  _,
  Semaphores.then_ sem_checks.1
      (Semaphores.by_writer 0 (omega arith) (Semaphores.WriterStep.checks 0 refl)),
)

semaphores_exclude_example :
    ((r i count : ℕ) → Semaphores.reader sem_writes.0 r ≢ Semaphores.reading i count)
    × ((w' left' : ℕ) → Semaphores.writer sem_writes.0 w' ≡ Semaphores.writing left' → 0 ≡ w')
semaphores_exclude_example = semaphores_exclude div drawn 1 1 sem_writes.1 0 1 refl

abbrev sem_reads : SemRun
sem_reads = (
  _,
  Semaphores.then_
      (Semaphores.then_ Semaphores.here
        (Semaphores.by_reader 0 (omega arith) (Semaphores.ReaderStep.comes refl (omega arith))))
      (Semaphores.by_reader 0 (omega arith) (Semaphores.ReaderStep.enters refl)),
)

abbrev sem_waits : SemRun
sem_waits = (
  _,
  Semaphores.then_
      (Semaphores.then_
        (Semaphores.then_ sem_reads.1
          (Semaphores.by_writer 0 (omega arith) (Semaphores.WriterStep.comes refl (omega arith))))
        (Semaphores.by_writer 0 (omega arith) (Semaphores.WriterStep.takes refl (omega arith))))
      (Semaphores.by_writer 0 (omega arith) (Semaphores.WriterStep.checks 0 refl)),
)

-- Reader 0 looks at the first `n` cells.
abbrev sem_scan :
    (n : ℕ)
    → n ≤ table_size
    → (s : Semaphores.State) × (count : ℕ) × Semaphores.Reach div (Semaphores.opening drawn 1 1) s
      × (Semaphores.reader s 0 ≡ Semaphores.reading n count)
      × (0 < length s.read_threads)
sem_scan zero h = (_, _, sem_reads.1, refl, omega arith)
sem_scan (suc n) h =
    let (s, count, run, e, there) = sem_scan n (omega arith) in
    (
      _,
      count + hit 3 s.table n,
      Semaphores.then_ run
          (Semaphores.by_reader 0 there (Semaphores.ReaderStep.looks n count e (omega arith))),
      get_or-set_self s.read_threads 0 (Semaphores.reading (n + 1) (count + hit 3 s.table n))
            Semaphores.ReaderAt.away there
          ∙ ap (λ m. Semaphores.reading m (count + hit 3 s.table n)) (omega arith),
      omega (
        arith,
        length-set s.read_threads 0 (Semaphores.reading (n + 1) (count + hit 3 s.table n)),
        there,
      ),
    )

abbrev sem_scanned :
    (s : Semaphores.State) × (count : ℕ) × Semaphores.Reach div (Semaphores.opening drawn 1 1) s
    × (Semaphores.reader s 0 ≡ Semaphores.reading table_size count)
    × (0 < length s.read_threads)
sem_scanned = sem_scan table_size (omega arith)
