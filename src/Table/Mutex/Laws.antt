-- ===== src/Table/Mutex/Laws.antt =====
-- What no order of steps of the readers and writers of cw09/zad1a can break.
use systemy_operacyjne_c.Base.{
  ℕ, ◌+◌, ◌≤◌, ◌<◌, ◌≡◌, ◌≢◌, ◌⊎◌, inl, inr, refl, arith, length, total-at, total-two, total-some,
  dec_lt,
}
use systemy_operacyjne_c.Table.{table_size, divisible, IsTable}
use systemy_operacyjne_c.Table.Mutex.{
  ReaderAt, reading, WriterAt, writing, State, reader, writer, ReaderStep, WriterStep, Step,
  by_reader, by_writer, opening, Reach, here, then_,
}
use systemy_operacyjne_c.Table.Mutex.Invariant.{Inv, reads, writes, queues, opening-Inv}
use systemy_operacyjne_c.Table.Mutex.Steps.{step-Inv}

module _ (div drawn : ℕ → ℕ) (w_no r_no : ℕ) where
  Reach-Inv : {s : State} → Reach div (opening drawn w_no r_no) s → Inv div s
  Reach-Inv here = opening-Inv div drawn w_no r_no
  Reach-Inv (then_ r st) = step-Inv (Reach-Inv r) st

  reader_not_in :
      {s : State} (r : ℕ)
      → {t : State} → ReaderStep div s r t
      → 0 < s.writers_in_queue
      → t.readers ≤ s.readers
  reader_not_in r (ReaderStep.comes e) queue = ground arith
  reader_not_in r (ReaderStep.retries e) queue = ground arith
  reader_not_in r (ReaderStep.stirs e) queue = omega arith
  reader_not_in r (ReaderStep.looks i count e below) queue = omega arith
  reader_not_in r (ReaderStep.leaves count e) queue = omega arith

  writer_not_in : {s : State} (w : ℕ) → {t : State} → WriterStep s w t → t.readers ≤ s.readers
  writer_not_in w (WriterStep.comes d e) = ground arith
  writer_not_in w (WriterStep.retries d e) = ground arith
  writer_not_in w (WriterStep.stirs e) = omega arith
  writer_not_in w (WriterStep.puts left k value e) = omega arith
  writer_not_in w (WriterStep.leaves e) = omega arith

  not_in : {s t : State} → Step div s t → 0 < s.writers_in_queue → t.readers ≤ s.readers
  not_in (by_reader r h st) queue = reader_not_in r st queue
  not_in (by_writer w h st) queue = writer_not_in w st

  Reader-cases : (a : ReaderAt) → (a ≡ ReaderAt.asleep) ⊎ (a ≢ ReaderAt.asleep)
  Reader-cases ReaderAt.away = inr (λ e. ground arith)
  Reader-cases ReaderAt.asleep = inl refl
  Reader-cases ReaderAt.roused = inr (λ e. ground arith)
  Reader-cases (reading i count) = inr (λ e. ground arith)

  Writer-cases : (a : WriterAt) → (a ≡ WriterAt.asleep) ⊎ (a ≢ WriterAt.asleep)
  Writer-cases WriterAt.away = inr (λ e. ground arith)
  Writer-cases WriterAt.asleep = inl refl
  Writer-cases WriterAt.roused = inr (λ e. ground arith)
  Writer-cases (writing left) = inr (λ e. ground arith)

  -- Behind a writer who sleeps there is a thread that uses the table.
  writer_case :
      {s : State}
      → Inv div s
      → (w : ℕ) → w < length s.write_threads
      → ((r : ℕ) × (r < length s.read_threads) × (reader s r ≢ ReaderAt.asleep))
        ⊎ ((w : ℕ) × (w < length s.write_threads) × (writer s w ≢ WriterAt.asleep))
  writer_case {s} inv w h = elim (Writer-cases (writer s w)) [
    | inr up ↦ inr (w, h, up)
    | inl sleeps ↦ elim (dec_lt 0 s.readers) [
      | yes some_read ↦
          let (r, hr, u) =
            total-some reads s.read_threads ReaderAt.away
              (omega (arith, inv.counted.readers_count)) in
          inl (r, hr, λ e. ground arith)
      | no none_read ↦
          let busy = inv.writer_sleeps w sleeps in
          let (w', hw, u) =
            total-some writes s.write_threads WriterAt.away
              (omega (arith, busy, inv.counted.writers_count)) in
          inr (w', hw, λ e. ground arith)
    ]
  ]

  -- In every state that a run comes to, while a thread writes, no thread reads and no other thread writes.
  pub writer_alone :
      {s : State}
      → Reach div (opening drawn w_no r_no) s
      → (w left : ℕ) → writer s w ≡ writing left
      → ((r i count : ℕ) → reader s r ≢ reading i count)
        × ((w' left' : ℕ) → writer s w' ≡ writing left' → w ≡ w')
  writer_alone {s} run w left e =
      let inv = Reach-Inv run in
      let here = total-at writes s.write_threads w WriterAt.away refl in
      (
        λ r i count e'. ground (
          arith,
          here,
          inv.counted.apart,
          inv.counted.writers_count,
          inv.counted.readers_count,
          total-at reads s.read_threads r ReaderAt.away refl,
        ),
        λ w' left' e'. ground (
          arith,
          inv.counted.alone,
          inv.counted.writers_count,
          total-two writes s.write_threads w w' WriterAt.away refl,
          total-two writes s.write_threads w' w WriterAt.away refl,
        ),
      )

  -- In every state that a run comes to, a reader who has come to the end of the table has counted the multiples of its divisor in the
  -- table as it is at that moment, and the table is one of a hundred numbers from 1 to 999.
  pub count_is_current :
      {s : State}
      → Reach div (opening drawn w_no r_no) s
      → (r count : ℕ) → reader s r ≡ reading table_size count
      → (count ≡ divisible (div r) s.table table_size) × IsTable s.table
  count_is_current run r count e =
      let inv = Reach-Inv run in
      ((inv.counted.scanned r table_size count e).1, inv.counted.is_table)

  -- In every state that a run comes to, while a writer waits or writes, no step lets a reader in.
  pub writers_first :
      {s : State}
      → Reach div (opening drawn w_no r_no) s
      → (w : ℕ) → writer s w ≢ WriterAt.away
      → {t : State} → Step div s t
      → t.readers ≤ s.readers
  writers_first {s} run w busy st =
      let inv = Reach-Inv run in
      not_in st (
        ground
          (arith, inv.counted.queue_count, total-at queues s.write_threads w WriterAt.away refl))

  -- In every state that a run comes to, not all threads sleep: as long as there are threads, one of them is outside of
  -- `pthread_cond_wait`.
  pub someone_awake :
      {s : State}
      → Reach div (opening drawn w_no r_no) s
      → 0 < length s.read_threads + length s.write_threads
      → ((r : ℕ) × (r < length s.read_threads) × (reader s r ≢ ReaderAt.asleep))
        ⊎ ((w : ℕ) × (w < length s.write_threads) × (writer s w ≢ WriterAt.asleep))
  someone_awake {s} run some_thread =
      let inv = Reach-Inv run in
      elim (dec_lt 0 (length s.read_threads)) [
        | yes has_reader ↦ elim (Reader-cases (reader s 0)) [
          | inl sleeps ↦
              let queue = inv.reader_sleeps 0 sleeps in
              let (w, h, q) =
                total-some queues s.write_threads WriterAt.away
                  (omega (arith, inv.counted.queue_count, queue)) in
              writer_case inv w h
          | inr up ↦ inl (0, has_reader, up)
        ]
        | no none_there ↦ writer_case inv 0 (omega arith)
      ]
