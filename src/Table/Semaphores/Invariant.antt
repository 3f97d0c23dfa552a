-- ===== src/Table/Semaphores/Invariant.antt =====
-- What every step of cw09/zad1b keeps true: `semCheck`, or the right to use the table that is passed
-- through `semWait`, has one owner, and so has `semWriter`.
use systemy_operacyjne_c.Base.{
  ℕ, ◌+◌, ◌≤◌, ◌≡◌, ◌⊎◌, inl, refl, arith, total, total-replicate, get_or-replicate,
}
use systemy_operacyjne_c.Table.{table_size, divisible, IsTable, rand_table-IsTable}
use systemy_operacyjne_c.Table.Semaphores.{
  ReaderAt, entering, reading, leaving, WriterAt, checking, waiting, writing, State, reader,
  opening,
}

-- Whether a thread has `semCheck`.
abbrev pub reader_holds : ReaderAt → ℕ
reader_holds entering = 1
reader_holds leaving = 1
reader_holds _ = 0

abbrev pub writer_holds : WriterAt → ℕ
writer_holds checking = 1
writer_holds (writing _) = 1
writer_holds _ = 0

-- What a thread adds to `readers` and to `writers`.
abbrev pub inside : ReaderAt → ℕ
inside (reading _ _) = 1
inside leaving = 1
inside _ = 0

abbrev pub wants : WriterAt → ℕ
wants waiting = 1
wants (writing _) = 1
wants _ = 0

-- Whether a writer has `semWriter`, waits on `semWait`, or writes.
abbrev pub in_turn : WriterAt → ℕ
in_turn WriterAt.away = 0
in_turn _ = 1

abbrev pub waits : WriterAt → ℕ
waits waiting = 1
waits _ = 0

abbrev pub writes : WriterAt → ℕ
writes (writing _) = 1
writes _ = 0

pub record Inv (div : ℕ → ℕ) (s : State) : Type 0 where
  pub check_owned :
      s.sem_check
        + s.sem_wait
        + total reader_holds s.read_threads
        + total writer_holds s.write_threads
      ≡ 1
  pub turn_owned : s.sem_writer + total in_turn s.write_threads ≡ 1
  pub readers_count : s.readers ≡ total inside s.read_threads
  pub writers_count : s.writers ≡ total wants s.write_threads
  pub apart : (s.sem_wait + total writes s.write_threads ≡ 0) ⊎ (s.readers ≡ 0)
  pub called : s.sem_wait ≤ total waits s.write_threads
  pub not_forgotten : total waits s.write_threads ≤ s.sem_wait + s.readers
  pub is_table : IsTable s.table
  pub scanned :
      (r i count : ℕ)
      → reader s r ≡ reading i count
      → (i ≤ table_size) × (count ≡ divisible (div r) s.table i)

pub opening-Inv : (div drawn : ℕ → ℕ) (w_no r_no : ℕ) → Inv div (opening drawn w_no r_no)
opening-Inv div drawn w_no r_no =
    let off : (f : WriterAt → ℕ)
        → f WriterAt.away ≡ 0
        → total f (opening drawn w_no r_no).write_threads ≡ 0 =
      λ f e. total-replicate f w_no WriterAt.away e in
    record {
      check_owned =
          omega
            (arith, total-replicate reader_holds r_no ReaderAt.away refl, off writer_holds refl);
      turn_owned = omega (arith, off in_turn refl);
      readers_count = omega (arith, total-replicate inside r_no ReaderAt.away refl);
      writers_count = omega (arith, off wants refl);
      apart = inl (omega (arith, off writes refl));
      called = omega arith;
      not_forgotten = omega (arith, off waits refl);
      is_table = rand_table-IsTable drawn;
      scanned = λ r i count e. ground (arith, get_or-replicate r_no r ReaderAt.away);
    }
