-- ===== src/Table/Mutex/Invariant.antt =====
-- What every step of cw09/zad1a keeps true: the counters count, the table is used by one side only,
-- and whoever sleeps has a reason to.
use systemy_operacyjne_c.Base.{
  ℕ, ◌+◌, ◌≤◌, ◌<◌, ◌≡◌, ◌⊎◌, inl, refl, arith, total, total-replicate, get_or-replicate,
}
use systemy_operacyjne_c.Table.{table_size, divisible, IsTable, rand_table-IsTable}
use systemy_operacyjne_c.Table.Mutex.{
  ReaderAt, reading, WriterAt, writing, State, reader, writer, opening,
}

-- What a thread adds to `readers`, to `writers` and to `writersInQueue`.
abbrev pub reads : ReaderAt → ℕ
reads (reading _ _) = 1
reads _ = 0

abbrev pub writes : WriterAt → ℕ
writes (writing _) = 1
writes _ = 0

abbrev pub queues : WriterAt → ℕ
queues WriterAt.away = 0
queues _ = 1

pub record Counted (div : ℕ → ℕ) (s : State) : Type 0 where
  pub readers_count : s.readers ≡ total reads s.read_threads
  pub writers_count : s.writers ≡ total writes s.write_threads
  pub queue_count : s.writers_in_queue ≡ total queues s.write_threads
  pub alone : s.writers ≤ 1
  pub apart : (s.writers ≡ 0) ⊎ (s.readers ≡ 0)
  pub is_table : IsTable s.table
  pub scanned :
      (r i count : ℕ)
      → reader s r ≡ reading i count
      → (i ≤ table_size) × (count ≡ divisible (div r) s.table i)

-- Whoever sleeps has a reason to.
pub record Inv (div : ℕ → ℕ) (s : State) : Type 0 where
  pub counted : Counted div s
  pub reader_sleeps : (r : ℕ) → reader s r ≡ ReaderAt.asleep → 0 < s.writers_in_queue
  pub writer_sleeps : (w : ℕ) → writer s w ≡ WriterAt.asleep → 0 < s.readers + s.writers

pub opening-Inv : (div drawn : ℕ → ℕ) (w_no r_no : ℕ) → Inv div (opening drawn w_no r_no)
opening-Inv div drawn w_no r_no = record {
  counted = record {
    readers_count = ground (arith, total-replicate reads r_no ReaderAt.away refl);
    writers_count = ground (arith, total-replicate writes w_no WriterAt.away refl);
    queue_count = ground (arith, total-replicate queues w_no WriterAt.away refl);
    alone = omega arith;
    apart = inl refl;
    is_table = rand_table-IsTable drawn;
    scanned = λ r i count e. ground (arith, get_or-replicate r_no r ReaderAt.away);
  };
  reader_sleeps = λ r e. ground (arith, get_or-replicate r_no r ReaderAt.away);
  writer_sleeps = λ w e. ground (arith, get_or-replicate w_no w WriterAt.away);
}
