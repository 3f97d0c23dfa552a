-- ===== src/Table/Semaphores/Laws.antt =====
-- What no order of steps of the readers and writers of cw09/zad1b can break.
use systemy_operacyjne_c.Base.{
  ℕ, ◌<◌, ◌≡◌, ◌≢◌, ◌⊎◌, inl, inr, refl, arith, length, total-at, total-two, total-some, dec_lt,
}
use systemy_operacyjne_c.Table.{table_size, divisible, IsTable}
use systemy_operacyjne_c.Table.Semaphores.{
  ReaderAt, reading, WriterAt, waiting, writing, State, reader, writer, opening, Reach, here, then_,
}
use systemy_operacyjne_c.Table.Semaphores.Invariant.{
  Inv, inside, in_turn, waits, writes, opening-Inv,
}
use systemy_operacyjne_c.Table.Semaphores.Steps.{step-Inv}

module _ (div drawn : ℕ → ℕ) (w_no r_no : ℕ) where
  Reach-Inv : {s : State} → Reach div (opening drawn w_no r_no) s → Inv div s
  Reach-Inv here = opening-Inv div drawn w_no r_no
  Reach-Inv (then_ r st) = step-Inv (Reach-Inv r) st

  -- In every state that a run comes to, while a thread writes, no thread reads and no other thread writes.
  pub semaphores_exclude :
      {s : State}
      → Reach div (opening drawn w_no r_no) s
      → (w left : ℕ) → writer s w ≡ writing left
      → ((r i count : ℕ) → reader s r ≢ reading i count)
        × ((w' left' : ℕ) → writer s w' ≡ writing left' → w ≡ w')
  semaphores_exclude {s} run w left e =
      let inv = Reach-Inv run in
      (
        λ r i count e'. ground (
          arith,
          inv.apart,
          inv.readers_count,
          total-at writes s.write_threads w WriterAt.away refl,
          total-at inside s.read_threads r ReaderAt.away refl,
        ),
        λ w' left' e'. ground (
          arith,
          inv.turn_owned,
          total-two in_turn s.write_threads w w' WriterAt.away refl,
          total-two in_turn s.write_threads w' w WriterAt.away refl,
        ),
      )

  -- In every state that a run comes to, a reader who has come to the end of the table has counted the multiples of its divisor in the
  -- table as it is at that moment, and the table is one of a hundred numbers from 1 to 999.
  pub semaphores_count :
      {s : State}
      → Reach div (opening drawn w_no r_no) s
      → (r count : ℕ) → reader s r ≡ reading table_size count
      → (count ≡ divisible (div r) s.table table_size) × IsTable s.table
  semaphores_count run r count e =
      let inv = Reach-Inv run in ((inv.scanned r table_size count e).1, inv.is_table)

  -- In every state that a run comes to, a writer who waits on `semWait` is not forgotten: the post is there, or a reader is still inside
  -- who has to leave.
  pub writer_not_forgotten :
      {s : State}
      → Reach div (opening drawn w_no r_no) s
      → (w : ℕ) → writer s w ≡ waiting
      → (0 < s.sem_wait) ⊎ ((r : ℕ) × (r < length s.read_threads) × (0 < inside (reader s r)))
  writer_not_forgotten {s} run w e =
      let inv = Reach-Inv run in
      let there = total-at waits s.write_threads w WriterAt.away refl in
      elim (dec_lt 0 s.sem_wait) [
        | yes posted ↦ inl posted
        | no not_yet ↦ inr (
            total-some inside s.read_threads ReaderAt.away
              (ground (arith, inv.not_forgotten, inv.readers_count, there)))
      ]
