-- ===== src/Table/Mutex/Steps.antt =====
-- Every step of a reader or a writer of cw09/zad1a keeps the invariant.
use systemy_operacyjne_c.Base.{
  ℕ, ◌≤◌, ap, sym, ◌∙◌, ◌+◌, ◌-◌, ◌<◌, ◌≡◌, ◌⊎◌, inl, inr, refl, List, if◌then◌else◌, ◌==◌, arith,
  length, total-le, at-set, true, false, Bool, total-set, total-at, total-map, get_or-map,
}
use systemy_operacyjne_c.Table.{table_size, divisible, IsTable, amount, put, hit, put-IsTable}
use systemy_operacyjne_c.Table.Mutex.{
  ReaderAt, reading, WriterAt, writing, State, reader, writer, rouse_reader, rouse_writer,
  reader_goes, writer_goes, broadcast, reader_tests, writer_tests, ReaderStep, WriterStep, Step,
  by_reader, by_writer,
}
use systemy_operacyjne_c.Table.Mutex.Invariant.{Counted, Inv, reads, writes, queues}

reads-rouse : (a : ReaderAt) → reads (rouse_reader a) ≡ reads a
reads-rouse a = ground arith

writes-rouse : (a : WriterAt) → writes (rouse_writer a) ≡ writes a
writes-rouse a = ground arith

queues-rouse : (a : WriterAt) → queues (rouse_writer a) ≡ queues a
queues-rouse a = ground arith

writes-queues : (a : WriterAt) → writes a ≤ queues a
writes-queues a = ground arith

module _ {div : ℕ → ℕ} {s : State} (inv : Counted div s) where
  reader_goes-Counted :
      (r : ℕ) (a : ReaderAt) (n : ℕ)
      → r < length s.read_threads
      → n + reads (reader s r) ≡ s.readers + reads a
      → (s.writers ≡ 0) ⊎ (n ≡ 0)
      → ((i count : ℕ)
          → a ≡ reading i count
          → (i ≤ table_size) × (count ≡ divisible (div r) s.table i))
      → Counted div (reader_goes r a (record s { readers = n }))
  reader_goes-Counted r a n h e p scan = record {
    readers_count =
        omega (arith, inv.readers_count, total-set reads s.read_threads r ReaderAt.away a h);
    writers_count = inv.writers_count;
    queue_count = inv.queue_count;
    alone = inv.alone;
    apart = p;
    is_table = inv.is_table;
    scanned = λ r' i count e'.
        grind (
          arith,
          at-set s.read_threads r a ReaderAt.away h r',
          inv.scanned r' i count,
          scan i count,
        );
  }

  kept_scans :
      (t : List ℕ)
      → (t ≡ s.table) ⊎ (s.readers ≡ 0)
      → (r i count : ℕ) → reader s r ≡ reading i count
      → (i ≤ table_size) × (count ≡ divisible (div r) t i)
  kept_scans t (inl e) r i count e' = (
    (inv.scanned r i count e').0,
    (inv.scanned r i count e').1 ∙ ap (λ u. divisible (div r) u i) (sym e),
  )
  kept_scans t (inr none_there) r i count e' =
      absurd (ground (arith, inv.readers_count, total-at reads s.read_threads r ReaderAt.away refl))

  writer_goes-Counted :
      (w : ℕ) (a : WriterAt) (m q : ℕ) (t : List ℕ)
      → w < length s.write_threads
      → m + writes (writer s w) ≡ s.writers + writes a
      → q + queues (writer s w) ≡ s.writers_in_queue + queues a
      → m ≤ 1
      → (m ≡ 0) ⊎ (s.readers ≡ 0)
      → IsTable t
      → (t ≡ s.table) ⊎ (s.readers ≡ 0)
      → Counted div (writer_goes w a (record s { writers = m; writers_in_queue = q; table = t }))
  writer_goes-Counted w a m q t h em eq one p is unchanged = record {
    readers_count = inv.readers_count;
    writers_count =
        omega (arith, inv.writers_count, total-set writes s.write_threads w WriterAt.away a h);
    queue_count =
        omega (arith, inv.queue_count, total-set queues s.write_threads w WriterAt.away a h);
    alone = one;
    apart = p;
    is_table = is;
    scanned = kept_scans t unchanged;
  }

  broadcast-Inv : Inv div (broadcast s)
  broadcast-Inv = record {
    counted = record {
      readers_count =
          inv.readers_count ∙ sym (total-map reads rouse_reader s.read_threads reads-rouse);
      writers_count =
          inv.writers_count ∙ sym (total-map writes rouse_writer s.write_threads writes-rouse);
      queue_count =
          inv.queue_count ∙ sym (total-map queues rouse_writer s.write_threads queues-rouse);
      alone = inv.alone;
      apart = inv.apart;
      is_table = inv.is_table;
      scanned = λ r i count e. ground (
        arith,
        inv.scanned r i count,
        get_or-map rouse_reader s.read_threads r ReaderAt.away refl,
      );
    };
    reader_sleeps =
        λ r e. ground (arith, get_or-map rouse_reader s.read_threads r ReaderAt.away refl);
    writer_sleeps =
        λ w e. ground (arith, get_or-map rouse_writer s.write_threads w WriterAt.away refl);
  }

scan_starts :
    (d : ℕ) (t : List ℕ) (i count : ℕ)
    → reading 0 0 ≡ reading i count
    → (i ≤ table_size) × (count ≡ divisible d t i)
unfolding divisible
scan_starts d t i count e = ground arith

scan_goes_on :
    (d : ℕ) (t : List ℕ) (i count i' count' : ℕ)
    → i < table_size
    → count ≡ divisible d t i
    → reading (i + 1) (count + hit d t i) ≡ reading i' count'
    → (i' ≤ table_size) × (count' ≡ divisible d t i')
unfolding divisible
scan_goes_on d t i count i' count' h c e = ground arith

if-Inv :
    {div : ℕ → ℕ} (b : Bool) (x y : State)
    → (b ≡ true → Inv div x)
    → (b ≡ false → Inv div y)
    → Inv div (if b then x else y)
if-Inv true x y f g = f refl
if-Inv false x y f g = g refl

module _ {div : ℕ → ℕ} {s : State} (inv : Inv div s) where
  reader_tests-Inv :
      (r : ℕ) → r < length s.read_threads → reads (reader s r) ≡ 0 → Inv div (reader_tests r s)
  reader_tests-Inv r h out =
      if-Inv (s.writers_in_queue == 0) _ _
        (λ free. record {
          counted =
              reader_goes-Counted inv.counted r (reading 0 0) (s.readers + 1) h (omega (arith, out))
                (inl (
                  ground (
                    arith,
                    inv.counted.writers_count,
                    inv.counted.queue_count,
                    total-le writes queues s.write_threads writes-queues,
                  )))
                (scan_starts (div r) s.table);
          reader_sleeps = λ r' e'. ground (
            arith,
            inv.reader_sleeps r',
            at-set s.read_threads r (reading 0 0) ReaderAt.away h r',
          );
          writer_sleeps = λ w e. ground (arith, inv.writer_sleeps w e);
        })
        (λ busy. record {
          counted =
              reader_goes-Counted inv.counted r ReaderAt.asleep s.readers h (omega (arith, out))
                inv.counted.apart (λ i count e. ground arith);
          reader_sleeps = λ r' e'. ground (
            arith,
            inv.reader_sleeps r',
            at-set s.read_threads r ReaderAt.asleep ReaderAt.away h r',
          );
          writer_sleeps = inv.writer_sleeps;
        })

  writer_goes-Inv :
      (w : ℕ) (a : WriterAt) (m q : ℕ)
      → w < length s.write_threads
      → m + writes (writer s w) ≡ s.writers + writes a
      → q + queues (writer s w) ≡ s.writers_in_queue + queues a
      → s.writers_in_queue ≤ q
      → s.writers ≤ m
      → (m ≡ 0) ⊎ (s.readers ≡ 0)
      → m ≤ 1
      → (a ≡ WriterAt.asleep → 0 < s.readers + m)
      → Inv div (writer_goes w a (record s { writers = m; writers_in_queue = q }))
  writer_goes-Inv w a m q h em eq more more_in p one why = record {
    counted =
        writer_goes-Counted inv.counted w a m q s.table h em eq one p inv.counted.is_table
          (inl refl);
    reader_sleeps = λ r e. omega (arith, inv.reader_sleeps r e);
    writer_sleeps =
        λ w' e. ground (arith, inv.writer_sleeps w', at-set s.write_threads w a WriterAt.away h w');
  }

  writer_tests-Inv :
      (w drawn q : ℕ)
      → w < length s.write_threads
      → writes (writer s w) ≡ 0
      → q + queues (writer s w) ≡ s.writers_in_queue + 1
      → s.writers_in_queue ≤ q
      → Inv div (writer_tests w drawn (record s { writers_in_queue = q }))
  writer_tests-Inv w drawn q h out e more =
      let waits : 0 < s.readers + s.writers
          → Inv div (writer_goes w WriterAt.asleep (record s { writers_in_queue = q })) =
        λ busy.
          writer_goes-Inv w WriterAt.asleep s.writers q h (omega (arith, out)) e more (omega arith)
            inv.counted.apart inv.counted.alone (λ _. busy) in
      if-Inv (s.readers == 0) _ _
        (λ free.
          if-Inv (s.writers == 0) _ _
            (λ none_in.
              writer_goes-Inv w (writing (amount drawn)) (s.writers + 1) q h (omega (arith, out)) e
                more (omega arith) (inr (ground arith)) (ground arith) (λ q. ground arith))
            (λ one_in. waits (ground arith)))
        (λ some_read. waits (ground arith))

  ReaderStep-Inv :
      (r : ℕ) → r < length s.read_threads → {t : State} → ReaderStep div s r t → Inv div t
  ReaderStep-Inv r h (ReaderStep.comes e) = reader_tests-Inv r h (ground arith)
  ReaderStep-Inv r h (ReaderStep.retries e) = reader_tests-Inv r h (ground arith)
  ReaderStep-Inv r h (ReaderStep.stirs e) = record {
    counted =
        reader_goes-Counted inv.counted r ReaderAt.roused s.readers h (ground arith)
          inv.counted.apart (λ i count e. ground arith);
    reader_sleeps = λ r' e'.
        ground
          (arith, inv.reader_sleeps r', at-set s.read_threads r ReaderAt.roused ReaderAt.away h r');
    writer_sleeps = inv.writer_sleeps;
  }
  ReaderStep-Inv r h (ReaderStep.looks i count e below) = record {
    counted =
        reader_goes-Counted inv.counted r (reading (i + 1) (count + hit (div r) s.table i))
          s.readers h (ground arith) inv.counted.apart
          (λ i' count' e'.
            scan_goes_on (div r) s.table i count i' count' below (inv.counted.scanned r i count e).1
              e');
    reader_sleeps = λ r' e'. ground (
      arith,
      inv.reader_sleeps r',
      at-set s.read_threads r (reading (i + 1) (count + hit (div r) s.table i)) ReaderAt.away h r',
    );
    writer_sleeps = inv.writer_sleeps;
  }
  ReaderStep-Inv r h (ReaderStep.leaves count e) = broadcast-Inv (
      reader_goes-Counted inv.counted r ReaderAt.away (s.readers - 1) h
        (ground
          (arith, inv.counted.readers_count, total-at reads s.read_threads r ReaderAt.away refl))
        (ground (arith, inv.counted.apart)) (λ i count e. ground arith))

  WriterStep-Inv : (w : ℕ) → w < length s.write_threads → {t : State} → WriterStep s w t → Inv div t
  WriterStep-Inv w h (WriterStep.comes drawn e) =
      writer_tests-Inv w drawn (s.writers_in_queue + 1) h (ground arith) (ground arith)
        (omega arith)
  WriterStep-Inv w h (WriterStep.retries drawn e) =
      writer_tests-Inv w drawn s.writers_in_queue h (ground arith) (ground arith) (omega arith)
  WriterStep-Inv w h (WriterStep.stirs e) =
      writer_goes-Inv w WriterAt.roused s.writers s.writers_in_queue h (ground arith) (ground arith)
        (omega arith) (omega arith) inv.counted.apart inv.counted.alone (λ q. ground arith)
  WriterStep-Inv w h (WriterStep.puts left k value e) =
      let only : s.readers ≡ 0 = ground (
        arith,
        inv.counted.apart,
        inv.counted.writers_count,
        total-at writes s.write_threads w WriterAt.away refl,
      ) in
      record {
        counted =
            writer_goes-Counted inv.counted w (writing left) s.writers s.writers_in_queue
              (put s.table k value) h (ground arith) (ground arith) inv.counted.alone (inr only)
              (put-IsTable s.table k value inv.counted.is_table) (inr only);
        reader_sleeps = inv.reader_sleeps;
        writer_sleeps = λ w' e'. ground (
          arith,
          inv.writer_sleeps w',
          at-set s.write_threads w (writing left) WriterAt.away h w',
        );
      }
  WriterStep-Inv w h (WriterStep.leaves e) = broadcast-Inv (
      writer_goes-Counted inv.counted w WriterAt.away (s.writers - 1) (s.writers_in_queue - 1)
        s.table h
        (ground
          (arith, inv.counted.writers_count, total-at writes s.write_threads w WriterAt.away refl))
        (ground
          (arith, inv.counted.queue_count, total-at queues s.write_threads w WriterAt.away refl))
        (omega (arith, inv.counted.alone)) (inl (omega (arith, inv.counted.alone)))
        inv.counted.is_table (inl refl))

  pub step-Inv : {t : State} → Step div s t → Inv div t
  step-Inv (by_reader r h st) = ReaderStep-Inv r h st
  step-Inv (by_writer w h st) = WriterStep-Inv w h st
