-- ===== src/Table/Semaphores/Steps.antt =====
-- Every step of a reader or a writer of cw09/zad1b keeps the invariant.
use systemy_operacyjne_c.Base.{
  ℕ, ◌+◌, ◌-◌, ◌≤◌, ◌<◌, ◌≡◌, ◌⊎◌, inl, inr, refl, sym, ap, ◌∙◌, Bool, true, false, List,
  if◌then◌else◌, ◌==◌, arith, set, length, total, total-set, total-at, total-le, total-le_add,
  at-set,
}
use systemy_operacyjne_c.Table.{table_size, divisible, IsTable, amount, put, hit, put-IsTable}
use systemy_operacyjne_c.Table.Semaphores.{
  ReaderAt, entering, reading, leaving, WriterAt, chosen, checking, waiting, writing, done, State,
  reader, writer, reader_goes, writer_goes, ReaderStep, WriterStep, Step, by_reader, by_writer,
}
use systemy_operacyjne_c.Table.Semaphores.Invariant.{
  Inv, reader_holds, writer_holds, inside, wants, in_turn, waits, writes,
}

writes-holds : (a : WriterAt) → writes a ≤ writer_holds a
writes-holds a = ground arith

wants-two : (a : WriterAt) → wants a ≤ waits a + writes a
wants-two a = ground arith

waits-turn : (a : WriterAt) → waits a ≤ in_turn a
waits-turn a = ground arith

waits-wants : (a : WriterAt) → waits a ≤ wants a
waits-wants a = ground arith

scan_starts :
    (d : ℕ) (t : List ℕ) (i count : ℕ)
    → reading 0 0 ≡ reading i count
    → (i ≤ table_size) × (count ≡ divisible d t i)
unfolding divisible
scan_starts d t i count e = ground arith

scan_goes_on :
    (d : ℕ) (t : List ℕ) (i count i' count' : ℕ)
    → i < table_size
    → count ≡ divisible d t i
    → reading (i + 1) (count + hit d t i) ≡ reading i' count'
    → (i' ≤ table_size) × (count' ≡ divisible d t i')
unfolding divisible
scan_goes_on d t i count i' count' h c e = ground arith

if-Inv :
    {div : ℕ → ℕ} (b : Bool) (x y : State)
    → (b ≡ true → Inv div x)
    → (b ≡ false → Inv div y)
    → Inv div (if b then x else y)
if-Inv true x y f g = f refl
if-Inv false x y f g = g refl

module _ {div : ℕ → ℕ} {s : State} (inv : Inv div s) where
  reader_goes-Inv :
      (r : ℕ) (a : ReaderAt) (n c p : ℕ)
      → r < length s.read_threads
      → c + p + reader_holds a ≡ s.sem_check + s.sem_wait + reader_holds (reader s r)
      → n + inside (reader s r) ≡ s.readers + inside a
      → (p + total writes s.write_threads ≡ 0) ⊎ (n ≡ 0)
      → p ≤ total waits s.write_threads
      → total waits s.write_threads ≤ p + n
      → ((i count : ℕ)
          → a ≡ reading i count
          → (i ≤ table_size) × (count ≡ divisible (div r) s.table i))
      → Inv div (reader_goes r a (record s { readers = n; sem_check = c; sem_wait = p }))
  reader_goes-Inv r a n c p h ec en ap call wake scan = record {
    check_owned =
        omega (arith, inv.check_owned, total-set reader_holds s.read_threads r ReaderAt.away a h);
    turn_owned = inv.turn_owned;
    readers_count =
        omega (arith, inv.readers_count, total-set inside s.read_threads r ReaderAt.away a h);
    writers_count = inv.writers_count;
    apart = ap;
    called = call;
    not_forgotten = wake;
    is_table = inv.is_table;
    scanned = λ r' i count e'.
        grind (
          arith,
          at-set s.read_threads r a ReaderAt.away h r',
          inv.scanned r' i count,
          scan i count,
        );
  }

  -- While a reader has `semCheck`, nobody writes or is about to, and at most one writer waits.
  reader_has_check :
      (r : ℕ)
      → reader_holds (reader s r) ≡ 1
      → (s.sem_check ≡ 0)
        × (s.sem_wait + total writes s.write_threads ≡ 0)
        × (s.writers ≡ total waits s.write_threads)
        × (s.writers ≤ 1)
  reader_has_check r e =
      let held = total-at reader_holds s.read_threads r ReaderAt.away refl in
      let w = total-le writes writer_holds s.write_threads writes-holds in
      let x = total-le_add wants waits writes s.write_threads wants-two in
      let y = total-le waits wants s.write_threads waits-wants in
      let z = total-le waits in_turn s.write_threads waits-turn in
      (
        omega (arith, inv.check_owned),
        omega (arith, inv.check_owned),
        omega (arith, inv.check_owned, inv.writers_count),
        omega (arith, inv.check_owned, inv.writers_count, inv.turn_owned),
      )

  kept_scans :
      (t : List ℕ)
      → (t ≡ s.table) ⊎ (s.readers ≡ 0)
      → (r i count : ℕ) → reader s r ≡ reading i count
      → (i ≤ table_size) × (count ≡ divisible (div r) t i)
  kept_scans t (inl e) r i count e' = (
    (inv.scanned r i count e').0,
    (inv.scanned r i count e').1 ∙ ap (λ u. divisible (div r) u i) (sym e),
  )
  kept_scans t (inr none_there) r i count e' =
      absurd
        (ground (arith, inv.readers_count, total-at inside s.read_threads r ReaderAt.away refl))

  writer_goes-Inv :
      (w : ℕ) (a : WriterAt) (m c p q : ℕ) (t : List ℕ)
      → w < length s.write_threads
      → c + p + writer_holds a ≡ s.sem_check + s.sem_wait + writer_holds (writer s w)
      → q + in_turn a ≡ s.sem_writer + in_turn (writer s w)
      → m + wants (writer s w) ≡ s.writers + wants a
      → (p + writes a ≡ s.sem_wait + writes (writer s w)) ⊎ (s.readers ≡ 0)
      → p + waits (writer s w) ≤ s.sem_wait + waits a
      → (waits a + s.sem_wait ≤ p + waits (writer s w)) ⊎ (0 < s.readers)
      → IsTable t
      → (t ≡ s.table) ⊎ (s.readers ≡ 0)
      → Inv div (
          writer_goes w a
            (record s { writers = m; sem_check = c; sem_wait = p; sem_writer = q; table = t }))
  writer_goes-Inv w a m c p q t h ec eq em ap call wake is unchanged = record {
    check_owned =
        omega (arith, inv.check_owned, total-set writer_holds s.write_threads w WriterAt.away a h);
    turn_owned =
        omega (arith, inv.turn_owned, total-set in_turn s.write_threads w WriterAt.away a h);
    readers_count = inv.readers_count;
    writers_count =
        omega (arith, inv.writers_count, total-set wants s.write_threads w WriterAt.away a h);
    apart = ground (arith, inv.apart, total-set writes s.write_threads w WriterAt.away a h);
    called = omega (arith, inv.called, total-set waits s.write_threads w WriterAt.away a h);
    not_forgotten = ground (
      arith,
      inv.not_forgotten,
      inv.turn_owned,
      total-set in_turn s.write_threads w WriterAt.away a h,
      total-set waits s.write_threads w WriterAt.away a h,
      total-le waits in_turn (set s.write_threads w a) waits-turn,
    );
    is_table = is;
    scanned = kept_scans t unchanged;
  }

  ReaderStep-Inv :
      (r : ℕ) → r < length s.read_threads → {t : State} → ReaderStep div s r t → Inv div t
  ReaderStep-Inv r h (ReaderStep.comes e pos_check) =
      reader_goes-Inv r entering s.readers (s.sem_check - 1) s.sem_wait h (ground arith)
        (ground arith) inv.apart inv.called inv.not_forgotten (λ i count e. ground arith)
  ReaderStep-Inv r h (ReaderStep.enters e) =
      let (c, free, ww, one) = reader_has_check r (ground arith) in
      reader_goes-Inv r (reading 0 0) (s.readers + 1) (s.sem_check + 1) s.sem_wait h (ground arith)
        (ground arith) (inl free) inv.called (omega (arith, inv.not_forgotten))
        (scan_starts (div r) s.table)
  ReaderStep-Inv r h (ReaderStep.looks i count e below) =
      reader_goes-Inv r (reading (i + 1) (count + hit (div r) s.table i)) s.readers s.sem_check
        s.sem_wait h (ground arith) (ground arith) inv.apart inv.called inv.not_forgotten
        (λ i' count'.
          scan_goes_on (div r) s.table i count i' count' below (inv.scanned r i count e).1)
  ReaderStep-Inv r h (ReaderStep.stops count e pos_check) =
      reader_goes-Inv r leaving s.readers (s.sem_check - 1) s.sem_wait h (ground arith)
        (ground arith) inv.apart inv.called inv.not_forgotten (λ i count e. ground arith)
  ReaderStep-Inv r h (ReaderStep.leaves e) =
      let (c, free, ww, one) = reader_has_check r (ground arith) in
      let some_in : 0 < s.readers =
        ground (arith, inv.readers_count, total-at inside s.read_threads r ReaderAt.away refl) in
      if-Inv (s.readers - 1 == 0) _ _
        (λ last.
          if-Inv (s.writers == 0) _ _
            (λ none_wants.
              reader_goes-Inv r ReaderAt.away (s.readers - 1) (s.sem_check + 1) s.sem_wait h
                (ground arith) (ground arith) (inl free) inv.called (ground arith)
                (λ i count e. ground arith))
            (λ one_wants.
              reader_goes-Inv r ReaderAt.away (s.readers - 1) s.sem_check (s.sem_wait + 1) h
                (ground arith) (ground arith) (inr (ground arith)) (ground arith) (ground arith)
                (λ i count e. ground arith)))
        (λ more.
          reader_goes-Inv r ReaderAt.away (s.readers - 1) (s.sem_check + 1) s.sem_wait h
            (ground arith) (ground arith) (inl free) inv.called (ground arith)
            (λ i count e. ground arith))

  -- While a writer waits with a post on `semWait`, or writes, no reader is inside.
  no_reader : (w : ℕ) → (0 < s.sem_wait) ⊎ (writes (writer s w) ≡ 1) → s.readers ≡ 0
  no_reader w e = ground (arith, inv.apart, total-at writes s.write_threads w WriterAt.away refl)

  WriterStep-Inv : (w : ℕ) → w < length s.write_threads → {t : State} → WriterStep s w t → Inv div t
  WriterStep-Inv w h (WriterStep.comes e free) =
      writer_goes-Inv w chosen s.writers s.sem_check s.sem_wait (s.sem_writer - 1) s.table h
        (ground arith) (ground arith) (ground arith) (inl (ground arith)) (ground arith)
        (inl (ground arith)) inv.is_table (inl refl)
  WriterStep-Inv w h (WriterStep.takes e free) =
      writer_goes-Inv w checking s.writers (s.sem_check - 1) s.sem_wait s.sem_writer s.table h
        (ground arith) (ground arith) (ground arith) (inl (ground arith)) (ground arith)
        (inl (ground arith)) inv.is_table (inl refl)
  WriterStep-Inv w h (WriterStep.checks drawn e) =
      if-Inv (s.readers == 0) _ _
        (λ empty.
          writer_goes-Inv w (writing (amount drawn)) (s.writers + 1) s.sem_check s.sem_wait
            s.sem_writer s.table h (ground arith) (ground arith) (ground arith) (inr (ground arith))
            (ground arith) (inl (ground arith)) inv.is_table (inl refl))
        (λ some_in.
          writer_goes-Inv w waiting (s.writers + 1) (s.sem_check + 1) s.sem_wait s.sem_writer
            s.table h (ground arith) (ground arith) (ground arith) (inl (ground arith))
            (ground arith) (inr (ground arith)) inv.is_table (inl refl))
  WriterStep-Inv w h (WriterStep.resumes drawn e posted) =
      writer_goes-Inv w (writing (amount drawn)) s.writers s.sem_check (s.sem_wait - 1) s.sem_writer
        s.table h (ground arith) (ground arith) (ground arith) (inr (no_reader w (inl posted)))
        (ground arith) (inl (ground arith)) inv.is_table (inl refl)
  WriterStep-Inv w h (WriterStep.puts left k value e) =
      let only : s.readers ≡ 0 = no_reader w (inr (ground arith)) in
      writer_goes-Inv w (writing left) s.writers s.sem_check s.sem_wait s.sem_writer
        (put s.table k value) h (ground arith) (ground arith) (ground arith) (inr only)
        (ground arith) (inl (ground arith)) (put-IsTable s.table k value inv.is_table) (inr only)
  WriterStep-Inv w h (WriterStep.stops e) =
      let counted : 0 < s.writers =
        ground (arith, inv.writers_count, total-at wants s.write_threads w WriterAt.away refl) in
      writer_goes-Inv w done (s.writers - 1) (s.sem_check + 1) s.sem_wait s.sem_writer s.table h
        (ground arith) (ground arith) (ground arith) (inr (no_reader w (inr (ground arith))))
        (ground arith) (inl (ground arith)) inv.is_table (inl refl)
  WriterStep-Inv w h (WriterStep.leaves e) =
      writer_goes-Inv w WriterAt.away s.writers s.sem_check s.sem_wait (s.sem_writer + 1) s.table h
        (ground arith) (ground arith) (ground arith) (inl (ground arith)) (ground arith)
        (inl (ground arith)) inv.is_table (inl refl)

  pub step-Inv : {t : State} → Step div s t → Inv div t
  step-Inv (by_reader r h st) = ReaderStep-Inv r h st
  step-Inv (by_writer w h st) = WriterStep-Inv w h st
