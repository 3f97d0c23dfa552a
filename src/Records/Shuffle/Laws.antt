-- ===== src/Records/Shuffle/Laws.antt =====
-- What both versions of the shuffle do to a file of whole records.
use Prim.Native.String.{String}
use mathlib.Core.List.{Perm}
use systemy_operacyjne_c.Base.{
  All, ℕ, zero, suc, ◌+◌, ◌-◌, ◌*◌, ◌%◌, ◌<◌, ◌≡◌, refl, sym, ap, ◌∙◌, List, [], ◌∷◌, ◌++◌, arith,
  length, get_or, set, take, drop, append-nil, append_assoc, length-set, some,
}
use systemy_operacyjne_c.Records.Io.{ok, RecordIo, IsRecordIo}
use systemy_operacyjne_c.Records.Handles.{
  sys_io, lib_io, positioned, sys_io-IsRecordIo, lib_io-IsRecordIo,
}
use systemy_operacyjne_c.Records.Disk.{Disk, store, opened}
use systemy_operacyjne_c.Records.Bsort.{read_record, write_record}
use systemy_operacyjne_c.Records.Bsort.Bubble.{Rec}
use systemy_operacyjne_c.Records.Bsort.Passes.{
  concat, At, read_bytes_at, seek-At, read-At, write-At,
}
use systemy_operacyjne_c.Records.Shuffle.{
  overlay, exchange_sys, shuffle_sys_loop, exchange_lib, shuffle_lib_loop, shuffle_sys, shuffle_lib,
}
use systemy_operacyjne_c.Records.Shuffle.Items.{
  exchange, shuffle_records, concat-set, concat-get, length-concat-take, length-get, sizes-set,
  length-exchange, mod-lt_suc, perm-shuffle_records,
}

drop_all : (xs : List ℕ) (n : ℕ) → n ≡ length xs → drop n xs ≡ []
drop_all [] zero e = refl
drop_all [] (suc n) e = refl
drop_all (x ∷ xs) zero e = absurd (omega arith)
drop_all (x ∷ xs) (suc n) e = drop_all xs n (omega arith)

overlay_whole : (got buffer : List ℕ) → length got ≡ length buffer → overlay got buffer ≡ got
overlay_whole got buffer l = ap (λ t. got ++ t) (drop_all buffer (length got) l) ∙ append-nil got

module _ {S : Type 0} (io : RecordIo S) (laws : IsRecordIo io) (size : ℕ) where
  -- The file holds the records `rs`.
  record Holds (s : S) (rs : List Rec) : Type 0 where
    bytes : (io.file s).bytes ≡ concat rs
    sizes : All (λ r. length r ≡ size) rs

  abbrev after_read : ℕ → S → S
  after_read k s = (io.read size (io.seek (k * size) s)).1

  abbrev after_write : ℕ → Rec → S → S
  after_write k w s = (io.write w (io.seek (k * size) s)).1

  At-record :
      (s : S) (rs : List Rec) (k : ℕ)
      → Holds s rs
      → k < length rs
      → At io laws size
          (io.seek (k * size) s)
          (concat (take k rs))
          (get_or rs k [] ++ concat (drop (suc k) rs))
  At-record s rs k v h =
      seek-At io laws size s _ _ (k * size) (v.bytes ∙ concat-get rs k h)
        (length-concat-take size rs k h v.sizes)

  read-Holds :
      (s : S) (rs : List Rec) (k : ℕ)
      → Holds s rs
      → k < length rs
      → (read_record io size (io.seek (k * size) s) ≡ (ok (get_or rs k []), after_read k s))
        × Holds (after_read k s) rs
  read-Holds s rs k v h =
      let r =
        read-At io laws size (io.seek (k * size) s) _ (get_or rs k []) _ (At-record s rs k v h)
          (laws.readable-seek _ s) (length-get size rs k h v.sizes) in
      (
        r.0,
        record {
          bytes = laws.bytes-read size _ (laws.readable-seek _ s) ∙ laws.bytes-seek _ s ∙ v.bytes;
          sizes = v.sizes;
        },
      )

  write-Holds :
      (s : S) (rs : List Rec) (k : ℕ) (w : Rec)
      → Holds s rs
      → k < length rs
      → length w ≡ size
      → (write_record io size w (io.seek (k * size) s) ≡ (ok tt, after_write k w s))
        × Holds (after_write k w s) (set rs k w)
  write-Holds s rs k w v h l =
      let r =
        write-At io laws size (io.seek (k * size) s) _ (get_or rs k []) _ w (At-record s rs k v h)
          (laws.writable-seek _ s) (length-get size rs k h v.sizes) l in
      (
        r.0,
        record {
          bytes = r.1.held ∙ append_assoc _ w _ ∙ sym (concat-set rs k w h);
          sizes = sizes-set size rs k w l v.sizes;
        },
      )

  -- A read that the code does not check.
  raw-Holds :
      (s : S) (rs : List Rec) (k : ℕ)
      → Holds s rs
      → k < length rs
      → io.read size (io.seek (k * size) s) ≡ (ok (get_or rs k []), after_read k s)
  raw-Holds s rs k v h = λ i. (
    (laws.ok-read size _ (laws.readable-seek _ s)
          ∙ ap ok (
              read_bytes_at _ _ (get_or rs k []) _ size (At-record s rs k v h).held
                (At-record s rs k v h).between (length-get size rs k h v.sizes)))
        i,
    after_read k s,
  )

  -- What an exchange does, of either kind: it ends in a state that holds the exchanged records.
  module _ (s : S) (rs : List Rec) (i j : ℕ) (v : Holds s rs) (hi : i < length rs)
      (hj : j < length rs) where
    abbrev a : Rec
    a = get_or rs i []

    abbrev b : Rec
    b = get_or rs j []

    abbrev s2 : S
    s2 = after_read j (after_read i s)

    abbrev s4 : S
    s4 = after_write j a (after_write i b s2)

    first :
        (read_record io size (io.seek (i * size) s) ≡ (ok a, after_read i s))
        × Holds (after_read i s) rs
    first = read-Holds s rs i v hi

    second : (read_record io size (io.seek (j * size) (after_read i s)) ≡ (ok b, s2)) × Holds s2 rs
    second = read-Holds (after_read i s) rs j first.1 hj

    third :
        (write_record io size b (io.seek (i * size) s2) ≡ (ok tt, after_write i b s2))
        × Holds (after_write i b s2) (set rs i b)
    third = write-Holds s2 rs i b second.1 hi (length-get size rs j hj v.sizes)

    fourth :
        (write_record io size a (io.seek (j * size) (after_write i b s2)) ≡ (ok tt, s4))
        × Holds s4 (set (set rs i b) j a)
    fourth =
        write-Holds (after_write i b s2) (set rs i b) j a third.1 (omega (arith, length-set rs i b))
          (length-get size rs i hi v.sizes)

    exchanged : Holds s4 (exchange i j rs)
    unfolding exchange
    exchanged = fourth.1

    exchange_lib_lem : exchange_lib io size i j s ≡ (ok tt, s4)
    unfolding exchange_lib
    exchange_lib_lem = ground (arith, first.0, second.0, third.0, fourth.0)

    exchange_sys_lem :
        (record1 record2 : List ℕ)
        → length record1 ≡ size
        → length record2 ≡ size
        → exchange_sys io size i j record1 record2 s ≡ (ok (a, b), s4)
    unfolding exchange_sys
    exchange_sys_lem record1 record2 l1 l2 = ground (
      arith,
      raw-Holds s rs i v hi,
      raw-Holds (after_read i s) rs j first.1 hj,
      third.0,
      fourth.0,
      overlay_whole a record1 (length-get size rs i hi v.sizes ∙ sym l1),
      overlay_whole b record2 (length-get size rs j hj v.sizes ∙ sym l2),
    )

  shuffle_lib_loop_lem :
      (rand_at : ℕ → ℕ) (i drawn : ℕ) (s : S) (rs : List Rec)
      → Holds s rs
      → i < length rs
      → (s' : S) × (shuffle_lib_loop io size rand_at i drawn s ≡ (ok tt, s'))
        × Holds s' (shuffle_records rand_at i drawn rs)
  unfolding shuffle_lib_loop shuffle_records
  shuffle_lib_loop_lem rand_at zero drawn s rs v h = (s, refl, v)
  shuffle_lib_loop_lem rand_at (suc i) drawn s rs v h =
      let j : ℕ = rand_at drawn % suc i in
      let hj : j < length rs = omega (arith, mod-lt_suc (rand_at drawn) i) in
      let rest =
        shuffle_lib_loop_lem rand_at i (drawn + 1) (s4 s rs (suc i) j v h hj)
          (exchange (suc i) j rs) (exchanged s rs (suc i) j v h hj)
          (omega (arith, length-exchange (suc i) j rs)) in
      (rest.0, ground (arith, exchange_lib_lem s rs (suc i) j v h hj, rest.1), rest.2)

  shuffle_sys_loop_lem :
      (rand_at : ℕ → ℕ) (i drawn : ℕ) (record1 record2 : List ℕ) (s : S) (rs : List Rec)
      → length record1 ≡ size
      → length record2 ≡ size
      → Holds s rs
      → i < length rs
      → (s' : S) × (shuffle_sys_loop io size rand_at i drawn record1 record2 s ≡ (ok tt, s'))
        × Holds s' (shuffle_records rand_at i drawn rs)
  unfolding shuffle_sys_loop shuffle_records
  shuffle_sys_loop_lem rand_at zero drawn record1 record2 s rs l1 l2 v h = (s, refl, v)
  shuffle_sys_loop_lem rand_at (suc i) drawn record1 record2 s rs l1 l2 v h =
      let j : ℕ = rand_at drawn % suc i in
      let hj : j < length rs = omega (arith, mod-lt_suc (rand_at drawn) i) in
      let rest =
        shuffle_sys_loop_lem rand_at i (drawn + 1) (get_or rs (suc i) []) (get_or rs j [])
          (s4 s rs (suc i) j v h hj) (exchange (suc i) j rs) (length-get size rs (suc i) h v.sizes)
          (length-get size rs j hj v.sizes) (exchanged s rs (suc i) j v h hj)
          (omega (arith, length-exchange (suc i) j rs)) in
      (
        rest.0,
        ground (arith, exchange_sys_lem s rs (suc i) j v h hj record1 record2 l1 l2, rest.1),
        rest.2,
      )

-- A file of `n` records of one size, at least one, with buffers of that size.
module _ (rand_at : ℕ → ℕ) (record1 record2 : List ℕ) (name : String) (n size : ℕ) (disk : Disk)
    (rs : List Rec) (there : disk name ≡ some (concat rs)) (some_records : 0 < n)
    (many : length rs ≡ n) (sizes : All (λ r. length r ≡ size) rs) (buffer1 : length record1 ≡ size)
    (buffer2 : length record2 ≡ size) where
  abbrev out : List Rec
  out = shuffle_records rand_at (n - 1) 0 rs

  -- Both versions of the shuffle return, and with the same draws they leave the same file, which is a
  -- permutation of its records.
  pub shuffle_permutes :
      (shuffle_sys rand_at record1 record2 name n size disk ≡ (ok tt, store disk name (concat out)))
      × (shuffle_lib rand_at name n size disk ≡ (ok tt, store disk name (concat out)))
      × Perm out rs
  unfolding shuffle_sys shuffle_lib
  shuffle_permutes =
      let sys =
        shuffle_sys_loop_lem sys_io sys_io-IsRecordIo size rand_at (n - 1) 0 record1 record2
          (opened (concat rs)) rs buffer1 buffer2 (record { bytes = refl; sizes = sizes })
          (omega arith) in
      let lib =
        shuffle_lib_loop_lem lib_io lib_io-IsRecordIo size rand_at (n - 1) 0
          (record { handle = opened (concat rs); last = positioned }) rs
          (record { bytes = refl; sizes = sizes }) (omega arith) in
      (
        ground (arith, sys.1, sys.2.bytes),
        ground (arith, lib.1, lib.2.bytes),
        perm-shuffle_records rand_at (n - 1) 0 rs (omega arith),
      )
