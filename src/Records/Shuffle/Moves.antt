-- ===== src/Records/Shuffle/Moves.antt =====
-- The shuffle of shuffler.c never leaves a record where it was.
use Prim.Native.String.{String}
use systemy_operacyjne_c.Base.{
  All, replicate, length-replicate, some, ℕ, zero, suc, ◌+◌, ◌-◌, ◌%◌, ◌≤◌, ◌<◌, ◌≡◌, ◌≢◌, refl,
  ◌∙◌, List, [], arith, length, get_or, set, if◌then◌else◌, ◌==◌, length-set, get_or-set_self,
  get_or-set_ne, ℕ_discrete,
}
use systemy_operacyjne_c.Records.Io.{ok}
use systemy_operacyjne_c.Records.Disk.{Disk, store}
use systemy_operacyjne_c.Records.Bsort.Bubble.{Rec}
use systemy_operacyjne_c.Records.Bsort.Passes.{concat}
use systemy_operacyjne_c.Records.Shuffle.{shuffle_lib}
use systemy_operacyjne_c.Records.Shuffle.Laws.{shuffle_permutes}
use systemy_operacyjne_c.Records.Shuffle.Items.{
  exchange, shuffle_records, length-exchange, mod-lt_suc,
}

abbrev item : List Rec → ℕ → Rec
item rs p = get_or rs p []

-- No two records of the list are equal.
abbrev pub AreDistinct : List Rec → Type 0
AreDistinct rs = (p q : ℕ) → p < length rs → q < length rs → item rs p ≡ item rs q → p ≡ q

item-exchange :
    (i j p : ℕ) (rs : List Rec)
    → i < length rs
    → j < length rs
    → item (exchange i j rs) p
      ≡ (if p == j then item rs i else if p == i then item rs j else item rs p)
unfolding exchange
item-exchange i j p rs hi hj = ground (
  arith,
  get_or-set_self (set rs i (item rs j)) j (item rs i) [],
  get_or-set_ne (set rs i (item rs j)) j p (item rs i) [],
  get_or-set_self rs i (item rs j) [],
  get_or-set_ne rs i p (item rs j) [],
  length-set rs i (item rs j),
)

-- The index whose record an exchange puts at `p`.
abbrev source : ℕ → ℕ → ℕ → ℕ
source i j p = if p == j then i else if p == i then j else p

item-source :
    (i j p : ℕ) (rs : List Rec)
    → i < length rs
    → j < length rs
    → item (exchange i j rs) p ≡ item rs (source i j p)
item-source i j p rs hi hj = ground (arith, item-exchange i j p rs hi hj)

AreDistinct-exchange :
    (i j : ℕ) (rs : List Rec)
    → i < length rs
    → j < length rs
    → AreDistinct rs
    → AreDistinct (exchange i j rs)
AreDistinct-exchange i j rs hi hj d p q hp hq e = ground (
  arith,
  length-exchange i j rs,
  item-exchange i j p rs hi hj,
  item-exchange i j q rs hi hj,
  d p q,
  d p i,
  d p j,
  d i q,
  d j q,
  d i j,
  d j i,
)

module _ (rand_at : ℕ → ℕ) where
  abbrev drawn_below : ℕ → ℕ → ℕ
  drawn_below drawn i = rand_at drawn % suc i

  length-shuffle_records :
      (i drawn : ℕ) (rs : List Rec) → length (shuffle_records rand_at i drawn rs) ≡ length rs
  unfolding shuffle_records
  length-shuffle_records zero drawn rs = refl
  length-shuffle_records (suc i) drawn rs =
      length-shuffle_records i (drawn + 1) (exchange (suc i) (drawn_below drawn i) rs)
      ∙ length-exchange (suc i) (drawn_below drawn i) rs

  -- The rounds from `i` down leave what stands above `i`.
  above :
      (i drawn p : ℕ) (rs : List Rec)
      → i < p
      → i < length rs
      → item (shuffle_records rand_at i drawn rs) p ≡ item rs p
  unfolding shuffle_records
  above zero drawn p rs h l = refl
  above (suc i) drawn p rs h l =
      above i (drawn + 1) p (exchange (suc i) (drawn_below drawn i) rs) (omega arith)
        (omega (arith, length-exchange (suc i) (drawn_below drawn i) rs))
      ∙ ground
          (arith, item-exchange (suc i) (drawn_below drawn i) p rs, mod-lt_suc (rand_at drawn) i)

  -- They place below `i + 1` only what stood there.
  below :
      (i drawn p : ℕ) (rs : List Rec)
      → p ≤ i
      → i < length rs
      → (q : ℕ) × (q ≤ i) × (item (shuffle_records rand_at i drawn rs) p ≡ item rs q)
  unfolding shuffle_records
  below zero drawn p rs h l = (p, h, refl)
  below (suc i) drawn p rs h l = elim (ℕ_discrete p (suc i)) [
    | yes last ↦ (
      source (suc i) (drawn_below drawn i) p,
      ground (arith, mod-lt_suc (rand_at drawn) i),
      above i (drawn + 1) p _ (omega arith)
            (omega (arith, length-exchange (suc i) (drawn_below drawn i) rs))
          ∙ item-source (suc i) (drawn_below drawn i) p rs l
              (omega (arith, mod-lt_suc (rand_at drawn) i)),
    )
    | no not_last ↦
        let (q, hq, e) =
          below i (drawn + 1) p (exchange (suc i) (drawn_below drawn i) rs) (omega arith)
            (omega (arith, length-exchange (suc i) (drawn_below drawn i) rs)) in
        (
          source (suc i) (drawn_below drawn i) q,
          ground (arith, mod-lt_suc (rand_at drawn) i),
          e
              ∙ item-source (suc i) (drawn_below drawn i) q rs l
                  (omega (arith, mod-lt_suc (rand_at drawn) i)),
        )
  ]

  -- The rounds from `i` down move every record up to `i`, if the records are distinct.
  pub moves :
      (i drawn p : ℕ) (rs : List Rec)
      → p ≤ i
      → 0 < i
      → i < length rs
      → AreDistinct rs
      → item (shuffle_records rand_at i drawn rs) p ≢ item rs p
  unfolding shuffle_records
  moves zero drawn p rs h k l d e = elim k [ ]
  moves (suc i) drawn p rs h k l d e = elim (ℕ_discrete p (suc i)) [
    | yes last ↦
        let stays =
          above i (drawn + 1) p (exchange (suc i) j rs) (omega arith)
            (omega (arith, length-exchange (suc i) j rs)) in
        ground
          (arith, stays, item-exchange (suc i) j p rs l hj, d j p hj, mod-lt_suc (rand_at drawn) i)
    | no not_last ↦ elim (ℕ_discrete p j) [
      | yes chosen ↦
          let (q, hq, f) =
            below i (drawn + 1) p (exchange (suc i) j rs) (omega arith)
              (omega (arith, length-exchange (suc i) j rs)) in
          ground (arith, f, e, item-exchange (suc i) j q rs l hj, d (suc i) p l, d q p)
      | no other ↦
          moves i (drawn + 1) p (exchange (suc i) j rs) (omega arith)
            (omega (arith, mod-lt_suc (rand_at drawn) i))
            (omega (arith, length-exchange (suc i) j rs)) (AreDistinct-exchange (suc i) j rs l hj d)
            (e ∙ ground (arith, item-exchange (suc i) j p rs l hj))
    ]
  ]
    where
      j : ℕ
      j = drawn_below drawn i

      hj : j < length rs
      hj = omega (arith, mod-lt_suc (rand_at drawn) i)

-- On a file of at least two records, all different and of one size, `ShuffleLib` returns, and leaves a
-- file with no record in its old place.
pub shuffle_moves_every :
    (rand_at : ℕ → ℕ) (name : String) (n size : ℕ) (disk : Disk) (rs : List Rec)
    → disk name ≡ some (concat rs)
    → 1 < n
    → length rs ≡ n
    → All (λ r. length r ≡ size) rs
    → AreDistinct rs
    → (out : List Rec) × (shuffle_lib rand_at name n size disk
        ≡ (ok tt, store disk name (concat out)))
      × ((p : ℕ) → p < n → get_or out p [] ≢ get_or rs p [])
shuffle_moves_every rand_at name n size disk rs there two many sizes distinct = (
  shuffle_records rand_at (n - 1) 0 rs,
  (shuffle_permutes rand_at (replicate size 0) (replicate size 0) name n size disk rs there
      (omega arith) many sizes (length-replicate size 0) (length-replicate size 0)).1,
  λ p h. moves rand_at (n - 1) 0 p rs (omega arith) (omega arith) (omega arith) distinct,
)
