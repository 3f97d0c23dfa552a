-- ===== src/Records/Generate/Laws.antt =====
-- What generator.c writes.
use Prim.Native.String.{String}
use systemy_operacyjne_c.Base.{
  All, ℕ, zero, suc, ◌*◌, ◌≤◌, ◌<◌, ◌≡◌, refl, sym, ap, ◌∙◌, Bool, true, List, [], ◌∷◌, ◌++◌, map,
  some, arith, length, take, drop, length-map, take-append, drop-append, append-nil, append_assoc,
  length-take, length-drop, ==_iff,
}
use systemy_operacyjne_c.Records.Io.{ok, exited}
use systemy_operacyjne_c.Records.Disk.{Disk, store}
use systemy_operacyjne_c.Records.Bsort.Bubble.{Rec}
use systemy_operacyjne_c.Records.Bsort.Passes.{concat}
use systemy_operacyjne_c.Records.Generate.{
  printable, generate_loop, copy_loop, generate_records_file, copy_file,
}

-- The codes that a generated byte can have, '.' to 'T'.
pub printable_range : (b : ℕ) → b < 256 → (46 ≤ printable b) × (printable b ≤ 84)
unfolding printable
printable_range b h = ground arith

-- The records that the random bytes make.
pub generated : ℕ → ℕ → List ℕ → List Rec
generated size zero random = []
generated size (suc n) random =
    map printable (take size random) ∷ generated size n (drop size random)

pub length-generated : (size n : ℕ) (random : List ℕ) → length (generated size n random) ≡ n
unfolding generated
length-generated size zero random = refl
length-generated size (suc n) random = ap suc (length-generated size n (drop size random))

pub generated-sizes :
    (size n : ℕ) (random : List ℕ)
    → n * size ≤ length random
    → All (λ r. length r ≡ size) (generated size n random)
unfolding generated
generated-sizes size zero random h = tt
generated-sizes size (suc n) random h = (
  length-map (take size random) printable ∙ omega (arith, length-take size random),
  generated-sizes size n (drop size random) (omega (arith, length-drop size random)),
)

generate_loop_lem :
    (size n : ℕ) (random written : List ℕ)
    → n * size ≤ length random
    → generate_loop size n random written ≡ (ok tt, written ++ concat (generated size n random))
unfolding generate_loop generated concat
generate_loop_lem size zero random written h = ap (λ w. (ok tt, w)) (sym (append-nil written))
generate_loop_lem size (suc n) random written h =
    rw ((==_iff (length (take size random)) size).1 (omega (arith, length-take size random))) (
      generate_loop_lem size n (drop size random) (written ++ map printable (take size random))
        (omega (arith, length-drop size random))
      ∙ ap (λ w. (ok tt, w)) (append_assoc written _ _))

copy_loop_lem :
    (size : ℕ) (rs : List Rec) (rest written : List ℕ)
    → All (λ r. length r ≡ size) rs
    → copy_loop size (length rs) (concat rs ++ rest) written ≡ (ok tt, written ++ concat rs)
unfolding copy_loop concat
copy_loop_lem size [] rest written a = ap (λ w. (ok tt, w)) (sym (append-nil written))
copy_loop_lem size (r ∷ rs) rest written a =
    rw
      (
        append_assoc r (concat rs) rest,
        take-append r (concat rs ++ rest) size (sym a.0),
        drop-append r (concat rs ++ rest) size (sym a.0),
        (==_iff (length r) size).1 a.0,
      )
      (copy_loop_lem size rs rest (written ++ r) a.1
        ∙ ap (λ w. (ok tt, w)) (append_assoc written r (concat rs)))

copy_loop_short :
    (size n : ℕ) (source written : List ℕ)
    → 0 < size
    → length source < n * size
    → (copy_loop size n source written).0 ≡ exited 1
unfolding copy_loop
copy_loop_short size zero source written k h = absurd (omega arith)
copy_loop_short size (suc n) source written k h = ground (
  arith,
  length-take size source,
  length-drop size source,
  copy_loop_short size n (drop size source) (written ++ take size source),
)

module _ (can_create : String → Bool) (n size : ℕ) (d : Disk) where
  -- With enough random bytes, and a name that can be created, `generateRecordsFile` leaves a file of
  -- `n` records of `size` bytes.
  pub generate_records_file_lem :
      (urandom : List ℕ) (name : String)
      → can_create name ≡ true
      → n * size ≤ length urandom
      → generate_records_file can_create urandom name n size d
        ≡ (ok tt, store d name (concat (generated size n urandom)))
  unfolding generate_records_file
  generate_records_file_lem urandom name c h =
      ground (arith, c, generate_loop_lem size n urandom [] h)

  -- From a file that starts with `n` records of one size, `copyFile` copies these to a name that can be
  -- created.
  pub copy_file_lem :
      (source dest : String) (rs : List Rec) (rest : List ℕ)
      → can_create dest ≡ true
      → d source ≡ some (concat rs ++ rest)
      → length rs ≡ n
      → All (λ r. length r ≡ size) rs
      → copy_file can_create source dest n size d ≡ (ok tt, store d dest (concat rs))
  unfolding copy_file
  copy_file_lem source dest rs rest c e l a =
      ground (arith, c, e, l, copy_loop_lem size rs rest [] a)
