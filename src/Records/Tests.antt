-- ===== src/Records/Tests.antt =====
-- The record programs on files of a few records.
use text.Mathlib.Text.{◌==◌ as str_eq}
use mathlib.Core.List.{Perm}
use systemy_operacyjne_c.Base.{
  if◌then◌else◌, ℕ, zero, suc, ◌≡◌, refl, true, List, [], ◌∷◌, none, some, arith,
}
use systemy_operacyjne_c.Records.Io.{ok}
use systemy_operacyjne_c.Records.Main.{World}
use systemy_operacyjne_c.Records.Disk.{Disk, store}
use systemy_operacyjne_c.Records.Bsort.{bsort_sys, bsort_lib}
use systemy_operacyjne_c.Records.Bsort.Bubble.{Rec}
use systemy_operacyjne_c.Records.Bsort.Passes.{concat}
use systemy_operacyjne_c.Records.Bsort.Sorts.{IsStableSort, bsort_sorts}
use systemy_operacyjne_c.Records.Shuffle.{shuffle_sys, shuffle_lib}
use systemy_operacyjne_c.Records.Shuffle.Items.{shuffle_records}
use systemy_operacyjne_c.Records.Shuffle.Laws.{shuffle_permutes}
use systemy_operacyjne_c.Records.Shuffle.Moves.{AreDistinct}
use systemy_operacyjne_c.Records.Generate.Laws.{generated}
use systemy_operacyjne_c.Records.MakeTest.{make_test, name_file, copy, final_copy, make_test_lem}

abbrev rs : List Rec
rs = (200 ∷ 1 ∷ []) ∷ (70 ∷ 2 ∷ []) ∷ (66 ∷ 3 ∷ []) ∷ []

abbrev disk : Disk
disk = store (λ _. none) "a" (concat rs)

abbrev draws : ℕ → ℕ
draws k = 7

bsort_sorts_example :
    (out : List Rec) × IsStableSort rs out
    × (bsort_sys "a" 3 2 disk ≡ (ok tt, store disk "a" (concat out)))
    × (bsort_lib "a" 3 2 disk ≡ (ok tt, store disk "a" (concat out)))
bsort_sorts_example = bsort_sorts "a" 3 2 disk rs refl refl (refl, (refl, (refl, tt)))

shuffle_permutes_example :
    (shuffle_sys draws (0 ∷ 0 ∷ []) (0 ∷ 0 ∷ []) "a" 3 2 disk
      ≡ (ok tt, store disk "a" (concat (shuffle_records draws 2 0 rs))))
    × (shuffle_lib draws "a" 3 2 disk
        ≡ (ok tt, store disk "a" (concat (shuffle_records draws 2 0 rs))))
    × Perm (shuffle_records draws 2 0 rs) rs
shuffle_permutes_example =
    shuffle_permutes draws (0 ∷ 0 ∷ []) (0 ∷ 0 ∷ []) "a" 3 2 disk rs refl (omega arith) refl
      (refl, (refl, (refl, tt))) refl refl

abbrev pair : List Rec
pair = (70 ∷ 2 ∷ []) ∷ (66 ∷ 3 ∷ []) ∷ []

pair-AreDistinct : AreDistinct pair
pair-AreDistinct zero zero hp hq e = refl
pair-AreDistinct zero (suc zero) hp hq e = absurd (ground arith)
pair-AreDistinct zero (suc (suc q)) hp hq e = absurd (omega arith)
pair-AreDistinct (suc zero) zero hp hq e = absurd (ground arith)
pair-AreDistinct (suc zero) (suc zero) hp hq e = refl
pair-AreDistinct (suc zero) (suc (suc q)) hp hq e = absurd (omega arith)
pair-AreDistinct (suc (suc p)) q hp hq e = absurd (omega arith)

abbrev bytes : List ℕ
bytes = 3 ∷ 200 ∷ []

make_test_lem_example :
    (d' : Disk) × (sys lib : List Rec) × (make_test
        (λ _. true)
        2
        1
        bytes
        draws
        draws
        (0 ∷ [])
        (0 ∷ [])
        disk
      ≡ (ok tt, d'))
    × (d' final_copy ≡ some (concat (generated 1 2 bytes)))
    × (d' name_file ≡ some (concat sys))
    × Perm sys (generated 1 2 bytes)
    × (d' copy ≡ some (concat lib))
    × Perm lib (generated 1 2 bytes)
make_test_lem_example =
    make_test_lem (λ _. true) 2 1 disk bytes refl refl refl (omega arith) draws draws (0 ∷ [])
      (0 ∷ []) (omega arith) refl refl

abbrev world : World
world = record {
  atoi = λ digits. if str_eq digits "3" then 3 else 2;
  can_create = λ _. true;
  urandom = bytes;
  rand_at = draws;
  record1 = 0 ∷ 0 ∷ [];
  record2 = 0 ∷ 0 ∷ [];
}
