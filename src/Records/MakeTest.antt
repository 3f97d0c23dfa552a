-- ===== src/Records/MakeTest.antt =====
-- maintime.c: the timed run over one size of file, less the timing and the messages.
use Prim.Native.String.{String}
use mathlib.Core.List.{Perm}
use systemy_operacyjne_c.Base.{
  ℕ, ◌*◌, ◌-◌, ◌≤◌, ◌<◌, ◌≡◌, refl, Bool, true, List, [], some, arith, length, append-nil,
}
use systemy_operacyjne_c.Records.Io.{ok, M, ◌>>◌}
use systemy_operacyjne_c.Records.Disk.{Disk, store}
use systemy_operacyjne_c.Records.Bsort.{bsort_sys, bsort_lib}
use systemy_operacyjne_c.Records.Bsort.Bubble.{Rec}
use systemy_operacyjne_c.Records.Bsort.Passes.{concat}
use systemy_operacyjne_c.Records.Bsort.Sorts.{bsort_sys_lem, bsort_lib_lem, sort_records}
use systemy_operacyjne_c.Records.Shuffle.{shuffle_sys, shuffle_lib}
use systemy_operacyjne_c.Records.Shuffle.Items.{shuffle_records}
use systemy_operacyjne_c.Records.Shuffle.Laws.{shuffle_permutes}
use systemy_operacyjne_c.Records.Generate.{generate_records_file, copy_file}
use systemy_operacyjne_c.Records.Generate.Laws.{
  generated, length-generated, generated-sizes, generate_records_file_lem, copy_file_lem,
}

abbrev pub name_file : String
name_file = "genFile"

abbrev pub copy : String
copy = "genCopy"

abbrev pub final_copy : String
final_copy = "KopiaGenFile"

module _ (can_create : String → Bool) (n size : ℕ) where
  -- The first half: both sorts, each on its own copy of the generated file.
  unfoldable pub sort_test : List ℕ → M Disk (Unit {0})
  sort_test urandom = do
    generate_records_file can_create urandom name_file n size
    copy_file can_create name_file copy n size
    copy_file can_create name_file final_copy n size
    bsort_sys name_file n size
    bsort_lib copy n size

  -- The second half: both shuffles, each on a fresh copy.
  unfoldable pub shuffle_test : (ℕ → ℕ) → (ℕ → ℕ) → List ℕ → List ℕ → M Disk (Unit {0})
  shuffle_test rand_sys rand_lib record1 record2 = do
    copy_file can_create final_copy copy n size
    copy_file can_create final_copy name_file n size
    shuffle_sys rand_sys record1 record2 name_file n size
    shuffle_lib rand_lib copy n size

  unfoldable pub make_test : List ℕ → (ℕ → ℕ) → (ℕ → ℕ) → List ℕ → List ℕ → M Disk (Unit {0})
  make_test urandom rand_sys rand_lib record1 record2 = do
    sort_test urandom
    shuffle_test rand_sys rand_lib record1 record2

  module _ (d : Disk) (urandom : List ℕ) (name_created : can_create name_file ≡ true)
      (copy_created : can_create copy ≡ true) (final_created : can_create final_copy ≡ true)
      (enough : n * size ≤ length urandom) where
    abbrev rs : List Rec
    rs = generated size n urandom

    abbrev d1 : Disk
    d1 = store d name_file (concat rs)

    abbrev d2 : Disk
    d2 = store d1 copy (concat rs)

    abbrev d3 : Disk
    d3 = store d2 final_copy (concat rs)

    abbrev d4 : Disk
    d4 = store d3 name_file (concat (sort_records n rs))

    abbrev d5 : Disk
    d5 = store d4 copy (concat (sort_records n rs))

    made : generate_records_file can_create urandom name_file n size d ≡ (ok tt, d1)
    made = generate_records_file_lem can_create n size d urandom name_file name_created enough

    copied :
        (e : Disk) (source dest : String)
        → can_create dest ≡ true
        → e source ≡ some (concat rs)
        → copy_file can_create source dest n size e ≡ (ok tt, store e dest (concat rs))
    copied e source dest c h =
        copy_file_lem can_create n size e source dest rs [] c (rw (append-nil (concat rs)) h)
          (length-generated size n urandom) (generated-sizes size n urandom enough)

    pub sort_test_lem : sort_test urandom d ≡ (ok tt, d5)
    unfolding sort_test
    sort_test_lem = ground (
      arith,
      made,
      copied d1 name_file copy copy_created refl,
      copied d2 name_file final_copy final_created refl,
      bsort_sys_lem name_file n size d3 rs refl (length-generated size n urandom)
          (generated-sizes size n urandom enough),
      bsort_lib_lem copy n size d4 rs refl (length-generated size n urandom)
          (generated-sizes size n urandom enough),
    )

    abbrev d7 : Disk
    d7 = store (store d5 copy (concat rs)) name_file (concat rs)

    -- With enough random bytes, names that can be created, at least one record and buffers of its size,
    -- the whole test runs to its end. The three files end as the generated records, and two
    -- permutations of them.
    pub make_test_lem :
        (rand_sys rand_lib : ℕ → ℕ) (record1 record2 : List ℕ)
        → 0 < n
        → length record1 ≡ size
        → length record2 ≡ size
        → (d' : Disk) × (sys lib : List Rec) × (make_test urandom rand_sys rand_lib record1 record2
              d
            ≡ (ok tt, d'))
          × (d' final_copy ≡ some (concat rs))
          × (d' name_file ≡ some (concat sys))
          × Perm sys rs
          × (d' copy ≡ some (concat lib))
          × Perm lib rs
    unfolding make_test shuffle_test
    make_test_lem rand_sys rand_lib record1 record2 h l1 l2 =
        let many = length-generated size n urandom in
        let sizes = generated-sizes size n urandom enough in
        let first =
          shuffle_permutes rand_sys record1 record2 name_file n size d7 rs refl h many sizes l1
            l2 in
        let out1 : List Rec = shuffle_records rand_sys (n - 1) 0 rs in
        let second =
          shuffle_permutes rand_lib record1 record2 copy n size (store d7 name_file (concat out1))
            rs refl h many sizes l1 l2 in
        let out2 : List Rec = shuffle_records rand_lib (n - 1) 0 rs in
        (
          store (store d7 name_file (concat out1)) copy (concat out2),
          out1,
          out2,
          ground (
            arith,
            sort_test_lem,
            copied d5 final_copy copy copy_created refl,
            copied (store d5 copy (concat rs)) final_copy name_file name_created refl,
            first.0,
            second.1,
          ),
          refl,
          refl,
          first.2,
          refl,
          second.2,
        )
