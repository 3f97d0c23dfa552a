-- ===== src/Records/Main.antt =====
-- main.c: the command line of the record tool. `atoi` is the C library's on what are not negative
-- numbers; the messages are left out.
use Prim.Native.String.{String}
use text.Mathlib.Text.{◌==◌ as str_eq}
use systemy_operacyjne_c.Base.{
  All, ℕ, ◌≡◌, ◌⊎◌, inl, inr, Bool, List, [], ◌∷◌, some, if◌then◌else◌, length,
}
use systemy_operacyjne_c.Records.Io.{M, Result, ok, pure}
use systemy_operacyjne_c.Records.Disk.{Disk, store}
use systemy_operacyjne_c.Records.Bsort.{bsort_sys, bsort_lib}
use systemy_operacyjne_c.Records.Bsort.Bubble.{Rec}
use systemy_operacyjne_c.Records.Bsort.Passes.{concat}
use systemy_operacyjne_c.Records.Bsort.Sorts.{IsStableSort, bsort_sorts}
use systemy_operacyjne_c.Records.Shuffle.{shuffle_sys, shuffle_lib}
use systemy_operacyjne_c.Records.Generate.{generate_records_file}

-- What `main` takes from outside.
pub record World : Type 0 where
  pub atoi : String → ℕ
  pub can_create : String → Bool
  pub urandom : List ℕ
  pub rand_at : ℕ → ℕ
  pub record1 : List ℕ
  pub record2 : List ℕ

-- Two branches by `strcmp("sys",argv[2])` and `strcmp("lib",argv[2])`.
abbrev pub by_version : String → M Disk (Unit {0}) → M Disk (Unit {0}) → M Disk (Unit {0})
by_version version sys lib d =
    if str_eq "sys" version then sys d else if str_eq "lib" version then lib d else pure tt d

-- `args` are `argv[1]` and what follows it. The program returns 0 unless a part of it exits.
unfoldable pub main : World → List String → M Disk (Unit {0})
main w (command ∷ name ∷ amount ∷ size ∷ []) =
    if str_eq "generate" command
    then generate_records_file w.can_create w.urandom name (w.atoi amount) (w.atoi size)
    else pure tt
main w (command ∷ version ∷ name ∷ amount ∷ size ∷ []) =
    if str_eq "sort" command
    then by_version version (bsort_sys name (w.atoi amount) (w.atoi size))
        (bsort_lib name (w.atoi amount) (w.atoi size))
    else if str_eq "shuffle" command
    then by_version version
        (shuffle_sys w.rand_at w.record1 w.record2 name (w.atoi amount) (w.atoi size))
        (shuffle_lib w.rand_at name (w.atoi amount) (w.atoi size))
    else pure tt
main w _ = pure tt

either :
    {version : String} (sys lib : M Disk (Unit {0})) {d : Disk} {r : Result (Unit {0}) × Disk}
    → (version ≡ "sys") ⊎ (version ≡ "lib")
    → sys d ≡ r
    → lib d ≡ r
    → by_version version sys lib d ≡ r
either sys lib (inl e) a b = rw e a
either sys lib (inr e) a b = rw e b

-- `sort sys` and `sort lib` on a file of as many records as the command line says, of the size that it
-- says, return, and leave the file with the stable sort of its records.
pub main_sorts :
    (w : World) (version name amount size : String) (d : Disk) (rs : List Rec)
    → (version ≡ "sys") ⊎ (version ≡ "lib")
    → d name ≡ some (concat rs)
    → length rs ≡ w.atoi amount
    → All (λ r. length r ≡ w.atoi size) rs
    → (out : List Rec) × IsStableSort rs out
      × (main w ("sort" ∷ version ∷ name ∷ amount ∷ size ∷ []) d
          ≡ (ok tt, store d name (concat out)))
unfolding main
main_sorts w version name amount size d rs which there many sizes =
    let (out, sorted, by_sys, by_lib) =
      bsort_sorts name (w.atoi amount) (w.atoi size) d rs there many sizes in
    (
      out,
      sorted,
      either (bsort_sys name (w.atoi amount) (w.atoi size))
          (bsort_lib name (w.atoi amount) (w.atoi size)) which by_sys by_lib,
    )
