-- ===== src/Records/Bsort/Sorts.antt =====
-- bsort.c sorts: the file ends as the stable rearrangement of its records in order of their first
-- byte, and the two versions of the sort leave the same file.
use Prim.Native.String.{String}
use mathlib.Core.List.{Permᴰ}
use mathlib.Core.List.Permᴰ
use systemy_operacyjne_c.Base.{
  All, ℕ, zero, suc, ◌≤◌, ◌≡◌, refl, sym, ap, subst, ◌∙◌, Bool, true, false, ◌&&◌, ◌||◌, List, [],
  ◌∷◌, ◌++◌, if◌then◌else◌, arith, ltb, length, append_assoc, append-nil, Bool-cases, inl, inr,
  some,
}
use systemy_operacyjne_c.Base.Int.{ℤ, ◌≤ℤ◌}
use systemy_operacyjne_c.Records.Io.{ok, RecordIo, IsRecordIo}
use systemy_operacyjne_c.Records.Handles.{
  sys_io, lib_io, positioned, sys_io-IsRecordIo, lib_io-IsRecordIo,
}
use systemy_operacyjne_c.Records.Disk.{Disk, store, opened}
use systemy_operacyjne_c.Records.Bsort.{key, pass, bubble_sort, bsort_sys, bsort_lib}
use systemy_operacyjne_c.Records.Bsort.Bubble.{
  Rec, lower, top, swaps, IsSorted, with_key, with_key-append, length-lower, top-greatest,
  IsSorted-of_no_swaps, lower_of_no_swaps, with_key-pass, pass-perm,
}
use systemy_operacyjne_c.Records.Bsort.Passes.{concat, concat-append, pass_lem}

-- The whole sort on a list of records, pass by pass.
unfoldable pub sort_records : ℕ → List Rec → List Rec
sort_records zero rs = rs
sort_records (suc n) [] = []
sort_records (suc n) (x ∷ xs) =
    if swaps x xs && ltb 1 n
    then sort_records n (lower x xs) ++ (top x xs ∷ [])
    else lower x xs ++ (top x xs ∷ [])

-- `out` is `rs` in order, with the records of one first byte in the order that they had.
pub record IsStableSort (rs out : List Rec) : Type 0 where
  pub same : Permᴰ out rs
  pub ordered : IsSorted out
  pub stable : (k : ℤ) → with_key k out ≡ with_key k rs

All-perm : (P : Rec → Type 0) {xs ys : List Rec} → Permᴰ xs ys → All P ys → All P xs
All-perm P Permᴰ.nil a = tt
All-perm P (Permᴰ.cons e p) a = (subst P (sym e) a.0, All-perm P p a.1)
All-perm P (Permᴰ.swap e f) a = (subst P (sym e) a.1.0, (subst P (sym f) a.0, a.1.1))
All-perm P (Permᴰ.trans p q) a = All-perm P p (All-perm P q a)

IsSorted-snoc :
    (xs : List Rec) (t : Rec)
    → IsSorted xs
    → All (λ y. key y ≤ℤ key t) xs
    → IsSorted (xs ++ (t ∷ []))
IsSorted-snoc [] t s a = (tt, tt)
IsSorted-snoc (x ∷ xs) t s a = (below xs s.0, IsSorted-snoc xs t s.1 a.1)
  where
    below :
        (ys : List Rec) → All (λ y. key x ≤ℤ key y) ys → All (λ y. key x ≤ℤ key y) (ys ++ (t ∷ []))
    below = elim [ [] ↦ λ _. (a.0, tt) | y ∷ (ys → ih) ↦ λ b. (b.0, ih b.1) ]

IsSorted-of_short : (xs : List Rec) → length xs ≤ 1 → IsSorted xs
IsSorted-of_short [] h = tt
IsSorted-of_short (x ∷ []) h = (tt, tt)
IsSorted-of_short (x ∷ y ∷ xs) h = absurd (omega arith)

-- A sort of what a pass leaves below, followed by what arrived at the top.
IsStableSort-snoc :
    (x : Rec) (xs out : List Rec)
    → IsStableSort (lower x xs) out
    → IsStableSort (x ∷ xs) (out ++ (top x xs ∷ []))
IsStableSort-snoc x xs out v = record {
  same = Permᴰ.trans (Permᴰ.append_right (top x xs ∷ []) v.same) (pass-perm x xs);
  ordered = IsSorted-snoc out (top x xs) v.ordered (All-perm _ v.same (top-greatest x xs).0);
  stable = λ k.
      with_key-append k out (top x xs ∷ [])
      ∙ ap (λ l. l ++ with_key k (top x xs ∷ [])) (v.stable k)
      ∙ sym (with_key-append k (lower x xs) (top x xs ∷ []))
      ∙ with_key-pass k x xs;
}

IsStableSort-of_IsSorted : (rs : List Rec) → IsSorted rs → IsStableSort rs rs
IsStableSort-of_IsSorted rs s = record { same = Permᴰ.refl rs; ordered = s; stable = λ k. refl }

short_of_last_round : (b : Bool) (n m : ℕ) → (b && ltb 1 n) ≡ false → b ≡ true → m ≡ n → m ≤ 1
short_of_last_round b n m h e l = ground arith

pub sort_records-IsStableSort :
    (n : ℕ) (rs : List Rec) → length rs ≡ n → IsStableSort rs (sort_records n rs)
unfolding sort_records
sort_records-IsStableSort zero [] l = IsStableSort-of_IsSorted [] tt
sort_records-IsStableSort zero (x ∷ xs) l = absurd (omega arith)
sort_records-IsStableSort (suc n) [] l = absurd (omega arith)
sort_records-IsStableSort (suc n) (x ∷ xs) l = elim (Bool-cases (swaps x xs && ltb 1 n)) [
  | inl again ↦ rw again (
      IsStableSort-snoc x xs (sort_records n (lower x xs))
        (sort_records-IsStableSort n (lower x xs) size))
  | inr last ↦ rw last (elim (Bool-cases (swaps x xs)) [
    | inl moved ↦ IsStableSort-snoc x xs (lower x xs) (
        IsStableSort-of_IsSorted _
          (IsSorted-of_short _ (short_of_last_round _ n _ last moved size)))
    | inr still ↦
        rw (lower_of_no_swaps x xs still)
          (IsStableSort-of_IsSorted _ (IsSorted-of_no_swaps x xs still))
  ])
]
  where
    size : length (lower x xs) ≡ n
    size = omega (arith, length-lower x xs)

module _ {S : Type 0} (io : RecordIo S) (laws : IsRecordIo io) (size : ℕ) where
  lower-sizes :
      (x : Rec) (xs : List Rec)
      → length x ≡ size
      → All (λ r. length r ≡ size) xs
      → All (λ r. length r ≡ size) (lower x xs) × (length (top x xs) ≡ size)
  unfolding lower top
  lower-sizes x [] l a = (tt, l)
  lower-sizes x (y ∷ ys) l a = ground (arith, lower-sizes x ys l a.1, lower-sizes y ys a.0 a.1)

  pub bubble_sort_lem :
      (n : ℕ) (rs : List Rec) (s : S) (B : List ℕ)
      → (io.file s).bytes ≡ concat rs ++ B
      → length rs ≡ n
      → All (λ r. length r ≡ size) rs
      → (s' : S) × (bubble_sort io size n s ≡ (ok tt, s'))
        × ((io.file s').bytes ≡ concat (sort_records n rs) ++ B)
  unfolding bubble_sort sort_records pass concat
  bubble_sort_lem zero rs s B h l sizes = (io.seek 0 s, refl, laws.bytes-seek 0 s ∙ h)
  bubble_sort_lem (suc n) [] s B h l sizes = absurd (omega arith)
  bubble_sort_lem (suc n) (x ∷ xs) s B h l sizes = elim (Bool-cases (swaps x xs && ltb 1 n)) [
    | inl again ↦
        let rest =
          bubble_sort_lem n (lower x xs) (io.seek 0 one.0) (top x xs ++ B)
            (laws.bytes-seek 0 one.0 ∙ one.2) (omega (arith, length-lower x xs)) kept.0 in
        (
          rest.0,
          ground (arith, again, moved, rest.1),
          rw again (rest.2 ∙ closed (sort_records n (lower x xs))),
        )
    | inr last ↦ (
      io.seek 0 one.0,
      ground (arith, last, moved),
      rw last (laws.bytes-seek 0 one.0 ∙ one.2 ∙ closed (lower x xs)),
    )
  ]
    where
      one :
          (s' : S) × (pass io size (length xs) 0 false s ≡ (ok (swaps x xs || false), s'))
          × ((io.file s').bytes ≡ concat (lower x xs) ++ (top x xs ++ B))
      one =
          pass_lem io laws size xs s [] x B 0 false (h ∙ append_assoc x (concat xs) B) (omega arith)
            sizes.0 sizes.1

      moved : pass io size n 0 false s ≡ (ok (swaps x xs || false), one.0)
      moved =
          subst (λ m. pass io size m 0 false s ≡ (ok (swaps x xs || false), one.0)) (omega arith)
            one.1

      kept : All (λ r. length r ≡ size) (lower x xs) × (length (top x xs) ≡ size)
      kept = lower-sizes x xs sizes.0 sizes.1

      closed : (rs : List Rec) → concat rs ++ (top x xs ++ B) ≡ concat (rs ++ (top x xs ∷ [])) ++ B
      closed rs =
          sym (append_assoc (concat rs) (top x xs) B)
          ∙ ap (λ t. (concat rs ++ t) ++ B) (sym (append-nil (top x xs)))
          ∙ ap (λ t. t ++ B) (sym (concat-append rs (top x xs ∷ [])))

-- A file of `n` records of one size.
module _ (name : String) (n size : ℕ) (disk : Disk) (rs : List Rec)
    (there : disk name ≡ some (concat rs)) (many : length rs ≡ n)
    (sizes : All (λ r. length r ≡ size) rs) where
  whole : concat rs ≡ concat rs ++ []
  whole = sym (append-nil (concat rs))

  pub bsort_sys_lem :
      bsort_sys name n size disk ≡ (ok tt, store disk name (concat (sort_records n rs)))
  unfolding bsort_sys
  bsort_sys_lem =
      let run =
        bubble_sort_lem sys_io sys_io-IsRecordIo size n rs (opened (concat rs)) [] whole many
          sizes in
      ground (arith, run.1, run.2, append-nil (concat (sort_records n rs)))

  pub bsort_lib_lem :
      bsort_lib name n size disk ≡ (ok tt, store disk name (concat (sort_records n rs)))
  unfolding bsort_lib
  bsort_lib_lem =
      let run =
        bubble_sort_lem lib_io lib_io-IsRecordIo size n rs
          (record { handle = opened (concat rs); last = positioned }) [] whole many sizes in
      ground (arith, run.1, run.2, append-nil (concat (sort_records n rs)))

  -- A file of `n` records of one size is sorted: both versions return and leave the file with the same
  -- records, ordered by their first byte as a signed `char`, those of one first byte in the order that
  -- they had.
  pub bsort_sorts :
      (out : List Rec) × IsStableSort rs out
      × (bsort_sys name n size disk ≡ (ok tt, store disk name (concat out)))
      × (bsort_lib name n size disk ≡ (ok tt, store disk name (concat out)))
  bsort_sorts =
      (sort_records n rs, sort_records-IsStableSort n rs many, bsort_sys_lem, bsort_lib_lem)
