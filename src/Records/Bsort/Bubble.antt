-- ===== src/Records/Bsort/Bubble.antt =====
-- One pass of the bubble sort, on a list of records.
use mathlib.Core.List.{Permᴰ}
use mathlib.Core.List.Permᴰ
use systemy_operacyjne_c.Base.{
  All, ℕ, ◌≡◌, ◌≢◌, ◌⊎◌, refl, ap, ◌∙◌, Bool, true, false, List, [], ◌∷◌, ◌++◌, if◌then◌else◌,
  arith, length, Bool-cases, inl, inr,
}
use systemy_operacyjne_c.Base.Int.{ℤ, ◌≤ℤ◌, eqb_ℤ, eqb_ℤ_iff}
use systemy_operacyjne_c.Records.Bsort.{key, out_of_order}

abbrev pub Rec : Type 0
Rec = List ℕ

-- The pass carries the record `x` upwards: what it leaves below, and what arrives at the top.
unfoldable pub lower : Rec → List Rec → List Rec
lower x [] = []
lower x (y ∷ ys) = if out_of_order x y then y ∷ lower x ys else x ∷ lower y ys

unfoldable pub top : Rec → List Rec → Rec
top x [] = x
top x (y ∷ ys) = if out_of_order x y then top x ys else top y ys

-- Whether the pass changes anything.
unfoldable pub swaps : Rec → List Rec → Bool
swaps x [] = false
swaps x (y ∷ ys) = if out_of_order x y then true else swaps y ys

-- In ascending order of the first byte.
abbrev pub IsSorted : List Rec → Type 0
IsSorted [] = Unit
IsSorted (x ∷ xs) = All (λ y. key x ≤ℤ key y) xs × IsSorted xs

-- `out_of_order` stays shut below; this is what it says.
gt_of_out_of_order : (x y : Rec) → out_of_order x y ≡ true → (key y ≤ℤ key x) × (key x ≢ key y)
unfolding out_of_order
gt_of_out_of_order x y h = ground arith

le_of_in_order : (x y : Rec) → out_of_order x y ≡ false → key x ≤ℤ key y
unfolding out_of_order
le_of_in_order x y h = ground arith

pub has_key : ℤ → Rec → Bool
has_key k x = eqb_ℤ (key x) k

has_key_once : (k : ℤ) (x y : Rec) → key x ≢ key y → (has_key k x ≡ false) ⊎ (has_key k y ≡ false)
unfolding has_key
has_key_once k x y h = ground (arith, eqb_ℤ_iff (key x) k, eqb_ℤ_iff (key y) k)

-- The records of a list with a given first byte, in their order.
abbrev pub with_key : ℤ → List Rec → List Rec
with_key k [] = []
with_key k (x ∷ xs) = if has_key k x then x ∷ with_key k xs else with_key k xs

pub with_key-append :
    (k : ℤ) (xs ys : List Rec) → with_key k (xs ++ ys) ≡ with_key k xs ++ with_key k ys
with_key-append k [] ys = refl
with_key-append k (x ∷ xs) ys = ground (arith, with_key-append k xs ys)

pub length-lower : (x : Rec) (xs : List Rec) → length (lower x xs) ≡ length xs
unfolding lower
length-lower x [] = refl
length-lower x (y ∷ ys) = ground (arith, length-lower x ys, length-lower y ys)

-- A pass that changes nothing finds the records sorted.
le_trans_ℤ : (a b c : ℤ) → a ≤ℤ b → b ≤ℤ c → a ≤ℤ c
le_trans_ℤ a b c h k = omega arith

true≢false : true ≢ false
true≢false e = cc

All-trans :
    (x y : Rec) (ys : List Rec)
    → key x ≤ℤ key y
    → All (λ z. key y ≤ℤ key z) ys
    → All (λ z. key x ≤ℤ key z) ys
All-trans x y [] h a = tt
All-trans x y (z ∷ zs) h a = (omega arith, All-trans x y zs h a.1)

pub IsSorted-of_no_swaps : (x : Rec) (xs : List Rec) → swaps x xs ≡ false → IsSorted (x ∷ xs)
unfolding swaps
IsSorted-of_no_swaps x [] h = (tt, tt)
IsSorted-of_no_swaps x (y ∷ ys) h = elim (Bool-cases (out_of_order x y)) [
  | inl e ↦ absurd (true≢false (rw e at h))
  | inr e ↦
      let s = IsSorted-of_no_swaps y ys (rw e at h) in
      ((le_of_in_order x y e, All-trans x y ys (le_of_in_order x y e) s.0), s)
]

pub lower_of_no_swaps :
    (x : Rec) (xs : List Rec) → swaps x xs ≡ false → lower x xs ++ (top x xs ∷ []) ≡ x ∷ xs
unfolding swaps lower top
lower_of_no_swaps x [] h = refl
lower_of_no_swaps x (y ∷ ys) h = ground (arith, lower_of_no_swaps y ys)

-- The top record is a greatest one.
pub top-greatest :
    (x : Rec) (xs : List Rec)
    → All (λ y. key y ≤ℤ key (top x xs)) (lower x xs) × (key x ≤ℤ key (top x xs))
unfolding lower top
top-greatest x [] = (tt, omega arith)
top-greatest x (y ∷ ys) = elim (Bool-cases (out_of_order x y)) [
  | inl e ↦ rw e (
      let g = top-greatest x ys in
      ((le_trans_ℤ (key y) (key x) _ (gt_of_out_of_order x y e).0 g.1, g.0), g.1))
  | inr e ↦ rw e (
      let g = top-greatest y ys in
      let le = le_trans_ℤ (key x) (key y) _ (le_of_in_order x y e) g.1 in ((le, g.0), le))
]

pub with_key-pass :
    (k : ℤ) (x : Rec) (xs : List Rec)
    → with_key k (lower x xs ++ (top x xs ∷ [])) ≡ with_key k (x ∷ xs)
unfolding lower top
with_key-pass k x [] = refl
with_key-pass k x (y ∷ ys) = elim (Bool-cases (out_of_order x y)) [
  | inl e ↦ rw e (ap (λ r. if has_key k y then y ∷ r else r) (with_key-pass k x ys) ∙ exchange e)
  | inr e ↦ rw e (ap (λ r. if has_key k x then x ∷ r else r) (with_key-pass k y ys))
]
  where
    exchange : out_of_order x y ≡ true → with_key k (y ∷ x ∷ ys) ≡ with_key k (x ∷ y ∷ ys)
    exchange e = elim (has_key_once k x y (gt_of_out_of_order x y e).1) [
      | inl f ↦ rw f
      | inr f ↦ rw f
    ]

pub pass-perm : (x : Rec) (xs : List Rec) → Permᴰ (lower x xs ++ (top x xs ∷ [])) (x ∷ xs)
unfolding lower top
pass-perm x [] = Permᴰ.refl (x ∷ [])
pass-perm x (y ∷ ys) = elim (Bool-cases (out_of_order x y)) [
  | inl e ↦ rw e (Permᴰ.trans (Permᴰ.cons refl (pass-perm x ys)) (Permᴰ.swap refl refl))
  | inr e ↦ rw e (Permᴰ.cons refl (pass-perm y ys))
]
