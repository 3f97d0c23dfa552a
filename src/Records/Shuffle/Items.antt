-- ===== src/Records/Shuffle/Items.antt =====
-- The shuffle on a list of records, and one record of a file by its index.
use mathlib.Core.List.{Perm, perm-cons}
use mathlib.Core.List.Perm
use systemy_operacyjne_c.Base.{
  All, ℕ, zero, suc, ◌+◌, ◌*◌, ◌%◌, ◌<◌, ◌≡◌, refl, sym, ap, ◌∙◌, subst, List, [], ◌∷◌, ◌++◌, arith,
  length, get_or, set, take, drop, append_assoc, length-append, length-set, get_or-set_ne,
}
use systemy_operacyjne_c.Records.Bsort.Bubble.{Rec}
use systemy_operacyjne_c.Records.Bsort.Passes.{concat}

unfoldable pub exchange : ℕ → ℕ → List Rec → List Rec
exchange i j rs = set (set rs i (get_or rs j [])) j (get_or rs i [])

unfoldable pub shuffle_records : (ℕ → ℕ) → ℕ → ℕ → List Rec → List Rec
shuffle_records rand_at zero drawn rs = rs
shuffle_records rand_at (suc i) drawn rs =
    shuffle_records rand_at i (drawn + 1) (exchange (suc i) (rand_at drawn % suc i) rs)

pub concat-set :
    (rs : List Rec) (i : ℕ) (w : Rec)
    → i < length rs
    → concat (set rs i w) ≡ concat (take i rs) ++ (w ++ concat (drop (suc i) rs))
unfolding concat
concat-set [] i w h = elim h [ ]
concat-set (x ∷ xs) zero w h = refl
concat-set (x ∷ xs) (suc i) w h =
    ap (λ t. x ++ t) (concat-set xs i w (omega arith))
    ∙ sym (append_assoc x (concat (take i xs)) (w ++ concat (drop (suc i) xs)))

pub concat-get :
    (rs : List Rec) (i : ℕ)
    → i < length rs
    → concat rs ≡ concat (take i rs) ++ (get_or rs i [] ++ concat (drop (suc i) rs))
unfolding concat
concat-get [] i h = elim h [ ]
concat-get (x ∷ xs) zero h = refl
concat-get (x ∷ xs) (suc i) h =
    ap (λ t. x ++ t) (concat-get xs i (omega arith))
    ∙ sym (append_assoc x (concat (take i xs)) (get_or xs i [] ++ concat (drop (suc i) xs)))

module _ (size : ℕ) where
  pub length-concat-take :
      (rs : List Rec) (i : ℕ)
      → i < length rs
      → All (λ r. length r ≡ size) rs
      → i * size ≡ length (concat (take i rs))
  unfolding concat
  length-concat-take [] i h a = elim h [ ]
  length-concat-take (x ∷ xs) zero h a = omega arith
  length-concat-take (x ∷ xs) (suc i) h a =
      omega (
        arith,
        length-append x (concat (take i xs)),
        length-concat-take xs i (omega arith) a.1,
        a.0,
      )

  pub length-get :
      (rs : List Rec) (i : ℕ)
      → i < length rs
      → All (λ r. length r ≡ size) rs
      → length (get_or rs i []) ≡ size
  length-get [] i h a = elim h [ ]
  length-get (x ∷ xs) zero h a = a.0
  length-get (x ∷ xs) (suc i) h a = length-get xs i (omega arith) a.1

  pub sizes-set :
      (rs : List Rec) (i : ℕ) (w : Rec)
      → length w ≡ size
      → All (λ r. length r ≡ size) rs
      → All (λ r. length r ≡ size) (set rs i w)
  sizes-set [] i w l a = tt
  sizes-set (x ∷ xs) zero w l a = (l, a.1)
  sizes-set (x ∷ xs) (suc i) w l a = (a.0, sizes-set xs i w l a.1)

perm-set :
    (rs : List Rec) (i : ℕ) (w : Rec) → i < length rs → Perm (get_or rs i [] ∷ set rs i w) (w ∷ rs)
perm-set [] i w h = elim h [ ]
perm-set (x ∷ xs) zero w h = Perm.swap w x xs
perm-set (x ∷ xs) (suc i) w h =
    Perm.trans (Perm.swap x (get_or xs i []) (set xs i w))
      (Perm.trans (Perm.cons x (perm-set xs i w (omega arith))) (Perm.swap w x xs))

pub mod-lt_suc : (a n : ℕ) → a % suc n < suc n
mod-lt_suc a n = grind arith

pub perm-exchange : (rs : List Rec) (i j : ℕ) → i < length rs → j < i → Perm (exchange i j rs) rs
unfolding exchange
perm-exchange rs i j h k = (perm-cons b).0 (
    subst (λ c. Perm (c ∷ exchange i j rs) (b ∷ rs)) (get_or-set_ne rs i j b [] (omega arith))
      (Perm.trans (perm-set (set rs i b) j (get_or rs i []) (omega (arith, length-set rs i b)))
        (perm-set rs i b h)))
  where
    b : Rec
    b = get_or rs j []

pub length-exchange : (i j : ℕ) (rs : List Rec) → length (exchange i j rs) ≡ length rs
unfolding exchange
length-exchange i j rs = length-set (set rs i _) j _ ∙ length-set rs i _

pub perm-shuffle_records :
    (rand_at : ℕ → ℕ) (i drawn : ℕ) (rs : List Rec)
    → i < length rs
    → Perm (shuffle_records rand_at i drawn rs) rs
unfolding shuffle_records
perm-shuffle_records rand_at zero drawn rs h = Perm.refl rs
perm-shuffle_records rand_at (suc i) drawn rs h =
    Perm.trans
      (perm-shuffle_records rand_at i (drawn + 1) (exchange (suc i) (rand_at drawn % suc i) rs)
        (omega (arith, length-exchange (suc i) (rand_at drawn % suc i) rs)))
      (perm-exchange rs (suc i) (rand_at drawn % suc i) h (mod-lt_suc (rand_at drawn) i))
