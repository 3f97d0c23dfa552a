-- ===== src/Base/Weights.antt =====
-- Sums over a list of threads.
use Prim.Native.Nat.{ℕ, zero, suc, ◌+◌, ◌≤◌, ◌<◌}
use mathlib.Core.Path.{◌≡◌, refl, sym}
use mathlib.Core.List.{List, [], ◌∷◌, map}
use native.Mathlib.Omega.{arith}
use native.Mathlib.Decide.{dec_lt}
use systemy_operacyjne_c.Base.Lists.{length, get_or, set, replicate, get_or-set_self, get_or-set_ne}
use systemy_operacyjne_c.Base.Tests.{◌==◌, if◌then◌else◌}

module _ {A : Type 0} (f : A → ℕ) where
  unfoldable pub total : List A → ℕ
  total [] = 0
  total (a ∷ l) = f a + total l

  pub total-set :
      (l : List A) (i : ℕ) (d a : A)
      → i < length l
      → total (set l i a) + f (get_or l i d) ≡ total l + f a
  unfolding total
  total-set [] i d a h = absurd (omega arith)
  total-set (b ∷ l) zero d a h = omega arith
  total-set (b ∷ l) (suc i) d a h = ground (arith, total-set l i d a)

  pub total-at : (l : List A) (i : ℕ) (d : A) → f d ≡ 0 → f (get_or l i d) ≤ total l
  unfolding total
  total-at [] i d h = omega arith
  total-at (b ∷ l) zero d h = omega arith
  total-at (b ∷ l) (suc i) d h = ground (arith, total-at l i d h)

  pub total-two :
      (l : List A) (i j : ℕ) (d : A)
      → f d ≡ 0
      → i < j
      → f (get_or l i d) + f (get_or l j d) ≤ total l
  unfolding total
  total-two [] i j d e h = omega arith
  total-two (b ∷ l) i zero d e h = absurd (omega arith)
  total-two (b ∷ l) zero (suc j) d e h = ground (arith, total-at l j d e)
  total-two (b ∷ l) (suc i) (suc j) d e h = ground (arith, total-two l i j d e)

  -- A positive sum has a thread behind it.
  pub total-some :
      (l : List A) (d : A) → 0 < total l → (i : ℕ) × (i < length l) × (0 < f (get_or l i d))
  unfolding total
  total-some [] d h = absurd (omega arith)
  total-some (b ∷ l) d h = elim (dec_lt 0 (f b)) [
    | yes here ↦ (0, omega arith, here)
    | no not_here ↦
        let (i, below, there) = total-some l d (omega arith) in (suc i, omega arith, there)
  ]

  pub total-map : (g : A → A) (l : List A) → ((a : A) → f (g a) ≡ f a) → total (map g l) ≡ total l
  unfolding total
  total-map g [] h = refl
  total-map g (b ∷ l) h = omega (arith, h b, total-map g l h)

pub total-le :
    {A : Type 0} (f g : A → ℕ) (l : List A) → ((a : A) → f a ≤ g a) → total f l ≤ total g l
unfolding total
total-le f g [] h = omega arith
total-le f g (a ∷ l) h = omega (arith, h a, total-le f g l h)

pub total-le_add :
    {A : Type 0} (f g h : A → ℕ) (l : List A)
    → ((a : A) → f a ≤ g a + h a)
    → total f l ≤ total g l + total h l
unfolding total
total-le_add f g h [] e = omega arith
total-le_add f g h (a ∷ l) e = omega (arith, e a, total-le_add f g h l e)

pub get_or-map :
    {A : Type 0} (g : A → A) (l : List A) (i : ℕ) (d : A)
    → g d ≡ d
    → get_or (map g l) i d ≡ g (get_or l i d)
get_or-map g [] i d h = sym h
get_or-map g (b ∷ l) zero d h = refl
get_or-map g (b ∷ l) (suc i) d h = get_or-map g l i d h

pub total-replicate :
    {A : Type 0} (f : A → ℕ) (n : ℕ) (a : A) → f a ≡ 0 → total f (replicate n a) ≡ 0
unfolding total
total-replicate f zero a e = refl
total-replicate f (suc n) a e = omega (arith, e, total-replicate f n a e)

pub get_or-replicate : {A : Type 0} (n i : ℕ) (a : A) → get_or (replicate n a) i a ≡ a
get_or-replicate zero i a = refl
get_or-replicate (suc n) zero a = refl
get_or-replicate (suc n) (suc i) a = get_or-replicate n i a

-- What `set` does to the thread at `j`.
pub at-set :
    {A : Type 0} (l : List A) (i : ℕ) (a d : A)
    → i < length l
    → (j : ℕ) → get_or (set l i a) j d ≡ (if i == j then a else get_or l j d)
at-set l i a d h j = ground (arith, get_or-set_self l i a d h, get_or-set_ne l i j a d)
