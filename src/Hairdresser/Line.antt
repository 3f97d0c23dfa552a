-- ===== src/Hairdresser/Line.antt =====
-- The waiting clients as a list, in the order in which they will be cut.
use systemy_operacyjne_c.Base.{
  ℕ, ◌+◌, ◌<◌, ◌≡◌, ◌⊎◌, refl, List, [], ◌∷◌, ◌++◌, if◌then◌else◌, arith,
}
use systemy_operacyjne_c.Base.Int.{ℤ, pos, minus_one, eqb_ℤ}
use systemy_operacyjne_c.Hairdresser.Fifo.{Fifo, pop_fifo, push_fifo, fifo_init}
use systemy_operacyjne_c.Hairdresser.Fifo.Queue
use systemy_operacyjne_c.Hairdresser.Fifo.Refine.{
  IsValid, contents, push_fifo_refines, pop_fifo_refines,
}

-- The ids in the waiting room, shut so that only the lemmas about it are used.
pub line : Fifo → List ℤ
line f = contents f

-- How often an id stands in the line.
abbrev pub count : ℤ → List ℤ → ℕ
count z [] = 0
count z (x ∷ xs) = (if eqb_ℤ x z then 1 else 0) + count z xs

pub count-snoc :
    (z : ℤ) (xs : List ℤ) (x : ℤ)
    → count z (xs ++ (x ∷ [])) ≡ count z xs + (if eqb_ℤ x z then 1 else 0)
count-snoc z [] x = omega arith
count-snoc z (y ∷ ys) x = omega (arith, count-snoc z ys x)

pub line-sit : (f : Fifo) (z : ℤ) → line (record f { chair = z }) ≡ line f
unfolding line
line-sit f z = refl

pub line-init : (f : Fifo) (cn : ℕ) → 0 < cn → line (fifo_init f cn) ≡ []
unfolding line fifo_init
line-init f cn h = refl

pub line-push :
    (f : Fifo) (x : ℤ)
    → IsValid f
    → (((push_fifo f x).0 ≡ minus_one) × (line (push_fifo f x).1 ≡ line f))
      ⊎ (((push_fifo f x).0 ≡ pos 0) × (line (push_fifo f x).1 ≡ line f ++ (x ∷ [])))
unfolding line Queue.push
line-push f x v = ground (arith, push_fifo_refines f x v)

pub line-pop :
    (f : Fifo)
    → IsValid f
    → (((pop_fifo f).0 ≡ minus_one) × (line f ≡ []) × (line (pop_fifo f).1 ≡ []))
      ⊎ (line f ≡ (pop_fifo f).0 ∷ line (pop_fifo f).1)
unfolding line Queue.pop
line-pop f v = ground (arith, pop_fifo_refines f v)
