-- ===== src/Hairdresser/Fifo/Queue.antt =====
-- What the waiting room promises: a queue of at most `cap` process ids, longest waiting first.
use systemy_operacyjne_c.Base.{ℕ, List, [], ◌∷◌, ◌++◌, if◌then◌else◌, ◌==◌, length}
use systemy_operacyjne_c.Base.Int.{ℤ, pos, minus_one}

unfoldable pub pop : List ℤ → ℤ × List ℤ
pop [] = (minus_one, [])
pop (x ∷ q) = (x, q)

unfoldable pub push : ℕ → List ℤ → ℤ → ℤ × List ℤ
push cap q x = if length q == cap then (minus_one, q) else (pos 0, q ++ (x ∷ []))
