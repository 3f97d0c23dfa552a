-- ===== src/Search/Tests.antt =====
-- A file of one short record, searched by two threads.
use systemy_operacyjne_c.Base.{ℕ, List, [], ◌∷◌}

abbrev first_digit : List ℕ → ℕ
first_digit [] = 0
first_digit (c ∷ _) = c
