-- ===== src/Search/Laws.antt =====
-- What the threads find together.
use systemy_operacyjne_c.Base.{
  ℕ, zero, suc, ◌+◌, ◌*◌, Bool, List, [], ◌∷◌, ◌++◌, if◌then◌else◌, take, drop,
}
use systemy_operacyjne_c.Search.{buff_size, buffer_of}

-- The block `k` of a file.
abbrev pub block : List ℕ → ℕ → List ℕ
block file k = buffer_of (take buff_size (drop (k * buff_size) file))

-- The blocks from `k` on, `n` of them.
abbrev pub blocks : List ℕ → ℕ → ℕ → List (List ℕ)
blocks file k zero = []
blocks file k (suc n) = block file k ∷ blocks file (k + 1) n

-- The entries that pass a test.
abbrev pub passing : {A : Type 0} → (A → Bool) → List A → List A
passing test [] = []
passing test (x ∷ xs) = let rest = passing test xs in if test x then x ∷ rest else rest

-- What all threads print, in the order in which they had the mutex.
abbrev pub printed : List (ℕ × List ℕ) → List ℕ
printed [] = []
printed ((thread, found) ∷ more) = found ++ printed more
