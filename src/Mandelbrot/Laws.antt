-- ===== src/Mandelbrot/Laws.antt =====
-- The lines that are sent, and the orbits of the points in them.
use systemy_operacyjne_c.Base.{ℕ, zero, suc, ◌+◌, ◌*◌, ◌≤◌, ◌<◌, ◌≡◌, ◌⊎◌, true, false, List}
use systemy_operacyjne_c.Mandelbrot.{
  Doubles, Formats, r_min, r_max, i_min, i_max, scaled, line, next, outside, iter_rand,
}

module _ {F : Type 0} (d : Doubles F) where
  -- The orbit of zero under the map of the point.
  abbrev pub orbit : (re im : F) → ℕ → F × F
  orbit re im zero = (d.zero_, d.zero_)
  orbit re im (suc n) = next d re im (orbit re im n)

  -- `t` is the first time up to `k` whose next point of the orbit is outside, or `k`.
  pub record IsEscape (re im : F) (k t : ℕ) : Type 0 where
    pub bound : t ≤ k
    pub inside : (j : ℕ) → j < t → outside d (orbit re im (suc j)) ≡ false
    pub leaves : (t ≡ k) ⊎ (outside d (orbit re im (suc t)) ≡ true)

module _ {F : Type 0} (doubles : Doubles F) (c : Formats F) (drawn : ℕ → ℕ) where
  -- The point of the round `i`.
  abbrev pub point_re : ℕ → F
  point_re i = scaled doubles c (drawn (2 * i)) (r_min doubles c) (r_max doubles c)

  abbrev pub point_im : ℕ → F
  point_im i = scaled doubles c (drawn (2 * i + 1)) (i_min doubles c) (i_max doubles c)

  abbrev line_at : (k i : ℕ) → List ℕ
  line_at k i =
      line doubles c (point_re i) (point_im i) (iter_rand doubles (point_re i) (point_im i) k)
