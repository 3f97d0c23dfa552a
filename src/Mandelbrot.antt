-- ===== src/Mandelbrot.antt =====
-- cw05/zad2/slave.c: random points and how soon their orbits leave the circle. The arithmetic of
-- doubles and the text that `sprintf` makes of a number are parameters, as are the results of `rand`:
-- `drawn` has them in the order of the calls.
pub mod Laws
mod Tests
use systemy_operacyjne_c.Base.{ℕ, zero, suc, ◌+◌, ◌*◌, Bool, List, [], ◌∷◌, ◌++◌, if◌then◌else◌}
use systemy_operacyjne_c.Base.Int.{ℤ, pos, negsuc}

-- What `sprintf` makes of a number: for %lf with six decimals, and for %d.
pub record Formats (F : Type 0) : Type 0 where
  pub rand_max : ℤ
  pub lf : F → List ℕ
  pub d : ℕ → List ℕ

pub record Doubles (F : Type 0) : Type 0 where
  pub zero_ : F
  pub two : F
  pub add : F → F → F
  pub sub : F → F → F
  pub mul : F → F → F
  pub sqrt : F → F
  pub div : F → F → F
  pub of_int : ℤ → F
  pub at_least : F → F → Bool

module _ {F : Type 0} (d : Doubles F) where
  -- One round of the loop: the new `nre` and `nim`.
  abbrev pub next : (re im : F) → F × F → F × F
  next re im (nre, nim) =
      (d.add (d.sub (d.mul nre nre) (d.mul nim nim)) re, d.add (d.mul (d.mul d.two nre) nim) im)

  -- `sqrt(nre*nre + nim*nim)>=2`
  abbrev pub outside : F × F → Bool
  outside (nre, nim) = d.at_least (d.sqrt (d.add (d.mul nre nre) (d.mul nim nim))) d.two

  unfoldable pub iter_loop : (re im : F) → (left i : ℕ) → F × F → ℕ
  iter_loop re im zero i z = i
  iter_loop re im (suc left) i z =
      let z' = next re im z in
      let rest = iter_loop re im left (i + 1) z' in if outside z' then i else rest

  unfoldable pub iter_rand : (re im : F) → ℕ → ℕ
  unfolding iter_loop
  iter_rand re im k = iter_loop re im k 0 (d.zero_, d.zero_)

module _ {F : Type 0} (doubles : Doubles F) (c : Formats F) where
  abbrev pub r_min : F
  r_min = doubles.of_int (negsuc 1)

  abbrev pub r_max : F
  r_max = doubles.of_int (pos 1)

  abbrev pub i_min : F
  i_min = doubles.of_int (negsuc 0)

  abbrev pub i_max : F
  i_max = doubles.of_int (pos 1)

  -- `((double)rand()/(double)RAND_MAX)*(max-min)+min`
  abbrev pub scaled : (drawn : ℕ) → (min max : F) → F
  scaled drawn min max =
      let part = doubles.div (doubles.of_int (pos drawn)) (doubles.of_int c.rand_max) in
      doubles.add (doubles.mul part (doubles.sub max min)) min

  -- The string in `buf` behind `sprintf`; of the 50 bytes that are written, it is those before the
  -- first zero.
  abbrev pub line : (re im : F) → (iter : ℕ) → List ℕ
  line re im iter = c.lf re ++ (b' ' ∷ (c.lf im ++ (b' ' ∷ (c.d iter ++ (b'\n' ∷ [])))))

  -- The loop of `main` from the point `i`: the strings that are written to the pipe for `n` points.
  unfoldable pub main_loop : (n k i : ℕ) → (drawn : ℕ → ℕ) → List (List ℕ)
  unfolding iter_rand
  main_loop zero k i drawn = []
  main_loop (suc n) k i drawn =
      let re = scaled (drawn (2 * i)) r_min r_max in
      let im = scaled (drawn (2 * i + 1)) i_min i_max in
      line re im (iter_rand doubles re im k) ∷ main_loop n k (i + 1) drawn
