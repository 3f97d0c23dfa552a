-- ===== src/Mandelbrot/Tests.antt =====
-- Whole numbers in place of doubles, without those below 0.
use systemy_operacyjne_c.Base.{ℕ, ◌+◌, ◌-◌, ◌*◌, leb, [], ◌∷◌, ◌/◌}
use systemy_operacyjne_c.Base.Int.{pos, negsuc}
use systemy_operacyjne_c.Mandelbrot.{Doubles, Formats}

abbrev whole : Doubles ℕ
whole = record {
  zero_ = 0;
  two = 2;
  add = λ a b. a + b;
  sub = λ a b. a - b;
  mul = λ a b. a * b;
  sqrt = λ a. a;
  div = λ a b. a / b;
  of_int = λ z. elim z [ pos n ↦ n | negsuc n ↦ 0 ];
  at_least = λ a b. leb b a;
}

abbrev formats : Formats ℕ
formats = record { rand_max = pos 10; lf = λ n. n ∷ []; d = λ n. n ∷ [] }

abbrev rolls : ℕ → ℕ
rolls i = 10
