-- ===== src/Table.antt =====
-- Readers and writers of one table (cw09): what both variants, zad1a and zad1b, do with it.
pub mod Mutex
pub mod Semaphores
mod Tests
use systemy_operacyjne_c.Base.{
  ℕ, zero, suc, ◌+◌, ◌*◌, ◌/◌, ◌%◌, ◌≤◌, ◌<◌, ◌≡◌, refl, List, [], ◌∷◌, if◌then◌else◌, ◌==◌, arith,
  length, get_or, set, length-set, get_or-set_self, get_or-set_ne, dec_lt,
}

abbrev pub table_size : ℕ
table_size = 100

-- Arguments named `drawn` are what `rand()` returns.
abbrev pub amount : ℕ → ℕ
amount drawn = drawn % table_size / 10 + 1

abbrev pub put : List ℕ → ℕ → ℕ → List ℕ
put table drawn_k drawn_value = set table (drawn_k % table_size) (drawn_value % 999 + 1)

-- 1 when the number at `i` is counted by a reader with this divisor, else 0.
abbrev pub hit : ℕ → List ℕ → ℕ → ℕ
hit div table i = if get_or table i 0 % div == 0 then 1 else 0

unfoldable pub rand_table : (ℕ → ℕ) → ℕ → List ℕ
rand_table drawn zero = []
rand_table drawn (suc left) = (drawn left % 999 + 1) ∷ rand_table drawn left

-- How many of the first `n` numbers `div` divides.
unfoldable pub divisible : ℕ → List ℕ → ℕ → ℕ
divisible div table zero = 0
divisible div table (suc n) = divisible div table n + hit div table n

-- A table of a hundred numbers from 1 to 999.
pub record IsTable (table : List ℕ) : Type 0 where
  pub full : length table ≡ table_size
  pub low : (i : ℕ) → i < table_size → 1 ≤ get_or table i 0
  pub high : (i : ℕ) → i < table_size → get_or table i 0 ≤ 999

rand_table-length : (drawn : ℕ → ℕ) (n : ℕ) → length (rand_table drawn n) ≡ n
unfolding rand_table
rand_table-length drawn zero = refl
rand_table-length drawn (suc n) = ground (arith, rand_table-length drawn n)

rand_table-cell :
    (drawn : ℕ → ℕ) (n i : ℕ)
    → i < n
    → (1 ≤ get_or (rand_table drawn n) i 0) × (get_or (rand_table drawn n) i 0 ≤ 999)
unfolding rand_table
rand_table-cell drawn zero i h = absurd (omega arith)
rand_table-cell drawn (suc n) zero h = (omega arith, omega arith)
rand_table-cell drawn (suc n) (suc i) h = rand_table-cell drawn n i (omega arith)

pub rand_table-IsTable : (drawn : ℕ → ℕ) → IsTable (rand_table drawn table_size)
rand_table-IsTable drawn = record {
  full = rand_table-length drawn table_size;
  low = λ i h. (rand_table-cell drawn table_size i h).0;
  high = λ i h. (rand_table-cell drawn table_size i h).1;
}

pub put-IsTable :
    (table : List ℕ) (drawn_k drawn_value : ℕ)
    → IsTable table
    → IsTable (put table drawn_k drawn_value)
put-IsTable table k v t =
    let room : k % table_size < length table = omega (arith, t.full) in
    let here = get_or-set_self table (k % table_size) (v % 999 + 1) 0 room in
    record {
      full = omega (arith, length-set table (k % table_size) (v % 999 + 1), t.full);
      low = λ i h.
          ground (arith, here, t.low i h, get_or-set_ne table (k % table_size) i (v % 999 + 1) 0);
      high = λ i h.
          ground (arith, here, t.high i h, get_or-set_ne table (k % table_size) i (v % 999 + 1) 0);
    }
