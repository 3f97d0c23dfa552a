-- ===== src/Batch/Strtok.antt =====
-- `strtok` of the C library: the next token, and the string behind the delimiter that ends it.
use systemy_operacyjne_c.Base.{
  ℕ, ◌≤◌, ◌<◌, ◌≡◌, refl, Bool, true, false, [], ◌∷◌, ◌++◌, Option, none, some, if◌then◌else◌, All,
  length, arith,
}
use systemy_operacyjne_c.Batch.{Text}

abbrev pub skip : (ℕ → Bool) → Text → Text
skip delim [] = []
skip delim (c ∷ cs) = let rest = skip delim cs in if delim c then rest else c ∷ cs

abbrev pub cut : (ℕ → Bool) → Text → Text × Text
cut delim [] = ([], [])
cut delim (c ∷ cs) = let rest = cut delim cs in if delim c then ([], cs) else (c ∷ rest.0, rest.1)

-- `none` is NULL.
unfoldable pub strtok : (ℕ → Bool) → Text → Option (Text × Text)
strtok delim s = elim (skip delim s) [ [] ↦ none | c ∷ cs ↦ some (cut delim (c ∷ cs)) ]

skip-length : (delim : ℕ → Bool) (s : Text) → length (skip delim s) ≤ length s
skip-length delim [] = omega arith
skip-length delim (c ∷ cs) = ground (arith, skip-length delim cs)

cut-length : (delim : ℕ → Bool) (s : Text) → length (cut delim s).1 ≤ length s
cut-length delim [] = omega arith
cut-length delim (c ∷ cs) = ground (arith, cut-length delim cs)

-- What `skip` leaves starts with no delimiter.
skip-head :
    (delim : ℕ → Bool) (s : Text) (c : ℕ) (cs : Text) → skip delim s ≡ c ∷ cs → delim c ≡ false
skip-head delim [] c cs e = ground arith
skip-head delim (d ∷ ds) c cs e = ground (arith, skip-head delim ds c cs)

shorter :
    (delim : ℕ → Bool) (t token rest : Text) {n : ℕ}
    → length t ≤ n
    → ((c : ℕ) (cs : Text) → t ≡ c ∷ cs → delim c ≡ false)
    → (elim t as (λ _. Option (Text × Text)) [ [] ↦ none | c ∷ cs ↦ some (cut delim (c ∷ cs)) ])
      ≡ some (token, rest)
    → length rest < n
shorter delim [] token rest h head e = ground arith
shorter delim (c ∷ cs) token rest h head e = ground (arith, head c cs refl, cut-length delim cs)

-- A token takes at least one byte of the string.
pub strtok-shorter :
    (delim : ℕ → Bool) (s token rest : Text)
    → strtok delim s ≡ some (token, rest)
    → length rest < length s
unfolding strtok
strtok-shorter delim s token rest e =
    shorter delim (skip delim s) token rest (skip-length delim s) (skip-head delim s) e

-- A word is not empty and has no delimiter.
pub record IsWord (delim : ℕ → Bool) (w : Text) : Type 0 where
  pub some_byte : 0 < length w
  pub no_delim : All (λ c. delim c ≡ false) w

cut-word :
    (delim : ℕ → Bool) (w : Text) (d : ℕ) (rest : Text)
    → All (λ c. delim c ≡ false) w
    → delim d ≡ true
    → cut delim (w ++ (d ∷ rest)) ≡ (w, rest)
cut-word delim [] d rest a h = rw h refl
cut-word delim (c ∷ cs) d rest a h = rw a.0 (rw (cut-word delim cs d rest a.1 h) refl)

pub strtok-word :
    (delim : ℕ → Bool) (w : Text) (d : ℕ) (rest : Text)
    → IsWord delim w
    → delim d ≡ true
    → strtok delim (w ++ (d ∷ rest)) ≡ some (w, rest)
unfolding strtok
strtok-word delim [] d rest v h = absurd (ground (arith, v.some_byte))
strtok-word delim (c ∷ cs) d rest v h =
    ground (arith, v.no_delim.0, cut-word delim cs d rest v.no_delim.1 h)

pub strtok-delim :
    (delim : ℕ → Bool) (d : ℕ) (s : Text) → delim d ≡ true → strtok delim (d ∷ s) ≡ strtok delim s
unfolding strtok
strtok-delim delim d s h = ground arith
