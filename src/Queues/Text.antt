-- ===== src/Queues/Text.antt =====
-- `upperCaseF`: capital letters up to the end of a string in a buffer.
use systemy_operacyjne_c.Base.{
  All, ℕ, ◌-◌, ◌≡◌, ◌≢◌, refl, ◌&&◌, Option, none, some, List, [], ◌∷◌, ◌++◌, map, if◌then◌else◌,
  ◌==◌, leb, arith,
}

-- `toupper` in the C locale.
unfoldable pub to_upper : ℕ → ℕ
to_upper c = if leb b'a' c && leb c b'z' then c - 32 else c

-- `none` where the loop runs past the end of the buffer.
unfoldable pub upper_case_f : List ℕ → Option (List ℕ)
upper_case_f [] = none
upper_case_f (c ∷ cs) =
    let rest = upper_case_f cs in
    if c == 0 then some (c ∷ cs) else (elim rest [ none ↦ none | some r ↦ some (to_upper c ∷ r) ])

-- On a string with its terminator and no other zero before it the loop ends at the terminator, with the letters before it
-- raised and what follows as it was.
pub upper_case_f-terminated :
    (s rest : List ℕ)
    → All (λ c. c ≢ 0) s
    → upper_case_f (s ++ (0 ∷ rest)) ≡ some (map to_upper s ++ (0 ∷ rest))
unfolding upper_case_f
upper_case_f-terminated [] rest a = refl
upper_case_f-terminated (c ∷ cs) rest a = ground (arith, upper_case_f-terminated cs rest a.1, a.0)

-- Without a terminator it leaves the buffer.
pub upper_case_f-unterminated : (s : List ℕ) → All (λ c. c ≢ 0) s → upper_case_f s ≡ none
unfolding upper_case_f
upper_case_f-unterminated [] a = refl
upper_case_f-unterminated (c ∷ cs) a = ground (arith, upper_case_f-unterminated cs a.1, a.0)

pub to_upper_idem : (c : ℕ) → to_upper (to_upper c) ≡ to_upper c
unfolding to_upper
to_upper_idem c = ground arith

-- The string that a buffer holds, `none` without a terminator.
unfoldable pub c_string : List ℕ → Option (List ℕ)
c_string [] = none
c_string (c ∷ cs) =
    let rest = c_string cs in
    if c == 0 then some [] else (elim rest [ none ↦ none | some r ↦ some (c ∷ r) ])

pub c_string-terminated :
    (s rest : List ℕ) → All (λ c. c ≢ 0) s → c_string (s ++ (0 ∷ rest)) ≡ some s
unfolding c_string
c_string-terminated [] rest a = refl
c_string-terminated (c ∷ cs) rest a = ground (arith, c_string-terminated cs rest a.1, a.0)

to_upper_ne_zero : (c : ℕ) → c ≢ 0 → to_upper c ≢ 0
unfolding to_upper
to_upper_ne_zero c h = ground arith

pub upper_ne_zero : (s : List ℕ) → All (λ c. c ≢ 0) s → All (λ c. c ≢ 0) (map to_upper s)
upper_ne_zero [] a = tt
upper_ne_zero (c ∷ cs) a = (to_upper_ne_zero c a.0, upper_ne_zero cs a.1)
