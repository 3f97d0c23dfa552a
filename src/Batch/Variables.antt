-- ===== src/Batch/Variables.antt =====
-- The lines that set a variable or take it away.
use systemy_operacyjne_c.Base.{
  ◌≡◌, ◌⊎◌, inl, inr, refl, ap, ap₂, true, false, [], ◌∷◌, ◌++◌, none, some, ==_iff, arith,
  Bool-cases,
}
use systemy_operacyjne_c.Batch.{Text, text_eq}
use systemy_operacyjne_c.Batch.Strtok.{strtok, IsWord, strtok-word}
use systemy_operacyjne_c.Batch.Environment.{Env, lookup, remove, has_equals, refused}
use systemy_operacyjne_c.Batch.Parse.{blank, value_end}
use systemy_operacyjne_c.Batch.Run.{Shell, set_variable, unset_variable, add_variable}

text_eq_sound : (a b : Text) → text_eq a b ≡ true → a ≡ b
text_eq_sound [] [] e = refl
text_eq_sound [] (y ∷ ys) e = absurd (ground arith)
text_eq_sound (x ∷ xs) [] e = absurd (ground arith)
text_eq_sound (x ∷ xs) (y ∷ ys) e =
    ap₂ (λ h t. h ∷ t) ((==_iff x y).0 (ground arith)) (text_eq_sound xs ys (ground arith))

text_eq_same : (a : Text) → text_eq a a ≡ true
text_eq_same [] = refl
text_eq_same (x ∷ xs) = ground (arith, text_eq_same xs)

lookup-remove : (name : Text) (env : Env) → lookup name (remove name env) ≡ none
lookup-remove name [] = refl
lookup-remove name ((key, value) ∷ env) = ground (arith, lookup-remove name env)

lookup-remove_ne :
    (name other : Text) (env : Env)
    → text_eq name other ≡ false
    → lookup other (remove name env) ≡ lookup other env
lookup-remove_ne name other [] ne = refl
lookup-remove_ne name other ((key, value) ∷ env) ne = elim (Bool-cases (text_eq key name)) [
  | inl e ↦ ground (
    arith,
    lookup-remove_ne name other env ne,
    ap (λ k. text_eq k other) (text_eq_sound key name e),
  )
  | inr n ↦ ground (arith, lookup-remove_ne name other env ne)
]

name_accepted : (name : Text) → IsWord blank name → has_equals name ≡ false → refused name ≡ false
name_accepted [] v e = absurd (ground (arith, v.some_byte))
name_accepted (c ∷ cs) v e = e

nothing_left : strtok value_end [] ≡ none
unfolding strtok
nothing_left = refl

module _ {L W : Type 0} where
  sets :
      (name value : Text) (s : Shell L W)
      → IsWord blank name
      → has_equals name ≡ false
      → IsWord value_end value
      → add_variable (name ++ (b' ' ∷ (value ++ (b'\n' ∷ [])))) s
        ≡ record s { env = (name, value) ∷ remove name s.env }
  unfolding add_variable
  sets name value s v e w =
      rw (strtok-word blank name b' ' (value ++ (b'\n' ∷ [])) v refl, add_variable)
        (rw (strtok-word value_end value b'\n' [] w refl)
          (rw (name_accepted name v e, set_variable) refl))

  unsets :
      (name : Text) (s : Shell L W)
      → IsWord blank name
      → has_equals name ≡ false
      → add_variable (name ++ (b'\n' ∷ [])) s ≡ record s { env = remove name s.env }
  unfolding add_variable
  unsets name s v e =
      rw (strtok-word blank name b'\n' [] v refl, add_variable)
        (rw nothing_left (rw (name_accepted name v e, unset_variable) refl))

  -- A line of a number sign, a name with no blank and no equals sign, a space, and a value with no tab and no newline, but spaces if
  -- it likes, sets the variable to just this value; with nothing behind the name it takes the
  -- variable away; either way the other variables keep what they had, and nothing is printed.
  pub add_variable_lem :
      (name value other : Text) (s : Shell L W)
      → IsWord blank name
      → has_equals name ≡ false
      → IsWord value_end value
      → let set = add_variable (name ++ (b' ' ∷ (value ++ (b'\n' ∷ [])))) s in
        let unset = add_variable (name ++ (b'\n' ∷ [])) s in
        (lookup name set.env ≡ some value)
        × (lookup name unset.env ≡ none)
        × ((text_eq name other ≡ true)
            ⊎ ((lookup other set.env ≡ lookup other s.env)
                × (lookup other unset.env ≡ lookup other s.env)))
        × (set.output ≡ s.output)
        × (unset.output ≡ s.output)
  add_variable_lem name value other s v e w = rw (sets name value s v e w) (
      rw (unsets name s v e) (
        ground (arith, text_eq_same name),
        lookup-remove name s.env,
        elim (Bool-cases (text_eq name other)) [
          | inl y ↦ inl y
          | inr n ↦ inr (
            ground (arith, lookup-remove_ne name other s.env n),
            lookup-remove_ne name other s.env n,
          )
        ],
        refl,
        refl,
      ))
