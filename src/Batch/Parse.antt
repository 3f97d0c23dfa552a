-- ===== src/Batch/Parse.antt =====
-- How `execCommand` takes a line apart (cw03/zad1/main.c).
use systemy_operacyjne_c.Base.{
  ℕ, zero, suc, ◌+◌, ◌<◌, ◌≢◌, inl, inr, arith, Option-cases, Bool, ◌||◌, List, [], ◌∷◌, Option,
  none, some, if◌then◌else◌, ◌==◌, ltb, length,
}
use systemy_operacyjne_c.Batch.{Text}
use systemy_operacyjne_c.Batch.Strtok.{strtok, strtok-shorter}

-- The three sets of delimiters.
abbrev pub blank : ℕ → Bool
blank c = (c == b' ') || ((c == b'\t') || ((c == b'\n') || (c == b'\r')))

abbrev pub arg_end : ℕ → Bool
arg_end c = (c == b' ') || ((c == b'\n') || (c == b'\t'))

abbrev pub value_end : ℕ → Bool
value_end c = (c == b'\t') || ((c == b'\n') || (c == b'\r'))

abbrev pub max_args : ℕ
max_args = 10

-- What the loop over the tokens ends with: the arguments, or the message and a return.
pub data Arguments : Type 0 where
  too_many : Arguments
  args : List Text → Arguments

abbrev pub with_arg : Text → Option Arguments → Option Arguments
with_arg current none = none
with_arg current (some too_many) = some too_many
with_arg current (some (args rest)) = some (args (current ∷ rest))

-- The loop with `index` strings in `cmd` and the string `s` behind the last token; `none` when the
-- fuel does not last.
unfoldable pub arguments : (fuel index : ℕ) → Text → Option Arguments
arguments zero index s = none
arguments (suc fuel) index s = elim (strtok arg_end s) [
  | none ↦ some (args [])
  | some (current, rest) ↦
      let more = arguments fuel (index + 1) rest in
      if ltb max_args index then some too_many else with_arg current more
]

-- `cmd` before the fork: no token at all, where `strlen(NULL)` is undefined; too many; or its
-- strings, the number of entries that `realloc` has made room for, and the entry that the
-- terminating NULL is written to. `out_of_fuel` stands for a loop that goes on.
pub data Parsed : Type 0 where
  out_of_fuel : Parsed
  null_command : Parsed
  too_many_arguments : Parsed
  command : (cmd : List Text) (room null_at : ℕ) → Parsed

unfoldable pub parse_command : Text → Parsed
unfolding arguments
parse_command line = elim (strtok blank line) [
  | none ↦ null_command
  | some (current, rest) ↦ elim (arguments (suc (length rest)) 1 rest) [
    | some (args more) ↦ command (current ∷ more) (suc (length more)) (suc (length more))
    | some too_many ↦ too_many_arguments
    | none ↦ out_of_fuel
  ]
]

-- A fuel above the length of the string is enough.
pub arguments-enough : (fuel index : ℕ) (s : Text) → length s < fuel → arguments fuel index s ≢ none
unfolding arguments
arguments-enough zero index s h = absurd (omega arith)
arguments-enough (suc fuel) index s h = elim (Option-cases (strtok arg_end s)) [
  | inl e ↦ ground arith
  | inr ((current, rest), e) ↦
      let shorter = strtok-shorter arg_end s current rest e in
      ground (arith, arguments-enough fuel (index + 1) rest)
]
