-- ===== src/Batch/Words.antt =====
-- A line of words comes apart into its words.
use systemy_operacyjne_c.Base.{
  ℕ, zero, suc, ◌+◌, ◌≤◌, ◌<◌, ◌≡◌, ◌⊎◌, inl, inr, refl, Bool, true, false, List, [], ◌∷◌, ◌++◌,
  none, some, if◌then◌else◌, leb, All, length, length-append, arith, Bool-cases, Option-cases,
}
use systemy_operacyjne_c.Batch.{Text}
use systemy_operacyjne_c.Batch.Strtok.{skip, strtok, IsWord, strtok-word}
use systemy_operacyjne_c.Batch.Parse.{
  blank, arg_end, too_many, args, with_arg, arguments, arguments-enough, null_command,
  too_many_arguments, command, parse_command,
}

-- What stands behind a word: a blank, or the end of the line.
abbrev pub separator : List Text → ℕ
separator [] = b'\n'
separator (_ ∷ _) = b' '

-- The words with a blank between any two, and a newline behind the last.
abbrev pub line_of : List Text → Text
line_of [] = []
line_of (w ∷ ws) = w ++ (separator ws ∷ line_of ws)

no_blank : (w : Text) → All (λ c. blank c ≡ false) w → All (λ c. arg_end c ≡ false) w
no_blank [] a = tt
no_blank (c ∷ cs) a = (ground (arith, a.0), no_blank cs a.1)

arg-IsWord : (w : Text) → IsWord blank w → IsWord arg_end w
arg-IsWord w v = record { some_byte = v.some_byte; no_delim = no_blank w v.no_delim }

separator_ends_arg : (ws : List Text) → arg_end (separator ws) ≡ true
separator_ends_arg [] = refl
separator_ends_arg (_ ∷ _) = refl

separator_is_blank : (ws : List Text) → blank (separator ws) ≡ true
separator_is_blank [] = refl
separator_is_blank (_ ∷ _) = refl

strtok_none : (fuel index : ℕ) → arguments (suc fuel) index [] ≡ some (args [])
unfolding arguments strtok
strtok_none fuel index = refl

arguments_step :
    (fuel index : ℕ) (w : Text) (ws : List Text)
    → IsWord blank w
    → arguments (suc fuel) index (line_of (w ∷ ws)) ≡ (
        if leb index 10
        then with_arg w (arguments fuel (index + 1) (line_of ws))
        else some too_many)
unfolding arguments
arguments_step fuel index w ws v = ground (
  arith,
  strtok-word arg_end w (separator ws) (line_of ws) (arg-IsWord w v) (separator_ends_arg ws),
)

arguments_words :
    (fuel index : ℕ) (ws : List Text)
    → All (IsWord blank) ws
    → length (line_of ws) < fuel
    → index ≤ 11
    → arguments fuel index (line_of ws)
      ≡ (if leb (index + length ws) 11 then some (args ws) else some too_many)
arguments_words zero index ws v h i = absurd (omega arith)
arguments_words (suc fuel) index [] v h i = ground (arith, strtok_none fuel index)
arguments_words (suc fuel) index (w ∷ ws) v h i = ground (
  arith,
  arguments_step fuel index w ws v.0,
  length-append w (separator ws ∷ line_of ws),
  arguments_words fuel (index + 1) ws v.1,
)

-- A line of words without blanks, one blank between any two and a newline at the end, is taken apart into
-- just these words if there are at most eleven, the command and ten arguments; a longer one is
-- refused.
pub parse_command-line_of :
    (w : Text) (ws : List Text)
    → All (IsWord blank) (w ∷ ws)
    → ((length ws ≤ 10)
        × (parse_command (line_of (w ∷ ws)) ≡ command (w ∷ ws) (length (w ∷ ws)) (length (w ∷ ws))))
      ⊎ ((10 < length ws) × (parse_command (line_of (w ∷ ws)) ≡ too_many_arguments))
unfolding parse_command
parse_command-line_of w ws v = ground (
  arith,
  strtok-word blank w (separator ws) (line_of ws) v.0 (separator_is_blank ws),
  arguments_words (suc (length (line_of ws))) 1 ws v.1,
)

blank_line : (delim : ℕ → Bool) (s : Text) → skip delim s ≡ [] → All (λ c. delim c ≡ true) s
blank_line delim [] e = tt
blank_line delim (c ∷ cs) e = elim (Bool-cases (delim c)) [
  | inl d ↦ (d, blank_line delim cs (ground arith))
  | inr d ↦ absurd (ground arith)
]

strtok-none : (delim : ℕ → Bool) (s : Text) → strtok delim s ≡ none → All (λ c. delim c ≡ true) s
unfolding strtok
strtok-none delim s e = blank_line delim s (ground arith)

-- The loop never holds more than eleven strings.
arguments-length :
    (fuel index : ℕ) (s : Text) (more : List Text)
    → arguments fuel index s ≡ some (args more)
    → (more ≡ []) ⊎ (index + length more ≤ 11)
unfolding arguments
arguments-length zero index s more e = absurd (ground arith)
arguments-length (suc fuel) index s more e = elim (Option-cases (strtok arg_end s)) [
  | inl n ↦ inl (ground arith)
  | inr ((current, rest), n) ↦ elim (Option-cases (arguments fuel (index + 1) rest)) [
    | inl f ↦ absurd (ground arith)
    | inr (too_many, f) ↦ absurd (ground arith)
    | inr (args m, f) ↦ ground (arith, arguments-length fuel (index + 1) rest m f)
  ]
]

-- Of any line, `execCommand` either finds nothing but blanks, where it calls `strlen(NULL)`; or it
-- refuses more than ten arguments; or it takes it apart into between one and eleven strings, and
-- writes the terminating NULL to the entry just behind those that it has made room for.
pub parse_command_lem :
    (line : Text)
    → ((parse_command line ≡ null_command) × All (λ c. blank c ≡ true) line)
      ⊎ (parse_command line ≡ too_many_arguments)
      ⊎ ((cmd : List Text) × (parse_command line ≡ command cmd (length cmd) (length cmd))
          × (1 ≤ length cmd)
          × (length cmd ≤ 11))
unfolding parse_command
parse_command_lem line = elim (Option-cases (strtok blank line)) [
  | inl e ↦ inl (rw (e, parse_command) refl, strtok-none blank line e)
  | inr ((current, rest), e) ↦ elim (Option-cases (arguments (suc (length rest)) 1 rest)) [
    | inl f ↦ absurd (arguments-enough (suc (length rest)) 1 rest (omega arith) f)
    | inr (too_many, f) ↦ inr (inl (ground arith))
    | inr (args more, f) ↦ inr (
        inr (
          current ∷ more,
          ground arith,
          omega arith,
          ground (arith, arguments-length (suc (length rest)) 1 rest more f),
        ))
  ]
]
