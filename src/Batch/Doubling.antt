-- ===== src/Batch/Doubling.antt =====
-- How often the lines of a file are read.
use systemy_operacyjne_c.Base.{
  ℕ, ◌+◌, ◌*◌, ◌≡◌, ◌≢◌, ◌∙◌, refl, ap, Bool, true, false, List, [], ◌∷◌, ◌++◌, if◌then◌else◌, ◌==◌,
  All, length, ltb, ◌||◌, inl, inr, arith, Bool-cases,
}
use systemy_operacyjne_c.Batch.{Text}
use systemy_operacyjne_c.Batch.Environment.{Env}
use systemy_operacyjne_c.Batch.Parse.{Parsed, null_command, command, parse_command}
use systemy_operacyjne_c.Batch.Strtok.{strtok}
use systemy_operacyjne_c.Batch.Words.{parse_command_lem}
use systemy_operacyjne_c.Batch.Run.{
  Event, echo, unsetenv_error, setenv_error, too_many_args, exec_error, Launched, exec_failed, ran,
  Shell, Outcome, goes, splits, killed, returned, say, waited, add_variable, exec_command, evaluate,
  interpret, main, resume,
}

abbrev pub echoes : List Event → ℕ
echoes [] = 0
echoes (echo _ ∷ events) = 1 + echoes events
echoes (_ ∷ events) = echoes events

echoes-append : (xs ys : List Event) → echoes (xs ++ ys) ≡ echoes xs + echoes ys
echoes-append [] ys = omega arith
echoes-append (x ∷ xs) ys = ground (arith, echoes-append xs ys)

abbrev unrunnable : (List Text → Bool) → Parsed → Bool
unrunnable missing (command cmd _ _) = missing cmd
unrunnable missing _ = false

-- Whether a line asks for a command that cannot be executed.
abbrev pub fails : (List Text → Bool) → Text → Bool
fails missing [] = false
fails missing (c ∷ cs) = if c == b'#' then false else unrunnable missing (parse_command (c ∷ cs))

-- A line is read once, and what follows a command that cannot be executed twice as often.
abbrev pub readings : (List Text → Bool) → List Text → ℕ
readings missing [] = 0
readings missing (line ∷ lines) =
    let rest = readings missing lines in 1 + (if fails missing line then 2 * rest else rest)

module _ {L W : Type 0} (missing : List Text → Bool) (spare : ℕ → Bool)
    (launch : Env → L → List Text → W → Launched W)
    (found : (env : Env) (l : L) (cmd : List Text) (w : W)
      → missing cmd ≡ false
      → (exited : Bool) × (v : W) × (launch env l cmd w ≡ ran exited v))
    (lost : (env : Env) (l : L) (cmd : List Text) (w : W)
      → missing cmd ≡ true
      → launch env l cmd w ≡ exec_failed) where
  -- A line with a token, for whose strings and the NULL behind them there is room.
  abbrev pub IsRoomy : Text → Type 0
  IsRoomy line =
      (parse_command line ≢ null_command)
      × ((cmd : List Text) (room null_at : ℕ)
          → parse_command line ≡ command cmd room null_at
          → spare room ≡ true)

  -- What a line does to the count: nothing, or a split that doubles what follows.
  abbrev Steady : Text → Shell L W → Outcome L W → Type 0
  Steady line s (goes t) = (fails missing line ≡ false) × (echoes t.output ≡ echoes s.output)
  Steady line s (splits child back message) =
      (fails missing line ≡ true)
      × (echoes child.output ≡ echoes s.output)
      × ((b : Bool) → echoes (message b) ≡ 0)
  Steady line s (killed t) = ¬ IsRoomy line

  say-echoes :
      (events : List Event) (s : Shell L W)
      → echoes events ≡ 0
      → echoes (say events s).output ≡ echoes s.output
  say-echoes events s e = omega (arith, echoes-append s.output events)

  add_variable-echoes :
      (rest : Text) (s : Shell L W) → echoes (add_variable rest s).output ≡ echoes s.output
  unfolding add_variable
  add_variable-echoes rest s =
      ground (arith, say-echoes (unsetenv_error ∷ []) s refl, say-echoes (setenv_error ∷ []) s refl)

  waited-echoes : (n : ℕ) (cmd : List Text) (b : Bool) → echoes (waited n cmd b) ≡ 0
  waited-echoes n cmd true = refl
  waited-echoes n cmd false = refl

  no_command : false ≡ unrunnable missing (parse_command [])
  unfolding parse_command strtok
  no_command = refl

  -- The test before the write of the NULL.
  abbrev guard : List Text → Bool
  guard cmd = ltb (length cmd) (length cmd) || spare (length cmd)

  full : (cmd : List Text) → guard cmd ≡ false → spare (length cmd) ≢ true
  full cmd g roomy = ground (arith, g, roomy)

  exec_command-Steady :
      (line : Text) (n : ℕ) (s : Shell L W)
      → fails missing line ≡ unrunnable missing (parse_command line)
      → Steady line s (exec_command spare launch line n s)
  unfolding exec_command
  exec_command-Steady line n s u = elim (parse_command_lem line) [
    | inl (e, _) ↦ rw (e, exec_command) (λ roomy. roomy.0 e)
    | inr (inl e) ↦ rw (e, exec_command) (rw e at u, say-echoes (too_many_args ∷ []) s refl)
    | inr (inr (cmd, e, _, _)) ↦ elim (Bool-cases (guard cmd)) [
      | inr g ↦
          rw (e, exec_command)
            (rw g (λ roomy. absurd (full cmd g (roomy.1 cmd (length cmd) (length cmd) e))))
      | inl g ↦ elim (Bool-cases (missing cmd)) [
        | inl m ↦
            rw (e, exec_command)
              (rw (g, lost s.env s.limits cmd s.world m)
                (
                  u ∙ ap (unrunnable missing) e ∙ m,
                  say-echoes (exec_error ∷ []) s refl,
                  waited-echoes n cmd,
                ))
        | inr m ↦
            let (exited, world, f) = found s.env s.limits cmd s.world m in
            rw (e, exec_command)
              (rw (g, f)
                (
                  u ∙ ap (unrunnable missing) e ∙ m,
                  say-echoes (waited n cmd exited) (record s { world = world })
                      (waited-echoes n cmd exited),
                ))
      ]
    ]
  ]

  evaluate-Steady :
      (line : Text) (n : ℕ) (s : Shell L W) → Steady line s (evaluate spare launch line n s)
  unfolding evaluate
  evaluate-Steady [] n s = exec_command-Steady [] n s no_command
  evaluate-Steady (c ∷ cs) n s = elim (Bool-cases (c == b'#')) [
    | inl e ↦ rw e (ground arith, add_variable-echoes cs s)
    | inr e ↦ rw e (exec_command-Steady (c ∷ cs) n s (ground arith))
  ]

  -- What the loop over `lines` does to the count, from any state.
  Counted : List Text → Type 0
  Counted lines =
      (n : ℕ) (s : Shell L W)
      → (t : Shell L W) × (interpret (evaluate spare launch) [] lines n s ≡ returned t)
        × (echoes t.output ≡ echoes s.output + readings missing lines)

  Counted-cons :
      (line : Text) (lines : List Text)
      → Counted lines
      → IsRoomy line
      → (n : ℕ) (s : Shell L W) (o : Outcome L W)
      → evaluate spare launch line n (say (echo line ∷ []) s) ≡ o
      → Steady line (say (echo line ∷ []) s) o
      → (t : Shell L W) × (interpret (evaluate spare launch) [] (line ∷ lines) n s ≡ returned t)
        × (echoes t.output ≡ echoes s.output + readings missing (line ∷ lines))
  unfolding interpret Counted
  Counted-cons line lines ih proper n s (goes t) e (f, same) =
      let (u, ends, count) = ih (n + 1) (say [] t) in
      (
        u,
        rw (e, interpret) ends,
        ground (arith, count, say-echoes [] t refl, echoes-append s.output (echo line ∷ [])),
      )
  Counted-cons line lines ih proper n s (splits child back message) e (f, same, silent) =
      let (c, ends1, count1) = ih (n + 1) (say [] child) in
      let parent = resume child back message (returned c) in
      let (u, ends2, count2) = ih (n + 1) (say [] parent) in
      (
        u,
        rw (e, interpret) (rw ends1 ends2),
        ground (
          arith,
          count1,
          count2,
          say-echoes [] child refl,
          say-echoes [] parent refl,
          echoes-append c.output (message true),
          silent true,
          echoes-append s.output (echo line ∷ []),
        ),
      )
  Counted-cons line lines ih proper n s (killed t) e null = absurd (null proper)

  counted : (lines : List Text) → All IsRoomy lines → Counted lines
  unfolding interpret Counted
  counted [] a n s = (s, refl, omega arith)
  counted (line ∷ lines) a n s =
      let said = say (echo line ∷ []) s in
      Counted-cons line lines (counted lines a.1) a.0 n s (evaluate spare launch line n said) refl
        (evaluate-Steady line n said)

  -- On a file that fits in the buffer of the stream, whose lines all have a token and no more strings
  -- than the allocator leaves room for with the NULL behind them, and where it hangs on the command
  -- alone whether it can be executed, `main` of zad1 returns, and all its processes together read, and
  -- pass to `printf`, as many lines as `readings` counts: a command that cannot be executed leaves two
  -- processes, both of which go on with the rest of the file, so that it doubles what follows.
  pub main_rereads :
      (lines : List Text) (s : Shell L W)
      → All IsRoomy lines
      → (t : Shell L W) × (main spare launch lines s ≡ returned t)
        × (echoes t.output ≡ echoes s.output + readings missing lines)
  unfolding main Counted
  main_rereads lines s a = counted lines a 1 s
