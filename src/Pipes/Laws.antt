-- ===== src/Pipes/Laws.antt =====
-- The commands of a line are started with their words, each reading what the one before writes.
use systemy_operacyjne_c.Base.{
  ℕ, zero, suc, ◌+◌, ◌≡◌, refl, ap, ap₂, ◌∙◌, List, [], ◌∷◌, none, some, if◌then◌else◌, ◌==◌, ltb,
  All, length, take, get_elem?, length-map, length-take, min, map, arith,
}
use systemy_operacyjne_c.Batch.{Text}
use systemy_operacyjne_c.Pipes.{
  Channel, standard, pipe, Stage, exec_cmd, exec_loop, exec_line, max_args, max_cmds,
}
use systemy_operacyjne_c.Pipes.Words.{
  spaced, joined, tokens-spaced, words_blank, IsCommand, take-IsCommand, commands_of,
}

-- Where the command `k` of `n` commands reads and writes, when the first has the counter `i` and reads from `last`.
abbrev pub reads : (i : ℕ) (last : Channel) (k : ℕ) → Channel
reads i last zero = last
reads i last (suc k) = pipe (i + k)

abbrev pub writes : (i k n : ℕ) → Channel
writes i k n = if suc k == n then standard else pipe (i + k)

first_writes : (i n : ℕ) → pipe i ≡ writes i 0 (suc (suc n))
first_writes i n = ground arith

later_reads : (i k : ℕ) → reads (i + 1) (pipe i) k ≡ pipe (i + k)
later_reads i zero = ap pipe (omega arith)
later_reads i (suc k) = ap pipe (omega arith)

later_writes : (i k n : ℕ) → writes (i + 1) k n ≡ writes i (suc k) (suc n)
later_writes i k n = ground arith

abbrev pub with_cmd : List Text → Channel → Channel → Stage
with_cmd cmd input output = record {
  cmd = cmd;
  terminated = ltb (length cmd) max_args;
  input = input;
  output = output;
}

-- The child for the words `ws`.
abbrev pub stage : List Text → Channel → Channel → Stage
stage ws = with_cmd (take max_args ws)

exec_cmd-spaced :
    (ws : List Text) (input output : Channel)
    → IsCommand ws
    → exec_cmd (spaced ws) input output ≡ stage ws input output
unfolding exec_cmd
exec_cmd-spaced ws input output v =
    ap (λ cmd. with_cmd cmd input output) (tokens-spaced max_args ws (words_blank ws v.clean))

some_inj : {A : Type 0} {a b : A} → some a ≡ some b → a ≡ b
some_inj {a = a} e = ap (λ o. elim o [ none ↦ a | some x ↦ x ]) e

exec_loop-at :
    (i : ℕ) (last : Channel) (css : List (List Text)) (k : ℕ) (ws : List Text)
    → All IsCommand css
    → get_elem? css k ≡ some ws
    → get_elem? (exec_loop i last (map spaced css)) k
      ≡ some (stage ws (reads i last k) (writes i k (length css)))
unfolding exec_loop
exec_loop-at i last [] k ws a e = absurd (ground arith)
exec_loop-at i last (c ∷ []) zero ws a e =
    ap some (exec_cmd-spaced c last standard a.0 ∙ ap (λ w. stage w last standard) (some_inj e))
exec_loop-at i last (c ∷ []) (suc k) ws a e = absurd (ground arith)
exec_loop-at i last (c ∷ d ∷ cs) zero ws a e = ap some (
    exec_cmd-spaced c last (pipe i) a.0
    ∙ ap (λ w. stage w last (pipe i)) (some_inj e)
    ∙ ap (stage ws last) (first_writes i (length cs)))
exec_loop-at i last (c ∷ d ∷ cs) (suc k) ws a e =
    exec_loop-at (i + 1) (pipe i) (d ∷ cs) k ws a.1 e
    ∙ ap₂ (λ r w. some (stage ws r w)) (later_reads i k) (later_writes i k (length (d ∷ cs)))

exec_loop-length :
    (i : ℕ) (last : Channel) (cs : List Text) → length (exec_loop i last cs) ≡ length cs
unfolding exec_loop
exec_loop-length i last [] = refl
exec_loop-length i last (c ∷ []) = refl
exec_loop-length i last (c ∷ d ∷ cs) = ap suc (exec_loop-length (i + 1) (pipe i) (d ∷ cs))

-- A line of commands with a bar between any two, each of words with a blank behind each, starts one
-- child for each of the first 22 commands. The child of the command `k` has the first six of its
-- words, with a NULL behind them if there are fewer than six; it reads what the program was started
-- with if it is the first, else the pipe of the child before; and it writes to its own pipe unless it
-- is the last.
pub exec_line-joined :
    (css : List (List Text)) (k : ℕ) (ws : List Text)
    → All IsCommand css
    → get_elem? (take max_cmds css) k ≡ some ws
    → (length (exec_line (joined (map spaced css))) ≡ min max_cmds (length css))
      × (get_elem? (exec_line (joined (map spaced css))) k
          ≡ some (stage ws (reads 0 standard k) (writes 0 k (length (take max_cmds css)))))
unfolding exec_line
exec_line-joined css k ws a e =
    let first = take max_cmds css in
    let split = ap (exec_loop 0 standard) (commands_of css a) in
    (
      ap length split
          ∙ exec_loop-length 0 standard (map spaced first)
          ∙ length-map first spaced
          ∙ length-take max_cmds css,
      ap (λ l. get_elem? l k) split
          ∙ exec_loop-at 0 standard first k ws (take-IsCommand max_cmds css a) e,
    )
