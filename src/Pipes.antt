-- ===== src/Pipes.antt =====
-- cw05/zad1/main.c: a line of commands with pipes between them, run one after the other.
pub mod Words
pub mod Laws
mod Tests
use systemy_operacyjne_c.Base.{
  ℕ, zero, suc, ◌+◌, ◌-◌, Bool, ◌||◌, List, [], ◌∷◌, Option, none, some, if◌then◌else◌, ◌==◌, ltb,
  length,
}
use systemy_operacyjne_c.Batch.{Text}
use systemy_operacyjne_c.Batch.Strtok.{strtok}

abbrev pub max_cmds : ℕ
max_cmds = 22

abbrev pub max_args : ℕ
max_args = 6

-- The two sets of delimiters.
abbrev pub bar : ℕ → Bool
bar c = c == b'|'

abbrev pub blank : ℕ → Bool
blank c = (c == b' ') || ((c == b'\n') || ((c == b'\t') || (c == b'\r')))

-- The first `limit` tokens: the loops over `strtok` in both functions.
unfoldable pub tokens : (ℕ → Bool) → (limit : ℕ) → Text → List Text
tokens delim zero s = []
tokens delim (suc limit) s = elim (strtok delim s) [
  | none ↦ []
  | some (token, rest) ↦ token ∷ tokens delim limit rest
]

-- Where a command reads and writes: what the program started with, or the pipe that was made for the
-- command `i`.
pub data Channel : Type 0 where
  standard : Channel
  pipe : (i : ℕ) → Channel

-- The child of `exec_cmd`: its arguments, whether a NULL follows them in the array, and its channels.
pub record Stage : Type 0 where
  pub cmd : List Text
  pub terminated : Bool
  pub input : Channel
  pub output : Channel

-- `exec_cmd` up to `execvp`, which calls `wait` before the next command starts.
unfoldable pub exec_cmd : Text → (input output : Channel) → Stage
unfolding tokens
exec_cmd cmds input output =
    let cmd = tokens blank max_args cmds in
    record { cmd = cmd; terminated = ltb (length cmd) max_args; input = input; output = output }

-- The loop over the commands: `i` is its counter and `last` the read end of the pipe before.
unfoldable pub exec_loop : (i : ℕ) → (last : Channel) → List Text → List Stage
unfolding exec_cmd
exec_loop i last [] = []
exec_loop i last (command ∷ []) = exec_cmd command last standard ∷ []
exec_loop i last (command ∷ next ∷ commands) =
    exec_cmd command last (pipe i) ∷ exec_loop (i + 1) (pipe i) (next ∷ commands)

unfoldable pub exec_line : Text → List Stage
unfolding tokens exec_loop
exec_line line = exec_loop 0 standard (tokens bar max_cmds line)
