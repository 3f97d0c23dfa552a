-- ===== src/Batch/Run.antt =====
-- The interpreter of cw03/zad1/main.c: addVariable, execCommand, evaluate and the loop of main. A
-- failed `execvp` returns from `execCommand` in the child, which then goes on with the rest of the
-- file as a second interpreter, while its parent waits for it. The file fits in the buffer of the
-- stream, so that both have all of its lines. The terminating NULL is written to the entry behind those
-- that `realloc` was asked for; `spare` says of a number of entries whether the block that the
-- allocator gives for them holds one more. If it does not, the write breaks the heap, and the process
-- is taken to be killed.
use systemy_operacyjne_c.Base.{
  ℕ, ◌+◌, Bool, true, false, List, [], ◌∷◌, ◌++◌, Option, none, some, if◌then◌else◌, ◌==◌, ◌||◌,
  ltb,
}
use systemy_operacyjne_c.Batch.{Text}
use systemy_operacyjne_c.Batch.Strtok.{strtok}
use systemy_operacyjne_c.Batch.Environment.{Env, set_env, unset_env}
use systemy_operacyjne_c.Batch.Parse.{
  blank, value_end, null_command, out_of_fuel, too_many_arguments, command, parse_command,
}

-- What the programs pass to `printf`, in its order; what a buffer of `stdout` makes of it is left out.
pub data Event : Type 0 where
  echo : (line : Text) → Event
  unsetenv_error setenv_error too_many_args exec_error setrlimit_error newline : Event
  error_in_line : (line_number : ℕ) → (cmd : List Text) → Event
  times : Event

-- What comes of a fork and an `execvp`: no child, a child that could not execute the command, or
-- one that did, with whether it exited (WIFEXITED).
pub data Launched (W : Type 0) : Type 0 where
  fork_failed : Launched W
  exec_failed : Launched W
  ran : (exited : Bool) → W → Launched W

-- One process of the interpreter: its environment and resource limits, and, shared by all, what the
-- commands work on and what is printed so far.
pub record Shell (L W : Type 0) : Type 0 where
  pub env : Env
  pub limits : L
  pub world : W
  pub output : List Event

-- How a line ends: the process goes on; both the child and the parent do, the parent with its own limits
-- and a message that depends on whether the child exited; or the process is killed.
pub data Outcome (L W : Type 0) : Type 0 where
  goes : Shell L W → Outcome L W
  splits : (child : Shell L W) → (back : L) → (waited : Bool → List Event) → Outcome L W
  killed : Shell L W → Outcome L W

pub data Ended (L W : Type 0) : Type 0 where
  returned : Shell L W → Ended L W
  crashed : Shell L W → Ended L W

-- The message of the parent when the command did not exit by itself.
abbrev pub waited : ℕ → List Text → Bool → List Event
waited line_number cmd exited = if exited then [] else error_in_line line_number cmd ∷ []

module _ {L W : Type 0} where
  abbrev pub say : List Event → Shell L W → Shell L W
  say events s = record s { output = s.output ++ events }

  -- `unsetenv(varname)`; no token at all is a NULL, which is refused.
  abbrev pub unset_variable : Option Text → Shell L W → Shell L W
  unset_variable none s = say (unsetenv_error ∷ []) s
  unset_variable (some name) s = elim (unset_env name s.env) [
    | none ↦ say (unsetenv_error ∷ []) s
    | some env ↦ record s { env = env }
  ]

  abbrev pub set_variable : Text → Text → Shell L W → Shell L W
  set_variable name value s = elim (set_env name value s.env) [
    | none ↦ say (setenv_error ∷ []) s
    | some env ↦ record s { env = env }
  ]

  -- `rest` is the line behind its number sign.
  unfoldable pub add_variable : Text → Shell L W → Shell L W
  add_variable rest s = elim (strtok blank rest) [
    | none ↦ unset_variable none s
    | some (varname, behind) ↦ elim (strtok value_end behind) [
      | none ↦ unset_variable (some varname) s
      | some (value, _) ↦ set_variable varname value s
    ]
  ]

  unfoldable pub exec_command :
      (spare : ℕ → Bool)
      → (Env → L → List Text → W → Launched W)
      → Text
      → ℕ
      → Shell L W
      → Outcome L W
  exec_command spare launch line line_number s = elim (parse_command line) [
    | out_of_fuel ↦ killed s
    | null_command ↦ killed s
    | too_many_arguments ↦ goes (say (too_many_args ∷ []) s)
    | command cmd room null_at ↦
        if ltb null_at room || spare room
        then (elim (launch s.env s.limits cmd s.world) [
          | fork_failed ↦ goes s
          | exec_failed ↦ splits (say (exec_error ∷ []) s) s.limits (waited line_number cmd)
          | ran exited world ↦
              goes (say (waited line_number cmd exited) (record s { world = world }))
        ])
        else killed s
  ]

  unfoldable pub evaluate :
      (spare : ℕ → Bool)
      → (Env → L → List Text → W → Launched W)
      → Text
      → ℕ
      → Shell L W
      → Outcome L W
  unfolding add_variable exec_command
  evaluate spare launch [] line_number s = exec_command spare launch [] line_number s
  evaluate spare launch (c ∷ rest) line_number s =
      if c == b'#'
      then goes (add_variable rest s)
      else exec_command spare launch (c ∷ rest) line_number s

  abbrev pub shell_of : Ended L W → Shell L W
  shell_of (returned s) = s
  shell_of (crashed s) = s

  abbrev pub exited_of : Ended L W → Bool
  exited_of (returned s) = true
  exited_of (crashed s) = false

  -- The parent behind `waitpid`: its environment is that of the fork, and its limits its own.
  abbrev pub resume : Shell L W → L → (Bool → List Event) → Ended L W → Shell L W
  resume child back message c = record {
    env = child.env;
    limits = back;
    world = (shell_of c).world;
    output = (shell_of c).output ++ message (exited_of c);
  }

  -- The loop of `main` over the lines of the file; `close` is what it prints behind each.
  unfoldable pub interpret :
      (Text → ℕ → Shell L W → Outcome L W)
      → (close : List Event) → List Text
      → ℕ
      → Shell L W
      → Ended L W
  interpret evaluate close [] line_number s = returned s
  interpret evaluate close (line ∷ lines) line_number s =
      elim (evaluate line line_number (say (echo line ∷ []) s)) [
        | goes t ↦ interpret evaluate close lines (line_number + 1) (say close t)
        | splits child back message ↦
            let c = interpret evaluate close lines (line_number + 1) (say close child) in
            interpret evaluate close lines (line_number + 1)
              (say close (resume child back message c))
        | killed t ↦ crashed t
      ]

  unfoldable pub main :
      (spare : ℕ → Bool)
      → (Env → L → List Text → W → Launched W)
      → List Text
      → Shell L W
      → Ended L W
  unfolding evaluate interpret
  main spare launch lines s = interpret (evaluate spare launch) [] lines 1 s
