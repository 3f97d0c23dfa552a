-- ===== src/Batch/Limited.antt =====
-- cw03/zad2/main.c: each command runs under a limit of processor time and of memory.
use systemy_operacyjne_c.Base.{
  ℕ, ◌*◌, ◌/◌, Bool, List, [], ◌∷◌, Option, none, some, if◌then◌else◌, ◌==◌, ◌||◌, ltb,
}
use systemy_operacyjne_c.Batch.{Text}
use systemy_operacyjne_c.Batch.Environment.{Env}
use systemy_operacyjne_c.Batch.Parse.{
  null_command, out_of_fuel, too_many_arguments, command, parse_command,
}
use systemy_operacyjne_c.Batch.Run.{
  Event, Shell, Outcome, goes, splits, killed, Ended, say, add_variable, interpret, too_many_args,
  exec_error, setrlimit_error, error_in_line, times, newline,
}

pub data Resource : Type 0 where
  rlimit_cpu rlimit_as : Resource

-- `struct rlimit`.
pub record Rlimit : Type 0 where
  pub rlim_cur : ℕ
  pub rlim_max : ℕ

abbrev pub cpu_rlimit : ℕ → Rlimit
cpu_rlimit cpu_limit = record { rlim_max = cpu_limit; rlim_cur = cpu_limit / 10 }

abbrev pub mem_rlimit : ℕ → Rlimit
mem_rlimit mem_limit = record { rlim_max = mem_limit; rlim_cur = mem_limit / 4 }

-- `((rlim_t)atoi(argv[3]))*10e6`: ten million times the argument.
abbrev pub mem_limit_of : ℕ → ℕ
mem_limit_of megabytes = megabytes * 10000000

-- `set_limit` is `setrlimit` on the limits of the calling process, `none` where it fails. `forks`
-- says whether `fork` succeeds. `exec` is `execvp` in the child, `none` where it fails, or whether
-- the command exited and what it left. `spare` says whether the block for so many entries of `cmd`
-- holds one more, as in Run.antt.
pub record System (L W : Type 0) : Type 0 where
  pub set_limit : Resource → Rlimit → L → Option L
  pub forks : W → Bool
  pub spare : ℕ → Bool
  pub exec : Env → L → List Text → W → Option (Bool × W)

-- The message of the parent behind `wait4`.
abbrev pub waited : ℕ → List Text → Bool → List Event
waited line_number cmd exited =
    if exited then times ∷ times ∷ [] else error_in_line line_number cmd ∷ []

module _ {L W : Type 0} (sys : System L W) (cpu_limit mem_limit : ℕ) where
  -- The child behind the fork.
  unfoldable pub child : List Text → ℕ → Shell L W → Outcome L W
  child cmd line_number s = elim (sys.set_limit rlimit_cpu (cpu_rlimit cpu_limit) s.limits) [
    | none ↦ splits (say (setrlimit_error ∷ []) s) s.limits (waited line_number cmd)
    | some with_cpu ↦ elim (sys.set_limit rlimit_as (mem_rlimit mem_limit) with_cpu) [
      | none ↦
          splits (say (setrlimit_error ∷ []) (record s { limits = with_cpu })) s.limits
            (waited line_number cmd)
      | some with_mem ↦ elim (sys.exec s.env with_mem cmd s.world) [
        | none ↦
            splits (say (exec_error ∷ []) (record s { limits = with_mem })) s.limits
              (waited line_number cmd)
        | some (exited, world) ↦
            goes (say (waited line_number cmd exited) (record s { world = world }))
      ]
    ]
  ]

  unfoldable pub exec_command : Text → ℕ → Shell L W → Outcome L W
  unfolding child
  exec_command line line_number s = elim (parse_command line) [
    | out_of_fuel ↦ killed s
    | null_command ↦ killed s
    | too_many_arguments ↦ goes (say (too_many_args ∷ []) s)
    | command cmd room null_at ↦
        let forked = if sys.forks s.world then child cmd line_number s else goes s in
        if ltb null_at room || sys.spare room then forked else killed s
  ]

  unfoldable pub evaluate : Text → ℕ → Shell L W → Outcome L W
  unfolding exec_command
  evaluate [] line_number s = exec_command [] line_number s
  evaluate (c ∷ rest) line_number s =
      if c == b'#' then goes (add_variable rest s) else exec_command (c ∷ rest) line_number s

  unfoldable pub main : List Text → Shell L W → Ended L W
  unfolding evaluate
  main lines s = interpret evaluate (newline ∷ []) lines 1 s
