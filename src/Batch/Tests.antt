-- ===== src/Batch/Tests.antt =====
-- Short files of commands.
use systemy_operacyjne_c.Base.{
  ℕ, ◌+◌, ◌≤◌, ◌<◌, ◌≡◌, ◌⊎◌, refl, Bool, true, false, List, [], ◌∷◌, ◌++◌, none, some,
  if◌then◌else◌, All, length, ltb, arith,
}
use systemy_operacyjne_c.Base.Text.{codes}
use systemy_operacyjne_c.Batch.{Text, text_eq}
use systemy_operacyjne_c.Batch.Strtok.{strtok, IsWord}
use systemy_operacyjne_c.Batch.Environment.{Env, lookup}
use systemy_operacyjne_c.Batch.Parse.{
  blank, value_end, arguments, parse_command, null_command, too_many_arguments, command,
}
use systemy_operacyjne_c.Batch.Run.{
  Shell, Launched, exec_failed, ran, returned, shell_of, add_variable, main,
}
use systemy_operacyjne_c.Batch.Limited.{System, main as limited_main}
use systemy_operacyjne_c.Batch.Words.{line_of, parse_command-line_of, parse_command_lem}
use systemy_operacyjne_c.Batch.Variables.{add_variable_lem}
use systemy_operacyjne_c.Batch.Doubling.{echoes, readings, IsRoomy, main_rereads}
use systemy_operacyjne_c.Batch.Limits.{main_keeps_limits}

abbrev ls_l : List Text
ls_l = codes "ls" ∷ codes "-l" ∷ []

ls-IsWord : IsWord blank (codes "ls")
ls-IsWord = record { some_byte = omega arith; no_delim = (refl, (refl, tt)) }

flag-IsWord : IsWord blank (codes "-l")
flag-IsWord = record { some_byte = omega arith; no_delim = (refl, (refl, tt)) }

parse_command-line_of_example :
    ((1 ≤ 10) × (parse_command (line_of ls_l) ≡ command ls_l 2 2))
    ⊎ ((10 < 1) × (parse_command (line_of ls_l) ≡ too_many_arguments))
parse_command-line_of_example =
    parse_command-line_of (codes "ls") (codes "-l" ∷ []) (ls-IsWord, (flag-IsWord, tt))

parse_command_lem_example :
    ((parse_command (codes "ls -l\n") ≡ null_command) × All (λ c. blank c ≡ true) (codes "ls -l\n"))
    ⊎ (parse_command (codes "ls -l\n") ≡ too_many_arguments)
    ⊎ ((cmd : List Text) × (parse_command (codes "ls -l\n") ≡ command cmd (length cmd) (length cmd))
        × (1 ≤ length cmd)
        × (length cmd ≤ 11))
parse_command_lem_example = parse_command_lem (codes "ls -l\n")

abbrev shell : Shell ℕ ℕ
shell = record { env = (codes "HOME", codes "/") ∷ []; limits = 7; world = 0; output = [] }

home-IsWord : IsWord blank (codes "HOME")
home-IsWord = record { some_byte = omega arith; no_delim = (refl, (refl, (refl, (refl, tt)))) }

place-IsWord : IsWord value_end (codes "a b")
place-IsWord = record { some_byte = omega arith; no_delim = (refl, (refl, (refl, tt))) }

abbrev set_home : Shell ℕ ℕ
set_home = add_variable (codes "HOME" ++ (b' ' ∷ (codes "a b" ++ (b'\n' ∷ [])))) shell

abbrev unset_home : Shell ℕ ℕ
unset_home = add_variable (codes "HOME" ++ (b'\n' ∷ [])) shell

add_variable_lem_example :
    (lookup (codes "HOME") set_home.env ≡ some (codes "a b"))
    × (lookup (codes "HOME") unset_home.env ≡ none)
    × ((text_eq (codes "HOME") (codes "PATH") ≡ true)
        ⊎ ((lookup (codes "PATH") set_home.env ≡ lookup (codes "PATH") shell.env)
            × (lookup (codes "PATH") unset_home.env ≡ lookup (codes "PATH") shell.env)))
    × (set_home.output ≡ [])
    × (unset_home.output ≡ [])
add_variable_lem_example =
    add_variable_lem (codes "HOME") (codes "a b") (codes "PATH") shell home-IsWord refl place-IsWord

-- All commands but `ls` are missing.
abbrev missing : List Text → Bool
missing [] = true
missing (name ∷ _) = if text_eq name (codes "ls") then false else true

abbrev launch : Env → ℕ → List Text → ℕ → Launched ℕ
launch env limits cmd world = if missing cmd then exec_failed else ran true (world + 1)

-- The blocks of the allocator hold at least three entries.
abbrev roomy : ℕ → Bool
roomy entries = ltb entries 3

abbrev batch : List Text
batch = codes "lx\n" ∷ codes "ls\n" ∷ []

one : parse_command (codes "lx\n") ≡ command (codes "lx" ∷ []) 1 1
unfolding parse_command strtok arguments
one = refl

two : parse_command (codes "ls\n") ≡ command (codes "ls" ∷ []) 1 1
unfolding parse_command strtok arguments
two = refl

-- The second line is read by both processes.
three : readings missing batch ≡ 3
unfolding parse_command strtok arguments
three = refl

one_fits :
    IsRoomy missing roomy launch
      (λ env l cmd w e. (true, w + 1, rw e refl))
      (λ env l cmd w e. rw e refl)
      (codes "lx\n")
one_fits = (λ e. ground (arith, one), λ cmd room null_at e. ground (arith, one, e))

two_fits :
    IsRoomy missing roomy launch
      (λ env l cmd w e. (true, w + 1, rw e refl))
      (λ env l cmd w e. rw e refl)
      (codes "ls\n")
two_fits = (λ e. ground (arith, two), λ cmd room null_at e. ground (arith, two, e))

main_rereads_example :
    (t : Shell ℕ ℕ) × (main roomy launch batch shell ≡ returned t)
    × (echoes t.output ≡ 0 + readings missing batch)
main_rereads_example =
    main_rereads missing roomy launch (λ env l cmd w e. (true, w + 1, rw e refl))
      (λ env l cmd w e. rw e refl) batch shell (one_fits, (two_fits, tt))

abbrev system : System ℕ ℕ
system = record {
  set_limit = λ resource limit limits. some (limits + limit.rlim_cur);
  forks = λ world. true;
  spare = roomy;
  exec = λ env limits cmd world. if missing cmd then none else some (true, world + 1);
}

main_keeps_limits_example : (shell_of (limited_main system 50 500 batch shell)).limits ≡ 7
main_keeps_limits_example = main_keeps_limits system 50 500 batch shell
