-- ===== src/Batch/Limits.antt =====
-- Under which limits the processes of zad2 run.
use systemy_operacyjne_c.Base.{
  ℕ, ◌+◌, ◌≡◌, ◌∙◌, refl, List, [], ◌∷◌, ◌==◌, arith, inl, inr, Bool-cases,
}
use systemy_operacyjne_c.Batch.{Text}
use systemy_operacyjne_c.Batch.Run.{
  Event, echo, newline, Shell, Outcome, goes, splits, killed, shell_of, resume, say, add_variable,
  interpret,
}
use systemy_operacyjne_c.Batch.Limited.{System, child, exec_command, evaluate, main}

module _ {L W : Type 0} where
  -- The process that goes on as the parent has the limits `l`.
  abbrev Keeps : L → Outcome L W → Type 0
  Keeps l (goes t) = t.limits ≡ l
  Keeps l (splits child back message) = back ≡ l
  Keeps l (killed t) = t.limits ≡ l

  module _ (ev : Text → ℕ → Shell L W → Outcome L W) (close : List Event)
      (keeps : (line : Text) (n : ℕ) (s : Shell L W) → Keeps s.limits (ev line n s)) where
    -- One line, by what it ends with, ahead of lines that keep the limits.
    line-Keeps :
        (line : Text) (lines : List Text) (n : ℕ) (s : Shell L W)
        → ((t : Shell L W) → (shell_of (interpret ev close lines (n + 1) t)).limits ≡ t.limits)
        → (o : Outcome L W) → ev line n (say (echo line ∷ []) s) ≡ o
        → Keeps s.limits o
        → (shell_of (interpret ev close (line ∷ lines) n s)).limits ≡ s.limits
    unfolding interpret
    line-Keeps line lines n s rest (goes t) e k = rw (e, interpret) (rest (say close t) ∙ k)
    line-Keeps line lines n s rest (splits child back message) e k =
        rw (e, interpret)
          (rest (
              say close
                (resume child back message (interpret ev close lines (n + 1) (say close child))))
            ∙ k)
    line-Keeps line lines n s rest (killed t) e k = rw (e, interpret) k

    interpret-Keeps :
        (lines : List Text) (n : ℕ) (s : Shell L W)
        → (shell_of (interpret ev close lines n s)).limits ≡ s.limits
    unfolding interpret
    interpret-Keeps [] n s = refl
    interpret-Keeps (line ∷ lines) n s =
        let said = say (echo line ∷ []) s in
        line-Keeps line lines n s (interpret-Keeps lines (n + 1)) (ev line n said) refl
          (keeps line n said)

  module _ (sys : System L W) (cpu_limit mem_limit : ℕ) where
    add_variable-limits : (rest : Text) (s : Shell L W) → (add_variable rest s).limits ≡ s.limits
    unfolding add_variable
    add_variable-limits rest s = ground arith

    child-Keeps :
        (cmd : List Text) (n : ℕ) (s : Shell L W)
        → Keeps s.limits (child sys cpu_limit mem_limit cmd n s)
    unfolding child
    child-Keeps cmd n s = ground arith

    exec_command-Keeps :
        (line : Text) (n : ℕ) (s : Shell L W)
        → Keeps s.limits (exec_command sys cpu_limit mem_limit line n s)
    unfolding exec_command
    exec_command-Keeps line n s = ground arith

    evaluate-Keeps :
        (line : Text) (n : ℕ) (s : Shell L W)
        → Keeps s.limits (evaluate sys cpu_limit mem_limit line n s)
    unfolding evaluate
    evaluate-Keeps [] n s = exec_command-Keeps [] n s
    evaluate-Keeps (c ∷ cs) n s = elim (Bool-cases (c == b'#')) [
      | inl e ↦ rw e (add_variable-limits cs s)
      | inr e ↦ rw e (exec_command-Keeps (c ∷ cs) n s)
    ]

    -- The limits that zad2 sets are those of the children alone: whatever the lines of the file do, the
    -- process that reads them ends with the limits that it started with.
    pub main_keeps_limits :
        (lines : List Text) (s : Shell L W)
        → (shell_of (main sys cpu_limit mem_limit lines s)).limits ≡ s.limits
    unfolding main
    main_keeps_limits lines s =
        interpret-Keeps (evaluate sys cpu_limit mem_limit) (newline ∷ []) evaluate-Keeps lines 1 s
