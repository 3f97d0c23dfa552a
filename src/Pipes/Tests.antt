-- ===== src/Pipes/Tests.antt =====
-- A line of two commands.
use systemy_operacyjne_c.Base.{
  ℕ, ◌≡◌, refl, false, List, [], ◌∷◌, some, length, get_elem?, take, map, min, arith,
}
use systemy_operacyjne_c.Base.Text.{codes}
use systemy_operacyjne_c.Batch.{Text}
use systemy_operacyjne_c.Batch.Strtok.{IsWord}
use systemy_operacyjne_c.Pipes.{standard, exec_line, max_cmds}
use systemy_operacyjne_c.Pipes.Words.{spaced, joined, special, IsCommand}
use systemy_operacyjne_c.Pipes.Laws.{reads, writes, stage, exec_line-joined}

abbrev ls_wc : List (List Text)
ls_wc = (codes "ls" ∷ codes "-l" ∷ []) ∷ (codes "wc" ∷ []) ∷ []

two_letters : (a b : ℕ) → special a ≡ false → special b ≡ false → IsWord special (a ∷ b ∷ [])
two_letters a b ea eb = record { some_byte = omega arith; no_delim = (ea, (eb, tt)) }

ls-IsCommand : IsCommand (codes "ls" ∷ codes "-l" ∷ [])
ls-IsCommand = record {
  some_word = omega arith;
  clean = (two_letters b'l' b's' refl refl, (two_letters b'-' b'l' refl refl, tt));
}

wc-IsCommand : IsCommand (codes "wc" ∷ [])
wc-IsCommand = record { some_word = omega arith; clean = (two_letters b'w' b'c' refl refl, tt) }

exec_line-joined_example :
    (length (exec_line (joined (map spaced ls_wc))) ≡ min max_cmds 2)
    × (get_elem? (exec_line (joined (map spaced ls_wc))) 1
        ≡ some (
            stage
              (codes "wc" ∷ [])
              (reads 0 standard 1)
              (writes 0 1 (length (take max_cmds ls_wc)))))
exec_line-joined_example =
    exec_line-joined ls_wc 1 (codes "wc" ∷ []) (ls-IsCommand, (wc-IsCommand, tt)) refl
