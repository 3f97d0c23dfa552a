-- ===== src/Batch.antt =====
-- cw03: the interpreter of a file of commands; zad2 runs the commands under limits.
pub mod Strtok
pub mod Environment
pub mod Parse
pub mod Run
pub mod Limited
pub mod Words
pub mod Variables
pub mod Doubling
pub mod Limits
mod Tests
use systemy_operacyjne_c.Base.{ℕ, Bool, true, false, ◌&&◌, List, [], ◌∷◌, ◌==◌}

-- A string without its terminator.
abbrev pub Text : Type 0
Text = List ℕ

abbrev pub text_eq : Text → Text → Bool
text_eq [] [] = true
text_eq (a ∷ s) (b ∷ t) = (a == b) && text_eq s t
text_eq _ _ = false
