-- ===== src/Batch/Environment.antt =====
-- `setenv` and `unsetenv`: a name that is empty or has an equals sign is refused.
use systemy_operacyjne_c.Base.{
  Bool, true, false, ◌||◌, List, [], ◌∷◌, Option, none, some, if◌then◌else◌, ◌==◌,
}
use systemy_operacyjne_c.Batch.{Text, text_eq}

abbrev pub Env : Type 0
Env = List (Text × Text)

abbrev pub lookup : Text → Env → Option Text
lookup name [] = none
lookup name ((key, value) ∷ env) =
    let rest = lookup name env in if text_eq key name then some value else rest

abbrev pub remove : Text → Env → Env
remove name [] = []
remove name ((key, value) ∷ env) =
    let rest = remove name env in if text_eq key name then rest else (key, value) ∷ rest

abbrev pub has_equals : Text → Bool
has_equals [] = false
has_equals (c ∷ cs) = (c == b'=') || has_equals cs

abbrev pub refused : Text → Bool
refused [] = true
refused (c ∷ cs) = has_equals (c ∷ cs)

-- `none` where the call fails.
abbrev pub set_env : Text → Text → Env → Option Env
set_env name value env = if refused name then none else some ((name, value) ∷ remove name env)

abbrev pub unset_env : Text → Env → Option Env
unset_env name env = if refused name then none else some (remove name env)
