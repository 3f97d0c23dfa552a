-- ===== src/Pipes/Words.antt =====
-- A line comes apart into its commands, and a command into its words.
use systemy_operacyjne_c.Base.{
  ℕ, zero, suc, ◌<◌, ◌≡◌, refl, ap, ◌∙◌, Bool, false, ◌||◌, List, [], ◌∷◌, ◌++◌, some, All, length,
  take, length-append, map, arith,
}
use systemy_operacyjne_c.Batch.{Text}
use systemy_operacyjne_c.Batch.Strtok.{cut, strtok, IsWord, strtok-word}
use systemy_operacyjne_c.Pipes.{bar, blank, tokens, max_cmds}

-- The words of a command, a blank behind each.
abbrev pub spaced : List Text → Text
spaced [] = []
spaced (w ∷ ws) = w ++ (b' ' ∷ spaced ws)

-- The commands of a line, a bar between any two.
abbrev pub joined : List Text → Text
joined [] = []
joined (c ∷ []) = c
joined (c ∷ d ∷ cs) = c ++ (b'|' ∷ joined (d ∷ cs))

cut_whole : (delim : ℕ → Bool) (w : Text) → All (λ c. delim c ≡ false) w → cut delim w ≡ (w, [])
cut_whole delim [] a = refl
cut_whole delim (c ∷ cs) a = ground (arith, a.0, cut_whole delim cs a.1)

strtok-last : (delim : ℕ → Bool) (w : Text) → IsWord delim w → strtok delim w ≡ some (w, [])
unfolding strtok
strtok-last delim [] v = absurd (ground (arith, v.some_byte))
strtok-last delim (c ∷ cs) v = ground (arith, v.no_delim.0, cut_whole delim cs v.no_delim.1)

tokens_end : (delim : ℕ → Bool) (n : ℕ) → tokens delim n [] ≡ []
unfolding tokens strtok
tokens_end delim zero = refl
tokens_end delim (suc n) = refl

take_nil : (n : ℕ) → take {A = Text} n [] ≡ []
take_nil zero = refl
take_nil (suc n) = refl

pub tokens-spaced :
    (n : ℕ) (ws : List Text) → All (IsWord blank) ws → tokens blank n (spaced ws) ≡ take n ws
unfolding tokens
tokens-spaced zero ws v = refl
tokens-spaced (suc n) [] v = tokens_end blank (suc n)
tokens-spaced (suc n) (w ∷ ws) v =
    ground (arith, strtok-word blank w b' ' (spaced ws) v.0 refl, tokens-spaced n ws v.1)

tokens-joined :
    (n : ℕ) (cs : List Text) → All (IsWord bar) cs → tokens bar n (joined cs) ≡ take n cs
unfolding tokens
tokens-joined zero cs v = refl
tokens-joined (suc n) [] v = tokens_end bar (suc n)
tokens-joined (suc n) (c ∷ []) v =
    ground (arith, strtok-last bar c v.0, tokens_end bar n, take_nil n)
tokens-joined (suc n) (c ∷ d ∷ cs) v =
    ground (arith, strtok-word bar c b'|' (joined (d ∷ cs)) v.0 refl, tokens-joined n (d ∷ cs) v.1)

abbrev pub special : ℕ → Bool
special c = blank c || bar c

-- A command of the line: at least one word, and no blank or bar in any.
pub record IsCommand (ws : List Text) : Type 0 where
  pub some_word : 0 < length ws
  pub clean : All (IsWord special) ws

no_special :
    (delim : ℕ → Bool) (w : Text)
    → ((c : ℕ) → special c ≡ false → delim c ≡ false)
    → All (λ c. special c ≡ false) w
    → All (λ c. delim c ≡ false) w
no_special delim [] sub a = tt
no_special delim (c ∷ cs) sub a = (sub c a.0, no_special delim cs sub a.1)

pub words_blank : (ws : List Text) → All (IsWord special) ws → All (IsWord blank) ws
words_blank [] a = tt
words_blank (w ∷ ws) a = (
  record {
    some_byte = a.0.some_byte;
    no_delim = no_special blank w (λ c e. ground arith) a.0.no_delim;
  },
  words_blank ws a.1,
)

All-append : (P : ℕ → Type 0) (xs ys : Text) → All P xs → All P ys → All P (xs ++ ys)
All-append P [] ys a b = b
All-append P (x ∷ xs) ys a b = (a.0, All-append P xs ys a.1 b)

spaced_no_bar : (ws : List Text) → All (IsWord special) ws → All (λ c. bar c ≡ false) (spaced ws)
spaced_no_bar [] a = tt
spaced_no_bar (w ∷ ws) a =
    All-append (λ c. bar c ≡ false) w (b' ' ∷ spaced ws)
      (no_special bar w (λ c e. ground arith) a.0.no_delim) (refl, spaced_no_bar ws a.1)

spaced-IsWord : (ws : List Text) → IsCommand ws → IsWord bar (spaced ws)
spaced-IsWord [] v = absurd (omega (arith, v.some_word))
spaced-IsWord (w ∷ ws) v = record {
  some_byte = omega (arith, length-append w (b' ' ∷ spaced ws));
  no_delim = spaced_no_bar (w ∷ ws) v.clean;
}

commands-IsWord : (css : List (List Text)) → All IsCommand css → All (IsWord bar) (map spaced css)
commands-IsWord [] a = tt
commands-IsWord (ws ∷ css) a = (spaced-IsWord ws a.0, commands-IsWord css a.1)

take-map : (n : ℕ) (css : List (List Text)) → take n (map spaced css) ≡ map spaced (take n css)
take-map zero css = refl
take-map (suc n) [] = refl
take-map (suc n) (ws ∷ css) = ap (λ l. spaced ws ∷ l) (take-map n css)

pub take-IsCommand :
    (n : ℕ) (css : List (List Text)) → All IsCommand css → All IsCommand (take n css)
take-IsCommand zero css a = tt
take-IsCommand (suc n) [] a = tt
take-IsCommand (suc n) (ws ∷ css) a = (a.0, take-IsCommand n css a.1)

pub commands_of :
    (css : List (List Text))
    → All IsCommand css
    → tokens bar max_cmds (joined (map spaced css)) ≡ map spaced (take max_cmds css)
commands_of css a =
    tokens-joined max_cmds (map spaced css) (commands-IsWord css a) ∙ take-map max_cmds css
