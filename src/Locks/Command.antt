-- ===== src/Locks/Command.antt =====
-- The loop of `main` over the typed commands. A word is stored with its terminator in a variable; where
-- that and the spare bytes behind it have no room for it, other variables are overwritten, and there
-- is no more to say of the run. At the end of the input `scanf` changes nothing.
use Prim.Native.String.{String}
use text.Mathlib.Text.{◌==◌ as str_eq}
use systemy_operacyjne_c.Base.{
  ◌+◌, ltb, length, ℕ, zero, suc, Bool, true, false, ◌||◌, List, [], ◌∷◌, Option, none, some,
  if◌then◌else◌,
}
use systemy_operacyjne_c.Base.Text.{codes}
use systemy_operacyjne_c.Base.Int.{ℤ, pos, negsuc, minus_one}
use systemy_operacyjne_c.Locks.{
  Variable, command_word, symbol_word, read_or_write_word, single_or_wait_word, size, System,
  Session, LockType, f_rdlck, f_wrlck, f_unlck, Printed, read_lock_on, write_lock_on, unlocked,
  unable, wrong_command, available, unknown,
}
use systemy_operacyjne_c.Locks.Calls.{print, lock_request, readf, overwrite, print_locks}

-- `scanf("%s", ...)` to a variable with `room` bytes: the next word, or the old one at the end of the
-- input; `none` where the word and its terminator have no room.
abbrev pub scan_word : (room : ℕ) → List String → String → Option (String × List String)
scan_word room [] old = some (old, [])
scan_word room (w ∷ ws) old = if ltb (length (codes w)) room then some (w, ws) else none

-- `scanf` of a number: a word that does not match stays in the input.
abbrev pub scan_int : (String → Option ℤ) → List String → ℤ → ℤ × List String
scan_int number [] old = (old, [])
scan_int number (w ∷ ws) old = elim (number w) [ none ↦ (old, w ∷ ws) | some z ↦ (z, ws) ]

-- `scanf("%s",&symbol)`: the first byte of the next word.
abbrev pub scan_symbol : (room : ℕ) → List String → ℕ → Option (ℕ × List String)
scan_symbol room [] old = some (old, [])
scan_symbol room (w ∷ ws) old =
    if ltb (length (codes w)) room then some (elim (codes w) [ [] ↦ 0 | c ∷ _ ↦ c ], ws) else none

-- `if(result>=0)` with the two messages.
abbrev pub tell : {K : Type 0} → (ℤ → Printed) → ℤ × Session K → Session K
tell done (pos n, s) = print (done (pos n)) s
tell done (negsuc n, s) = print unable s

-- How the loop ends within a number of rounds: not yet, behind its test, or by a word that overwrites
-- other variables.
pub data Ended (K : Type 0) : Type 0 where
  goes_on : Ended K
  quit_ : Session K → Ended K
  overran : Ended K

abbrev pub quits : {K : Type 0} → Session K → Bool
quits s = str_eq s.command "quit" || str_eq s.command "q"

module _ {K : Type 0} (sys : System K) where
  abbrev pub room : Variable → ℕ
  room v = size v + sys.spare v

  abbrev pub next_command : Session K → Option (Session K)
  next_command s = elim (scan_word (room command_word) s.input s.command) [
    | none ↦ none
    | some (command, input) ↦
        some (record s { command = command; input = input; round = s.round + 1 })
  ]

  unfoldable pub read_command : Session K → Session K
  read_command s =
      let (offset, input) = scan_int sys.decimal s.input s.offset in
      readf sys offset (record s { offset = offset; input = input })

  unfoldable pub overwrite_command : Session K → Option (Session K)
  overwrite_command s =
      let (tmp, after) = scan_int sys.any_base s.input (pos 0) in
      elim (scan_symbol (room symbol_word) after s.symbol) [
        | none ↦ none
        | some (symbol, input) ↦
            some (overwrite sys tmp symbol (record s { symbol = symbol; input = input })).1
      ]

  -- `scanf("%i",&offset)` and the request.
  abbrev pub request : (wait : Bool) → LockType → Session K → ℤ × Session K
  request wait type s =
      let (offset, input) = scan_int sys.any_base s.input s.offset in
      lock_request sys wait type offset (record s { offset = offset; input = input })

  -- `lock read` and `lock write` behind their third word, which is now in `single_or_wait`.
  unfoldable pub lock_as : LockType → (ℤ → Printed) → Session K → Session K
  lock_as type done t =
      if str_eq t.single_or_wait "single"
      then tell done (request false type t)
      else if str_eq t.single_or_wait "wait"
      then tell done (request true type t)
      else tell done (minus_one, print wrong_command t)

  -- The same with the scan of that word.
  unfoldable pub lock_kind : LockType → (ℤ → Printed) → Session K → Option (Session K)
  unfolding lock_as
  lock_kind type done s = elim (scan_word (room single_or_wait_word) s.input s.single_or_wait) [
    | none ↦ none
    | some (single_or_wait, input) ↦
        some (lock_as type done (record s { single_or_wait = single_or_wait; input = input }))
  ]

  unfoldable pub lock_command : Session K → Option (Session K)
  unfolding lock_kind
  lock_command s = elim (scan_word (room read_or_write_word) s.input s.read_or_write) [
    | none ↦ none
    | some (read_or_write, input) ↦
        let t = record s { read_or_write = read_or_write; input = input } in
        if str_eq read_or_write "read"
        then lock_kind f_rdlck read_lock_on t
        else if str_eq read_or_write "write"
        then lock_kind f_wrlck write_lock_on t
        else some (print wrong_command t)
  ]

  -- What follows `scanf("%s",command)`.
  unfoldable pub obey : Session K → Option (Session K)
  obey s =
      let is = str_eq s.command in
      if is "help"
      then some (print available s)
      else if is "read" || is "r"
      then some (read_command s)
      else if is "overwrite" || is "ow"
      then overwrite_command s
      else if is "lock"
      then lock_command s
      else if is "unlock"
      then some (tell unlocked (request false f_unlck s))
      else if is "printlocks" || is "pl"
      then some (print_locks sys s).1
      else some (print unknown s)

  -- The body of the loop.
  unfoldable pub step : Session K → Option (Session K)
  unfolding obey
  step s = elim (next_command s) [ none ↦ none | some t ↦ obey t ]

  -- The loop for at most `rounds` rounds. The word `quit` itself is obeyed before the loop tests it:
  -- it is an unknown command.
  unfoldable pub loop : (rounds : ℕ) → Session K → Ended K
  unfolding step
  loop zero s = if quits s then quit_ s else goes_on
  loop (suc rounds) s =
      let rest : Ended K = elim (step s) [ none ↦ overran | some t ↦ loop rounds t ] in
      if quits s then quit_ s else rest
