-- ===== src/Locks/Rounds.antt =====
-- What the commands do to the words that are left and to the last command: one round of the loop.
use Prim.Native.String.{String}
use text.Mathlib.Text.{◌==◌ as str_eq}
use systemy_operacyjne_c.Base.{
  ◌<◌, ltb, [], ◌∷◌, dec_lt, ℕ, ◌+◌, ◌≤◌, ◌≡◌, ◌⊎◌, inl, inr, refl, ◌∙◌, Bool, true, false, ◌||◌,
  if◌then◌else◌, List, Option, none, some, length, arith, Bool-cases,
}
use systemy_operacyjne_c.Base.Int.{ℤ, pos}
use systemy_operacyjne_c.Base.Text.{codes}
use systemy_operacyjne_c.Locks.{
  command_word, symbol_word, read_or_write_word, single_or_wait_word, wrong_command, System,
  Session, LockType, f_rdlck, f_wrlck, f_unlck, Printed, read_lock_on, write_lock_on, unlocked,
  available, unknown,
}
use systemy_operacyjne_c.Locks.Calls.{print, lock_request, readf, overwrite, print_locks}
use systemy_operacyjne_c.Locks.Command.{
  scan_word, scan_int, scan_symbol, read_command, overwrite_command, lock_as, lock_kind,
  lock_command, request, tell, obey, room, step,
}

module _ {K : Type 0} where
  -- The second state has the command of the first, and what is left of its input.
  record Goes (s t : Session K) : Type 0 where
    kept : t.command ≡ s.command
    left : length t.input ≤ length s.input

  -- Both branches of a test.
  if-Goes : (b : Bool) {s x y : Session K} → Goes s x → Goes s y → Goes s (if b then x else y)
  if-Goes true gx gy = gx
  if-Goes false gx gy = gy

  -- No room for a word only if one is left; else as above.
  abbrev GoesTo : Session K → Option (Session K) → Type 0
  GoesTo s none = 0 < length s.input
  GoesTo s (some t) = Goes s t

  if-GoesTo :
      (b : Bool) (s : Session K) (x y : Option (Session K))
      → GoesTo s x
      → GoesTo s y
      → GoesTo s (if b then x else y)
  if-GoesTo true s x y gx gy = gx
  if-GoesTo false s x y gx gy = gy

  Goes-trans : {s t u : Session K} → Goes s t → Goes t u → Goes s u
  Goes-trans g h = record { kept = h.kept ∙ g.kept; left = omega (arith, g.left, h.left) }

  GoesTo-trans : {s t : Session K} → Goes s t → (o : Option (Session K)) → GoesTo t o → GoesTo s o
  GoesTo-trans g none h = omega (arith, g.left, h)
  GoesTo-trans g (some u) h = Goes-trans g h

  print-Goes : (p : Printed) (s : Session K) → Goes s (print p s)
  print-Goes p s = record { kept = refl; left = omega arith }

  module _ (sys : System K) where
    readf-Goes : (z : ℤ) (s : Session K) → Goes s (readf sys z s)
    unfolding readf
    readf-Goes z s = record { kept = ground arith; left = ground arith }

    overwrite-Goes : (z : ℤ) (c : ℕ) (s : Session K) → Goes s (overwrite sys z c s).1
    unfolding overwrite
    overwrite-Goes z c s = record { kept = ground arith; left = ground arith }

    lock_request-Goes :
        (wait : Bool) (type : LockType) (z : ℤ) (s : Session K)
        → Goes s (lock_request sys wait type z s).1
    unfolding lock_request
    lock_request-Goes wait type z s = record { kept = ground arith; left = ground arith }

    scan_int-length :
        (number : String → Option ℤ) (input : List String) (old : ℤ)
        → length (scan_int number input old).1 ≤ length input
    scan_int-length number input old = ground arith

    scan_symbol-left :
        (n : ℕ) (input : List String) (old : ℕ)
        → ((scan_symbol n input old ≡ none) × (0 < length input))
          ⊎ ((r : ℕ × List String) × (scan_symbol n input old ≡ some r)
              × (length r.1 ≤ length input))
    scan_symbol-left n [] old = inr ((old, []), refl, omega arith)
    scan_symbol-left n (w ∷ ws) old = elim (Bool-cases (ltb (length (codes w)) n)) [
      | inl h ↦ inr ((elim (codes w) [ [] ↦ 0 | c ∷ _ ↦ c ], ws), rw h refl, omega arith)
      | inr h ↦ inl (rw h refl, omega arith)
    ]

    scan_word-left :
        (n : ℕ) (input : List String) (old : String)
        → ((scan_word n input old ≡ none) × (0 < length input))
          ⊎ ((r : String × List String) × (scan_word n input old ≡ some r)
              × (length r.1 ≤ length input)
              × ((length input ≡ 0) → r.0 ≡ old)
              × ((0 < length input) → length r.1 < length input))
    scan_word-left n [] old =
        inr ((old, []), refl, omega arith, (λ e. refl), (λ h. absurd (omega (arith, h))))
    scan_word-left n (w ∷ ws) old = elim (Bool-cases (ltb (length (codes w)) n)) [
      | inl h ↦
          inr
            ((w, ws), rw h refl, omega arith, (λ e. absurd (omega (arith, e))), (λ _. omega arith))
      | inr h ↦ inl (rw h refl, omega arith)
    ]

    read_command-Goes : (s : Session K) → Goes s (read_command sys s)
    unfolding read_command
    read_command-Goes s =
        let (offset, input) = scan_int sys.decimal s.input s.offset in
        let t = record s { offset = offset; input = input } in
        let read : Goes s t = record {
          kept = refl;
          left = scan_int-length sys.decimal s.input s.offset;
        } in
        Goes-trans read (readf-Goes offset t)

    overwrite_command-GoesTo : (s : Session K) → GoesTo s (overwrite_command sys s)
    unfolding overwrite_command
    overwrite_command-GoesTo s =
        let (tmp, after) = scan_int sys.any_base s.input (pos 0) in
        let shorter = scan_int-length sys.any_base s.input (pos 0) in
        elim (scan_symbol-left (room sys symbol_word) after s.symbol) [
          | inl (e, h) ↦ rw (e, overwrite_command) (omega (arith, shorter, h))
          | inr ((symbol, input), e, h) ↦
              let t = record s { symbol = symbol; input = input } in
              let read : Goes s t = record { kept = refl; left = omega (arith, shorter, h) } in
              rw (e, overwrite_command) (Goes-trans read (overwrite-Goes tmp symbol t))
        ]

    request-Goes :
        (wait : Bool) (type : LockType) (s : Session K) → Goes s (request sys wait type s).1
    request-Goes wait type s =
        let (offset, input) = scan_int sys.any_base s.input s.offset in
        let t = record s { offset = offset; input = input } in
        let read : Goes s t = record {
          kept = refl;
          left = scan_int-length sys.any_base s.input s.offset;
        } in
        Goes-trans read (lock_request-Goes wait type offset t)

    tell-Goes : (done : ℤ → Printed) (r : ℤ × Session K) → Goes r.1 (tell done r)
    tell-Goes done r = record { kept = ground arith; left = ground arith }

    lock_as-Goes :
        (type : LockType) (done : ℤ → Printed) (t : Session K) → Goes t (lock_as sys type done t)
    unfolding lock_as
    lock_as-Goes type done t =
        if-Goes (str_eq t.single_or_wait "single")
          (Goes-trans (request-Goes false type t) (tell-Goes done (request sys false type t)))
          (if-Goes (str_eq t.single_or_wait "wait")
            (Goes-trans (request-Goes true type t) (tell-Goes done (request sys true type t)))
            (record { kept = refl; left = omega arith }))

    lock_kind-GoesTo :
        (type : LockType) (done : ℤ → Printed) (s : Session K)
        → GoesTo s (lock_kind sys type done s)
    unfolding lock_kind
    lock_kind-GoesTo type done s =
        elim (scan_word-left (room sys single_or_wait_word) s.input s.single_or_wait) [
          | inl (e, h) ↦ rw (e, lock_kind) h
          | inr ((single_or_wait, input), e, h, _, _) ↦
              let t = record s { single_or_wait = single_or_wait; input = input } in
              let read : Goes s t = record { kept = refl; left = h } in
              rw (e, lock_kind) (Goes-trans read (lock_as-Goes type done t))
        ]

    lock_command-GoesTo : (s : Session K) → GoesTo s (lock_command sys s)
    unfolding lock_command
    lock_command-GoesTo s =
        elim (scan_word-left (room sys read_or_write_word) s.input s.read_or_write) [
          | inl (e, h) ↦ rw (e, lock_command) h
          | inr ((read_or_write, input), e, h, _, _) ↦
              let t = record s { read_or_write = read_or_write; input = input } in
              let read : Goes s t = record { kept = refl; left = h } in
              let wrong = some (print wrong_command t) in
              let as_write =
                if str_eq read_or_write "write"
                then lock_kind sys f_wrlck write_lock_on t
                else wrong in
              let all =
                if str_eq read_or_write "read"
                then lock_kind sys f_rdlck read_lock_on t
                else as_write in
              rw (e, lock_command)
                (GoesTo-trans read all (
                  if-GoesTo (str_eq read_or_write "read") _ _ _
                    (lock_kind-GoesTo f_rdlck read_lock_on t)
                    (if-GoesTo (str_eq read_or_write "write") _ _ _
                      (lock_kind-GoesTo f_wrlck write_lock_on t) (print-Goes wrong_command t))))
        ]

    print_locks-Goes : (s : Session K) → Goes s (print_locks sys s).1
    unfolding print_locks
    print_locks-Goes s = record { kept = refl; left = omega arith }

    obey-GoesTo : (s : Session K) → GoesTo s (obey sys s)
    unfolding obey
    obey-GoesTo s =
        let is = str_eq s.command in
        if-GoesTo (is "help") _ _ _ (print-Goes available s) (
          if-GoesTo (is "read" || is "r") _ _ _ (read_command-Goes s) (
            if-GoesTo (is "overwrite" || is "ow") _ _ _ (overwrite_command-GoesTo s) (
              if-GoesTo (is "lock") _ _ _ (lock_command-GoesTo s) (
                if-GoesTo (is "unlock") _ _ _
                  (Goes-trans (request-Goes false f_unlck s)
                    (tell-Goes unlocked (request sys false f_unlck s)))
                  (if-GoesTo (is "printlocks" || is "pl") _ _ _ (print_locks-Goes s)
                    (print-Goes unknown s))))))

    -- A round takes a word from the input, if there is one; else the command stays.
    abbrev pub Steps : Session K → Option (Session K) → Type 0
    Steps s none = 0 < length s.input
    Steps s (some t) =
        ((length s.input ≡ 0) × (length t.input ≡ 0) × (t.command ≡ s.command))
        ⊎ (length t.input < length s.input)

    Steps-word :
        (s u : Session K) (o : Option (Session K))
        → length u.input < length s.input
        → GoesTo u o
        → Steps s o
    Steps-word s u none h g = omega (arith, h)
    Steps-word s u (some t) h g = inr (omega (arith, h, g.left))

    Steps-end :
        (s u : Session K) (o : Option (Session K))
        → length s.input ≡ 0
        → length u.input ≡ 0
        → u.command ≡ s.command
        → GoesTo u o
        → Steps s o
    Steps-end s u none hs hu k g = absurd (omega (arith, hu, g))
    Steps-end s u (some t) hs hu k g = inl (hs, omega (arith, hu, g.left), g.kept ∙ k)

    pub step-Steps : (s : Session K) → Steps s (step sys s)
    unfolding step
    step-Steps s = elim (scan_word-left (room sys command_word) s.input s.command) [
      | inl (e, h) ↦ rw (e, step) h
      | inr ((command, input), e, h, stays, takes) ↦
          let u = record s { command = command; input = input; round = s.round + 1 } in
          elim (dec_lt 0 (length s.input)) [
            | yes some_left ↦
                rw (e, step) (Steps-word s u (obey sys u) (takes some_left) (obey-GoesTo u))
            | no n ↦
                let at_end : length s.input ≡ 0 = omega arith in
                rw (e, step)
                  (Steps-end s u (obey sys u) at_end (omega arith) (stays at_end) (obey-GoesTo u))
          ]
    ]
