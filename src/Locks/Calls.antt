-- ===== src/Locks/Calls.antt =====
-- lockRequest, readf, overwrite and printLocks.
use systemy_operacyjne_c.Base.{
  ℕ, zero, suc, ◌+◌, Bool, List, [], ◌∷◌, ◌++◌, none, some, if◌then◌else◌, length,
}
use systemy_operacyjne_c.Base.Text.{c_string}
use systemy_operacyjne_c.Base.Int.{ℤ, pos, negsuc, minus_one}
use systemy_operacyjne_c.Records.Io.{read_bytes, overwrite as over}
use systemy_operacyjne_c.Locks.{
  System, Session, LockType, Held, free, read_by, written_by, Printed, lseek_error, read_error,
  write_error, fcntl_error, symbol_read, overwrited, read_lock_at, write_lock_at,
}

module _ {K : Type 0} where
  abbrev pub print : Printed → Session K → Session K
  print p s = record s { printed = s.printed ++ (p ∷ []) }

  -- A lock on the one byte at `offset`, or its release; -1 where `fcntl` fails.
  unfoldable pub lock_request : System K → (wait : Bool) → LockType → ℤ → Session K → ℤ × Session K
  lock_request sys wait type offset s =
      let (granted, locks) = sys.set_lock wait type offset s.locks in
      let after = record s { locks = locks } in
      if granted then (offset, after) else (minus_one, print fcntl_error after)

  abbrev pub seek : ℕ → Session K → Session K
  seek o s = record s { file = record (s.file) { offset = o } }

  -- `lseek` refuses an offset below 0. The byte is printed as a string, with what lies behind it up to
  -- a zero.
  unfoldable pub readf : System K → ℤ → Session K → Session K
  readf sys (negsuc _) s = print lseek_error s
  readf sys (pos o) s =
      let at = seek o s in
      if sys.may_read o s.locks
      then (elim (read_bytes 1 at.file) [
        | [] ↦ print read_error at
        | symbol ∷ _ ↦
            print (symbol_read (pos o) (c_string (symbol ∷ sys.behind s.round))) (seek (o + 1) at)
      ])
      else print read_error at

  unfoldable pub overwrite : System K → ℤ → (symbol : ℕ) → Session K → ℤ × Session K
  overwrite sys (negsuc _) symbol s = (minus_one, print lseek_error s)
  overwrite sys (pos o) symbol s =
      let at = seek o s in
      if sys.may_write o s.locks
      then (
        pos 0,
        print (overwrited (pos o) (c_string (symbol ∷ sys.behind s.round)))
            (record at { file = record { bytes = over (symbol ∷ []) at.file; offset = o + 1 } }),
      )
      else (minus_one, print write_error at)

-- What the loop prints of one byte.
abbrev pub report : Held → ℕ → List Printed
report free b = []
report (read_by pid) b = read_lock_at b pid ∷ []
report (written_by pid) b = write_lock_at b pid ∷ []

module _ {K : Type 0} where
  -- The loop over the `left` bytes from `b`: its result and what it prints.
  unfoldable pub print_loop : System K → K → (left b : ℕ) → ℤ × List Printed
  print_loop sys locks zero b = (pos 0, [])
  print_loop sys locks (suc left) b =
      let rest = print_loop sys locks left (b + 1) in
      elim (sys.get_lock b locks) [
        | none ↦ (minus_one, fcntl_error ∷ [])
        | some held ↦ (rest.0, report held b ++ rest.1)
      ]

  unfoldable pub print_locks : System K → Session K → ℤ × Session K
  unfolding print_loop
  print_locks sys s =
      let len = length s.file.bytes in
      let (result, lines) = print_loop sys s.locks len 0 in
      (result, record (seek 0 s) { printed = s.printed ++ lines })
