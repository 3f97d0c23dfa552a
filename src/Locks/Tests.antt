-- ===== src/Locks/Tests.antt =====
-- A file of three bytes, the last of which another process has locked for writing.
use Prim.Native.String.{String}
use text.Mathlib.Text.{◌==◌ as str_eq}
use systemy_operacyjne_c.Base.{
  ℕ, ◌≡◌, ◌≤◌, ◌<◌, ◌⊎◌, ◌↔◌, refl, Bool, true, false, List, [], ◌∷◌, ◌++◌, Option, none, some,
  if◌then◌else◌, ◌==◌, length, get_elem?, arith,
}
use systemy_operacyjne_c.Base.Int.{ℤ, pos}
use systemy_operacyjne_c.Locks.{
  System, Session, LockType, f_unlck, Held, free, read_by, written_by, Printed, symbol_read,
  read_lock_at, write_lock_at,
}
use systemy_operacyjne_c.Locks.Calls.{overwrite, readf, print_locks}
use systemy_operacyjne_c.Locks.Laws.{In, Rising, print_locks_lem, readf-overwrite}

abbrev Table : Type 0
Table = ℕ → Held

abbrev grants : LockType → ℤ → Table → Bool
grants f_unlck z held = true
grants type (pos n) held = elim (held n) [ free ↦ true | _ ↦ false ]
grants type z held = false

abbrev number : String → Option ℤ
number w = if str_eq w "2" then some (pos 2) else if str_eq w "5" then some (pos 5) else none

abbrev system : System Table
system = record {
  set_lock = λ wait type z held. (grants type z held, held);
  get_lock = λ n held. some (held n);
  may_read = λ n held. true;
  may_write = λ n held. true;
  decimal = number;
  any_base = number;
  spare = λ v. 0;
  behind = λ round. b'?' ∷ 0 ∷ [];
}

abbrev last_held : Table
last_held n = if n == 2 then written_by 41 else free

abbrev session : String → List String → Session Table
session command input = record {
  file = record { bytes = b'a' ∷ b'b' ∷ b'c' ∷ []; offset = 0 };
  locks = last_held;
  input = input;
  printed = [];
  command = command;
  read_or_write = "";
  single_or_wait = "";
  offset = pos 0;
  symbol = 0;
  round = 0;
}

print_locks_lem_example :
    (lines : List Printed) × ((print_locks system (session "" [])).1.printed ≡ [] ++ lines)
    × Rising 0 lines
    × ((i pid : ℕ)
        → (In (read_lock_at i pid) lines ↔ (
            (i < length (session "" []).file.bytes)
            × (system.get_lock i last_held ≡ some (read_by pid))))
          × (In (write_lock_at i pid) lines ↔ (
              (i < length (session "" []).file.bytes)
              × (system.get_lock i last_held ≡ some (written_by pid)))))
    × ((print_locks system (session "" [])).0 ≡ pos 0)
    × ((print_locks system (session "" [])).1.file.bytes ≡ (session "" []).file.bytes)
    × ((print_locks system (session "" [])).1.locks ≡ last_held)
print_locks_lem_example = print_locks_lem system (session "" []) (λ i e. ground arith)

-- Past the end of the file.
abbrev written : Session Table
written = (overwrite system (pos 5) b'x' (session "" [])).1

readf-overwrite_example :
    ((overwrite system (pos 5) b'x' (session "" [])).0 ≡ pos 0)
    × ((readf system (pos 5) (record written { round = 1 })).printed
        ≡ written.printed ++ (symbol_read (pos 5) (b'x' ∷ b'?' ∷ []) ∷ []))
    × ((i : ℕ)
        → (i ≡ 5)
          ⊎ (length (session "" []).file.bytes ≤ i)
          ⊎ (get_elem? written.file.bytes i ≡ get_elem? (session "" []).file.bytes i))
    × (written.locks ≡ last_held)
readf-overwrite_example = readf-overwrite system (session "" []) 5 b'x' 1 refl refl

abbrev typed : Session Table
typed = session "" ("pl" ∷ "q" ∷ [])
