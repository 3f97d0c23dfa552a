-- ===== src/Locks.antt =====
-- cw02/zad3: reading, overwriting and locking single bytes of a file by typed commands.
pub mod Calls
pub mod Command
pub mod Laws
pub mod Rounds
pub mod Loop
mod Tests
use Prim.Native.String.{String}
use systemy_operacyjne_c.Base.{ℕ, Bool, List, Option}
use systemy_operacyjne_c.Base.Int.{ℤ}
use systemy_operacyjne_c.Records.Io.{Handle}

-- `l_type`.
pub data LockType : Type 0 where
  f_rdlck f_wrlck f_unlck : LockType

-- What F_GETLK reports of one byte: no lock of another process, or the kind of lock and its owner.
pub data Held : Type 0 where
  free : Held
  read_by : (pid : ℕ) → Held
  written_by : (pid : ℕ) → Held

-- The variables of `main` that `scanf` stores words in.
pub data Variable : Type 0 where
  command_word symbol_word read_or_write_word single_or_wait_word : Variable

-- The bytes that each of them has.
abbrev pub size : Variable → ℕ
size command_word = 32
size symbol_word = 1
size read_or_write_word = 1
size single_or_wait_word = 1

-- The calls of the system and of the C library. `K` is the kernel's table of locks. `set_lock` is
-- `fcntl` with F_SETLK, or with F_SETLKW if it may wait, and says whether the call succeeds;
-- `get_lock` is F_GETLK for a write lock, `none` where it fails. `may_read` and `may_write` say
-- whether a mandatory lock lets a transfer at a byte through. `decimal` and `any_base` are the
-- numbers that `scanf` reads for %d and %i from a word, `none` where it does not match. `spare` is the
-- number of bytes behind a variable that hold nothing else: it hangs on the compiler. `behind` is what
-- lies in memory behind the one byte that `readf` or `overwrite` prints with %s, in each round.
pub record System (K : Type 0) : Type 0 where
  pub set_lock : (wait : Bool) → LockType → ℤ → K → Bool × K
  pub get_lock : ℕ → K → Option Held
  pub may_read : ℕ → K → Bool
  pub may_write : ℕ → K → Bool
  pub decimal : String → Option ℤ
  pub any_base : String → Option ℤ
  pub spare : Variable → ℕ
  pub behind : (round : ℕ) → List ℕ

-- What the program prints, but for its prompt and its help.
pub data Printed : Type 0 where
  lseek_error read_error write_error fcntl_error : Printed
  symbol_read : (offset : ℤ) (text : List ℕ) → Printed
  overwrited : (offset : ℤ) (text : List ℕ) → Printed
  read_lock_at : (b pid : ℕ) → Printed
  write_lock_at : (b pid : ℕ) → Printed
  read_lock_on : (result : ℤ) → Printed
  write_lock_on : (result : ℤ) → Printed
  unlocked : (result : ℤ) → Printed
  unable wrong_command available unknown : Printed

-- The open file, the kernel's locks, the words still to be typed, what is printed so far, the
-- variables of `main` that keep their value from one command to the next, with what they hold before
-- they are first set, and the number of commands read.
pub record Session (K : Type 0) : Type 0 where
  pub file : Handle
  pub locks : K
  pub input : List String
  pub printed : List Printed
  pub command : String
  pub read_or_write : String
  pub single_or_wait : String
  pub offset : ℤ
  pub symbol : ℕ
  pub round : ℕ
