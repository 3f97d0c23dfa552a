-- ===== src/Sockets/Server.antt =====
-- cw10/zad1/server.c: one command of `commandline`, and the switch of `serverTask` on a message that
-- a client has sent. The word that is typed and its terminator are stored in the single char `oper`
-- and behind it; `spare` is the number of bytes behind `oper` that hold nothing else. `write_fails`
-- says which descriptors `write` refuses.
use systemy_operacyjne_c.Base.{ℕ, ◌+◌, Bool, List, [], ◌∷◌, if◌then◌else◌, ◌==◌, leb, length}
use systemy_operacyjne_c.Base.Int.{ℤ, minus_one, eqb_ℤ}
use systemy_operacyjne_c.Sockets.Message.{
  Msg, message, answer, hello, ping, exit, Operation, add, sub, mul, div,
}
use systemy_operacyjne_c.Sockets.Clients.{Clients, Ended, returns, rand_client, close_client, pong}

-- What becomes of the word that is typed: `continue`, an operation, or a write past the spare bytes.
pub data Typed : Type 0 where
  unknown : Typed
  known : Operation → Typed
  too_long : Typed

-- The tests of a word against "+", "-", "*" and "/".
abbrev pub compare : List ℕ → Typed
compare (c ∷ []) =
    if c == b'+'
    then known add
    else if c == b'-'
    then known sub
    else if c == b'*'
    then known mul
    else if c == b'/'
    then known div
    else unknown
compare _ = unknown

-- The word and its terminator need one byte more than the word has.
unfoldable pub parse_oper : (spare : ℕ) → List ℕ → Typed
parse_oper spare word = if leb (length word) spare then compare word else too_long

-- `msg` and `taskCounter`.
pub record Command (F : Type 0) : Type 0 where
  pub msg : Msg F
  pub task_counter : ℕ

-- How one round of the loop ends: nothing is sent, `msg` is written to `client`, `exitError`, or the
-- word that is typed overwrites other variables.
pub data Commanded (F : Type 0) : Type 0 where
  skips : Command F → Commanded F
  sends : (client : ℤ) → Msg F → Command F → Commanded F
  fails : Commanded F
  overruns : Commanded F

-- `msg` as it is written: with the task, or, when there are no clients, with the operation alone.
abbrev pub task : {F : Type 0} → ℤ → Operation → F → F → Command F → Msg F
task client op num1 num2 c =
    if eqb_ℤ client minus_one then record (c.msg) { oper = op } else record (c.msg) {
      oper = op;
      counter = c.task_counter;
      num1 = num1;
      num2 = num2;
      mtype = message;
    }

-- `word`, `num1` and `num2` are what is typed, `drawn` is the result of `rand()`.
unfoldable pub command :
    {F : Type 0}
    → (spare : ℕ) → (ℤ → Bool)
    → Clients
    → (drawn : ℕ) → List ℕ
    → F
    → F
    → Command F
    → Commanded F
unfolding parse_oper
command spare write_fails clients drawn word num1 num2 c = elim (parse_oper spare word) [
  | too_long ↦ overruns
  | unknown ↦ skips c
  | known op ↦
      let client = rand_client drawn clients in
      let sent = task client op num1 num2 c in
      if write_fails client
      then fails
      else sends client sent (record { msg = sent; task_counter = c.task_counter + 1 })
]

-- What is printed for a message of a client.
pub data Printed (F : Type 0) : Type 0 where
  nothing : Printed F
  complaint : Printed F
  result : (counter : ℕ) → F → Printed F
  connected : (name : List ℕ) → Printed F

-- The switch on a message from the client with descriptor `fd`.
unfoldable pub receive : {F : Type 0} → (ℤ → Bool) → ℤ → Msg F → Clients → Printed F × Ended Clients
receive close_fails fd msg clients = elim msg.mtype [
  | message ↦ (complaint, returns clients)
  | answer ↦ (result msg.counter msg.answer_, returns clients)
  | ping ↦ (nothing, returns (pong fd clients).1)
  | exit ↦ (nothing, close_client close_fails fd clients)
  | hello ↦ (connected msg.name, returns clients)
]
