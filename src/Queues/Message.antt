-- ===== src/Queues/Message.antt =====
-- inf.h and infposix.h: the messages, and what a program does with them.
use systemy_operacyjne_c.Base.{ℕ, List}
use systemy_operacyjne_c.Base.Int.{ℤ}

abbrev pub max_clients : ℕ
max_clients = 4

abbrev pub text_size : ℕ
text_size = 100

-- `enum msgtype`; `client_logout` is the POSIX version's, `other` is any other value of `mtype`.
pub data MsgType : Type 0 where
  client_request server_accept server_denies server_response : MsgType
  service_echo service_upper service_time service_term client_logout : MsgType
  other : ℕ → MsgType

-- `struct msgbuf`. `client_queue_id` is of the System V version alone. `mtext` is the whole array.
pub record Msg : Type 0 where
  pub mtype : MsgType
  pub client_pid : ℤ
  pub client_id : ℤ
  pub client_queue_id : ℤ
  pub mtext : List ℕ

-- What the server does to queues: a message sent, a descriptor closed.
pub data Effect : Type 0 where
  sent : (queue : ℤ) → Msg → Effect
  closed : (queue : ℤ) → Effect

-- How a call of `msg_rcv` of the server ends: it goes on, it exits, or it touches memory that is not
-- its own.
pub data Outcome (S : Type 0) : Type 0 where
  continues : S → List Effect → Outcome S
  exits : Outcome S
  out_of_bounds : Outcome S
