-- ===== src/Sockets/Message.antt =====
-- deff.h of cw10/zad1. The numbers are C's floats, whose type is a parameter.
use systemy_operacyjne_c.Base.{ℕ, List}

-- `enum type`; `message` is MSG.
pub data MsgType : Type 0 where
  message answer hello ping exit : MsgType

pub data Operation : Type 0 where
  add sub mul div : Operation

-- `struct message`
pub record Msg (F : Type 0) : Type 0 where
  pub mtype : MsgType
  pub answer_ : F
  pub num1 : F
  pub num2 : F
  pub counter : ℕ
  pub oper : Operation
  pub name : List ℕ
