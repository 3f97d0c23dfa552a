-- ===== src/Sockets/Client.antt =====
-- cw10/zad1/client.c: `hello`, `respond`, and the switch of `main` on a message from the server.
use systemy_operacyjne_c.Base.{ℕ, ◌+◌, List}
use systemy_operacyjne_c.Sockets.Message.{
  Msg, message, answer, hello, ping, exit, Operation, add, sub, mul, div,
}

-- What the client does after a message: it writes one back, ends, or complains and reads on.
pub data Next (F : Type 0) : Type 0 where
  writes : Msg F → Next F
  returns : Next F
  complains : Next F

-- `calc` is the arithmetic of floats.
module _ {F : Type 0} (calc : Operation → F → F → F) where
  -- `hello`; `msg` is what its local variable holds before.
  unfoldable pub say_hello : List ℕ → Msg F → Msg F
  say_hello name msg = record msg { mtype = hello; name = name }

  unfoldable pub respond : Msg F → Msg F
  respond msg = record msg {
    mtype = answer;
    counter = msg.counter + 1;
    answer_ = elim msg.oper [
      | add ↦ calc add msg.num1 msg.num2
      | sub ↦ calc sub msg.num1 msg.num2
      | mul ↦ calc mul msg.num1 msg.num2
      | div ↦ calc div msg.num1 msg.num2
    ];
  }

  unfoldable pub handle : Msg F → Next F
  unfolding respond
  handle msg = elim msg.mtype [
    | message ↦ writes (respond msg)
    | ping ↦ writes (record msg { mtype = ping })
    | exit ↦ returns
    | hello ↦ complains
    | answer ↦ complains
  ]
