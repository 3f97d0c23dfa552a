-- ===== src/Queues/Posix/Client.antt =====
-- cw06/zad2/client.c: the commands of its loop, the replies that it reads, and what it sends at exit.
use systemy_operacyjne_c.Base.{ℕ, suc, Option, List, ◌∷◌, ◌++◌, if◌then◌else◌, ltb, length, drop}
use systemy_operacyjne_c.Base.Int.{ℤ}
use systemy_operacyjne_c.Queues.Message.{
  Msg, MsgType, client_request, server_accept, server_denies, server_response, service_echo,
  service_upper, service_time, service_term, client_logout,
}
use systemy_operacyjne_c.Queues.Text.{c_string}

-- `clientID`, and the `msg` of `main`, which keeps its text from command to command.
pub record Client : Type 0 where
  pub client_id : ℤ
  pub msg : Msg

-- What is typed, by `strcmp` on the first word.
pub data Command : Type 0 where
  echo : (word : List ℕ) → Command
  upper : (word : List ℕ) → Command
  time : Command
  term : Command
  no_such : Command

-- What a command comes to: a message and a wait for the reply, a message and the end, a complaint, or
-- a word that does not fit in `mtext`.
pub data Sending : Type 0 where
  asks : Client → Msg → Sending
  leaves : Msg → Sending
  complains : Client → Sending
  overflows : Sending

abbrev pub msg_snd : Client → Msg
msg_snd c = record (c.msg) { client_id = c.client_id }

-- A string and its terminator over a buffer.
abbrev pub copied : List ℕ → List ℕ → List ℕ
copied string buffer = string ++ (0 ∷ drop (suc (length string)) buffer)

-- The `msg` of `main` when it asks to be let in, with the name of the client's queue.
abbrev pub asking_in : ℤ → List ℕ → Client → Client
asking_in pid queue_name c = record c {
  msg = record (c.msg) {
    mtype = client_request;
    client_pid = pid;
    mtext = copied queue_name c.msg.mtext;
  };
}

unfoldable pub hello : ℤ → List ℕ → Client → Msg
hello pid queue_name c = msg_snd (asking_in pid queue_name c)

abbrev pub with_word : MsgType → List ℕ → Client → Sending
with_word mtype word c =
    if ltb (length word) (length c.msg.mtext)
    then (let c' : Client = record c {
      msg = record (c.msg) { mtype = mtype; mtext = copied word c.msg.mtext };
    } in
        asks c' (msg_snd c'))
    else overflows

unfoldable pub command : Client → Command → Sending
command c (echo word) = with_word service_echo word c
command c (upper word) = with_word service_upper word c
command c time =
    let c' : Client = record c { msg = record (c.msg) { mtype = service_time } } in
    asks c' (msg_snd c')
command c term = leaves (msg_snd (record c { msg = record (c.msg) { mtype = service_term } }))
command c no_such = complains c

-- `exitHandler`: the message that it sends. `local` is what its own `msg` holds before.
unfoldable pub exit_handler : Client → (local : Msg) → Msg
exit_handler c local = msg_snd (record c { msg = record local { mtype = client_logout } })

-- What the client makes of a reply.
pub data Reply : Type 0 where
  accepted : Client → Reply
  denied : Reply
  prints : Client → Option (List ℕ) → Reply
  ignored : Client → Reply

unfoldable pub msg_rcv : Client → Msg → Reply
msg_rcv c msg = elim msg.mtype [
  | server_accept ↦ accepted (record c { client_id = msg.client_id })
  | server_denies ↦ denied
  | server_response ↦ prints c (c_string msg.mtext)
  | _ ↦ ignored c
]
