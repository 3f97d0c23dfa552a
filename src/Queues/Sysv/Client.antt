-- ===== src/Queues/Sysv/Client.antt =====
-- cw06/zad1/client.c: the commands of its loop, and the replies that it reads.
use systemy_operacyjne_c.Base.{ℕ, suc, Option, List, ◌∷◌, ◌++◌, if◌then◌else◌, ltb, length, drop}
use systemy_operacyjne_c.Base.Int.{ℤ}
use systemy_operacyjne_c.Queues.Message.{
  Msg, MsgType, client_request, server_accept, server_denies, server_response, service_echo,
  service_upper, service_time, service_term,
}
use systemy_operacyjne_c.Queues.Text.{c_string}

-- `clientID`, and the `msg` of `main`, which keeps its text from command to command.
pub record Client : Type 0 where
  pub client_id : ℤ
  pub msg : Msg

-- What is typed, by `strcmp` on the first word.
pub data Command : Type 0 where
  echo : (word : List ℕ) → Command
  upper : (word : List ℕ) → Command
  time : Command
  term : Command
  no_such : Command

-- What a command comes to: a message to the server and a wait for the reply, a message and the end,
-- a complaint, or a word that does not fit in `mtext`.
pub data Sending : Type 0 where
  asks : Client → Msg → Sending
  leaves : Msg → Sending
  complains : Client → Sending
  overflows : Sending

-- `msg_snd` puts the client's id into its own copy of the message.
abbrev pub msg_snd : Client → Msg
msg_snd c = record (c.msg) { client_id = c.client_id }

-- The first message, as `main` sends it.
unfoldable pub hello : ℤ → ℤ → Client → Msg
hello pid queue c = msg_snd (record c {
  msg = record (c.msg) { mtype = client_request; client_pid = pid; client_queue_id = queue };
})

-- `scanf("%s", msg.mtext)`: the word and its terminator over the buffer.
abbrev pub typed : List ℕ → List ℕ → List ℕ
typed word buffer = word ++ (0 ∷ drop (suc (length word)) buffer)

abbrev pub with_word : MsgType → List ℕ → Client → Sending
with_word mtype word c =
    if ltb (length word) (length c.msg.mtext)
    then (let c' : Client = record c {
      msg = record (c.msg) { mtype = mtype; mtext = typed word c.msg.mtext };
    } in
        asks c' (msg_snd c'))
    else overflows

unfoldable pub command : Client → Command → Sending
command c (echo word) = with_word service_echo word c
command c (upper word) = with_word service_upper word c
command c time =
    let c' : Client = record c { msg = record (c.msg) { mtype = service_time } } in
    asks c' (msg_snd c')
command c term = leaves (msg_snd (record c { msg = record (c.msg) { mtype = service_term } }))
command c no_such = complains c

-- What the client makes of a reply.
pub data Reply : Type 0 where
  accepted : Client → Reply
  denied : Reply
  prints : Client → Option (List ℕ) → Reply
  ignored : Client → Reply

unfoldable pub msg_rcv : Client → Msg → Reply
msg_rcv c msg = elim msg.mtype [
  | server_accept ↦ accepted (record c { client_id = msg.client_id })
  | server_denies ↦ denied
  | server_response ↦ prints c (c_string msg.mtext)
  | _ ↦ ignored c
]
