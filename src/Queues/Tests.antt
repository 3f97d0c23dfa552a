-- ===== src/Queues/Tests.antt =====
-- The servers and a client of cw06 on short exchanges.
use systemy_operacyjne_c.Base.{ℕ, ◌≡◌, refl, List, [], ◌∷◌, some, map, arith}
use systemy_operacyjne_c.Base.Int.{ℤ, pos, minus_one}
use systemy_operacyjne_c.Queues.Message.{
  Msg, MsgType, client_request, server_response, service_echo, sent, continues,
}
use systemy_operacyjne_c.Queues.Text.{to_upper}
use systemy_operacyjne_c.Queues.Sysv.Server
use systemy_operacyjne_c.Queues.Sysv.Client
use systemy_operacyjne_c.Queues.Sysv.Registry.{
  request_lem, reply_goes_home, round_trip, term_leaves_unread,
}
use systemy_operacyjne_c.Queues.Sysv.Registry
use systemy_operacyjne_c.Queues.Posix.Server as Posix
use systemy_operacyjne_c.Queues.Posix.Laws.{msg_rcv_keeps, logout_misses}
use systemy_operacyjne_c.Queues.Posix.Laws
use systemy_operacyjne_c.Queues.Posix.Client as PosixClient
use systemy_operacyjne_c.Queues.Posix.Session.{session}

abbrev same : List ℕ → List ℕ
same text = text

abbrev mq_open : List ℕ → ℤ
mq_open name = pos 9

abbrev message : MsgType → ℤ → Msg
message mtype id = record {
  mtype = mtype;
  client_pid = pos 77;
  client_id = id;
  client_queue_id = pos 5;
  mtext = 97 ∷ 0 ∷ 0 ∷ [];
}

abbrev empty : Server.Server
empty = record { clients_queue_ids = pos 0 ∷ pos 0 ∷ pos 0 ∷ pos 0 ∷ []; clients_counter = 0 }

abbrev with_one : Server.Server
with_one = record { clients_queue_ids = pos 5 ∷ pos 0 ∷ pos 0 ∷ pos 0 ∷ []; clients_counter = 1 }

empty-IsValid : Registry.IsValid empty
empty-IsValid = record { slots = refl; counted = omega arith }

reply_goes_home_example :
    Server.msg_rcv same with_one (message service_echo (pos 0))
    ≡ continues with_one
        (sent (pos 5) (record (message service_echo (pos 0)) { mtype = server_response }) ∷ [])
unfolding Server.msg_rcv Server.request Server.serve
reply_goes_home_example =
    reply_goes_home same empty with_one (message client_request minus_one)
      (message service_echo (pos 0)) [] empty-IsValid (omega arith) refl refl refl refl refl

abbrev client : Client.Client
client = record { client_id = pos 0; msg = message server_response (pos 0) }

round_trip_example :
    ((c' : Client.Client) × (m r : Msg) × (Client.command client (Client.echo (98 ∷ []))
        ≡ Client.asks c' m)
      × (Server.msg_rcv same with_one m ≡ continues with_one (sent (pos 5) r ∷ []))
      × (Client.msg_rcv c' r ≡ Client.prints c' (some (98 ∷ []))))
    × ((c' : Client.Client) × (m r : Msg) × (Client.command client (Client.upper (98 ∷ []))
          ≡ Client.asks c' m)
        × (Server.msg_rcv same with_one m ≡ continues with_one (sent (pos 5) r ∷ []))
        × (Client.msg_rcv c' r ≡ Client.prints c' (some (map to_upper (98 ∷ [])))))
round_trip_example =
    round_trip same with_one client 0 (pos 5) (98 ∷ []) refl refl (omega arith)
      ((λ e. omega arith), tt)

abbrev posix_one : Posix.Server
posix_one = record { clients_queue_ids = pos 5 ∷ pos 0 ∷ pos 0 ∷ pos 0 ∷ []; clients_counter = 1 }

posix_one-IsValid : Laws.IsValid posix_one
posix_one-IsValid = record { slots = refl; counted = omega arith }

abbrev posix_two : Posix.Server
posix_two = record { clients_queue_ids = pos 5 ∷ pos 9 ∷ pos 0 ∷ pos 0 ∷ []; clients_counter = 2 }

abbrev posix_empty : Posix.Server
posix_empty = record { clients_queue_ids = pos 0 ∷ pos 0 ∷ pos 0 ∷ pos 0 ∷ []; clients_counter = 0 }

posix_empty-IsValid : Laws.IsValid posix_empty
posix_empty-IsValid = record { slots = refl; counted = omega arith }

abbrev newcomer : PosixClient.Client
newcomer = record { client_id = pos 0; msg = message server_response (pos 0) }

session_example :
    (s1 : Posix.Server) × (c2 c3 : PosixClient.Client) × (q : ℤ) × (a m r : Msg) × (Posix.msg_rcv
        mq_open same posix_empty
        (PosixClient.hello (pos 3) (47 ∷ []) newcomer)
      ≡ continues s1 (sent q a ∷ []))
    × (q ≡ mq_open (PosixClient.hello (pos 3) (47 ∷ []) newcomer).mtext)
    × (PosixClient.msg_rcv (PosixClient.asking_in (pos 3) (47 ∷ []) newcomer) a
        ≡ PosixClient.accepted c2)
    × (PosixClient.command c2 (PosixClient.echo (98 ∷ [])) ≡ PosixClient.asks c3 m)
    × (Posix.msg_rcv mq_open same s1 m ≡ continues s1 (sent q r ∷ []))
    × (PosixClient.msg_rcv c3 r ≡ PosixClient.prints c3 (some (98 ∷ [])))
session_example =
    session mq_open same posix_empty newcomer (pos 3) (47 ∷ []) (98 ∷ []) posix_empty-IsValid
      (omega arith) (omega arith) (omega arith) ((λ e. omega arith), tt)
