-- ===== src/Queues/Sysv/Server.antt =====
-- cw06/zad1/server.c: one call of `msg_rcv` on the message that it receives.
use systemy_operacyjne_c.Base.{
  ℕ, ◌+◌, Option, none, some, List, [], ◌∷◌, ◌++◌, if◌then◌else◌, ltb, get_elem?, set,
}
use systemy_operacyjne_c.Base.Int.{ℤ, pos, negsuc}
use systemy_operacyjne_c.Queues.Message.{
  Msg, client_request, server_accept, server_denies, server_response, service_echo, service_upper,
  service_time, service_term, Effect, sent, Outcome, continues, exits, out_of_bounds, max_clients,
}
use systemy_operacyjne_c.Queues.Text.{upper_case_f}

-- `clientsQueueIDS` and `clientsCounter`.
pub record Server : Type 0 where
  pub clients_queue_ids : List ℤ
  pub clients_counter : ℕ

-- `clientsQueueIDS[id]`, `none` out of the array.
abbrev pub queue_at : List ℤ → ℤ → Option ℤ
queue_at ids (pos i) = get_elem? ids i
queue_at ids (negsuc _) = none

-- `msg.mtype=ServerResponse` and the send of `text` to the queue of `msg.clientID`.
abbrev pub respond : Server → Msg → List ℕ → Outcome Server
respond s msg text = elim (queue_at s.clients_queue_ids msg.client_id) [
  | none ↦ out_of_bounds
  | some q ↦ continues s (sent q (record msg { mtype = server_response; mtext = text }) ∷ [])
]

-- The case of ClientRequest.
unfoldable pub request : Server → Msg → Outcome Server
request s msg =
    if ltb s.clients_counter max_clients
    then continues
        (record s {
          clients_queue_ids = set s.clients_queue_ids s.clients_counter msg.client_queue_id;
          clients_counter = s.clients_counter + 1;
        })
        (sent msg.client_queue_id
            (record msg { mtype = server_accept; client_id = pos s.clients_counter })
          ∷ [])
    else continues s (sent msg.client_queue_id (record msg { mtype = server_denies }) ∷ [])

-- `time_text` is what `getTimeF` leaves in `mtext`.
unfoldable pub msg_rcv : (List ℕ → List ℕ) → Server → Msg → Outcome Server
unfolding request
msg_rcv time_text s msg = elim msg.mtype [
  | client_request ↦ request s msg
  | service_echo ↦ respond s msg msg.mtext
  | service_upper ↦ elim (upper_case_f msg.mtext) [
    | none ↦ out_of_bounds
    | some text ↦ respond s msg text
  ]
  | service_time ↦ respond s msg (time_text msg.mtext)
  | service_term ↦ exits
  | _ ↦ continues s []
]

-- The loop of `main` over the messages in the order in which they arrive. It waits for more when
-- they are served, or ends and leaves the rest of the queue unread.
pub data Run : Type 0 where
  idle : Server → List Effect → Run
  stopped : List Effect → (unread : List Msg) → Run
  crashed : Run

abbrev pub after : List Effect → Run → Run
after es (idle s fs) = idle s (es ++ fs)
after es (stopped fs unread) = stopped (es ++ fs) unread
after es crashed = crashed

unfoldable pub serve : (List ℕ → List ℕ) → Server → List Msg → Run
serve time_text s [] = idle s []
serve time_text s (msg ∷ msgs) = elim (msg_rcv time_text s msg) [
  | continues s' effects ↦ after effects (serve time_text s' msgs)
  | exits ↦ stopped [] msgs
  | out_of_bounds ↦ crashed
]
