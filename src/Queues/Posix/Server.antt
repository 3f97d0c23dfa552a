-- ===== src/Queues/Posix/Server.antt =====
-- cw06/zad2/server.c: one call of `msg_rcv`, and `exitHandler`. `mq_open` gives the descriptor for
-- the name in a buffer, or -1. `closed` is `mq_close`.
use systemy_operacyjne_c.Base.{
  ℕ, zero, suc, ◌+◌, Option, none, some, List, [], ◌∷◌, if◌then◌else◌, ltb, get_elem?, set,
}
use systemy_operacyjne_c.Base.Int.{ℤ, pos, negsuc}
use systemy_operacyjne_c.Queues.Message.{
  Msg, client_request, server_accept, server_denies, server_response, service_echo, service_upper,
  service_time, service_term, client_logout, Effect, sent, closed, Outcome, continues, exits,
  out_of_bounds, max_clients,
}
use systemy_operacyjne_c.Queues.Text.{upper_case_f}

-- `clientsQueueIDS`, here of descriptors, and `clientsCounter`.
pub record Server : Type 0 where
  pub clients_queue_ids : List ℤ
  pub clients_counter : ℕ

abbrev pub queue_at : List ℤ → ℤ → Option ℤ
queue_at ids (pos i) = get_elem? ids i
queue_at ids (negsuc _) = none

abbrev pub respond : Server → Msg → List ℕ → Outcome Server
respond s msg text = elim (queue_at s.clients_queue_ids msg.client_id) [
  | none ↦ out_of_bounds
  | some q ↦ continues s (sent q (record msg { mtype = server_response; mtext = text }) ∷ [])
]

module _ (mq_open : List ℕ → ℤ) (time_text : List ℕ → List ℕ) where
  -- The case of ClientRequest.
  unfoldable pub request : Server → Msg → Outcome Server
  request s msg =
      if ltb s.clients_counter max_clients
      then continues
          (record s {
            clients_queue_ids = set s.clients_queue_ids s.clients_counter (mq_open msg.mtext);
            clients_counter = s.clients_counter + 1;
          })
          (sent (mq_open msg.mtext)
              (record msg { mtype = server_accept; client_id = pos s.clients_counter })
            ∷ [])
      else continues s (
          sent (mq_open msg.mtext) (record msg { mtype = server_denies })
          ∷ closed (mq_open msg.mtext)
          ∷ [])

  -- The case of ClientLogout: `mq_close(clientsQueueIDS[clientsCounter])`.
  unfoldable pub logout : Server → Outcome Server
  logout s = elim (get_elem? s.clients_queue_ids s.clients_counter) [
    | none ↦ out_of_bounds
    | some q ↦ continues s (closed q ∷ [])
  ]

  unfoldable pub msg_rcv : Server → Msg → Outcome Server
  unfolding request logout
  msg_rcv s msg = elim msg.mtype [
    | client_request ↦ request s msg
    | service_echo ↦ respond s msg msg.mtext
    | service_upper ↦ elim (upper_case_f msg.mtext) [
      | none ↦ out_of_bounds
      | some text ↦ respond s msg text
    ]
    | service_time ↦ respond s msg (time_text msg.mtext)
    | service_term ↦ exits
    | client_logout ↦ logout s
    | _ ↦ continues s []
  ]

-- The loop of `exitHandler` from index `i` on, `left` rounds of it.
unfoldable pub close_from : List ℤ → ℕ → ℕ → List Effect
close_from ids i zero = []
close_from ids i (suc left) =
    let rest = close_from ids (i + 1) left in
    elim (get_elem? ids i) [ none ↦ [] | some q ↦ closed q ∷ rest ]

-- `exitHandler`, less the server's own queue.
unfoldable pub exit_handler : Server → List Effect
exit_handler s = close_from s.clients_queue_ids 0 s.clients_counter
