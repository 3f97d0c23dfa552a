-- ===== src/Queues/Posix/Laws.antt =====
-- The POSIX server: its clients, and what becomes of their queues.
use systemy_operacyjne_c.Base.{
  ℕ, ◌+◌, ◌≤◌, ◌<◌, ◌≡◌, ◌≢◌, ◌⊎◌, inl, inr, dec_lt, some, List, [], ◌∷◌, arith, length, get_elem?,
  length-set, get_elem?-set_ne, get_elem?_of_lt, get_elem?_of_le,
}
use systemy_operacyjne_c.Base.Int.{ℤ}
use systemy_operacyjne_c.Queues.Message.{
  Msg, client_logout, Effect, closed, continues, out_of_bounds, max_clients,
}
use systemy_operacyjne_c.Queues.Posix.Server.{Server, msg_rcv}

pub record IsValid (s : Server) : Type 0 where
  pub slots : length s.clients_queue_ids ≡ max_clients
  pub counted : s.clients_counter ≤ max_clients

module _ (mq_open : List ℕ → ℤ) (time_text : List ℕ → List ℕ) where
  -- A message that the server goes on after keeps the table valid, the clients that are in it, and
  -- their descriptors; only a request adds one.
  pub msg_rcv_keeps :
      (s : Server) (msg : Msg) {t : Server} {es : List Effect}
      → IsValid s
      → msg_rcv mq_open time_text s msg ≡ continues t es
      → IsValid t
        × (s.clients_counter ≤ t.clients_counter)
        × (t.clients_counter ≤ s.clients_counter + 1)
        × ((i : ℕ)
            → i < s.clients_counter
            → get_elem? t.clients_queue_ids i ≡ get_elem? s.clients_queue_ids i)
  unfolding msg_rcv
  msg_rcv_keeps s msg v e = (
    ground (arith, length-set s.clients_queue_ids s.clients_counter (mq_open msg.mtext)),
    ground arith,
    ground arith,
    λ i h. ground (
      arith,
      get_elem?-set_ne s.clients_queue_ids {i = s.clients_counter} {j = i} (mq_open msg.mtext),
    ),
  )

  -- On a valid table a logout leaves the table as it is. It closes the first slot that no client has,
  -- or, when all are taken, reads past the table.
  pub logout_lem :
      (s : Server) (msg : Msg)
      → IsValid s
      → msg.mtype ≡ client_logout
      → ((s.clients_counter < max_clients)
          × (q : ℤ) × (get_elem? s.clients_queue_ids s.clients_counter ≡ some q)
          × (msg_rcv mq_open time_text s msg ≡ continues s (closed q ∷ [])))
        ⊎ ((s.clients_counter ≡ max_clients) × (msg_rcv mq_open time_text s msg ≡ out_of_bounds))
  unfolding msg_rcv
  logout_lem s msg v e = elim (dec_lt s.clients_counter max_clients) [
    | yes room ↦
        let (q, found) = get_elem?_of_lt s.clients_queue_ids s.clients_counter (omega arith) in
        inl (room, q, found, ground arith)
    | no full ↦ inr (
      omega arith,
      ground (arith, get_elem?_of_le s.clients_queue_ids s.clients_counter (omega arith)),
    )
  ]

  -- A logout does not close the descriptor of a client in the table, if the first slot that no client
  -- has holds another one.
  pub logout_misses :
      (s : Server) (msg : Msg) (i : ℕ) (q : ℤ) {t : Server} {es : List Effect}
      → msg.mtype ≡ client_logout
      → i < s.clients_counter
      → get_elem? s.clients_queue_ids i ≡ some q
      → get_elem? s.clients_queue_ids s.clients_counter ≢ some q
      → msg_rcv mq_open time_text s msg ≢ continues t (closed q ∷ es)
  unfolding msg_rcv
  logout_misses s msg i q e h own other r = ground (arith, other, r)
