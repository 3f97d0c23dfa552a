-- ===== src/Queues/Posix/Session.antt =====
-- A client and the server of cw06/zad2 together: let in, answered, gone.
use systemy_operacyjne_c.Base.{
  All, ℕ, suc, ◌+◌, ◌<◌, ◌≡◌, ◌≢◌, refl, some, List, [], ◌∷◌, arith, length, drop, set,
  get_elem?-set_self, length-append, length-drop,
}
use systemy_operacyjne_c.Base.Int.{ℤ, pos}
use systemy_operacyjne_c.Queues.Message.{
  Msg, sent, continues, max_clients, server_accept, server_response, service_echo,
}
use systemy_operacyjne_c.Queues.Text.{c_string-terminated}
use systemy_operacyjne_c.Queues.Posix.Server.{Server, msg_rcv, request}
use systemy_operacyjne_c.Queues.Posix.Client
use systemy_operacyjne_c.Queues.Posix.Laws.{IsValid}

module _ (mq_open : List ℕ → ℤ) (time_text : List ℕ → List ℕ) where
  -- A session: a client whose queue's name fits the buffer asks a server with a valid table and room
  -- in it; it is let in, takes its number from the reply, and a word that it then sends for an echo,
  -- which fits the buffer and has no zero, comes back on its own queue and is printed.
  pub session :
      (s : Server) (c : Client.Client) (pid : ℤ) (queue_name word : List ℕ)
      → IsValid s
      → s.clients_counter < max_clients
      → length queue_name < length c.msg.mtext
      → length word < length c.msg.mtext
      → All (λ b. b ≢ 0) word
      → (s1 : Server) × (c2 c3 : Client.Client) × (q : ℤ) × (a m r : Msg) × (msg_rcv mq_open
            time_text s
            (Client.hello pid queue_name c)
          ≡ continues s1 (sent q a ∷ []))
        × (q ≡ mq_open (Client.hello pid queue_name c).mtext)
        × (Client.msg_rcv (Client.asking_in pid queue_name c) a ≡ Client.accepted c2)
        × (Client.command c2 (Client.echo word) ≡ Client.asks c3 m)
        × (msg_rcv mq_open time_text s1 m ≡ continues s1 (sent q r ∷ []))
        × (Client.msg_rcv c3 r ≡ Client.prints c3 (some word))
  unfolding msg_rcv request Client.hello Client.msg_rcv Client.command
  session s c pid queue_name word v room name_fits fits plain =
      let here = Client.asking_in pid queue_name c in
      let q = mq_open here.msg.mtext in
      let s1 : Server = record s {
        clients_queue_ids = set s.clients_queue_ids s.clients_counter q;
        clients_counter = s.clients_counter + 1;
      } in
      let a : Msg = record (Client.msg_snd here) {
        mtype = server_accept;
        client_id = pos s.clients_counter;
      } in
      let c2 : Client.Client = record here { client_id = pos s.clients_counter } in
      let c3 : Client.Client = record c2 {
        msg = record (c2.msg) { mtype = service_echo; mtext = Client.copied word c2.msg.mtext };
      } in
      let m : Msg = Client.msg_snd c3 in
      let r : Msg = record m { mtype = server_response } in
      (
        s1,
        c2,
        c3,
        q,
        a,
        m,
        r,
        ground (arith, room),
        refl,
        refl,
        ground (
          arith,
          length-append queue_name (0 ∷ drop (suc (length queue_name)) c.msg.mtext),
          length-drop (suc (length queue_name)) c.msg.mtext,
        ),
        ground (
          arith,
          get_elem?-set_self s.clients_queue_ids s.clients_counter q (omega (arith, v.slots, room)),
        ),
        ground (arith, c_string-terminated word (drop (suc (length word)) c2.msg.mtext) plain),
      )
