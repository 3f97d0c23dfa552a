-- ===== src/Sockets/Tasks.antt =====
-- A task from the command line of the server to a client and back.
use systemy_operacyjne_c.Base.{
  ℕ, ◌+◌, ◌<◌, ◌≡◌, ◌≢◌, inl, inr, refl, Bool, true, false, List, arith,
}
use systemy_operacyjne_c.Base.Int.{ℤ, minus_one, eqb_ℤ_iff}
use systemy_operacyjne_c.Sockets.Message.{Msg, message, Operation}
use systemy_operacyjne_c.Sockets.Clients
use systemy_operacyjne_c.Sockets.Clients.{Clients, fd_at, rand_client}
use systemy_operacyjne_c.Sockets.Clients.Laws.{rand_client_lem}
use systemy_operacyjne_c.Sockets.Client.{handle, respond, writes}
use systemy_operacyjne_c.Sockets.Server.{
  Command, command, sends, fails, parse_oper, known, receive, result,
}

computed :
    {F : Type 0} (calc : Operation → F → F → F) (close_fails : ℤ → Bool) (fd : ℤ)
    (clients : Clients) (op : Operation) (m : Msg F)
    → m.oper ≡ op
    → receive close_fails fd (respond calc m) clients
      ≡ (result (m.counter + 1) (calc op m.num1 m.num2), Clients.returns clients)
unfolding respond receive
computed calc close_fails fd clients op m e = ground (arith, e)

-- A task comes back: with clients in the table, all of them on open descriptors, an operation that is
-- typed, with room behind `oper` for its terminator, is written to one of them, whose reply makes the
-- server print the result of that operation on the numbers typed, under the number of the task plus
-- one, and leaves the table as it is.
pub task_comes_back :
    {F : Type 0} (calc : Operation → F → F → F) (spare : ℕ) (write_fails close_fails : ℤ → Bool)
    (clients : Clients) (drawn : ℕ) (word : List ℕ) (op : Operation) (num1 num2 : F) (c : Command F)
    → parse_oper spare word ≡ known op
    → 0 < clients.count
    → ((i : ℕ)
        → i < clients.count
        → (fd_at clients i ≢ minus_one) × (write_fails (fd_at clients i) ≡ false))
    → (i : ℕ) × (m r : Msg F) × (c' : Command F) × (i < clients.count)
      × (command spare write_fails clients drawn word num1 num2 c ≡ sends (fd_at clients i) m c')
      × (handle calc m ≡ writes r)
      × (receive close_fails (fd_at clients i) r clients
          ≡ (result (c.task_counter + 1) (calc op num1 num2), Clients.returns clients))
      × (c'.task_counter ≡ c.task_counter + 1)
unfolding command handle respond receive
task_comes_back {F} calc spare write_fails close_fails clients drawn word op num1 num2 c typed
      some_in open_ =
    elim (rand_client_lem drawn clients) [
      | inl (none_in, e) ↦ absurd (omega arith)
      | inr (i, within, e) ↦
          let (is_fd, writable) = open_ i within in
          let m : Msg F = record (c.msg) {
            oper = op;
            counter = c.task_counter;
            num1 = num1;
            num2 = num2;
            mtype = message;
          } in
          (
            i,
            m,
            respond calc m,
            record { msg = m; task_counter = c.task_counter + 1 },
            within,
            ground (arith, typed, e, is_fd, writable, eqb_ℤ_iff (fd_at clients i) minus_one),
            refl,
            computed calc close_fails (fd_at clients i) clients op m refl,
            refl,
          )
    ]

-- Without clients an operation that is typed ends the server, since `write` refuses -1.
pub no_clients_end :
    {F : Type 0} (spare : ℕ) (write_fails : ℤ → Bool) (clients : Clients) (drawn : ℕ)
    (word : List ℕ) (op : Operation) (num1 num2 : F) (c : Command F)
    → parse_oper spare word ≡ known op
    → clients.count ≡ 0
    → write_fails minus_one ≡ true
    → command spare write_fails clients drawn word num1 num2 c ≡ fails
unfolding command rand_client
no_clients_end spare write_fails clients drawn word op num1 num2 c typed none_in refused =
    ground (arith, typed, refused)
