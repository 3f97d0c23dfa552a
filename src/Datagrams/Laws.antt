-- ===== src/Datagrams/Laws.antt =====
-- What the server comes to know of its clients, and what its tasks and its end come to.
use systemy_operacyjne_c.Base.{
  ℕ, ◌+◌, ◌≤◌, ◌<◌, ◌≡◌, ◌≢◌, ◌⊎◌, inl, inr, refl, ap, sym, append-nil, ◌∙◌, Bool, true, false,
  List, [], ◌∷◌, ◌++◌, All, arith, dec_lt,
}
use systemy_operacyjne_c.Base.Int.{ℤ, minus_one, eqb_ℤ_iff}
use systemy_operacyjne_c.Sockets.Message.{
  Msg, MsgType, message, answer, hello, ping, exit, Operation,
}
use systemy_operacyjne_c.Sockets.Clients.{returns, max_clients, rand_client}
use systemy_operacyjne_c.Sockets.Clients.Laws.{rand_client_lem}
use systemy_operacyjne_c.Sockets.Server.{Command, parse_oper, known, complaint}
use systemy_operacyjne_c.Datagrams.{Server, receive, waits, ends, serve_loop, command, sends}
use systemy_operacyjne_c.Datagrams.Itself.{Itself, hellos, serve_loop-Itself}
use systemy_operacyjne_c.Datagrams.Closing.{close_client-ends}

exit_or : (type : MsgType) → (type ≡ exit) ⊎ (type ≢ exit)
exit_or exit = inl refl
exit_or message = inr (λ e. ground arith)
exit_or answer = inr (λ e. ground arith)
exit_or hello = inr (λ e. ground arith)
exit_or ping = inr (λ e. ground arith)

serve_nothing :
    (F : Type 0) (fd : ℤ) (t : Server) → t.is_open ≡ true → serve_loop {F = F} fd [] t ≡ waits t
unfolding serve_loop
serve_nothing F fd t e = rw e refl

drawn_is :
    (fd : ℤ) (s : Server) (drawn : ℕ)
    → Itself fd s
    → 0 < s.clients.count
    → rand_client drawn s.clients ≡ fd
drawn_is fd s drawn inv h = elim (rand_client_lem drawn s.clients) [
  | inl (gone, _) ↦ absurd (omega arith)
  | inr (i, k, e) ↦ e ∙ inv.same i k
]

module _ {F : Type 0} (fd : ℤ) where
  serve_exit :
      (m : Msg F) (more : List (Msg F)) (s : Server)
      → Itself fd s
      → 0 < s.clients.count
      → m.mtype ≡ exit
      → serve_loop fd (m ∷ more) s ≡ ends
  unfolding serve_loop receive
  serve_exit m [] s inv h e = ground (arith, e, close_client-ends fd s inv h, inv.open_)
  serve_exit m (n ∷ more) s inv h e = ground (arith, e, close_client-ends fd s inv h, inv.open_)

  -- From a valid table all of whose clients are the socket that is served, as is the empty one at the start:
  -- messages but EXIT, with no more HELLO than there is room for, leave the server waiting, and each HELLO has added the
  -- socket itself to the table; so whatever client is drawn, it is that socket, unless there is none.
  -- An EXIT behind them ends the server if there was a HELLO or a client before.
  pub every_client_is_server :
      (msgs : List (Msg F)) (s : Server)
      → Itself fd s
      → All (λ m. m.mtype ≢ exit) msgs
      → s.clients.count + hellos msgs ≤ max_clients
      → (t : Server) × (serve_loop fd msgs s ≡ waits t)
        × Itself fd t
        × (t.clients.count ≡ s.clients.count + hellos msgs)
        × ((drawn : ℕ)
            → (rand_client drawn t.clients ≡ fd)
              ⊎ ((t.clients.count ≡ 0) × (rand_client drawn t.clients ≡ minus_one)))
        × ((bye : Msg F) (more : List (Msg F))
            → (bye.mtype ≢ exit)
              ⊎ (t.clients.count ≡ 0)
              ⊎ (serve_loop fd (msgs ++ (bye ∷ more)) s ≡ ends))
  every_client_is_server msgs s inv a room =
      let (t, run, inv', n) = serve_loop-Itself fd msgs s inv a room in
      (
        t,
        ap (λ l. serve_loop fd l s) (sym (append-nil msgs))
            ∙ run []
            ∙ serve_nothing F fd t inv'.open_,
        inv',
        n,
        λ drawn. elim (rand_client_lem drawn t.clients) [
          | inl gone ↦ inr gone
          | inr (i, h, e) ↦ inl (e ∙ inv'.same i h)
        ],
        λ bye more. elim (exit_or bye.mtype) [
          | inr ne ↦ inl ne
          | inl e ↦ elim (dec_lt 0 t.clients.count) [
            | no none_in ↦ inr (inl (omega arith))
            | yes some_in ↦ inr (inr (run (bye ∷ more) ∙ serve_exit bye more t inv' some_in e))
          ]
        ],
      )

  -- With a client in the table, an operation that is typed is sent to the path of the server itself;
  -- read as a message, all that it makes the server do is complain; and the number of the task stays
  -- as it was.
  pub task_stays_home :
      (spare : ℕ) (path : List ℕ) (send_fails : Bool) (s : Server) (drawn : ℕ) (word : List ℕ)
      (op : Operation) (num1 num2 : F) (c : Command F)
      → Itself fd s
      → 0 < s.clients.count
      → fd ≢ minus_one
      → parse_oper spare word ≡ known op
      → send_fails ≡ false
      → (m : Msg F) × (c' : Command F) × (command spare path send_fails s.clients drawn word num1
            num2 c
          ≡ sends path m c')
        × (receive fd m s ≡ (complaint, returns s))
        × (m.num1 ≡ num1)
        × (m.num2 ≡ num2)
        × (m.oper ≡ op)
        × (c'.task_counter ≡ c.task_counter)
  unfolding command receive
  task_stays_home spare path send_fails s drawn word op num1 num2 c inv h is_fd typed ok =
      let m : Msg F = record (c.msg) {
        oper = op;
        counter = c.task_counter;
        num1 = num1;
        num2 = num2;
        mtype = message;
      } in
      let client = rand_client drawn s.clients in
      let theirs : client ≡ fd = drawn_is fd s drawn inv h in
      (
        m,
        record c { msg = m },
        ground (arith, typed, ok, theirs, is_fd, eqb_ℤ_iff client minus_one),
        refl,
        refl,
        refl,
        refl,
        refl,
      )
