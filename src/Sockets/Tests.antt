-- ===== src/Sockets/Tests.antt =====
-- The table of clients on a few descriptors.
use systemy_operacyjne_c.Base.{
  ◌≢◌, ℕ, zero, suc, ◌+◌, ◌<◌, ◌≡◌, refl, false, [], ◌∷◌, ◌++◌, arith, replicate,
}
use systemy_operacyjne_c.Base.Int.{pos, minus_one, eqb_ℤ}
use systemy_operacyjne_c.Sockets.Clients.{Clients, fd_at, returns, close_client}
use systemy_operacyjne_c.Sockets.Clients.Closing.{live, kept, close_client_lem}
use systemy_operacyjne_c.Sockets.Clients.Laws.{IsValid}
use systemy_operacyjne_c.Sockets.Message.{Msg, Operation, add, hello}
use systemy_operacyjne_c.Sockets.Client.{handle, writes}
use systemy_operacyjne_c.Sockets.Server.{Command, command, sends, parse_oper, receive, result}
use systemy_operacyjne_c.Sockets.Tasks.{task_comes_back}

abbrev two : Clients
two = record {
  client_fds = pos 5 ∷ pos 6 ∷ replicate 14 minus_one;
  clients_pong = replicate 16 3;
  count = 2;
}

two-IsValid : IsValid two
two-IsValid = record { slots = refl; pongs = refl; counted = omega arith }

close_client_lem_example :
    (c' : Clients) × (close_client (λ _. false) (pos 5) two ≡ returns c')
    × (live c' ≡ [] ++ kept (pos 5) (pos 6 ∷ []))
    × (c'.count + 1 ≡ two.count)
close_client_lem_example =
    close_client_lem (λ _. false) (pos 5) [] (pos 6 ∷ []) (replicate 14 minus_one) two refl refl tt
      ((λ e. ground arith), tt) refl

abbrev calc : Operation → ℕ → ℕ → ℕ
calc add a b = a + b
calc _ a b = a

abbrev blank : Msg ℕ
blank = record {
  mtype = hello;
  answer_ = 0;
  num1 = 0;
  num2 = 0;
  counter = 0;
  oper = add;
  name = [];
}

abbrev command_line : Command ℕ
command_line = record { msg = blank; task_counter = 4 }

two_are_open :
    (i : ℕ) → i < two.count → (fd_at two i ≢ minus_one) × (eqb_ℤ (fd_at two i) minus_one ≡ false)
two_are_open zero h = ((λ e. ground arith), refl)
two_are_open (suc zero) h = ((λ e. ground arith), refl)
two_are_open (suc (suc i)) h = absurd (omega arith)

task_comes_back_example :
    (i : ℕ) × (m r : Msg ℕ) × (c' : Command ℕ) × (i < two.count)
    × (command 1 (λ fd. eqb_ℤ fd minus_one) two 3 (b'+' ∷ []) 20 22 command_line
        ≡ sends (fd_at two i) m c')
    × (handle calc m ≡ writes r)
    × (receive (λ _. false) (fd_at two i) r two ≡ (result (4 + 1) (calc add 20 22), returns two))
    × (c'.task_counter ≡ 4 + 1)
unfolding parse_oper
task_comes_back_example =
    task_comes_back calc 1 (λ fd. eqb_ℤ fd minus_one) (λ _. false) two 3 (b'+' ∷ []) add 20 22
      command_line refl (omega arith) two_are_open

abbrev none_left : Clients
none_left = record { client_fds = replicate 16 minus_one; clients_pong = replicate 16 0; count = 0 }
