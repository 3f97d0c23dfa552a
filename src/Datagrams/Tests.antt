-- ===== src/Datagrams/Tests.antt =====
-- A server on descriptor 3 that one client has greeted.
use systemy_operacyjne_c.Base.{
  ℕ, ◌+◌, ◌≡◌, ◌≢◌, ◌⊎◌, refl, true, List, [], ◌∷◌, ◌++◌, replicate, arith,
}
use systemy_operacyjne_c.Base.Int.{pos, minus_one}
use systemy_operacyjne_c.Sockets.Message.{Msg, hello, exit, add}
use systemy_operacyjne_c.Sockets.Clients.{rand_client}
use systemy_operacyjne_c.Datagrams.{Server, waits, ends, serve_loop}
use systemy_operacyjne_c.Datagrams.Itself.{Itself}
use systemy_operacyjne_c.Datagrams.Laws.{every_client_is_server}

abbrev greeting : Msg ℕ
greeting = record {
  mtype = hello;
  answer_ = 0;
  num1 = 0;
  num2 = 0;
  counter = 0;
  oper = add;
  name = b'a' ∷ [];
}

abbrev fresh : Server
fresh = record {
  clients = record {
    client_fds = replicate 16 minus_one;
    clients_pong = replicate 16 0;
    count = 0;
  };
  is_open = true;
}

fresh-Itself : Itself (pos 3) fresh
fresh-Itself = record {
  valid = record { slots = refl; pongs = refl; counted = omega arith };
  open_ = refl;
  same = λ i h. absurd (omega arith);
}

every_client_is_server_example :
    (t : Server) × (serve_loop (pos 3) (greeting ∷ []) fresh ≡ waits t)
    × Itself (pos 3) t
    × (t.clients.count ≡ 0 + 1)
    × ((drawn : ℕ)
        → (rand_client drawn t.clients ≡ pos 3)
          ⊎ ((t.clients.count ≡ 0) × (rand_client drawn t.clients ≡ minus_one)))
    × ((bye : Msg ℕ) (more : List (Msg ℕ))
        → (bye.mtype ≢ exit)
          ⊎ (t.clients.count ≡ 0)
          ⊎ (serve_loop (pos 3) ((greeting ∷ []) ++ (bye ∷ more)) fresh ≡ ends))
every_client_is_server_example =
    every_client_is_server (pos 3) (greeting ∷ []) fresh fresh-Itself (λ e. ground arith, tt)
      (omega arith)
