-- ===== src/Datagrams/Itself.antt =====
-- A table all of whose clients are the socket of the server itself.
use systemy_operacyjne_c.Base.{
  ℕ, zero, suc, ◌+◌, ◌≤◌, ◌<◌, ◌≡◌, ◌≢◌, inl, inr, refl, ap, ◌∙◌, get_or, true, List, [], ◌∷◌, ◌++◌,
  All, length, length-set, arith, dec_lt,
}
use systemy_operacyjne_c.Base.Int.{ℤ, minus_one}
use systemy_operacyjne_c.Sockets.Message.{Msg, MsgType, message, answer, hello, ping, exit}
use systemy_operacyjne_c.Sockets.Clients.{Clients, returns, fd_at, max_clients, pong, pong_from}
use systemy_operacyjne_c.Sockets.Clients.Laws.{add_client_lem, IsValid}
use systemy_operacyjne_c.Datagrams.{Server, receive, serve_loop}

-- Every client of the table is the descriptor `fd` of the open socket that is served.
pub record Itself (fd : ℤ) (s : Server) : Type 0 where
  pub valid : IsValid s.clients
  pub open_ : s.is_open ≡ true
  pub same : (i : ℕ) → i < s.clients.count → fd_at s.clients i ≡ fd

-- The number of HELLO messages.
abbrev pub hellos : {F : Type 0} → List (Msg F) → ℕ
hellos [] = 0
hellos (m ∷ ms) = (elim m.mtype [ hello ↦ 1 | _ ↦ 0 ]) + hellos ms

pong-fds :
    (fd : ℤ) (left i : ℕ) (c : Clients)
    → ((pong_from fd left i c).1.client_fds ≡ c.client_fds)
      × ((pong_from fd left i c).1.count ≡ c.count)
      × (length (pong_from fd left i c).1.clients_pong ≡ length c.clients_pong)
unfolding pong_from
pong-fds fd zero i c = (refl, refl, refl)
pong-fds fd (suc left) i c =
    ground (
      arith,
      pong-fds fd left (i + 1) c,
      length-set c.clients_pong i (get_or c.clients_pong i 0 + 1),
    )

module _ {F : Type 0} (fd : ℤ) where
  -- A message but EXIT, in a table with room for a client if it is HELLO.
  pub receive-Itself :
      (m : Msg F) (s : Server) (type : MsgType)
      → m.mtype ≡ type
      → Itself fd s
      → type ≢ exit
      → s.clients.count + hellos (m ∷ []) ≤ max_clients
      → (t : Server) × ((receive fd m s).1 ≡ returns t)
        × Itself fd t
        × (t.clients.count ≡ s.clients.count + hellos (m ∷ []))
  unfolding receive pong
  receive-Itself m s message e inv ne room = (s, ground arith, inv, ground arith)
  receive-Itself m s answer e inv ne room = (s, ground arith, inv, ground arith)
  receive-Itself m s exit e inv ne room = absurd (ne refl)
  receive-Itself m s ping e inv ne room =
      let c = (pong fd s.clients).1 in
      let (fds, n, l) = pong-fds fd s.clients.count 0 s.clients in
      (
        record s { clients = c },
        ground arith,
        record {
          valid = record {
            slots = ap length fds ∙ inv.valid.slots;
            pongs = l ∙ inv.valid.pongs;
            counted = omega (arith, n, inv.valid.counted);
          };
          open_ = inv.open_;
          same = λ i h. ap (λ t. get_or t i minus_one) fds ∙ inv.same i (omega (arith, n));
        },
        ground (arith, n),
      )
  receive-Itself m s hello e inv ne room = elim (add_client_lem fd s.clients inv.valid) [
    | inr (full, _) ↦ absurd (ground arith)
    | inl (free, c, run, v, n, new, old) ↦ (
      record s { clients = c },
      ground (arith, run),
      record {
        valid = v;
        open_ = inv.open_;
        same = λ i h. elim (dec_lt i s.clients.count) [
          | yes before ↦ old i before ∙ inv.same i before
          | no last ↦ let here : i ≡ s.clients.count = omega (arith, n) in ap (fd_at c) here ∙ new
        ];
      },
      ground (arith, n),
    )
  ]

  pub serve_loop-Itself :
      (msgs : List (Msg F)) (s : Server)
      → Itself fd s
      → All (λ m. m.mtype ≢ exit) msgs
      → s.clients.count + hellos msgs ≤ max_clients
      → (t : Server) × ((rest : List (Msg F))
          → serve_loop fd (msgs ++ rest) s ≡ serve_loop fd rest t)
        × Itself fd t
        × (t.clients.count ≡ s.clients.count + hellos msgs)
  unfolding serve_loop
  serve_loop-Itself [] s inv a room = (s, λ rest. refl, inv, omega arith)
  serve_loop-Itself (m ∷ msgs) s inv a room =
      let (t, run, inv', n) = receive-Itself m s m.mtype refl inv a.0 (omega arith) in
      let (u, run', inv'', n') = serve_loop-Itself msgs t inv' a.1 (omega (arith, n)) in
      (u, λ rest. ground (arith, inv.open_, run, run' rest), inv'', omega (arith, n, n'))
