-- ===== src/Sockets/Clients/Laws.antt =====
-- Registering, drawing, asking and hearing clients.
use systemy_operacyjne_c.Base.{
  ℕ, zero, suc, ◌+◌, ◌%◌, ◌≤◌, ◌<◌, ◌≡◌, ◌≢◌, ◌⊎◌, inl, inr, dec_lt, refl, sym, ap, ◌∙◌, List, [],
  ◌∷◌, if◌then◌else◌, ◌==◌, arith, length, get_or, set, length-set, get_or-set_self, get_or-set_ne,
}
use systemy_operacyjne_c.Base.Int.{ℤ, minus_one, eqb_ℤ_iff}
use systemy_operacyjne_c.Sockets.Clients.{
  Clients, fd_at, returns, out_of_bounds, add_client, rand_client, pong_from, pong, ping_from, ping,
  max_clients,
}

pub record IsValid (c : Clients) : Type 0 where
  pub slots : length c.client_fds ≡ max_clients
  pub pongs : length c.clients_pong ≡ max_clients
  pub counted : c.count ≤ max_clients

-- In a valid table sixteen clients fit, and each gets the next place. The seventeenth is let past the guard, which
-- stops only the eighteenth, and is written past the end of the table.
pub add_client_lem :
    (fd : ℤ) (c : Clients)
    → IsValid c
    → ((c.count < max_clients)
        × (c' : Clients) × (add_client fd c ≡ returns c')
        × IsValid c'
        × (c'.count ≡ c.count + 1)
        × (fd_at c' c.count ≡ fd)
        × ((i : ℕ) → i < c.count → fd_at c' i ≡ fd_at c i))
      ⊎ ((c.count ≡ max_clients) × (add_client fd c ≡ out_of_bounds))
unfolding add_client
add_client_lem fd c v = elim (dec_lt c.count max_clients) [
  | yes room ↦ inl (
    room,
    record c { client_fds = set c.client_fds c.count fd; count = c.count + 1 },
    ground arith,
    omega (arith, length-set c.client_fds c.count fd),
    refl,
    get_or-set_self c.client_fds c.count fd minus_one (omega arith),
    λ i h. get_or-set_ne c.client_fds c.count i fd minus_one (omega arith),
  )
  | no full ↦ inr (omega arith, ground arith)
]

-- A drawn client is a client of the table; without clients the draw is -1.
pub rand_client_lem :
    (drawn : ℕ) (c : Clients)
    → ((c.count ≡ 0) × (rand_client drawn c ≡ minus_one))
      ⊎ ((i : ℕ) × (i < c.count) × (rand_client drawn c ≡ fd_at c i))
unfolding rand_client
rand_client_lem drawn c = elim (dec_lt 1 c.count) [
  | yes many ↦ inr (drawn % c.count, grind arith, ground arith)
  | no few ↦ elim (dec_lt 0 c.count) [
    | yes one ↦ inr (0, one, ground arith)
    | no none_there ↦ inl (omega arith, ground arith)
  ]
]

-- The answer of a client is counted for it: with `k` the first place of the descriptor, the loop
-- raises entry `k`, and ends at index `k`.
pong_from-found :
    (fd : ℤ) (left i k : ℕ) (c : Clients)
    → i ≤ k
    → k < i + left
    → fd_at c k ≡ fd
    → ((j : ℕ) → i ≤ j → j < k → fd_at c j ≢ fd)
    → pong_from fd left i c
      ≡ (k, record c { clients_pong = set c.clients_pong k (get_or c.clients_pong k 0 + 1) })
unfolding pong_from
pong_from-found fd zero i k c h l e first = absurd (omega arith)
pong_from-found fd (suc left) i k c h l e first = elim (dec_lt i k) [
  | yes before ↦ ground (
    arith,
    first i (omega arith) before,
    eqb_ℤ_iff (fd_at c i) fd,
    pong_from-found fd left (i + 1) k c (omega arith) (omega arith) e
        (λ j a b. first j (omega arith) b),
  )
  | no there ↦
      let same : i ≡ k = omega arith in rw same (ground (arith, e, eqb_ℤ_iff (fd_at c k) fd))
]

-- `ping_task` clears the answers of every client and of no one else, and keeps the table.
ping_from-lem :
    (left i : ℕ) (c : Clients) (w : List ℤ) (j : ℕ)
    → i + left ≤ length c.clients_pong
    → ((ping_from left i c w).0.client_fds ≡ c.client_fds)
      × ((ping_from left i c w).0.count ≡ c.count)
      × (length (ping_from left i c w).0.clients_pong ≡ length c.clients_pong)
      × (i ≤ j → j < i + left → get_or (ping_from left i c w).0.clients_pong j 0 ≡ 0)
      × (j < i → get_or (ping_from left i c w).0.clients_pong j 0 ≡ get_or c.clients_pong j 0)
unfolding ping_from
ping_from-lem zero i c w j h = (refl, refl, refl, λ a b. absurd (omega arith), λ a. refl)
ping_from-lem (suc left) i c w j h =
    let c1 : Clients = record c { clients_pong = set c.clients_pong i 0 } in
    let (fds, n, l, zeroed, left_alone) =
      ping_from-lem left (i + 1) c1 (fd_at c i ∷ w) j
        (omega (arith, length-set c.clients_pong i 0)) in
    (
      fds,
      n,
      l ∙ length-set c.clients_pong i 0,
      λ a b. ground (arith, zeroed, left_alone, get_or-set_self c.clients_pong i 0 0),
      λ a. left_alone (omega arith) ∙ get_or-set_ne c.clients_pong i j 0 0 (omega arith),
    )

marked :
    (l : List ℕ) (k i : ℕ)
    → k < length l
    → get_or l i 0 ≡ 0
    → get_or l k 0 ≡ 0
    → get_or (set l k (get_or l k 0 + 1)) i 0 ≡ (if i == k then 1 else 0)
marked l k i h zi zk =
    ground
      (arith, get_or-set_self l k (get_or l k 0 + 1) 0, get_or-set_ne l k i (get_or l k 0 + 1) 0)

-- In a valid table where no client before `k` has the descriptor of the client at `k`: after a round of
-- `ping_task` and one answer from the client at `k`, its entry is 1, and that of every other client 0.
pub ping-pong :
    (c : Clients) (k i : ℕ)
    → IsValid c
    → k < c.count
    → i < c.count
    → ((j : ℕ) → j < k → fd_at c j ≢ fd_at c k)
    → get_or (pong (fd_at c k) (ping c).0).1.clients_pong i 0 ≡ (if i == k then 1 else 0)
unfolding ping pong
ping-pong c k i v hk hi first =
    let room : 0 + c.count ≤ length c.clients_pong = omega (arith, v.pongs, v.counted) in
    let (fds, n, l, zeroed_i, u) = ping_from-lem c.count 0 c [] i room in
    let (f2, n2, l2, zeroed_k, u2) = ping_from-lem c.count 0 c [] k room in
    let c1 : Clients = (ping_from c.count 0 c []).0 in
    let at : (j : ℕ) → fd_at c1 j ≡ fd_at c j = λ j. ap (λ t. get_or t j minus_one) fds in
    let heard =
      pong_from-found (fd_at c k) c1.count 0 k c1 (omega arith) (omega (arith, n)) (at k)
        (λ j a b q. first j b (sym (at j) ∙ q)) in
    ap (λ t. get_or t.1.clients_pong i 0) heard
    ∙ marked c1.clients_pong k i (omega (arith, v.pongs, v.counted, l))
        (zeroed_i (omega arith) (omega arith)) (zeroed_k (omega arith) (omega arith))
