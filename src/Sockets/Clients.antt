-- ===== src/Sockets/Clients.antt =====
-- The table of clients of cw10/zad1/server.c: `clientFds`, `clientsPong` and `clientFdsSize`, under
-- `lock`. `count` is `clientFdsSize + 1`, so that the initial -1 is 0.
pub mod Closing
pub mod Laws
use systemy_operacyjne_c.Base.{
  ℕ, zero, suc, ◌+◌, ◌-◌, ◌%◌, Bool, true, false, List, [], ◌∷◌, Option, none, some, if◌then◌else◌,
  ◌==◌, ltb, leb, get_or, set,
}
use systemy_operacyjne_c.Base.Int.{ℤ, pos, negsuc, minus_one, eqb_ℤ}

abbrev pub max_clients : ℕ
max_clients = 16

pub record Clients : Type 0 where
  pub client_fds : List ℤ
  pub clients_pong : List ℕ
  pub count : ℕ

abbrev pub fd_at : Clients → ℕ → ℤ
fd_at c i = get_or c.client_fds i minus_one

-- The end of a call: the table after it, `exit(1)`, or an access outside an array.
pub data Ended (A : Type 0) : Type 0 where
  returns : A → Ended A
  exits : Ended A
  out_of_bounds : Ended A

-- `clientFdsSize >= MAXCLIENTS` is the guard of the source.
unfoldable pub add_client : ℤ → Clients → Ended Clients
add_client fd c =
    if leb (max_clients + 1) c.count
    then exits
    else if ltb c.count max_clients
    then returns (record c { client_fds = set c.client_fds c.count fd; count = c.count + 1 })
    else out_of_bounds

-- The loop of `close_client`, for at most `left` rounds. `close_fails` says which `close` fails.
unfoldable pub close_loop : (ℤ → Bool) → ℤ → ℕ → ℕ → ℕ → Clients → Ended Clients
close_loop close_fails fd zero i j c = returns c
close_loop close_fails fd (suc left) i j c = elim (ltb i c.count) [
  | false ↦ returns c
  | true ↦ elim (eqb_ℤ (fd_at c i) fd) [
    | false ↦
        close_loop close_fails fd left (i + 1) (j + 1)
          (record c { client_fds = set c.client_fds j (fd_at c i) })
    | true ↦ elim (close_fails fd) [
      | true ↦ exits
      | false ↦ close_loop close_fails fd left (i + 1) j (record c { count = c.count - 1 })
    ]
  ]
]

-- `clientFdsSize` only falls in the loop, so `count` rounds are enough.
unfoldable pub close_client : (ℤ → Bool) → ℤ → Clients → Ended Clients
close_client close_fails fd c = close_loop close_fails fd c.count 0 0 c

-- `drawn` is what `rand()` returns.
unfoldable pub rand_client : ℕ → Clients → ℤ
rand_client drawn c =
    if c.count == 0
    then minus_one
    else if c.count == 1
    then fd_at c 0
    else fd_at c (drawn % c.count)

-- The case of PING: the loop from `i` on for at most `left` rounds. The result has the last value of
-- `i`, which is also the index of the loop over the events.
unfoldable pub pong_from : ℤ → ℕ → ℕ → Clients → ℕ × Clients
pong_from fd zero i c = (i, c)
pong_from fd (suc left) i c =
    let next = pong_from fd left (i + 1) c in
    if eqb_ℤ (fd_at c i) fd
    then (i, record c { clients_pong = set c.clients_pong i (get_or c.clients_pong i 0 + 1) })
    else next

unfoldable pub pong : ℤ → Clients → ℕ × Clients
pong fd c = pong_from fd c.count 0 c

-- The first loop of `ping_task`: clears the answers of all clients and writes PING to each.
unfoldable pub ping_from : ℕ → ℕ → Clients → List ℤ → Clients × List ℤ
ping_from zero i c written = (c, written)
ping_from (suc left) i c written =
    ping_from left (i + 1) (record c { clients_pong = set c.clients_pong i 0 })
      (fd_at c i ∷ written)

unfoldable pub ping : Clients → Clients × List ℤ
ping c = ping_from c.count 0 c []
