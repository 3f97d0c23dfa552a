-- ===== src/Datagrams.antt =====
-- cw10/zad2/server.c: the server over datagram sockets. Its table of clients is handled by the text of
-- zad1, so the table and its operations are those of Sockets/Clients.antt, but for the closing of a
-- descriptor, which here depends on whether it is still open. The clients share the socket that the
-- server receives on: what it knows of them is the descriptor of that socket.
pub mod Itself
pub mod Closing
pub mod Laws
mod Tests
use systemy_operacyjne_c.Base.{
  ℕ, zero, suc, ◌+◌, ◌-◌, Bool, true, false, ◌||◌, List, [], ◌∷◌, Option, none, some, if◌then◌else◌,
  ltb, set,
}
use systemy_operacyjne_c.Base.Int.{ℤ, minus_one, eqb_ℤ}
use systemy_operacyjne_c.Sockets.Message.{Msg, message, answer, hello, ping, exit}
use systemy_operacyjne_c.Sockets.Clients.{
  Clients, Ended, returns, exits, out_of_bounds, fd_at, add_client, rand_client, pong,
}
use systemy_operacyjne_c.Sockets.Server.{
  Printed, nothing, complaint, result, connected, Command, parse_oper, too_long, unknown, known,
  task,
}
use systemy_operacyjne_c.Sockets.Events.{Flags, broken, hung_up, ready}

-- The table, and whether the socket that is served is open.
pub record Server : Type 0 where
  pub clients : Clients
  pub is_open : Bool

-- The loop of `close_client`, for at most `left` rounds. A second `close` of the descriptor fails, and
-- `exitError` ends the server.
unfoldable pub close_loop : ℤ → ℕ → ℕ → ℕ → Server → Ended Server
close_loop fd zero i j s = returns s
close_loop fd (suc left) i j s =
    let c = s.clients in
    elim (ltb i c.count) [
      | false ↦ returns s
      | true ↦ elim (eqb_ℤ (fd_at c i) fd) [
        | false ↦
            close_loop fd left (i + 1) (j + 1)
              (record s { clients = record c { client_fds = set c.client_fds j (fd_at c i) } })
        | true ↦ elim s.is_open [
          | false ↦ exits
          | true ↦
              close_loop fd left (i + 1) j
                (record { clients = record c { count = c.count - 1 }; is_open = false })
        ]
      ]
    ]

unfoldable pub close_client : ℤ → Server → Ended Server
close_client fd s = close_loop fd s.clients.count 0 0 s

abbrev pub with_clients : Server → Ended Clients → Ended Server
with_clients s (returns c) = returns (record s { clients = c })
with_clients s exits = exits
with_clients s out_of_bounds = out_of_bounds

-- The switch on a message: `fd` is `event.data.fd`, the socket of the server itself.
unfoldable pub receive : {F : Type 0} → ℤ → Msg F → Server → Printed F × Ended Server
receive fd msg s = elim msg.mtype [
  | answer ↦ (result msg.counter msg.answer_, returns s)
  | message ↦ (complaint, returns s)
  | ping ↦ (nothing, returns (record s { clients = (pong fd s.clients).1 }))
  | exit ↦ (nothing, close_client fd s)
  | hello ↦ (connected msg.name, with_clients s (add_client fd s.clients))
]

-- `while(1)` around `recvfrom`: the server waits for more once the datagrams are read, ends by
-- `exitError`, or writes behind an array. A descriptor that is closed is refused by `recvfrom`.
pub data Served : Type 0 where
  waits : Server → Served
  ends : Served
  overruns : Served

unfoldable pub serve_loop : {F : Type 0} → ℤ → List (Msg F) → Server → Served
serve_loop fd [] s = if s.is_open then waits s else ends
serve_loop fd (msg ∷ more) s = elim s.is_open [
  | false ↦ ends
  | true ↦ elim (receive fd msg s).1 [
    | returns s' ↦ serve_loop fd more s'
    | exits ↦ ends
    | out_of_bounds ↦ overruns
  ]
]

-- One event of `epoll_wait`: its flags, its socket, and the datagrams that will come on that socket.
pub record Event (F : Type 0) : Type 0 where
  pub flags : Flags
  pub fd : ℤ
  pub arrives : List (Msg F)

-- The loop over the events of one `epoll_wait`. It does not come back from the loop around `recvfrom`.
unfoldable pub server_task :
    {F : Type 0} → (net_sock un_sock : ℤ) → List (Event F) → Server → Served
unfolding serve_loop close_client
server_task net_sock un_sock [] s = waits s
server_task net_sock un_sock (event ∷ events) s =
    let listening = eqb_ℤ event.fd net_sock || eqb_ℤ event.fd un_sock in
    let kept = server_task net_sock un_sock events s in
    let closed : Served = elim (close_client event.fd s) [
      | returns s' ↦ server_task net_sock un_sock events s'
      | exits ↦ ends
      | out_of_bounds ↦ overruns
    ] in
    elim event.flags [
      | broken ↦ if listening then kept else closed
      | hung_up ↦ if listening then kept else closed
      | ready ↦ serve_loop event.fd event.arrives s
    ]

-- How one round of `commandline` ends: nothing is sent; `msg` is sent from `un_sock` to the path
-- `dest`; `sendto` fails; or the word that is typed overwrites other variables.
pub data Commanded (F : Type 0) : Type 0 where
  skips : Command F → Commanded F
  sends : (dest : List ℕ) → Msg F → Command F → Commanded F
  fails : Commanded F
  overruns : Commanded F

-- `path` is the global variable, the path that `init_sockets` binds `un_sock` to; the client that is
-- drawn decides only what stands in the message. The number of the task is never raised. `spare` is
-- that of Sockets/Server.antt.
unfoldable pub command :
    {F : Type 0}
    → (spare : ℕ) → (path : List ℕ) → (send_fails : Bool) → Clients
    → (drawn : ℕ) → List ℕ
    → F
    → F
    → Command F
    → Commanded F
unfolding parse_oper
command spare path send_fails clients drawn word num1 num2 c = elim (parse_oper spare word) [
  | too_long ↦ overruns
  | unknown ↦ skips c
  | known op ↦
      let sent = task (rand_client drawn clients) op num1 num2 c in
      if send_fails then fails else sends path sent (record c { msg = sent })
]

-- The first loop of `ping_task`: it clears the answers and sends a PING to the same path for each
-- client, from the descriptor of the client; the result has the number sent.
unfoldable pub ping_loop : (send_fails : ℤ → Bool) → ℕ → ℕ → Clients → Ended (Clients × ℕ)
ping_loop send_fails zero i c = returns (c, 0)
ping_loop send_fails (suc left) i c =
    let rest =
      ping_loop send_fails left (i + 1) (record c { clients_pong = set c.clients_pong i 0 }) in
    if send_fails (fd_at c i) then exits else (elim rest [
      | returns (c', n) ↦ returns (c', n + 1)
      | exits ↦ exits
      | out_of_bounds ↦ out_of_bounds
    ])
