-- ===== src/Sockets/Events.antt =====
-- cw10/zad1/server.c: what `serverTask` does for one event of `epoll_wait`. The variable of the loop
-- over the events, which a PING overwrites, is left out, and so are calls of epoll that fail.
use systemy_operacyjne_c.Base.{
  ℕ, zero, suc, inl, inr, ◌⊎◌, dec_lt, ◌+◌, ◌≤◌, ◌<◌, ◌≡◌, refl, Bool, true, ◌||◌, List, [], ◌∷◌,
  ◌++◌, if◌then◌else◌, arith, length, take, set, append_assoc, append-nil, length-set, ap, sym, ◌∙◌,
}
use systemy_operacyjne_c.Base.Int.{ℤ, eqb_ℤ}
use systemy_operacyjne_c.Sockets.Message.{Msg}
use systemy_operacyjne_c.Sockets.Clients.{
  Clients, Ended, returns, exits, out_of_bounds, add_client, close_client, max_clients,
}
use systemy_operacyjne_c.Sockets.Clients.Closing.{live}
use systemy_operacyjne_c.Sockets.Clients.Laws.{IsValid}
use systemy_operacyjne_c.Sockets.Server.{receive}

-- What `recv` gives: a message, -1 with EAGAIN, -1 with another error, or 0.
pub data Received (F : Type 0) : Type 0 where
  arrived : Msg F → Received F
  would_block : Received F
  failed : Received F
  ended : Received F

-- EPOLLERR or EPOLLHUP; else EPOLLRDHUP; else none of them.
pub data Flags : Type 0 where
  broken : Flags
  hung_up : Flags
  ready : Flags

-- The loop around `accept4`; `fds` are the descriptors that it gives before -1.
unfoldable pub accept_loop : (fds : List ℤ) → Clients → Ended Clients
accept_loop [] c = returns c
accept_loop (fd ∷ fds) c = elim (add_client fd c) [
  | returns c' ↦ accept_loop fds c'
  | exits ↦ exits
  | out_of_bounds ↦ out_of_bounds
]

-- The loop around `recv` on the client's descriptor `fd`.
unfoldable pub receive_loop :
    {F : Type 0} → (ℤ → Bool) → ℤ → List (Received F) → Clients → Ended Clients
receive_loop close_fails fd [] c = returns c
receive_loop close_fails fd (would_block ∷ more) c = returns c
receive_loop close_fails fd (failed ∷ more) c = close_client close_fails fd c
receive_loop close_fails fd (ended ∷ more) c = close_client close_fails fd c
receive_loop close_fails fd (arrived msg ∷ more) c = elim (receive close_fails fd msg c).1 [
  | returns c' ↦ receive_loop close_fails fd more c'
  | exits ↦ exits
  | out_of_bounds ↦ out_of_bounds
]

-- One event on `fd`; `accepted` and `received` are what `accept4` or `recv` then give.
unfoldable pub on_event :
    {F : Type 0}
    → (close_fails : ℤ → Bool) → (net_sock un_sock : ℤ) → Flags
    → (fd : ℤ) → (accepted : List ℤ) → (received : List (Received F)) → Clients
    → Ended Clients
on_event close_fails net_sock un_sock flags fd accepted received c =
    let listening = eqb_ℤ fd net_sock || eqb_ℤ fd un_sock in
    elim flags [
      | broken ↦ if listening then returns c else close_client close_fails fd c
      | hung_up ↦ if listening then returns c else close_client close_fails fd c
      | ready ↦ if listening then accept_loop accepted c else receive_loop close_fails fd received c
    ]

take-set :
    (l : List ℤ) (n : ℕ) (x : ℤ) → n < length l → take (suc n) (set l n x) ≡ take n l ++ (x ∷ [])
take-set [] n x h = absurd (omega arith)
take-set (a ∷ l) zero x h = refl
take-set (a ∷ l) (suc n) x h = ap (λ t. a ∷ t) (take-set l n x (omega arith))

accept_loop_lem :
    (fds : List ℤ) (c : Clients)
    → IsValid c
    → ((c.count + length fds ≤ max_clients)
        × (c' : Clients) × (accept_loop fds c ≡ returns c')
        × IsValid c'
        × (live c' ≡ live c ++ fds))
      ⊎ ((max_clients < c.count + length fds) × (accept_loop fds c ≡ out_of_bounds))
unfolding accept_loop add_client
accept_loop_lem [] c v = inl (omega (arith, v.counted), c, refl, v, sym (append-nil (live c)))
accept_loop_lem (fd ∷ fds) c v = elim (dec_lt c.count max_clients) [
  | no full ↦ inr (omega arith, ground (arith, v.counted))
  | yes room ↦
      let c1 : Clients = record c {
        client_fds = set c.client_fds c.count fd;
        count = c.count + 1;
      } in
      let v1 : IsValid c1 = record {
        slots = length-set c.client_fds c.count fd ∙ v.slots;
        pongs = v.pongs;
        counted = omega arith;
      } in
      let next : c.count + 1 ≡ suc c.count = omega arith in
      elim (accept_loop_lem fds c1 v1) [
        | inl (fits, c', run, v', shape) ↦ inl (
          omega arith,
          c',
          ground (arith, run),
          v',
          shape
              ∙ ap (λ t. t ++ fds)
                  (ap (λ k. take k (set c.client_fds c.count fd)) next
                    ∙ take-set c.client_fds c.count fd (omega (arith, v.slots)))
              ∙ append_assoc (live c) (fd ∷ []) fds,
        )
        | inr (over, run) ↦ inr (omega arith, ground (arith, run))
      ]
]

-- An event on a listening socket, for a valid table: if the table has room for all descriptors that
-- `accept4` gives, it gets them behind its own, in their order, and stays valid; if it has not, the
-- call that finds it full writes past its end.
pub accepts_in_order :
    {F : Type 0} (close_fails : ℤ → Bool) (net_sock un_sock fd : ℤ) (accepted : List ℤ)
    (received : List (Received F)) (c : Clients)
    → IsValid c
    → (eqb_ℤ fd net_sock || eqb_ℤ fd un_sock) ≡ true
    → ((c.count + length accepted ≤ max_clients)
        × (c' : Clients) × (on_event close_fails net_sock un_sock ready fd accepted received c
            ≡ returns c')
        × IsValid c'
        × (live c' ≡ live c ++ accepted))
      ⊎ ((max_clients < c.count + length accepted)
          × (on_event close_fails net_sock un_sock ready fd accepted received c ≡ out_of_bounds))
unfolding on_event
accepts_in_order close_fails net_sock un_sock fd accepted received c v listens =
    rw listens (accept_loop_lem accepted c v)
