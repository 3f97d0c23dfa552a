-- ===== src/Datagrams/Closing.antt =====
-- What EXIT does to such a table.
use systemy_operacyjne_c.Base.{
  ℕ, zero, suc, ◌+◌, ◌-◌, ◌≤◌, ◌<◌, ◌≡◌, ◌⊎◌, inl, inr, refl, ap, ◌∙◌, true, false, arith, dec_lt,
}
use systemy_operacyjne_c.Base.Int.{ℤ, eqb_ℤ_iff}
use systemy_operacyjne_c.Sockets.Clients.{Clients, returns, exits, fd_at}
use systemy_operacyjne_c.Datagrams.{Server, close_loop, close_client}
use systemy_operacyjne_c.Datagrams.Itself.{Itself}

module _ (fd : ℤ) where
  -- The entry at `i` is `fd`, and it is closed already.
  close_twice :
      (left i j : ℕ) (c : Clients)
      → i < c.count
      → fd_at c i ≡ fd
      → close_loop fd (suc left) i j (record { clients = c; is_open = false }) ≡ exits
  unfolding close_loop
  close_twice left i j c h e = ground (arith, e, eqb_ℤ_iff (fd_at c i) fd)

  close_over :
      (left i j : ℕ) (c : Clients)
      → c.count ≤ i
      → close_loop fd left i j (record { clients = c; is_open = false })
        ≡ returns (record { clients = c; is_open = false })
  unfolding close_loop
  close_over zero i j c h = refl
  close_over (suc left) i j c h = ground arith

  close_first :
      (left : ℕ) (c : Clients)
      → 0 < c.count
      → fd_at c 0 ≡ fd
      → close_loop fd (suc left) 0 0 (record { clients = c; is_open = true })
        ≡ close_loop fd left
            (0 + 1)
            0
            (record { clients = record c { count = c.count - 1 }; is_open = false })
  unfolding close_loop
  close_first left c h e = ground (arith, e, eqb_ℤ_iff (fd_at c 0) fd)

  close_from :
      (left : ℕ) (c : Clients)
      → left ≡ c.count
      → 0 < left
      → ((i : ℕ) → i < c.count → fd_at c i ≡ fd)
      → (close_loop fd left 0 0 (record { clients = c; is_open = true }) ≡ exits)
        ⊎ ((t : Server) × (close_loop fd left 0 0 (record { clients = c; is_open = true })
              ≡ returns t)
            × (t.is_open ≡ false))
  close_from zero c n h same = absurd (omega arith)
  close_from (suc zero) c n h same =
      let c1 : Clients = record c { count = c.count - 1 } in
      inr (
        record { clients = c1; is_open = false },
        close_first zero c (omega arith) (same 0 (omega arith))
            ∙ close_over zero 1 0 c1 (omega arith),
        refl,
      )
  close_from (suc (suc left)) c n h same =
      let c1 : Clients = record c { count = c.count - 1 } in
      let first = close_first (suc left) c (omega arith) (same 0 (omega arith)) in
      elim (dec_lt 1 c1.count) [
        | yes more ↦ inl (first ∙ close_twice left 1 0 c1 more (same 1 (omega arith)))
        | no last ↦ inr (
          record { clients = c1; is_open = false },
          first ∙ close_over (suc left) 1 0 c1 (omega arith),
          refl,
        )
      ]

  -- With a client in the table EXIT closes the socket of the server, or closes it twice.
  pub close_client-ends :
      (s : Server)
      → Itself fd s
      → 0 < s.clients.count
      → (close_client fd s ≡ exits)
        ⊎ ((t : Server) × (close_client fd s ≡ returns t) × (t.is_open ≡ false))
  unfolding close_client
  close_client-ends s inv h =
      let opened : s ≡ record { clients = s.clients; is_open = true } =
        ap (λ b. record { clients = s.clients; is_open = b }) inv.open_ in
      ground (arith, opened, close_from s.clients.count s.clients refl h inv.same)
