-- ===== src/Hairdresser/Shop/Safety.antt =====
-- What no order of steps of the barber and his clients can break.
use systemy_operacyjne_c.Base.{
  ℕ, ◌+◌, ◌≤◌, ◌<◌, ◌≡◌, ◌≢◌, ◌⊎◌, refl, Bool, true, false, Option, none, [], arith, length,
}
use systemy_operacyjne_c.Base.Int.{ℤ, pos, negsuc, eqb_ℤ_iff}
use systemy_operacyjne_c.Hairdresser.Fifo.{Fifo}
use systemy_operacyjne_c.Hairdresser.Fifo.Refine.{fifo_init-IsValid}
use systemy_operacyjne_c.Hairdresser.Line.{line, line-init, count}
use systemy_operacyjne_c.Hairdresser.Shop.{
  Shop, cutting, waiting, dozing, asleep, by_barber, by_client, opening, Reach, here, then_,
}
use systemy_operacyjne_c.Hairdresser.Shop.Moves.{barber-Inv}
use systemy_operacyjne_c.Hairdresser.Shop.Clients.{client-Inv}
use systemy_operacyjne_c.Hairdresser.Shop.Invariant.{
  stage, outside, barber_holds, Holder, nobody, Inv, awaits, signalled, in_hand, chair_counts,
}

module _ (cuts_number : ℕ) (shared : Fifo) (chair_number : ℕ) (forked : ℕ → Bool)
    (enough : 0 < chair_number) (storage : chair_number ≤ length shared.tab) where
  abbrev start : Shop
  start = opening shared chair_number forked

  opening-turns : (z : ℤ) → signalled start.client z ≡ awaits start.client z
  opening-turns (pos p) = ground arith
  opening-turns (negsuc n) = refl

  opening-Inv : Inv start nobody none
  opening-Inv = record {
    room = (fifo_init-IsValid shared chair_number enough storage).0;
    fifo_held = refl;
    check_held = refl;
    barber_own = refl;
    client_own = λ r. ground arith;
    check_own = λ r. ground arith;
    roused = ground arith;
    barber_in = tt;
    nobody_missed = λ _. line-init shared chair_number enough;
    turns = λ z. ground (arith, line-init shared chair_number enough, opening-turns z);
  }

  pub Reach-Inv : {s : Shop} → Reach cuts_number start s → (h : Holder) × (c : Option ℕ) × Inv s h c
  Reach-Inv here = (nobody, none, opening-Inv)
  Reach-Inv (then_ r (by_barber st)) =
      let (h, c, inv) = Reach-Inv r in let (h', inv') = barber-Inv inv st in (h', c, inv')
  Reach-Inv (then_ r (by_client p st)) = let (h, c, inv) = Reach-Inv r in client-Inv inv st

  -- In every state that a run from the opening of the shop comes to, the room is used by one process at
  -- a time: two clients are never both between their `semop`s
  -- on FIFO, and no client is there together with the barber.
  pub mutual_exclusion :
      {s : Shop}
      → Reach cuts_number start s
      → (p q : ℕ) → stage (s.client p).place ≢ outside
      → ((stage (s.client q).place ≢ outside → p ≡ q) × (barber_holds s.barber ≡ false))
  mutual_exclusion r p q inside =
      let (h, c, inv) = Reach-Inv r in
      (
        λ other. ground (arith, inv.client_own p, inv.client_own q),
        ground (arith, inv.client_own p, inv.barber_own),
      )

  -- In every state that a run comes to, whoever the barber is about to signal in `cut` is a client who
  -- waits for it and has no other signal pending.
  pub cut_is_awaited :
      {s : Shop}
      → Reach cuts_number start s
      → (z : ℤ) → s.barber ≡ cutting z
      → (p : ℕ) × (z ≡ pos p) × (awaits s.client (pos p) ≡ 1) × ((s.client p).pending ≡ 0)
  cut_is_awaited r (pos p) e =
      let (h, c, inv) = Reach-Inv r in
      (p, refl, ground (arith, inv.turns (pos p)), ground (arith, inv.turns (pos p)))
  cut_is_awaited r (negsuc n) e =
      let (h, c, inv) = Reach-Inv r in absurd (ground (arith, inv.turns (negsuc n)))

  -- In every state that a run comes to, no client is lost: one who waits in `sigsuspend` stands exactly once in the line, in the
  -- barber's hands or among the signals sent, or else in the chair, which the barber has yet to read.
  pub nobody_lost :
      {s : Shop}
      → Reach cuts_number start s
      → (p : ℕ) → (s.client p).place ≡ waiting
      → (count (pos p) (line s.fifo) + in_hand s.barber (pos p) + (s.client p).pending ≡ 1)
        ⊎ ((count (pos p) (line s.fifo) + in_hand s.barber (pos p) + (s.client p).pending ≡ 0)
            × (s.fifo.chair ≡ pos p)
            × (chair_counts s.barber ≡ true))
  nobody_lost {s} r p e =
      let (h, c, inv) = Reach-Inv r in
      ground (arith, inv.turns (pos p), eqb_ℤ_iff s.fifo.chair (pos p))

  -- In every state that a run comes to, no wake-up is lost: while a client waits for a cut that is not signalled yet, a barber who sleeps
  -- can take BARBER at once.
  pub no_lost_wakeup :
      {s : Shop}
      → Reach cuts_number start s
      → (p : ℕ) → (s.client p).place ≡ waiting
      → (s.client p).pending ≡ 0
      → s.barber ≡ asleep
      → 0 < s.barber_sem
  no_lost_wakeup {s} r p e quiet sleeps =
      let (h, c, inv) = Reach-Inv r in ground (arith, inv.turns (pos p), inv.nobody_missed)

  -- In every state that a run comes to, a barber about to take BARBER before he sleeps has an empty room
  -- behind him, and BARBER is 1, so that he is not stopped there.
  pub sleeps_on_empty :
      {s : Shop}
      → Reach cuts_number start s
      → s.barber ≡ dozing
      → (line s.fifo ≡ []) × (s.barber_sem ≡ 1)
  sleeps_on_empty r e =
      let (h, c, inv) = Reach-Inv r in
      (ground (arith, inv.barber_in), ground (arith, inv.barber_in))
