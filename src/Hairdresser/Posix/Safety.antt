-- ===== src/Hairdresser/Posix/Safety.antt =====
-- What no order of steps of the barber and his clients can break.
use systemy_operacyjne_c.Base.{
  ℕ, ◌+◌, ◌≤◌, ◌<◌, ◌≡◌, ◌≢◌, ◌⊎◌, refl, Bool, true, false, Option, none, arith, length,
}
use systemy_operacyjne_c.Base.Int.{ℤ, pos, negsuc, eqb_ℤ_iff}
use systemy_operacyjne_c.Hairdresser.Fifo.{Fifo}
use systemy_operacyjne_c.Hairdresser.Fifo.Refine.{fifo_init-IsValid}
use systemy_operacyjne_c.Hairdresser.Line.{line, line-init, count}
use systemy_operacyjne_c.Hairdresser.Posix.{
  Shop, waiting, asleep, reposting, slowing, taking, by_barber, by_client, opening, Reach, here,
  then_,
}
use systemy_operacyjne_c.Hairdresser.Posix.Moves.{barber-Inv}
use systemy_operacyjne_c.Hairdresser.Posix.Clients.{client-Inv}
use systemy_operacyjne_c.Hairdresser.Posix.Invariant.{
  stage, outside, about_to_sit, barber_holds, Holder, nobody, the_barber, a_client, Stage, stage_of,
  Inv, awaits, signalled, in_hand, chair_counts,
}

one_of :
    (h : Holder) {p q : ℕ} {a b : Stage}
    → a ≡ stage_of h p
    → b ≡ stage_of h q
    → a ≢ outside
    → b ≢ outside
    → p ≡ q
one_of nobody e1 e2 n1 n2 = absurd (n1 e1)
one_of the_barber e1 e2 n1 n2 = absurd (n1 e1)
one_of (a_client o st) e1 e2 n1 n2 = ground arith

one_holder :
    {s : Shop} {h : Holder} {c : Option ℕ}
    → Inv s h c
    → (p q : ℕ) → stage (s.client p).place ≢ outside
    → stage (s.client q).place ≢ outside
    → p ≡ q
one_holder {s} {h} inv p q inside other =
    one_of h (inv.client_own p) (inv.client_own q) inside other

barber_outside :
    {s : Shop} {h : Holder} {c : Option ℕ}
    → Inv s h c
    → (p : ℕ) → stage (s.client p).place ≢ outside
    → barber_holds s.barber ≡ false
barber_outside {s} {h = nobody} inv p inside = inv.barber_own
barber_outside {s} {h = the_barber} inv p inside = absurd (inside (inv.client_own p))
barber_outside {s} {h = a_client q st} inv p inside = inv.barber_own

holder_seats :
    {s : Shop} {h : Holder} {c : Option ℕ}
    → Inv s h c
    → (p : ℕ) → stage (s.client p).place ≢ outside
    → (stage (s.client p).place ≢ about_to_sit)
      ⊎ ((s.barber ≡ taking) × (s.barber_sem ≡ 1) × (s.slower_sem ≡ 0))
holder_seats {s} {h = nobody} inv p inside = absurd (inside (inv.client_own p))
holder_seats {s} {h = the_barber} inv p inside = absurd (inside (inv.client_own p))
holder_seats {s} {h = a_client q st} inv p inside = ground (arith, inv.client_own p)

module _ (cuts_number : ℕ) (shared : Fifo) (chair_number : ℕ) (forked : ℕ → Bool)
    (enough : 0 < chair_number) (storage : chair_number ≤ length shared.tab) where
  abbrev start : Shop
  start = opening shared chair_number forked

  opening-turns : (z : ℤ) → signalled start.client z ≡ awaits start.client z
  opening-turns (pos p) = ground arith
  opening-turns (negsuc n) = refl

  opening-Inv : Inv start nobody none
  opening-Inv = record {
    room = (fifo_init-IsValid shared chair_number enough storage).0;
    fifo_held = refl;
    occupied = tt;
    check_held = refl;
    barber_own = refl;
    client_own = λ r. ground arith;
    check_own = λ r. ground arith;
    barber_in = ground (arith, line-init shared chair_number enough);
    turns = λ z. ground (arith, line-init shared chair_number enough, opening-turns z);
  }

  pub Reach-Inv : {s : Shop} → Reach cuts_number start s → (h : Holder) × (c : Option ℕ) × Inv s h c
  Reach-Inv here = (nobody, none, opening-Inv)
  Reach-Inv (then_ r (by_barber st)) =
      let (h, c, inv) = Reach-Inv r in let (h', inv') = barber-Inv inv st in (h', c, inv')
  Reach-Inv (then_ r (by_client p st)) = let (h, c, inv) = Reach-Inv r in client-Inv inv st

  -- In every state that a run from the opening of the shop comes to, the waiting room is used by one
  -- process at a time, and a client who is about to sit down finds the barber before `takeChair`,
  -- with BARBER raised and SLOWER taken.
  pub one_in_the_room :
      {s : Shop}
      → Reach cuts_number start s
      → (p q : ℕ) → stage (s.client p).place ≢ outside
      → (stage (s.client q).place ≢ outside → p ≡ q)
        × (barber_holds s.barber ≡ false)
        × ((stage (s.client p).place ≢ about_to_sit)
            ⊎ ((s.barber ≡ taking) × (s.barber_sem ≡ 1) × (s.slower_sem ≡ 0)))
  one_in_the_room r p q inside =
      let (h, c, inv) = Reach-Inv r in
      (one_holder inv p q inside, barber_outside inv p inside, holder_seats inv p inside)

  -- In every state that a run from the opening of the shop comes to, a client who waits in
  -- `sigsuspend` stands exactly once in the line, in the barber's hands or among the signals sent,
  -- or else in the chair, which the barber has yet to read; and while no signal is sent to the
  -- client, BARBER is raised and the barber is in `takeChair`, in `cut` or in the inner loop.
  pub turn_is_kept :
      {s : Shop}
      → Reach cuts_number start s
      → (p : ℕ) → (s.client p).place ≡ waiting
      → ((count (pos p) (line s.fifo) + in_hand s.barber (pos p) + (s.client p).pending ≡ 1)
          ⊎ ((count (pos p) (line s.fifo) + in_hand s.barber (pos p) + (s.client p).pending ≡ 0)
              × (s.fifo.chair ≡ pos p)
              × (chair_counts s.barber ≡ true)))
        × (((s.client p).pending ≡ 1)
            ⊎ ((s.barber_sem ≡ 1)
                × (s.barber ≢ asleep)
                × (s.barber ≢ reposting)
                × (s.barber ≢ slowing)))
  turn_is_kept {s} r p e =
      let (h, c, inv) = Reach-Inv r in
      (
        ground (arith, inv.turns (pos p), eqb_ℤ_iff s.fifo.chair (pos p)),
        ground (arith, inv.turns (pos p), inv.barber_in),
      )
