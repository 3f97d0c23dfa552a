-- ===== src/Hairdresser/Posix/Tests.antt =====
-- Runs of the shop over POSIX semaphores with one client and one chair.
use systemy_operacyjne_c.Base.{ℕ, ◌+◌, ◌≡◌, ◌≢◌, ◌⊎◌, refl, Bool, true, [], ◌∷◌, ◌==◌, arith}
use systemy_operacyjne_c.Base.Int.{pos}
use systemy_operacyjne_c.Hairdresser.Fifo.{Fifo}
use systemy_operacyjne_c.Hairdresser.Line.{line, count}
use systemy_operacyjne_c.Hairdresser.Posix.{
  Shop, asleep, reposting, slowing, BarberStep, ClientStep, Step, by_barber, by_client, opening,
  Reach, here, then_,
}
use systemy_operacyjne_c.Hairdresser.Posix.Invariant.{in_hand, chair_counts}
use systemy_operacyjne_c.Hairdresser.Posix.Safety.{turn_is_kept}
use systemy_operacyjne_c.Hairdresser.Posix.Progress.{no_standstill}

abbrev room : Fifo
room = record { max = 0; head = pos 0; tail = 0; chair = pos 0; tab = pos 0 ∷ pos 0 ∷ [] }

abbrev only_one : ℕ → Bool
only_one p = p == 1

abbrev Run : Type 0
Run = (s : Shop) × Reach 1 (opening room 1 only_one) s

abbrev client : {s t : Shop} → Reach 1 (opening room 1 only_one) s → ClientStep 1 s 1 t → Run
client r st = (_, then_ r (by_client 1 st))

abbrev barber : {s t : Shop} → Reach 1 (opening room 1 only_one) s → BarberStep s t → Run
barber r st = (_, then_ r (by_barber st))

abbrev looks_in : Run
looks_in =
    client (client here (ClientStep.enter refl (omega arith) (omega arith))).1
      (ClientStep.lock refl (omega arith))

-- The client rouses the barber and waits for SLOWER.
abbrev rouses : Run
rouses = client (client looks_in.1 (ClientStep.find_asleep refl refl)).1 (ClientStep.wake refl)

-- The barber raises BARBER and SLOWER, and the client goes on.
abbrev about : Run
about =
    client
      (barber
        (barber (barber rouses.1 (BarberStep.wake refl (omega arith))).1 (BarberStep.repost refl)).1
        (BarberStep.slow refl)).1
      (ClientStep.be_let_on refl (omega arith))

abbrev waits : Run
waits =
    client (client (client about.1 (ClientStep.sit refl)).1 (ClientStep.unlock (pos 1) refl)).1
      (ClientStep.uncheck (pos 1) refl)

turn_is_kept_example :
    ((count (pos 1) (line waits.0.fifo)
          + in_hand waits.0.barber (pos 1)
          + (waits.0.client 1).pending
        ≡ 1)
      ⊎ ((count (pos 1) (line waits.0.fifo)
              + in_hand waits.0.barber (pos 1)
              + (waits.0.client 1).pending
            ≡ 0)
          × (waits.0.fifo.chair ≡ pos 1)
          × (chair_counts waits.0.barber ≡ true)))
    × (((waits.0.client 1).pending ≡ 1)
        ⊎ ((waits.0.barber_sem ≡ 1)
            × (waits.0.barber ≢ asleep)
            × (waits.0.barber ≢ reposting)
            × (waits.0.barber ≢ slowing)))
turn_is_kept_example = turn_is_kept 1 room 1 only_one (omega arith) (omega arith) waits.1 1 refl

no_standstill_example : (t : Shop) × Step 1 rouses.0 t
no_standstill_example =
    no_standstill 1 room 1 only_one (omega arith) (omega arith) rouses.1 1 (λ e. ground arith)
