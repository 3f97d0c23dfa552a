-- ===== src/Hairdresser/Tests.antt =====
-- Runs of the barber shop with one client and one chair.
use systemy_operacyjne_c.Base.{
  ℕ, ◌+◌, ◌<◌, ◌≡◌, ◌≢◌, ◌⊎◌, refl, Bool, true, false, [], ◌∷◌, ◌==◌, arith,
}
use systemy_operacyjne_c.Base.Int.{pos}
use systemy_operacyjne_c.Hairdresser.Fifo.{Fifo, fifo_init, pop_fifo, push_fifo}
use systemy_operacyjne_c.Hairdresser.Fifo.Queue
use systemy_operacyjne_c.Hairdresser.Fifo.Refine.{
  IsValid, contents, push_fifo_refines, pop_fifo_refines,
}
use systemy_operacyjne_c.Hairdresser.Line.{line, count}
use systemy_operacyjne_c.Hairdresser.Shop.{
  Shop, BarberStep, ClientStep, by_barber, by_client, opening, Reach, here, then_,
}
use systemy_operacyjne_c.Hairdresser.Shop.Invariant.{
  in_hand, chair_counts, stage, outside, barber_holds,
}
use systemy_operacyjne_c.Hairdresser.Shop.Safety.{nobody_lost, mutual_exclusion, no_lost_wakeup}

abbrev room : Fifo
room = record { max = 0; head = pos 0; tail = 0; chair = pos 0; tab = pos 0 ∷ pos 0 ∷ [] }

abbrev only_one : ℕ → Bool
only_one p = p == 1

abbrev Run : Type 0
Run = (s : Shop) × Reach 1 (opening room 1 only_one) s

abbrev opened : Run
opened = (_, here)

abbrev looks_in : Run
looks_in = (
  _,
  then_ (then_ opened.1 (by_client 1 (ClientStep.enter refl (omega arith) (omega arith))))
      (by_client 1 (ClientStep.lock refl (omega arith))),
)

abbrev sits : Run
sits = (
  _,
  then_
      (then_
        (then_ (then_ looks_in.1 (by_client 1 (ClientStep.find_asleep refl refl)))
          (by_client 1 (ClientStep.wake refl)))
        (by_client 1 (ClientStep.rewake refl)))
      (by_client 1 (ClientStep.sit refl)),
)

abbrev waits : Run
waits = (
  _,
  then_ (then_ sits.1 (by_client 1 (ClientStep.unlock (pos 1) refl)))
      (by_client 1 (ClientStep.uncheck (pos 1) refl)),
)

abbrev cuts : Run
cuts = (
  _,
  then_
      (then_
        (then_ (then_ waits.1 (by_barber (BarberStep.wake refl (omega arith))))
          (by_barber (BarberStep.take refl (omega arith))))
        (by_barber (BarberStep.read refl)))
      (by_barber (BarberStep.leave (pos 1) refl)),
)

abbrev dozes : Run
unfolding pop_fifo fifo_init
dozes = (
  _,
  then_
      (then_ (then_ cuts.1 (by_barber (BarberStep.cut (pos 1) refl)))
        (by_barber (BarberStep.lock refl (omega arith))))
      (by_barber (BarberStep.pop_none refl refl)),
)

nobody_lost_example :
    (count (pos 1) (line waits.0.fifo) + in_hand waits.0.barber (pos 1) + (waits.0.client 1).pending
      ≡ 1)
    ⊎ ((count (pos 1) (line waits.0.fifo)
            + in_hand waits.0.barber (pos 1)
            + (waits.0.client 1).pending
          ≡ 0)
        × (waits.0.fifo.chair ≡ pos 1)
        × (chair_counts waits.0.barber ≡ true))
nobody_lost_example = nobody_lost 1 room 1 only_one (omega arith) (omega arith) waits.1 1 refl

mutual_exclusion_example :
    (stage (looks_in.0.client 1).place ≢ outside → ◌≡◌ {A = ℕ} 1 1)
    × (barber_holds looks_in.0.barber ≡ false)
mutual_exclusion_example =
    mutual_exclusion 1 room 1 only_one (omega arith) (omega arith) looks_in.1 1 1
      (λ e. ground arith)

no_lost_wakeup_example : 0 < waits.0.barber_sem
no_lost_wakeup_example =
    no_lost_wakeup 1 room 1 only_one (omega arith) (omega arith) waits.1 1 refl refl refl

abbrev ring : Fifo
ring = record { max = 2; head = pos 1; tail = 0; chair = pos 0; tab = pos 5 ∷ pos 7 ∷ [] }

ring-IsValid : IsValid ring
ring-IsValid = record {
  room = omega arith;
  storage = omega arith;
  tail_in = omega arith;
  head_in = omega arith;
}

push_fifo_refines_example :
    IsValid (push_fifo ring (pos 9)).1
    × (((push_fifo ring (pos 9)).0, contents (push_fifo ring (pos 9)).1)
        ≡ Queue.push 2 (contents ring) (pos 9))
push_fifo_refines_example = push_fifo_refines ring (pos 9) ring-IsValid

pop_fifo_refines_example :
    IsValid (pop_fifo ring).1
    × (((pop_fifo ring).0, contents (pop_fifo ring).1) ≡ Queue.pop (contents ring))
pop_fifo_refines_example = pop_fifo_refines ring ring-IsValid
