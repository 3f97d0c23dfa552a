-- ===== src/Hairdresser/Shop/Moves.antt =====
-- Every step of the barber keeps the invariant of the shop.
use systemy_operacyjne_c.Base.{ℕ, ap, ◌+◌, ◌≡◌, refl, Option, if◌then◌else◌, arith}
use systemy_operacyjne_c.Base.Int.{ℤ, pos, negsuc, minus_one, eqb_ℤ}
use systemy_operacyjne_c.Hairdresser.Fifo.Refine.{pop_fifo-IsValid}
use systemy_operacyjne_c.Hairdresser.Line.{line-pop}
use systemy_operacyjne_c.Hairdresser.Shop.{
  Shop, Client, kill, BarberStep, wake, take, read, leave, cut, lock, pop_one, pop_none, free, doze,
  close,
}
use systemy_operacyjne_c.Hairdresser.Shop.Invariant.{
  signalled, awaits, waits, Holder, nobody, the_barber, Inv,
}

kill-place : (x : ℤ) (f : ℕ → Client) (r : ℕ) → (kill x f r).place ≡ (f r).place
kill-place (pos p) f r = ground arith
kill-place (negsuc n) f r = refl

kill-awaits : (x : ℤ) (f : ℕ → Client) (z : ℤ) → awaits (kill x f) z ≡ awaits f z
kill-awaits x f (pos r) = ap waits (kill-place x f r)
kill-awaits x f (negsuc n) = refl

abbrev is_process : ℤ → ℕ
is_process (pos _) = 1
is_process (negsuc _) = 0

-- A signal to a process raises what is pending for it, and for no other.
kill-signalled :
    (x : ℤ) (f : ℕ → Client) (z : ℤ)
    → signalled (kill x f) z ≡ signalled f z + (if eqb_ℤ x z then is_process x else 0)
kill-signalled (pos p) f (pos r) = ground arith
kill-signalled (pos p) f (negsuc n) = refl
kill-signalled (negsuc p) f (pos r) = omega arith
kill-signalled (negsuc p) f (negsuc n) = ground arith

module _ {s : Shop} {h : Holder} {c : Option ℕ} (inv : Inv s h c) where
  pub barber-Inv : {t : Shop} → BarberStep s t → (h' : Holder) × Inv t h' c
  barber-Inv (wake e p) = (
    h,
    record {
      room = inv.room;
      fifo_held = inv.fifo_held;
      check_held = inv.check_held;
      barber_own = ground arith;
      client_own = inv.client_own;
      check_own = inv.check_own;
      roused = ground arith;
      barber_in = tt;
      nobody_missed = ground arith;
      turns = λ z. ground (arith, inv.turns z);
    },
  )
  barber-Inv (take e p) = (
    the_barber,
    record {
      room = inv.room;
      fifo_held = ground arith;
      check_held = inv.check_held;
      barber_own = refl;
      client_own = λ r. ground (arith, inv.client_own r);
      check_own = inv.check_own;
      roused = ground arith;
      barber_in = ground arith;
      nobody_missed = ground arith;
      turns = λ z. ground (arith, inv.turns z);
    },
  )
  barber-Inv (read e) = (
    the_barber,
    record {
      room = inv.room;
      fifo_held = ground arith;
      check_held = inv.check_held;
      barber_own = ground arith;
      client_own = λ r. ground (arith, inv.client_own r);
      check_own = inv.check_own;
      roused = ground arith;
      barber_in = ground arith;
      nobody_missed = ground arith;
      turns = λ z. ground (arith, inv.turns z);
    },
  )
  barber-Inv (leave x e) = (
    nobody,
    record {
      room = inv.room;
      fifo_held = ground arith;
      check_held = inv.check_held;
      barber_own = ground arith;
      client_own = λ r. ground (arith, inv.client_own r);
      check_own = inv.check_own;
      roused = ground arith;
      barber_in = ground arith;
      nobody_missed = ground arith;
      turns = λ z. ground (arith, inv.turns z);
    },
  )
  barber-Inv (cut x e) = (
    h,
    record {
      room = inv.room;
      fifo_held = ground arith;
      check_held = inv.check_held;
      barber_own = ground arith;
      client_own = λ r. ground (arith, inv.client_own r, kill-place x s.client r);
      check_own = λ r. ground (arith, inv.check_own r, kill-place x s.client r);
      roused = ground arith;
      barber_in = ground arith;
      nobody_missed = ground arith;
      turns =
          λ z. ground (arith, inv.turns z, kill-signalled x s.client z, kill-awaits x s.client z);
    },
  )
  barber-Inv (lock e p) = (
    the_barber,
    record {
      room = inv.room;
      fifo_held = ground arith;
      check_held = inv.check_held;
      barber_own = ground arith;
      client_own = λ r. ground (arith, inv.client_own r);
      check_own = inv.check_own;
      roused = ground arith;
      barber_in = ground arith;
      nobody_missed = ground arith;
      turns = λ z. ground (arith, inv.turns z);
    },
  )
  barber-Inv (pop_one e p) = (
    the_barber,
    record {
      room = pop_fifo-IsValid s.fifo inv.room;
      fifo_held = ground arith;
      check_held = inv.check_held;
      barber_own = ground arith;
      client_own = λ r. ground (arith, inv.client_own r);
      check_own = inv.check_own;
      roused = ground arith;
      barber_in = ground (arith, line-pop s.fifo inv.room);
      nobody_missed = ground (arith, line-pop s.fifo inv.room);
      turns = λ z. ground (arith, inv.turns z, line-pop s.fifo inv.room);
    },
  )
  barber-Inv (pop_none e p) = (
    the_barber,
    record {
      room = pop_fifo-IsValid s.fifo inv.room;
      fifo_held = ground arith;
      check_held = inv.check_held;
      barber_own = ground arith;
      client_own = λ r. ground (arith, inv.client_own r);
      check_own = inv.check_own;
      roused = ground arith;
      barber_in = ground (arith, inv.turns minus_one, line-pop s.fifo inv.room);
      nobody_missed = ground (arith, line-pop s.fifo inv.room);
      turns = λ z. ground (arith, inv.turns z, inv.turns minus_one, line-pop s.fifo inv.room);
    },
  )
  barber-Inv (free x e) = (
    nobody,
    record {
      room = inv.room;
      fifo_held = ground arith;
      check_held = inv.check_held;
      barber_own = ground arith;
      client_own = λ r. ground (arith, inv.client_own r);
      check_own = inv.check_own;
      roused = ground arith;
      barber_in = ground arith;
      nobody_missed = ground arith;
      turns = λ z. ground (arith, inv.turns z);
    },
  )
  barber-Inv (doze e p) = (
    the_barber,
    record {
      room = inv.room;
      fifo_held = ground arith;
      check_held = inv.check_held;
      barber_own = ground arith;
      client_own = λ r. ground (arith, inv.client_own r);
      check_own = inv.check_own;
      roused = ground arith;
      barber_in = ground arith;
      nobody_missed = ground arith;
      turns = λ z. ground (arith, inv.turns z);
    },
  )
  barber-Inv (close e) = (
    nobody,
    record {
      room = inv.room;
      fifo_held = ground arith;
      check_held = inv.check_held;
      barber_own = ground arith;
      client_own = λ r. ground (arith, inv.client_own r);
      check_own = inv.check_own;
      roused = ground arith;
      barber_in = ground arith;
      nobody_missed = ground arith;
      turns = λ z. ground (arith, inv.turns z);
    },
  )
