-- ===== src/Hairdresser/Posix/Clients.antt =====
-- Every step of a client keeps the invariant of the shop.
use systemy_operacyjne_c.Base.{
  ℕ, ◌+◌, ◌-◌, ◌<◌, ◌≡◌, refl, Option, none, some, if◌then◌else◌, arith,
}
use systemy_operacyjne_c.Base.Int.{ℤ, pos, negsuc, eqb_ℤ}
use systemy_operacyjne_c.Hairdresser.Fifo.{push_fifo}
use systemy_operacyjne_c.Hairdresser.Fifo.Refine.{push_fifo-IsValid, sit-IsValid, chair-push_fifo}
use systemy_operacyjne_c.Hairdresser.Line.{line, line-push, line-sit, count-snoc}
use systemy_operacyjne_c.Hairdresser.Posix.{
  Shop, Client, ClientAt, update, goes, place_result, after_check, top, want_fifo, looking, waking,
  slowed, sitting, queueing, unlocking, unchecking, waiting, finished, ClientStep, enter, done,
  lock, find_asleep, find_awake, wake, be_let_on, sit, queue, unlock, uncheck, get_cut,
}
use systemy_operacyjne_c.Hairdresser.Posix.Invariant.{
  signalled, awaits, waits, Holder, nobody, a_client, inside, rousing, held_up, about_to_sit,
  in_line, Inv,
}

signalled-goes :
    (f : ℕ → Client) (p : ℕ) (a : ClientAt) (z : ℤ) → signalled (goes f p a) z ≡ signalled f z
signalled-goes f p a (pos r) = ground arith
signalled-goes f p a (negsuc n) = refl

awaits-goes :
    (f : ℕ → Client) (p : ℕ) (a : ClientAt) (z : ℤ)
    → awaits (goes f p a) z + (if eqb_ℤ (pos p) z then waits (f p).place else 0)
      ≡ awaits f z + (if eqb_ℤ (pos p) z then waits a else 0)
awaits-goes f p a (pos r) = ground arith
awaits-goes f p a (negsuc n) = refl

-- A delivered signal ends the wait of its client.
abbrev after_cut : (ℕ → Client) → ℕ → ℕ → Client
after_cut f p =
    update f p (record { place = top; cuts = (f p).cuts + 1; pending = (f p).pending - 1 })

cut-turn :
    (f : ℕ → Client) (p : ℕ) (z : ℤ)
    → (f p).place ≡ waiting
    → 0 < (f p).pending
    → signalled f z + awaits (after_cut f p) z ≡ signalled (after_cut f p) z + awaits f z
cut-turn f p (pos r) e k = ground arith
cut-turn f p (negsuc n) e k = refl

module _ {k : ℕ} {s : Shop} {p : ℕ} {h : Holder} {c : Option ℕ} (inv : Inv s h c) where
  pub client-Inv : {t : Shop} → ClientStep k s p t → (h' : Holder) × (c' : Option ℕ) × Inv t h' c'
  client-Inv (enter e m k) = (
    h,
    some p,
    record {
      room = inv.room;
      fifo_held = inv.fifo_held;
      occupied = inv.occupied;
      check_held = ground (arith, inv.check_own p);
      barber_own = inv.barber_own;
      client_own = λ r. ground (arith, inv.client_own r, inv.client_own p);
      check_own = λ r. ground (arith, inv.check_own r, inv.check_own p);
      barber_in = inv.barber_in;
      turns = λ z. ground (
        arith,
        inv.turns z,
        inv.client_own p,
        signalled-goes s.client p want_fifo z,
        awaits-goes s.client p want_fifo z,
      );
    },
  )
  client-Inv (done e m) = (
    h,
    c,
    record {
      room = inv.room;
      fifo_held = inv.fifo_held;
      occupied = inv.occupied;
      check_held = inv.check_held;
      barber_own = inv.barber_own;
      client_own = λ r. ground (arith, inv.client_own r, inv.client_own p);
      check_own = λ r. ground (arith, inv.check_own r, inv.check_own p);
      barber_in = inv.barber_in;
      turns = λ z. ground (
        arith,
        inv.turns z,
        inv.client_own p,
        signalled-goes s.client p finished z,
        awaits-goes s.client p finished z,
      );
    },
  )
  client-Inv (lock e k) = (
    a_client p inside,
    c,
    record {
      room = inv.room;
      fifo_held = ground arith;
      occupied = λ e. ground arith;
      check_held = inv.check_held;
      barber_own = ground arith;
      client_own = λ r. ground (arith, inv.client_own r, inv.client_own p);
      check_own = λ r. ground (arith, inv.check_own r, inv.check_own p);
      barber_in = ground arith;
      turns = λ z. ground (
        arith,
        inv.turns z,
        inv.client_own p,
        signalled-goes s.client p looking z,
        awaits-goes s.client p looking z,
      );
    },
  )
  client-Inv (find_asleep e k) = (
    a_client p rousing,
    c,
    record {
      room = inv.room;
      fifo_held = ground (arith, inv.client_own p);
      occupied = λ e. ground arith;
      check_held = inv.check_held;
      barber_own = ground (arith, inv.client_own p);
      client_own = λ r. ground (arith, inv.client_own r, inv.client_own p);
      check_own = λ r. ground (arith, inv.check_own r, inv.check_own p);
      barber_in = ground (arith, inv.client_own p);
      turns = λ z. ground (
        arith,
        inv.turns z,
        inv.client_own p,
        signalled-goes s.client p waking z,
        awaits-goes s.client p waking z,
      );
    },
  )
  client-Inv (find_awake e k) = (
    a_client p in_line,
    c,
    record {
      room = inv.room;
      fifo_held = ground (arith, inv.client_own p);
      occupied = λ e. ground arith;
      check_held = inv.check_held;
      barber_own = ground (arith, inv.client_own p);
      client_own = λ r. ground (arith, inv.client_own r, inv.client_own p);
      check_own = λ r. ground (arith, inv.check_own r, inv.check_own p);
      barber_in = ground (arith, inv.client_own p);
      turns = λ z. ground (
        arith,
        inv.turns z,
        inv.client_own p,
        signalled-goes s.client p queueing z,
        awaits-goes s.client p queueing z,
      );
    },
  )
  client-Inv (wake e) = (
    a_client p held_up,
    c,
    record {
      room = inv.room;
      fifo_held = ground (arith, inv.client_own p);
      occupied = λ e. ground arith;
      check_held = inv.check_held;
      barber_own = ground (arith, inv.client_own p);
      client_own = λ r. ground (arith, inv.client_own r, inv.client_own p);
      check_own = λ r. ground (arith, inv.check_own r, inv.check_own p);
      barber_in = ground (arith, inv.client_own p);
      turns = λ z. ground (
        arith,
        inv.turns z,
        inv.client_own p,
        signalled-goes s.client p slowed z,
        awaits-goes s.client p slowed z,
      );
    },
  )
  client-Inv (be_let_on e k) = (
    a_client p about_to_sit,
    c,
    record {
      room = inv.room;
      fifo_held = ground (arith, inv.client_own p);
      occupied = λ e. ground arith;
      check_held = inv.check_held;
      barber_own = ground (arith, inv.client_own p);
      client_own = λ r. ground (arith, inv.client_own r, inv.client_own p);
      check_own = λ r. ground (arith, inv.check_own r, inv.check_own p);
      barber_in = ground (arith, inv.client_own p);
      turns = λ z. ground (
        arith,
        inv.turns z,
        inv.client_own p,
        signalled-goes s.client p sitting z,
        awaits-goes s.client p sitting z,
      );
    },
  )
  client-Inv (sit e) = (
    a_client p inside,
    c,
    record {
      room = sit-IsValid s.fifo (pos p) inv.room;
      fifo_held = ground (arith, inv.client_own p);
      occupied = λ e. ground arith;
      check_held = inv.check_held;
      barber_own = ground (arith, inv.client_own p);
      client_own = λ r. ground (arith, inv.client_own r, inv.client_own p);
      check_own = λ r. ground (arith, inv.check_own r, inv.check_own p);
      barber_in = ground (arith, inv.client_own p);
      turns = λ z. ground (
        arith,
        inv.turns z,
        inv.client_own p,
        signalled-goes s.client p (unlocking (pos 1)) z,
        awaits-goes s.client p (unlocking (pos 1)) z,
        line-sit s.fifo (pos p),
      );
    },
  )
  client-Inv (queue e) = (
    a_client p inside,
    c,
    record {
      room = push_fifo-IsValid s.fifo (pos p) inv.room;
      fifo_held = ground (arith, inv.client_own p);
      occupied = λ e. ground arith;
      check_held = inv.check_held;
      barber_own = ground (arith, inv.client_own p);
      client_own = λ r. ground (arith, inv.client_own r, inv.client_own p);
      check_own = λ r. ground (arith, inv.check_own r, inv.check_own p);
      barber_in = ground (arith, inv.client_own p);
      turns = λ z. ground (
        arith,
        inv.turns z,
        inv.client_own p,
        signalled-goes s.client p (unlocking (place_result (push_fifo s.fifo (pos p)).0)) z,
        awaits-goes s.client p (unlocking (place_result (push_fifo s.fifo (pos p)).0)) z,
        line-push s.fifo (pos p) inv.room,
        count-snoc z (line s.fifo) (pos p),
        chair-push_fifo s.fifo (pos p),
      );
    },
  )
  client-Inv (unlock res e) = (
    nobody,
    c,
    record {
      room = inv.room;
      fifo_held = ground (arith, inv.client_own p);
      occupied = tt;
      check_held = inv.check_held;
      barber_own = ground (arith, inv.client_own p);
      client_own = λ r. ground (arith, inv.client_own r, inv.client_own p);
      check_own = λ r. ground (arith, inv.check_own r, inv.check_own p);
      barber_in = ground (arith, inv.client_own p);
      turns = λ z. ground (
        arith,
        inv.turns z,
        inv.client_own p,
        signalled-goes s.client p (unchecking res) z,
        awaits-goes s.client p (unchecking res) z,
      );
    },
  )
  client-Inv (uncheck res e) = (
    h,
    none,
    record {
      room = inv.room;
      fifo_held = inv.fifo_held;
      occupied = inv.occupied;
      check_held = ground (arith, inv.check_own p);
      barber_own = inv.barber_own;
      client_own = λ r. ground (arith, inv.client_own r, inv.client_own p);
      check_own = λ r. ground (arith, inv.check_own r, inv.check_own p);
      barber_in = inv.barber_in;
      turns = λ z. ground (
        arith,
        inv.turns z,
        inv.client_own p,
        signalled-goes s.client p (after_check res) z,
        awaits-goes s.client p (after_check res) z,
      );
    },
  )
  client-Inv (get_cut e k) = (
    h,
    c,
    record {
      room = inv.room;
      fifo_held = inv.fifo_held;
      occupied = inv.occupied;
      check_held = inv.check_held;
      barber_own = inv.barber_own;
      client_own = λ r. ground (arith, inv.client_own r, inv.client_own p);
      check_own = λ r. ground (arith, inv.check_own r, inv.check_own p);
      barber_in = inv.barber_in;
      turns = λ z. ground (arith, inv.turns z, cut-turn s.client p z);
    },
  )
