-- ===== src/Hairdresser/Posix/Progress.antt =====
-- The shop never stops for good: while a client has not finished, someone can take a step.
use systemy_operacyjne_c.Base.{
  ℕ, ◌≤◌, ◌<◌, ◌≡◌, ◌≢◌, ◌⊎◌, inl, inr, refl, Bool, Option, none, some, arith, length, Bool-cases,
  dec_lt, ℕ_discrete,
}
use systemy_operacyjne_c.Base.Int.{pos, minus_one, eqb_ℤ, eqb_ℤ_iff}
use systemy_operacyjne_c.Hairdresser.Fifo.{Fifo, pop_fifo}
use systemy_operacyjne_c.Hairdresser.Posix.{
  Shop, Barber, asleep, reposting, slowing, taking, reading, leaving, cutting, next, popping,
  freeing, dozing, closing, ClientAt, top, want_fifo, looking, waking, slowed, sitting, queueing,
  unlocking, unchecking, waiting, finished, BarberStep, ClientStep, Step, by_barber, by_client,
  opening, Reach,
}
use systemy_operacyjne_c.Hairdresser.Posix.Safety.{Reach-Inv}
use systemy_operacyjne_c.Hairdresser.Posix.Invariant.{
  Stage, Holder, nobody, the_barber, a_client, Inv,
}

-- What has to be positive for the barber's next step.
abbrev waits_for : Barber → Shop → ℕ
waits_for asleep s = s.barber_sem
waits_for dozing s = s.barber_sem
waits_for taking s = s.fifo_sem
waits_for next s = s.fifo_sem
waits_for _ s = 1

barber_can :
    (s : Shop) (b : Barber) → s.barber ≡ b → 0 < waits_for b s → (t : Shop) × BarberStep s t
barber_can s asleep e h = (_, BarberStep.wake e h)
barber_can s reposting e h = (_, BarberStep.repost e)
barber_can s slowing e h = (_, BarberStep.slow e)
barber_can s taking e h = (_, BarberStep.take e h)
barber_can s reading e h = (_, BarberStep.read e)
barber_can s (leaving z) e h = (_, BarberStep.leave z e)
barber_can s (cutting z) e h = (_, BarberStep.cut z e)
barber_can s next e h = (_, BarberStep.lock e h)
barber_can s popping e h = elim (Bool-cases (eqb_ℤ (pop_fifo s.fifo).0 minus_one)) [
  | inl y ↦ (_, BarberStep.pop_none e ((eqb_ℤ_iff _ _).0 y))
  | inr n ↦ (_, BarberStep.pop_one e (λ y. ground arith))
]
barber_can s (freeing z) e h = (_, BarberStep.free z e)
barber_can s dozing e h = (_, BarberStep.doze e h)
barber_can s closing e h = (_, BarberStep.close e)

-- What has to be positive for the next step of a client, but for the test of the loop.
abbrev needs : ClientAt → Shop → ℕ → ℕ
needs top s p = s.checker_sem
needs want_fifo s p = s.fifo_sem
needs slowed s p = s.slower_sem
needs waiting s p = (s.client p).pending
needs finished s p = 0
needs _ s p = 1

client_can :
    (k : ℕ) (s : Shop) (p : ℕ) (a : ClientAt)
    → (s.client p).place ≡ a
    → 0 < needs a s p
    → (t : Shop) × ClientStep k s p t
client_can k s p top e h = elim (dec_lt (s.client p).cuts k) [
  | yes more ↦ (_, ClientStep.enter e more h)
  | no enough ↦ (_, ClientStep.done e (omega arith))
]
client_can k s p want_fifo e h = (_, ClientStep.lock e h)
client_can k s p looking e h = elim (ℕ_discrete s.barber_sem 0) [
  | yes y ↦ (_, ClientStep.find_asleep e y)
  | no n ↦ (_, ClientStep.find_awake e n)
]
client_can k s p waking e h = (_, ClientStep.wake e)
client_can k s p slowed e h = (_, ClientStep.be_let_on e h)
client_can k s p sitting e h = (_, ClientStep.sit e)
client_can k s p queueing e h = (_, ClientStep.queue e)
client_can k s p (unlocking res) e h = (_, ClientStep.unlock res e)
client_can k s p (unchecking res) e h = (_, ClientStep.uncheck res e)
client_can k s p waiting e h = (_, ClientStep.get_cut e h)
client_can k s p finished e h = absurd (omega arith)

barber_holding-waits_for : {s : Shop} {c : Option ℕ} → Inv s the_barber c → 0 < waits_for s.barber s
barber_holding-waits_for {s} inv = ground arith

-- A client in the room goes on by himself, or the barber lets him.
client_holding-can :
    (k : ℕ) {s : Shop} {q : ℕ} {st : Stage} {c : Option ℕ}
    → Inv s (a_client q st) c
    → (0 < needs (s.client q).place s q) ⊎ (0 < waits_for s.barber s)
client_holding-can k {s} {q} inv = ground (arith, inv.client_own q)

checking-needs : {s : Shop} {q : ℕ} → Inv s nobody (some q) → 0 < needs (s.client q).place s q
checking-needs {s} {q} inv = ground (arith, inv.client_own q, inv.check_own q)

free-needs :
    {s : Shop} {p : ℕ}
    → Inv s nobody none
    → (s.client p).place ≢ finished
    → (0 < needs (s.client p).place s p) ⊎ (0 < waits_for s.barber s)
free-needs {s} {p} inv e = ground (arith, inv.client_own p, inv.check_own p, inv.turns (pos p))

barber_goes : (k : ℕ) {s : Shop} → 0 < waits_for s.barber s → (t : Shop) × Step k s t
barber_goes k {s} h = let (t, st) = barber_can s s.barber refl h in (t, by_barber st)

client_goes :
    (k : ℕ) {s : Shop} (p : ℕ) → 0 < needs (s.client p).place s p → (t : Shop) × Step k s t
client_goes k {s} p h =
    let (t, st) = client_can k s p (s.client p).place refl h in (t, by_client p st)

can_go :
    (k : ℕ) {s : Shop} {h : Holder} {c : Option ℕ}
    → Inv s h c
    → (p : ℕ) → (s.client p).place ≢ finished
    → (t : Shop) × Step k s t
can_go k {h = the_barber} inv p e = barber_goes k (barber_holding-waits_for inv)
can_go k {h = a_client q st} inv p e = elim (client_holding-can k inv) [
  | inl own ↦ client_goes k q own
  | inr barber ↦ barber_goes k barber
]
can_go k {h = nobody} {c = some q} inv p e = client_goes k q (checking-needs inv)
can_go k {h = nobody} {c = none} inv p e = elim (free-needs {p = p} inv e) [
  | inl own ↦ client_goes k p own
  | inr barber ↦ barber_goes k barber
]

-- The shop does not come to a standstill: in every state that a run from the opening of the shop
-- comes to, while some client has not finished, the barber or a client can take a step.
pub no_standstill :
    (cuts_number : ℕ) (shared : Fifo) (chair_number : ℕ) (forked : ℕ → Bool)
    → 0 < chair_number
    → chair_number ≤ length shared.tab
    → {s : Shop} → Reach cuts_number (opening shared chair_number forked) s
    → (p : ℕ) → (s.client p).place ≢ finished
    → (t : Shop) × Step cuts_number s t
no_standstill k shared chairs forked enough storage r p e =
    let (h, c, inv) = Reach-Inv k shared chairs forked enough storage r in can_go k inv p e
