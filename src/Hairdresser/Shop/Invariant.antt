-- ===== src/Hairdresser/Shop/Invariant.antt =====
-- What holds of the shop between any two steps: who holds which semaphore, how far a client has
-- come in waking the barber, and where each waiting client's turn is kept.
use systemy_operacyjne_c.Base.{
  ℕ, ◌+◌, ◌≡◌, ◌≢◌, ◌⊎◌, Bool, true, false, Option, none, some, List, [], if◌then◌else◌, ◌==◌,
}
use systemy_operacyjne_c.Base.Int.{ℤ, pos, negsuc, minus_one, eqb_ℤ}
use systemy_operacyjne_c.Hairdresser.Fifo.Refine.{IsValid}
use systemy_operacyjne_c.Hairdresser.Line.{line, count}
use systemy_operacyjne_c.Hairdresser.Shop.{
  Barber, asleep, taking, reading, leaving, cutting, next, freeing, dozing, closing, ClientAt, top,
  looking, waking, rewaking, sitting, queueing, unlocking, unchecking, waiting, finished, Client,
  Shop,
}

-- What a client does inside the section that FIFO guards.
pub data Stage : Type 0 where
  outside inside rousing half_roused about_to_sit in_line : Stage

abbrev pub stage : ClientAt → Stage
stage looking = inside
stage waking = rousing
stage rewaking = half_roused
stage sitting = about_to_sit
stage queueing = in_line
stage (unlocking _) = inside
stage _ = outside

-- Who holds FIFO.
pub data Holder : Type 0 where
  nobody : Holder
  the_barber : Holder
  a_client : ℕ → Stage → Holder

abbrev pub stage_of : Holder → ℕ → Stage
stage_of (a_client p st) r = if r == p then st else outside
stage_of _ r = outside

abbrev pub holding : Holder → Stage
holding (a_client p st) = st
holding _ = outside

abbrev pub holds_check : ClientAt → Bool
holds_check top = false
holds_check waiting = false
holds_check finished = false
holds_check _ = true

abbrev pub is_checker : Option ℕ → ℕ → Bool
is_checker none r = false
is_checker (some p) r = r == p

abbrev pub barber_holds : Barber → Bool
barber_holds asleep = false
barber_holds taking = false
barber_holds (cutting _) = false
barber_holds next = false
barber_holds _ = true

abbrev pub is_barber : Holder → Bool
is_barber the_barber = true
is_barber _ = false

-- How often BARBER has been raised since the barber slept: 0, 1 or 2.
abbrev pub level : Barber → ℕ → ℕ
level asleep b = b
level closing b = b
level _ b = b + 1

abbrev pub LevelIn : Stage → ℕ → Type 0
LevelIn rousing n = n ≡ 0
LevelIn half_roused n = n ≡ 1
LevelIn about_to_sit n = n ≡ 2
LevelIn in_line n = n ≡ 2
LevelIn _ n = (n ≡ 0) ⊎ (n ≡ 2)

-- Where the barber can be, by that level and by what the holder of FIFO is at.
abbrev pub BarberIn : Barber → Stage → ℕ → List ℤ → Type 0
BarberIn asleep st n q = Unit
BarberIn taking st n q = Unit
BarberIn dozing st n q = (n ≡ 2) × (q ≡ [])
BarberIn closing st n q = n ≡ 0
BarberIn _ st n q = (n ≡ 2) × (st ≢ about_to_sit)

-- The client in the barber's hands.
abbrev pub in_hand : Barber → ℤ → ℕ
in_hand (leaving x) z = if eqb_ℤ x z then 1 else 0
in_hand (cutting x) z = if eqb_ℤ x z then 1 else 0
in_hand (freeing x) z = if eqb_ℤ x z then 1 else 0
in_hand _ z = 0

-- The chair keeps a turn from the moment the client has sat down until the barber has read it.
abbrev pub chair_counts : Barber → Bool
chair_counts asleep = true
chair_counts taking = true
chair_counts reading = true
chair_counts _ = false

abbrev pub seated : Stage → Bool
seated about_to_sit = false
seated _ = true

abbrev pub in_chair : Barber → Stage → ℕ → ℤ → ℤ → ℕ
in_chair b st n chair z =
    if chair_counts b
    then (if n == 2 then (if seated st then (if eqb_ℤ chair z then 1 else 0) else 0) else 0)
    else 0

abbrev pub signalled : (ℕ → Client) → ℤ → ℕ
signalled f (pos p) = (f p).pending
signalled f (negsuc _) = 0

-- Whether `takePlace` found a place.
abbrev pub has_place : ℤ → ℕ
has_place res = if eqb_ℤ res minus_one then 0 else 1

abbrev pub waits : ClientAt → ℕ
waits (unlocking res) = has_place res
waits (unchecking res) = has_place res
waits waiting = 1
waits _ = 0

abbrev pub awaits : (ℕ → Client) → ℤ → ℕ
awaits f (pos p) = waits (f p).place
awaits f (negsuc _) = 0

pub record Inv (s : Shop) (h : Holder) (c : Option ℕ) : Type 0 where
  pub room : IsValid s.fifo
  pub fifo_held : s.fifo_sem ≡ elim h [ nobody ↦ 1 | _ ↦ 0 ]
  pub check_held : s.check_sem ≡ elim c [ none ↦ 1 | some _ ↦ 0 ]
  pub barber_own : barber_holds s.barber ≡ is_barber h
  pub client_own : (r : ℕ) → stage (s.client r).place ≡ stage_of h r
  pub check_own : (r : ℕ) → holds_check (s.client r).place ≡ is_checker c r
  pub roused : LevelIn (holding h) (level s.barber s.barber_sem)
  pub barber_in : BarberIn s.barber (holding h) (level s.barber s.barber_sem) (line s.fifo)
  pub nobody_missed : level s.barber s.barber_sem ≡ 0 → line s.fifo ≡ []
  pub turns :
      (z : ℤ)
      → count z (line s.fifo)
          + in_hand s.barber z
          + in_chair s.barber (holding h) (level s.barber s.barber_sem) s.fifo.chair z
          + signalled s.client z
        ≡ awaits s.client z
