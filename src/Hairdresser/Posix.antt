-- ===== src/Hairdresser/Posix.antt =====
-- The barber and his clients over POSIX semaphores (cw07/zad2: barber.c, breeder.c), one call on a
-- semaphore or one access to the shared room at a time, in any order. Where zad1 raises BARBER
-- twice, here the barber raises BARBER again himself and lets his client go on by SLOWER. The room
-- is that of zad1, whose fifo.c zad2 repeats. `sem_wait` waits until the semaphore is positive.
-- Calls that fail are left out.
pub mod Invariant
pub mod Moves
pub mod Clients
pub mod Safety
pub mod Progress
mod Tests
use systemy_operacyjne_c.Base.{ℕ, ◌+◌, ◌-◌, ◌≤◌, ◌<◌, ◌≡◌, ◌≢◌, Bool, if◌then◌else◌, ◌==◌}
use systemy_operacyjne_c.Base.Int.{ℤ, pos, negsuc, minus_one, eqb_ℤ}
use systemy_operacyjne_c.Hairdresser.Fifo.{Fifo, pop_fifo, push_fifo, fifo_init}

-- Where the barber stands in `startWork`, `takeChair` and `cut`.
pub data Barber : Type 0 where
  asleep : Barber  -- before `sem_wait(BARBER)` at the head of the outer loop
  reposting : Barber  -- before `sem_post(BARBER)`
  slowing : Barber  -- before `sem_post(SLOWER)`
  taking : Barber  -- before `sem_wait(FIFO)` in `takeChair`
  reading : Barber  -- before `toCut = fifo->chair`
  leaving : (to_cut : ℤ) → Barber  -- before the release of FIFO in `takeChair`
  cutting : (to_cut : ℤ) → Barber  -- before `kill` in `cut`
  next : Barber  -- before `sem_wait(FIFO)` in the inner loop
  popping : Barber  -- before `popFifo`
  freeing : (to_cut : ℤ) → Barber  -- before the release of FIFO ahead of `cut`
  dozing : Barber  -- before `sem_wait(BARBER)` in the inner loop
  closing : Barber  -- before the release of FIFO ahead of `break`

-- Where a client stands in `getCut` and `takePlace`.
pub data ClientAt : Type 0 where
  top : ClientAt  -- the test of the loop in `getCut`
  want_fifo : ClientAt  -- before `sem_wait(FIFO)`
  looking : ClientAt  -- before `sem_getvalue` in `takePlace`
  waking : ClientAt  -- before `sem_post(BARBER)`
  slowed : ClientAt  -- before `sem_wait(SLOWER)`
  sitting : ClientAt  -- before `fifo->chair = myPID`
  queueing : ClientAt  -- before `pushFifo`
  unlocking : (res : ℤ) → ClientAt  -- before the release of FIFO
  unchecking : (res : ℤ) → ClientAt  -- before the release of CHECKER
  waiting : ClientAt  -- in `sigsuspend`
  finished : ClientAt  -- returned, or never started

-- `cuts` is `cutsCounter`, `pending` the SIGRTMIN signals that are queued while it is blocked.
pub record Client : Type 0 where
  pub place : ClientAt
  pub cuts : ℕ
  pub pending : ℕ

pub record Shop : Type 0 where
  pub barber_sem : ℕ
  pub fifo_sem : ℕ
  pub checker_sem : ℕ
  pub slower_sem : ℕ
  pub fifo : Fifo
  pub barber : Barber
  pub client : ℕ → Client

abbrev pub update : (ℕ → Client) → ℕ → Client → ℕ → Client
update f p a r = if r == p then a else f r

-- The client `p` goes on to `place`.
abbrev pub goes : (ℕ → Client) → ℕ → ClientAt → ℕ → Client
goes f p place = update f p (record (f p) { place = place })

-- `kill(pid, SIGRTMIN)` at the id of one process.
abbrev pub kill : ℤ → (ℕ → Client) → ℕ → Client
kill (pos p) f = update f p (record (f p) { pending = (f p).pending + 1 })
kill (negsuc _) f = f

-- After the release of CHECKER: `if(res != -1) sigsuspend(&fullMask)`.
abbrev pub after_check : ℤ → ClientAt
after_check res = if eqb_ℤ res minus_one then top else waiting

-- `int res = pushFifo(fifo, myPID)` and what `takePlace` returns for it.
abbrev pub place_result : ℤ → ℤ
place_result res = if eqb_ℤ res minus_one then minus_one else pos 0

-- One step of the barber.
pub data BarberStep (s : Shop) : Shop → Type 0 where
  wake :
      s.barber ≡ asleep
      → 0 < s.barber_sem
      → BarberStep s (record s { barber_sem = s.barber_sem - 1; barber = reposting })
  repost :
      s.barber ≡ reposting
      → BarberStep s (record s { barber_sem = s.barber_sem + 1; barber = slowing })
  slow :
      s.barber ≡ slowing
      → BarberStep s (record s { slower_sem = s.slower_sem + 1; barber = taking })
  take :
      s.barber ≡ taking
      → 0 < s.fifo_sem
      → BarberStep s (record s { fifo_sem = s.fifo_sem - 1; barber = reading })
  read : s.barber ≡ reading → BarberStep s (record s { barber = leaving s.fifo.chair })
  leave :
      (z : ℤ)
      → s.barber ≡ leaving z
      → BarberStep s (record s { fifo_sem = s.fifo_sem + 1; barber = cutting z })
  cut :
      (z : ℤ)
      → s.barber ≡ cutting z
      → BarberStep s (record s { barber = next; client = kill z s.client })
  lock :
      s.barber ≡ next
      → 0 < s.fifo_sem
      → BarberStep s (record s { fifo_sem = s.fifo_sem - 1; barber = popping })
  pop_one :
      s.barber ≡ popping
      → (pop_fifo s.fifo).0 ≢ minus_one
      → BarberStep s (record s { fifo = (pop_fifo s.fifo).1; barber = freeing (pop_fifo s.fifo).0 })
  pop_none :
      s.barber ≡ popping
      → (pop_fifo s.fifo).0 ≡ minus_one
      → BarberStep s (record s { fifo = (pop_fifo s.fifo).1; barber = dozing })
  free :
      (z : ℤ)
      → s.barber ≡ freeing z
      → BarberStep s (record s { fifo_sem = s.fifo_sem + 1; barber = cutting z })
  doze :
      s.barber ≡ dozing
      → 0 < s.barber_sem
      → BarberStep s (record s { barber_sem = s.barber_sem - 1; barber = closing })
  close :
      s.barber ≡ closing → BarberStep s (record s { fifo_sem = s.fifo_sem + 1; barber = asleep })

-- One step of the client `p`, who wants `cuts_number` cuts.
pub data ClientStep (cuts_number : ℕ) (s : Shop) (p : ℕ) : Shop → Type 0 where
  enter :
      (s.client p).place ≡ top
      → (s.client p).cuts < cuts_number
      → 0 < s.checker_sem
      → ClientStep cuts_number s p
          (record s { checker_sem = s.checker_sem - 1; client = goes s.client p want_fifo })
  done :
      (s.client p).place ≡ top
      → cuts_number ≤ (s.client p).cuts
      → ClientStep cuts_number s p (record s { client = goes s.client p finished })
  lock :
      (s.client p).place ≡ want_fifo
      → 0 < s.fifo_sem
      → ClientStep cuts_number s p
          (record s { fifo_sem = s.fifo_sem - 1; client = goes s.client p looking })
  find_asleep :
      (s.client p).place ≡ looking
      → s.barber_sem ≡ 0
      → ClientStep cuts_number s p (record s { client = goes s.client p waking })
  find_awake :
      (s.client p).place ≡ looking
      → s.barber_sem ≢ 0
      → ClientStep cuts_number s p (record s { client = goes s.client p queueing })
  wake :
      (s.client p).place ≡ waking
      → ClientStep cuts_number s p
          (record s { barber_sem = s.barber_sem + 1; client = goes s.client p slowed })
  be_let_on :
      (s.client p).place ≡ slowed
      → 0 < s.slower_sem
      → ClientStep cuts_number s p
          (record s { slower_sem = s.slower_sem - 1; client = goes s.client p sitting })
  sit :
      (s.client p).place ≡ sitting
      → ClientStep cuts_number s p (record s {
        fifo = record (s.fifo) { chair = pos p };
        client = goes s.client p (unlocking (pos 1));
      })
  queue :
      (s.client p).place ≡ queueing
      → ClientStep cuts_number s p (record s {
        fifo = (push_fifo s.fifo (pos p)).1;
        client = goes s.client p (unlocking (place_result (push_fifo s.fifo (pos p)).0));
      })
  unlock :
      (res : ℤ)
      → (s.client p).place ≡ unlocking res
      → ClientStep cuts_number s p
          (record s { fifo_sem = s.fifo_sem + 1; client = goes s.client p (unchecking res) })
  uncheck :
      (res : ℤ)
      → (s.client p).place ≡ unchecking res
      → ClientStep cuts_number s p
          (record s { checker_sem = s.checker_sem + 1; client = goes s.client p (after_check res) })
  get_cut :
      (s.client p).place ≡ waiting
      → 0 < (s.client p).pending
      → ClientStep cuts_number s p (record s {
        client = update s.client p (record {
          place = top;
          cuts = (s.client p).cuts + 1;
          pending = (s.client p).pending - 1;
        });
      })

pub data Step (cuts_number : ℕ) (s : Shop) : Shop → Type 0 where
  by_barber : {t : Shop} → BarberStep s t → Step cuts_number s t
  by_client : {t : Shop} (p : ℕ) → ClientStep cuts_number s p t → Step cuts_number s t

-- `makeFifo` and `makeSemafors` of the barber, and the forks: the barber goes to sleep, and the processes that
-- `forked` picks are at the start of `getCut`.
abbrev pub opening : Fifo → ℕ → (ℕ → Bool) → Shop
opening shared chair_number forked = record {
  barber_sem = 0;
  fifo_sem = 1;
  checker_sem = 1;
  slower_sem = 0;
  fifo = fifo_init shared chair_number;
  barber = asleep;
  client = λ p. record { place = if forked p then top else finished; cuts = 0; pending = 0 };
}

-- The states that a run with `cuts_number` cuts for each client comes to.
pub data Reach (cuts_number : ℕ) (start : Shop) : Shop → Type 0 where
  here : Reach cuts_number start start
  then_ :
      {s t : Shop} → Reach cuts_number start s → Step cuts_number s t → Reach cuts_number start t
