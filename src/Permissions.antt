-- ===== src/Permissions.antt =====
-- cw04/zad2/main.c: a parent that lets its children go on once K of them have asked. A step is one run
-- of the signal handler or one access of the parent to what the handler shares with it, in any
-- order. A signal to a child that has ended is lost. The sleeps of the children may take any time.
pub mod Laws
mod Tests
use systemy_operacyjne_c.Base.{ℕ, ◌+◌, ◌≤◌, ◌<◌, ◌≡◌, Bool, true, false, if◌then◌else◌, ◌==◌}

-- Where the parent stands in `main`.
pub data ParentAt : Type 0 where
  spinning : ParentAt  -- `while(req<K)`
  granting : (i : ℕ) → ParentAt  -- the loop over CReq
  closing : ParentAt  -- before `permAfter=1`
  reaping : ParentAt  -- the loop of `waitpid`

-- Where a child stands. A permission that comes before the second `sleep` does not cut it short.
pub data ChildAt : Type 0 where
  sleeping : ChildAt  -- before `sigqueue`
  asked : ChildAt  -- between `sigqueue` and the second `sleep`
  missed : ChildAt  -- there too, with the permission behind it
  waiting : ChildAt  -- in the second `sleep`
  permitted : ChildAt  -- woken from it
  timed_out : ChildAt  -- ended without having been woken
  ended : ChildAt  -- ended after it was woken

pub record State : Type 0 where
  pub req : ℕ
  pub creq : ℕ → Bool
  pub perm_after : Bool
  pub parent : ParentAt
  pub child : ℕ → ChildAt

abbrev pub put {ℓ} : {A : Type ℓ} → (ℕ → A) → ℕ → A → ℕ → A
put f i a j = if j == i then a else f j

-- SIGUSR2 at a child.
abbrev pub permit : ChildAt → ChildAt
permit asked = missed
permit waiting = permitted
permit c = c

-- The handler on SIGUSR1 from child `i`.
unfoldable pub handler : ℕ → State → State
handler i s =
    if s.perm_after
    then record s { child = put s.child i (permit (s.child i)); req = s.req + 1 }
    else record s { creq = put s.creq i true; req = s.req + 1 }

-- One step, with `n` children and permissions from `k` requests on.
pub data Step (n k : ℕ) (s : State) : State → Type 0 where
  ask :
      (i : ℕ)
      → i < n
      → s.child i ≡ sleeping
      → Step n k s (handler i (record s { child = put s.child i asked }))
  lie_down : (i : ℕ) → s.child i ≡ asked → Step n k s (record s { child = put s.child i waiting })
  give_up :
      (i : ℕ) → s.child i ≡ waiting → Step n k s (record s { child = put s.child i timed_out })
  sleep_on :
      (i : ℕ) → s.child i ≡ missed → Step n k s (record s { child = put s.child i timed_out })
  go_on : (i : ℕ) → s.child i ≡ permitted → Step n k s (record s { child = put s.child i ended })
  enough : s.parent ≡ spinning → k ≤ s.req → Step n k s (record s { parent = granting 0 })
  grant :
      (i : ℕ)
      → s.parent ≡ granting i
      → i < n
      → s.creq i ≡ true
      → Step n k s
          (record s { parent = granting (i + 1); child = put s.child i (permit (s.child i)) })
  pass :
      (i : ℕ)
      → s.parent ≡ granting i
      → i < n
      → s.creq i ≡ false
      → Step n k s (record s { parent = granting (i + 1) })
  all_seen : (i : ℕ) → s.parent ≡ granting i → n ≤ i → Step n k s (record s { parent = closing })
  open_up : s.parent ≡ closing → Step n k s (record s { perm_after = true; parent = reaping })

pub data Reach (n k : ℕ) (start : State) : State → Type 0 where
  here : Reach n k start start
  then_ : {s t : State} → Reach n k start s → Step n k s t → Reach n k start t

-- After the forks.
abbrev pub opening : State
opening = record {
  req = 0;
  creq = λ _. false;
  perm_after = false;
  parent = spinning;
  child = λ _. sleeping;
}
