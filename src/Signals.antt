-- ===== src/Signals.antt =====
-- cw04/zad3/main.c: a parent sends L signals to its child, which counts and answers each. A step is one
-- system call or one access to a counter, in any order; a handler is not interrupted by its own
-- signal. With Type 3 the signals are real-time ones, of which every one is queued; with Types 1 and 2
-- they are SIGUSR1, which is pending once at most. A child that has ended takes no more signals.
pub mod Laws
mod Tests
use systemy_operacyjne_c.Base.{ℕ, ◌+◌, ◌-◌, ◌≤◌, ◌<◌, ◌≡◌, ◌≢◌, Bool, true, false, if◌then◌else◌}

-- The parent in `main`: before it sends a signal or ends the loop; before `PScounter++`; before
-- `wait` returns; behind it.
pub data ParentAt : Type 0 where
  sending counting stopped reaped : ParentAt

-- The child: in `while(1)`; in the handler before `CRcounter++`; before its answer; ended.
pub data ChildAt : Type 0 where
  spinning taken answering dead : ChildAt

-- `to_child` and `to_parent` are the pending signals of the first kind, `sig2` says whether the
-- second kind is pending for the child.
pub record State : Type 0 where
  pub ps_counter : ℕ
  pub cr_counter : ℕ
  pub pr_counter : ℕ
  pub i : ℕ
  pub parent : ParentAt
  pub child : ChildAt
  pub to_child : ℕ
  pub to_parent : ℕ
  pub sig2 : Bool

-- One more signal among those pending.
abbrev pub raise : (real_time : Bool) → ℕ → ℕ
raise real_time pending = if real_time then pending + 1 else 1

-- One step of the parent, the last one its handler.
pub data ParentStep (real_time : Bool) (l : ℕ) (s : State) : State → Type 0 where
  send :
      s.parent ≡ sending
      → s.i < l
      → ParentStep real_time l s
          (record s { to_child = raise real_time s.to_child; parent = counting })
  count :
      s.parent ≡ counting
      → ParentStep real_time l s
          (record s { ps_counter = s.ps_counter + 1; i = s.i + 1; parent = sending })
  stop :
      s.parent ≡ sending
      → l ≤ s.i
      → ParentStep real_time l s (record s { sig2 = true; parent = stopped })
  reap :
      s.parent ≡ stopped → s.child ≡ dead → ParentStep real_time l s (record s { parent = reaped })
  hear :
      0 < s.to_parent
      → s.parent ≢ reaped
      → ParentStep real_time l s
          (record s { to_parent = s.to_parent - 1; pr_counter = s.pr_counter + 1 })

-- One step of the child.
pub data ChildStep (real_time : Bool) (s : State) : State → Type 0 where
  take :
      s.child ≡ spinning
      → 0 < s.to_child
      → ChildStep real_time s (record s { to_child = s.to_child - 1; child = taken })
  receive :
      s.child ≡ taken
      → ChildStep real_time s (record s { cr_counter = s.cr_counter + 1; child = answering })
  answer :
      s.child ≡ answering
      → ChildStep real_time s
          (record s { to_parent = raise real_time s.to_parent; child = spinning })
  die : s.sig2 ≡ true → s.child ≢ dead → ChildStep real_time s (record s { child = dead })

pub data Step (real_time : Bool) (l : ℕ) (s : State) : State → Type 0 where
  by_parent : {t : State} → ParentStep real_time l s t → Step real_time l s t
  by_child : {t : State} → ChildStep real_time s t → Step real_time l s t

pub data Reach (real_time : Bool) (l : ℕ) (start : State) : State → Type 0 where
  here : Reach real_time l start start
  then_ :
      {s t : State} → Reach real_time l start s → Step real_time l s t → Reach real_time l start t

-- After the fork.
abbrev pub opening : State
opening = record {
  ps_counter = 0;
  cr_counter = 0;
  pr_counter = 0;
  i = 0;
  parent = sending;
  child = spinning;
  to_child = 0;
  to_parent = 0;
  sig2 = false;
}
