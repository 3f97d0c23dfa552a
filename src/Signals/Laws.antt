-- ===== src/Signals/Laws.antt =====
-- How the counters compare.
use systemy_operacyjne_c.Base.{ℕ, ◌+◌, ◌≤◌, ◌≡◌, ◌≢◌, ◌⊎◌, refl, Bool, false, arith}
use systemy_operacyjne_c.Signals.{
  ParentAt, sending, counting, stopped, reaped, ChildAt, taken, answering, dead, State, Step,
  by_parent, by_child, send, count, stop, reap, hear, take, receive, answer, die, Reach, here,
  then_, opening,
}

-- A signal that is sent and not counted yet.
abbrev pub uncounted : ParentAt → ℕ
uncounted counting = 1
uncounted _ = 0

-- A signal that the child has taken and not counted yet, and one that it has counted and not
-- answered yet.
abbrev pub in_hand : ChildAt → ℕ
in_hand taken = 1
in_hand _ = 0

abbrev pub owed : ChildAt → ℕ
owed answering = 1
owed _ = 0

pub record Inv (real_time : Bool) (l : ℕ) (s : State) : Type 0 where
  pub loop : s.ps_counter ≡ s.i
  pub bound : s.i + uncounted s.parent ≤ l
  pub received : s.cr_counter + s.to_child + in_hand s.child ≤ s.ps_counter + uncounted s.parent
  pub answered : s.pr_counter + s.to_parent + owed s.child ≤ s.cr_counter
  pub none_lost :
      (real_time ≡ false)
      ⊎ (s.child ≡ dead)
      ⊎ ((s.cr_counter + s.to_child + in_hand s.child ≡ s.ps_counter + uncounted s.parent)
          × (s.pr_counter + s.to_parent + owed s.child ≡ s.cr_counter))
  pub through : (s.parent ≡ sending) ⊎ (s.parent ≡ counting) ⊎ (s.i ≡ l)
  pub unstopped : (s.sig2 ≡ false) ⊎ (s.parent ≡ stopped) ⊎ (s.parent ≡ reaped)

Step-Inv :
    {real_time : Bool} {l : ℕ} {s t : State}
    → Inv real_time l s
    → Step real_time l s t
    → Inv real_time l t
Step-Inv inv (by_parent (send e h)) = record {
  loop = ground (arith, inv.loop);
  bound = ground (arith, inv.bound);
  received = ground (arith, inv.received);
  answered = ground (arith, inv.answered);
  none_lost = ground (arith, inv.none_lost);
  through = ground (arith, inv.through, inv.bound);
  unstopped = ground (arith, inv.unstopped);
}
Step-Inv inv (by_parent (count e)) = record {
  loop = ground (arith, inv.loop);
  bound = ground (arith, inv.bound);
  received = ground (arith, inv.received);
  answered = ground (arith, inv.answered);
  none_lost = ground (arith, inv.none_lost);
  through = ground (arith, inv.through, inv.bound);
  unstopped = ground (arith, inv.unstopped);
}
Step-Inv inv (by_parent (stop e h)) = record {
  loop = ground (arith, inv.loop);
  bound = ground (arith, inv.bound);
  received = ground (arith, inv.received);
  answered = ground (arith, inv.answered);
  none_lost = ground (arith, inv.none_lost);
  through = ground (arith, inv.through, inv.bound);
  unstopped = ground (arith, inv.unstopped);
}
Step-Inv inv (by_parent (reap e d)) = record {
  loop = ground (arith, inv.loop);
  bound = ground (arith, inv.bound);
  received = ground (arith, inv.received);
  answered = ground (arith, inv.answered);
  none_lost = ground (arith, inv.none_lost);
  through = ground (arith, inv.through, inv.bound);
  unstopped = ground (arith, inv.unstopped);
}
Step-Inv inv (by_parent (hear h p)) = record {
  loop = ground (arith, inv.loop);
  bound = ground (arith, inv.bound);
  received = ground (arith, inv.received);
  answered = ground (arith, inv.answered);
  none_lost = ground (arith, inv.none_lost);
  through = ground (arith, inv.through, inv.bound);
  unstopped = ground (arith, inv.unstopped);
}
Step-Inv inv (by_child (take e h)) = record {
  loop = ground (arith, inv.loop);
  bound = ground (arith, inv.bound);
  received = ground (arith, inv.received);
  answered = ground (arith, inv.answered);
  none_lost = ground (arith, inv.none_lost);
  through = ground (arith, inv.through, inv.bound);
  unstopped = ground (arith, inv.unstopped);
}
Step-Inv inv (by_child (receive e)) = record {
  loop = ground (arith, inv.loop);
  bound = ground (arith, inv.bound);
  received = ground (arith, inv.received);
  answered = ground (arith, inv.answered);
  none_lost = ground (arith, inv.none_lost);
  through = ground (arith, inv.through, inv.bound);
  unstopped = ground (arith, inv.unstopped);
}
Step-Inv inv (by_child (answer e)) = record {
  loop = ground (arith, inv.loop);
  bound = ground (arith, inv.bound);
  received = ground (arith, inv.received);
  answered = ground (arith, inv.answered);
  none_lost = ground (arith, inv.none_lost);
  through = ground (arith, inv.through, inv.bound);
  unstopped = ground (arith, inv.unstopped);
}
Step-Inv inv (by_child (die g d)) = record {
  loop = ground (arith, inv.loop);
  bound = ground (arith, inv.bound);
  received = ground (arith, inv.received);
  answered = ground (arith, inv.answered);
  none_lost = ground (arith, inv.none_lost);
  through = ground (arith, inv.through, inv.bound);
  unstopped = ground (arith, inv.unstopped);
}

opening-Inv : (real_time : Bool) (l : ℕ) → Inv real_time l opening
opening-Inv real_time l = record {
  loop = refl;
  bound = omega arith;
  received = omega arith;
  answered = omega arith;
  none_lost = ground arith;
  through = ground arith;
  unstopped = ground arith;
}

Reach-Inv : {real_time : Bool} {l : ℕ} {s : State} → Reach real_time l opening s → Inv real_time l s
Reach-Inv {real_time} {l} here = opening-Inv real_time l
Reach-Inv (then_ r st) = Step-Inv (Reach-Inv r) st

-- In every state that a run comes to from the start, the parent has heard no more answers than the
-- child has counted signals, and the child no more than were sent, which are L at most. With
-- real-time signals none is lost while the child lives: every one sent is counted by the child, in
-- its hands, or pending, and every one counted is heard by the parent, still to be answered, or
-- pending. Behind `wait` the parent has counted L signals sent.
pub counters_agree :
    {real_time : Bool} {l : ℕ} {s : State}
    → Reach real_time l opening s
    → (s.pr_counter ≤ s.cr_counter)
      × (s.cr_counter ≤ s.ps_counter + uncounted s.parent)
      × (s.ps_counter + uncounted s.parent ≤ l)
      × ((real_time ≡ false)
          ⊎ (s.child ≡ dead)
          ⊎ ((s.cr_counter + s.to_child + in_hand s.child ≡ s.ps_counter + uncounted s.parent)
              × (s.pr_counter + s.to_parent + owed s.child ≡ s.cr_counter)))
      × ((s.parent ≢ reaped) ⊎ (s.ps_counter ≡ l))
counters_agree r =
    let inv = Reach-Inv r in
    (
      omega (arith, inv.answered),
      omega (arith, inv.received),
      omega (arith, inv.loop, inv.bound),
      inv.none_lost,
      ground (arith, inv.loop, inv.through),
    )
