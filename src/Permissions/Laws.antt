-- ===== src/Permissions/Laws.antt =====
-- Who gets a permission, and when.
use systemy_operacyjne_c.Base.{ℕ, ◌≤◌, ◌≡◌, ◌≢◌, ◌⊎◌, refl, Bool, true, false, arith}
use systemy_operacyjne_c.Permissions.{
  ParentAt, spinning, granting, closing, reaping, ChildAt, sleeping, asked, missed, waiting,
  permitted, ended, State, handler, Step, ask, lie_down, give_up, sleep_on, go_on, enough, grant,
  pass, all_seen, open_up, Reach, here, then_, opening,
}

-- The parent has left its first loop.
abbrev pub started : ParentAt → Bool
started spinning = false
started _ = true

abbrev pub has_permission : ChildAt → Bool
has_permission permitted = true
has_permission ended = true
has_permission _ = false

abbrev pub has_asked : ChildAt → Bool
has_asked sleeping = false
has_asked _ = true

pub record Inv (n k : ℕ) (s : State) : Type 0 where
  pub opened : s.perm_after ≡ (elim s.parent [ reaping ↦ true | _ ↦ false ])
  pub quorum : (started s.parent ≡ false) ⊎ (k ≤ s.req)
  pub patient : (i : ℕ) → (has_permission (s.child i) ≡ false) ⊎ (started s.parent ≡ true)
  pub noted : (i : ℕ) → (s.creq i ≡ false) ⊎ (has_asked (s.child i) ≡ true)

opening-Inv : (n k : ℕ) → Inv n k opening
opening-Inv n k = record {
  opened = refl;
  quorum = ground arith;
  patient = λ i. ground arith;
  noted = λ i. ground arith;
}

Step-Inv : {n k : ℕ} {s t : State} → Inv n k s → Step n k s t → Inv n k t
unfolding handler
Step-Inv inv (ask i h e) = record {
  opened = ground (arith, inv.opened);
  quorum = ground (arith, inv.quorum);
  patient = λ j. ground (arith, inv.patient j, inv.opened);
  noted = λ j. ground (arith, inv.noted j);
}
Step-Inv inv (give_up i e) = record {
  opened = inv.opened;
  quorum = inv.quorum;
  patient = λ j. ground (arith, inv.patient j);
  noted = λ j. ground (arith, inv.noted j);
}
Step-Inv inv (lie_down i e) = record {
  opened = inv.opened;
  quorum = inv.quorum;
  patient = λ j. ground (arith, inv.patient j);
  noted = λ j. ground (arith, inv.noted j);
}
Step-Inv inv (sleep_on i e) = record {
  opened = inv.opened;
  quorum = inv.quorum;
  patient = λ j. ground (arith, inv.patient j);
  noted = λ j. ground (arith, inv.noted j);
}
Step-Inv inv (go_on i e) = record {
  opened = inv.opened;
  quorum = inv.quorum;
  patient = λ j. ground (arith, inv.patient j, inv.patient i);
  noted = λ j. ground (arith, inv.noted j);
}
Step-Inv inv (enough e h) = record {
  opened = ground (arith, inv.opened);
  quorum = ground arith;
  patient = λ j. ground arith;
  noted = inv.noted;
}
Step-Inv inv (grant i e h c) = record {
  opened = ground (arith, inv.opened);
  quorum = ground (arith, inv.quorum);
  patient = λ j. ground arith;
  noted = λ j. ground (arith, inv.noted j);
}
Step-Inv inv (pass i e h c) = record {
  opened = ground (arith, inv.opened);
  quorum = ground (arith, inv.quorum);
  patient = λ j. ground arith;
  noted = inv.noted;
}
Step-Inv inv (all_seen i e h) = record {
  opened = ground (arith, inv.opened);
  quorum = ground (arith, inv.quorum);
  patient = λ j. ground arith;
  noted = inv.noted;
}
Step-Inv inv (open_up e) = record {
  opened = ground arith;
  quorum = ground (arith, inv.quorum);
  patient = λ j. ground arith;
  noted = inv.noted;
}

pub Reach-Inv : {n k : ℕ} {s : State} → Reach n k opening s → Inv n k s
Reach-Inv {n} {k} here = opening-Inv n k
Reach-Inv (then_ r st) = Step-Inv (Reach-Inv r) st

-- The loop has child `p`, who is noted and waits, still ahead, or `p` waits no more.
abbrev Ahead : ℕ → ParentAt → ChildAt → Type 0
Ahead p spinning c = Unit
Ahead p (granting i) c = (i ≤ p) ⊎ (c ≢ waiting)
Ahead p closing c = c ≢ waiting
Ahead p reaping c = c ≢ waiting

record Noted (p : ℕ) (s : State) : Type 0 where
  in_creq : s.creq p ≡ true
  lain_down : (s.child p ≢ sleeping) × (s.child p ≢ asked) × (s.child p ≢ missed)
  ahead : Ahead p s.parent (s.child p)
