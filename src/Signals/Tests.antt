-- ===== src/Signals/Tests.antt =====
-- One real-time signal, counted and answered.
use systemy_operacyjne_c.Base.{◌+◌, ◌≤◌, ◌≡◌, ◌≢◌, ◌⊎◌, refl, Bool, true, false, arith}
use systemy_operacyjne_c.Signals.{
  State, reaped, dead, ParentStep, ChildStep, by_parent, by_child, Reach, here, then_, opening,
}
use systemy_operacyjne_c.Signals.Laws.{uncounted, in_hand, owed, counters_agree}

abbrev answered : (s : State) × Reach true 1 opening s
answered = (
  _,
  then_
      (then_
        (then_
          (then_ (then_ here (by_parent (ParentStep.send refl (omega arith))))
            (by_child (ChildStep.take refl (omega arith))))
          (by_child (ChildStep.receive refl)))
        (by_child (ChildStep.answer refl)))
      (by_parent (ParentStep.count refl)),
)

counters_agree_example :
    (answered.0.pr_counter ≤ answered.0.cr_counter)
    × (answered.0.cr_counter ≤ answered.0.ps_counter + uncounted answered.0.parent)
    × (answered.0.ps_counter + uncounted answered.0.parent ≤ 1)
    × ((◌≡◌ {A = Bool} true false)
        ⊎ (answered.0.child ≡ dead)
        ⊎ ((answered.0.cr_counter + answered.0.to_child + in_hand answered.0.child
              ≡ answered.0.ps_counter + uncounted answered.0.parent)
            × (answered.0.pr_counter + answered.0.to_parent + owed answered.0.child
                ≡ answered.0.cr_counter)))
    × ((answered.0.parent ≢ reaped) ⊎ (answered.0.ps_counter ≡ 1))
counters_agree_example = counters_agree answered.1
