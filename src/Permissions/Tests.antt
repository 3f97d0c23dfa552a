-- ===== src/Permissions/Tests.antt =====
-- One child, and permissions from the first request on.
use systemy_operacyjne_c.Base.{refl, arith}
use systemy_operacyjne_c.Permissions.{State, handler, Step, Reach, here, then_, opening}

abbrev waits : (s : State) × Reach 1 1 opening s
unfolding handler
waits = (_, then_ (then_ here (Step.ask 0 (omega arith) refl)) (Step.lie_down 0 refl))

abbrev granted : (t : State) × Reach 1 1 waits.0 t
unfolding waits handler
granted = (
  _,
  then_ (then_ (then_ here (Step.enough refl (omega arith))) (Step.grant 0 refl (omega arith) refl))
      (Step.all_seen 1 refl (omega arith)),
)
