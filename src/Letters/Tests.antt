-- ===== src/Letters/Tests.antt =====
-- A round at the end of the alphabet.
use systemy_operacyjne_c.Base.{◌≤◌, ◌≡◌, arith}
use systemy_operacyjne_c.Letters.{rising, do_sigtstp, round, turns_back}

turns_back_example :
    (65 ≤ round rising rising rising 90)
    × (round rising rising rising 90 ≤ 90)
    × (round
          (do_sigtstp rising)
          (do_sigtstp rising)
          (do_sigtstp rising)
          (round rising rising rising 90)
        ≡ 90)
turns_back_example = turns_back rising 90 (omega arith) (omega arith)
