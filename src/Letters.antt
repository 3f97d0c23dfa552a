-- ===== src/Letters.antt =====
-- cw04/zad1/main.c: the letters from A to Z printed in a circle, whose direction SIGTSTP turns round.
mod Tests
use systemy_operacyjne_c.Base.{ℕ, ◌+◌, ◌-◌, ◌≤◌, ◌≡◌, if◌then◌else◌, leb, arith}

-- The values 1 and -1 of `up`.
pub data Up : Type 0 where
  rising falling : Up

-- `doSIGTSTP`
unfoldable pub do_sigtstp : Up → Up
do_sigtstp rising = falling
do_sigtstp falling = rising

-- `if(up==1){ if(symbol>=90) symbol=64; }`
abbrev pub test_rising : Up → ℕ → ℕ
test_rising rising symbol = if leb 90 symbol then 64 else symbol
test_rising falling symbol = symbol

-- `if(up==-1){ if(symbol<=65) symbol=91; }`
abbrev pub test_falling : Up → ℕ → ℕ
test_falling rising symbol = symbol
test_falling falling symbol = if leb symbol 65 then 91 else symbol

-- `symbol+=up`, for a symbol that is not 0.
abbrev pub step : Up → ℕ → ℕ
step rising symbol = symbol + 1
step falling symbol = symbol - 1

-- One round of the loop, with the values that `up` has where it is read: the handler can run between.
unfoldable pub round : (up1 up2 up3 : Up) → ℕ → ℕ
round up1 up2 up3 symbol = step up3 (test_falling up2 (test_rising up1 symbol))

-- A round that no signal falls into goes from a letter to a letter, and a round after the signal goes
-- back to the letter before.
pub turns_back :
    (up : Up) (symbol : ℕ)
    → 65 ≤ symbol
    → symbol ≤ 90
    → (65 ≤ round up up up symbol)
      × (round up up up symbol ≤ 90)
      × (round (do_sigtstp up) (do_sigtstp up) (do_sigtstp up) (round up up up symbol) ≡ symbol)
unfolding round do_sigtstp
turns_back rising symbol low high = (ground arith, ground arith, ground arith)
turns_back falling symbol low high = (ground arith, ground arith, ground arith)
