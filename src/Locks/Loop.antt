-- ===== src/Locks/Loop.antt =====
-- Where the loop ends, and where it does not.
use text.Mathlib.Text.{◌==◌ as str_eq}
use systemy_operacyjne_c.Base.{ℕ, Option, none, some}
use systemy_operacyjne_c.Locks.{System, Session}
use systemy_operacyjne_c.Locks.Command.{loop, Ended, overran}

module _ {K : Type 0} where
  module _ (sys : System K) where
    -- What comes of a round, when the loop has not ended.
    abbrev behind_step : ℕ → Option (Session K) → Ended K
    behind_step n none = overran
    behind_step n (some t) = loop sys n t
