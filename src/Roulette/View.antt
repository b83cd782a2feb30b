-- ===== src/Roulette/View.antt =====
-- `public` of internal/roulette/devil.go: what everybody sees of a devil round, whose pointer is
-- within its shells.
use momiao.Base.{ℕ, ◌-◌, Bool, Option, none, some, if◌then◌else◌, length, drop, keep}
use momiao.Roulette.Types.{Both, DevilState}

pub record DevilView : Type 0 where
  pub remaining : ℕ
  pub live : Option ℕ
  pub blank : Option ℕ
  pub saw : Bool
  pub cuffed : Both Bool

unfoldable pub live_left : DevilState → ℕ
live_left s = length (keep (λ (b : Bool). b) (drop s.pointer s.shells))

unfoldable pub devil_view : DevilState → DevilView
unfolding live_left
devil_view s = record {
  remaining = length s.shells - s.pointer;
  live = if s.obscured then none else some (live_left s);
  blank = if s.obscured then none else some (length s.shells - s.pointer - live_left s);
  saw = s.saw;
  cuffed = s.cuffed;
}
