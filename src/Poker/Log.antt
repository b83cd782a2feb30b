-- ===== src/Poker/Log.antt =====
-- The event log of internal/poker/engine/engine.go, its numbering, and the hand's version.
pub mod Step
pub mod Hand
pub mod Act
use momiao.Base.{ℕ, ◌+◌, ◌≡◌, List, [], ◌∷◌, ◌++◌, length}
use momiao.Poker.Types.{Event, State}

-- The i-th event bears the number i + 1 twice: its sequence, and the version that it made.
abbrev pub Numbered : ℕ → List Event → Type 0
Numbered i [] = Unit
Numbered i (e ∷ es) = (e.sequence ≡ i + 1) × (e.version ≡ i + 1) × Numbered (i + 1) es

abbrev pub IsLogged : State → Type 0
IsLogged s = (s.version ≡ length s.events) × Numbered 0 s.events

-- What every operation does to a state, errors apart.
pub record Extends (s t : State) : Type 0 where
  pub config : t.config ≡ s.config
  pub receipts : t.receipts ≡ s.receipts
  pub initial_total : t.initial_total ≡ s.initial_total
  pub logged : IsLogged s → IsLogged t
  pub grown : (es : List Event) × (t.events ≡ s.events ++ es)
