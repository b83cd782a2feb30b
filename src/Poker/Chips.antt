-- ===== src/Poker/Chips.antt =====
-- The chips on a table of internal/poker/engine/engine.go: what the players hold and have
-- committed, and the facts about a table that the proofs about chips carry along.
pub mod Update
pub mod Layers
pub mod Shares
pub mod Winners
pub mod Uncalled
pub mod Settlement
pub mod Pots
pub mod Hand
pub mod Act
pub mod Move
use momiao.Base.{ℕ, ◌+◌, ◌%◌, ◌≤◌, ◌<◌, ◌≡◌, List, [], ◌∷◌}
use momiao.Base.Sums.{sum_by}
use momiao.Poker.Types.{units_per_chip, Participant}

-- The chips in the players' stacks.
abbrev pub stacks : List Participant → ℕ
stacks = sum_by (λ p. p.stack)

-- The chips in the pot.
abbrev pub committed : List Participant → ℕ
committed = sum_by (λ p. p.total_committed)

-- All chips of the hand.
abbrev pub chips : List Participant → ℕ
chips = sum_by (λ p. p.stack + p.total_committed)

abbrev pub IsWhole : ℕ → Type 0
IsWhole n = n % units_per_chip ≡ 0

-- Seat numbers rise along the list, above `previous`.
abbrev pub Rising : ℕ → List Participant → Type 0
Rising previous [] = Unit
Rising previous (p ∷ ps) = (previous < p.seat_no) × Rising p.seat_no ps

-- Only whole chips are committed.
abbrev pub WholeCommitted : List Participant → Type 0
WholeCommitted [] = Unit
WholeCommitted (p ∷ ps) = IsWhole p.total_committed × WholeCommitted ps
