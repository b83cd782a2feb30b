-- ===== src/Poker/Tests/Runs.antt =====
-- Tests of the ranks and of a hand's start.
use momiao.Base.{◌≡◌, refl, [], ◌∷◌, map, ◌/◌}
use momiao.Poker.Types.{units_per_chip}
use momiao.Poker.Rank.{rank}
use momiao.Poker.Tests.Sample.{started, finished}

royal : rank (0 ∷ 12 ∷ 11 ∷ 10 ∷ 9 ∷ []) ≡ 8 ∷ 14 ∷ []
unfolding rank
royal = refl

wheel : rank (0 ∷ 14 ∷ 2 ∷ 3 ∷ 4 ∷ []) ≡ 4 ∷ 5 ∷ []
unfolding rank
wheel = refl

full_house : rank (1 ∷ 14 ∷ 27 ∷ 3 ∷ 16 ∷ []) ≡ 6 ∷ 2 ∷ 4 ∷ []
unfolding rank
full_house = refl

started_version : started.version ≡ 10
unfolding started
started_version = refl

-- Two all-ins and a fold: the board is the best hand, and the pot of 210 chips is split.
finished_stacks : map (λ p. p.stack / units_per_chip) finished.players ≡ 105 ∷ 105 ∷ 90 ∷ []
unfolding finished
finished_stacks = refl
