-- ===== src/Poker/Settle/Paid.antt =====
-- What one level of `settle` of internal/poker/engine/engine.go leads to.
use momiao.Base.{ℕ, ◌≡◌, ◌≢◌, refl, List, [], ◌∷◌, arith}
use momiao.Poker.Types.{Time, Pot, ok, State}
use momiao.Poker.Settle.Pots.{pot_of, winners_of}
use momiao.Poker.Settle.Finish.{add_pot, divide_pot, settle_level}

divide_pot-paid :
    (winners : List ℕ) (now : Time) (pot : Pot) (s s' : State)
    → divide_pot winners now pot s ≡ ok s'
    → s' ≡ add_pot now pot s
unfolding divide_pot
divide_pot-paid [] now pot s s' e = absurd (ground arith)
divide_pot-paid (w ∷ ws) now pot s s' e = ground arith

-- A level that settles has an eligible seat, and adds its pot and pays its awards.
pub settle_level-paid :
    (now : Time) (previous level : ℕ) (s s' : State)
    → settle_level now previous level s ≡ ok s'
    → ((pot_of s previous level).eligible ≢ []) × (s' ≡ add_pot now (pot_of s previous level) s)
unfolding settle_level
settle_level-paid now previous level s s' e = go (pot_of s previous level).eligible refl
  where
    go :
        (es : List ℕ)
        → (pot_of s previous level).eligible ≡ es
        → ((pot_of s previous level).eligible ≢ []) × (s' ≡ add_pot now (pot_of s previous level) s)
    go [] q = absurd (ground arith)
    go (seat ∷ rest) q = (
      (λ h. cc),
      divide_pot-paid (winners_of s.config.button_seat s.ranks (seat ∷ rest)) now
          (pot_of s previous level) s s' (rw (q, settle_level) at e),
    )
