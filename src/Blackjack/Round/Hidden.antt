-- ===== src/Blackjack/Round/Hidden.antt =====
-- What `PublicView` of internal/games/blackjack/blackjack.go shows of a round.
use momiao.Base.{ℕ, ◌≡◌, refl, subst, false, String, List, ◌∷◌}
use momiao.Base.Int.{ℤ}
use momiao.Blackjack.{Card}
use momiao.Blackjack.Round.Types.{Phase, State}
use momiao.Blackjack.Round.Play.{legal_actions}
use momiao.Blackjack.Round.View.{shown_dealer, public_view}
use momiao.Blackjack.Round.Rounds.{IsRound, InPhase}

-- The state with other hidden parts.
abbrev pub with_hidden : State → List Card → List Card → ℕ → String → State
with_hidden s dealer dealt index hash = record s {
  dealer = dealer;
  dealt = dealt;
  shoe_index = index;
  shoe_hash = hash;
}

unrevealed :
    (s : State) (c : Card) (rest other dealt : List Card) (index : ℕ) (hash : String)
    (available : ℤ)
    → s.dealer_revealed ≡ false
    → s.dealer ≡ c ∷ rest
    → public_view s available ≡ public_view (with_hidden s (c ∷ other) dealt index hash) available
unfolding public_view shown_dealer legal_actions
unrevealed s c rest other dealt index hash available hidden e = rw (hidden, e) refl

-- While it is the player's turn in a well-formed round, the public view is the same whatever
-- cards the dealer holds past the first, and whatever the dealt cards, the shoe's index and its
-- hash are.
pub public_view-hidden :
    (s : State) (c : Card) (rest other dealt : List Card) (index : ℕ) (hash : String)
    (available : ℤ)
    → IsRound s
    → s.phase ≡ Phase.player_turn
    → s.dealer ≡ c ∷ rest
    → public_view s available ≡ public_view (with_hidden s (c ∷ other) dealt index hash) available
public_view-hidden s c rest other dealt index hash available r turn e =
    let (_, _, hidden, _, _) = subst (λ (p : Phase). InPhase p s) turn r.in_phase in
    unrevealed s c rest other dealt index hash available hidden e
