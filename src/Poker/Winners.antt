-- ===== src/Poker/Winners.antt =====
-- The winners of a pot in `settle` of internal/poker/engine/engine.go.
use momiao.Base.{ℕ, ◌≡◌, ◌≢◌, refl, subst, List, [], ◌∷◌, ◌++◌, arith, All, ◌∙◌, ap}
use momiao.Poker.Types.{Ranks}
use momiao.Poker.Rank.{compare_ranks, Comparison, above, same, below}
use momiao.Poker.Rank.Laws.{
  AtLeast, AtLeast-trans, compare_ranks-swap, compare_ranks-same, compare_ranks_refl, opposite,
}
use momiao.Poker.Settle.{rank_vector, challenge, best_seats, clockwise, winners_of}
use momiao.Poker.Chips.Winners.{sort_by-All, button_last-All, All-append, challenge-ne-nil}

AtLeast-refl : (a : List ℕ) → AtLeast a a
AtLeast-refl a h = cc (compare_ranks_refl a)

beats-AtLeast : (a b : List ℕ) → compare_ranks a b ≡ above → AtLeast a b
beats-AtLeast a b h k = cc (compare_ranks-swap a b, ap opposite h)

module _ (ranks : Ranks) where
  -- All these seats hold the rank `top`.
  abbrev pub Tied : List ℕ → List ℕ → Type 0
  Tied top = All (λ w. rank_vector ranks w ≡ top)

  -- None of these seats beats `top`.
  abbrev pub Unbeaten : List ℕ → List ℕ → Type 0
  Unbeaten top = All (λ e. AtLeast top (rank_vector ranks e))

  challenge-Tied :
      (top : List ℕ) (w : ℕ) (ws : List ℕ) (seat : ℕ)
      → Tied top (w ∷ ws)
      → (next : List ℕ) × Tied next (challenge ranks (w ∷ ws) seat)
        × AtLeast next top
        × AtLeast next (rank_vector ranks seat)
  unfolding challenge
  challenge-Tied top w ws seat t =
      go (compare_ranks (rank_vector ranks seat) (rank_vector ranks w)) refl
    where
      go :
          (c : Comparison)
          → compare_ranks (rank_vector ranks seat) (rank_vector ranks w) ≡ c
          → (next : List ℕ) × Tied next
              (elim c [ above ↦ seat ∷ [] | same ↦ (w ∷ ws) ++ seat ∷ [] | below ↦ w ∷ ws ])
            × AtLeast next top
            × AtLeast next (rank_vector ranks seat)
      go above q = (
        rank_vector ranks seat,
        (refl, tt),
        subst (AtLeast (rank_vector ranks seat)) t.0
            (beats-AtLeast (rank_vector ranks seat) (rank_vector ranks w) q),
        AtLeast-refl (rank_vector ranks seat),
      )
      go same q = (
        top,
        All-append (λ v. rank_vector ranks v ≡ top) (w ∷ ws) (seat ∷ []) t
            (compare_ranks-same (rank_vector ranks seat) (rank_vector ranks w) q ∙ t.0, tt),
        AtLeast-refl top,
        subst (λ (v : List ℕ). AtLeast v (rank_vector ranks seat)) t.0 (λ h. cc),
      )
      go below q = (
        top,
        t,
        AtLeast-refl top,
        subst (λ (v : List ℕ). AtLeast v (rank_vector ranks seat)) t.0 (λ h. cc),
      )

  best_seats-Tied :
      (top : List ℕ) (ws es : List ℕ)
      → ws ≢ []
      → Tied top ws
      → (best : List ℕ) × Tied best (best_seats ranks ws es) × AtLeast best top × Unbeaten best es
  unfolding best_seats
  best_seats-Tied top [] es ne t = absurd (ne refl)
  best_seats-Tied top (w ∷ ws) [] ne t = (top, t, AtLeast-refl top, tt)
  best_seats-Tied top (w ∷ ws) (e ∷ es) ne t =
      let (next, t', up, over) = challenge-Tied top w ws e t in
      let (best, b, up', rest) =
        best_seats-Tied next (challenge ranks (w ∷ ws) e) es (challenge-ne-nil ranks (w ∷ ws) e)
          t' in
      (
        best,
        b,
        AtLeast-trans best next top up' up,
        (AtLeast-trans best next (rank_vector ranks e) up' over, rest),
      )

  -- For at least one eligible seat, all winners of a pot hold one rank, and no eligible seat
  -- holds a better one.
  pub winners_of-Unbeaten :
      (button e : ℕ) (es : List ℕ)
      → (best : List ℕ) × Tied best (winners_of button ranks (e ∷ es)) × Unbeaten best (e ∷ es)
  unfolding winners_of best_seats clockwise challenge
  winners_of-Unbeaten button e es =
      let (best, t, up, rest) =
        best_seats-Tied (rank_vector ranks e) (e ∷ []) es (ground arith) (refl, tt) in
      (
        best,
        button_last-All (λ w. rank_vector ranks w ≡ best) button _
            (sort_by-All (λ w. rank_vector ranks w ≡ best) _ _ t),
        (up, rest),
      )
