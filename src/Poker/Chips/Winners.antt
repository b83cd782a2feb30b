-- ===== src/Poker/Chips/Winners.antt =====
-- The seats among which `settle` of internal/poker/engine/engine.go shares a pot.
use momiao.Base.{ℕ, ◌+◌, ◌≢◌, List, [], ◌∷◌, ◌++◌, arith, All}
use momiao.Base.Sort.{insert_by, sort_by}
use momiao.Poker.Types.{Participant, Ranks}
use momiao.Poker.Table.{seats}
use momiao.Poker.Rank.{compare_ranks, above, same, below}
use momiao.Poker.Settle.{
  rank_vector, challenge, best_seats, clockwise, button_last, winners_of, eligible_seats,
  awards_from, share,
}
use momiao.Poker.Chips.Update.{Seated}
use momiao.Poker.Chips.Shares.{AllSeated}

module _ {ℓ} (P : ℕ → Type ℓ) where
  pub All-append : (xs ys : List ℕ) → All P xs → All P ys → All P (xs ++ ys)
  All-append [] ys h k = k
  All-append (x ∷ xs) ys h k = (h.0, All-append xs ys h.1 k)

  challenge-All :
      (ranks : Ranks) (ws : List ℕ) (seat : ℕ) → All P ws → P seat → All P (challenge ranks ws seat)
  unfolding challenge
  challenge-All ranks [] seat h k = (k, tt)
  challenge-All ranks (w ∷ ws) seat h k =
      elim (compare_ranks (rank_vector ranks seat) (rank_vector ranks w))
        as (λ c.
          All P (elim c [ above ↦ seat ∷ [] | same ↦ (w ∷ ws) ++ seat ∷ [] | below ↦ w ∷ ws ])) [
            | above ↦ (k, tt)
            | same ↦ All-append (w ∷ ws) (seat ∷ []) h (k, tt)
            | below ↦ h
          ]

  best_seats-All :
      (ranks : Ranks) (ws es : List ℕ) → All P ws → All P es → All P (best_seats ranks ws es)
  unfolding best_seats
  best_seats-All ranks ws [] h k = h
  best_seats-All ranks ws (e ∷ es) h k =
      best_seats-All ranks (challenge ranks ws e) es (challenge-All ranks ws e h k.0) k.1

  insert_by-All : (key : ℕ → ℕ) (a : ℕ) (xs : List ℕ) → P a → All P xs → All P (insert_by key a xs)
  unfolding insert_by
  insert_by-All key a [] h k = (h, tt)
  insert_by-All key a (x ∷ xs) h k = ground (arith, insert_by-All key a xs h k.1)

  pub sort_by-All : (key : ℕ → ℕ) (xs : List ℕ) → All P xs → All P (sort_by key xs)
  unfolding sort_by
  sort_by-All key [] h = tt
  sort_by-All key (x ∷ xs) h = insert_by-All key x (sort_by key xs) h.0 (sort_by-All key xs h.1)

  pub button_last-All : (button : ℕ) (xs : List ℕ) → All P xs → All P (button_last button xs)
  unfolding button_last
  button_last-All button [] h = h
  button_last-All button (x ∷ []) h = h
  button_last-All button (x ∷ y ∷ xs) h = ground (arith, All-append (y ∷ xs) (x ∷ []) h.1 (h.0, tt))

  -- Whatever holds of all eligible seats holds of the winners.
  pub winners_of-All :
      (button : ℕ) (ranks : Ranks) (es : List ℕ) → All P es → All P (winners_of button ranks es)
  unfolding winners_of clockwise
  winners_of-All button ranks es h =
      button_last-All button _ (sort_by-All _ _ (best_seats-All ranks [] es tt h))

pub challenge-ne-nil : (ranks : Ranks) (ws : List ℕ) (seat : ℕ) → challenge ranks ws seat ≢ []
unfolding challenge
challenge-ne-nil ranks [] seat = ground arith
challenge-ne-nil ranks (w ∷ ws) seat = ground arith

best_seats-ne-nil : (ranks : Ranks) (ws es : List ℕ) → ws ≢ [] → best_seats ranks ws es ≢ []
unfolding best_seats
best_seats-ne-nil ranks ws [] h = h
best_seats-ne-nil ranks ws (e ∷ es) h =
    best_seats-ne-nil ranks (challenge ranks ws e) es (challenge-ne-nil ranks ws e)

sort_by-ne-nil : (key : ℕ → ℕ) (xs : List ℕ) → xs ≢ [] → sort_by key xs ≢ []
unfolding sort_by insert_by
sort_by-ne-nil key [] h = h
sort_by-ne-nil key (x ∷ xs) h = go (sort_by key xs)
  where
    go : (ys : List ℕ) → insert_by key x ys ≢ []
    go [] = ground arith
    go (y ∷ ys) = ground arith

button_last-ne-nil : (button : ℕ) (xs : List ℕ) → xs ≢ [] → button_last button xs ≢ []
unfolding button_last
button_last-ne-nil button [] h = h
button_last-ne-nil button (x ∷ []) h = h
button_last-ne-nil button (x ∷ y ∷ xs) h = ground arith

-- A pot with an eligible seat has a winner.
pub winners_of-ne-nil :
    (button : ℕ) (ranks : Ranks) (e : ℕ) (es : List ℕ) → winners_of button ranks (e ∷ es) ≢ []
unfolding winners_of clockwise best_seats
winners_of-ne-nil button ranks e es = button_last-ne-nil button _ (
    sort_by-ne-nil _ _
      (best_seats-ne-nil ranks (challenge ranks [] e) es (challenge-ne-nil ranks [] e)))

All-weaken :
    (p : Participant) (ps : List Participant) (xs : List ℕ)
    → All (Seated ps) xs
    → All (Seated (p ∷ ps)) xs
All-weaken p ps [] h = tt
All-weaken p ps (x ∷ xs) h = (ground arith, All-weaken p ps xs h.1)

pub eligible_seats-Seated :
    (level : ℕ) (ps : List Participant) → All (Seated ps) (eligible_seats level ps)
unfolding eligible_seats seats
eligible_seats-Seated level [] = tt
eligible_seats-Seated level (p ∷ ps) =
    ground (arith, All-weaken p ps (eligible_seats level ps) (eligible_seats-Seated level ps))

awards_from-AllSeated :
    (ps : List Participant) (i base odd : ℕ) (ws : List ℕ)
    → All (Seated ps) ws
    → AllSeated ps (awards_from i base odd ws)
unfolding awards_from
awards_from-AllSeated ps i base odd [] h = tt
awards_from-AllSeated ps i base odd (w ∷ ws) h =
    (h.0, awards_from-AllSeated ps (i + 1) base odd ws h.1)

pub share-AllSeated :
    (ps : List Participant) (amount : ℕ) (ws : List ℕ)
    → All (Seated ps) ws
    → AllSeated ps (share amount ws)
unfolding share
share-AllSeated ps amount ws h = awards_from-AllSeated ps 0 _ _ ws h
