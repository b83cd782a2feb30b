-- ===== src/Poker/Settle/Pots.antt =====
-- The parts of `settle` in internal/poker/engine/engine.go that build one pot and share it out.
use momiao.Base.{
  ℕ, ◌+◌, ◌-◌, ◌*◌, ◌/◌, ◌%◌, min, not, ◌&&◌, List, [], ◌∷◌, ◌++◌, map, ltb, leb, ◌==◌,
  if◌then◌else◌, length, keep, get_or,
}
use momiao.Base.Sums.{sum_by}
use momiao.Base.Sort.{sort_by}
use momiao.Poker.Types.{Time, units_per_chip, Participant, EventType, Award, Pot, Ranks, State}
use momiao.Poker.Table.{update_player, emit, event_of, seats}
use momiao.Poker.Rank.{above, same, below}
use momiao.Poker.Rank.{compare_ranks}

-- The running highest and second-highest commitment, and the seat of the highest.
pub record Top : Type 0 where
  pub highest : ℕ
  pub second : ℕ
  pub seat : ℕ

unfoldable pub scan_step : Top → Participant → Top
scan_step t p =
    if ltb t.highest p.total_committed
    then record { highest = p.total_committed; second = t.highest; seat = p.seat_no }
    else if ltb t.second p.total_committed
    then record t { second = p.total_committed }
    else t

unfoldable pub scan_top : Top → List Participant → Top
unfolding scan_step
scan_top t [] = t
scan_top t (p ∷ ps) = scan_top (scan_step t p) ps

unfoldable pub top_two : List Participant → Top
unfolding scan_top
top_two = scan_top (record { highest = 0; second = 0; seat = 0 })

unfoldable pub take_back : ℕ → Participant → Participant
take_back amount p = record p {
  total_committed = p.total_committed - amount;
  street_committed = p.street_committed - min p.street_committed amount;
  stack = p.stack + amount;
}

unfoldable pub return_uncalled : Time → State → State
unfolding top_two take_back update_player emit event_of
return_uncalled now s =
    let t = top_two s.players in
    let amount = t.highest - t.second in
    if ltb t.second t.highest
    then emit (event_of EventType.return_uncalled t.seat amount 0) now (record s {
      players = update_player t.seat (take_back amount) s.players;
      returns = s.returns ++ record { seat = t.seat; amount = amount } ∷ [];
    })
    else s

-- The positive commitments, in ascending order.
unfoldable pub levels : List Participant → List ℕ
unfolding sort_by
levels ps = sort_by (λ n. n) (keep (ltb 0) (map (λ p. p.total_committed) ps))

unfoldable pub live_count : List Participant → ℕ
live_count ps = length (keep (λ p. not p.folded) ps)

unfoldable pub pot_amount : ℕ → ℕ → List Participant → ℕ
pot_amount previous level =
    sum_by (λ p. if leb level p.total_committed then level - previous else 0)

unfoldable pub eligible_seats : ℕ → List Participant → List ℕ
unfolding seats
eligible_seats level ps = seats (keep (λ p. leb level p.total_committed && not p.folded) ps)

-- A missing key of the map gives the nil vector.
unfoldable pub rank_vector : Ranks → ℕ → List ℕ
rank_vector [] seat = []
rank_vector ((k, r) ∷ m) seat =
    let rest = rank_vector m seat in if k == seat then r.vector else rest

abbrev pub first_of : List ℕ → ℕ
first_of ws = get_or ws 0 0

unfoldable pub challenge : Ranks → List ℕ → ℕ → List ℕ
unfolding compare_ranks rank_vector
challenge ranks [] seat = seat ∷ []
challenge ranks (w ∷ ws) seat =
    elim (compare_ranks (rank_vector ranks seat) (rank_vector ranks w)) [
      | above ↦ seat ∷ []
      | same ↦ (w ∷ ws) ++ seat ∷ []
      | below ↦ w ∷ ws
    ]

unfoldable pub best_seats : Ranks → List ℕ → List ℕ → List ℕ
unfolding challenge
best_seats ranks winners [] = winners
best_seats ranks winners (seat ∷ rest) = best_seats ranks (challenge ranks winners seat) rest

-- Clockwise from the button's left. Seats and buttons are 1..9, so the sum does not go below 0.
unfoldable pub clockwise : ℕ → List ℕ → List ℕ
unfolding sort_by
clockwise button = sort_by (λ w. (w + 9 - button) % 9)

-- The button itself is last.
unfoldable pub button_last : ℕ → List ℕ → List ℕ
button_last button [] = []
button_last button (w ∷ []) = w ∷ []
button_last button (w ∷ v ∷ rest) = if w == button then (v ∷ rest) ++ w ∷ [] else w ∷ v ∷ rest

unfoldable pub winners_of : ℕ → Ranks → List ℕ → List ℕ
unfolding best_seats clockwise button_last
winners_of button ranks eligible =
    button_last button (clockwise button (best_seats ranks [] eligible))

unfoldable pub awards_from : ℕ → ℕ → ℕ → List ℕ → List Award
awards_from i base odd [] = []
awards_from i base odd (seat ∷ rest) =
    record {
      seat = seat;
      base = base;
      odd = if ltb i odd then units_per_chip else 0;
      amount = base + (if ltb i odd then units_per_chip else 0);
    }
    ∷ awards_from (i + 1) base odd rest

-- Whole chips in equal shares; the first winners take one odd chip each.
unfoldable pub share : ℕ → List ℕ → List Award
unfolding awards_from
share amount winners =
    awards_from 0 (amount / units_per_chip / length winners * units_per_chip)
      (amount / units_per_chip % length winners) winners

unfoldable pub add_stack : ℕ → Participant → Participant
add_stack amount p = record p { stack = p.stack + amount }

unfoldable pub pay : Time → List Award → State → State
unfolding update_player emit event_of add_stack
pay now [] s = s
pay now (a ∷ rest) s = pay now rest (
    emit (event_of EventType.pot_award a.seat a.amount 0) now
      (record s { players = update_player a.seat (add_stack a.amount) s.players }))

unfoldable pub pot_of : State → ℕ → ℕ → Pot
unfolding pot_amount eligible_seats winners_of share
pot_of s previous level = record {
  index = length s.pots;
  amount = pot_amount previous level s.players;
  floor = previous;
  ceiling = level;
  eligible = eligible_seats level s.players;
  awards =
      share (pot_amount previous level s.players)
        (winners_of s.config.button_seat s.ranks (eligible_seats level s.players));
}
