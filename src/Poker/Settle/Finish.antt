-- ===== src/Poker/Settle/Finish.antt =====
-- `settle` of internal/poker/engine/engine.go: showdown ranks, the loop over the levels, and the
-- cleared table.
use momiao.Base.{ℕ, true, false, List, [], ◌∷◌, ◌++◌, map, ltb, ◌==◌, if◌then◌else◌, String}
use momiao.Poker.Types.{
  Time, Card, Street, Result, ok, err, invalid, division_panic, Pot, ◌>>=◌, ◌>>◌, guard,
  Participant, EventType, HandRank, Ranks, State, Evaluator,
}
use momiao.Poker.Table.{emit, event_of, is_some}
use momiao.Poker.Rank.{valid_rank}
use momiao.Poker.Settle.Pots.{levels, live_count, pay, pot_of, winners_of, return_uncalled}

unfoldable pub set_rank : ℕ → HandRank → Ranks → Ranks
set_rank seat r [] = (seat, r) ∷ []
set_rank seat r ((k, q) ∷ m) =
    let rest = set_rank seat r m in if k == seat then (k, r) ∷ m else (k, q) ∷ rest

unfoldable pub rank_players :
    Evaluator → List Card → String → List Participant → Ranks → Result Ranks
unfolding set_rank valid_rank
rank_players evaluate board version [] ranks = ok ranks
rank_players evaluate board version (p ∷ ps) ranks = elim p.folded [
  | true ↦ rank_players evaluate board version ps ranks
  | false ↦ do
    r ← evaluate p.hole board version
    guard (valid_rank r version) invalid
    rank_players evaluate board version ps (set_rank p.seat_no r ranks)
]

unfoldable pub showdown : Evaluator → Time → State → Result State
unfolding rank_players live_count emit event_of
showdown evaluate now s =
    if ltb 1 (live_count s.players)
    then (do
      ranks ← rank_players evaluate s.board s.config.evaluator_version s.players []
      ok (record (emit (event_of EventType.showdown 0 0 0) now s) { ranks = ranks }))
    else ok s

unfoldable pub add_pot : Time → Pot → State → State
unfolding pay
add_pot now pot s = record (pay now pot.awards s) { pots = s.pots ++ pot ∷ [] }

-- The division of a pot by the number of its winners panics when there are none.
unfoldable pub divide_pot : List ℕ → Time → Pot → State → Result State
unfolding add_pot
divide_pot [] now pot s = err division_panic
divide_pot (_ ∷ _) now pot s = ok (add_pot now pot s)

-- One pot: nobody eligible is an error.
unfoldable pub settle_level : Time → ℕ → ℕ → State → Result State
unfolding divide_pot pot_of winners_of
settle_level now previous level s = elim (pot_of s previous level).eligible [
  | [] ↦ err invalid
  | seat ∷ seats ↦
      divide_pot (winners_of s.config.button_seat s.ranks (seat ∷ seats)) now
        (pot_of s previous level) s
]

unfoldable pub settle_levels : Time → ℕ → List ℕ → State → Result State
unfolding settle_level
settle_levels now previous [] s = ok s
settle_levels now previous (level ∷ rest) s = elim (level == previous) [
  | true ↦ settle_levels now previous rest s
  | false ↦ settle_level now previous level s >>= settle_levels now level rest
]

unfoldable pub clear_player : Participant → Participant
clear_player p = record p {
  total_committed = 0;
  street_committed = 0;
  pending = false;
  disconnect_sit_out = if is_some p.disconnected_since then true else p.disconnect_sit_out;
}

unfoldable pub close_hand : Time → State → State
unfolding clear_player emit event_of
close_hand now s = emit (event_of EventType.system_settlement 0 0 0) now (record s {
  players = map clear_player s.players;
  actor = 0;
  current_bet = 0;
  started_at = 0;
  deadline = 0;
  street = Street.settled;
})

unfoldable pub settle : Evaluator → Time → State → Result State
unfolding return_uncalled showdown levels settle_levels close_hand
settle evaluate now s = do
  let returned = return_uncalled now s
  shown ← showdown evaluate now returned
  paid ← settle_levels now 0 (levels returned.players) shown
  ok (close_hand now paid)
