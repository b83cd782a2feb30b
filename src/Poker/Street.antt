-- ===== src/Poker/Street.antt =====
-- `nextStreet` of internal/poker/engine/engine.go: the next betting round and its public cards.
use momiao.Base.{ℕ, zero, suc, not, ◌&&◌, [], ◌∷◌, ◌++◌, map, ltb}
use momiao.Base.Int.{negsuc}
use momiao.Poker.Types.{Time, Street, Result, ok, ◌>>=◌, Participant, EventType, Visibility, State}
use momiao.Poker.Table.{emit, event_of, deal}

-- The switch: the next street, and how many cards it brings.
unfoldable pub following : Street → Street × ℕ
following Street.preflop = (Street.flop, 3)
following Street.flop = (Street.turn, 1)
following Street.turn = (Street.river, 1)
following Street.river = (Street.river, 1)
following Street.settled = (Street.settled, 1)

unfoldable pub reset_round : Participant → Participant
reset_round p = record p {
  street_committed = 0;
  last_acted = negsuc 0;
  pending = not p.folded && ltb 0 p.stack;
}

unfoldable pub deal_board : ℕ → Time → State → Result State
unfolding deal
deal_board zero now s = ok s
deal_board (suc count) now s = do
  (card, s') ← deal 0 Visibility.public_card now s
  deal_board count now (record s' { board = s'.board ++ card ∷ [] })

-- The state when the new round is announced, before its cards are dealt.
unfoldable pub open_street : Time → State → State
unfolding following reset_round emit event_of
open_street now s =
    emit (event_of (EventType.dealt_street (following s.street).0) 0 0 0) now (record s {
      street = (following s.street).0;
      current_bet = 0;
      last_full_raise = s.config.big_blind;
      full_raise_sequence = 0;
      players = map reset_round s.players;
    })

unfoldable pub next_street : Time → State → Result State
unfolding deal_board open_street
next_street now s = deal_board (following s.street).1 now (open_street now s)
