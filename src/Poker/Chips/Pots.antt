-- ===== src/Poker/Chips/Pots.antt =====
-- The pots and the uncalled return of `settle` of internal/poker/engine/engine.go.
use momiao.Base.{
  ℕ, ◌+◌, ◌-◌, ◌≤◌, ◌≡◌, refl, sym, ◌∙◌, ap, inl, inr, some, List, [], ◌∷◌, arith, ltb, ◌==◌,
  Bool-cases, Option-cases,
}
use momiao.Base.Sums.{sum_by, sum_by-append}
use momiao.Poker.Types.{
  Time, Result, ok, ◌>>=◌, >>=-eq-ok, ok-injective, Participant, Award, Pot, Return, Ranks, State,
  Evaluator,
}
use momiao.Poker.Table.{player, update_player, emit, event_of}
use momiao.Poker.Settle.{
  levels, pot_amount, pay, pot_of, top_two, take_back, return_uncalled, rank_players, showdown,
  add_pot, settle_level, settle_levels, settle_level-paid, close_hand, settle, live_count,
}
use momiao.Poker.Chips.{Rising, committed}
use momiao.Poker.Chips.Update.{sum_by-update_player}
use momiao.Poker.Chips.Layers.{
  all_layers, all_layers-nil, all_layers-cons, all_layers-skip, all_layers-levels,
}
use momiao.Poker.Chips.Uncalled.{top_two-Found}
use momiao.Poker.Chips.Settlement.{all_layers-pay, showdown-players}

all_layers-added :
    (previous : ℕ) (ls : List ℕ) (now : Time) (pot : Pot) (s : State)
    → all_layers previous ls (add_pot now pot s).players ≡ all_layers previous ls s.players
unfolding add_pot
all_layers-added previous ls now pot s = all_layers-pay previous ls now pot.awards s

-- The amounts of some pots together.
abbrev pub potted : List Pot → ℕ
potted = sum_by (λ pot. pot.amount)

pay-pots : (now : Time) (as' : List Award) (s : State) → (pay now as' s).pots ≡ s.pots
unfolding pay emit
pay-pots now [] s = refl
pay-pots now (a ∷ as') s = pay-pots now as' _

settle_level-potted :
    (now : Time) (previous level : ℕ) (s s' : State)
    → settle_level now previous level s ≡ ok s'
    → potted s'.pots ≡ potted s.pots + pot_amount previous level s.players
unfolding add_pot pot_of
settle_level-potted now previous level s s' e = omega (
  arith,
  ap (λ (x : State). potted x.pots) (settle_level-paid now previous level s s' e).1,
  sum_by-append (λ (pot : Pot). pot.amount) s.pots (pot_of s previous level ∷ []),
)

settle_levels-potted :
    (now : Time) (previous : ℕ) (ls : List ℕ) (s s' : State)
    → settle_levels now previous ls s ≡ ok s'
    → potted s'.pots ≡ potted s.pots + all_layers previous ls s.players
unfolding settle_levels
settle_levels-potted now previous [] s s' e = ground (arith, all_layers-nil previous s.players)
settle_levels-potted now previous (l ∷ ls) s s' e = elim (Bool-cases (l == previous)) [
  | inl old ↦
      settle_levels-potted now previous ls s s' (rw (old, settle_levels) at e)
      ∙ ap (λ (n : ℕ). potted s.pots + n) (sym (all_layers-skip previous l ls s.players old))
  | inr new ↦
      let (t, q, e') =
        >>=-eq-ok (settle_level now previous l s) (settle_levels now l ls)
          (rw (new, settle_levels) at e) in
      omega (
        arith,
        settle_levels-potted now l ls t s' e',
        settle_level-potted now previous l s t q,
        ap (λ (x : State). all_layers l ls x.players) (settle_level-paid now previous l s t q).1,
        all_layers-added l ls now (pot_of s previous l) s,
        all_layers-cons previous l ls s.players new,
      )
]

-- The uncalled amounts returned so far.
abbrev pub returned : List Return → ℕ
returned = sum_by (λ r. r.amount)

taken_back :
    (ps : List Participant) (p : Participant) (seat amount : ℕ)
    → player ps seat ≡ some p
    → amount ≤ p.total_committed
    → committed (update_player seat (take_back amount) ps) + amount ≡ committed ps
unfolding take_back
taken_back ps p seat amount e h =
    omega (arith, sum_by-update_player (λ q. q.total_committed) (take_back amount) seat p ps e)

-- What is returned is no longer committed, and nothing else leaves the commitments.
return_uncalled-returned :
    (now : Time) (s : State)
    → Rising 0 s.players
    → returned (return_uncalled now s).returns + committed (return_uncalled now s).players
      ≡ returned s.returns + committed s.players
unfolding return_uncalled
return_uncalled-returned now s r =
    elim (Bool-cases (ltb (top_two s.players).second (top_two s.players).highest)) [
      | inr even ↦ rw even refl
      | inl uneven ↦ rw uneven (elim (Option-cases (player s.players (top_two s.players).seat)) [
        | inl missing ↦ absurd (ground (arith, top_two-Found s.players r))
        | inr (p, found) ↦
            let top = top_two s.players in
            omega (
              arith,
              sum_by-append (λ (x : Return). x.amount) s.returns
                  (record { seat = top.seat; amount = top.highest - top.second } ∷ []),
              taken_back s.players p top.seat (top.highest - top.second) found
                  (ground (arith, top_two-Found s.players r)),
            )
      ])
    ]

return_uncalled-pots : (now : Time) (s : State) → (return_uncalled now s).pots ≡ s.pots
unfolding return_uncalled
return_uncalled-pots now s =
    elim (Bool-cases (ltb (top_two s.players).second (top_two s.players).highest)) [
      | inr even ↦ rw even refl
      | inl uneven ↦ rw uneven refl
    ]

-- The showdown adds no pot and returns nothing.
showdown-pots :
    (evaluate : Evaluator) (now : Time) (s s' : State)
    → showdown evaluate now s ≡ ok s'
    → (s'.pots ≡ s.pots) × (s'.returns ≡ s.returns)
unfolding showdown
showdown-pots evaluate now s s' e = elim (Bool-cases (ltb 1 (live_count s.players))) [
  | inr alone ↦ ground arith
  | inl several ↦
      let (ranks, q, e') =
        >>=-eq-ok (rank_players evaluate s.board s.config.evaluator_version s.players [])
          (λ (ranks : Ranks).
            ok (record (emit (event_of momiao.Poker.Types.EventType.showdown 0 0 0) now s) {
              ranks = ranks;
            }))
          (rw (several, showdown) at e) in
      ground arith
]

pay-returns : (now : Time) (as' : List Award) (s : State) → (pay now as' s).returns ≡ s.returns
unfolding pay emit
pay-returns now [] s = refl
pay-returns now (a ∷ as') s = pay-returns now as' _

settle_levels-returns :
    (now : Time) (previous : ℕ) (ls : List ℕ) (s s' : State)
    → settle_levels now previous ls s ≡ ok s'
    → s'.returns ≡ s.returns
unfolding settle_levels add_pot
settle_levels-returns now previous [] s s' e = ground arith
settle_levels-returns now previous (l ∷ ls) s s' e = elim (Bool-cases (l == previous)) [
  | inl old ↦ settle_levels-returns now previous ls s s' (rw (old, settle_levels) at e)
  | inr new ↦
      let (t, q, e') =
        >>=-eq-ok (settle_level now previous l s) (settle_levels now l ls)
          (rw (new, settle_levels) at e) in
      settle_levels-returns now l ls t s' e'
      ∙ ap (λ (x : State). x.returns) (settle_level-paid now previous l s t q).1
      ∙ pay-returns now (pot_of s previous l).awards s
]

-- From seats in order, a settlement that returns a state has split all that was committed: what
-- it adds to the pots and to the uncalled returns sums to exactly the commitments.
pub settle-potted :
    (evaluate : Evaluator) (now : Time) (s s' : State)
    → Rising 0 s.players
    → settle evaluate now s ≡ ok s'
    → potted s'.pots + returned s'.returns
      ≡ potted s.pots + returned s.returns + committed s.players
unfolding settle close_hand
settle-potted evaluate now s s' r e =
    let back = return_uncalled now s in
    let (shown, q, e') =
      >>=-eq-ok (showdown evaluate now back)
        (λ (shown : State).
          settle_levels now 0 (levels back.players) shown >>= λ paid. ok (close_hand now paid))
        e in
    let (paid, q', e'') =
      >>=-eq-ok (settle_levels now 0 (levels back.players) shown)
        (λ (paid : State). ok (close_hand now paid)) e' in
    let closed = sym (ok-injective e'') in
    omega (
      arith,
      ap (λ (x : State). potted x.pots + returned x.returns) closed,
      settle_levels-potted now 0 (levels back.players) shown paid q',
      ap returned (settle_levels-returns now 0 (levels back.players) shown paid q'),
      ap potted (showdown-pots evaluate now back shown q).0,
      ap returned (showdown-pots evaluate now back shown q).1,
      ap (all_layers 0 (levels back.players)) (showdown-players evaluate now back shown q),
      all_layers-levels back.players,
      ap potted (return_uncalled-pots now s),
      return_uncalled-returned now s r,
    )
