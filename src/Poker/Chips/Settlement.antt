-- ===== src/Poker/Chips/Settlement.antt =====
-- The chips under `settle` of internal/poker/engine/engine.go.
use momiao.Base.{
  ℕ, ◌+◌, ◌≡◌, refl, sym, ◌∙◌, ap, inl, inr, List, [], ◌∷◌, map, arith, ltb, ◌==◌, All, keep,
  Bool-cases,
}
use momiao.Base.Sort.{insert_by, sort_by}
use momiao.Poker.Types.{
  Time, Card, Result, ok, ◌>>=◌, >>=-eq-ok, Participant, Award, Pot, Ranks, State, Evaluator,
}
use momiao.Poker.Table.{emit, event_of}
use momiao.Poker.Settle.{
  levels, pot_amount, eligible_seats, pay, add_stack, pot_of, return_uncalled, rank_players,
  showdown, add_pot, settle_level, settle_levels, settle_level-paid, clear_player, close_hand,
  settle, live_count,
}
use momiao.Poker.Chips.{IsWhole, Rising, WholeCommitted, chips, stacks, committed}
use momiao.Poker.Chips.Update.{chips-eq}
use momiao.Poker.Chips.Layers.{
  all_layers, all_layers-nil, all_layers-cons, all_layers-skip, all_layers-levels,
}
use momiao.Poker.Chips.Shares.{awarded-share, stacks-pay, sum_by-pay}
use momiao.Poker.Chips.Winners.{
  winners_of-All, winners_of-ne-nil, eligible_seats-Seated, share-AllSeated,
}
use momiao.Poker.Chips.Uncalled.{return_uncalled-chips, return_uncalled-WholeCommitted}

pot_amount-IsWhole :
    (previous level : ℕ) (ps : List Participant)
    → IsWhole previous
    → IsWhole level
    → IsWhole (pot_amount previous level ps)
unfolding pot_amount
pot_amount-IsWhole previous level [] h k = refl
pot_amount-IsWhole previous level (p ∷ ps) h k =
    ground (arith, pot_amount-IsWhole previous level ps h k)

-- One pot goes to the stacks whole, and nothing else of the players changes.
settle_level-stacks :
    (now : Time) (previous level : ℕ) (s s' : State)
    → IsWhole previous
    → IsWhole level
    → settle_level now previous level s ≡ ok s'
    → (stacks s'.players ≡ stacks s.players + pot_amount previous level s.players)
      × (s'.players ≡ (pay now (pot_of s previous level).awards s).players)
unfolding add_pot pot_of
settle_level-stacks now previous level s s' h k e = go (eligible_seats level s.players) refl
  where
    shares :
        (seat : ℕ) (rest : List ℕ)
        → eligible_seats level s.players ≡ seat ∷ rest
        → stacks (pay now (pot_of s previous level).awards s).players
          ≡ stacks s.players + pot_amount previous level s.players
    shares seat rest q =
        stacks-pay now (pot_of s previous level).awards s (
          share-AllSeated s.players _ _
            (winners_of-All _ _ _ _ (eligible_seats-Seated level s.players)))
        ∙ ap (λ (n : ℕ). stacks s.players + n)
            (awarded-share (pot_amount previous level s.players) _
              (rw q (winners_of-ne-nil s.config.button_seat s.ranks seat rest))
              (pot_amount-IsWhole previous level s.players h k))

    go :
        (es : List ℕ)
        → eligible_seats level s.players ≡ es
        → (stacks s'.players ≡ stacks s.players + pot_amount previous level s.players)
          × (s'.players ≡ (pay now (pot_of s previous level).awards s).players)
    go [] q = absurd ((settle_level-paid now previous level s s' e).0 q)
    go (seat ∷ rest) q =
        let same = ap (λ (x : State). x.players) (settle_level-paid now previous level s s' e).1 in
        (ap stacks same ∙ shares seat rest q, same)

pub all_layers-pay :
    (previous : ℕ) (ls : List ℕ) (now : Time) (as' : List Award) (s : State)
    → all_layers previous ls (pay now as' s).players ≡ all_layers previous ls s.players
unfolding add_stack
all_layers-pay previous ls now as' s = sum_by-pay _ now as' s (λ p amount. refl)

-- The pots over all levels go to the stacks.
settle_levels-stacks :
    (now : Time) (previous : ℕ) (ls : List ℕ) (s s' : State)
    → IsWhole previous
    → All IsWhole ls
    → settle_levels now previous ls s ≡ ok s'
    → stacks s'.players ≡ stacks s.players + all_layers previous ls s.players
unfolding settle_levels
settle_levels-stacks now previous [] s s' h k e = ground (arith, all_layers-nil previous s.players)
settle_levels-stacks now previous (l ∷ ls) s s' h k e = elim (Bool-cases (l == previous)) [
  | inl old ↦
      settle_levels-stacks now previous ls s s' h k.1 (rw (old, settle_levels) at e)
      ∙ ap (λ (n : ℕ). stacks s.players + n) (sym (all_layers-skip previous l ls s.players old))
  | inr new ↦
      let (t, q, e') =
        >>=-eq-ok (settle_level now previous l s) (settle_levels now l ls)
          (rw (new, settle_levels) at e) in
      omega (
        arith,
        settle_levels-stacks now l ls t s' k.0 k.1 e',
        (settle_level-stacks now previous l s t h k.0 q).0,
        ap (all_layers l ls) (settle_level-stacks now previous l s t h k.0 q).1,
        all_layers-pay l ls now (pot_of s previous l).awards s,
        all_layers-cons previous l ls s.players new,
      )
]

keep-IsWhole :
    (ps : List Participant)
    → WholeCommitted ps
    → All IsWhole (keep (ltb 0) (map (λ p. p.total_committed) ps))
keep-IsWhole [] w = tt
keep-IsWhole (p ∷ ps) w = ground (arith, keep-IsWhole ps w.1)

insert_by-IsWhole :
    (a : ℕ) (ls : List ℕ) → IsWhole a → All IsWhole ls → All IsWhole (insert_by (λ n. n) a ls)
unfolding insert_by
insert_by-IsWhole a [] h k = (h, tt)
insert_by-IsWhole a (l ∷ ls) h k = ground (arith, insert_by-IsWhole a ls h k.1)

sort_by-IsWhole : (ls : List ℕ) → All IsWhole ls → All IsWhole (sort_by (λ n. n) ls)
unfolding sort_by
sort_by-IsWhole [] h = tt
sort_by-IsWhole (l ∷ ls) h = insert_by-IsWhole l (sort_by (λ n. n) ls) h.0 (sort_by-IsWhole ls h.1)

levels-IsWhole : (ps : List Participant) → WholeCommitted ps → All IsWhole (levels ps)
unfolding levels
levels-IsWhole ps w = sort_by-IsWhole _ (keep-IsWhole ps w)

-- The showdown looks at hands only.
pub showdown-players :
    (evaluate : Evaluator) (now : Time) (s s' : State)
    → showdown evaluate now s ≡ ok s'
    → s'.players ≡ s.players
unfolding showdown
showdown-players evaluate now s s' e = elim (Bool-cases (ltb 1 (live_count s.players))) [
  | inr alone ↦ ground arith
  | inl several ↦
      let (ranks, q, e') =
        >>=-eq-ok (rank_players evaluate s.board s.config.evaluator_version s.players [])
          (λ (ranks : Ranks).
            ok (record (emit (event_of momiao.Poker.Types.EventType.showdown 0 0 0) now s) {
              ranks = ranks;
            }))
          (rw (several, showdown) at e) in
      ground arith
]

stacks-clear_player : (ps : List Participant) → stacks (map clear_player ps) ≡ stacks ps
unfolding clear_player
stacks-clear_player [] = refl
stacks-clear_player (p ∷ ps) = omega (arith, stacks-clear_player ps)

committed-clear_player : (ps : List Participant) → committed (map clear_player ps) ≡ 0
unfolding clear_player
committed-clear_player [] = refl
committed-clear_player (p ∷ ps) = omega (arith, committed-clear_player ps)

-- From seats in order and whole commitments, a settlement that returns a state pays every
-- committed chip into the stacks, and nothing stays committed.
pub settle-chips :
    (evaluate : Evaluator) (now : Time) (s s' : State)
    → Rising 0 s.players
    → WholeCommitted s.players
    → settle evaluate now s ≡ ok s'
    → (stacks s'.players ≡ chips s.players) × (committed s'.players ≡ 0)
unfolding settle close_hand
settle-chips evaluate now s s' r w e =
    let back = return_uncalled now s in
    let (shown, q, e') =
      >>=-eq-ok (showdown evaluate now back)
        (λ (shown : State).
          settle_levels now 0 (levels back.players) shown >>= λ paid. ok (close_hand now paid))
        e in
    let (paid, q', e'') =
      >>=-eq-ok (settle_levels now 0 (levels back.players) shown)
        (λ (paid : State). ok (close_hand now paid)) e' in
    let same_players = showdown-players evaluate now back shown q in
    let paid_out =
      settle_levels-stacks now 0 (levels back.players) shown paid refl
        (levels-IsWhole back.players (return_uncalled-WholeCommitted now s w)) q' in
    ground (
      arith,
      stacks-clear_player paid.players,
      committed-clear_player paid.players,
      ap stacks same_players,
      ap (all_layers 0 (levels back.players)) same_players,
      all_layers-levels back.players,
      chips-eq back.players,
      return_uncalled-chips now s r,
    )
