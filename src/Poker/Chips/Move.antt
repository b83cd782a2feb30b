-- ===== src/Poker/Chips/Move.antt =====
-- The chips under `apply` of internal/poker/engine/engine.go, before it validates its result.
use momiao.Base.{
  ℕ, ◌-◌, ◌≤◌, ◌≡◌, refl, ◌∙◌, Bool, true, List, map, arith, ltb, Option, none, some, inl, inr,
  Bool-cases,
}
use momiao.Poker.Types.{
  Time, ActionKind, ok, ◌>>◌, >>=-eq-ok, guard, guard-eq-ok, illegal, Participant, Action, State,
  Evaluator,
}
use momiao.Poker.Table.{player, update_player, commit, legal}
use momiao.Poker.Progress.{progress, progress_fuel}
use momiao.Poker.Engine.{
  may_act, well_formed, target_of, ask_again, raise_bet, has_acted, pay_in, perform, carry_out,
  move,
}
use momiao.Poker.Chips.{IsWhole, Rising, WholeCommitted, chips}
use momiao.Poker.Chips.Hand.{Keeps, progress-chips, map-chips, map-Rising, map-WholeCommitted}
use momiao.Poker.Chips.Act.{
  WholeTable, WholeTable-committed, player-IsWhole, target_of-le, target_of-IsWhole,
  to_call-IsWhole, well_formed-whole, pay_in-chips, update_player-Rising,
  update_player-WholeCommitted, has_acted-chips,
}

ask_again-Keeps :
    (n seat target : ℕ) (ps : List Participant)
    → Keeps n ps
    → Keeps n (map (ask_again seat target) ps)
unfolding ask_again
ask_again-Keeps n seat target ps (c, r, w) = (
  map-chips (ask_again seat target) ps (λ p. refl) ∙ c,
  map-Rising (ask_again seat target) 0 ps (λ p. refl) r,
  map-WholeCommitted (ask_again seat target) ps (λ p. refl) w,
)

raise_bet-Keeps :
    (n seat target : ℕ) (s : State) → Keeps n s.players → Keeps n (raise_bet seat target s).players
unfolding raise_bet
raise_bet-Keeps n seat target s k = elim (Bool-cases (ltb s.current_bet target)) [
  | inl up ↦ rw up (ask_again-Keeps n seat target s.players k)
  | inr level ↦ rw level k
]

pay_in-Keeps :
    (ps : List Participant) (p : Participant) (kind : ActionKind) (seat delta : ℕ)
    → player ps seat ≡ some p
    → delta ≤ p.stack
    → IsWhole delta
    → Rising 0 ps
    → WholeCommitted ps
    → Keeps (chips ps) (update_player seat (pay_in kind delta) ps)
pay_in-Keeps ps p kind seat delta e h d r w = (
  pay_in-chips ps p kind seat delta e h,
  update_player-Rising (pay_in kind delta) 0 seat ps (unfold pay_in commit in λ q. refl) r,
  update_player-WholeCommitted (pay_in kind delta) seat ps
      (unfold pay_in commit in λ q v. omega arith) w,
)

has_acted-Keeps :
    (n sequence : ℕ) (timeout : Bool) (seat : ℕ) (ps : List Participant)
    → Keeps n ps
    → Keeps n (update_player seat (has_acted sequence timeout) ps)
has_acted-Keeps n sequence timeout seat ps (c, r, w) = (
  has_acted-chips sequence timeout seat ps ∙ c,
  update_player-Rising (has_acted sequence timeout) 0 seat ps (unfold has_acted in λ q. refl) r,
  update_player-WholeCommitted (has_acted sequence timeout) seat ps (unfold has_acted in λ q v. v)
      w,
)

perform-Keeps :
    (s : State) (p : Participant) (a : Action) (now : Time) (timeout : Bool) (delta target : ℕ)
    → player s.players a.seat ≡ some p
    → delta ≤ p.stack
    → IsWhole delta
    → Rising 0 s.players
    → WholeCommitted s.players
    → Keeps (chips s.players) (perform a now timeout delta target s).players
unfolding perform
perform-Keeps s p a now timeout delta target e h d r w =
    has_acted-Keeps (chips s.players) _ timeout a.seat _ (
      raise_bet-Keeps (chips s.players) a.seat target
        (record s { players = update_player a.seat (pay_in a.kind delta) s.players })
        (pay_in-Keeps s.players p a.kind a.seat delta e h d r w))

pub may_act-actor :
    (s : State) (a : Action) (now : Time) (timeout : Bool) {u : Unit {0}}
    → may_act s a now timeout ≡ ok u
    → s.actor ≡ a.seat
unfolding may_act
may_act-actor s a now timeout e = ground arith

carry_out-chips :
    (evaluate : Evaluator) (s s' : State) (a : Action) (now : Time) (timeout : Bool)
    (o : Option Participant)
    → player s.players a.seat ≡ o
    → s.actor ≡ a.seat
    → Rising 0 s.players
    → WholeTable s.players
    → IsWhole s.current_bet
    → well_formed (legal s) a ≡ true
    → carry_out evaluate s a now timeout o ≡ ok s'
    → chips s'.players ≡ chips s.players
unfolding carry_out
carry_out-chips evaluate s s' a now timeout none found seat r w b v e = cc
carry_out-chips evaluate s s' a now timeout (some p) found seat r w b v e =
    let (target, q, e') =
      >>=-eq-ok (target_of (legal s) p a)
        (λ (target : ℕ).
          progress progress_fuel evaluate a.seat now
            (perform a now timeout (target - p.street_committed) target s))
        e in
    let own : player s.players s.actor ≡ some p = rw seat found in
    let (stack, street) = player-IsWhole s.players a.seat p w found in
    let whole =
      target_of-IsWhole (legal s) p a target a.kind refl stack street
        (to_call-IsWhole s p own street b) (well_formed-whole (legal s) a v) q in
    let (c, r', w') =
      perform-Keeps s p a now timeout (target - p.street_committed) target found
        (omega (arith, target_of-le s p a target own q)) (omega arith) r
        (WholeTable-committed s.players w) in
    progress-chips progress_fuel evaluate a.seat now
      (perform a now timeout (target - p.street_committed) target s) s' r' w' e'
    ∙ c

-- When the seats are in order and all amounts are whole, an accepted action, with everything it
-- leads to, leaves the chips on the table unchanged.
pub move-chips :
    (evaluate : Evaluator) (s s' : State) (a : Action) (now : Time) (timeout : Bool)
    → Rising 0 s.players
    → WholeTable s.players
    → IsWhole s.current_bet
    → move evaluate s a now timeout ≡ ok s'
    → chips s'.players ≡ chips s.players
unfolding move
move-chips evaluate s s' a now timeout r w b e =
    let rest = carry_out evaluate s a now timeout (player s.players a.seat) in
    let (u, allowed, e₁) =
      >>=-eq-ok (may_act s a now timeout)
        (λ (u : Unit {0}). guard (well_formed (legal s) a) illegal >> rest) e in
    let (v, formed, e₂) =
      >>=-eq-ok (guard (well_formed (legal s) a) illegal) (λ (v : Unit {0}). rest) e₁ in
    carry_out-chips evaluate s s' a now timeout (player s.players a.seat) refl
      (may_act-actor s a now timeout allowed) r w b (guard-eq-ok _ illegal formed) e₂
