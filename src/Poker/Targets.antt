-- ===== src/Poker/Targets.antt =====
-- The target of an action in `apply` of internal/poker/engine/engine.go.
use momiao.Base.{
  ℕ, ◌+◌, ◌-◌, ◌≤◌, ◌≡◌, refl, subst, inl, inr, Option-cases, ◌∙◌, ap, Bool, true, false, List, [],
  ◌∷◌, arith, any, Option, none, some,
}
use momiao.Poker.Types.{
  Time, max_int64, max_whole_units, ActionKind, kind_eq, Street, Result, ok, illegal, ◌>>=◌, ◌>>◌,
  >>=-eq-ok, guard, guard-eq-ok, Participant, Action, Legal, State, Evaluator,
}
use momiao.Poker.Table.{player, add_cap, legal, legal_for, bet_or_raise, all_in_action}
use momiao.Poker.Progress.{progress, progress_fuel}
use momiao.Poker.Validate.{highest_street, expected_bet, valid_street, is_valid}
use momiao.Poker.Engine.{may_act, well_formed, target_of, perform, carry_out, move}
use momiao.Poker.Chips.{IsWhole, chips}
use momiao.Poker.Chips.Act.{player-IsWhole, target_of-le}
use momiao.Poker.Chips.Move.{may_act-actor}
use momiao.Poker.Validated.{is_valid-Sound, is_valid-Within, Within}

player-highest_street :
    (ps : List Participant) (k : ℕ) (p : Participant)
    → player ps k ≡ some p
    → p.street_committed ≤ highest_street ps
unfolding player highest_street
player-highest_street [] k p e = cc
player-highest_street (q ∷ ps) k p e = ground (arith, player-highest_street ps k p)

player-chips :
    (ps : List Participant) (k : ℕ) (p : Participant)
    → player ps k ≡ some p
    → Within ps
    → p.street_committed ≤ chips ps
unfolding player
player-chips [] k p e h = cc
player-chips (q ∷ ps) k p e h = ground (arith, player-chips ps k p)

expected_bet-highest : (s : State) → highest_street s.players ≤ expected_bet s
unfolding expected_bet
expected_bet-highest s = go s.street refl
  where
    go : (k : Street) → s.street ≡ k → highest_street s.players ≤ expected_bet s
    go Street.preflop q = ground arith
    go Street.flop q = ground arith
    go Street.turn q = ground arith
    go Street.river q = ground arith
    go Street.settled q = ground arith

-- The current bet of a validated running hand is no lower than any street commitment.
current_bet-highest :
    (s : State)
    → is_valid s ≡ true
    → momiao.Poker.Types.street_eq s.street Street.settled ≡ false
    → highest_street s.players ≤ s.current_bet
unfolding is_valid
current_bet-highest s v on =
    let street : valid_street s ≡ true = ground arith in
    omega (arith, expected_bet-highest s, bet street)
  where
    bet : valid_street s ≡ true → s.current_bet ≡ expected_bet s
    bet k = unfold valid_street in ground arith

-- A whole amount within an int64 is within the cap of `addCap`.
whole-capped : (n : ℕ) → IsWhole n → n ≤ max_int64 → n ≤ max_whole_units
whole-capped n h k = ground arith

legal-legal_for :
    (s : State) (a : Action) (now : Time) (timeout : Bool) (p : Participant)
    → may_act s a now timeout ≡ ok tt
    → player s.players s.actor ≡ some p
    → legal s ≡ legal_for s p
unfolding may_act legal
legal-legal_for s a now timeout p e q = ground arith

may_act-running :
    (s : State) (a : Action) (now : Time) (timeout : Bool)
    → may_act s a now timeout ≡ ok tt
    → momiao.Poker.Types.street_eq s.street Street.settled ≡ false
unfolding may_act
may_act-running s a now timeout e = ground arith

-- A bet is legal only before there is one.
legal_for-bet :
    (s : State) (p : Participant)
    → any (λ kind. kind_eq kind ActionKind.bet) (legal_for s p).actions ≡ true
    → s.current_bet ≡ 0
unfolding legal_for bet_or_raise all_in_action
legal_for-bet s p h = ground arith

-- A raise to at least the minimum is above the current bet, unless that is beyond the cap.
add_cap-cases : (bet raise n : ℕ) → n ≤ bet → n ≤ max_whole_units → n ≤ add_cap bet raise
unfolding add_cap
add_cap-cases bet raise n h k = ground arith

-- The facts about the actor that the kinds of action need.
record IsActor (s : State) (p : Participant) (a : Action) : Type 0 where
  found : legal s ≡ legal_for s p
  under_bet : p.street_committed ≤ s.current_bet
  capped : p.street_committed ≤ max_whole_units
  formed : well_formed (legal_for s p) a ≡ true

well_formed-allowed :
    (l : Legal) (a : Action)
    → well_formed l a ≡ true
    → any (λ kind. kind_eq kind a.kind) l.actions ≡ true
unfolding well_formed
well_formed-allowed l a h = ground arith

-- What validation and the first checks of an action say of its player.
validated-IsActor :
    (s : State) (a : Action) (now : Time) (timeout : Bool) (p : Participant)
    → is_valid s ≡ true
    → may_act s a now timeout ≡ ok tt
    → well_formed (legal s) a ≡ true
    → player s.players s.actor ≡ some p
    → IsActor s p a
validated-IsActor s a now timeout p v allowed formed found =
    let same = legal-legal_for s a now timeout p allowed found in
    let sound = is_valid-Sound s v in
    let highest = current_bet-highest s v (may_act-running s a now timeout allowed) in
    record {
      found = same;
      under_bet = omega (arith, player-highest_street s.players s.actor p found, highest);
      capped =
          whole-capped p.street_committed
            (player-IsWhole s.players s.actor p sound.whole_amounts found).1
            (omega (
              arith,
              player-chips s.players s.actor p found (is_valid-Within s v),
              sound.total,
              sound.fits,
            ));
      formed = subst (λ (l : Legal). well_formed l a ≡ true) same formed;
    }

-- No kind of action takes chips back.
kept-target :
    (s : State) (p : Participant) (a : Action) (target : ℕ) (kind : ActionKind)
    → a.kind ≡ kind
    → IsActor s p a
    → target_of (legal_for s p) p a ≡ ok target
    → p.street_committed ≤ target
unfolding target_of
kept-target s p a target ActionKind.fold k i e = ground arith
kept-target s p a target ActionKind.check k i e = ground arith
kept-target s p a target ActionKind.call k i e = ground arith
kept-target s p a target ActionKind.all_in k i e = ground arith
kept-target s p a target ActionKind.raise k i e =
    unfold legal_for in
    ground
      (arith, add_cap-cases s.current_bet s.last_full_raise p.street_committed i.under_bet i.capped)
kept-target s p a target ActionKind.bet k i e = omega (arith, i.under_bet, legal_for-bet s p bet)
  where
    bet : any (λ kind. kind_eq kind ActionKind.bet) (legal_for s p).actions ≡ true
    bet =
        subst (λ (x : ActionKind). any (λ kind. kind_eq kind x) (legal_for s p).actions ≡ true) k
          (well_formed-allowed (legal_for s p) a i.formed)

-- On a hand that passes `validate`, an accepted action takes its seat's player from the street
-- commitment up to a target that is not below it and not above it and the stack together, and
-- what follows is the payment of exactly the difference.
pub move-covered :
    (evaluate : Evaluator) (s s' : State) (a : Action) (now : Time) (timeout : Bool)
    → is_valid s ≡ true
    → move evaluate s a now timeout ≡ ok s'
    → (p : Participant) × (target : ℕ) × (player s.players a.seat ≡ some p)
      × (target_of (legal s) p a ≡ ok target)
      × (p.street_committed ≤ target)
      × (target ≤ p.stack + p.street_committed)
      × (progress progress_fuel evaluate a.seat now
            (perform a now timeout (target - p.street_committed) target s)
          ≡ ok s')
unfolding move carry_out
move-covered evaluate s s' a now timeout v e =
    let rest = carry_out evaluate s a now timeout (player s.players a.seat) in
    let (u, allowed, e₁) =
      >>=-eq-ok (may_act s a now timeout)
        (λ (u : Unit {0}). guard (well_formed (legal s) a) illegal >> rest) e in
    let (w, formed, e₂) =
      >>=-eq-ok (guard (well_formed (legal s) a) illegal) (λ (w : Unit {0}). rest) e₁ in
    elim (Option-cases (player s.players a.seat)) [
      | inl missing ↦ absurd (refused (subst Carried missing e₂))
      | inr (p, found) ↦
          let (target, q, e₃) =
            >>=-eq-ok (target_of (legal s) p a)
              (λ (target : ℕ).
                progress progress_fuel evaluate a.seat now
                  (perform a now timeout (target - p.street_committed) target s))
              (subst Carried found e₂) in
          let own : player s.players s.actor ≡ some p =
            ap (player s.players) (may_act-actor s a now timeout allowed) ∙ found in
          let actor =
            validated-IsActor s a now timeout p v allowed (guard-eq-ok _ illegal formed) own in
          (
            p,
            target,
            found,
            q,
            kept-target s p a target a.kind refl actor
                (subst (λ (l : Legal). target_of l p a ≡ ok target) actor.found q),
            target_of-le s p a target own q,
            e₃,
          )
    ]
  where
    Carried : Option Participant → Type 0
    Carried o = carry_out evaluate s a now timeout o ≡ ok s'

    refused : Carried none → ⊥
    refused h = unfold carry_out in cc
