-- ===== src/Poker/Log/Act.antt =====
-- The event log and the receipts under `apply` of internal/poker/engine/engine.go.
use momiao.Base.{
  ℕ, ◌-◌, ◌≡◌, refl, ap, subst, Bool, List, [], ◌∷◌, ◌++◌, ltb, Option, none, some, Bool-cases, inl,
  inr, length,
}
use momiao.Poker.Types.{
  Time, ok, illegal, ◌>>◌, >>=-eq-ok, ok-injective, guard, Participant, Action, Event, Receipt,
  State, Evaluator,
}
use momiao.Poker.Table.{player, update_player, legal}
use momiao.Poker.Progress.{progress, progress_fuel}
use momiao.Poker.Validate.{validate}
use momiao.Poker.Engine.{
  may_act, well_formed, target_of, raise_bet, pay_in, perform, carry_out, move, add_receipt,
  next_state,
}
use momiao.Poker.Log.{IsLogged, Extends}
use momiao.Poker.Log.Step.{Extends-same, Extends-trans, Extends-event}
use momiao.Poker.Log.Hand.{progress-Extends, Extends-refl}

raise_bet-Extends : (seat target : ℕ) (s : State) → Extends s (raise_bet seat target s)
unfolding raise_bet
raise_bet-Extends seat target s = elim (Bool-cases (ltb s.current_bet target)) [
  | inl up ↦ rw up (Extends-same refl refl refl refl refl)
  | inr same ↦ rw same Extends-refl
]

perform-Extends :
    (a : Action) (now : Time) (timeout : Bool) (delta target : ℕ) (s : State)
    → Extends s (perform a now timeout delta target s)
unfolding perform
perform-Extends a now timeout delta target s =
    let paid : State = record s {
      players = update_player a.seat (pay_in a.kind delta) s.players;
    } in
    Extends-trans {t = paid} (Extends-same refl refl refl refl refl) (
      Extends-trans (raise_bet-Extends a.seat target paid)
        (Extends-event _ refl refl refl refl refl refl refl))

carry_out-Extends :
    (evaluate : Evaluator) (s s' : State) (a : Action) (now : Time) (timeout : Bool)
    (o : Option Participant)
    → carry_out evaluate s a now timeout o ≡ ok s'
    → Extends s s'
unfolding carry_out
carry_out-Extends evaluate s s' a now timeout none e = cc
carry_out-Extends evaluate s s' a now timeout (some p) e =
    let (target, q, e') =
      >>=-eq-ok (target_of (legal s) p a)
        (λ (target : ℕ).
          progress progress_fuel evaluate a.seat now
            (perform a now timeout (target - p.street_committed) target s))
        e in
    Extends-trans (perform-Extends a now timeout (target - p.street_committed) target s)
      (progress-Extends progress_fuel evaluate a.seat now _ s' e')

move-Extends :
    (evaluate : Evaluator) (s s' : State) (a : Action) (now : Time) (timeout : Bool)
    → move evaluate s a now timeout ≡ ok s'
    → Extends s s'
unfolding move
move-Extends evaluate s s' a now timeout e =
    let rest = carry_out evaluate s a now timeout (player s.players a.seat) in
    let (u, allowed, e₁) =
      >>=-eq-ok (may_act s a now timeout)
        (λ (u : Unit {0}). guard (well_formed (legal s) a) illegal >> rest) e in
    let (v, formed, e₂) =
      >>=-eq-ok (guard (well_formed (legal s) a) illegal) (λ (v : Unit {0}). rest) e₁ in
    carry_out-Extends evaluate s s' a now timeout (player s.players a.seat) e₂

-- What a successful `apply` leaves behind.
pub record Recorded (s s' : State) (a : Action) : Type 0 where
  pub config : s'.config ≡ s.config
  pub initial_total : s'.initial_total ≡ s.initial_total
  pub grown : (es : List Event) × (s'.events ≡ s.events ++ es)
  pub receipts :
      s'.receipts
      ≡ s.receipts
        ++ record { action = a; first_event = length s.events; last_event = length s'.events } ∷ []

-- A successful action comes from a move, whose result is validated with the action's receipt.
next_state-parts :
    (evaluate : Evaluator) (s s' : State) (a : Action) (now : Time) (timeout : Bool)
    → next_state evaluate s a now timeout ≡ ok s'
    → (moved : State) × (move evaluate s a now timeout ≡ ok moved)
      × (add_receipt a (length s.events) moved ≡ s')
unfolding next_state
next_state-parts evaluate s s' a now timeout e =
    let (moved, q, e₁) =
      >>=-eq-ok (move evaluate s a now timeout)
        (λ (moved : State).
          validate (add_receipt a (length s.events) moved)
          >> ok (add_receipt a (length s.events) moved))
        e in
    let (u, valid, e₂) =
      >>=-eq-ok (validate (add_receipt a (length s.events) moved))
        (λ (u : Unit {0}). ok (add_receipt a (length s.events) moved)) e₁ in
    (moved, q, ok-injective e₂)

pub next_state-records :
    (evaluate : Evaluator) (s s' : State) (a : Action) (now : Time) (timeout : Bool)
    → next_state evaluate s a now timeout ≡ ok s'
    → Recorded s s' a
next_state-records evaluate s s' a now timeout e =
    let (moved, q, same) = next_state-parts evaluate s s' a now timeout e in
    let x = move-Extends evaluate s moved a now timeout q in
    subst (λ (t : State). Recorded s t a) same
      (record {
        config = x.config;
        initial_total = x.initial_total;
        grown = x.grown;
        receipts =
            ap
              (λ (rs : List Receipt).
                rs
                ++ record {
                  action = a;
                  first_event = length s.events;
                  last_event = length moved.events;
                }
                  ∷ [])
              x.receipts;
      })

-- On a hand with its events numbered in order, a successful action keeps the configuration and
-- the initial total, appends to the event log, keeps the numbering, and adds one receipt that
-- spans the new events.
pub next_state-Recorded :
    (evaluate : Evaluator) (s s' : State) (a : Action) (now : Time) (timeout : Bool)
    → IsLogged s
    → next_state evaluate s a now timeout ≡ ok s'
    → Recorded s s' a × IsLogged s'
next_state-Recorded evaluate s s' a now timeout l e =
    let (moved, q, same) = next_state-parts evaluate s s' a now timeout e in
    let x = move-Extends evaluate s moved a now timeout q in
    (next_state-records evaluate s s' a now timeout e, subst IsLogged same (x.logged l))
