-- ===== src/Poker/Validated.antt =====
-- `validate` of internal/poker/engine/engine.go and the players' chips.
use momiao.Base.{
  ℕ, ◌+◌, ◌≤◌, ◌<◌, ◌≡◌, refl, ◌∙◌, Bool, true, ◌&&◌, not, String, List, [], ◌∷◌, arith, ltb, any,
  Option, none, some, Bool-cases, inl, inr,
}
use momiao.Poker.Types.{Time, max_int64, Participant, Action, State, Evaluator, ok}
use momiao.Poker.Engine.{move}
use momiao.Poker.Validate.{
  Totals, valid_player, sums_fit, add_totals, check_players, valid_totals, valid_street, is_valid,
}
use momiao.Poker.Chips.{IsWhole, Rising, chips}
use momiao.Poker.Chips.Act.{WholeTable}
use momiao.Poker.Chips.Move.{move-chips}
use text.Mathlib.Text.{◌==◌ as str_eq}

-- Every street commitment is part of the player's whole commitment.
abbrev pub Within : List Participant → Type 0
Within [] = Unit
Within (p ∷ ps) = (p.street_committed ≤ p.total_committed) × Within ps

-- What the loop over the players has checked when it ends with the totals u.
record Checked (previous : ℕ) (t u : Totals) (ps : List Participant) : Type 0 where
  rising : Rising previous ps
  whole_amounts : WholeTable ps
  total : u.total ≡ t.total + chips ps
  fits : t.total ≤ max_int64 → u.total ≤ max_int64
  within : Within ps

valid_player-IsWhole :
    (sequence : ℕ) (p : Participant)
    → valid_player sequence p ≡ true
    → IsWhole p.stack
      × IsWhole p.street_committed
      × IsWhole p.total_committed
      × (p.street_committed ≤ p.total_committed)
unfolding valid_player
valid_player-IsWhole sequence p h = ground arith

sums_fit-le :
    (t : Totals) (p : Participant)
    → sums_fit t p ≡ true
    → t.total ≤ max_int64
    → (add_totals t p).total ≤ max_int64
unfolding sums_fit add_totals
sums_fit-le t p h k = ground arith

abbrev passes : ℕ → ℕ → List String → Totals → Participant → Bool
passes sequence previous ids t p =
    ltb previous p.seat_no
    && valid_player sequence p
    && not (any (λ id. str_eq id p.player_id) ids)
    && sums_fit t p

passes-parts :
    (sequence previous : ℕ) (ids : List String) (t : Totals) (p : Participant)
    → passes sequence previous ids t p ≡ true
    → (previous < p.seat_no) × (valid_player sequence p ≡ true) × (sums_fit t p ≡ true)
passes-parts sequence previous ids t p h = ground arith

check_players-Checked :
    (sequence previous : ℕ) (ids : List String) (t u : Totals) (ps : List Participant)
    → check_players sequence previous ids t ps ≡ some u
    → Checked previous t u ps
unfolding check_players
check_players-Checked sequence previous ids t u [] e = record {
  rising = tt;
  whole_amounts = tt;
  total = ground arith;
  fits = ground arith;
  within = tt;
}
check_players-Checked sequence previous ids t u (p ∷ ps) e =
    elim (Bool-cases (passes sequence previous ids t p)) [
      | inr no_pass ↦ absurd (false-none (rw (no_pass, check_players) at e))
      | inl pass ↦
          let (up, valid, fit) = passes-parts sequence previous ids t p pass in
          let rest =
            check_players-Checked sequence p.seat_no (p.player_id ∷ ids) (add_totals t p) u ps
              (rw (pass, check_players) at e) in
          let (s, st, c, low) = valid_player-IsWhole sequence p valid in
          record {
            rising = (up, rest.rising);
            whole_amounts = (s, st, c, rest.whole_amounts);
            total = unfold add_totals in omega (arith, rest.total);
            fits = λ k. rest.fits (sums_fit-le t p fit k);
            within = (low, rest.within);
          }
    ]
  where
    false-none : {v : Totals} → none ≡ some v → ⊥
    false-none h = cc

-- The chips of a validated hand.
pub record Sound (s : State) : Type 0 where
  pub rising : Rising 0 s.players
  pub whole_amounts : WholeTable s.players
  pub total : chips s.players ≡ s.initial_total
  pub fits : s.initial_total ≤ max_int64
  pub whole_bet : IsWhole s.current_bet

valid_totals-Sound :
    (s : State)
    → valid_totals s ≡ true
    → Rising 0 s.players
      × WholeTable s.players
      × (chips s.players ≡ s.initial_total)
      × (s.initial_total ≤ max_int64)
      × Within s.players
unfolding valid_totals
valid_totals-Sound s h =
    go (check_players s.full_raise_sequence 0 [] (record { total = 0; initial = 0 }) s.players) refl
  where
    go :
        (o : Option Totals)
        → check_players s.full_raise_sequence 0 [] (record { total = 0; initial = 0 }) s.players ≡ o
        → Rising 0 s.players
          × WholeTable s.players
          × (chips s.players ≡ s.initial_total)
          × (s.initial_total ≤ max_int64)
          × Within s.players
    go none q = absurd (ground arith)
    go (some u) q =
        let c =
          check_players-Checked s.full_raise_sequence 0 [] (record { total = 0; initial = 0 }) u
            s.players q in
        let total : u.total ≡ s.initial_total = ground arith in
        (
          c.rising,
          c.whole_amounts,
          omega (arith, c.total, total),
          omega (arith, c.fits (omega arith), total),
          c.within,
        )

pub is_valid-Within : (s : State) → is_valid s ≡ true → Within s.players
unfolding is_valid
is_valid-Within s h = (valid_totals-Sound s (ground arith)).4

-- A hand that passes `validate` has its seats in order, whole amounts only, and exactly the
-- initial total on the table, which fits an int64.
pub is_valid-Sound : (s : State) → is_valid s ≡ true → Sound s
unfolding is_valid
is_valid-Sound s h =
    let totals : valid_totals s ≡ true = ground arith in
    let street : valid_street s ≡ true = ground arith in
    let (r, w, t, f, _) = valid_totals-Sound s totals in
    record { rising = r; whole_amounts = w; total = t; fits = f; whole_bet = bet street }
  where
    bet : valid_street s ≡ true → IsWhole s.current_bet
    bet k = unfold valid_street in ground arith

-- On a hand that passes `validate`, whatever an accepted action leads to (a new actor, new
-- streets, the settlement), the stacks and the commitments add up to the chips that came to the
-- table, before the result is validated again.
pub move-initial_total :
    (evaluate : Evaluator) (s s' : State) (a : Action) (now : Time) (timeout : Bool)
    → is_valid s ≡ true
    → move evaluate s a now timeout ≡ ok s'
    → chips s'.players ≡ s.initial_total
move-initial_total evaluate s s' a now timeout v e =
    let k = is_valid-Sound s v in
    move-chips evaluate s s' a now timeout k.rising k.whole_amounts k.whole_bet e ∙ k.total
