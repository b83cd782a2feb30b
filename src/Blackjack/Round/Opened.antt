-- ===== src/Blackjack/Round/Opened.antt =====
-- The round that `New` of internal/games/blackjack/blackjack.go opens.
use momiao.Base.{
  length, ℕ, ◌+◌, ◌*◌, ◌/◌, ◌≤◌, ◌≡◌, refl, sym, ◌∙◌, subst, false, not, ◌||◌, List, [], ◌∷◌, arith,
  inl, inr, ltb, ◌==◌, if◌then◌else◌, String, Bool-cases,
}
use momiao.Base.Int.{ℤ, pos_part}
use text.Mathlib.Text.{◌==◌ as str_eq}
use momiao.Blackjack.{Error, accepted, refuse_if, shoe_hash}
use momiao.Blackjack.Totals.{accepted-injective, >>=-eq-accepted}
use momiao.Blackjack.Round.Types.{inactivity, max_int64, HandStatus, Hand, State, Time}
use momiao.Blackjack.Round.Deal.{
  value_of_cards, draw_card, settle, deal_four, peek_hand, open_round, dealt_hand, first_hand,
  initial_state, is_wager, new,
}
use momiao.Blackjack.Round.Draws.{draw-cases}
use momiao.Blackjack.Round.Plays.{refuse_if-eq-accepted}
use momiao.Blackjack.Round.Rounds.{IsRound}
use momiao.Blackjack.Round.Opening.{Table, deal_four-Table, Table-IsOpening, open_round-IsRound}

-- A state of the given identity, in which no action is recorded and the shoe's index is in the shoe.
pub record IsFresh (size : ℕ) (hash id : String) (wager : ℕ) (now : Time) (s : State) : Type 0 where
  pub same_wager : s.initial_wager_units ≡ wager
  pub same_shoe : s.shoe_hash ≡ hash
  pub same_hand : s.initial_hand_id ≡ id
  pub same_time : s.created_at ≡ now
  pub no_actions : s.actions ≡ []
  pub in_shoe : s.shoe_index ≤ size

Table-IsFresh :
    (size : ℕ) (hash id : String) (wager : ℕ) (now : Time) (t : State)
    → t.shoe_index ≤ size
    → Table (first_hand id wager) (initial_state hash wager id now) t
    → IsFresh size hash id wager now t
unfolding initial_state
Table-IsFresh size hash id wager now t low (cards, e) =
    subst (IsFresh size hash id wager now) (sym e) (record {
      same_wager = refl;
      same_shoe = refl;
      same_hand = refl;
      same_time = refl;
      no_actions = refl;
      in_shoe = low;
    })

draw_card-index :
    (shoe : List ℕ) (s : State)
    → s.shoe_index ≤ length shoe
    → (draw_card shoe s).1.shoe_index ≤ length shoe
unfolding draw_card
draw_card-index shoe s low = elim (draw-cases shoe s) [
  | inl out ↦ rw (out, draw_card) low
  | inr (left, c, e) ↦ rw (e, draw_card) (omega arith)
]

deal_four-index :
    (shoe : List ℕ) (h : Hand) (s : State)
    → s.shoe_index ≤ length shoe
    → (deal_four shoe h s).shoe_index ≤ length shoe
unfolding deal_four
deal_four-index shoe h s low =
    let s₁ = (draw_card shoe s).1 in
    let s₂ = (draw_card shoe s₁).1 in
    let s₃ = (draw_card shoe s₂).1 in
    draw_card-index shoe s₃
      (draw_card-index shoe s₂ (draw_card-index shoe s₁ (draw_card-index shoe s low)))

open_round-IsFresh :
    (size : ℕ) (hash id : String) (wager : ℕ) (began now : Time) (h : Hand) (s : State)
    → IsFresh size hash id wager began s
    → IsFresh size hash id wager began (open_round now h s)
unfolding open_round settle
open_round-IsFresh size hash id wager began now h s f =
    elim (Bool-cases ((value_of_cards s.dealer).best_total == 21 || h.natural)) [
      | inl over ↦ rw (over) (
          fresh
            (settle (record s {
              hands = record h { status = if h.natural then h.status else HandStatus.stood } ∷ [];
            }))
            refl refl refl refl refl refl)
      | inr on ↦ rw (on) (
          fresh
            (record s {
              hands = h ∷ [];
              active_hand_id = h.id;
              last_player_action_at = now;
              auto_resolve_at = now + inactivity;
            })
            refl refl refl refl refl refl)
    ]
  where
    fresh :
        (t : State)
        → t.initial_wager_units ≡ s.initial_wager_units
        → t.shoe_hash ≡ s.shoe_hash
        → t.initial_hand_id ≡ s.initial_hand_id
        → t.created_at ≡ s.created_at
        → t.actions ≡ s.actions
        → t.shoe_index ≡ s.shoe_index
        → IsFresh size hash id wager began t
    fresh t a b c d e g = record {
      same_wager = a ∙ f.same_wager;
      same_shoe = b ∙ f.same_shoe;
      same_hand = c ∙ f.same_hand;
      same_time = d ∙ f.same_time;
      no_actions = e ∙ f.no_actions;
      in_shoe = omega (arith, g, f.in_shoe);
    }

wager_fits : (n : ℕ) → ltb (max_int64 / 16) n ≡ false → 16 * n ≤ max_int64
wager_fits n h = ground arith

-- What `New` makes of a valid request.
abbrev pub IsNew : (List ℕ → String) → List ℕ → ℕ → String → Time → State → Type 0
IsNew digest shoe wager id now s =
    IsRound s
    × (hash : String) × (shoe_hash digest shoe ≡ accepted hash)
    × IsFresh (length shoe) hash id wager now s

-- A round that `New` opens is well formed and has the given wager, identity and time, the hash of
-- the valid shoe, no actions, and a shoe index within the shoe.
pub new-IsNew :
    (digest : List ℕ → String) (shoe : List ℕ) (wager : ℤ) (id : String) (now : Time) (s : State)
    → new digest shoe wager id now ≡ accepted s
    → IsNew digest shoe (pos_part wager) id now s
unfolding new
new-IsNew digest shoe wager id now s e =
    let (_, _, e₁) = >>=-eq-accepted (refuse_if (not (is_wager wager)) Error.invalid_wager) _ e in
    let (_, small, e₂) =
      >>=-eq-accepted (refuse_if (ltb (max_int64 / 16) (pos_part wager)) Error.integer_overflow) _
        e₁ in
    let (_, _, e₃) =
      >>=-eq-accepted (refuse_if (str_eq id "" || now == 0) Error.action_not_allowed) _ e₂ in
    let (hash, hashed, e₄) = >>=-eq-accepted (shoe_hash digest shoe) _ e₃ in
    let wager = pos_part wager in
    let start = first_hand id wager in
    let first = initial_state hash wager id now in
    let t = deal_four shoe start first in
    let h = peek_hand (dealt_hand t start) in
    let table = deal_four-Table shoe start first in
    let o =
      Table-IsOpening hash id wager now t (wager_fits wager (refuse_if-eq-accepted _ _ small))
        table in
    let f =
      Table-IsFresh (length shoe) hash id wager now t
        (deal_four-index shoe start first (unfold initial_state in omega arith)) table in
    subst (IsNew digest shoe wager id now) (accepted-injective e₄) (
      open_round-IsRound now h t o,
      hash,
      hashed,
      open_round-IsFresh (length shoe) hash id wager now now h t f,
    )
