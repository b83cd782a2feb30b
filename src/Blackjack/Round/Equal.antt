-- ===== src/Blackjack/Round/Equal.antt =====
-- The comparison of states in internal/games/blackjack/blackjack.go.
use momiao.Base.{
  ℕ, ◌≡◌, refl, sym, ◌∙◌, ap, Bool, true, false, ◌&&◌, List, [], ◌∷◌, ◌==◌, ==→eq, ==_refl, String,
  if◌then◌else◌,
}
use momiao.Base.Int.{ℤ, pos, negsuc}
use text.Mathlib.Text.{◌==◌ as str_eq}
use text.Mathlib.TextEquality.{eq_iff}
use text.Mathlib.TextPositions.{eq_refl}
use momiao.Blackjack.{Card, Value}
use momiao.Blackjack.Round.Types.{Phase, HandStatus, ActionType, Hand, Action, ActionRecord, State}
use momiao.Blackjack.Round.Same.{
  same_list, same_bool, same_int, phase_code, status_code, same_type, type_code, type_text,
  same_card, same_value, same_hand, same_action, same_record, same_state,
}
use momiao.Blackjack.Round.Rounds.{true-false}

-- A test that accepts equal values alone.
abbrev IsSound : {A : Type 0} → (A → A → Bool) → Type 0
IsSound {A} eq = (a b : A) → eq a b ≡ true → a ≡ b

both : (a b : Bool) → (a && b) ≡ true → (a ≡ true) × (b ≡ true)
both true true h = (refl, refl)
both true false h = elim (true-false h) [ ]
both false b h = elim (true-false h) [ ]

same_list-IsSound : {A : Type 0} (eq : A → A → Bool) → IsSound eq → IsSound (same_list eq)
unfolding same_list
same_list-IsSound eq sound [] [] h = refl
same_list-IsSound eq sound (x ∷ xs) (y ∷ ys) h =
    let (here, later) = both (eq x y) (same_list eq xs ys) h in
    let head = sound x y here in let tail = same_list-IsSound eq sound xs ys later in cc
same_list-IsSound eq sound [] (y ∷ ys) h = elim (true-false h) [ ]
same_list-IsSound eq sound (x ∷ xs) [] h = elim (true-false h) [ ]

same_card-IsSound : IsSound same_card
unfolding same_card
same_card-IsSound a b h =
    let (p, q) = both (a.shoe_index == b.shoe_index) (a.instance_id == b.instance_id) h in
    let e = ==→eq a.shoe_index b.shoe_index p in let f = ==→eq a.instance_id b.instance_id q in cc

same_bool-IsSound : IsSound same_bool
unfolding same_bool
same_bool-IsSound true true h = refl
same_bool-IsSound false false h = refl
same_bool-IsSound true false h = elim (true-false h) [ ]
same_bool-IsSound false true h = elim (true-false h) [ ]

same_int-IsSound : IsSound same_int
unfolding same_int
same_int-IsSound (pos m) (pos n) h = ap pos (==→eq m n h)
same_int-IsSound (negsuc m) (negsuc n) h = ap negsuc (==→eq m n h)
same_int-IsSound (pos m) (negsuc n) h = elim (true-false h) [ ]
same_int-IsSound (negsuc m) (pos n) h = elim (true-false h) [ ]

-- The phase, status and type that a code stands for.
phase_of : ℕ → Phase
phase_of n = if n == 0 then Phase.player_turn else Phase.settled

phase_of-phase_code : (p : Phase) → phase_of (phase_code p) ≡ p
unfolding phase_of phase_code
phase_of-phase_code Phase.player_turn = refl
phase_of-phase_code Phase.settled = refl

phase_code-IsSound : (a b : Phase) → (phase_code a == phase_code b) ≡ true → a ≡ b
phase_code-IsSound a b h =
    sym (phase_of-phase_code a)
    ∙ ap phase_of (==→eq (phase_code a) (phase_code b) h)
    ∙ phase_of-phase_code b

status_of : ℕ → HandStatus
status_of n =
    if n == 0
    then HandStatus.active
    else if n == 1
    then HandStatus.stood
    else if n == 2
    then HandStatus.bust
    else if n == 3
    then HandStatus.doubled_complete
    else if n == 4
    then HandStatus.split_aces_complete
    else HandStatus.natural_complete

status_of-status_code : (p : HandStatus) → status_of (status_code p) ≡ p
unfolding status_of status_code
status_of-status_code HandStatus.active = refl
status_of-status_code HandStatus.stood = refl
status_of-status_code HandStatus.bust = refl
status_of-status_code HandStatus.doubled_complete = refl
status_of-status_code HandStatus.split_aces_complete = refl
status_of-status_code HandStatus.natural_complete = refl

status_code-IsSound : (a b : HandStatus) → (status_code a == status_code b) ≡ true → a ≡ b
status_code-IsSound a b h =
    sym (status_of-status_code a)
    ∙ ap status_of (==→eq (status_code a) (status_code b) h)
    ∙ status_of-status_code b

type_of : ℕ → String → ActionType
type_of n text =
    if n == 0
    then ActionType.hit
    else if n == 1
    then ActionType.stand
    else if n == 2
    then ActionType.double
    else if n == 3
    then ActionType.split
    else if n == 4
    then ActionType.system_auto_stand
    else ActionType.other_type text

type_of-type_code : (p : ActionType) → type_of (type_code p) (type_text p) ≡ p
unfolding type_of
type_of-type_code ActionType.hit = refl
type_of-type_code ActionType.stand = refl
type_of-type_code ActionType.double = refl
type_of-type_code ActionType.split = refl
type_of-type_code ActionType.system_auto_stand = refl
type_of-type_code (ActionType.other_type text) = refl

same_type-IsSound : IsSound same_type
unfolding same_type
same_type-IsSound a b h =
    let (p, q) = both (type_code a == type_code b) (str_eq (type_text a) (type_text b)) h in
    let e = ==→eq (type_code a) (type_code b) p in
    let f = (eq_iff (type_text a) (type_text b)).0 q in
    sym (type_of-type_code a) ∙ (λ i. type_of (e i) (f i)) ∙ type_of-type_code b

same_value-IsSound : IsSound same_value
unfolding same_value
same_value-IsSound a b h =
    let (l2, t2) =
      both (a.hard_total == b.hard_total && a.best_total == b.best_total) (same_bool a.soft b.soft)
        h in
    let (l1, t1) = both _ _ l2 in
    λ i. record {
      hard_total = (==→eq a.hard_total b.hard_total l1) i;
      best_total = (==→eq a.best_total b.best_total t1) i;
      soft = (same_bool-IsSound a.soft b.soft t2) i;
    }

same_hand-IsSound : IsSound same_hand
unfolding same_hand
same_hand-IsSound a b h =
    let (l12, t12) =
      both
        (str_eq a.id b.id
          && a.index == b.index
          && str_eq a.parent_id b.parent_id
          && same_list same_card a.cards b.cards
          && a.stake_units == b.stake_units
          && same_bool a.from_split b.from_split
          && same_bool a.split_aces b.split_aces
          && same_bool a.natural b.natural
          && status_code a.status == status_code b.status
          && same_value a.value b.value
          && str_eq a.result b.result
          && a.payout_units == b.payout_units)
        (same_int a.net_change_units b.net_change_units) h in
    let (l11, t11) = both _ _ l12 in
    let (l10, t10) = both _ _ l11 in
    let (l9, t9) = both _ _ l10 in
    let (l8, t8) = both _ _ l9 in
    let (l7, t7) = both _ _ l8 in
    let (l6, t6) = both _ _ l7 in
    let (l5, t5) = both _ _ l6 in
    let (l4, t4) = both _ _ l5 in
    let (l3, t3) = both _ _ l4 in
    let (l2, t2) = both _ _ l3 in
    let (l1, t1) = both _ _ l2 in
    λ i. record {
      id = ((eq_iff a.id b.id).0 l1) i;
      index = (==→eq a.index b.index t1) i;
      parent_id = ((eq_iff a.parent_id b.parent_id).0 t2) i;
      cards = (same_list-IsSound same_card same_card-IsSound a.cards b.cards t3) i;
      stake_units = (==→eq a.stake_units b.stake_units t4) i;
      from_split = (same_bool-IsSound a.from_split b.from_split t5) i;
      split_aces = (same_bool-IsSound a.split_aces b.split_aces t6) i;
      natural = (same_bool-IsSound a.natural b.natural t7) i;
      status = (status_code-IsSound a.status b.status t8) i;
      value = (same_value-IsSound a.value b.value t9) i;
      result = ((eq_iff a.result b.result).0 t10) i;
      payout_units = (==→eq a.payout_units b.payout_units t11) i;
      net_change_units = (same_int-IsSound a.net_change_units b.net_change_units t12) i;
    }

same_action-IsSound : IsSound same_action
unfolding same_action
same_action-IsSound a b h =
    let (l4, t4) =
      both
        (str_eq a.id b.id
          && a.expected_version == b.expected_version
          && str_eq a.hand_id b.hand_id
          && same_type a.type b.type)
        (str_eq a.new_hand_id b.new_hand_id) h in
    let (l3, t3) = both _ _ l4 in
    let (l2, t2) = both _ _ l3 in
    let (l1, t1) = both _ _ l2 in
    λ i. record {
      id = ((eq_iff a.id b.id).0 l1) i;
      expected_version = (==→eq a.expected_version b.expected_version t1) i;
      hand_id = ((eq_iff a.hand_id b.hand_id).0 t2) i;
      type = (same_type-IsSound a.type b.type t3) i;
      new_hand_id = ((eq_iff a.new_hand_id b.new_hand_id).0 t4) i;
    }

same_record-IsSound : IsSound same_record
unfolding same_record
same_record-IsSound a b h =
    let (l3, t3) =
      both (same_action a.action b.action && a.sequence == b.sequence && a.at == b.at)
        (a.additional_stake_units == b.additional_stake_units) h in
    let (l2, t2) = both _ _ l3 in
    let (l1, t1) = both _ _ l2 in
    λ i. record {
      action = (same_action-IsSound a.action b.action l1) i;
      sequence = (==→eq a.sequence b.sequence t1) i;
      at = (==→eq a.at b.at t2) i;
      additional_stake_units = (==→eq a.additional_stake_units b.additional_stake_units t3) i;
    }

-- Two states that compare as the same are equal, field by field.
pub same_state-IsSound : (a b : State) → same_state a b ≡ true → a ≡ b
unfolding same_state
same_state-IsSound a b h =
    let (l19, t19) =
      both
        (str_eq a.initial_hand_id b.initial_hand_id
          && a.created_at == b.created_at
          && a.initial_wager_units == b.initial_wager_units
          && str_eq a.shoe_hash b.shoe_hash
          && a.shoe_index == b.shoe_index
          && same_list same_card a.dealt b.dealt
          && same_list same_card a.dealer b.dealer
          && same_bool a.dealer_revealed b.dealer_revealed
          && same_list same_hand a.hands b.hands
          && str_eq a.active_hand_id b.active_hand_id
          && phase_code a.phase == phase_code b.phase
          && a.version == b.version
          && same_list same_record a.actions b.actions
          && a.last_player_action_at == b.last_player_action_at
          && a.auto_resolve_at == b.auto_resolve_at
          && a.total_stake_units == b.total_stake_units
          && a.total_payout_units == b.total_payout_units
          && a.fair_return_units == b.fair_return_units
          && same_int a.net_change_units b.net_change_units)
        (str_eq a.class b.class) h in
    let (l18, t18) = both _ _ l19 in
    let (l17, t17) = both _ _ l18 in
    let (l16, t16) = both _ _ l17 in
    let (l15, t15) = both _ _ l16 in
    let (l14, t14) = both _ _ l15 in
    let (l13, t13) = both _ _ l14 in
    let (l12, t12) = both _ _ l13 in
    let (l11, t11) = both _ _ l12 in
    let (l10, t10) = both _ _ l11 in
    let (l9, t9) = both _ _ l10 in
    let (l8, t8) = both _ _ l9 in
    let (l7, t7) = both _ _ l8 in
    let (l6, t6) = both _ _ l7 in
    let (l5, t5) = both _ _ l6 in
    let (l4, t4) = both _ _ l5 in
    let (l3, t3) = both _ _ l4 in
    let (l2, t2) = both _ _ l3 in
    let (l1, t1) = both _ _ l2 in
    λ i. record {
      initial_hand_id = ((eq_iff a.initial_hand_id b.initial_hand_id).0 l1) i;
      created_at = (==→eq a.created_at b.created_at t1) i;
      initial_wager_units = (==→eq a.initial_wager_units b.initial_wager_units t2) i;
      shoe_hash = ((eq_iff a.shoe_hash b.shoe_hash).0 t3) i;
      shoe_index = (==→eq a.shoe_index b.shoe_index t4) i;
      dealt = (same_list-IsSound same_card same_card-IsSound a.dealt b.dealt t5) i;
      dealer = (same_list-IsSound same_card same_card-IsSound a.dealer b.dealer t6) i;
      dealer_revealed = (same_bool-IsSound a.dealer_revealed b.dealer_revealed t7) i;
      hands = (same_list-IsSound same_hand same_hand-IsSound a.hands b.hands t8) i;
      active_hand_id = ((eq_iff a.active_hand_id b.active_hand_id).0 t9) i;
      phase = (phase_code-IsSound a.phase b.phase t10) i;
      version = (==→eq a.version b.version t11) i;
      actions = (same_list-IsSound same_record same_record-IsSound a.actions b.actions t12) i;
      last_player_action_at = (==→eq a.last_player_action_at b.last_player_action_at t13) i;
      auto_resolve_at = (==→eq a.auto_resolve_at b.auto_resolve_at t14) i;
      total_stake_units = (==→eq a.total_stake_units b.total_stake_units t15) i;
      total_payout_units = (==→eq a.total_payout_units b.total_payout_units t16) i;
      fair_return_units = (==→eq a.fair_return_units b.fair_return_units t17) i;
      net_change_units = (same_int-IsSound a.net_change_units b.net_change_units t18) i;
      class = ((eq_iff a.class b.class).0 t19) i;
    }

same_list_refl :
    {A : Type 0} (eq : A → A → Bool)
    → ((a : A) → eq a a ≡ true)
    → (xs : List A) → same_list eq xs xs ≡ true
unfolding same_list
same_list_refl eq own [] = refl
same_list_refl eq own (x ∷ xs) = rw (own x, same_list_refl eq own xs) refl

same_card_refl : (a : Card) → same_card a a ≡ true
unfolding same_card
same_card_refl a = simp (==_refl)

same_bool_refl : (a : Bool) → same_bool a a ≡ true
unfolding same_bool
same_bool_refl true = refl
same_bool_refl false = refl

same_int_refl : (a : ℤ) → same_int a a ≡ true
unfolding same_int
same_int_refl (pos n) = ==_refl n
same_int_refl (negsuc n) = ==_refl n

same_value_refl : (a : Value) → same_value a a ≡ true
unfolding same_value
same_value_refl a = simp (==_refl, same_bool_refl)

same_hand_refl : (a : Hand) → same_hand a a ≡ true
unfolding same_hand
same_hand_refl a = simp (
  ==_refl,
  eq_refl,
  same_bool_refl,
  same_int_refl,
  same_list_refl same_card same_card_refl a.cards,
)

same_action_refl : (a : Action) → same_action a a ≡ true
unfolding same_action same_type
same_action_refl a = simp (==_refl, eq_refl)

same_record_refl : (a : ActionRecord) → same_record a a ≡ true
unfolding same_record same_action same_type
same_record_refl a = simp (==_refl, eq_refl)

-- A state compares as the same as itself.
pub same_state_refl : (a : State) → same_state a a ≡ true
unfolding same_state
same_state_refl a = simp (
  ==_refl,
  eq_refl,
  same_bool_refl,
  same_int_refl,
  same_list_refl same_card same_card_refl a.dealt,
  same_list_refl same_card same_card_refl a.dealer,
  same_list_refl same_hand same_hand_refl a.hands,
  same_list_refl same_record same_record_refl a.actions,
)
