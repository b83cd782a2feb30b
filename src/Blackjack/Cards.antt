-- ===== src/Blackjack/Cards.antt =====
-- `point`, `Evaluate`, `Shuffle` and `ShoeHash` of internal/games/blackjack/cards.go.
use momiao.Base.{
  ℕ, zero, suc, ◌+◌, ◌%◌, String, Bool, true, false, not, ◌&&◌, ◌||◌, List, [], ◌∷◌, Option, none,
  some, ltb, leb, ◌==◌, if◌then◌else◌, length, get_or, any,
}

pub record Card : Type 0 where
  pub shoe_index : ℕ
  pub instance_id : ℕ

pub record Value : Type 0 where
  pub hard_total : ℕ
  pub best_total : ℕ
  pub soft : Bool

-- The texts are errors of the caller's sampler and of the callback that names system actions;
-- `out_of_fuel` stands for a loop that used up the model's fuel.
pub data Error : Type 0 where
  invalid_cards invalid_card missing_sampler sample_out_of_range invalid_shoe : Error
  needs_review invalid_wager integer_overflow stale_version hand_not_active : Error
  action_not_allowed duplicate_action max_hands_reached : Error
  insufficient_for_double insufficient_for_split out_of_fuel : Error
  sampler_error callback_error : String → Error

pub data Checked (A : Type 0) : Type 0 where
  refused : Error → Checked A
  accepted : A → Checked A

infixr 5 ◌>>=◌ ◌>>◌
-- Continue with the value, or with the error.
abbrev pub ◌>>=◌ : {A B : Type 0} → Checked A → (A → Checked B) → Checked B
refused error >>= next = refused error
accepted value >>= next = next value

abbrev pub ◌>>◌ : {B : Type 0} → Checked (Unit {0}) → Checked B → Checked B
first >> next = first >>= λ _. next

-- `if fails { return error }`
abbrev pub refuse_if : Bool → Error → Checked (Unit {0})
refuse_if false error = accepted tt
refuse_if true error = refused error

abbrev pub cards_in_shoe : ℕ
cards_in_shoe = 312

-- An instance counts by its rank: an ace is 1, and what has ten pips or a face is 10.
unfoldable pub point : ℕ → ℕ
point instance_id = if leb 9 (instance_id % 13) then 10 else instance_id % 13 + 1

-- The loop of `Evaluate`: the hard total and whether there is an ace.
unfoldable pub count_points : ℕ → Bool → List Card → Checked (ℕ × Bool)
count_points hard ace [] = accepted (hard, ace)
count_points hard ace (c ∷ cards) =
    let p = point c.instance_id in
    let rest = count_points (hard + p) (ace || p == 1) cards in
    if leb cards_in_shoe c.instance_id then refused Error.invalid_card else rest

abbrev pub value_of : ℕ × Bool → Value
value_of (hard, ace) =
    if ace && leb (hard + 10) 21
    then record { hard_total = hard; best_total = hard + 10; soft = true }
    else record { hard_total = hard; best_total = hard; soft = false }

unfoldable pub evaluate : List Card → Checked Value
evaluate cards =
    if ltb cards_in_shoe (length cards)
    then refused Error.invalid_cards
    else (count_points 0 false cards >>= λ counted. accepted (value_of counted))

-- xs[i] = x
unfoldable pub set_at : List ℕ → ℕ → ℕ → List ℕ
set_at [] i x = []
set_at (y ∷ ys) zero x = x ∷ ys
set_at (y ∷ ys) (suc i) x = y ∷ set_at ys i x

-- shoe[i], shoe[j] = shoe[j], shoe[i]
unfoldable pub swap : List ℕ → ℕ → ℕ → List ℕ
swap shoe i j = set_at (set_at shoe i (get_or shoe j 0)) j (get_or shoe i 0)

-- The caller's sampler: the draw's number below a bound, given the bound.
abbrev pub Sampler : Type 0
Sampler = ℕ → Checked ℕ

-- The loop of `Shuffle` from index i down to 1.
unfoldable pub shuffle_from : Sampler → ℕ → List ℕ → Checked (List ℕ)
shuffle_from sample zero shoe = accepted shoe
shuffle_from sample (suc i) shoe = sample (suc i + 1) >>= (λ j.
    if ltb (suc i) j
    then refused Error.sample_out_of_range
    else shuffle_from sample i (swap shoe (suc i) j))

-- from, from + 1, …
unfoldable pub count_up : ℕ → ℕ → List ℕ
count_up from zero = []
count_up from (suc n) = from ∷ count_up (from + 1) n

unfoldable pub shuffle : Option Sampler → Checked (List ℕ)
shuffle none = refused Error.missing_sampler
shuffle (some sample) = shuffle_from sample 311 (count_up 0 cards_in_shoe)

-- The loop of `ShoeHash`: each instance is one of a shoe's, and new.
unfoldable pub is_shoe : List ℕ → List ℕ → Bool
is_shoe seen [] = true
is_shoe seen (v ∷ rest) =
    not (leb cards_in_shoe v || any (λ w. w == v) seen) && is_shoe (v ∷ seen) rest

-- `digest` is the hexadecimal SHA-256 of the instances in big-endian pairs of bytes.
unfoldable pub shoe_hash : (List ℕ → String) → List ℕ → Checked String
shoe_hash digest shoe =
    if is_shoe [] shoe then accepted (digest shoe) else refused Error.invalid_shoe
