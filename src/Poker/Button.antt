-- ===== src/Poker/Button.antt =====
-- internal/poker/engine/rules.go: the seats in order, the initial button, the next button, and the
-- bet shortcuts.
pub mod Ordered
pub mod Clockwise
use momiao.Base.{
  ℕ, zero, suc, ◌+◌, ◌-◌, ◌*◌, ◌/◌, ◌%◌, min, max, Bool, true, false, not, ◌&&◌, ◌||◌, String,
  Option, none, some, List, [], ◌∷◌, ◌++◌, ltb, leb, ◌==◌, if◌then◌else◌, length, get_elem?, find,
}
use momiao.Base.Int.{ℤ, pos, negsuc, ltb_ℤ, pos_part}
use momiao.Base.Sort.{sort_by}
use text.Mathlib.Text.{◌==◌ as str_eq}
use momiao.Poker.Types.{
  units_per_chip, ActionKind, Legal, ButtonChoice, Result, ok, err, invalid, index_panic, ◌>>=◌,
  ◌>>◌, guard, State,
}
use momiao.Poker.Table.{add_cap, legal}

abbrev pub button_selection_version : String
button_selection_version = "poker-initial-button-v1"

-- In 1..9, and none like the one before: `previous` is 0 at the first.
unfoldable pub seats_rise : ℕ → List ℕ → Bool
seats_rise previous [] = true
seats_rise previous (s ∷ rest) = leb 1 s && leb s 9 && not (previous == s) && seats_rise s rest

unfoldable pub ordered_seats : List ℕ → Result (List ℕ)
unfolding sort_by seats_rise
ordered_seats seats = do
  guard (leb 2 (length seats) && leb (length seats) 9) invalid
  guard (seats_rise 0 (sort_by (λ n. n) seats)) invalid
  ok (sort_by (λ n. n) seats)

-- The drawn index must name one of the seats.
unfoldable pub choose_button : List ℕ → ℤ → Result ButtonChoice
choose_button ordered (negsuc i) = err invalid
choose_button ordered (pos i) = elim (get_elem? ordered i) [
  | none ↦ err invalid
  | some seat ↦ ok (record {
    version = button_selection_version;
    eligible_seats = ordered;
    draw_index = i;
    seat = seat;
  })
]

-- The sampler is the caller's, and may be nil, fail, or answer out of range.
unfoldable pub select_initial_button : List ℕ → Option (ℕ → Result ℤ) → Result ButtonChoice
unfolding ordered_seats choose_button
select_initial_button seats none = ordered_seats seats >>= λ _. err invalid
select_initial_button seats (some uniform) = do
  ordered ← ordered_seats seats
  i ← uniform (length ordered)
  choose_button ordered i

unfoldable pub next_button : ℕ → List ℕ → Result ℕ
unfolding ordered_seats
next_button previous seats = do
  ordered ← ordered_seats seats
  guard (leb 1 previous && leb previous 9) invalid
  elim (find (λ seat. ltb previous seat) ordered) [
    | some seat ↦ ok seat
    | none ↦ elim ordered [ [] ↦ err index_panic | seat ∷ _ ↦ ok seat ]
  ]

unfoldable pub same_seats : List ℕ → List ℕ → Bool
same_seats [] [] = true
same_seats (a ∷ as') (b ∷ bs) = a == b && same_seats as' bs
same_seats _ _ = false

unfoldable pub valid_button_choice : ButtonChoice → List ℕ → Bool
unfolding same_seats
valid_button_choice choice seats =
    str_eq choice.version button_selection_version
    && same_seats choice.eligible_seats seats
    && (elim (get_elem? seats choice.draw_index) [ none ↦ false | some seat ↦ choice.seat == seat ])

pub record Shortcut : Type 0 where
  pub name : String
  pub kind : ActionKind
  pub to : ℕ

unfoldable pub make_target : ActionKind → ℕ → ℕ → String → ℕ → Shortcut
make_target kind minimum most name target =
    let clamped = min (max target minimum) most in
    record {
      name = name;
      kind = if ltb clamped minimum || clamped == most then ActionKind.all_in else kind;
      to = clamped;
    }

-- floor(n * pot / d) without the product: the source divides before it multiplies.
unfoldable pub portion : ℕ → ℕ → ℕ → ℕ
portion pot n d = pot / d * n + pot % d * n / d

unfoldable pub shortcuts_for : State → Legal → List Shortcut
unfolding make_target portion add_cap
shortcuts_for s l =
    let minimum = if s.current_bet == 0 then l.minimum_bet else l.minimum_raise_to in
    let kind = if s.current_bet == 0 then ActionKind.bet else ActionKind.raise in
    let target = make_target kind minimum l.maximum_raise_to in
    let pot = add_cap l.current_pot l.to_call / units_per_chip in
    let by_fraction = λ (n : ℕ) (d : ℕ). add_cap s.current_bet (portion pot n d * units_per_chip) in
    target "Min" minimum
    ∷ target "1/2 Pot" (by_fraction 1 2)
    ∷ target "2/3 Pot" (by_fraction 2 3)
    ∷ target "Pot" (by_fraction 1 1)
    ∷ record { name = "All-in"; kind = ActionKind.all_in; to = l.maximum_raise_to }
    ∷ []

-- nil without raise rights.
unfoldable pub shortcut_targets : State → List Shortcut
unfolding shortcuts_for legal
shortcut_targets s = if (legal s).raise_rights then shortcuts_for s (legal s) else []
