-- ===== src/Poker/Chips/Uncalled.antt =====
-- The uncalled return of `settle` in internal/poker/engine/engine.go.
use momiao.Base.{
  ℕ, ◌+◌, ◌-◌, ◌≤◌, ◌<◌, ◌≡◌, refl, ◌⊎◌, inl, inr, none, some, List, [], ◌∷◌, arith, ltb,
  Option-cases, Bool-cases,
}
use momiao.Poker.Types.{Time, Participant, State}
use momiao.Poker.Table.{player, update_player}
use momiao.Poker.Settle.{Top, scan_step, scan_top, top_two, take_back, return_uncalled}
use momiao.Poker.Chips.{IsWhole, Rising, WholeCommitted, chips}
use momiao.Poker.Chips.Update.{sum_by-update_player}

-- What the seat's player has committed.
abbrev pub held : List Participant → ℕ → ℕ
held ps k = elim (player ps k) [ none ↦ 0 | some p ↦ p.total_committed ]

-- A seat that commits anything lies above the number before the list.
held-above :
    (previous : ℕ) (ps : List Participant) (k : ℕ)
    → Rising previous ps
    → 0 < held ps k
    → previous < k
unfolding player
held-above previous [] k r h = absurd (omega arith)
held-above previous (p ∷ ps) k r h = ground (arith, held-above p.seat_no ps k r.1)

held-tail :
    (p : Participant) (ps : List Participant) (k : ℕ)
    → Rising p.seat_no ps
    → 0 < held ps k
    → held (p ∷ ps) k ≡ held ps k
unfolding player
held-tail p ps k r h = ground (arith, held-above p.seat_no ps k r h)

held-head : (p : Participant) (ps : List Participant) → held (p ∷ ps) p.seat_no ≡ p.total_committed
unfolding player
held-head p ps = ground arith

abbrev Found : Top → List Participant → Type 0
Found t ps = held ps t.seat ≡ t.highest

-- The scan ends with what it began with, or with the commitment of the seat that it names.
scan_top-Found :
    (t : Top) (previous : ℕ) (ps : List Participant)
    → Rising previous ps
    → ((scan_top t ps).highest ≡ t.highest) × ((scan_top t ps).seat ≡ t.seat)
      ⊎ Found (scan_top t ps) ps × (t.highest < (scan_top t ps).highest)
unfolding scan_top
scan_top-Found t previous [] r = inl (refl, refl)
scan_top-Found t previous (p ∷ ps) r = ground (
  arith,
  scan_top-Found (scan_step t p) p.seat_no ps r.1,
  held-head p ps,
  held-tail p ps (scan_top (scan_step t p) ps).seat r.1,
)

-- A unique highest commitment is the commitment of the seat that is found.
pub top_two-Found :
    (ps : List Participant)
    → Rising 0 ps
    → (top_two ps).second < (top_two ps).highest
    → held ps (top_two ps).seat ≡ (top_two ps).highest
unfolding top_two
top_two-Found ps r h =
    ground (arith, scan_top-Found (record { highest = 0; second = 0; seat = 0 }) 0 ps r)

return_uncalled-chips-some :
    (ps : List Participant) (p : Participant) (seat amount : ℕ)
    → player ps seat ≡ some p
    → amount ≤ p.total_committed
    → chips (update_player seat (take_back amount) ps) ≡ chips ps
unfolding take_back
return_uncalled-chips-some ps p seat amount e h =
    omega (
      arith,
      sum_by-update_player (λ q. q.stack + q.total_committed) (take_back amount) seat p ps e,
    )

-- Returning the uncalled part moves chips from the pot to a stack.
pub return_uncalled-chips :
    (now : Time) (s : State)
    → Rising 0 s.players
    → chips (return_uncalled now s).players ≡ chips s.players
unfolding return_uncalled
return_uncalled-chips now s r =
    elim (Bool-cases (ltb (top_two s.players).second (top_two s.players).highest)) [
      | inr even ↦ rw even refl
      | inl uneven ↦ rw uneven (elim (Option-cases (player s.players (top_two s.players).seat)) [
        | inl missing ↦ absurd (ground (arith, top_two-Found s.players r))
        | inr (p, found) ↦
            return_uncalled-chips-some s.players p (top_two s.players).seat _ found
              (ground (arith, top_two-Found s.players r))
      ])
    ]

scan_top-IsWhole :
    (t : Top) (ps : List Participant)
    → IsWhole t.highest
    → IsWhole t.second
    → WholeCommitted ps
    → IsWhole (scan_top t ps).highest × IsWhole (scan_top t ps).second
unfolding scan_top
scan_top-IsWhole t [] h k w = (h, k)
scan_top-IsWhole t (p ∷ ps) h k w =
    scan_top-IsWhole (scan_step t p) ps (ground arith) (ground arith) w.1

take_back-WholeCommitted :
    (amount seat : ℕ) (ps : List Participant)
    → IsWhole amount
    → WholeCommitted ps
    → WholeCommitted (update_player seat (take_back amount) ps)
unfolding update_player take_back
take_back-WholeCommitted amount seat [] h w = tt
take_back-WholeCommitted amount seat (p ∷ ps) h w =
    ground (arith, take_back-WholeCommitted amount seat ps h w.1)

pub return_uncalled-WholeCommitted :
    (now : Time) (s : State)
    → WholeCommitted s.players
    → WholeCommitted (return_uncalled now s).players
unfolding return_uncalled top_two
return_uncalled-WholeCommitted now s w = ground (
  arith,
  scan_top-IsWhole (record { highest = 0; second = 0; seat = 0 }) s.players refl refl w,
  take_back-WholeCommitted ((top_two s.players).highest - (top_two s.players).second)
      (top_two s.players).seat s.players,
)
