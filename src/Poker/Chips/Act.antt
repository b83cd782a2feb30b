-- ===== src/Poker/Chips/Act.antt =====
-- The chips under the action itself in `apply` of internal/poker/engine/engine.go.
use momiao.Base.{
  ℕ, ◌+◌, ◌≤◌, ◌≡◌, refl, sym, subst, Bool, true, List, [], ◌∷◌, arith, ◌==◌, some, Bool-cases, inl,
  inr,
}
use momiao.Poker.Types.{whole_units, ActionKind, ok, Participant, Action, Legal, State}
use momiao.Poker.Table.{player, update_player, commit, legal, legal_for, legal_none}
use momiao.Poker.Engine.{well_formed, target_of, has_acted, pay_in}
use momiao.Poker.Chips.{IsWhole, Rising, WholeCommitted, chips}
use momiao.Poker.Chips.Update.{sum_by-update_player}

-- Every amount of every player is a whole number of chips.
abbrev pub WholeTable : List Participant → Type 0
WholeTable [] = Unit
WholeTable (p ∷ ps) =
    IsWhole p.stack × IsWhole p.street_committed × IsWhole p.total_committed × WholeTable ps

pub WholeTable-committed : (ps : List Participant) → WholeTable ps → WholeCommitted ps
WholeTable-committed [] h = tt
WholeTable-committed (p ∷ ps) h = (h.2, WholeTable-committed ps h.3)

pub player-IsWhole :
    (ps : List Participant) (k : ℕ) (p : Participant)
    → WholeTable ps
    → player ps k ≡ some p
    → IsWhole p.stack × IsWhole p.street_committed
unfolding player
player-IsWhole [] k p h e = cc
player-IsWhole (q ∷ ps) k p h e = ground (arith, player-IsWhole ps k p h.3)

pub to_call-IsWhole :
    (s : State) (p : Participant)
    → player s.players s.actor ≡ some p
    → IsWhole p.street_committed
    → IsWhole s.current_bet
    → IsWhole (legal s).to_call
unfolding legal legal_for legal_none
to_call-IsWhole s p e hc hb = ground arith

maximum_raise_to-le :
    (s : State) (p : Participant)
    → player s.players s.actor ≡ some p
    → (legal s).maximum_raise_to ≤ p.stack + p.street_committed
unfolding legal legal_for legal_none
maximum_raise_to-le s p e = ground arith

target_of_le :
    (l : Legal) (p : Participant) (a : Action) (target : ℕ) (k : ActionKind)
    → a.kind ≡ k
    → l.maximum_raise_to ≤ p.stack + p.street_committed
    → target_of l p a ≡ ok target
    → target ≤ p.stack + p.street_committed
unfolding target_of
target_of_le l p a target ActionKind.fold e m q = ground arith
target_of_le l p a target ActionKind.check e m q = ground arith
target_of_le l p a target ActionKind.call e m q = ground arith
target_of_le l p a target ActionKind.bet e m q = ground arith
target_of_le l p a target ActionKind.raise e m q = ground arith
target_of_le l p a target ActionKind.all_in e m q = ground arith

-- A seat can commit at most its stack on top of what it has committed on the street.
pub target_of-le :
    (s : State) (p : Participant) (a : Action) (target : ℕ)
    → player s.players s.actor ≡ some p
    → target_of (legal s) p a ≡ ok target
    → target ≤ p.stack + p.street_committed
target_of-le s p a target e q =
    target_of_le (legal s) p a target a.kind refl (maximum_raise_to-le s p e) q

pub target_of-IsWhole :
    (l : Legal) (p : Participant) (a : Action) (target : ℕ) (k : ActionKind)
    → a.kind ≡ k
    → IsWhole p.stack
    → IsWhole p.street_committed
    → IsWhole l.to_call
    → whole_units a.to ≡ true
    → target_of l p a ≡ ok target
    → IsWhole target
unfolding target_of
target_of-IsWhole l p a target ActionKind.fold e hs hc hl w q = ground arith
target_of-IsWhole l p a target ActionKind.check e hs hc hl w q = ground arith
target_of-IsWhole l p a target ActionKind.call e hs hc hl w q = ground arith
target_of-IsWhole l p a target ActionKind.bet e hs hc hl w q = ground arith
target_of-IsWhole l p a target ActionKind.raise e hs hc hl w q = ground arith
target_of-IsWhole l p a target ActionKind.all_in e hs hc hl w q = ground arith

pub well_formed-whole : (l : Legal) (a : Action) → well_formed l a ≡ true → whole_units a.to ≡ true
unfolding well_formed
well_formed-whole l a h = ground arith

pub pay_in-chips :
    (ps : List Participant) (p : Participant) (kind : ActionKind) (seat delta : ℕ)
    → player ps seat ≡ some p
    → delta ≤ p.stack
    → chips (update_player seat (pay_in kind delta) ps) ≡ chips ps
unfolding pay_in commit
pay_in-chips ps p kind seat delta e h =
    omega (
      arith,
      sum_by-update_player (λ q. q.stack + q.total_committed) (pay_in kind delta) seat p ps e,
    )

pub update_player-Rising :
    (f : Participant → Participant) (previous seat : ℕ) (ps : List Participant)
    → ((p : Participant) → (f p).seat_no ≡ p.seat_no)
    → Rising previous ps
    → Rising previous (update_player seat f ps)
unfolding update_player
update_player-Rising f previous seat [] h r = tt
update_player-Rising f previous seat (p ∷ ps) h r = elim (Bool-cases (p.seat_no == seat)) [
  | inl hit ↦ rw hit (rw (h p) (r.0), subst (λ (k : ℕ). Rising k ps) (sym (h p)) r.1)
  | inr miss ↦ rw miss (r.0, update_player-Rising f p.seat_no seat ps h r.1)
]

pub update_player-WholeCommitted :
    (f : Participant → Participant) (seat : ℕ) (ps : List Participant)
    → ((p : Participant) → IsWhole p.total_committed → IsWhole (f p).total_committed)
    → WholeCommitted ps
    → WholeCommitted (update_player seat f ps)
unfolding update_player
update_player-WholeCommitted f seat [] h w = tt
update_player-WholeCommitted f seat (p ∷ ps) h w =
    ground (arith, h p w.0, update_player-WholeCommitted f seat ps h w.1)

pub has_acted-chips :
    (sequence : ℕ) (timeout : Bool) (seat : ℕ) (ps : List Participant)
    → chips (update_player seat (has_acted sequence timeout) ps) ≡ chips ps
unfolding has_acted
has_acted-chips sequence timeout seat ps =
    momiao.Poker.Chips.Update.sum_by-update_player_same (λ q. q.stack + q.total_committed)
      (has_acted sequence timeout) seat ps (λ p. refl)
