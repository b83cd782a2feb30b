-- ===== src/Poker/Chips/Layers.antt =====
-- The layers into which the levels of `settle` in internal/poker/engine/engine.go split the
-- commitments.
use momiao.Base.{
  ℕ, ◌+◌, ◌-◌, ◌≤◌, ◌≡◌, refl, Bool, true, false, ◌⊎◌, inl, inr, List, [], ◌∷◌, map, arith, ==_refl,
  Bool-cases, if◌then◌else◌, ◌==◌, ltb, leb, any, keep,
}
use momiao.Base.Sums.{sum_by}
use momiao.Base.Sort.{insert_by, sort_by}
use momiao.Poker.Types.{Participant}
use momiao.Poker.Settle.{levels, pot_amount}
use momiao.Poker.Chips.{committed}

-- What one player with commitment `c` puts into the pots between `previous` and the last level.
abbrev pub layers : ℕ → List ℕ → ℕ → ℕ
layers previous [] c = 0
layers previous (level ∷ rest) c =
    if level == previous
    then layers previous rest c
    else (if leb level c then level - previous else 0) + layers level rest c

-- The levels do not fall, from `previous` on.
abbrev pub Ascending : ℕ → List ℕ → Type 0
Ascending previous [] = Unit
Ascending previous (l ∷ ls) = (previous ≤ l) × Ascending l ls

abbrev pub holds : ℕ → List ℕ → Bool
holds c ls = any (λ l. l == c) ls

-- A commitment no higher than the first floor adds nothing.
layers-low :
    (previous : ℕ) (ls : List ℕ) (c : ℕ)
    → Ascending previous ls
    → c ≤ previous
    → layers previous ls c ≡ 0
layers-low previous [] c a h = refl
layers-low previous (l ∷ ls) c a h = ground (arith, layers-low previous ls c, layers-low l ls c a.1)

Ascending-lower : (m n : ℕ) (ls : List ℕ) → m ≤ n → Ascending n ls → Ascending m ls
Ascending-lower m n [] h a = tt
Ascending-lower m n (l ∷ ls) h a = (omega arith, a.1)

holds-le :
    (previous : ℕ) (ls : List ℕ) (c : ℕ) → Ascending previous ls → holds c ls ≡ true → previous ≤ c
holds-le previous [] c a h = cc
holds-le previous (l ∷ ls) c a h = ground (arith, holds-le l ls c a.1)

-- The layers of a commitment that is one of the levels add up to it.
pub layers-sum :
    (previous : ℕ) (ls : List ℕ) (c : ℕ)
    → Ascending previous ls
    → holds c ls ≡ true
    → layers previous ls c + previous ≡ c
layers-sum previous [] c a h = cc
layers-sum previous (l ∷ ls) c a h = ground (
  arith,
  layers-sum previous ls c,
  layers-sum l ls c a.1,
  holds-le l ls c a.1,
  layers-low l ls c a.1,
  layers-low previous ls c,
  Ascending-lower previous l ls a.0 a.1,
)

insert_by-Ascending :
    (m a : ℕ) (ls : List ℕ) → m ≤ a → Ascending m ls → Ascending m (insert_by (λ n. n) a ls)
unfolding insert_by
insert_by-Ascending m a [] h s = (h, tt)
insert_by-Ascending m a (l ∷ ls) h s = ground (arith, insert_by-Ascending l a ls)

sort_by-Ascending : (ls : List ℕ) → Ascending 0 (sort_by (λ n. n) ls)
unfolding sort_by
sort_by-Ascending [] = tt
sort_by-Ascending (l ∷ ls) =
    insert_by-Ascending 0 l (sort_by (λ n. n) ls) (omega arith) (sort_by-Ascending ls)

holds-insert_by :
    (c a : ℕ) (ls : List ℕ)
    → (a == c) ≡ true ⊎ (holds c ls ≡ true)
    → holds c (insert_by (λ n. n) a ls) ≡ true
unfolding insert_by
holds-insert_by c a [] h = ground arith
holds-insert_by c a (l ∷ ls) h = ground (arith, holds-insert_by c a ls)

holds-sort_by : (c : ℕ) (ls : List ℕ) → holds c ls ≡ true → holds c (sort_by (λ n. n) ls) ≡ true
unfolding sort_by
holds-sort_by c [] h = h
holds-sort_by c (l ∷ ls) h = elim (Bool-cases (l == c)) [
  | inl e ↦ holds-insert_by c l (sort_by (λ n. n) ls) (inl e)
  | inr e ↦ holds-insert_by c l (sort_by (λ n. n) ls) (inr (holds-sort_by c ls (rw e at h)))
]

pub levels-Ascending : (ps : List Participant) → Ascending 0 (levels ps)
unfolding levels
levels-Ascending ps =
    sort_by-Ascending (keep (ltb 0) (map (λ (p : Participant). p.total_committed) ps))

-- What all players put into the pots between `previous` and the last level.
abbrev pub all_layers : ℕ → List ℕ → List Participant → ℕ
all_layers previous ls = sum_by (λ p. layers previous ls p.total_committed)

pub all_layers-nil : (previous : ℕ) (ps : List Participant) → all_layers previous [] ps ≡ 0
all_layers-nil previous [] = refl
all_layers-nil previous (p ∷ ps) = omega (arith, all_layers-nil previous ps)

-- One more level is one more pot.
pub all_layers-cons :
    (previous l : ℕ) (ls : List ℕ) (ps : List Participant)
    → (l == previous) ≡ false
    → all_layers previous (l ∷ ls) ps ≡ pot_amount previous l ps + all_layers l ls ps
unfolding pot_amount
all_layers-cons previous l ls [] h = refl
all_layers-cons previous l ls (p ∷ ps) h = ground (arith, all_layers-cons previous l ls ps h)

pub all_layers-skip :
    (previous l : ℕ) (ls : List ℕ) (ps : List Participant)
    → (l == previous) ≡ true
    → all_layers previous (l ∷ ls) ps ≡ all_layers previous ls ps
all_layers-skip previous l ls [] h = refl
all_layers-skip previous l ls (p ∷ ps) h = ground (arith, all_layers-skip previous l ls ps h)

-- Every commitment is 0 or one of the levels.
abbrev pub Covered : List ℕ → List Participant → Type 0
Covered ls [] = Unit
Covered ls (p ∷ ps) =
    ((p.total_committed ≡ 0) ⊎ (holds p.total_committed ls ≡ true)) × Covered ls ps

abbrev positive : List Participant → List ℕ
positive ps = keep (ltb 0) (map (λ p. p.total_committed) ps)

holds-positive :
    (c : ℕ) (p : Participant) (ps : List Participant)
    → holds c (positive ps) ≡ true
    → holds c (positive (p ∷ ps)) ≡ true
holds-positive c p ps h = ground arith

Covered-grow :
    (p : Participant) (ps qs : List Participant)
    → Covered (positive ps) qs
    → Covered (positive (p ∷ ps)) qs
Covered-grow p ps [] h = tt
Covered-grow p ps (q ∷ qs) h =
    ground (arith, Covered-grow p ps qs h.1, holds-positive q.total_committed p ps)

Covered-positive : (ps : List Participant) → Covered (positive ps) ps
Covered-positive [] = tt
Covered-positive (p ∷ ps) =
    ground (arith, Covered-grow p ps ps (Covered-positive ps), ==_refl p.total_committed)

Covered-sort_by :
    (ls : List ℕ) (ps : List Participant) → Covered ls ps → Covered (sort_by (λ n. n) ls) ps
Covered-sort_by ls [] h = tt
Covered-sort_by ls (p ∷ ps) h =
    ground (arith, Covered-sort_by ls ps h.1, holds-sort_by p.total_committed ls)

layers-Covered :
    (ls : List ℕ) (ps : List Participant)
    → Ascending 0 ls
    → Covered ls ps
    → all_layers 0 ls ps ≡ committed ps
layers-Covered ls [] a h = refl
layers-Covered ls (p ∷ ps) a h = ground (
  arith,
  layers-Covered ls ps a h.1,
  layers-sum 0 ls p.total_committed a,
  layers-low 0 ls p.total_committed a,
)

-- The layers between the levels of a settlement add up to what was committed.
pub all_layers-levels : (ps : List Participant) → all_layers 0 (levels ps) ps ≡ committed ps
unfolding levels
all_layers-levels ps =
    layers-Covered (levels ps) ps (levels-Ascending ps)
      (Covered-sort_by (positive ps) ps (Covered-positive ps))
