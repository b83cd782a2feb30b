-- ===== src/Poker/Rank/Maximal.antt =====
-- The choice that `Evaluate` of internal/poker/engine/evaluate.go makes among the 21.
use momiao.Base.{
  ℕ, ◌≡◌, ◌≢◌, refl, ◌∙◌, ap, sym, subst, ◌&&◌, List, [], ◌∷◌, arith, Option, none, some, String,
  All, length, ◌==◌,
}
use text.Mathlib.Text.{◌==◌ as str_eq}
use momiao.Poker.Types.{Card, HandRank, ok, ◌>>=◌, ◌>>◌, >>=-eq-ok, guard, evaluation}
use momiao.Poker.Rank.Vector.{Comparison, above, same, below, compare, rank}
use momiao.Poker.Rank.Choices.{IsChoice, five_of_seven_complete, five_of_seven-IsChoice}
use momiao.Poker.Rank.Best.{
  select, Candidate, better, best_of, finish, five_of_seven, evaluate, evaluator_version,
  valid_cards,
}

-- The vector v does not beat the vector w.
abbrev pub NotAbove : List ℕ → List ℕ → Type 0
NotAbove v w = compare v w ≢ some above

compare_refl : (v : List ℕ) → compare v v ≡ some same
unfolding compare
compare_refl [] = refl
compare_refl (x ∷ v) = ground (arith, compare_refl v)

-- What does not beat w does not beat anything that beats w.
NotAbove-raise : (v w u : List ℕ) → NotAbove v w → compare u w ≡ some above → NotAbove v u
unfolding compare
NotAbove-raise [] w u h k = ground arith
NotAbove-raise (x ∷ v) [] [] h k = cc
NotAbove-raise (x ∷ v) [] (z ∷ u) h k = cc
NotAbove-raise (x ∷ v) (y ∷ w) [] h k = cc
NotAbove-raise (x ∷ v) (y ∷ w) (z ∷ u) h k = ground (arith, NotAbove-raise v w u)

module _ (cards : List Card) where
  abbrev vector : List ℕ → List ℕ
  vector idx = rank (select cards idx)

  -- The vector is that of a choice of five cards.
  abbrev Names : List ℕ → List ℕ → Type 0
  Names w jdx = (w ≡ vector jdx) × IsChoice jdx

  -- None of these choices beats w.
  abbrev Beaten : List ℕ → List (List ℕ) → Type 0
  Beaten w = All (λ idx. NotAbove (vector idx) w)

  Beaten-raise :
      (w u : List ℕ) (seen : List (List ℕ))
      → compare u w ≡ some above
      → Beaten w seen
      → Beaten u seen
  Beaten-raise w u [] h k = tt
  Beaten-raise w u (idx ∷ seen) h k =
      (NotAbove-raise (vector idx) w u k.0 h, Beaten-raise w u seen h k.1)

  -- One more choice: the better of the two stays, and beats all that were seen.
  better-Beaten :
      (w jdx idx : List ℕ) (seen : List (List ℕ)) (next : Candidate)
      → Names w jdx
      → IsChoice idx
      → Beaten w seen
      → better (some (w, jdx)) (vector idx) idx ≡ ok next
      → (u : List ℕ) × (kdx : List ℕ) × (next ≡ some (u, kdx)) × Names u kdx × Beaten u (idx ∷ seen)
  better-Beaten w jdx idx seen next g c b e = go (compare (vector idx) w) refl
    where
      go :
          (o : Option Comparison)
          → compare (vector idx) w ≡ o
          → (u : List ℕ) × (kdx : List ℕ) × (next ≡ some (u, kdx))
            × Names u kdx
            × Beaten u (idx ∷ seen)
      go none q = absurd (unfold better in ground arith)
      go (some above) q = (
        vector idx,
        idx,
        unfold better in ground arith,
        (refl, c),
        (λ h. cc (compare_refl (vector idx)), Beaten-raise w (vector idx) seen q b),
      )
      go (some same) q = (w, jdx, unfold better in ground arith, g, (λ h. cc, b))
      go (some below) q = (w, jdx, unfold better in ground arith, g, (λ h. cc, b))

  best_of-Beaten :
      (w jdx : List ℕ) (seen idxs : List (List ℕ)) (out : Candidate)
      → Names w jdx
      → All IsChoice idxs
      → Beaten w seen
      → best_of cards idxs (some (w, jdx)) ≡ ok out
      → (u : List ℕ) × (kdx : List ℕ) × (out ≡ some (u, kdx))
        × Names u kdx
        × Beaten u seen
        × Beaten u idxs
  unfolding best_of
  best_of-Beaten w jdx seen [] out g c b e = (w, jdx, ground arith, g, b, tt)
  best_of-Beaten w jdx seen (idx ∷ idxs) out g c b e =
      let (next, q, e') =
        >>=-eq-ok (better (some (w, jdx)) (vector idx) idx)
          (λ (n : Candidate). best_of cards idxs n) e in
      let (u, kdx, n, g', b') = better-Beaten w jdx idx seen next g c.0 b q in
      let (v, ldx, o, g'', b'', rest) =
        best_of-Beaten u kdx (idx ∷ seen) idxs out g' c.1 b'
          (subst (λ (c : Candidate). best_of cards idxs c ≡ ok out) n e') in
      (v, ldx, o, g'', b''.1, (b''.0, rest))

  first-Beaten :
      (idx : List ℕ) (idxs : List (List ℕ)) (out : Candidate)
      → All IsChoice (idx ∷ idxs)
      → best_of cards (idx ∷ idxs) none ≡ ok out
      → (u : List ℕ) × (kdx : List ℕ) × (out ≡ some (u, kdx)) × Names u kdx × Beaten u (idx ∷ idxs)
  unfolding best_of better
  first-Beaten idx idxs out c e =
      let (u, kdx, o, g, b, rest) =
        best_of-Beaten (vector idx) idx (idx ∷ []) idxs out (refl, c.0) c.1
          (λ h. cc (compare_refl (vector idx)), tt) e in
      (u, kdx, o, g, (b.0, rest))

  choices-Beaten :
      (out : Candidate)
      → best_of cards five_of_seven none ≡ ok out
      → (u : List ℕ) × (kdx : List ℕ) × (out ≡ some (u, kdx)) × Names u kdx × Beaten u five_of_seven
  unfolding five_of_seven
  choices-Beaten out e = first-Beaten _ _ out five_of_seven-IsChoice e

finish-parts :
    (version : String) (u kdx : List ℕ) (r : HandRank)
    → finish version (some (u, kdx)) ≡ ok r
    → (r.vector ≡ u) × (r.best_five ≡ kdx) × (r.version ≡ version)
unfolding finish
finish-parts version u kdx r e = ground arith

-- The rank that `Evaluate` returns is that of the five cards which it names by five rising
-- positions below seven, and no five cards at rising positions of the seven rank above it.
pub evaluate_best :
    (c d : Card) (board : List Card) (version : String) (r : HandRank)
    → evaluate (c, d) board version ≡ ok r
    → (r.vector ≡ rank (select (c ∷ d ∷ board) r.best_five))
      × IsChoice r.best_five
      × ((idx : List ℕ) → IsChoice idx → NotAbove (rank (select (c ∷ d ∷ board) idx)) r.vector)
unfolding evaluate
evaluate_best c d board version r e =
    let cards : List Card = c ∷ d ∷ board in
    let (u, right, e₁) =
      >>=-eq-ok (guard (str_eq version evaluator_version && (length board == 5)) evaluation)
        (λ (u : Unit {0}).
          guard (valid_cards cards) evaluation
          >> (best_of cards five_of_seven none >>= λ best. finish version best))
        e in
    let (v, valid, e₂) =
      >>=-eq-ok (guard (valid_cards cards) evaluation)
        (λ (v : Unit {0}). best_of cards five_of_seven none >>= λ best. finish version best) e₁ in
    let (best, q, e₃) =
      >>=-eq-ok (best_of cards five_of_seven none) (λ (b : Candidate). finish version b) e₂ in
    let (w, kdx, o, g, b) = choices-Beaten cards best q in
    let (vec, five, _) =
      finish-parts version w kdx r (subst (λ (x : Candidate). finish version x ≡ ok r) o e₃) in
    (
      vec ∙ g.0 ∙ ap (λ (idx : List ℕ). rank (select cards idx)) (sym five),
      subst IsChoice (sym five) g.1,
      λ idx choice.
          five_of_seven_complete (λ ns. NotAbove (rank (select cards ns)) r.vector) idx
            (subst (λ (x : List ℕ). All (λ ns. NotAbove (rank (select cards ns)) x) five_of_seven)
              (sym vec) b)
            choice,
    )
