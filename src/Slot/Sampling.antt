-- ===== src/Slot/Sampling.antt =====
-- The stops that `spin` of internal/games/slot/slot.go draws.
use momiao.Base.{ℕ, ◌≡◌, ◌<◌, refl, subst, List, [], ◌∷◌, String, some, leb, arith, false}
use momiao.Base.Int.{ℤ, pos}
use momiao.Slot.Types.{
  Config, Result, Error, returned, fail_if, >>=-eq-returned, fail_if-eq-returned,
  returned-injective,
}
use momiao.Slot.Resolve.{Sampler, domains, draw_stops, spin_with, resolve, validate_wager}

-- The stops are the samples of their domains, in order, each on the strip.
abbrev pub Drawn : Sampler → List String → List ℤ → Type 0
Drawn sample [] [] = Unit
Drawn sample [] (stop ∷ stops) = ⊥
Drawn sample (domain ∷ rest) [] = ⊥
Drawn sample (domain ∷ rest) (stop ∷ stops) =
    ((n : ℕ) × (sample domain 32 ≡ returned n) × (n < 32) × (stop ≡ pos n))
    × Drawn sample rest stops

draw_stops-Drawn :
    (sample : Sampler) (ds : List String) (stops : List ℤ)
    → draw_stops sample ds ≡ returned stops
    → Drawn sample ds stops
unfolding draw_stops
draw_stops-Drawn sample [] stops e = subst (Drawn sample []) (returned-injective e) tt
draw_stops-Drawn sample (domain ∷ rest) stops e =
    let (n, drawn, e₁) = >>=-eq-returned (sample domain 32) _ e in
    let (_, passed, e₂) = >>=-eq-returned (fail_if (leb 32 n) Error.sample_out_of_range) _ e₁ in
    let (later, more, e₃) = >>=-eq-returned (draw_stops sample rest) _ e₂ in
    let small : leb 32 n ≡ false = fail_if-eq-returned _ _ passed in
    subst (Drawn sample (domain ∷ rest)) (returned-injective e₃)
      ((n, drawn, ground arith, refl), draw_stops-Drawn sample rest later more)

-- A spin that returns has drawn one stop below 32 for each of the five domains, in order, and
-- returns what `resolve` returns for those stops.
pub spin_with-Drawn :
    (wager : ℤ) (sample : Sampler) (c : Config) (r : Result)
    → spin_with wager (some sample) c ≡ returned r
    → (stops : List ℤ) × Drawn sample domains stops × (resolve wager stops c ≡ returned r)
unfolding spin_with
spin_with-Drawn wager sample c r e =
    let (_, _, e₁) = >>=-eq-returned (validate_wager wager c) _ e in
    let (stops, drawn, e₂) = >>=-eq-returned (draw_stops sample domains) _ e₁ in
    (stops, draw_stops-Drawn sample domains stops drawn, e₂)
