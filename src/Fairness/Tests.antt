-- ===== src/Fairness/Tests.antt =====
-- Samples of `UniformInt`.
use momiao.Base.{◌≡◌, refl, [], ◌∷◌, arith}
use momiao.Fairness.{Sampled, uniform_int, uniform_int-even}

-- The last word lies above the limit for a bound of 6, and is passed over.
skips_the_tail : uniform_int (4_294_967_295 ∷ 8 ∷ []) 6 ≡ Sampled.sampled 2 []
unfolding uniform_int
skips_the_tail = refl

uniform_int-even_example : uniform_int (63 ∷ 5 ∷ []) 6 ≡ Sampled.sampled 3 (5 ∷ [])
uniform_int-even_example =
    uniform_int-even 6 3 10 (5 ∷ []) (omega arith) (omega arith) (omega arith)
