-- ===== src/Fairness.antt =====
-- `UniformInt` of internal/games/fairness/fairness.go. A source is the list of the 32-bit words that
-- can still be read from it; a read past its end fails.
mod Tests
use momiao.Base.{
  ℕ, zero, suc, ◌+◌, ◌-◌, ◌*◌, ◌/◌, ◌%◌, ◌≤◌, ◌<◌, ◌≡◌, refl, sym, ◌∙◌, ap, Bool, true, false, ◌||◌,
  List, [], ◌∷◌, arith, ltb, ◌==◌, if◌then◌else◌, Bool-cases, inl, inr,
}
use native.Mathlib.Nat.{
  mod-lt, mod-eq_of_lt, mul-add-mod_self_right, div-add-mod', mul-le-mul_right, suc-mul,
}

pub data Sampled : Type 0 where
  invalid_input source_ended : Sampled
  sampled : ℕ → List ℕ → Sampled

-- 1 << 32
abbrev pub word_count : ℕ
word_count = 4_294_967_296

-- Words at the limit and above are passed over.
unfoldable pub sample_below : ℕ → ℕ → List ℕ → Sampled
sample_below limit n [] = Sampled.source_ended
sample_below limit n (x ∷ words) =
    let later = sample_below limit n words in
    if ltb x limit then Sampled.sampled (x % n) words else later

unfoldable pub uniform_int : List ℕ → ℕ → Sampled
unfolding sample_below
uniform_int words n =
    if n == 0 || ltb word_count n
    then Sampled.invalid_input
    else sample_below (word_count - word_count % n) n words

-- A number that is sampled is below the bound.
abbrev pub IsBelow : ℕ → Sampled → Type 0
IsBelow n (Sampled.sampled v words) = v < n
IsBelow n Sampled.invalid_input = Unit
IsBelow n Sampled.source_ended = Unit

sample_below-IsBelow :
    (limit n : ℕ) (words : List ℕ) → 0 < n → IsBelow n (sample_below limit n words)
unfolding sample_below
sample_below-IsBelow limit n [] h = tt
sample_below-IsBelow limit n (x ∷ words) h = elim (Bool-cases (ltb x limit)) [
  | inl low ↦ rw (low) (mod-lt x h)
  | inr high ↦ rw (high) (sample_below-IsBelow limit n words h)
]

above_zero : (n : ℕ) → (n == 0 || ltb word_count n) ≡ false → 0 < n
above_zero n h = ground arith

pub uniform_int-IsBelow : (words : List ℕ) (n : ℕ) → IsBelow n (uniform_int words n)
unfolding uniform_int
uniform_int-IsBelow words n = elim (Bool-cases (n == 0 || ltb word_count n)) [
  | inl bad ↦ rw (bad) tt
  | inr good ↦
      rw (good) (sample_below-IsBelow (word_count - word_count % n) n words (above_zero n good))
]

fair_bound : (n : ℕ) → 0 < n → n ≤ word_count → (n == 0 || ltb word_count n) ≡ false
fair_bound n h k = ground arith

-- The words below the limit are the multiples of the bound, each with a remainder.
below_limit :
    (n v j : ℕ) → v < n → j < word_count / n → ltb (j * n + v) (word_count - word_count % n) ≡ true
below_limit n v j h k = accepted_word (j * n + v) (word_count - word_count % n) low
  where
    accepted_word : (a b : ℕ) → a < b → ltb a b ≡ true
    accepted_word a b l = ground arith

    low : j * n + v < word_count - word_count % n
    low = omega (arith, h, div-add-mod' word_count n, mul-le-mul_right n k, suc-mul j n)

-- For a bound n of at most 2^32 and a number v below n, every word j * n + v with j below 2^32 /
-- n samples v, and the words after it are left unread.
pub uniform_int-even :
    (n v j : ℕ) (words : List ℕ)
    → v < n
    → n ≤ word_count
    → j < word_count / n
    → uniform_int ((j * n + v) ∷ words) n ≡ Sampled.sampled v words
unfolding uniform_int
uniform_int-even n v j words h k l =
    rw (fair_bound n (omega (arith, h)) k, below_limit n v j h l)
      (ap (λ (m : ℕ). Sampled.sampled m words) (mul-add-mod_self_right j n v ∙ mod-eq_of_lt h))
