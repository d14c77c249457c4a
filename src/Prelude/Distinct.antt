-- ===== src/Prelude/Distinct.antt =====
-- Lists of distinct numbers.
use Prim.Native.Nat.{ℕ, zero, suc, ◌+◌, ◌≤◌, ◌<◌}
use mathlib.Core.Path.{◌≡◌, refl, subst}
use mathlib.Core.Logic.{inl, inr}
use mathlib.Core.Bool.{Bool, true, false, ◌||◌}
use mathlib.Core.List.{List, [], ◌∷◌}
use native.Mathlib.Omega.{arith}
use kill_my_cluster.Prelude.Tests.{if◌then◌else◌, ◌==◌, Bool-cases}
use kill_my_cluster.Prelude.Lists.{length, All}

abbrev pub has : ℕ → List ℕ → Bool
has v [] = false
has v (x ∷ xs) = x == v || has v xs

abbrev pub IsDistinct : List ℕ → Type 0
IsDistinct [] = Unit {0}
IsDistinct (x ∷ xs) = (has x xs ≡ false) × IsDistinct xs

-- All but one.
abbrev pub others : ℕ → List ℕ → List ℕ
others c [] = []
others c (x ∷ xs) = if x == c then others c xs else x ∷ others c xs

pub others-absent : (c : ℕ) (xs : List ℕ) → has c xs ≡ false → others c xs ≡ xs
others-absent c [] h = refl
others-absent c (x ∷ xs) h = ground (arith, others-absent c xs)

pub length-others :
    (c : ℕ) (xs : List ℕ) → has c xs ≡ true → IsDistinct xs → length (others c xs) + 1 ≡ length xs
length-others c [] h d = ground arith
length-others c (x ∷ xs) h d = ground (arith, others-absent c xs, length-others c xs, d.0, d.1)

has-others : (k c : ℕ) (xs : List ℕ) → has k xs ≡ false → has k (others c xs) ≡ false
has-others k c [] h = refl
has-others k c (x ∷ xs) h = ground (arith, has-others k c xs)

others-IsDistinct : (c : ℕ) (xs : List ℕ) → IsDistinct xs → IsDistinct (others c xs)
others-IsDistinct c [] d = tt
others-IsDistinct c (x ∷ xs) d = elim (Bool-cases (x == c)) [
  | inl e ↦ rw (e) (others-IsDistinct c xs d.1)
  | inr e ↦ rw (e) (has-others x c xs d.0, others-IsDistinct c xs d.1)
]

abbrev pub Within : ℕ → ℕ → ℕ → Type 0
Within a n k = (a ≤ k) × (k < a + n)

others-Within :
    (a n : ℕ) (xs : List ℕ) → All (Within a (suc n)) xs → All (Within a n) (others (a + n) xs)
others-Within a n [] all = tt
others-Within a n (x ∷ xs) all = elim (Bool-cases (x == a + n)) [
  | inl e ↦ rw (e) (others-Within a n xs all.1)
  | inr e ↦ rw (e) ((all.0.0, ground (arith, all.0.1)), others-Within a n xs all.1)
]

-- There are no more distinct numbers than the range has.
pub length-Within : (a n : ℕ) (xs : List ℕ) → IsDistinct xs → All (Within a n) xs → length xs ≤ n
length-Within a n [] d all = omega arith
length-Within a zero (x ∷ xs) d all = absurd (omega (arith, all.0.0, all.0.1))
length-Within a (suc n) (x ∷ xs) d all =
    let smaller =
      length-Within a n (others (a + n) (x ∷ xs)) (others-IsDistinct (a + n) (x ∷ xs) d)
        (others-Within a n (x ∷ xs) all) in
    elim (Bool-cases (has (a + n) (x ∷ xs))) [
      | inl e ↦ omega (arith, length-others (a + n) (x ∷ xs) e d, smaller)
      | inr e ↦
          subst (λ ys. length ys ≤ suc n) (others-absent (a + n) (x ∷ xs) e)
            (omega (arith, smaller))
    ]
