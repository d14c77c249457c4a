-- ===== src/Raft/Cluster/Quorum.antt =====
-- Two majorities of one cluster have a member in common.
use kill_my_cluster.Prelude.{
  has, others, ℕ, suc, ◌+◌, ◌≤◌, ◌<◌, ◌≡◌, arith, Bool, true, ◌&&◌, ◌||◌, ◌==◌, List, [], ◌∷◌,
  length, if◌then◌else◌, Bool-cases, inl, inr,
}

abbrev pub count : (ℕ → Bool) → List ℕ → ℕ
count p [] = 0
count p (x ∷ xs) = if p x then suc (count p xs) else count p xs

abbrev pub with_self : ℕ → (ℕ → Bool) → ℕ → Bool
with_self c p v = v == c || p v

pub count-le :
    (p q : ℕ → Bool) (xs : List ℕ) → ((v : ℕ) → p v ≡ true → q v ≡ true) → count p xs ≤ count q xs
count-le p q [] h = omega arith
count-le p q (x ∷ xs) h = ground (arith, count-le p q xs h, h x)

count-others-le :
    (c : ℕ) (p : ℕ → Bool) (xs : List ℕ) → count p (others c xs) ≤ count (with_self c p) xs
count-others-le c p [] = omega arith
count-others-le c p (x ∷ xs) = ground (arith, count-others-le c p xs)

pub count-others :
    (c : ℕ) (p : ℕ → Bool) (xs : List ℕ)
    → has c xs ≡ true
    → 1 + count p (others c xs) ≤ count (with_self c p) xs
count-others c p [] h = ground arith
count-others c p (x ∷ xs) h = ground (arith, count-others-le c p xs, count-others c p xs)

-- The pigeonhole principle.
pub both :
    (p q : ℕ → Bool) (xs : List ℕ)
    → length xs < count p xs + count q xs
    → (v : ℕ) × (p v ≡ true) × (q v ≡ true)
both p q [] h = absurd (omega arith)
both p q (x ∷ xs) h = elim (Bool-cases (p x && q x)) [
  | inl here ↦ (x, ground arith, ground arith)
  | inr not_here ↦ both p q xs (ground arith)
]
