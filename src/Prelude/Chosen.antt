-- ===== src/Prelude/Chosen.antt =====
-- A choice of places in a list, and choices of more than half of a cluster.
use kill_my_cluster.Prelude.{ℕ, ◌+◌, ◌*◌, ◌<◌, List, [], ◌∷◌, length, All}

-- The first list is the second with some places left out.
pub data Chosen : List ℕ → List ℕ → Type 0 where
  none_left : Chosen [] []
  takes : {x : ℕ} {xs ys : List ℕ} → Chosen xs ys → Chosen (x ∷ xs) (x ∷ ys)
  leaves : {y : ℕ} {xs ys : List ℕ} → Chosen xs ys → Chosen xs (y ∷ ys)

-- Of a cluster that consists of `peers` and one node more: peers with `P` that are, with that node, more
-- than half of it.
pub record MostOf (P : ℕ → Type 0) (peers : List ℕ) : Type 0 where
  pub chosen : List ℕ
  pub among : Chosen chosen peers
  pub each : All P chosen
  pub most : 1 + length peers < 2 * (1 + length chosen)
