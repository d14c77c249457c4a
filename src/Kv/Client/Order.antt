-- ===== src/Kv/Client/Order.antt =====
-- internal/kv/client.go: the order in which the nodes are tried.
use kill_my_cluster.Prelude.{
  ℕ, ◌≡◌, refl, sym, subst, inl, inr, ◌⊎◌, true, false, List, [], ◌∷◌, ◌++◌, All, ◌==◌, ==_iff,
  arith, Bool-cases, has, others, others-absent, IsDistinct,
}
use mathlib.Core.List.{Perm, perm_middle}
use mathlib.Core.List.Perm
use kill_my_cluster.Kv.Client.{Client, penalised, split, try_order}

others-Perm : (k : ℕ) (xs : List ℕ) → has k xs ≡ true → IsDistinct xs → Perm (k ∷ others k xs) xs
others-Perm k [] h d = cc
others-Perm k (x ∷ xs) h d = elim (Bool-cases (x == k)) [
  | inl e ↦ rw (e) (at_head ((==_iff x k).0 e))
  | inr e ↦
      rw (e) (
        Perm.trans (Perm.swap x k (others k xs))
          (Perm.cons x (others-Perm k xs (ground arith) d.1)))
]
  where
    at_head : x ≡ k → Perm (k ∷ others k xs) (x ∷ xs)
    at_head e =
        subst (λ y. Perm (k ∷ others k xs) (y ∷ xs)) (sym e)
          (rw (others-absent k xs (subst (λ y. has y xs ≡ false) e d.0)) (Perm.refl (k ∷ xs)))

module _ (now prefer : ℕ) (c : Client) where
  split-Perm :
      (ids : List ℕ)
      → Perm ((split now prefer c ids).0 ++ (split now prefer c ids).1) (others prefer ids)
  unfolding split
  split-Perm [] = Perm.refl []
  split-Perm (id ∷ ids) = elim (Bool-cases (id == prefer)) [
    | inl e ↦ rw (e) (split-Perm ids)
    | inr e ↦ elim (Bool-cases (penalised now c id)) [
      | inl bad ↦
          rw (e, bad)
            (Perm.trans (perm_middle (split now prefer c ids).0 (split now prefer c ids).1)
              (Perm.cons id (split-Perm ids)))
      | inr good ↦ rw (e, good) (Perm.cons id (split-Perm ids))
    ]
  ]

  split-first : (ids : List ℕ) → All (λ id. penalised now c id ≡ false) (split now prefer c ids).0
  unfolding split
  split-first [] = tt
  split-first (id ∷ ids) = elim (Bool-cases (id == prefer)) [
    | inl e ↦ rw (e) (split-first ids)
    | inr e ↦ elim (Bool-cases (penalised now c id)) [
      | inl bad ↦ rw (e, bad) (split-first ids)
      | inr good ↦ rw (e, good) (good, split-first ids)
    ]
  ]

  split-last : (ids : List ℕ) → All (λ id. penalised now c id ≡ true) (split now prefer c ids).1
  unfolding split
  split-last [] = tt
  split-last (id ∷ ids) = elim (Bool-cases (id == prefer)) [
    | inl e ↦ rw (e) (split-last ids)
    | inr e ↦ elim (Bool-cases (penalised now c id)) [
      | inl bad ↦ rw (e, bad) (bad, split-last ids)
      | inr good ↦ rw (e, good) (split-last ids)
    ]
  ]

-- An order of the nodes `ids` in which those under penalty come last.
pub record Walks (now : ℕ) (c : Client) (ids tried : List ℕ) : Type 0 where
  pub first : List ℕ
  pub last : List ℕ
  pub all_of : tried ≡ first ++ last
  pub each_once : Perm tried ids
  pub no_penalty : All (λ id. penalised now c id ≡ false) first
  pub penalty : All (λ id. penalised now c id ≡ true) last

-- tryOrder tries every node once, and those under penalty after the others, where the nodes are
-- distinct, none of them is 0, and the preferred one is 0 or one of them. There is none that is
-- preferred, or it is under penalty, or it is the first.
pub try_order-Walks :
    (now prefer : ℕ) (c : Client)
    → IsDistinct c.order
    → has 0 c.order ≡ false
    → (prefer ≡ 0) ⊎ (has prefer c.order ≡ true)
    → Walks now c c.order (try_order now prefer c)
      × ((prefer ≡ 0)
          ⊎ ((penalised now c prefer ≡ true)
              ⊎ ((rest : List ℕ) × (try_order now prefer c ≡ prefer ∷ rest))))
unfolding try_order
try_order-Walks now prefer c distinct real h = elim (Bool-cases (prefer == 0)) [
  | inl e ↦ (rw (e) (unpreferred ((==_iff prefer 0).0 e)), inl ((==_iff prefer 0).0 e))
  | inr e ↦ elim (Bool-cases (penalised now c prefer)) [
    | inl bad ↦ (rw (e, bad) (later (there e h) bad), inr (inl bad))
    | inr good ↦
        (rw (e, good) (sooner (there e h) good), inr (inr (out ++ bads, rw (e, good) refl)))
  ]
]
  where
    out : List ℕ
    out = (split now prefer c c.order).0

    bads : List ℕ
    bads = (split now prefer c c.order).1

    there :
        (prefer == 0) ≡ false
        → (prefer ≡ 0) ⊎ (has prefer c.order ≡ true)
        → has prefer c.order ≡ true
    there e (inl zero) = absurd (cc (e, (==_iff prefer 0).1 zero))
    there e (inr known) = known

    both : has prefer c.order ≡ true → Perm (prefer ∷ (out ++ bads)) c.order
    both known =
        Perm.trans (Perm.cons prefer (split-Perm now prefer c c.order))
          (others-Perm prefer c.order known distinct)

    unpreferred : prefer ≡ 0 → Walks now c c.order (out ++ bads)
    unpreferred e = record {
      first = out;
      last = bads;
      all_of = refl;
      each_once =
          subst (λ xs. Perm (out ++ bads) xs)
            (others-absent prefer c.order (subst (λ k. has k c.order ≡ false) (sym e) real))
            (split-Perm now prefer c c.order);
      no_penalty = split-first now prefer c c.order;
      penalty = split-last now prefer c c.order;
    }

    later :
        has prefer c.order ≡ true
        → penalised now c prefer ≡ true
        → Walks now c c.order (out ++ (prefer ∷ bads))
    later known bad = record {
      first = out;
      last = prefer ∷ bads;
      all_of = refl;
      each_once = Perm.trans (perm_middle out bads) (both known);
      no_penalty = split-first now prefer c c.order;
      penalty = (bad, split-last now prefer c c.order);
    }

    sooner :
        has prefer c.order ≡ true
        → penalised now c prefer ≡ false
        → Walks now c c.order (prefer ∷ (out ++ bads))
    sooner known good = record {
      first = prefer ∷ out;
      last = bads;
      all_of = refl;
      each_once = both known;
      no_penalty = (good, split-first now prefer c c.order);
      penalty = split-last now prefer c c.order;
    }
