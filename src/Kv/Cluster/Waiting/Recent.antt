-- ===== src/Kv/Cluster/Waiting/Recent.antt =====
-- internal/kv/cluster.go: how many results wait for their proposer.
use kill_my_cluster.Prelude.{
  ℕ, ◌+◌, ◌-◌, ◌≤◌, ◌<◌, ◌≡◌, refl, false, List, [], ◌∷◌, ltb, ◌==◌, ==_iff, nat_eq, arith, All,
  Option-cases, Bool-cases, inl, inr, length, has, IsDistinct, Within, length-Within,
}
use kill_my_cluster.Prelude.Bytes.{u64_mod, add64}
use kill_my_cluster.Prelude.Map.{Map}
use kill_my_cluster.Prelude.Map
use kill_my_cluster.Kv.Command.{ApplyResult}
use kill_my_cluster.Kv.Cluster.Waiting.{Waiters, no_waiting, purge, settle, await, abandon, expire}
use kill_my_cluster.Kv.Cluster.Waiting.Answered.{Move, applies, awaits, abandons, expires, run}

abbrev keys : Map ℕ ApplyResult → List ℕ
keys [] = []
keys ((k, r) ∷ m) = k ∷ keys m

-- The indices that are not dropped when `last` is put.
abbrev Window : ℕ → ℕ → Type 0
Window last k = (last ≤ k + 256) × (k ≤ last)

module _ (index : ℕ) where
  has-purge :
      (k : ℕ) (m : Map ℕ ApplyResult)
      → has k (keys m) ≡ false
      → has k (keys (purge index m)) ≡ false
  unfolding purge
  has-purge k [] h = refl
  has-purge k ((j, r) ∷ m) h = ground (arith, has-purge k m)

  purge-IsDistinct :
      (m : Map ℕ ApplyResult) → IsDistinct (keys m) → IsDistinct (keys (purge index m))
  unfolding purge
  purge-IsDistinct [] d = tt
  purge-IsDistinct ((j, r) ∷ m) d = elim (Bool-cases (ltb (add64 j 256) index)) [
    | inl e ↦ rw (e) (purge-IsDistinct m d.1)
    | inr e ↦ rw (e) (has-purge j m d.0, purge-IsDistinct m d.1)
  ]

  purge-Window :
      (m : Map ℕ ApplyResult)
      → index + 256 < u64_mod
      → All (λ k. k ≤ index) (keys m)
      → All (Window index) (keys (purge index m))
  unfolding purge
  purge-Window [] room all = tt
  purge-Window ((j, r) ∷ m) room all = elim (Bool-cases (ltb (add64 j 256) index)) [
    | inl e ↦ rw (e) (purge-Window m room all.1)
    | inr e ↦ rw (e) ((ground (arith, all.0), all.0), purge-Window m room all.1)
  ]

module _ (k : ℕ) (r : ApplyResult) where
  has-put :
      (j : ℕ) (m : Map ℕ ApplyResult)
      → (k == j) ≡ false
      → has j (keys m) ≡ false
      → has j (keys (Map.put k r m)) ≡ false
  unfolding Map.put
  has-put j [] other h = ground arith
  has-put j ((i, s) ∷ m) other h = ground (arith, has-put j m)

  put-IsDistinct : (m : Map ℕ ApplyResult) → IsDistinct (keys m) → IsDistinct (keys (Map.put k r m))
  unfolding Map.put
  put-IsDistinct [] d = (refl, tt)
  put-IsDistinct ((i, s) ∷ m) d = elim (Bool-cases (i == k)) [
    | inl e ↦ rw (e) (same ((==_iff i k).0 e), d.1)
    | inr e ↦ rw (e) (has-put i m (ground arith) d.0, put-IsDistinct m d.1)
  ]
    where
      same : i ≡ k → has k (keys m) ≡ false
      same e = ground (arith, d.0)

  put-All :
      (P : ℕ → Type 0) (m : Map ℕ ApplyResult) → P k → All P (keys m) → All P (keys (Map.put k r m))
  unfolding Map.put
  put-All P [] p all = (p, tt)
  put-All P ((i, s) ∷ m) p all = elim (Bool-cases (i == k)) [
    | inl e ↦ rw (e) (p, all.1)
    | inr e ↦ rw (e) (all.0, put-All P m p all.1)
  ]

module _ (k : ℕ) where
  has-remove :
      (j : ℕ) (m : Map ℕ ApplyResult)
      → has j (keys m) ≡ false
      → has j (keys (Map.remove k m)) ≡ false
  unfolding Map.remove
  has-remove j [] h = refl
  has-remove j ((i, s) ∷ m) h = ground (arith, has-remove j m)

  remove-IsDistinct :
      (m : Map ℕ ApplyResult) → IsDistinct (keys m) → IsDistinct (keys (Map.remove k m))
  unfolding Map.remove
  remove-IsDistinct [] d = tt
  remove-IsDistinct ((i, s) ∷ m) d = elim (Bool-cases (i == k)) [
    | inl e ↦ rw (e) (remove-IsDistinct m d.1)
    | inr e ↦ rw (e) (has-remove i m d.0, remove-IsDistinct m d.1)
  ]

  remove-All :
      (P : ℕ → Type 0) (m : Map ℕ ApplyResult) → All P (keys m) → All P (keys (Map.remove k m))
  unfolding Map.remove
  remove-All P [] all = tt
  remove-All P ((i, s) ∷ m) all = elim (Bool-cases (i == k)) [
    | inl e ↦ rw (e) (remove-All P m all.1)
    | inr e ↦ rw (e) (all.0, remove-All P m all.1)
  ]

-- Distinct indices around the last one that was put, `put`, which is not past the last applied one.
record Tidy (last : ℕ) (recent : Map ℕ ApplyResult) : Type 0 where
  put : ℕ
  past : put ≤ last
  distinct : IsDistinct (keys recent)
  window : All (Window put) (keys recent)

remove-Tidy : (last k : ℕ) (m : Map ℕ ApplyResult) → Tidy last m → Tidy last (Map.remove k m)
remove-Tidy last k m t = record {
  put = t.put;
  past = t.past;
  distinct = remove-IsDistinct k m t.distinct;
  window = remove-All k (Window t.put) m t.window;
}

below : (last put : ℕ) (ks : List ℕ) → put ≤ last → All (Window put) ks → All (λ k. k ≤ last) ks
below last put [] le all = tt
below last put (k ∷ ks) le all = (omega (arith, all.0.1), below last put ks le all.1)

settle-Tidy :
    (last j : ℕ) (res : ApplyResult) (w : Waiters)
    → last ≤ j
    → j + 256 < u64_mod
    → Tidy last w.recent
    → Tidy j (settle j res w).recent
unfolding settle
settle-Tidy last j res w le room t = elim (Option-cases (Map.get j w.waiters)) [
  | inr (ch, e) ↦ rw (e) (record {
    put = t.put;
    past = omega (arith, t.past);
    distinct = t.distinct;
    window = t.window;
  })
  | inl e ↦ rw (e) (record {
    put = j;
    past = omega arith;
    distinct =
        purge-IsDistinct j (Map.put j res w.recent) (put-IsDistinct j res w.recent t.distinct);
    window = purge-Window j (Map.put j res w.recent) room (
        put-All j res (λ k. k ≤ j) w.recent (omega arith)
          (below j t.put (keys w.recent) (omega (arith, t.past)) t.window));
  })
]

await-Tidy : (last j : ℕ) (w : Waiters) → Tidy last w.recent → Tidy last (await j w).0.recent
unfolding await
await-Tidy last j w t = elim (Option-cases (Map.get j w.recent)) [
  | inr (r, e) ↦ rw (e) (remove-Tidy last j w.recent t)
  | inl e ↦ rw (e) t
]

expire-Tidy : (last j : ℕ) (w : Waiters) → Tidy last w.recent → Tidy last (expire j w).0.recent
unfolding expire abandon
expire-Tidy last j w t = elim (Option-cases (Map.get j w.recent)) [
  | inr (r, e) ↦ rw (e) (remove-Tidy last j w.recent t)
  | inl e ↦ rw (e) t
]

-- The applied indices do not go back, and stay 256 below 2 ^ 64.
abbrev pub Rising : ℕ → List Move → Type 0
Rising last [] = Unit {0}
Rising last (applies j res ∷ moves) = (last ≤ j) × (j + 256 < u64_mod) × Rising j moves
Rising last (awaits j ∷ moves) = Rising last moves
Rising last (abandons j ∷ moves) = Rising last moves
Rising last (expires j ∷ moves) = Rising last moves

run-Tidy :
    (moves : List Move) (last : ℕ) (w : Waiters)
    → Rising last moves
    → Tidy last w.recent
    → (l : ℕ) × Tidy l (run w moves).recent
unfolding abandon
run-Tidy [] last w rising t = (last, t)
run-Tidy (applies j res ∷ moves) last w rising t =
    run-Tidy moves j (settle j res w) rising.2 (settle-Tidy last j res w rising.0 rising.1 t)
run-Tidy (awaits j ∷ moves) last w rising t =
    run-Tidy moves last (await j w).0 rising (await-Tidy last j w t)
run-Tidy (abandons j ∷ moves) last w rising t = run-Tidy moves last (abandon j w) rising t
run-Tidy (expires j ∷ moves) last w rising t =
    run-Tidy moves last (expire j w).0 rising (expire-Tidy last j w t)

length-keys : (m : Map ℕ ApplyResult) → length (keys m) ≡ length m
length-keys [] = refl
length-keys ((k, r) ∷ m) = omega (arith, length-keys m)

within : (put : ℕ) (ks : List ℕ) → All (Window put) ks → All (Within (put - 256) 257) ks
within put [] all = tt
within put (k ∷ ks) all = ((omega (arith, all.0.0), omega (arith, all.0.1)), within put ks all.1)

-- At most 257 results wait for a proposer, after any moves of proposers and of the apply loop from the
-- start in which the applied indices do not go back and stay 256 below 2 ^ 64.
pub recent_bounded :
    (moves : List Move) → Rising 0 moves → length (run no_waiting moves).recent ≤ 257
recent_bounded moves rising =
    let (last, t) =
      run-Tidy moves 0 no_waiting rising
        (record { put = 0; past = omega arith; distinct = tt; window = tt }) in
    omega (
      arith,
      length-keys (run no_waiting moves).recent,
      length-Within (t.put - 256) 257 (keys (run no_waiting moves).recent) t.distinct
          (within t.put (keys (run no_waiting moves).recent) t.window),
    )
