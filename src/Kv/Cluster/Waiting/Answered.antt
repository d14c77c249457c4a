-- ===== src/Kv/Cluster/Waiting/Answered.antt =====
-- internal/kv/cluster.go: a proposer and the result at its index, among other proposers and results.
use kill_my_cluster.Prelude.{
  ℕ, ◌+◌, ◌<◌, ◌≡◌, refl, ◌∙◌, Bool, true, not, ◌&&◌, none, some, List, [], ◌∷◌, leb, ltb, ◌==◌,
  if◌then◌else◌, nat_eq, arith, All, Option-cases, inl, inr,
}
use mathlib.Core.List.{foldl}
use kill_my_cluster.Prelude.Bytes.{u64_mod, add64}
use kill_my_cluster.Prelude.Map.{Map, get-put, get-put_self, get-remove}
use kill_my_cluster.Prelude.Map
use kill_my_cluster.Kv.Command.{ApplyResult}
use kill_my_cluster.Kv.Cluster.Waiting.{Waiters, purge, settle, ready, wait, await, abandon, expire}

-- What the apply loop and the proposers do, at an index.
pub data Move : Type 0 where
  applies : ℕ → ApplyResult → Move
  awaits abandons expires : ℕ → Move

abbrev pub after : Waiters → Move → Waiters
after w (applies j res) = settle j res w
after w (awaits j) = (await j w).0
after w (abandons j) = abandon j w
after w (expires j) = (expire j w).0

abbrev pub run : Waiters → List Move → Waiters
run w moves = foldl after w moves

-- A move at another index, that is at most 256 past this one where it applies.
abbrev pub elsewhere : ℕ → Move → Bool
elsewhere idx (applies j res) = not (j == idx) && leb j (idx + 256)
elsewhere idx (awaits j) = not (j == idx)
elsewhere idx (abandons j) = not (j == idx)
elsewhere idx (expires j) = not (j == idx)

abbrev pub Elsewhere : ℕ → List Move → Type 0
Elsewhere idx moves = All (λ m. elsewhere idx m ≡ true) moves

pub get-purge :
    (index k : ℕ) (recent : Map ℕ ApplyResult)
    → Map.get k (purge index recent) ≡ (if ltb (add64 k 256) index then none else Map.get k recent)
unfolding purge Map.get
get-purge index k [] = ground arith
get-purge index k ((j, r) ∷ recent) = ground (arith, get-purge index k recent)

module _ (idx : ℕ) (room : idx + 256 < u64_mod) where
  -- A result that waits stays.
  recent-settle :
      (j : ℕ) (res r : ApplyResult) (w : Waiters)
      → elsewhere idx (applies j res) ≡ true
      → Map.get idx w.recent ≡ some r
      → Map.get idx (settle j res w).recent ≡ some r
  unfolding settle
  recent-settle j res r w e h = elim (Option-cases (Map.get j w.waiters)) [
    | inr (ch, found) ↦ rw (found) h
    | inl absent ↦
        rw (absent)
          (get-purge j idx (Map.put j res w.recent) ∙ ground (arith, get-put j idx res w.recent))
  ]

  recent-after :
      (m : Move) (r : ApplyResult) (w : Waiters)
      → elsewhere idx m ≡ true
      → Map.get idx w.recent ≡ some r
      → Map.get idx (after w m).recent ≡ some r
  unfolding await abandon expire
  recent-after (applies j res) r w e h = recent-settle j res r w e h
  recent-after (awaits j) r w e h = elim (Option-cases (Map.get j w.recent)) [
    | inr (x, found) ↦ rw (found, after) (ground (arith, get-remove j idx w.recent))
    | inl absent ↦ rw (absent, after) h
  ]
  recent-after (abandons j) r w e h = h
  recent-after (expires j) r w e h = elim (Option-cases (Map.get j w.recent)) [
    | inr (x, found) ↦ rw (found, after) (ground (arith, get-remove j idx w.recent))
    | inl absent ↦ rw (absent, after) h
  ]

  recent-run :
      (moves : List Move) (r : ApplyResult) (w : Waiters)
      → Elsewhere idx moves
      → Map.get idx w.recent ≡ some r
      → Map.get idx (run w moves).recent ≡ some r
  recent-run [] r w e h = h
  recent-run (m ∷ moves) r w e h = recent-run moves r (after w m) e.1 (recent-after m r w e.0 h)

  settled-recent :
      (res : ApplyResult) (w : Waiters)
      → Map.get idx w.waiters ≡ none
      → Map.get idx (settle idx res w).recent ≡ some res
  unfolding settle
  settled-recent res w h =
      rw (h) (
        get-purge idx idx (Map.put idx res w.recent)
        ∙ ground (arith, get-put_self idx res w.recent))

-- A proposer that waits goes on waiting.
module _ (idx ch : ℕ) where
  waiters-after :
      (m : Move) (w : Waiters)
      → elsewhere idx m ≡ true
      → Map.get idx w.waiters ≡ some ch
      → Map.get idx (after w m).waiters ≡ some ch
  unfolding await abandon expire settle
  waiters-after (applies j res) w e h = elim (Option-cases (Map.get j w.waiters)) [
    | inr (x, found) ↦ rw (found) (ground (arith, get-remove j idx w.waiters))
    | inl absent ↦ rw (absent) h
  ]
  waiters-after (awaits j) w e h = elim (Option-cases (Map.get j w.recent)) [
    | inr (x, found) ↦ rw (found, after) h
    | inl absent ↦ rw (absent, after) (ground (arith, get-put j idx w.made w.waiters))
  ]
  waiters-after (abandons j) w e h = ground (arith, get-remove j idx w.waiters)
  waiters-after (expires j) w e h = elim (Option-cases (Map.get j w.recent)) [
    | inr (x, found) ↦ rw (found, after) (ground (arith, get-remove j idx w.waiters))
    | inl absent ↦ rw (absent, after) (ground (arith, get-remove j idx w.waiters))
  ]

  waiters-run :
      (moves : List Move) (w : Waiters)
      → Elsewhere idx moves
      → Map.get idx w.waiters ≡ some ch
      → Map.get idx (run w moves).waiters ≡ some ch
  waiters-run [] w e h = h
  waiters-run (m ∷ moves) w e h = waiters-run moves (after w m) e.1 (waiters-after m w e.0 h)

abbrev pub waits : ℕ → Waiters → Waiters
waits idx w = (await idx w).0

-- A result for which nobody waits yet reaches its proposer: where the index is not within 256 of
-- 2 ^ 64, the proposer finds it, after any moves at other indices of which none applies an index more
-- than 256 past it.
pub await-settle :
    (idx : ℕ) (res : ApplyResult) (w : Waiters) (moves : List Move)
    → idx + 256 < u64_mod
    → Elsewhere idx moves
    → Map.get idx w.waiters ≡ none
    → (await idx (run (settle idx res w) moves)).1 ≡ ready res
unfolding await
await-settle idx res w moves room e h =
    rw (recent-run idx room moves res (settle idx res w) e (settled-recent idx room res w h)) refl

-- A proposer that comes before its result waits on a new channel, and the result at its index is put
-- into that channel, after any moves at other indices of which none applies an index more than 256
-- past it: whichever command the result is of.
pub settle-await :
    (idx : ℕ) (res : ApplyResult) (w : Waiters) (moves : List Move)
    → Elsewhere idx moves
    → Map.get idx w.recent ≡ none
    → ((await idx w).1 ≡ wait w.made)
      × (Map.get w.made (settle idx res (run (waits idx w) moves)).sent ≡ some res)
unfolding await settle
settle-await idx res w moves e h =
    (rw (h) refl, delivered (waiters-run idx w.made moves (waits idx w) e registered))
  where
    registered : Map.get idx (waits idx w).waiters ≡ some w.made
    registered = rw (h, waits) (get-put_self idx w.made w.waiters)

    delivered :
        Map.get idx (run (waits idx w) moves).waiters ≡ some w.made
        → Map.get w.made (settle idx res (run (waits idx w) moves)).sent ≡ some res
    delivered there = rw (there) (get-put_self w.made res (run (waits idx w) moves).sent)
