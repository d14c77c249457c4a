-- ===== src/Kv/Cluster/Waiting.antt =====
-- internal/kv/cluster.go: the proposers that wait for the result of an index, and the results that wait
-- for their proposer.
pub mod Answered
pub mod Recent
use kill_my_cluster.Prelude.{ℕ, ◌+◌, Option, none, some, List, [], ◌∷◌, ltb, if◌then◌else◌, nat_eq}
use kill_my_cluster.Prelude.Bytes.{add64}
use kill_my_cluster.Prelude.Map.{Map}
use kill_my_cluster.Prelude.Map
use kill_my_cluster.Kv.Command.{ApplyResult}

-- The fields under waitMu. A channel is a number, in the order of their making, and has room for the
-- one result that is sent to it; `sent` is what is in them.
pub record Waiters : Type 0 where
  pub waiters : Map ℕ ℕ
  pub recent : Map ℕ ApplyResult
  pub sent : Map ℕ ApplyResult
  pub made : ℕ

abbrev pub no_waiting : Waiters
no_waiting = record { waiters = []; recent = []; sent = []; made = 0 }

-- The results that are not far behind the applied index.
unfoldable pub purge : ℕ → Map ℕ ApplyResult → Map ℕ ApplyResult
purge index [] = []
purge index ((idx, r) ∷ recent) =
    let rest = purge index recent in if ltb (add64 idx 256) index then rest else (idx, r) ∷ rest

abbrev pub settle_for : Option ℕ → ℕ → ApplyResult → Waiters → Waiters
settle_for (some ch) index res w = record w {
  waiters = Map.remove index w.waiters;
  sent = Map.put ch res w.sent;
}
settle_for none index res w = record w { recent = purge index (Map.put index res w.recent) }

-- handleApply's block under waitMu.
unfoldable pub settle : ℕ → ApplyResult → Waiters → Waiters
unfolding purge
settle index res w = settle_for (Map.get index w.waiters) index res w

-- What a proposer finds: the result, or the channel to wait on.
pub data Answer : Type 0 where
  ready : ApplyResult → Answer
  wait : ℕ → Answer

abbrev pub await_with : Option ApplyResult → ℕ → Waiters → Waiters × Answer
await_with (some res) index w = (record w { recent = Map.remove index w.recent }, ready res)
await_with none index w =
    (record w { waiters = Map.put index w.made w.waiters; made = w.made + 1 }, wait w.made)

-- propose, once Raft has given it an index.
unfoldable pub await : ℕ → Waiters → Waiters × Answer
await index w = await_with (Map.get index w.recent) index w

-- propose, when its context ends.
unfoldable pub abandon : ℕ → Waiters → Waiters
abandon index w = record w { waiters = Map.remove index w.waiters }

abbrev pub expire_with : Option ApplyResult → ℕ → Waiters → Waiters
expire_with none index w = w
expire_with (some res) index w = record w { recent = Map.remove index w.recent }

-- propose, after 5 seconds: the result may still be there, or it proposes again.
unfoldable pub expire : ℕ → Waiters → Waiters × Option ApplyResult
unfolding abandon
expire index w =
    (expire_with (Map.get index w.recent) index (abandon index w), Map.get index w.recent)
