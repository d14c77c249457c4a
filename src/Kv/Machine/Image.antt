-- ===== src/Kv/Machine/Image.antt =====
-- Snapshot and Restore (internal/kv/machine.go): the state that a Raft snapshot carries.
pub mod Restore
use kill_my_cluster.Prelude.{
  ℕ, ◌≡◌, refl, ap, ◌∙◌, sym, subst, Bool, true, false, Option, none, some, List, [], ◌∷◌, ◌++◌,
  All, ◌==◌, length, if◌then◌else◌, arith, list_eq, beq, if_case, Bool-cases, inl, inr,
  Option-cases,
}
use mathlib.Core.Path.{ap₂}
use kill_my_cluster.Prelude.Bytes.{Bytes}
use kill_my_cluster.Prelude.Map.{Map}
use kill_my_cluster.Prelude.Map
use kill_my_cluster.Kv.Command.{Command, ApplyResult}
use kill_my_cluster.Kv.Machine.{
  DedupKey, dedup_eq, Machine, Applied, counted, counted_max, sweep_due, new_machine, stale, sweep,
  sweep_dedup, tracked, key_of, remember, execute, cas, apply_fresh, apply_seen, apply, replay,
}

-- snapshotData
pub record SnapshotData : Type 0 where
  pub data_map : Map Bytes Bytes
  pub applied : Map DedupKey ApplyResult
  pub max_req : Map Bytes ℕ
  pub apply_count : ℕ

abbrev pub copy_result : ApplyResult → ApplyResult
copy_result r = if length r.value == 0 then r else record r { duplicate = false }

unfoldable pub copy_applied : Map DedupKey ApplyResult → Map DedupKey ApplyResult
copy_applied [] = []
copy_applied ((k, r) ∷ applied) = (k, copy_result r) ∷ copy_applied applied

-- What Snapshot hands to the gob encoder.
unfoldable pub snapshot_data : Machine → SnapshotData
unfolding copy_applied
snapshot_data m = record {
  data_map = m.data_map;
  applied = copy_applied m.applied;
  max_req = m.max_req;
  apply_count = m.apply_count;
}

-- encoding/gob, by a parameter: `none` is an error.
module _ (gob_encode : SnapshotData → Option Bytes) where
  unfoldable pub snapshot : Machine → Option Bytes
  unfolding snapshot_data
  snapshot m = gob_encode (snapshot_data m)

abbrev pub restore_from : Option SnapshotData → Machine → Machine × Bool
restore_from none m = (m, false)
restore_from (some snap) m = (
  record m {
    data_map = snap.data_map;
    applied = snap.applied;
    max_req = snap.max_req;
    apply_count = snap.apply_count;
  },
  true,
)

module _ (gob_decode : Bytes → Option SnapshotData) where
  -- The bool says that no error was returned.
  unfoldable pub restore : Bytes → Machine → Machine × Bool
  restore raw m = restore_from (gob_decode raw) m
