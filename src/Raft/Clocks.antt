-- ===== src/Raft/Clocks.antt =====
-- internal/raft/node.go: the protocol clocks that a node is given, and its election timeout. Durations
-- are int64 numbers of nanoseconds: sums wrap at 2 ^ 64, and what is 2 ^ 63 or more is negative.
mod Tests
pub mod Bounds
use kill_my_cluster.Prelude.{
  ℕ, zero, suc, ◌+◌, ◌*◌, ◌/◌, ◌%◌, ◌^◌, ◌||◌, leb, if◌then◌else◌, Option, none, some, List,
}
use kill_my_cluster.Raft.Disk.{Disk}
use kill_my_cluster.Raft.Node.{Node, Env, Timings, new_node}

-- A duration may be negative: -1 - n is `negsuc n`.
pub data ℤ : Type 0 where
  pos : ℕ → ℤ
  negsuc : ℕ → ℤ

-- Timings as they are configured.
pub record RawTimings : Type 0 where
  pub election_timeout_min : ℤ
  pub election_timeout_max : ℤ
  pub heartbeat_interval : ℤ
  pub tick_interval : ℤ
  pub commit_stall_timeout : ℤ

-- Timings as they are used: those of the node, and those of its loops.
pub record FullTimings : Type 0 where
  pub tm : Timings
  pub heartbeat_interval : ℕ
  pub tick_interval : ℕ

abbrev pub millisecond : ℕ
millisecond = 1000000

abbrev pub or_default : ℕ → ℤ → ℕ
or_default d (pos zero) = d
or_default d (pos (suc n)) = suc n
or_default d (negsuc n) = d

-- A maximum that is not above the minimum is half as long again, or a millisecond more.
abbrev pub repaired : ℕ → ℕ
repaired least =
    let longer = (least + least / 2) % 2 ^ 64 in
    if leb longer least || leb (2 ^ 63) longer then (least + millisecond) % 2 ^ 64 else longer

abbrev pub above : ℕ → ℤ → ℕ
above least (pos n) = if leb n least then repaired least else n
above least (negsuc n) = repaired least

-- 0 stands for the default, and a negative timeout turns the watchdog off.
abbrev pub stall_timeout : ℤ → Option ℕ
stall_timeout (pos zero) = some (30000 * millisecond)
stall_timeout (pos (suc n)) = some (suc n)
stall_timeout (negsuc n) = none

unfoldable pub with_defaults : RawTimings → FullTimings
with_defaults t =
    let least = or_default (750 * millisecond) t.election_timeout_min in
    record {
      tm = record {
        election_timeout_min = least;
        election_timeout_max = above least t.election_timeout_max;
        commit_stall_timeout = stall_timeout t.commit_stall_timeout;
      };
      heartbeat_interval = or_default (150 * millisecond) t.heartbeat_interval;
      tick_interval = or_default (25 * millisecond) t.tick_interval;
    }

-- cfg.SnapshotRetain: 0 stands for the default, and a negative one keeps nothing.
abbrev pub retained : ℤ → ℕ
retained (pos zero) = 1024
retained (pos (suc n)) = suc n
retained (negsuc n) = 0

-- NewNode on a configuration.
unfoldable pub configured_node : Env → ℕ → List ℕ → RawTimings → ℤ → Disk → Node
unfolding with_defaults new_node
configured_node env id peers raw retain disk =
    new_node env id peers (with_defaults raw).tm (retained retain) disk
