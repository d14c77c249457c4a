-- ===== src/Raft/Applier.antt =====
-- internal/raft/node.go: the applier, which hands committed entries to the state machine.
pub mod Order
use kill_my_cluster.Prelude.{
  ℕ, zero, suc, ◌+◌, ◌-◌, Option, none, some, List, [], ◌∷◌, if◌then◌else◌,
}
use kill_my_cluster.Raft.Log.{Entry, RaftLog, entry}
use kill_my_cluster.Raft.Disk.{Snapshot}
use kill_my_cluster.Raft.Node.{Node}

pub data ApplyMsg : Type 0 where
  command : Entry → ApplyMsg
  snapshot : Snapshot → ApplyMsg

-- The loop over i = lastApplied + 1, ..., commitIndex, in `rounds` rounds.
unfoldable pub collect : RaftLog → ℕ → ℕ → List ApplyMsg
collect l i zero = []
collect l i (suc rounds) = command (entry l i) ∷ collect l (i + 1) rounds

abbrev pub deliver : Option Snapshot → Node → Node × List ApplyMsg
deliver (some snap) n = (record n { pending_snapshot = none }, snapshot snap ∷ [])
deliver none n = (
  record n { last_applied = n.commit_index },
  collect n.log (n.last_applied + 1) (n.commit_index - n.last_applied),
)

-- A pass of the loop of runApplier, once it is awake, and what it sends on the apply channel.
unfoldable pub apply_pass : Node → Node × List ApplyMsg
unfolding collect
apply_pass n = if n.stopped then (n, []) else deliver n.pending_snapshot n
