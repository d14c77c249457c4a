-- ===== src/Raft/Mirror/Life.antt =====
-- internal/raft/node.go and persist.go: a crash and a restart of a node whose writes have succeeded.
use kill_my_cluster.Prelude.{ℕ, ◌+◌, ◌-◌, ◌≤◌, ◌<◌, ◌≡◌, ap, ◌∙◌, sym, subst, List, length, drop}
use kill_my_cluster.Prelude.Bytes.{Bytes, u64_mod}
use kill_my_cluster.Raft.Log.{Entry, marker, first_index, last_index}
use kill_my_cluster.Raft.Node.{
  Node, Env, AppendRequest, VoteRequest, SnapshotRequest, new_node, reset_election_timer,
}
use kill_my_cluster.Raft.Handlers.{
  handle_append_entries, handle_request_vote, handle_install_snapshot, snapshot,
}
use kill_my_cluster.Raft.Leader.{commit_prop_batch}
use kill_my_cluster.Raft.Mirror.{Indexed, Mirrored}
use kill_my_cluster.Raft.Mirror.Handlers.{
  IsMirrored, Succeeds, handle_append_entries-Mirrored, handle_request_vote-Mirrored,
}
use kill_my_cluster.Raft.Mirror.Leader.{
  commit_prop_batch-Mirrored, snapshot-Mirrored, handle_install_snapshot-Mirrored,
}
use kill_my_cluster.Raft.Mirror.Restart.{snapped, recovered, reborn-Mirrored, reborn_log}

-- The operations that write to the log, with writes that succeed; those of the other nodes' requests
-- that are well formed, and batches that do not overflow an index. A restart finds a snapshot that is
-- not behind the log's start.
pub data Works (n : Node) : Node → Type 0 where
  appends :
      (env : Env) (req : AppendRequest)
      → Succeeds env
      → Indexed req.prev_log_index req.entries
      → Works n (handle_append_entries env req n).0
  votes : (env : Env) (req : VoteRequest) → Succeeds env → Works n (handle_request_vote env req n).0
  proposes :
      (env : Env) (batch : List Bytes)
      → Succeeds env
      → last_index n.log + length batch < u64_mod
      → Works n (commit_prop_batch env batch n).0
  compacts :
      (env : Env) (index : ℕ) (payload : Bytes)
      → Succeeds env
      → Works n (snapshot env index payload n).0
  installs :
      (env : Env) (req : SnapshotRequest)
      → Succeeds env
      → Works n (handle_install_snapshot env req n).0
  restarts :
      (env : Env)
      → first_index n.log ≤ (snapped n.persist).index
      → Works n (new_node env n.id n.peers n.tm n.snapshot_retain n.persist)

pub data WorkingLife (start : Node) : Node → Type 0 where
  begins : WorkingLife start start
  goes_on : {n m : Node} → WorkingLife start n → Works n m → WorkingLife start m

Works-IsMirrored : (n m : Node) → Works n m → IsMirrored n → IsMirrored m
unfolding new_node reset_election_timer
Works-IsMirrored n _ (appends env req ok fit) h = handle_append_entries-Mirrored env ok req n fit h
Works-IsMirrored n _ (votes env req ok) h = handle_request_vote-Mirrored env ok req n h
Works-IsMirrored n _ (proposes env batch ok room) h =
    commit_prop_batch-Mirrored env ok batch n room h
Works-IsMirrored n _ (compacts env index payload ok) h = snapshot-Mirrored env ok index payload n h
Works-IsMirrored n _ (installs env req ok) h = handle_install_snapshot-Mirrored env ok req n h
Works-IsMirrored n _ (restarts env within) h =
    subst (λ l. Mirrored l n.persist)
      (sym (reborn_log env n.id n.peers n.tm n.snapshot_retain n.persist))
      (reborn-Mirrored n.log n.persist h within)

WorkingLife-IsMirrored : (start n : Node) → IsMirrored start → WorkingLife start n → IsMirrored n
WorkingLife-IsMirrored start _ h begins = h
WorkingLife-IsMirrored start _ h (goes_on {n = n} {m = m} life s) =
    Works-IsMirrored n m s (WorkingLife-IsMirrored start n h life)

-- A restart loses nothing of the log: after any life of append, vote and snapshot requests, batches of
-- proposals, compactions and restarts, where the writes succeed, requests' entries have consecutive
-- indexes after prevLogIndex, batches do not overflow an index, and the snapshot on disk is not behind
-- the log's start when a node restarts: the log of the restarted node begins at the snapshot, and has the
-- entries past it that the node had in memory, all of them and no others.
pub restart-log :
    (start n : Node) (env : Env)
    → IsMirrored start
    → WorkingLife start n
    → first_index n.log ≤ (snapped n.persist).index
    → (new_node env n.id n.peers n.tm n.snapshot_retain n.persist).log ≡ record {
      sentinel = marker (snapped n.persist).index (snapped n.persist).term;
      reals = drop ((snapped n.persist).index - first_index n.log) n.log.reals;
    }
restart-log start n env h life within =
    reborn_log env n.id n.peers n.tm n.snapshot_retain n.persist
    ∙ ap {A = List Entry}
        (λ xs. record {
          sentinel = marker (snapped n.persist).index (snapped n.persist).term;
          reals = xs;
        })
        (recovered n.log n.persist (WorkingLife-IsMirrored start n h life) within)
