-- ===== src/Raft/Votes/Others.antt =====
-- internal/raft/node.go, replicate.go and batch.go: the record of votes across snapshots, proposals,
-- requests and restarts.
use kill_my_cluster.Prelude.{
  ℕ, ◌≡◌, refl, ap, sym, arith, Bool, true, false, not, ◌&&◌, List, if◌then◌else◌, ltb,
}
use mathlib.Core.Path.{subst₂}
use kill_my_cluster.Raft.Log.{RaftLog, compact_to, first_index, term}
use kill_my_cluster.Raft.Disk.{
  Disk, Outcome, saved, failed, no_vote, append_entries, save_hard_state, save_snapshot,
}
use kill_my_cluster.Raft.Disk
use kill_my_cluster.Raft.Disk.Hard.{
  hard_of, hard_of-append_entries, hard_of-save_snapshot, rewrites,
}
use kill_my_cluster.Raft.Node.{Node, Env, SnapshotRequest, reset_election_timer}
use kill_my_cluster.Raft.Handlers.{
  adopt, hear_leader, handle_install_snapshot, install_snapshot, snapshot, compact_if_there,
  cut_point,
}
use kill_my_cluster.Raft.Votes.{Grant}
use kill_my_cluster.Raft.Votes.Invariant.{
  in_memory, on_disk, Honest, Honest-flushed, Honest-restarted,
}
use kill_my_cluster.Prelude.{if_case, leb, nat_eq}
use kill_my_cluster.Prelude.Bytes.{Bytes}
use kill_my_cluster.Raft.Node.{Timings, new_node}
use kill_my_cluster.Raft.Leader.{assign, commit_prop_batch, replicate_send, send_snapshot}
use kill_my_cluster.Raft.Votes.Moves.{IsHonest, same-IsHonest, adopt-IsHonest}

module _ (gs : List Grant) where
  -- A new log on disk carries the hard state of memory.
  imaged-IsHonest :
      (b : Bool) (n m : Node)
      → in_memory m ≡ in_memory n
      → on_disk m ≡ (if b then in_memory n else on_disk n)
      → IsHonest gs n
      → IsHonest gs m
  imaged-IsHonest true n m e d h =
      subst₂ (Honest gs) (sym e) (sym d) (Honest-flushed gs (in_memory n) (on_disk n) h)
  imaged-IsHonest false n m e d h = same-IsHonest gs n m e d h

  install_snapshot-IsHonest :
      (env : Env) (req : SnapshotRequest) (n : Node)
      → IsHonest gs n
      → IsHonest gs (install_snapshot env req n)
  unfolding install_snapshot
  install_snapshot-IsHonest env req n h =
      imaged-IsHonest (rewrites env.image_saved) n (install_snapshot env req n) (ground arith)
        (ground (
          arith,
          hard_of-save_snapshot env.image_saved snap n.current_term n.voted_for (l.reals) n.persist,
        ))
        h
    where
      l : RaftLog
      l = compact_to n.log req.last_included_index req.last_included_term

      snap : Disk.Snapshot
      snap = record {
        index = req.last_included_index;
        term = req.last_included_term;
        payload = req.payload;
      }

  pub handle_install_snapshot-IsHonest :
      (env : Env) (req : SnapshotRequest) (n : Node)
      → IsHonest gs n
      → IsHonest gs (handle_install_snapshot env req n).0
  unfolding handle_install_snapshot
  handle_install_snapshot-IsHonest env req n h =
      if_case Q n.stopped _ _ (λ _. h)
        (λ _.
          if_case Q (ltb req.term n'.current_term) _ _ (λ _. adopted)
            (λ _.
              if_case Q
                (leb req.last_included_index (hear_leader env req.leader_id n').commit_index) _ _
                (λ _. heard)
                (λ _. install_snapshot-IsHonest env req (hear_leader env req.leader_id n') heard)))
    where
      Q : Node × ℕ → Type 0
      Q r = IsHonest gs r.0

      n' : Node
      n' = adopt env req.term n

      adopted : IsHonest gs n'
      adopted = adopt-IsHonest gs env req.term n h

      heard : IsHonest gs (hear_leader env req.leader_id n')
      heard =
          same-IsHonest gs n' (hear_leader env req.leader_id n') (kept_memory n')
            (ap hard_of (kept_disk n')) adopted
        where
          kept_memory : (m : Node) → in_memory (hear_leader env req.leader_id m) ≡ in_memory m
          kept_memory m = unfold hear_leader reset_election_timer in refl

          kept_disk : (m : Node) → (hear_leader env req.leader_id m).persist ≡ m.persist
          kept_disk m = unfold hear_leader reset_election_timer in refl

  pub snapshot-IsHonest :
      (env : Env) (index : ℕ) (payload : Bytes) (n : Node)
      → IsHonest gs n
      → IsHonest gs (snapshot env index payload n).0
  unfolding snapshot
  snapshot-IsHonest env index payload n h =
      imaged-IsHonest (took && rewrites env.image_saved) n (snapshot env index payload n).0
        (ground arith)
        (ground (
          arith,
          hard_of-save_snapshot env.image_saved snap n.current_term n.voted_for (l.reals) n.persist,
        ))
        h
    where
      took : Bool
      took =
          not (leb index (first_index n.log))
          && (not (ltb n.last_applied index) && (term n.log index).1)

      l : RaftLog
      l = compact_if_there n.log (cut_point n.snapshot_retain index)

      snap : Disk.Snapshot
      snap = record { index = index; term = (term n.log index).0; payload = payload }

  pub commit_prop_batch-IsHonest :
      (env : Env) (batch : List Bytes) (n : Node)
      → IsHonest gs n
      → IsHonest gs (commit_prop_batch env batch n).0
  unfolding commit_prop_batch
  commit_prop_batch-IsHonest env batch n h =
      same-IsHonest gs n (commit_prop_batch env batch n).0 (ground arith)
        (ground (
          arith,
          hard_of-append_entries env.entries_saved (assign n.current_term n.log batch).1 n.persist,
        ))
        h

  pub replicate_send-IsHonest :
      (peer t : ℕ) (n : Node) → IsHonest gs n → IsHonest gs (replicate_send peer t n).0
  unfolding replicate_send send_snapshot
  replicate_send-IsHonest peer t n h =
      same-IsHonest gs n (replicate_send peer t n).0 (ground arith) (ground arith) h

  -- A restart remembers what the disk does.
  pub new_node-IsHonest :
      (env : Env) (id : ℕ) (peers : List ℕ) (tm : Timings) (retain : ℕ) (n : Node)
      → IsHonest gs n
      → IsHonest gs (new_node env id peers tm retain n.persist)
  unfolding new_node reset_election_timer
  new_node-IsHonest env id peers tm retain n h = Honest-restarted gs (in_memory n) (on_disk n) h
