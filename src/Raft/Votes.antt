-- ===== src/Raft/Votes.antt =====
-- Who a node has voted for, over its whole life: handlers, elections, timeouts, crashes, restarts.
pub mod Invariant
pub mod Moves
pub mod Voting
pub mod Standing
pub mod Others
pub mod Responses
pub mod Once
pub mod Retry
use kill_my_cluster.Prelude.{
  ℕ, ◌+◌, ◌<◌, ◌≡◌, ◌⊎◌, Bool, true, false, not, ◌&&◌, List, [], ◌∷◌, ◌++◌, Option, none, some,
  if◌then◌else◌, ltb,
}
use kill_my_cluster.Prelude.Bytes.{Bytes, u64_mod}
use kill_my_cluster.Raft.Disk.{Disk, Outcome, saved, no_vote}
use kill_my_cluster.Raft.Node.{
  Node, Env, Timings, VoteRequest, VoteResponse, AppendRequest, AppendResponse, SnapshotRequest,
  new_node, is_follower,
}
use kill_my_cluster.Raft.Handlers.{
  handle_request_vote, handle_append_entries, handle_install_snapshot, snapshot,
}
use kill_my_cluster.Raft.Leader.{
  commit_prop_batch, replicate_send, append_response, snapshot_response,
}
use kill_my_cluster.Raft.Election.{tick, pre_vote_response, vote_response}

-- A vote that the node has told somebody of.
pub record Grant : Type 0 where
  pub term : ℕ
  pub candidate : ℕ

-- A pre-vote binds nothing.
abbrev pub granted : VoteRequest → Node × VoteResponse → List Grant
granted req (n, resp) =
    if not req.pre_vote && resp.vote_granted
    then record { term = resp.term; candidate = req.candidate_id } ∷ []
    else []

-- A node that has become a candidate, or at once a leader, in a new term has voted for itself.
abbrev pub stood : Node → Node → List Grant
stood n m =
    if not (is_follower m.role) && ltb n.current_term m.current_term
    then record { term = m.current_term; candidate = m.id } ∷ []
    else []

-- One step of a node, and the votes that it gives. Candidates' ids are not 0, terms do not reach
-- 2 ^ 64, and a vote is not asked for again while the disk fails.
pub data Step (n : Node) : List Grant → Node → Type 0 where
  votes :
      (env : Env) (req : VoteRequest)
      → (0 < req.candidate_id)
      → (n.voted_for ≡ no_vote) ⊎ (env.vote_saved ≡ saved)
      → Step n (granted req (handle_request_vote env req n)) (handle_request_vote env req n).0
  ticks :
      (env : Env)
      → 0 < n.id
      → n.current_term + 1 < u64_mod
      → Step n (stood n (tick env n).0) (tick env n).0
  hears_pre_vote :
      (env : Env) (term round : ℕ) (resp : VoteResponse)
      → 0 < n.id
      → n.current_term + 1 < u64_mod
      → Step n
          (stood n (pre_vote_response env term round resp n).0)
          (pre_vote_response env term round resp n).0
  appends : (env : Env) (req : AppendRequest) → Step n [] (handle_append_entries env req n).0
  installs : (env : Env) (req : SnapshotRequest) → Step n [] (handle_install_snapshot env req n).0
  compacts : (env : Env) (index : ℕ) (payload : Bytes) → Step n [] (snapshot env index payload n).0
  proposes : (env : Env) (batch : List Bytes) → Step n [] (commit_prop_batch env batch n).0
  hears_snapshot :
      (env : Env) (peer term index resp_term : ℕ)
      → Step n [] (snapshot_response env peer term index resp_term n).0
  sends : (peer term : ℕ) → Step n [] (replicate_send peer term n).0
  hears_append :
      (env : Env) (peer term : ℕ) (req : AppendRequest) (resp : AppendResponse)
      → Step n [] (append_response env peer term req resp n).0
  hears_vote :
      (env : Env) (term : ℕ) (resp : VoteResponse) → Step n [] (vote_response env term resp n)
  restarts : (env : Env) → Step n [] (new_node env n.id n.peers n.tm n.snapshot_retain n.persist)

-- A life of the node, the last vote first.
pub data Life (start : Node) : List Grant → Node → Type 0 where
  begins : Life start [] start
  goes_on :
      {gs hs : List Grant} {n m : Node} → Life start gs n → Step n hs m → Life start (hs ++ gs) m
