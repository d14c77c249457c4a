-- ===== src/Raft/Node.antt =====
-- internal/raft/node.go: a node's state and the transitions that its handlers share. Times and
-- durations are in nanoseconds.
use kill_my_cluster.Prelude.{
  nat_eq, ℕ, ◌+◌, ◌-◌, ◌*◌, ◌/◌, ◌%◌, ◌^◌, min, not, ◌==◌, Bool, true, false, ◌&&◌, Option, none,
  some, List, [], ltb, if◌then◌else◌, length,
}
use kill_my_cluster.Prelude.Bytes.{Bytes}
use kill_my_cluster.Prelude.Map.{Map}
use kill_my_cluster.Raft.Log.{Entry, RaftLog, new_raft_log, append}
use kill_my_cluster.Raft.Disk.{
  Disk, Outcome, SnapshotOutcome, Snapshot, no_vote, no_snapshot, save_hard_state, recover,
}

pub data Role : Type 0 where
  follower candidate leader : Role

-- A negative commit-stall timeout, which turns the watchdog off, is `none`.
pub record Timings : Type 0 where
  pub election_timeout_min : ℕ
  pub election_timeout_max : ℕ
  pub commit_stall_timeout : Option ℕ

-- One replicator loop: the peer, and the term of the leadership that started it.
pub record Replicator : Type 0 where
  pub peer : ℕ
  pub term : ℕ

pub record Node : Type 0 where
  pub id : ℕ
  pub peers : List ℕ
  pub tm : Timings
  pub snapshot_retain : ℕ
  pub persist : Disk
  pub snap_cache : Snapshot
  pub current_term : ℕ
  pub voted_for : ℕ
  pub log : RaftLog
  pub role : Role
  pub leader_id : ℕ
  pub commit_index : ℕ
  pub last_applied : ℕ
  pub election_reset : ℕ
  pub election_timeout : ℕ
  pub election_attempts : ℕ
  pub pre_vote_round : ℕ
  -- the `votes` of the poll that runs: the current pre-vote round, and the current election
  pub pre_votes : ℕ
  pub votes : ℕ
  pub next_index : Map ℕ ℕ
  pub match_index : Map ℕ ℕ
  pub last_contact : Map ℕ ℕ
  pub last_quorum_check : ℕ
  -- the zero time is `none`
  pub last_commit_progress : Option ℕ
  pub last_progress_index : ℕ
  pub commit_stall_stepdowns : ℕ
  pub repls : List Replicator
  pub pending_snapshot : Option Snapshot
  -- the zero time is 0: no clock reads less
  pub read_lease_until : ℕ
  pub stopped : Bool

-- What a call reads from outside: the clock, a random number, and how its writes end.
pub record Env : Type 0 where
  pub now : ℕ
  pub random : ℕ
  pub term_saved : Outcome
  pub vote_saved : Outcome
  pub truncation_saved : Outcome
  pub entries_saved : Outcome
  pub image_saved : SnapshotOutcome

pub record VoteRequest : Type 0 where
  pub term : ℕ
  pub candidate_id : ℕ
  pub last_log_index : ℕ
  pub last_log_term : ℕ
  pub pre_vote : Bool

pub record VoteResponse : Type 0 where
  pub term : ℕ
  pub vote_granted : Bool

pub record AppendRequest : Type 0 where
  pub term : ℕ
  pub leader_id : ℕ
  pub prev_log_index : ℕ
  pub prev_log_term : ℕ
  pub entries : List Entry
  pub leader_commit : ℕ

pub record AppendResponse : Type 0 where
  pub term : ℕ
  pub success : Bool
  pub conflict_index : ℕ
  pub conflict_term : ℕ

pub record SnapshotRequest : Type 0 where
  pub term : ℕ
  pub leader_id : ℕ
  pub last_included_index : ℕ
  pub last_included_term : ℕ
  pub payload : Bytes

abbrev pub is_leader : Role → Bool
is_leader leader = true
is_leader _ = false

abbrev pub is_follower : Role → Bool
is_follower follower = true
is_follower _ = false

abbrev pub is_candidate : Role → Bool
is_candidate candidate = true
is_candidate _ = false

-- m[k] of a map of numbers: 0 for a key that is not there.
abbrev pub at_or_zero : Option ℕ → ℕ
at_or_zero none = 0
at_or_zero (some v) = v

abbrev pub majority : Node → ℕ
majority n = (length n.peers + 1) / 2 + 1

-- The range of rand.Int63n, an int64 in two's complement: it doubles with each failed round, up to 8
-- times. Int63n panics on a range that is not between 1 and 2 ^ 63 - 1.
abbrev pub timeout_range : Node → ℕ
timeout_range n =
    (n.tm.election_timeout_max + 2 ^ 64 - n.tm.election_timeout_min)
    * 2 ^ min n.election_attempts 3
    % 2 ^ 64

unfoldable pub reset_election_timer : Env → Node → Node
reset_election_timer env n = record n {
  election_reset = env.now;
  election_timeout = (n.tm.election_timeout_min + env.random % timeout_range n) % 2 ^ 64;
}

abbrev pub heard_leader_recently : Env → Node → Bool
heard_leader_recently env n =
    not (n.leader_id == 0) && ltb env.now (n.election_reset + n.tm.election_timeout_min)

-- A failure to save the term is not looked at.
unfoldable pub become_follower : Env → ℕ → Node → Node
unfolding reset_election_timer save_hard_state
become_follower env term n = reset_election_timer env (record n {
  current_term = term;
  role = follower;
  voted_for = no_vote;
  read_lease_until = 0;
  persist = (save_hard_state env.term_saved term no_vote n.persist).0;
})

-- Neither the term nor the vote changes.
unfoldable pub step_down : Env → Node → Node
unfolding reset_election_timer
step_down env n =
    reset_election_timer env (record n { role = follower; leader_id = 0; read_lease_until = 0 })

-- A restart: what NewNode makes of the recovered state, with the volatile fields at zero.
unfoldable pub new_node : Env → ℕ → List ℕ → Timings → ℕ → Disk → Node
unfolding recover append reset_election_timer
new_node env id peers tm retain disk =
    let st = recover disk in
    reset_election_timer env (record {
      id = id;
      peers = peers;
      tm = tm;
      snapshot_retain = retain;
      persist = disk;
      snap_cache = no_snapshot;
      current_term = st.term;
      voted_for = st.voted_for;
      log = append (new_raft_log st.snap.index st.snap.term) st.entries;
      role = follower;
      leader_id = 0;
      commit_index = st.snap.index;
      last_applied = st.snap.index;
      election_reset = 0;
      election_timeout = 0;
      election_attempts = 0;
      pre_vote_round = 0;
      pre_votes = 0;
      votes = 0;
      next_index = [];
      match_index = [];
      last_contact = [];
      last_quorum_check = 0;
      last_commit_progress = none;
      last_progress_index = 0;
      commit_stall_stepdowns = 0;
      repls = [];
      pending_snapshot = if ltb 0 st.snap.index then some st.snap else none;
      read_lease_until = 0;
      stopped = false;
    })
