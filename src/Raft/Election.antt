-- ===== src/Raft/Election.antt =====
-- internal/raft/node.go: the election timer, pre-votes, elections, and the leader's watchdogs.
use kill_my_cluster.Prelude.{
  nat_eq, ℕ, suc, ◌+◌, not, ◌==◌, Bool, true, false, ◌||◌, Option, none, some, List, [], ◌∷◌, map,
  leb, ltb, if◌then◌else◌,
}
use kill_my_cluster.Prelude.Bytes.{add64}
use kill_my_cluster.Prelude.Map.{Map}
use kill_my_cluster.Prelude.Map
use kill_my_cluster.Raft.Log.{last_index, last_term}
use kill_my_cluster.Raft.Disk.{save_hard_state}
use kill_my_cluster.Raft.Node.{
  Node, Env, VoteRequest, VoteResponse, follower, candidate, leader, is_leader, is_follower,
  is_candidate, majority, reset_election_timer, become_follower, step_down,
}
use kill_my_cluster.Raft.Leader.{note_progress}

abbrev fill : ℕ → List ℕ → Map ℕ ℕ → Map ℕ ℕ
fill v [] m = m
fill v (p ∷ ps) m = fill v ps (Map.put p v m)

-- becomeLeaderLocked; its replicator loops start here.
unfoldable pub become_leader : Env → Node → Node
become_leader env n = record n {
  role = leader;
  leader_id = n.id;
  election_attempts = 0;
  next_index = fill (add64 (last_index n.log) 1) n.peers [];
  match_index = fill 0 n.peers [];
  last_contact = fill env.now n.peers [];
  last_quorum_check = env.now;
  last_commit_progress = some env.now;
  last_progress_index = n.commit_index;
  read_lease_until = 0;
  repls = map (λ p. record { peer = p; term = n.current_term }) n.peers;
}

-- The request goes to every peer; `none` where nothing is sent.
abbrev pub Polling : Type 0
Polling = Node × Option VoteRequest

vote_request : ℕ → Bool → Node → VoteRequest
vote_request t pre n = record {
  term = t;
  candidate_id = n.id;
  last_log_index = last_index n.log;
  last_log_term = last_term n.log;
  pre_vote = pre;
}

unfoldable pub start_election : Env → Node → Polling
unfolding vote_request become_leader
start_election env n =
    let standing = reset_election_timer env (record n {
      role = candidate;
      current_term = add64 n.current_term 1;
      voted_for = n.id;
      leader_id = 0;
    }) in
    let (disk, saved) =
      save_hard_state env.vote_saved standing.current_term standing.voted_for n.persist in
    let polling = record standing { persist = disk; votes = 1 } in
    if not saved
    then (record standing { persist = disk; role = follower }, none)
    else if leb (majority n) 1
    then (become_leader env polling, none)
    else (polling, some (vote_request polling.current_term false polling))

unfoldable pub start_pre_vote : Env → Node → Polling
unfolding vote_request
start_pre_vote env n =
    let polling =
      record (reset_election_timer env (record n { election_attempts = n.election_attempts + 1 })) {
        pre_vote_round = add64 n.pre_vote_round 1;
        pre_votes = 1;
      } in
    if leb (majority n) 1
    then start_election env polling
    else (polling, some (vote_request (add64 n.current_term 1) true polling))

-- An answer to the poll of round `round`, which began in term `t`.
unfoldable pub pre_vote_response : Env → ℕ → ℕ → VoteResponse → Node → Polling
pre_vote_response env t round resp n =
    let counted = record n { pre_votes = n.pre_votes + 1 } in
    if n.stopped
    then (n, none)
    else if ltb n.current_term resp.term
    then (become_follower env resp.term n, none)
    else if not (is_follower n.role)
        || (not (n.current_term == t) || (not (n.pre_vote_round == round) || not resp.vote_granted))
    then (n, none)
    else if counted.pre_votes == majority n
    then start_election env counted
    else (counted, none)

-- An answer to the election of term `t`.
unfoldable pub vote_response : Env → ℕ → VoteResponse → Node → Node
unfolding become_leader
vote_response env t resp n =
    let counted = record n { votes = n.votes + 1 } in
    if n.stopped
    then n
    else if ltb n.current_term resp.term
    then become_follower env resp.term n
    else if not (is_candidate n.role) || (not (n.current_term == t) || not resp.vote_granted)
    then n
    else if counted.votes == majority n
    then become_leader env counted
    else counted

-- The peers that answered within the election timeout; one that never did has the zero time.
abbrev recent : ℕ → ℕ → Option ℕ → Bool
recent now timeout none = false
recent now timeout (some t) = ltb now (t + timeout)

unfoldable pub active_peers : ℕ → List ℕ → Node → ℕ
active_peers now [] n = 0
active_peers now (p ∷ ps) n =
    let rest = active_peers now ps n in
    if recent now n.tm.election_timeout_max (Map.get p n.last_contact) then suc rest else rest

unfoldable pub quorum_active : ℕ → Node → Bool
unfolding active_peers
quorum_active now n = leb (majority n) (1 + active_peers now n.peers n)

-- No progress is known since the last look.
abbrev progress_unknown : Node → Bool
progress_unknown n = elim n.last_commit_progress [
  | none ↦ true
  | some t ↦ not (n.commit_index == n.last_progress_index)
]

abbrev stalled_since : ℕ → ℕ → Option ℕ → Bool
stalled_since now timeout none = true
stalled_since now timeout (some t) = not (ltb now (t + timeout))

-- checkCommitStallLocked behind the test of the timeout's sign.
unfoldable pub commit_stall : Env → ℕ → Node → Node
unfolding quorum_active
commit_stall env timeout n =
    if leb (last_index n.log) n.commit_index
    then note_progress env.now n
    else if progress_unknown n
    then note_progress env.now n
    else if not (stalled_since env.now timeout n.last_commit_progress)
    then n
    else if not (quorum_active env.now n)
    then n
    else step_down env (record n { commit_stall_stepdowns = add64 n.commit_stall_stepdowns 1 })

abbrev check_stall_with : Env → Node → Option ℕ → Node
check_stall_with env n none = n
check_stall_with env n (some timeout) = commit_stall env timeout n

unfoldable pub check_commit_stall : Env → Node → Node
unfolding commit_stall
check_commit_stall env n = check_stall_with env n n.tm.commit_stall_timeout

-- One tick of runElectionTimer.
unfoldable pub tick : Env → Node → Polling
unfolding check_commit_stall quorum_active
tick env n =
    let checked = record n { last_quorum_check = env.now } in
    let due = not (ltb env.now (n.last_quorum_check + n.tm.election_timeout_max)) in
    if n.stopped
    then (n, none)
    else if is_leader n.role
    then (if due
        then (if quorum_active env.now checked
            then (check_commit_stall env checked, none)
            else (step_down env checked, none))
        else (check_commit_stall env n, none))
    else if ltb env.now (n.election_reset + n.election_timeout)
    then (n, none)
    else start_pre_vote env n
