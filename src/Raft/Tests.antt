-- ===== src/Raft/Tests.antt =====
-- Runs of the consensus theorems on a node of a cluster of three.
use kill_my_cluster.Prelude.{
  length, ◌≡◌, ◌≤◌, ◌⊎◌, inr, refl, arith, true, false, none, some, [], ◌∷◌, get_elem?, nat_eq,
}
use kill_my_cluster.Raft.Log.{
  Entry, RaftLog, marker, term, entry, entry_at, compact_to, first_index_of_term,
  last_index_of_term,
}
use kill_my_cluster.Raft.Log.Shape.{IsChained, entry_at-IsChained, compact_to-IsChained}
use kill_my_cluster.Raft.Log.Search.{
  Finds, IsFirstOf, IsLastOf, first_index_of_term-Finds, last_index_of_term-Finds,
}
use kill_my_cluster.Raft.Disk.{Disk, saved, failed, snapshot_saved, save_hard_state, recover}
use kill_my_cluster.Raft.Node.{
  Node, Env, Timings, VoteRequest, AppendRequest, new_node, leader, become_follower,
  reset_election_timer,
}
use kill_my_cluster.Raft.Handlers.{handle_request_vote, handle_append_entries, grant_vote}
use kill_my_cluster.Raft.Leader.{maybe_advance_commit}
use kill_my_cluster.Raft.Commit.{
  Backed, maybe_advance_commit-Backed, handle_append_entries_monotone,
}
use kill_my_cluster.Raft.Votes.{Grant, Life, begins, goes_on, votes}
use kill_my_cluster.Raft.Applier.{apply_pass}
use kill_my_cluster.Raft.Applier.Order.{Delivers, apply_pass-Delivers}
use kill_my_cluster.Raft.Duplicate.{handle_append_entries-Present}
use kill_my_cluster.Raft.Votes.Once.{votes_once}
use kill_my_cluster.Raft.Votes.Retry.{Eligible, second_vote}

abbrev e1 : Entry
e1 = record { index = 1; term = 1; payload = [] }

abbrev e2 : Entry
e2 = record { index = 2; term = 3; payload = [] }

abbrev e3 : Entry
e3 = record { index = 3; term = 3; payload = [] }

abbrev three_entries : RaftLog
three_entries = record { sentinel = marker 0 0; reals = e1 ∷ e2 ∷ e3 ∷ [] }

abbrev three_entries-IsChained : IsChained three_entries
three_entries-IsChained = (refl, omega arith, (refl, omega arith, (refl, omega arith, tt)))

first_index_of_term-Finds_example :
    Finds three_entries 3 (IsFirstOf three_entries 3) (first_index_of_term three_entries 3)
first_index_of_term-Finds_example =
    first_index_of_term-Finds three_entries 3 three_entries-IsChained

last_index_of_term-Finds_example :
    Finds three_entries 3 (IsLastOf three_entries 3) (last_index_of_term three_entries 3)
last_index_of_term-Finds_example = last_index_of_term-Finds three_entries 3 three_entries-IsChained

entry_at-IsChained_example :
    (x : Entry) × (get_elem? (marker 0 0 ∷ e1 ∷ e2 ∷ e3 ∷ []) 2 ≡ some x)
    × (x.index ≡ 2)
    × (term three_entries 2 ≡ (x.term, true))
    × (entry three_entries 2 ≡ x)
entry_at-IsChained_example =
    entry_at-IsChained three_entries 2 three_entries-IsChained (omega arith) (omega arith)

compact_to-IsChained_example : IsChained (compact_to three_entries 2 3)
unfolding term entry_at
compact_to-IsChained_example =
    compact_to-IsChained three_entries 2 3 three_entries-IsChained (λ inside. refl)

abbrev all_well : Env
all_well = record {
  now = 5000;
  random = 0;
  term_saved = saved;
  vote_saved = saved;
  truncation_saved = saved;
  entries_saved = saved;
  image_saved = snapshot_saved;
}

abbrev timings : Timings
timings = record {
  election_timeout_min = 750;
  election_timeout_max = 1500;
  commit_stall_timeout = none;
}

abbrev new_disk : Disk
new_disk = record { records = []; snapshot = none }

abbrev start : Node
start = new_node all_well 1 (2 ∷ 3 ∷ []) timings 0 new_disk

abbrev ask_for_2 : VoteRequest
ask_for_2 = record {
  term = 1;
  candidate_id = 2;
  last_log_index = 0;
  last_log_term = 0;
  pre_vote = false;
}

abbrev ask_for_3 : VoteRequest
ask_for_3 = record ask_for_2 { candidate_id = 3 }

abbrev grant_2 : Grant
grant_2 = record { term = 1; candidate = 2 }

abbrev voter : Node
voter = (handle_request_vote all_well ask_for_2 start).0

-- Candidate 2 asks twice.
abbrev two_grants :
    Life start (grant_2 ∷ grant_2 ∷ []) (handle_request_vote all_well ask_for_2 voter).0
unfolding handle_request_vote grant_vote new_node become_follower reset_election_timer
    save_hard_state recover
two_grants =
    goes_on {gs = grant_2 ∷ []} {hs = grant_2 ∷ []} {n = voter}
      (goes_on {gs = []} {hs = grant_2 ∷ []} {n = start} begins
        (votes all_well ask_for_2 (omega arith) (inr refl)))
      (votes all_well ask_for_2 (omega arith) (inr refl))

votes_once_example : grant_2.candidate ≡ grant_2.candidate
unfolding recover new_node reset_election_timer
votes_once_example =
    votes_once start (handle_request_vote all_well ask_for_2 voter).0 (grant_2 ∷ grant_2 ∷ []) 0 1
      grant_2 grant_2 (omega arith) two_grants refl refl refl

abbrev disk_full : Env
disk_full = record all_well { vote_saved = failed 1 }

abbrev voter-Eligible_2 : Eligible ask_for_2 voter
unfolding handle_request_vote grant_vote new_node become_follower reset_election_timer
    save_hard_state recover
voter-Eligible_2 = record { binding = refl; same_term = refl; restriction = refl }

abbrev voter-Eligible_3 : Eligible ask_for_3 voter
unfolding handle_request_vote grant_vote new_node become_follower reset_election_timer
    save_hard_state recover
voter-Eligible_3 = record { binding = refl; same_term = refl; restriction = refl }

second_vote_example :
    (handle_request_vote all_well ask_for_3 (handle_request_vote disk_full ask_for_2 voter).0).1
    ≡ record { term = voter.current_term; vote_granted = true }
unfolding handle_request_vote grant_vote new_node become_follower reset_election_timer
    save_hard_state recover
second_vote_example =
    second_vote voter ask_for_2 ask_for_3 refl voter-Eligible_2 voter-Eligible_3 disk_full all_well
      1 refl refl refl

-- A leader in term 3, whose peer 2 holds all of its log.
abbrev ruler : Node
ruler = record start {
  role = leader;
  current_term = 3;
  log = three_entries;
  match_index = (2, 3) ∷ (3, 0) ∷ [];
}

maybe_advance_commit-Backed_example :
    ((maybe_advance_commit 6000 ruler).commit_index ≡ ruler.commit_index)
    ⊎ Backed ruler (maybe_advance_commit 6000 ruler).commit_index
maybe_advance_commit-Backed_example = maybe_advance_commit-Backed 6000 ruler

abbrev heartbeat : AppendRequest
heartbeat = record {
  term = 4;
  leader_id = 2;
  prev_log_index = 3;
  prev_log_term = 3;
  entries = [];
  leader_commit = 2;
}

handle_append_entries_monotone_example :
    (ruler.commit_index ≤ (handle_append_entries all_well heartbeat ruler).0.commit_index)
    × (ruler.current_term ≤ (handle_append_entries all_well heartbeat ruler).0.current_term)
    × (heartbeat.term ≤ (handle_append_entries all_well heartbeat ruler).0.current_term)
unfolding new_node reset_election_timer
handle_append_entries_monotone_example =
    handle_append_entries_monotone all_well heartbeat ruler refl

-- A node whose log is committed up to its end and applied up to index 1.
abbrev behind : Node
behind = record start { log = three_entries; commit_index = 3; last_applied = 1 }

apply_pass-Delivers_example :
    ((apply_pass behind).0.last_applied ≡ 3)
    × (length (apply_pass behind).1 ≡ 2)
    × Delivers behind (apply_pass behind).1 1
unfolding new_node reset_election_timer recover
apply_pass-Delivers_example =
    apply_pass-Delivers behind 1 refl refl three_entries-IsChained (omega arith) (omega arith)
      (omega arith)

-- An old message of term 3 that carries the second entry again.
abbrev duplicate : AppendRequest
duplicate = record {
  term = 3;
  leader_id = 2;
  prev_log_index = 1;
  prev_log_term = 1;
  entries = e2 ∷ [];
  leader_commit = 0;
}

handle_append_entries-Present_example :
    ((handle_append_entries all_well duplicate ruler).0.log ≡ three_entries)
    × ((handle_append_entries all_well duplicate ruler).0.persist ≡ new_disk)
    × ((handle_append_entries all_well duplicate ruler).1.success ≡ true)
unfolding new_node reset_election_timer recover term entry_at
handle_append_entries-Present_example =
    handle_append_entries-Present all_well duplicate ruler refl refl (omega arith) (λ inside. refl)
      (inr (omega arith, refl), tt)
