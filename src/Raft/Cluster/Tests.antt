-- ===== src/Raft/Cluster/Tests.antt =====
-- A run of three nodes, of which the first is elected.
use kill_my_cluster.Prelude.{
  others, ℕ, ◌≡◌, inr, refl, arith, true, false, none, List, [], ◌∷◌, ◌++◌, nat_eq,
}
use kill_my_cluster.Raft.Disk.{Disk, saved, snapshot_saved, save_hard_state, recover}
use kill_my_cluster.Raft.Node.{
  Env, Timings, VoteRequest, VoteResponse, new_node, become_follower, reset_election_timer,
}
use kill_my_cluster.Raft.Handlers.{handle_request_vote, grant_vote}
use kill_my_cluster.Raft.Election.{
  tick, start_pre_vote, start_election, pre_vote_response, vote_response, become_leader,
}
use kill_my_cluster.Raft.Cluster.{
  World, idle, elects, Reach, begins, goes_on, wakes, hears_poll, answers, hears, set, set_call,
  replied, heard,
}
use kill_my_cluster.Raft.Votes.{granted}
use kill_my_cluster.Raft.Cluster.Safety.{Fresh, one_leader}

abbrev members : List ℕ
members = 1 ∷ 2 ∷ 3 ∷ []

abbrev at_time : ℕ → Env
at_time t = record {
  now = t;
  random = 0;
  term_saved = saved;
  vote_saved = saved;
  truncation_saved = saved;
  entries_saved = saved;
  image_saved = snapshot_saved;
}

abbrev timings : Timings
timings = record {
  election_timeout_min = 750;
  election_timeout_max = 1500;
  commit_stall_timeout = none;
}

abbrev new_disk : Disk
new_disk = record { records = []; snapshot = none }

abbrev all_start : World
all_start = record {
  nodes = λ i. new_node (at_time 0) i (others i members) timings 0 new_disk;
  told = λ i. [];
  calls = λ c t v. idle;
}

abbrev all_start-Fresh : Fresh members all_start
unfolding new_node reset_election_timer recover
all_start-Fresh = record {
  nobody_asks = λ c t v. refl;
  nothing_told = λ i. refl;
  all_follow = λ i. refl;
  named = λ i. refl;
  known = λ i. refl;
  behind = λ i. omega arith;
}

abbrev one_polls : World
one_polls = elects all_start 1 (tick (at_time 5000) (all_start.nodes 1))

abbrev pre_vote_yes : VoteResponse
pre_vote_yes = record { term = 0; vote_granted = true }

abbrev one_stands : World
one_stands =
    elects one_polls 1 (pre_vote_response (at_time 5010) 0 1 pre_vote_yes (one_polls.nodes 1))

abbrev ask : VoteRequest
ask = record { term = 1; candidate_id = 1; last_log_index = 0; last_log_term = 0; pre_vote = false }

abbrev vote_yes : VoteResponse
vote_yes = record { term = 1; vote_granted = true }

abbrev two_votes : World
two_votes = record {
  nodes = set 2 (handle_request_vote (at_time 5020) ask (one_stands.nodes 2)).0 one_stands.nodes;
  told =
      set 2
        (granted ask (handle_request_vote (at_time 5020) ask (one_stands.nodes 2))
          ++ one_stands.told 2)
        one_stands.told;
  calls =
      set_call 1 1 2 (replied (handle_request_vote (at_time 5020) ask (one_stands.nodes 2)).1)
        one_stands.calls;
}

abbrev one_leads : World
one_leads = record two_votes {
  nodes = set 1 (vote_response (at_time 5030) 1 vote_yes (two_votes.nodes 1)) two_votes.nodes;
  calls = set_call 1 1 2 (heard vote_yes) two_votes.calls;
}

abbrev one_wins : Reach all_start one_leads
unfolding new_node reset_election_timer recover tick start_pre_vote start_election pre_vote_response
    handle_request_vote grant_vote become_follower save_hard_state
one_wins =
    goes_on {w = two_votes}
      (goes_on {w = one_stands}
        (goes_on {w = one_polls}
          (goes_on {w = all_start} begins (wakes 1 (at_time 5000) (omega arith) (omega arith)))
          (hears_poll 1 (at_time 5010) 0 1 pre_vote_yes (omega arith) (omega arith)))
        (answers 1 1 2 (at_time 5020) ask refl refl refl refl (omega arith) (inr refl)))
      (hears 1 1 2 (at_time 5030) vote_yes refl)

abbrev winner : ℕ
winner = 1

one_leader_example : winner ≡ winner
unfolding new_node reset_election_timer recover tick start_pre_vote start_election pre_vote_response
    handle_request_vote grant_vote become_follower save_hard_state vote_response become_leader
one_leader_example =
    one_leader members all_start one_leads winner winner (refl, (refl, (refl, tt))) all_start-Fresh
      one_wins refl refl refl refl refl
