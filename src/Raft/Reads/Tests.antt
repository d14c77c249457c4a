-- ===== src/Raft/Reads/Tests.antt =====
-- Runs of the theorems on reads, in a cluster of three.
use kill_my_cluster.Prelude.{
  ℕ, refl, Option, none, some, if◌then◌else◌, List, [], ◌∷◌, ◌==◌, nat_eq,
}
use kill_my_cluster.Prelude.Map
use kill_my_cluster.Raft.Log.{term, entry_at}
use kill_my_cluster.Raft.Disk.{saved, snapshot_saved, recover}
use kill_my_cluster.Raft.Node.{
  Node, Env, Timings, AppendRequest, leader, new_node, become_follower, reset_election_timer,
}
use kill_my_cluster.Raft.Handlers.{
  handle_append_entries, check_entries, store_entries, accept, hear_leader, walk,
}
use kill_my_cluster.Raft.Reads.{Exchange, heartbeat, heartbeat_response}
use kill_my_cluster.Raft.Reads.Confirmed.{Confirmed}
use kill_my_cluster.Raft.Reads.Heartbeat.{Follows, heartbeat-Follows}

abbrev at_time : ℕ → Env
at_time t = record {
  now = t;
  random = 0;
  term_saved = saved;
  vote_saved = saved;
  truncation_saved = saved;
  entries_saved = saved;
  image_saved = snapshot_saved;
}

abbrev timings : Timings
timings = record {
  election_timeout_min = 750;
  election_timeout_max = 1500;
  commit_stall_timeout = none;
}

abbrev node : ℕ → List ℕ → Node
node id peers = new_node (at_time 0) id peers timings 0 (record { records = []; snapshot = none })

abbrev ruler : Node
ruler = record (node 1 (2 ∷ 3 ∷ [])) {
  role = leader;
  current_term = 3;
  next_index = (2, 1) ∷ (3, 1) ∷ [];
}

abbrev subject : Node
subject = node 2 (1 ∷ 3 ∷ [])

-- Node 2 is reached in the round, and its answer brings a majority.
abbrev reached : ℕ → Option Exchange
reached p =
    if p == 2
    then some (record {
      asking = ruler;
      peer = subject;
      handling = at_time 110;
      back = ruler;
      closing = at_time 120;
    })
    else none

abbrev ping : AppendRequest
ping = record {
  term = 3;
  leader_id = 1;
  prev_log_index = 0;
  prev_log_term = 0;
  entries = [];
  leader_commit = 0;
}

heartbeat-Follows_example : Follows ruler 3 (handle_append_entries (at_time 110) ping subject).0
unfolding heartbeat heartbeat_response handle_append_entries check_entries store_entries accept
    hear_leader walk new_node become_follower reset_election_timer recover term entry_at Map.get
heartbeat-Follows_example =
    heartbeat-Follows (at_time 110) (at_time 120) 2 3 ruler ruler subject ping refl refl
