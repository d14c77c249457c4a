-- ===== src/Raft/Mirror/Tests.antt =====
-- A run of the theorem on restarts.
use kill_my_cluster.Prelude.{◌-◌, ◌≡◌, refl, none, arith, [], ◌∷◌, drop, nat_eq}
use kill_my_cluster.Raft.Log
use kill_my_cluster.Raft.Log.{first_index, last_index, marker}
use kill_my_cluster.Raft.Disk.{Disk, saved, snapshot_saved, recover, append_entries}
use kill_my_cluster.Raft.Node.{Node, Env, Timings, leader, new_node, reset_election_timer}
use kill_my_cluster.Raft.Leader.{commit_prop_batch, assign}
use kill_my_cluster.Raft.Mirror.Handlers.{IsMirrored, Succeeds}
use kill_my_cluster.Raft.Mirror.Restart.{snapped}
use kill_my_cluster.Raft.Mirror.Life.{WorkingLife, begins, goes_on, proposes, restart-log}

abbrev all_well : Env
all_well = record {
  now = 0;
  random = 0;
  term_saved = saved;
  vote_saved = saved;
  truncation_saved = saved;
  entries_saved = saved;
  image_saved = snapshot_saved;
}

abbrev all_well-Succeeds : Succeeds all_well
all_well-Succeeds = record {
  term_ok = refl;
  vote_ok = refl;
  truncation_ok = refl;
  entries_ok = refl;
  image_ok = refl;
}

abbrev timings : Timings
timings = record {
  election_timeout_min = 750;
  election_timeout_max = 1500;
  commit_stall_timeout = none;
}

abbrev new_disk : Disk
new_disk = record { records = []; snapshot = none }

abbrev ruler : Node
ruler = record (new_node all_well 1 [] timings 0 new_disk) { role = leader; current_term = 1 }

abbrev ruler-IsMirrored : IsMirrored ruler
unfolding new_node reset_election_timer recover Log.append
ruler-IsMirrored = record { indexed = tt; covered = []; same = refl; behind = tt }

-- Two commands, which a restart finds again.
abbrev busy : Node
busy = (commit_prop_batch all_well ((7 ∷ []) ∷ (8 ∷ []) ∷ []) ruler).0

abbrev busy-WorkingLife : WorkingLife ruler busy
unfolding new_node reset_election_timer recover Log.append
busy-WorkingLife =
    goes_on {n = ruler} begins
      (proposes all_well ((7 ∷ []) ∷ (8 ∷ []) ∷ []) all_well-Succeeds (omega arith))

restart-log_example :
    (new_node all_well busy.id busy.peers busy.tm busy.snapshot_retain busy.persist).log ≡ record {
      sentinel = marker (snapped busy.persist).index (snapped busy.persist).term;
      reals = drop ((snapped busy.persist).index - first_index busy.log) busy.log.reals;
    }
unfolding new_node reset_election_timer recover Log.append commit_prop_batch assign append_entries
restart-log_example =
    restart-log ruler busy all_well ruler-IsMirrored busy-WorkingLife (omega arith)
