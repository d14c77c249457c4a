-- ===== src/Raft/Clocks/Tests.antt =====
-- A run of the theorem on clocks that are configured badly.
use kill_my_cluster.Prelude.{◌+◌, ◌*◌, ◌≤◌, ◌<◌, ◌^◌, refl, arith, none, []}
use kill_my_cluster.Raft.Disk.{saved, snapshot_saved}
use kill_my_cluster.Raft.Node.{Node, Env, new_node, timeout_range, reset_election_timer}
use kill_my_cluster.Raft.Clocks.{RawTimings, pos, negsuc, configured_node}
use kill_my_cluster.Raft.Clocks.Bounds.{spread, reset_election_timer-with_defaults}

-- The maximum is below the minimum.
abbrev inverted : RawTimings
inverted = record {
  election_timeout_min = pos 1000;
  election_timeout_max = pos 10;
  heartbeat_interval = negsuc 4;
  tick_interval = pos 0;
  commit_stall_timeout = negsuc 0;
}

abbrev dice : Env
dice = record {
  now = 0;
  random = 123456;
  term_saved = saved;
  vote_saved = saved;
  truncation_saved = saved;
  entries_saved = saved;
  image_saved = snapshot_saved;
}

abbrev unlucky : Node
unlucky =
    record (configured_node dice 1 [] inverted (pos 0) (record { records = []; snapshot = none })) {
      election_attempts = 7;
    }

reset_election_timer-with_defaults_example :
    (0 < timeout_range unlucky)
    × (timeout_range unlucky < 2 ^ 63)
    × (unlucky.tm.election_timeout_min ≤ (reset_election_timer dice unlucky).election_timeout)
    × ((reset_election_timer dice unlucky).election_timeout
        < unlucky.tm.election_timeout_min + 8 * spread unlucky.tm)
unfolding configured_node new_node reset_election_timer
reset_election_timer-with_defaults_example =
    reset_election_timer-with_defaults inverted dice unlucky (omega arith) (omega arith) refl
