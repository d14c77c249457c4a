-- ===== src/Kv/Cluster/Tests.antt =====
-- Runs of the theorems on the apply loop and its proposers.
use kill_my_cluster.Prelude.{
  ◌≡◌, ◌≤◌, refl, arith, true, false, none, Option, some, List, [], ◌∷◌, nat_eq, length,
}
use kill_my_cluster.Prelude.Bytes.{Bytes}
use kill_my_cluster.Prelude.Result.{ok}
use kill_my_cluster.Prelude.Map
use kill_my_cluster.Raft.Disk.{saved, snapshot_saved}
use kill_my_cluster.Raft.Node.{Env, Timings, new_node}
use kill_my_cluster.Raft.Applier.{ApplyMsg, command}
use kill_my_cluster.Kv.Command.{Command, ApplyResult, encode}
use kill_my_cluster.Kv.Machine.{replay}
use kill_my_cluster.Kv.Machine.Image.{SnapshotData}
use kill_my_cluster.Kv.Cluster.{Cluster, new_cluster, put_command, cas_command, handle_all}
use kill_my_cluster.Kv.Cluster.Replay.{handle_all-replay}
use kill_my_cluster.Kv.Cluster.Waiting.{no_waiting, settle, await, ready, wait}
use kill_my_cluster.Kv.Cluster.Waiting.Answered.{
  Move, applies, awaits, run, waits, await-settle, settle-await,
}
use kill_my_cluster.Kv.Cluster.Waiting.Recent.{recent_bounded}

abbrev yes_result : ApplyResult
yes_result = record { found = true; value = 1 ∷ []; duplicate = false }

-- Index 7 is applied, then 8, whose proposer came first.
abbrev eight : List Move
eight = awaits 8 ∷ applies 8 yes_result ∷ []

await-settle_example : (await 7 (run (settle 7 yes_result no_waiting) eight)).1 ≡ ready yes_result
unfolding Map.get
await-settle_example =
    await-settle 7 yes_result no_waiting eight (omega arith) (refl, (refl, tt)) refl

settle-await_example :
    ((await 7 no_waiting).1 ≡ wait no_waiting.made)
    × (Map.get no_waiting.made (settle 7 yes_result (run (waits 7 no_waiting) eight)).sent
        ≡ some yes_result)
unfolding Map.get
settle-await_example = settle-await 7 yes_result no_waiting eight (refl, (refl, tt)) refl

recent_bounded_example : length (run no_waiting eight).recent ≤ 257
recent_bounded_example = recent_bounded eight (omega arith, omega arith, tt)

abbrev set_x : Command
set_x = put_command (99 ∷ []) 1 (120 ∷ []) (1 ∷ [])

abbrev swap_x : Command
swap_x = cas_command (99 ∷ []) 2 (120 ∷ []) (1 ∷ []) (2 ∷ [])

abbrev at_start : Env
at_start = record {
  now = 0;
  random = 0;
  term_saved = saved;
  vote_saved = saved;
  truncation_saved = saved;
  entries_saved = saved;
  image_saved = snapshot_saved;
}

abbrev timings : Timings
timings = record {
  election_timeout_min = 750;
  election_timeout_max = 1500;
  commit_stall_timeout = none;
}

abbrev one_node : Cluster
one_node =
    new_cluster 0 (new_node at_start 1 [] timings 0 (record { records = []; snapshot = none }))

abbrev two_messages : List ApplyMsg
two_messages =
    command (record { index = 1; term = 1; payload = encode set_x })
    ∷ command (record { index = 2; term = 1; payload = encode swap_x })
    ∷ []

no_encode : SnapshotData → Option Bytes
no_encode s = none

no_decode : Bytes → Option SnapshotData
no_decode b = none

handle_all-replay_example :
    (d : Cluster) × (handle_all no_encode no_decode at_start two_messages one_node ≡ ok d)
    × (d.machine ≡ replay one_node.machine (set_x ∷ swap_x ∷ []))
handle_all-replay_example =
    handle_all-replay no_encode no_decode at_start two_messages (set_x ∷ swap_x ∷ []) one_node (
      (
        refl,
        record {
          op_byte = omega arith;
          client_fits = omega arith;
          request_fits = omega arith;
          key_fits = omega arith;
          expect_fits = omega arith;
        },
      ),
      (
        (
          refl,
          record {
            op_byte = omega arith;
            client_fits = omega arith;
            request_fits = omega arith;
            key_fits = omega arith;
            expect_fits = omega arith;
          },
        ),
        tt,
      ),
    )
