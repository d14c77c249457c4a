-- ===== src/Kv/Cluster.antt =====
-- internal/kv/cluster.go: the apply loop of one node, the proposers that wait for it, and the requests.
pub mod Waiting
pub mod Replay
mod Tests
use kill_my_cluster.Prelude.{
  ℕ, ◌+◌, Bool, true, false, not, ◌&&◌, Option, none, some, List, [], ◌∷◌, leb, ltb, ◌==◌,
  if◌then◌else◌,
}
use kill_my_cluster.Prelude.Bytes.{Bytes, add64}
use kill_my_cluster.Prelude.Result.{Result, ok, err, panic, ◌>>=◌}
use kill_my_cluster.Raft.Log.{Entry}
use kill_my_cluster.Raft.Node.{Node, Env, is_leader}
use kill_my_cluster.Raft.Handlers
use kill_my_cluster.Raft.Applier.{ApplyMsg, command, snapshot}
use kill_my_cluster.Kv.Command.{
  Command, ApplyResult, Error, op_put, op_cas, op_checkpoint, checkpoint_key, decode,
}
use kill_my_cluster.Kv.Machine.{Machine, Offer, new_machine, apply, get}
use kill_my_cluster.Kv.Machine.Image.{SnapshotData, restore}
use kill_my_cluster.Kv.Machine.Image
use kill_my_cluster.Kv.Cluster.Waiting.{Waiters, no_waiting, settle}

pub record Cluster : Type 0 where
  pub raft : Node
  pub machine : Machine
  pub waiting : Waiters
  pub snap_every : ℕ
  pub last_snap_index : ℕ

-- NewCluster, on the node that NewNode made: 0 stands for the default cadence.
abbrev pub new_cluster : ℕ → Node → Cluster
new_cluster snapshot_entries raft = record {
  raft = raft;
  machine = new_machine;
  waiting = no_waiting;
  snap_every = if snapshot_entries == 0 then 10000 else snapshot_entries;
  last_snap_index = 0;
}

-- encoding/gob is a parameter.
module _ (gob_encode : SnapshotData → Option Bytes) where
  -- What becomes of an image: an encoding error and one of Raft's leave the cadence as it is.
  abbrev hand_over : Env → ℕ → Option Bytes → Cluster → Cluster
  hand_over env applied none c = c
  hand_over env applied (some raw) c =
      let (n, written) = Handlers.snapshot env applied raw c.raft in
      record c { raft = n; last_snap_index = if written then applied else c.last_snap_index }

  unfoldable pub maybe_snapshot_at : Env → ℕ → Cluster → Cluster
  maybe_snapshot_at env applied c =
      if ltb (add64 applied c.snap_every) c.raft.commit_index
      then c
      else hand_over env applied (Image.snapshot gob_encode c.machine) c

  -- The compaction at the end of handleApply.
  unfoldable pub compact : Env → ℕ → Cluster → Cluster
  unfolding maybe_snapshot_at
  compact env index c =
      if ltb 0 c.snap_every && leb (add64 c.last_snap_index c.snap_every) index
      then maybe_snapshot_at env index c
      else c

-- The machine takes a command, and its result goes to who waits for it.
unfoldable pub apply_command : ℕ → Command → Cluster → Cluster × List Offer
unfolding settle
apply_command index cmd c =
    let a = apply cmd c.machine in
    (record c { machine = a.machine; waiting = settle index a.res c.waiting }, a.events)

module _ (gob_encode : SnapshotData → Option Bytes) (gob_decode : Bytes → Option SnapshotData) where
  -- handleApply's command, once it is decoded.
  unfoldable pub handle_command :
      Env → ℕ → Result Error Command → Cluster → Result Error (Cluster × List Offer)
  unfolding apply_command compact
  handle_command env index (ok cmd) c =
      let (c', events) = apply_command index cmd c in ok (compact gob_encode env index c', events)
  handle_command env index (err e) c = panic
  handle_command env index panic c = panic

  -- handleApply, with the watch events that it sends; a snapshot or a command that does not decode
  -- is a panic.
  unfoldable pub handle_apply : Env → ApplyMsg → Cluster → Result Error (Cluster × List Offer)
  unfolding handle_command
  handle_apply env (snapshot snap) c =
      let (m, restored) = restore gob_decode snap.payload c.machine in
      if restored then ok (record c { machine = m; last_snap_index = snap.index }, []) else panic
  handle_apply env (command e) c = handle_command env e.index (decode e.payload) c

  -- runApplier over the messages of one pass.
  unfoldable pub handle_all : Env → List ApplyMsg → Cluster → Result Error Cluster
  unfolding handle_apply
  handle_all env [] c = ok c
  handle_all env (msg ∷ msgs) c = handle_apply env msg c >>= λ r. handle_all env msgs r.0

-- The errors of a request that does not reach the log.
pub data Refusal : Type 0 where
  not_leader unsupported_op : Refusal

-- Put, CAS, Checkpoint and ExecuteOnce: the command that is proposed.
abbrev pub put_command : Bytes → ℕ → Bytes → Bytes → Command
put_command client_id request_id key value = record {
  op = op_put;
  client_id = client_id;
  request_id = request_id;
  key = key;
  value = value;
  expect = [];
}

abbrev pub cas_command : Bytes → ℕ → Bytes → Bytes → Bytes → Command
cas_command client_id request_id key expect value = record {
  op = op_cas;
  client_id = client_id;
  request_id = request_id;
  key = key;
  value = value;
  expect = expect;
}

abbrev pub checkpoint_command : Bytes → ℕ → Bytes → Command
checkpoint_command client_id request_id state = record {
  op = op_checkpoint;
  client_id = client_id;
  request_id = request_id;
  key = [];
  value = state;
  expect = [];
}

unfoldable pub execute_once : Bytes → ℕ → Command → Result Refusal Command
execute_once client_id request_id cmd =
    let stamped = record cmd { client_id = client_id; request_id = request_id } in
    if not (cmd.op == op_put) && (not (cmd.op == op_cas) && not (cmd.op == op_checkpoint))
    then err unsupported_op
    else ok stamped

abbrev found_value : Option Bytes → ApplyResult
found_value none = record { found = false; value = []; duplicate = false }
found_value (some v) = record { found = true; value = v; duplicate = false }

-- Get, on what ReadIndex answered.
unfoldable pub read : Bool → Bytes → Cluster → Result Refusal ApplyResult
read confirmed key c =
    if not confirmed then err not_leader else ok (found_value (get key c.machine))

unfoldable pub read_checkpoint : Bool → Bytes → Cluster → Result Refusal ApplyResult
unfolding read
read_checkpoint confirmed client_id c = read confirmed (checkpoint_key client_id) c
