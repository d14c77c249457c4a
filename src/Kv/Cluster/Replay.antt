-- ===== src/Kv/Cluster/Replay.antt =====
-- internal/kv/cluster.go: the apply loop on the messages of committed commands.
use kill_my_cluster.Prelude.{ℕ, ◌≡◌, refl, ap, ◌∙◌, Option, List, [], ◌∷◌, arith}
use kill_my_cluster.Prelude.Bytes.{Bytes}
use kill_my_cluster.Prelude.Result.{ok, ◌>>=◌}
use kill_my_cluster.Raft.Log.{Entry}
use kill_my_cluster.Raft.Node.{Env}
use kill_my_cluster.Raft.Applier.{ApplyMsg, command, snapshot}
use kill_my_cluster.Kv.Command.{Command, encode, decode}
use kill_my_cluster.Kv.Command.Codec.{IsEncodable, decode-encode}
use kill_my_cluster.Kv.Machine.{apply, replay}
use kill_my_cluster.Kv.Machine.Image.{SnapshotData}
use kill_my_cluster.Kv.Cluster.{
  Cluster, maybe_snapshot_at, compact, apply_command, handle_command, handle_apply, handle_all,
}

-- The messages carry the commands, in order, as propose encodes them.
abbrev pub Carry : List ApplyMsg → List Command → Type 0
Carry [] [] = Unit {0}
Carry (command e ∷ msgs) (cmd ∷ cmds) =
    ((e.payload ≡ encode cmd) × IsEncodable cmd) × Carry msgs cmds
Carry _ _ = ⊥

module _ (gob_encode : SnapshotData → Option Bytes) (gob_decode : Bytes → Option SnapshotData)
    (env : Env) where
  compact-machine : (index : ℕ) (c : Cluster) → (compact gob_encode env index c).machine ≡ c.machine
  unfolding compact maybe_snapshot_at
  compact-machine index c = ground arith

  handled :
      (e : Entry) (cmd : Command) (c : Cluster)
      → e.payload ≡ encode cmd
      → IsEncodable cmd
      → handle_apply gob_encode gob_decode env (command e) c
        ≡ ok (
          compact gob_encode env e.index (apply_command e.index cmd c).0,
          (apply_command e.index cmd c).1,
        )
  unfolding handle_apply handle_command
  handled e cmd c same fits =
      ap (λ b. handle_command gob_encode gob_decode env e.index (decode b) c) same
      ∙ ap (λ r. handle_command gob_encode gob_decode env e.index r c) (decode-encode cmd fits)

  handled-machine :
      (e : Entry) (cmd : Command) (c : Cluster)
      → (compact gob_encode env e.index (apply_command e.index cmd c).0).machine
        ≡ (apply cmd c.machine).machine
  unfolding apply_command
  handled-machine e cmd c = compact-machine e.index (apply_command e.index cmd c).0

  -- The apply loop takes any messages of encoded commands, whose parts fit their length fields, without
  -- a panic, snapshots or not on the way, and leaves the state machine that applying the commands in
  -- their order gives.
  pub handle_all-replay :
      (msgs : List ApplyMsg) (cmds : List Command) (c : Cluster)
      → Carry msgs cmds
      → (d : Cluster) × (handle_all gob_encode gob_decode env msgs c ≡ ok d)
        × (d.machine ≡ replay c.machine cmds)
  unfolding handle_all
  handle_all-replay [] [] c carry = (c, refl, refl)
  handle_all-replay (command e ∷ msgs) (cmd ∷ cmds) c carry =
      go (handle_all-replay msgs cmds next carry.1)
    where
      next : Cluster
      next = compact gob_encode env e.index (apply_command e.index cmd c).0

      go :
          (d : Cluster) × (handle_all gob_encode gob_decode env msgs next ≡ ok d)
            × (d.machine ≡ replay next.machine cmds)
          → (d : Cluster) × (handle_all gob_encode gob_decode env (command e ∷ msgs) c ≡ ok d)
            × (d.machine ≡ replay (apply cmd c.machine).machine cmds)
      go (d, run, same) = (
        d,
        ap (λ r. r >>= λ x. handle_all gob_encode gob_decode env msgs x.0)
              (handled e cmd c carry.0.0 carry.0.1)
            ∙ run,
        same ∙ ap (λ m. replay m cmds) (handled-machine e cmd c),
      )
  handle_all-replay [] (_ ∷ _) c carry = absurd carry
  handle_all-replay (command e ∷ _) [] c carry = absurd carry
  handle_all-replay (snapshot _ ∷ _) [] c carry = absurd carry
  handle_all-replay (snapshot _ ∷ _) (_ ∷ _) c carry = absurd carry
