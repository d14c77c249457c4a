-- ===== src/ControlPlane/View.antt =====
-- internal/controlplane/engine.go: what the control plane makes of the nodes' states.
use kill_my_cluster.Prelude.{
  ℕ, suc, ◌-◌, ◌/◌, Bool, true, false, not, ◌&&◌, Option, none, some, List, [], ◌∷◌, ltb, ◌==◌,
  if◌then◌else◌, length,
}

-- One machine, as far as the view and the audit read it.
pub record Status : Type 0 where
  pub id : ℕ
  pub running : Bool
  pub partitioned : Bool
  pub term : ℕ
  pub commit_index : ℕ
  pub leader_id : ℕ
  pub is_leader : Bool

pub record Snapshot : Type 0 where
  pub nodes : List Status
  pub alive : ℕ
  pub total : ℕ
  pub quorum : Bool
  pub leader_id : ℕ
  pub term : ℕ

unfoldable pub alive_of : List Status → ℕ
alive_of [] = 0
alive_of (n ∷ ns) =
    let rest = alive_of ns in if n.running && not n.partitioned then suc rest else rest

-- (leaderID, term) after one machine of buildSnapshot's loop.
abbrev pub claim : ℕ × ℕ → Status → ℕ × ℕ
claim (leader, t) n =
    let (leader', t') = if n.is_leader then (n.id, n.term) else (leader, t) in
    if leader' == 0 && not (n.leader_id == 0) then (n.leader_id, n.term) else (leader', t')

unfoldable pub claims : ℕ × ℕ → List Status → ℕ × ℕ
claims p [] = p
claims p (n ∷ ns) = claims (claim p n) ns

unfoldable pub build_snapshot : List Status → Snapshot
unfolding alive_of claims
build_snapshot list =
    let (leader, t) = claims (0, 0) list in
    record {
      nodes = list;
      alive = alive_of list;
      total = length list;
      quorum = ltb (length list / 2) (alive_of list);
      leader_id = leader;
      term = t;
    }

-- The engine's memory of quorum losses; the zero time is `none`.
pub record QuorumMemory : Type 0 where
  pub saw_quorum : Bool
  pub last_had_quorum : Bool
  pub last_quorum_loss_at : Option ℕ

abbrev pub since : ℕ → Option ℕ → Option ℕ
since now none = none
since now (some t) = some ((now - t) / 1000000)

-- noteQuorum, with the milliseconds since the last loss; -1 is `none`.
unfoldable pub note_quorum : ℕ → Bool → QuorumMemory → QuorumMemory × Option ℕ
note_quorum now quorum m =
    let m' : QuorumMemory =
      if not m.saw_quorum
      then record {
        saw_quorum = true;
        last_had_quorum = quorum;
        last_quorum_loss_at = if not quorum then some now else m.last_quorum_loss_at;
      }
      else if m.last_had_quorum && not quorum
      then record m { last_quorum_loss_at = some now; last_had_quorum = false }
      else if quorum
      then record m { last_had_quorum = true }
      else m in
    (m', since now m'.last_quorum_loss_at)
