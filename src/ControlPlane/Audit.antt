-- ===== src/ControlPlane/Audit.antt =====
-- internal/controlplane/audit.go: the log of the cluster's state changes. Times are in nanoseconds.
pub mod Edges
pub mod File
use kill_my_cluster.Prelude.{
  ℕ, ◌+◌, ◌-◌, ◌*◌, ◌^◌, Bool, true, false, not, ◌&&◌, Option, none, some, List, [], ◌∷◌, ◌++◌, leb,
  ltb, ◌==◌, if◌then◌else◌,
}
use kill_my_cluster.ControlPlane.View.{Status, Snapshot}

-- The kinds of entry, each with what its detail tells.
pub data Kind : Type 0 where
  controlplane_started : Kind
  quorum_regained : Kind
  quorum_lost : ℕ → ℕ → Kind
  leader_changed : ℕ → ℕ → ℕ → Kind
  progress_resumed : ℕ → ℕ → Kind
  progress_stalled : ℕ → ℕ → Kind
  watchdog_stepdown : ℕ → Kind

-- An entry, less the rates and the chaos monkey's last act, which are copied into it.
pub record AuditEntry : Type 0 where
  pub time : ℕ
  pub kind : Kind
  pub alive : ℕ
  pub total : ℕ
  pub quorum : Bool
  pub term : ℕ
  pub leader_id : ℕ
  pub commit_index : ℕ

abbrev pub audit_stall_after : ℕ
audit_stall_after = 60 * 10 ^ 9

-- The previous observation.
pub record Memory : Type 0 where
  pub started : Bool
  pub last_quorum : Bool
  pub last_leader : ℕ
  pub last_commit : ℕ
  pub commit_since : ℕ
  pub stalled : Bool
  pub last_stepdown : ℕ
  pub seen_stepdown : Bool

abbrev pub entry_from : ℕ → Kind → Snapshot → ℕ → AuditEntry
entry_from now kind snap max_commit = record {
  time = now;
  kind = kind;
  alive = snap.alive;
  total = snap.total;
  quorum = snap.quorum;
  term = snap.term;
  leader_id = snap.leader_id;
  commit_index = max_commit;
}

-- The loop of maxCommitIndex, which starts at 0.
unfoldable pub max_from : ℕ → List Status → ℕ
max_from m [] = m
max_from m (n ∷ ns) = max_from (if ltb m n.commit_index then n.commit_index else m) ns

unfoldable pub max_commit_index : List Status → ℕ
unfolding max_from
max_commit_index ns = max_from 0 ns

-- One observation: the view, the count of step-downs (`none` where it could not be read), the time of the
-- tick, and for each line which time its entry takes and whether a.write gets it into the log.
pub record Observation : Type 0 where
  pub snap : Snapshot
  pub stepdowns : Option ℕ
  pub now : ℕ
  pub clock : Kind → ℕ
  pub is_written : Kind → Bool

abbrev pub quorum_edge : Observation → Memory → List Kind
quorum_edge o m =
    if o.snap.quorum
    then (if m.last_quorum then [] else quorum_regained ∷ [])
    else if m.last_quorum
    then quorum_lost o.snap.alive o.snap.total ∷ []
    else []

abbrev pub leader_edge : Observation → Memory → List Kind
leader_edge o m =
    if not (o.snap.leader_id == 0) && not (o.snap.leader_id == m.last_leader)
    then leader_changed o.snap.leader_id m.last_leader o.snap.term ∷ []
    else []

-- The commit index has stood still for a minute, and the cluster could serve.
abbrev pub stalls : Observation → Memory → Bool
stalls o m =
    o.snap.quorum
    && (not (o.snap.leader_id == 0)
        && (not m.stalled && leb audit_stall_after (o.now - m.commit_since)))

abbrev pub moved : Observation → Memory → Bool
moved o m = not (max_commit_index o.snap.nodes == m.last_commit)

abbrev pub progress_edge : Observation → Memory → List Kind
progress_edge o m =
    if moved o m
    then (if m.stalled then progress_resumed (o.now - m.commit_since) m.last_commit ∷ [] else [])
    else if stalls o m
    then progress_stalled (max_commit_index o.snap.nodes) (o.now - m.commit_since) ∷ []
    else []

abbrev pub stepdown_edge : Option ℕ → Memory → List Kind
stepdown_edge none m = []
stepdown_edge (some steps) m =
    if m.seen_stepdown && ltb m.last_stepdown steps then watchdog_stepdown steps ∷ [] else []

abbrev pub steps_or : Option ℕ → ℕ → ℕ
steps_or none before = before
steps_or (some steps) before = steps

abbrev pub was_read : Option ℕ → Bool
was_read none = false
was_read (some steps) = true

unfoldable pub first_memory : Observation → Memory
unfolding max_commit_index
first_memory o = record {
  started = true;
  last_quorum = o.snap.quorum;
  last_leader = o.snap.leader_id;
  last_commit = max_commit_index o.snap.nodes;
  commit_since = o.now;
  stalled = false;
  last_stepdown = steps_or o.stepdowns 0;
  seen_stepdown = was_read o.stepdowns;
}

unfoldable pub next_memory : Observation → Memory → Memory
unfolding max_commit_index
next_memory o m = record {
  started = true;
  last_quorum = o.snap.quorum;
  last_leader = o.snap.leader_id;
  last_commit = max_commit_index o.snap.nodes;
  commit_since = if moved o m then o.now else m.commit_since;
  stalled = if moved o m then false else if stalls o m then true else m.stalled;
  last_stepdown = steps_or o.stepdowns m.last_stepdown;
  seen_stepdown = if was_read o.stepdowns then true else m.seen_stepdown;
}

-- The lines that the calls of a.write, one after another, leave in the log; observe does not learn which
-- of them fail.
unfoldable pub logged : (Kind → Bool) → List Kind → List Kind
logged is_written [] = []
logged is_written (k ∷ ks) =
    let rest = logged is_written ks in if is_written k then k ∷ rest else rest

-- The kinds of the lines that observe adds to the log, in order, and what it remembers.
unfoldable pub observe : Observation → Memory → Memory × List Kind
unfolding first_memory next_memory max_commit_index logged
observe o m =
    if not m.started then (first_memory o, logged o.is_written (controlplane_started ∷ [])) else (
      next_memory o m,
      logged o.is_written (
          quorum_edge o m
          ++ (leader_edge o m ++ (progress_edge o m ++ stepdown_edge o.stepdowns m))),
    )

-- The lines themselves.
unfoldable pub lines : Observation → List Kind → List AuditEntry
unfolding max_commit_index
lines o [] = []
lines o (k ∷ ks) = entry_from (o.clock k) k o.snap (max_commit_index o.snap.nodes) ∷ lines o ks
