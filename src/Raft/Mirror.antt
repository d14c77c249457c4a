-- ===== src/Raft/Mirror.antt =====
-- internal/raft/persist.go and node.go: the log in memory and the log on disk.
pub mod Records
pub mod Handlers
pub mod Leader
pub mod Restart
pub mod Life
mod Tests
use kill_my_cluster.Prelude.{ℕ, suc, ◌≤◌, ◌<◌, ◌≡◌, List, [], ◌∷◌, ◌++◌, All}
use mathlib.Core.List.{foldl}
use kill_my_cluster.Raft.Log.{Entry, RaftLog, first_index}
use kill_my_cluster.Raft.Disk.{Disk, Persisted, Rec, no_vote, no_snapshot, replay_record}

-- Each entry has the next index.
abbrev pub Indexed : ℕ → List Entry → Type 0
Indexed i [] = Unit {0}
Indexed i (x ∷ xs) = (x.index ≡ suc i) × Indexed (suc i) xs

abbrev pub blank : Persisted
blank = record { term = 0; voted_for = no_vote; entries = []; snap = no_snapshot }

-- The entries that the records on disk amount to, those behind the snapshot included.
abbrev pub replayed : List Rec → List Entry
replayed rs = Persisted.entries (foldl replay_record blank rs)

-- The disk has the entries in memory, behind others that a snapshot covers.
pub record Mirrored (l : RaftLog) (d : Disk) : Type 0 where
  pub indexed : Indexed (first_index l) l.reals
  pub covered : List Entry
  pub same : replayed d.records ≡ covered ++ l.reals
  pub behind : All (λ e. (0 < e.index) × (e.index ≤ first_index l)) covered
