-- ===== src/Raft/Disk.antt =====
-- internal/raft/persist.go at the level of its records: what a persister's calls leave on disk, and
-- what openPersister makes of it.

pub mod Hard
use kill_my_cluster.Prelude.{
  ℕ, zero, suc, ◌+◌, Bool, true, false, ◌&&◌, Option, none, some, List, [], ◌∷◌, ◌++◌, map, leb,
  ltb, if◌then◌else◌, take,
}
use mathlib.Core.List.{foldl}
use kill_my_cluster.Prelude.Bytes.{Bytes}
use kill_my_cluster.Raft.Log.{Entry}

pub data Rec : Type 0 where
  hard_state : ℕ → ℕ → Rec
  appended : Entry → Rec
  truncated : ℕ → Rec

abbrev pub no_vote : ℕ
no_vote = 0

pub record Snapshot : Type 0 where
  pub index : ℕ
  pub term : ℕ
  pub payload : Bytes

pub record Disk : Type 0 where
  pub records : List Rec
  pub snapshot : Option Snapshot

-- How a call that writes records ends. When it fails, some of its records may still be in the log.
pub data Outcome : Type 0 where
  saved : Outcome
  failed : ℕ → Outcome

abbrev pub write : Outcome → List Rec → Disk → Disk × Bool
write saved recs d = (record d { records = d.records ++ recs }, true)
write (failed n) recs d = (record d { records = d.records ++ take n recs }, false)

unfoldable pub save_hard_state : Outcome → ℕ → ℕ → Disk → Disk × Bool
save_hard_state o term voted_for d = write o (hard_state term voted_for ∷ []) d

unfoldable pub append_entries : Outcome → List Entry → Disk → Disk × Bool
append_entries o entries d = write o (map appended entries) d

unfoldable pub truncate_from : Outcome → ℕ → Disk → Disk × Bool
truncate_from o from d = write o (truncated from ∷ []) d

-- saveSnapshot first installs the snapshot file and then swaps the log for a new one; each swap is
-- a rename, so a failure leaves the old file or the new one.
pub data SnapshotOutcome : Type 0 where
  snapshot_saved failed_before failed_installed failed_rewritten : SnapshotOutcome

abbrev rewritten : ℕ → ℕ → List Entry → List Rec
rewritten hard_term voted_for keep = hard_state hard_term voted_for ∷ map appended keep

unfoldable pub save_snapshot : SnapshotOutcome → Snapshot → ℕ → ℕ → List Entry → Disk → Disk × Bool
save_snapshot snapshot_saved snap hard_term voted_for keep d =
    (record { records = rewritten hard_term voted_for keep; snapshot = some snap }, true)
save_snapshot failed_before snap hard_term voted_for keep d = (d, false)
save_snapshot failed_installed snap hard_term voted_for keep d =
    (record d { snapshot = some snap }, false)
save_snapshot failed_rewritten snap hard_term voted_for keep d =
    (record { records = rewritten hard_term voted_for keep; snapshot = some snap }, false)

-- The state that is recovered at startup; snapshot index 0 means that there is none.
pub record Persisted : Type 0 where
  pub term : ℕ
  pub voted_for : ℕ
  pub entries : List Entry
  pub snap : Snapshot

abbrev is_nil : List Entry → Bool
is_nil [] = true
is_nil (x ∷ xs) = false

-- for len(entries) > 0 && last.Index >= from { drop the last }
unfoldable pub pop_from : ℕ → List Entry → List Entry
pop_from from [] = []
pop_from from (x ∷ xs) =
    let rest = pop_from from xs in if is_nil rest && leb from x.index then [] else x ∷ rest

unfoldable pub replay_record : Persisted → Rec → Persisted
unfolding pop_from
replay_record st (hard_state term voted_for) = record st { term = term; voted_for = voted_for }
replay_record st (appended e) = record st { entries = st.entries ++ (e ∷ []) }
replay_record st (truncated from) = record st { entries = pop_from from st.entries }

-- The entries past the snapshot point.
unfoldable pub live_entries : ℕ → List Entry → List Entry
live_entries snap_index [] = []
live_entries snap_index (x ∷ xs) =
    let rest = live_entries snap_index xs in if leb x.index snap_index then rest else x ∷ xs

abbrev pub no_snapshot : Snapshot
no_snapshot = record { index = 0; term = 0; payload = [] }

abbrev pub snapshot_of : Option Snapshot → Snapshot
snapshot_of none = no_snapshot
snapshot_of (some snap) = snap

unfoldable pub recover : Disk → Persisted
unfolding replay_record live_entries
recover d =
    let snap = snapshot_of d.snapshot in
    let st =
      foldl replay_record (record { term = 0; voted_for = no_vote; entries = []; snap = snap })
        d.records in
    record st {
      entries = if ltb 0 snap.index then live_entries snap.index st.entries else st.entries;
    }
