-- ===== src/Raft/Disk/Hard.antt =====
-- internal/raft/persist.go: the term and the vote among the records on disk.
use kill_my_cluster.Prelude.{
  ℕ, zero, suc, Bool, true, false, some, List, [], ◌∷◌, ◌++◌, map, ◌≡◌, refl, ap, ◌∙◌, sym, take,
  if◌then◌else◌,
}
use mathlib.Core.List.{foldl}
use kill_my_cluster.Raft.Log.{Entry}
use kill_my_cluster.Raft.Disk.{
  Disk, Rec, Outcome, SnapshotOutcome, Snapshot, Persisted, hard_state, appended, truncated, saved,
  failed, snapshot_saved, failed_before, failed_installed, failed_rewritten, no_vote, snapshot_of,
  replay_record, recover, save_hard_state, append_entries, truncate_from, save_snapshot,
}

pub record HardState : Type 0 where
  pub term : ℕ
  pub voted_for : ℕ

abbrev pub hard_of : Disk → HardState
hard_of d = record { term = (recover d).term; voted_for = (recover d).voted_for }

-- The same, by the hard-state records alone.
abbrev last_hard : HardState → List Rec → HardState
last_hard h [] = h
last_hard h (hard_state t v ∷ rs) = last_hard (record { term = t; voted_for = v }) rs
last_hard h (appended e ∷ rs) = last_hard h rs
last_hard h (truncated i ∷ rs) = last_hard h rs

abbrev hard_part : Persisted → HardState
hard_part st = record { term = st.term; voted_for = st.voted_for }

hard_part-foldl :
    (st : Persisted) (rs : List Rec)
    → hard_part (foldl replay_record st rs) ≡ last_hard (hard_part st) rs
unfolding replay_record
hard_part-foldl st [] = refl
hard_part-foldl st (hard_state t v ∷ rs) = hard_part-foldl (replay_record st (hard_state t v)) rs
hard_part-foldl st (appended e ∷ rs) = hard_part-foldl (replay_record st (appended e)) rs
hard_part-foldl st (truncated i ∷ rs) = hard_part-foldl (replay_record st (truncated i)) rs

abbrev unset : HardState
unset = record { term = 0; voted_for = no_vote }

pub hard_of-records : (d : Disk) → hard_of d ≡ last_hard unset d.records
unfolding recover
hard_of-records d =
    hard_part-foldl
      (record { term = 0; voted_for = no_vote; entries = []; snap = snapshot_of d.snapshot })
      d.records

last_hard-append :
    (h : HardState) (rs ss : List Rec) → last_hard h (rs ++ ss) ≡ last_hard (last_hard h rs) ss
last_hard-append h [] ss = refl
last_hard-append h (hard_state t v ∷ rs) ss =
    last_hard-append (record { term = t; voted_for = v }) rs ss
last_hard-append h (appended e ∷ rs) ss = last_hard-append h rs ss
last_hard-append h (truncated i ∷ rs) ss = last_hard-append h rs ss

last_hard-appended : (h : HardState) (es : List Entry) → last_hard h (map appended es) ≡ h
last_hard-appended h [] = refl
last_hard-appended h (e ∷ es) = last_hard-appended h es

last_hard-take_appended :
    (h : HardState) (n : ℕ) (es : List Entry) → last_hard h (take n (map appended es)) ≡ h
last_hard-take_appended h zero es = refl
last_hard-take_appended h (suc n) [] = refl
last_hard-take_appended h (suc n) (e ∷ es) = last_hard-take_appended h n es

grown :
    (d : Disk) (rs : List Rec)
    → hard_of (record d { records = d.records ++ rs }) ≡ last_hard (hard_of d) rs
grown d rs =
    hard_of-records (record d { records = d.records ++ rs })
    ∙ (last_hard-append unset d.records rs ∙ ap (λ h. last_hard h rs) (sym (hard_of-records d)))

-- Writing entries or a truncation leaves the hard state alone, however the call ends.
pub hard_of-append_entries :
    (o : Outcome) (es : List Entry) (d : Disk) → hard_of (append_entries o es d).0 ≡ hard_of d
unfolding append_entries
hard_of-append_entries saved es d = grown d (map appended es) ∙ last_hard-appended (hard_of d) es
hard_of-append_entries (failed n) es d =
    grown d (take n (map appended es)) ∙ last_hard-take_appended (hard_of d) n es

pub hard_of-truncate_from :
    (o : Outcome) (i : ℕ) (d : Disk) → hard_of (truncate_from o i d).0 ≡ hard_of d
unfolding truncate_from
hard_of-truncate_from saved i d = grown d (truncated i ∷ [])
hard_of-truncate_from (failed zero) i d = grown d []
hard_of-truncate_from (failed (suc n)) i d = grown d (truncated i ∷ take n []) ∙ empty n
  where
    empty : (n : ℕ) → last_hard (hard_of d) (take n []) ≡ hard_of d
    empty zero = refl
    empty (suc n) = refl

-- A saved hard state is what is recovered.
pub hard_of-save :
    (t v : ℕ) (d : Disk)
    → (hard_of (save_hard_state saved t v d).0 ≡ record { term = t; voted_for = v })
unfolding save_hard_state
hard_of-save t v d = grown d (hard_state t v ∷ [])

-- One whose saving failed is recovered or not.
pub hard_of-save_failed :
    (n t v : ℕ) (d : Disk)
    → hard_of (save_hard_state (failed n) t v d).0
      ≡ (elim n [ zero ↦ hard_of d | suc _ ↦ record { term = t; voted_for = v } ])
unfolding save_hard_state
hard_of-save_failed zero t v d = grown d []
hard_of-save_failed (suc zero) t v d = grown d (hard_state t v ∷ [])
hard_of-save_failed (suc (suc n)) t v d = grown d (hard_state t v ∷ [])

abbrev pub rewrites : SnapshotOutcome → Bool
rewrites snapshot_saved = true
rewrites failed_before = false
rewrites failed_installed = false
rewrites failed_rewritten = true

-- A snapshot that gets as far as the new log writes the hard state anew.
pub hard_of-save_snapshot :
    (o : SnapshotOutcome) (snap : Snapshot) (t v : ℕ) (keep : List Entry) (d : Disk)
    → hard_of (save_snapshot o snap t v keep d).0
      ≡ (if rewrites o then record { term = t; voted_for = v } else hard_of d)
unfolding save_snapshot
hard_of-save_snapshot snapshot_saved snap t v keep d =
    hard_of-records _ ∙ last_hard-appended (record { term = t; voted_for = v }) keep
hard_of-save_snapshot failed_before snap t v keep d = refl
hard_of-save_snapshot failed_installed snap t v keep d =
    hard_of-records (record d { snapshot = some snap }) ∙ sym (hard_of-records d)
hard_of-save_snapshot failed_rewritten snap t v keep d =
    hard_of-records _ ∙ last_hard-appended (record { term = t; voted_for = v }) keep
