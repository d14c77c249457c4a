-- ===== src/Storage/Store/Compaction.antt =====
-- internal/storage/snapshot.go: Snapshot, and crashes between its calls.
use kill_my_cluster.Prelude.{
  ℕ, zero, suc, list_eq, Bool, true, false, some, [], ◌≡◌, refl, ap, ◌∙◌, sym, if◌then◌else◌, subst,
  ◌⊎◌, inl, inr,
}
use mathlib.Core.Option
use mathlib.Core.Path.{ap₂}
use kill_my_cluster.Prelude.Bytes.{Bytes}
use kill_my_cluster.Prelude.Map.{SameMap}
use kill_my_cluster.Prelude.Result.{ok}
use kill_my_cluster.Storage.Wal.{Wal, open_wal, crash}
use kill_my_cluster.Storage.Wal
use kill_my_cluster.Storage.Store.{
  Store, File, image, Data, load_snapshot, crashed, chosen_file, copy_into, snapshot, snapshot_run,
  snapshot_step,
}
use kill_my_cluster.Storage.Store.State.{replay_idempotent, copy_into-SameMap}
use kill_my_cluster.Storage.Store.Recovery.{IsDurable, Recovers, Recovers-log, log_of}
use kill_my_cluster.Storage.Store.Crash.{crash-open_wal}

module _ (s : Store) (d : IsDurable s) where
  abbrev pub snap : Data
  snap = copy_into [] s.data_map

  abbrev pub loaded : Data
  loaded = copy_into [] snap

  pub loaded-SameMap : SameMap loaded s.data_map
  loaded-SameMap k = copy_into-SameMap snap k ∙ copy_into-SameMap s.data_map k

  pub loads_image : load_snapshot (image snap) [] ≡ ok loaded
  unfolding load_snapshot
  loads_image = refl

  -- The three pairs of a snapshot and a log that a crash can leave.
  old_old :
      Recovers
        (record { snapshot_bin = s.snapshot_file; wal_log = some (log_of d.cmds) })
        s.data_map
  old_old = Recovers-log s.snapshot_file d.base s.data_map d.cmds d.loads d.loggable d.content

  new_old :
      Recovers (record { snapshot_bin = image snap; wal_log = some (log_of d.cmds) }) s.data_map
  new_old =
      Recovers-log (image snap) loaded s.data_map d.cmds loads_image d.loggable
        (replay_idempotent d.base s.data_map loaded d.cmds d.content loaded-SameMap)

  new_empty : Recovers (record { snapshot_bin = image snap; wal_log = some [] }) s.data_map
  new_empty = Recovers-log (image snap) loaded s.data_map [] loads_image tt loaded-SameMap

  -- From what the store looks like after some of the calls.
  by_files :
      (t : Store) (kept : ℕ) (new_name : Bool) (file : File) (log : Bytes)
      → (if new_name then Option.get_or t.renamed t.snapshot_file else t.snapshot_file) ≡ file
      → crash kept t.wal ≡ log
      → Recovers (record { snapshot_bin = file; wal_log = some log }) s.data_map
      → Recovers (crashed kept new_name t) s.data_map
  unfolding crashed
  by_files t kept new_name file log f l r =
      subst (λ x. Recovers x s.data_map)
        (sym (ap₂ (λ a b. record { snapshot_bin = a; wal_log = some b }) f l)) r

  either_name :
      (b : Bool)
      → (if b then Option.get_or s.renamed s.snapshot_file else s.snapshot_file) ≡ s.snapshot_file
  either_name true = ap (λ r. Option.get_or r s.snapshot_file) d.settled
  either_name false = refl

  one_name : (b : Bool) → (if b then image snap else image snap) ≡ image snap
  one_name true = refl
  one_name false = refl

  rest : (kept : ℕ) → crash kept s.wal ≡ log_of d.cmds
  rest kept = ap (crash kept) d.log ∙ crash-open_wal kept (log_of d.cmds)

  closed : (kept : ℕ) → crash kept (Wal.close true s.wal).0 ≡ log_of d.cmds
  unfolding Wal.close
  closed kept =
      ap (λ w. crash kept (Wal.close true w).0) d.log ∙ crash-open_wal kept (log_of d.cmds)

  -- For a store at rest: whichever call of a compaction is the last to succeed, whatever a crash that
  -- keeps the name of the log keeps of its bytes and of a rename that is not stable, opening the directory succeeds and gives
  -- the content that the store had.
  pub snapshot-crash :
      (done kept : ℕ) (new_name : Bool)
      → Recovers (crashed kept new_name (snapshot done s).0) s.data_map
  unfolding snapshot snapshot_run snapshot_step
  snapshot-crash zero kept new_name =
      by_files _ kept new_name _ _ (either_name new_name) (rest kept) old_old
  snapshot-crash (suc zero) kept new_name =
      by_files _ kept new_name _ _ (either_name new_name) (rest kept) old_old
  snapshot-crash (suc (suc zero)) kept new_name =
      by_files _ kept new_name _ _ (either_name new_name) (rest kept) old_old
  snapshot-crash (suc (suc (suc zero))) kept new_name =
      by_files _ kept new_name _ _ (either_name new_name) (rest kept) old_old
  snapshot-crash (suc (suc (suc (suc zero)))) kept true =
      by_files _ kept true _ _ refl (rest kept) new_old
  snapshot-crash (suc (suc (suc (suc zero)))) kept false =
      by_files _ kept false _ _ refl (rest kept) old_old
  snapshot-crash (suc (suc (suc (suc (suc zero))))) kept new_name =
      by_files _ kept new_name _ _ (one_name new_name) (rest kept) new_old
  snapshot-crash (suc (suc (suc (suc (suc (suc zero)))))) kept new_name =
      by_files _ kept new_name _ _ (one_name new_name) (closed kept) new_old
  snapshot-crash (suc (suc (suc (suc (suc (suc (suc zero))))))) kept new_name =
      by_files _ kept new_name _ _ (one_name new_name) (crash-open_wal kept []) new_empty
  snapshot-crash (suc (suc (suc (suc (suc (suc (suc (suc zero)))))))) kept new_name =
      by_files _ kept new_name _ _ (one_name new_name) (crash-open_wal kept []) new_empty
  snapshot-crash (suc (suc (suc (suc (suc (suc (suc (suc (suc n))))))))) kept new_name =
      by_files _ kept new_name _ _ (one_name new_name) (crash-open_wal kept []) new_empty

  -- The snapshot that a crash inside a compaction leaves, whichever call is the last to succeed.
  pub snapshot-chosen :
      (done : ℕ) (new_name : Bool)
      → (chosen_file new_name (snapshot done s).0 ≡ s.snapshot_file)
        ⊎ (chosen_file new_name (snapshot done s).0 ≡ image snap)
  unfolding snapshot snapshot_run snapshot_step
  snapshot-chosen zero new_name = inl (either_name new_name)
  snapshot-chosen (suc zero) new_name = inl (either_name new_name)
  snapshot-chosen (suc (suc zero)) new_name = inl (either_name new_name)
  snapshot-chosen (suc (suc (suc zero))) new_name = inl (either_name new_name)
  snapshot-chosen (suc (suc (suc (suc zero)))) true = inr refl
  snapshot-chosen (suc (suc (suc (suc zero)))) false = inl refl
  snapshot-chosen (suc (suc (suc (suc (suc zero))))) new_name = inr (one_name new_name)
  snapshot-chosen (suc (suc (suc (suc (suc (suc zero)))))) new_name = inr (one_name new_name)
  snapshot-chosen (suc (suc (suc (suc (suc (suc (suc zero))))))) new_name = inr (one_name new_name)
  snapshot-chosen (suc (suc (suc (suc (suc (suc (suc (suc zero)))))))) new_name =
      inr (one_name new_name)
  snapshot-chosen (suc (suc (suc (suc (suc (suc (suc (suc (suc n))))))))) new_name =
      inr (one_name new_name)

  -- For a store at rest, a compaction whose calls all succeed returns no error and leaves a store
  -- at rest, with the same map and an empty log.
  pub snapshot-IsDurable :
      ((snapshot 8 s).1 ≡ true)
      × IsDurable (snapshot 8 s).0
      × ((snapshot 8 s).0.data_map ≡ s.data_map)
      × ((snapshot 8 s).0.wal ≡ open_wal [])
  unfolding snapshot snapshot_run snapshot_step
  snapshot-IsDurable = (
    refl,
    record {
      base = loaded;
      cmds = [];
      loads = loads_image;
      loggable = tt;
      log = refl;
      settled = refl;
      content = loaded-SameMap;
    },
    refl,
    refl,
  )
