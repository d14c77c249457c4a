-- ===== src/Storage/Store/History.antt =====
-- The life of a store directory: writes, compactions, crashes inside either, and restarts.
use kill_my_cluster.Prelude.{
  ℕ, Bool, true, false, list_eq, none, List, [], ◌∷◌, ◌++◌, ◌≡◌, refl, ◌∙◌, ap, sym, inl, inr,
  subst,
}
use mathlib.Core.List.{foldl}
use kill_my_cluster.Prelude.Map.{SameMap}
use kill_my_cluster.Prelude.Result.{ok}
use kill_my_cluster.Storage.Record.{Command}
use kill_my_cluster.Storage.Wal.{Io}
use kill_my_cluster.Storage.Store.{
  Store, Files, Data, missing, apply, log_and_apply, snapshot, crashed, crashed_unnamed,
  chosen_file, image, open_store, load_snapshot,
}
use mathlib.Core.Option
use kill_my_cluster.Storage.Store.State.{SameMap-foldl}
use kill_my_cluster.Storage.Store.Effect.{
  Request, revoked, Effective, nothing, took, lost, Effective-revoked, Alone, Alone-later,
  Alone-revoked, ok_injective, open_store-file, opened-Alone,
}
use kill_my_cluster.Storage.Store.Recovery.{IsLoggable, IsDurable, Recovers}
use kill_my_cluster.Storage.Store.Crash.{written_rest, log_and_apply-crash, log_and_apply-IsDurable}
use kill_my_cluster.Storage.Store.Compaction.{
  snap, loaded, loads_image, loaded-SameMap, snapshot-chosen, snapshot-crash, snapshot-IsDurable,
}

-- A store that `requests` can have led to, in this order. A write that fails is followed by a crash. A
-- crash that loses the name of the log, while that is not stable, revokes what was acknowledged.
pub data History : List Request → Store → Type 0 where
  created :
      {s : Store}
      → open_store (record { snapshot_bin = missing; wal_log = none }) ≡ ok s
      → History [] s
  wrote :
      {requests : List Request} {s : Store} (io : Io) (c : Command)
      → History requests s
      → IsLoggable c
      → (log_and_apply io c s).1 ≡ true
      → History
          (requests ++ (record { command = c; acknowledged = true } ∷ []))
          (log_and_apply io c s).0
  crashed_in_write :
      {requests : List Request} {s t : Store} (io : Io) (c : Command) (kept : ℕ) (new_name : Bool)
      → History requests s
      → IsLoggable c
      → open_store (crashed kept new_name (log_and_apply io c s).0) ≡ ok t
      → History (requests ++ (record { command = c; acknowledged = false } ∷ [])) t
  compacted :
      {requests : List Request} {s : Store} → History requests s → History requests (snapshot 8 s).0
  crashed_in_compaction :
      {requests : List Request} {s t : Store} (done kept : ℕ) (new_name : Bool)
      → History requests s
      → open_store (crashed kept new_name (snapshot done s).0) ≡ ok t
      → History requests t
  name_lost_in_write :
      {requests : List Request} {s t : Store} (io : Io) (c : Command) (new_name : Bool)
      → History requests s
      → s.wal_named ≡ false
      → open_store (crashed_unnamed new_name (log_and_apply io c s).0) ≡ ok t
      → History (revoked (requests ++ (record { command = c; acknowledged = false } ∷ []))) t
  name_lost_in_compaction :
      {requests : List Request} {s t : Store} (done : ℕ) (new_name : Bool)
      → History requests s
      → (snapshot done s).0.wal_named ≡ false
      → open_store (crashed_unnamed new_name (snapshot done s).0) ≡ ok t
      → History (revoked requests) t

pub record Explained (requests : List Request) (s : Store) : Type 0 where
  pub cmds : List Command
  pub effective : Effective requests cmds
  pub at_rest : IsDurable s
  pub content : SameMap (foldl apply [] cmds) s.data_map
  pub alone : Alone requests s.snapshot_file

-- What recovers is at rest and has the expected content.
recovered :
    (files : Files) (m : Data) {t : Store}
    → Recovers files m
    → open_store files ≡ ok t
    → IsDurable t × SameMap t.data_map m
recovered files m {t} (u, opens, rest, same) e =
    subst (λ x. IsDurable x × SameMap x.data_map m) (ok_injective (sym opens ∙ e)) (rest, same)

fresh :
    {s : Store}
    → open_store (record { snapshot_bin = missing; wal_log = none }) ≡ ok s
    → Explained [] s
unfolding load_snapshot
fresh {s} e =
    let (rest, same) = opened-Alone none_yet e in
    record {
      cmds = [];
      effective = nothing;
      at_rest = rest;
      content = same;
      alone = subst (Alone []) (sym (open_store-file _ e)) none_yet;
    }
  where
    none_yet : Alone [] missing
    none_yet = record {
      cmds = [];
      effective = nothing;
      base = [];
      loads = refl;
      content = λ k. refl;
    }

-- A crash that leaves a snapshot and no log.
without_log :
    {requests : List Request} (s : Store) {t : Store} (new_name : Bool)
    → Alone requests (chosen_file new_name s)
    → open_store (crashed_unnamed new_name s) ≡ ok t
    → Explained (revoked requests) t
unfolding crashed_unnamed
without_log {requests} s {t} new_name a e =
    let (rest, same) = opened-Alone a e in
    record {
      cmds = a.cmds;
      effective = a.effective;
      at_rest = rest;
      content = same;
      alone = subst (Alone (revoked requests)) (sym (open_store-file _ e)) (Alone-revoked a);
    }

-- A crash that keeps the log.
same_snapshot :
    {requests : List Request} (s : Store) {t : Store} (kept : ℕ) (new_name : Bool)
    → Alone requests (chosen_file new_name s)
    → open_store (crashed kept new_name s) ≡ ok t
    → Alone requests t.snapshot_file
unfolding crashed
same_snapshot {requests} s kept new_name a e = subst (Alone requests) (sym (open_store-file _ e)) a

module _ {requests : List Request} {s : Store} (x : Explained requests s) where
  -- The snapshot stays in a write.
  write-Alone :
      (io : Io) (c : Command) (b : Bool)
      → Alone
          (requests ++ (record { command = c; acknowledged = b } ∷ []))
          (log_and_apply io c s).0.snapshot_file
  write-Alone io c b = subst (Alone _) (sym (written_rest io c s).1) (Alone-later c b x.alone)

  write-chosen :
      (io : Io) (c : Command) (new_name : Bool)
      → Alone
          (requests ++ (record { command = c; acknowledged = false } ∷ []))
          (chosen_file new_name (log_and_apply io c s).0)
  write-chosen io c true =
      subst (Alone _)
        (sym (
          ap (λ r. Option.get_or r (log_and_apply io c s).0.snapshot_file)
            ((written_rest io c s).0 ∙ x.at_rest.settled)))
        (write-Alone io c false)
  write-chosen io c false = write-Alone io c false

  -- The new snapshot has it all.
  image-Alone : Alone requests (image (snap s x.at_rest))
  image-Alone = record {
    cmds = x.cmds;
    effective = Effective-revoked x.effective;
    base = loaded s x.at_rest;
    loads = loads_image s x.at_rest;
    content = λ k. x.content k ∙ sym (loaded-SameMap s x.at_rest k);
  }

  compaction-Alone :
      (done : ℕ) (new_name : Bool) → Alone requests (chosen_file new_name (snapshot done s).0)
  compaction-Alone done new_name = elim (snapshot-chosen s x.at_rest done new_name) [
    | inl old ↦ subst (Alone requests) (sym old) x.alone
    | inr new ↦ subst (Alone requests) (sym new) image-Alone
  ]

-- After any history of acknowledged writes, writes that a crash interrupts, compactions, and crashes
-- inside compactions, of commands that fit the format, the store is at rest and its content is that of
-- a list of commands with every acknowledged write in order and each other write wholly or not at all.
-- A crash while the name wal.log is not stable, which is so until the directory is synced in the first
-- compaction or a crash has kept the name, may lose that name: the writes that were acknowledged until
-- then count as not acknowledged, since the program does lose them.
pub History-Explained :
    {requests : List Request} {s : Store} → History requests s → Explained requests s
History-Explained (created e) = fresh e
History-Explained (wrote {s = s} io c h l acked) =
    let x = History-Explained h in
    let (rest, e) = log_and_apply-IsDurable io c s x.at_rest l acked in
    record {
      cmds = x.cmds ++ (c ∷ []);
      effective = took c true x.effective;
      at_rest = rest;
      content = rw e (SameMap-foldl [] s.data_map x.cmds c x.content);
      alone = write-Alone x io c true;
    }
History-Explained (crashed_in_write {s = s} {t = t} io c kept new_name h l e) =
    interrupted (History-Explained h)
  where
    interrupted :
        {r : List Request}
        → Explained r s
        → Explained (r ++ (record { command = c; acknowledged = false } ∷ [])) t
    interrupted x = elim (log_and_apply-crash io c s kept new_name x.at_rest l) [
      | inl old ↦
          let (rest, same) = recovered _ s.data_map old e in
          record {
            cmds = x.cmds;
            effective = lost c x.effective;
            at_rest = rest;
            content = λ k. x.content k ∙ sym (same k);
            alone =
                same_snapshot (log_and_apply io c s).0 kept new_name (write-chosen x io c new_name)
                  e;
          }
      | inr new ↦
          let (rest, same) = recovered _ (apply s.data_map c) new e in
          record {
            cmds = x.cmds ++ (c ∷ []);
            effective = took c false x.effective;
            at_rest = rest;
            content = λ k. SameMap-foldl [] s.data_map x.cmds c x.content k ∙ sym (same k);
            alone =
                same_snapshot (log_and_apply io c s).0 kept new_name (write-chosen x io c new_name)
                  e;
          }
    ]
History-Explained (compacted {s = s} h) =
    let x = History-Explained h in
    let (_, rest, e, _) = snapshot-IsDurable s x.at_rest in
    record {
      cmds = x.cmds;
      effective = x.effective;
      at_rest = rest;
      content = rw e x.content;
      alone = compaction-Alone x 8 false;
    }
History-Explained (crashed_in_compaction {s = s} done kept new_name h e) =
    let x = History-Explained h in
    let (rest, same) = recovered _ s.data_map (snapshot-crash s x.at_rest done kept new_name) e in
    record {
      cmds = x.cmds;
      effective = x.effective;
      at_rest = rest;
      content = λ k. x.content k ∙ sym (same k);
      alone = same_snapshot (snapshot done s).0 kept new_name (compaction-Alone x done new_name) e;
    }
History-Explained (name_lost_in_write io c new_name h unnamed e) =
    without_log _ new_name (write-chosen (History-Explained h) io c new_name) e
History-Explained (name_lost_in_compaction done new_name h unnamed e) =
    without_log _ new_name (compaction-Alone (History-Explained h) done new_name) e
