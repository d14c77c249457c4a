-- ===== src/Storage/Store/Effect.antt =====
-- internal/storage/store.go and snapshot.go: which writes count, and what a snapshot holds of them without
-- the log.
use kill_my_cluster.Prelude.{
  Bool, true, false, list_eq, none, List, [], ◌∷◌, ◌++◌, ◌≡◌, refl, ap, ◌∙◌, sym, subst,
}
use mathlib.Core.List.{foldl}
use kill_my_cluster.Prelude.Map.{SameMap}
use kill_my_cluster.Prelude.Result.{Result, ok, err, panic, ◌>>◌, ◌>>=◌}
use kill_my_cluster.Storage.Record.{Command, Error}
use kill_my_cluster.Storage.Wal.{Replay, replay_wal, open_wal}
use kill_my_cluster.Storage.Store.{
  Store, File, Files, missing, Data, apply, load_snapshot, replay_command, reopen, open_store,
}
use kill_my_cluster.Storage.Store.Recovery.{IsDurable}

-- A write that was asked for, and whether it must last: the caller was told that it succeeded, and no
-- crash has lost the name of the log since.
pub record Request : Type 0 where
  pub command : Command
  pub acknowledged : Bool

-- The requests, none of which must last any more.
abbrev pub revoked : List Request → List Request
revoked [] = []
revoked (r ∷ rs) = record r { acknowledged = false } ∷ revoked rs

revoked-append :
    (rs : List Request) (r : Request)
    → revoked (rs ++ (r ∷ [])) ≡ revoked rs ++ (record r { acknowledged = false } ∷ [])
revoked-append [] r = refl
revoked-append (q ∷ rs) r = ap (λ t. record q { acknowledged = false } ∷ t) (revoked-append rs r)

-- The commands that took effect: all that were acknowledged, and any of the others, in order.
pub data Effective : List Request → List Command → Type 0 where
  nothing : Effective [] []
  took :
      {requests : List Request} {cmds : List Command} (c : Command) (b : Bool)
      → Effective requests cmds
      → Effective (requests ++ (record { command = c; acknowledged = b } ∷ [])) (cmds ++ (c ∷ []))
  lost :
      {requests : List Request} {cmds : List Command} (c : Command)
      → Effective requests cmds
      → Effective (requests ++ (record { command = c; acknowledged = false } ∷ [])) cmds

pub Effective-revoked :
    {rs : List Request} {cmds : List Command} → Effective rs cmds → Effective (revoked rs) cmds
Effective-revoked nothing = nothing
Effective-revoked (took {requests = rs} {cmds = cmds} c b e) =
    subst (λ q. Effective q (cmds ++ (c ∷ []))) (sym (revoked-append rs _))
      (took c false (Effective-revoked e))
Effective-revoked (lost {requests = rs} {cmds = cmds} c e) =
    subst (λ q. Effective q cmds) (sym (revoked-append rs _)) (lost c (Effective-revoked e))

-- The snapshot alone holds what some of the commands build.
pub record Alone (requests : List Request) (file : File) : Type 0 where
  pub cmds : List Command
  pub effective : Effective (revoked requests) cmds
  pub base : Data
  pub loads : load_snapshot file [] ≡ ok base
  pub content : SameMap (foldl apply [] cmds) base

-- One request more is not in the snapshot.
pub Alone-later :
    {rs : List Request} {file : File} (c : Command) (b : Bool)
    → Alone rs file
    → Alone (rs ++ (record { command = c; acknowledged = b } ∷ [])) file
Alone-later {rs} {file} c b a = record {
  cmds = a.cmds;
  effective = subst (λ q. Effective q a.cmds) (sym (revoked-append rs _)) (lost c a.effective);
  base = a.base;
  loads = a.loads;
  content = a.content;
}

pub Alone-revoked : {rs : List Request} {file : File} → Alone rs file → Alone (revoked rs) file
Alone-revoked a = record {
  cmds = a.cmds;
  effective = Effective-revoked a.effective;
  base = a.base;
  loads = a.loads;
  content = a.content;
}

pub ok_injective : {s t : Store} → ◌≡◌ {A = Result Error Store} (ok s) (ok t) → s ≡ t
ok_injective e = cc

reopen-file :
    (files : Files) (r : Replay Error Data) {t : Store}
    → reopen files r ≡ ok t
    → t.snapshot_file ≡ files.snapshot_bin
unfolding reopen
reopen-file files r {t} e = after r.outcome _ e refl
  where
    after :
        (o : Result Error (Unit {0})) (u : Store)
        → ◌≡◌ {A = Result Error Store} (o >> ok u) (ok t)
        → u.snapshot_file ≡ files.snapshot_bin
        → t.snapshot_file ≡ files.snapshot_bin
    after (ok x) u f same = ap (λ v. v.snapshot_file) (sym (ok_injective f)) ∙ same
    after (err x) u f same = cc
    after panic u f same = cc

-- Opening does not change the snapshot.
pub open_store-file :
    (files : Files) {t : Store} → open_store files ≡ ok t → t.snapshot_file ≡ files.snapshot_bin
unfolding open_store
open_store-file files {t} e = after (load_snapshot files.snapshot_bin []) e
  where
    after :
        (o : Result Error Data)
        → ◌≡◌ {A = Result Error Store}
            (o >>= λ m. reopen files (replay_wal replay_command files.wal_log m))
            (ok t)
        → t.snapshot_file ≡ files.snapshot_bin
    after (ok m) f = reopen-file files (replay_wal replay_command files.wal_log m) f
    after (err x) f = cc
    after panic f = cc

-- A directory that has a snapshot and no log.
pub opened-Alone :
    {rs : List Request} {file : File} {t : Store} (a : Alone rs file)
    → open_store (record { snapshot_bin = file; wal_log = none }) ≡ ok t
    → IsDurable t × SameMap (foldl apply [] a.cmds) t.data_map
unfolding open_store reopen replay_wal
opened-Alone {rs} {file} {t} a e =
    subst (λ u. IsDurable u × SameMap (foldl apply [] a.cmds) u.data_map)
      (ok_injective (sym opens ∙ e)) (rest, a.content)
  where
    bare : Store
    bare = record {
      data_map = a.base;
      wal = open_wal [];
      wal_open = true;
      wal_named = false;
      snapshot_file = file;
      renamed = none;
      snapshot_tmp = missing;
    }

    opens : open_store (record { snapshot_bin = file; wal_log = none }) ≡ ok bare
    opens = rw (a.loads) refl

    rest : IsDurable bare
    rest = record {
      base = a.base;
      cmds = [];
      loads = a.loads;
      loggable = tt;
      log = refl;
      settled = refl;
      content = λ k. refl;
    }
