-- ===== src/Storage/Store.antt =====
-- internal/storage/store.go and snapshot.go: the store, its recovery and its compaction.

pub mod State
pub mod Recovery
pub mod Crash
pub mod Compaction
pub mod History
pub mod Effect
use kill_my_cluster.Prelude.{
  list_eq, ℕ, suc, not, Bool, true, false, Option, none, some, List, [], ◌∷◌, ltb, ◌==◌,
  if◌then◌else◌, length, take,
}
use mathlib.Core.Option
use kill_my_cluster.Prelude.Bytes.{Bytes}
use kill_my_cluster.Prelude.Map.{Map}
use kill_my_cluster.Prelude.Map
use kill_my_cluster.Prelude.Result.{Result, ok, err, panic, ◌>>=◌, ◌>>◌}
use kill_my_cluster.Storage.Record.{
  Command, Error, op_put, op_delete, bad_snapshot, encode_command, decode_command,
}
use kill_my_cluster.Storage.Wal.{Wal, Io, Replay, append, sync, open_wal, crash, replay_wal}
use kill_my_cluster.Storage.Wal

abbrev pub Data : Type 0
Data = Map Bytes Bytes

-- A file that holds a gob image. An image that was not wholly written does not decode.
pub data File : Type 0 where
  missing : File
  partial : File
  image : Data → File

-- The directory: `snapshot_file` is what a directory sync has made stable under the name snapshot.bin,
-- `renamed` a rename onto that name which is not stable yet, and `wal_named` says that the name wal.log
-- is stable, which no fsync of the file itself makes it.
pub record Store : Type 0 where
  pub data_map : Data
  pub wal : Wal
  pub wal_open : Bool
  pub wal_named : Bool
  pub snapshot_file : File
  pub renamed : Option File
  pub snapshot_tmp : File

-- for k, v := range from { to[k] = v }
unfoldable pub copy_into : Data → Data → Data
copy_into to [] = to
copy_into to ((k, v) ∷ from) = Map.put k v (copy_into to from)

unfoldable pub apply : Data → Command → Data
apply m cmd =
    if cmd.op == op_put
    then Map.put cmd.key cmd.value m
    else if cmd.op == op_delete
    then Map.remove cmd.key m
    else m

-- Of a store that is not closed: after Close, and after a compaction that has failed past close_wal, a
-- write panics or fails. The bool says that no error was returned. The first two steps of logAndApply:
unfoldable pub log_payload : Io → Bytes → Wal → Wal × Bool
log_payload io payload w =
    let (appended, no_append_error) = append io payload w in
    let (synced, no_sync_error) = sync io appended in
    if no_append_error then (synced, no_sync_error) else (appended, false)

unfoldable pub log_and_apply : Io → Command → Store → Store × Bool
log_and_apply io cmd s =
    let (w, no_error) = log_payload io (encode_command cmd) s.wal in
    if no_error
    then (record s { wal = w; data_map = apply s.data_map cmd }, true)
    else (record s { wal = w }, false)

unfoldable pub put : Io → Bytes → Bytes → Store → Store × Bool
unfolding log_and_apply
put io key value s = log_and_apply io (record { op = op_put; key = key; value = value }) s

unfoldable pub delete : Io → Bytes → Store → Store × Bool
unfolding log_and_apply
delete io key s = log_and_apply io (record { op = op_delete; key = key; value = [] }) s

unfoldable pub get : Bytes → Store → Option Bytes
get key s = Map.get key s.data_map

unfoldable pub len : Store → ℕ
len s = length s.data_map

-- A second Close does nothing.
unfoldable pub close : Bool → Store → Store × Bool
close flushed s =
    if s.wal_open
    then (let (w, no_error) = Wal.close flushed s.wal in
        (record s { wal = w; wal_open = false }, no_error))
    else (s, true)

-- The calls of Snapshot on the file system, in order.
pub data SnapshotStep : Type 0 where
  create_tmp write_tmp sync_tmp rename_tmp sync_dir close_wal truncate_wal reopen_wal : SnapshotStep

abbrev pub snapshot_steps : List SnapshotStep
snapshot_steps =
    create_tmp ∷ write_tmp ∷ sync_tmp ∷ rename_tmp ∷ sync_dir ∷ close_wal ∷ truncate_wal
    ∷ reopen_wal ∷ []

-- What reached the disk of a file that was written and not fsynced is unknown: until `sync_tmp`
-- the temporary file counts as partial. A truncation counts as stable at once.
unfoldable pub snapshot_step : Data → SnapshotStep → Store → Store
snapshot_step snap create_tmp s = record s { snapshot_tmp = partial }
snapshot_step snap write_tmp s = record s { snapshot_tmp = partial }
snapshot_step snap sync_tmp s = record s { snapshot_tmp = image snap }
snapshot_step snap rename_tmp s = record s { renamed = some s.snapshot_tmp; snapshot_tmp = missing }
snapshot_step snap sync_dir s = record s {
  snapshot_file = Option.get_or s.renamed s.snapshot_file;
  renamed = none;
  wal_named = true;
}
snapshot_step snap close_wal s = record s { wal = (Wal.close true s.wal).0; wal_open = false }
snapshot_step snap truncate_wal s = record s { wal = open_wal [] }
snapshot_step snap reopen_wal s = record s { wal_open = true }

unfoldable pub snapshot_run : Data → List SnapshotStep → Store → Store
unfolding snapshot_step
snapshot_run snap [] s = s
snapshot_run snap (step ∷ steps) s = snapshot_run snap steps (snapshot_step snap step s)

-- The first `done` calls succeed and the next one fails, or the process dies there.
unfoldable pub snapshot : ℕ → Store → Store × Bool
unfolding snapshot_run copy_into
snapshot done s = (
  snapshot_run (copy_into [] s.data_map) (take done snapshot_steps) s,
  not (ltb done (length snapshot_steps)),
)

-- What a crash leaves in the directory: `kept` bytes of the log that no fsync covers, and the one
-- or the other file under the snapshot's name while a rename is not stable. `crashed` is a crash that
-- keeps the name wal.log.
pub record Files : Type 0 where
  pub snapshot_bin : File
  pub wal_log : Option Bytes

abbrev pub chosen_file : Bool → Store → File
chosen_file new_name s =
    if new_name then Option.get_or s.renamed s.snapshot_file else s.snapshot_file

unfoldable pub crashed : ℕ → Bool → Store → Files
crashed kept new_name s = record {
  snapshot_bin = chosen_file new_name s;
  wal_log = some (crash kept s.wal);
}

-- A crash that loses the name wal.log, while that is not stable.
unfoldable pub crashed_unnamed : Bool → Store → Files
crashed_unnamed new_name s = record { snapshot_bin = chosen_file new_name s; wal_log = none }

unfoldable pub load_snapshot : File → Data → Result Error Data
unfolding copy_into
load_snapshot missing m = ok m
load_snapshot partial m = err bad_snapshot
load_snapshot (image snap) m = ok (copy_into m snap)

-- The callback that Open hands to replayWAL.
unfoldable pub replay_command : Data → Bytes → Result Error Data
unfolding apply
replay_command m payload = do cmd ← decode_command payload; ok (apply m cmd)

-- os.Stat and os.Truncate: a torn tail is cut off.
-- os.Stat finds wal.log; OpenWAL creates it where it does not, and Open does not sync the directory.
abbrev found : Option Bytes → Bool
found none = false
found (some file) = true

abbrev truncate_torn : Option Bytes → ℕ → Bytes
truncate_torn none offset = []
truncate_torn (some file) offset = if ltb offset (length file) then take offset file else file

unfoldable pub reopen : Files → Replay Error Data → Result Error Store
reopen files r = do
  r.outcome
  ok (record {
    data_map = r.state;
    wal = open_wal (truncate_torn files.wal_log r.valid_offset);
    wal_open = true;
    wal_named = found files.wal_log;
    snapshot_file = files.snapshot_bin;
    renamed = none;
    snapshot_tmp = missing;
  })

unfoldable pub open_store : Files → Result Error Store
unfolding reopen
open_store files = do
  m ← load_snapshot files.snapshot_bin []
  reopen files (replay_wal replay_command files.wal_log m)
