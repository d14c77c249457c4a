-- ===== src/Storage/Tests.antt =====
-- Runs of the storage engine's theorems on a store with one or two keys.
use kill_my_cluster.Prelude.{
  ℕ, ◌+◌, ◌≡◌, ◌≢◌, ◌⊎◌, refl, arith, true, false, some, [], ◌∷◌, take, length, list_eq,
}
use mathlib.Core.List.{foldl}
use kill_my_cluster.Prelude.Bytes.{Bytes, be32}
use kill_my_cluster.Prelude.Map.{SameMap}
use kill_my_cluster.Prelude.Result.{Result, ok, panic}
use kill_my_cluster.Storage.Record.{
  Command, Error, op_put, op_delete, encode_command, decode_command,
}
use kill_my_cluster.Storage.Record.Codec.{
  IsEncodable, decode_command-encode_command, decode_command-ne-panic,
}
use kill_my_cluster.Storage.Wal.{Io, open_wal, replay_wal, append, sync}
use kill_my_cluster.Storage.Wal.Recovery.{frames, whole, replay_wal-cut}
use kill_my_cluster.Storage.Store.{
  Store, Data, missing, apply, log_payload, log_and_apply, snapshot, crashed, crashed_unnamed,
  load_snapshot, open_store, reopen,
}
use kill_my_cluster.Storage.Store.State.{replay_idempotent}
use kill_my_cluster.Storage.Store.Recovery.{
  IsLoggable, IsDurable, Recovers, log_of, kept_commands, opened, open_store-cut,
}
use kill_my_cluster.Storage.Store.Crash.{log_and_apply-crash}
use kill_my_cluster.Storage.Store.Compaction.{snapshot-crash, snapshot-IsDurable}
use kill_my_cluster.Storage.Store.Effect.{Request}
use kill_my_cluster.Storage.Store.History.{
  History, Explained, created, wrote, name_lost_in_write, History-Explained,
}

abbrev write_a : Command
write_a = record { op = op_put; key = 97 ∷ []; value = 1 ∷ 2 ∷ [] }

abbrev delete_a : Command
delete_a = record { op = op_delete; key = 97 ∷ []; value = [] }

write_a-IsEncodable : IsEncodable write_a
write_a-IsEncodable = record { op_byte = omega arith; key_fits = omega arith }

decode_command-encode_command_example : decode_command (encode_command write_a) ≡ ok write_a
decode_command-encode_command_example = decode_command-encode_command write_a write_a-IsEncodable

decode_command-ne-panic_example : decode_command (1 ∷ 255 ∷ 255 ∷ 255 ∷ 255 ∷ 7 ∷ []) ≢ panic
decode_command-ne-panic_example =
    decode_command-ne-panic (1 ∷ 255 ∷ 255 ∷ 255 ∷ 255 ∷ 7 ∷ []) (omega arith)

abbrev write_a-IsLoggable : IsLoggable write_a
unfolding encode_command be32
write_a-IsLoggable = record { encodable = write_a-IsEncodable; frame_fits = omega arith }

abbrev one_key : Data
one_key = foldl apply [] (write_a ∷ [])

abbrev one_write : Store
one_write = opened missing [] (write_a ∷ [])

abbrev one_write-IsDurable : IsDurable one_write
unfolding load_snapshot
one_write-IsDurable = record {
  base = [];
  cmds = write_a ∷ [];
  loads = refl;
  loggable = (write_a-IsLoggable, tt);
  log = refl;
  settled = refl;
  content = λ k. refl;
}

abbrev no_fsync : Io
no_fsync = record { header_written = true; payload_written = true; flushed = true; synced = false }

abbrev all_well : Io
all_well = record { header_written = true; payload_written = true; flushed = true; synced = true }

replay_idempotent_example : SameMap (foldl apply one_key (write_a ∷ [])) one_key
replay_idempotent_example =
    replay_idempotent [] one_key one_key (write_a ∷ []) (λ k. refl) (λ k. refl)

open_store-cut_example :
    open_store (record { snapshot_bin = missing; wal_log = some (take 9 (log_of (write_a ∷ []))) })
    ≡ ok (opened missing [] (take (kept_commands 9 (write_a ∷ [])) (write_a ∷ [])))
unfolding load_snapshot
open_store-cut_example = open_store-cut 9 missing [] (write_a ∷ []) refl (write_a-IsLoggable, tt)

log_and_apply-crash_example :
    Recovers (crashed 9 false (log_and_apply no_fsync delete_a one_write).0) one_key
    ⊎ Recovers
        (crashed 9 false (log_and_apply no_fsync delete_a one_write).0)
        (apply one_key delete_a)
unfolding encode_command be32
log_and_apply-crash_example =
    log_and_apply-crash no_fsync delete_a one_write 9 false one_write-IsDurable (record {
      encodable = record { op_byte = omega arith; key_fits = omega arith };
      frame_fits = omega arith;
    })

snapshot-crash_example : Recovers (crashed 0 false (snapshot 4 one_write).0) one_key
snapshot-crash_example = snapshot-crash one_write one_write-IsDurable 4 0 false

snapshot-IsDurable_example :
    ((snapshot 8 one_write).1 ≡ true)
    × IsDurable (snapshot 8 one_write).0
    × ((snapshot 8 one_write).0.data_map ≡ one_key)
    × ((snapshot 8 one_write).0.wal ≡ open_wal [])
snapshot-IsDurable_example = snapshot-IsDurable one_write one_write-IsDurable

-- A callback that counts the bytes.
abbrev count_bytes : ℕ → Bytes → Result Error ℕ
count_bytes n p = ok (length p)

abbrev count_step : ℕ → Bytes → ℕ
count_step n p = length p

abbrev AnyPayload : Bytes → Type 0
AnyPayload p = Unit {0}

replay_wal-cut_example :
    replay_wal count_bytes (some (take 11 (frames ((5 ∷ []) ∷ (6 ∷ 7 ∷ []) ∷ [])))) 0 ≡ record {
      state =
          foldl count_step 0
            (take (whole 11 ((5 ∷ []) ∷ (6 ∷ 7 ∷ []) ∷ [])) ((5 ∷ []) ∷ (6 ∷ 7 ∷ []) ∷ []));
      valid_offset =
          0
          + length (
              frames
                (take (whole 11 ((5 ∷ []) ∷ (6 ∷ 7 ∷ []) ∷ [])) ((5 ∷ []) ∷ (6 ∷ 7 ∷ []) ∷ [])));
      outcome = ok tt;
    }
replay_wal-cut_example =
    replay_wal-cut count_bytes count_step AnyPayload (λ s p good. refl) 11 0
      ((5 ∷ []) ∷ (6 ∷ 7 ∷ []) ∷ []) (omega arith, (omega arith, tt)) (tt, (tt, tt))

-- What Open makes of an empty directory.
abbrev empty_store : Store
empty_store = record (opened missing [] []) { wal_named = false }

abbrev acknowledged_write : Request
acknowledged_write = record { command = write_a; acknowledged = true }

abbrev failed_write : Request
failed_write = record { command = write_a; acknowledged = false }

-- A write is acknowledged; in the next one a crash loses the name of the log, and with it the first one;
-- a third write is acknowledged.
abbrev three_writes-History :
    History
      (failed_write ∷ failed_write ∷ acknowledged_write ∷ [])
      (log_and_apply all_well write_a empty_store).0
unfolding open_store reopen load_snapshot replay_wal log_and_apply log_payload append sync
    crashed_unnamed
three_writes-History =
    wrote {requests = failed_write ∷ failed_write ∷ []} {s = empty_store} all_well write_a
      (name_lost_in_write {requests = acknowledged_write ∷ []} {t = empty_store} no_fsync write_a
        false
        (wrote {requests = []} {s = empty_store} all_well write_a (created refl) write_a-IsLoggable
          refl)
        refl refl)
      write_a-IsLoggable refl

History-Explained_example :
    Explained
      (failed_write ∷ failed_write ∷ acknowledged_write ∷ [])
      (log_and_apply all_well write_a empty_store).0
History-Explained_example = History-Explained three_writes-History
