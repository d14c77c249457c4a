-- ===== src/Storage/Store/Recovery.antt =====
-- internal/storage/store.go: Open after a crash.
use kill_my_cluster.Prelude.{
  ℕ, zero, suc, ◌≤◌, list_eq, true, none, some, List, [], ◌∷◌, map, ◌≡◌, refl, ap, ◌∙◌, arith,
  length, take, subst, All, All-take, take-append, length-append, take_all,
}
use mathlib.Core.List.{foldl}
use mathlib.Core.Path.{ap₂}
use kill_my_cluster.Prelude.Bytes.{Bytes}
use kill_my_cluster.Prelude.Map.{SameMap}
use kill_my_cluster.Prelude.Result.{Result, ok, err, panic}
use kill_my_cluster.Storage.Record.{Command, Error, encode_command, decode_command}
use kill_my_cluster.Storage.Record.Codec.{IsEncodable, decode_command-encode_command}
use kill_my_cluster.Storage.Wal.{open_wal}
use kill_my_cluster.Storage.Wal.Recovery.{
  Fits, frames, whole, whole_all, replay_wal-cut, cut_frames,
}
use kill_my_cluster.Storage.Store.{
  Store, File, Files, missing, Data, apply, load_snapshot, replay_command, open_store,
  truncate_torn,
}

-- A command that the format and the framing can hold.
pub record IsLoggable (c : Command) : Type 0 where
  pub encodable : IsEncodable c
  pub frame_fits : Fits (encode_command c)

abbrev pub log_of : List Command → Bytes
log_of cmds = frames (map encode_command cmds)

-- The payloads of loggable commands.
abbrev Encoded : Bytes → Type 0
Encoded p = (c : Command) × (p ≡ encode_command c) × IsLoggable c

apply_decoded : Data → Result Error Command → Data
apply_decoded m (ok c) = apply m c
apply_decoded m (err e) = m
apply_decoded m panic = m

abbrev apply_payload : Data → Bytes → Data
apply_payload m p = apply_decoded m (decode_command p)

replay_command-Encoded :
    (m : Data) (p : Bytes) → Encoded p → replay_command m p ≡ ok (apply_payload m p)
unfolding replay_command apply_decoded
replay_command-Encoded m p (c, e, l) = rw (e, decode_command-encode_command c l.encodable) refl

apply_payload-encode_command :
    (m : Data) (c : Command) → IsLoggable c → apply_payload m (encode_command c) ≡ apply m c
unfolding apply_decoded
apply_payload-encode_command m c l = rw (decode_command-encode_command c l.encodable) refl

foldl-payloads :
    (m : Data) (cmds : List Command)
    → All IsLoggable cmds
    → foldl apply_payload m (map encode_command cmds) ≡ foldl apply m cmds
foldl-payloads m [] l = refl
foldl-payloads m (c ∷ cs) l =
    ap (λ n. foldl apply_payload n (map encode_command cs)) (apply_payload-encode_command m c l.0)
    ∙ foldl-payloads (apply m c) cs l.1

All-Fits : (cmds : List Command) → All IsLoggable cmds → All Fits (map encode_command cmds)
All-Fits [] l = tt
All-Fits (c ∷ cs) l = ((l.0).frame_fits, All-Fits cs l.1)

All-Encoded : (cmds : List Command) → All IsLoggable cmds → All Encoded (map encode_command cmds)
All-Encoded [] l = tt
All-Encoded (c ∷ cs) l = ((c, refl, l.0), All-Encoded cs l.1)

take-map {ℓ κ} :
    {A : Type ℓ} {B : Type κ} (n : ℕ) (f : A → B) (xs : List A)
    → take n (map f xs) ≡ map f (take n xs)
take-map zero f xs = refl
take-map (suc n) f [] = refl
take-map (suc n) f (x ∷ xs) = ap (λ t. f x ∷ t) (take-map n f xs)

length-map : (cmds : List Command) → length cmds ≤ length (map encode_command cmds)
length-map [] = omega arith
length-map (c ∷ cs) = omega (arith, length-map cs)

-- A store at rest: what it holds is the snapshot with the log folded over it, and no byte of the
-- log is in flight.
pub record IsDurable (s : Store) : Type 0 where
  pub base : Data
  pub cmds : List Command
  pub loads : load_snapshot s.snapshot_file [] ≡ ok base
  pub loggable : All IsLoggable cmds
  pub log : s.wal ≡ open_wal (log_of cmds)
  pub settled : s.renamed ≡ none
  pub content : SameMap (foldl apply base cmds) s.data_map

-- Opening succeeds, gives a store at rest, and its content is `m`.
abbrev pub Recovers : Files → Data → Type 0
Recovers files m = (s : Store) × (open_store files ≡ ok s) × IsDurable s × SameMap s.data_map m

-- How many commands a log that was cut after `n` bytes still holds.
abbrev pub kept_commands : ℕ → List Command → ℕ
kept_commands n cmds = whole n (map encode_command cmds)

abbrev pub opened : File → Data → List Command → Store
opened snap base cmds = record {
  data_map = foldl apply base cmds;
  wal = open_wal (log_of cmds);
  wal_open = true;
  wal_named = true;
  snapshot_file = snap;
  renamed = none;
  snapshot_tmp = missing;
}

truncate_torn-cut :
    (n : ℕ) (ps : List Bytes)
    → truncate_torn (some (take n (frames ps))) (length (frames (take (whole n ps) ps)))
      ≡ frames (take (whole n ps) ps)
truncate_torn-cut n ps =
    let (torn, e) = cut_frames n ps in
    ground (
      arith,
      e,
      length-append (frames (take (whole n ps) ps)) torn,
      take-append (length (frames (take (whole n ps) ps))) (frames (take (whole n ps) ps)) torn,
      take_all (length (frames (take (whole n ps) ps))) (take n (frames ps)),
    )

-- Where the snapshot loads as `base` and the commands fit the format, opening a directory whose
-- log is cut after `n` bytes succeeds: the map is `base` with exactly the commands folded over it
-- that the cut log holds whole, and the log is cut back to their frames.
pub open_store-cut :
    (n : ℕ) (snap : File) (base : Data) (cmds : List Command)
    → load_snapshot snap [] ≡ ok base
    → All IsLoggable cmds
    → open_store (record { snapshot_bin = snap; wal_log = some (take n (log_of cmds)) })
      ≡ ok (opened snap base (take (kept_commands n cmds) cmds))
unfolding open_store
open_store-cut n snap base cmds h l =
    rw (h, open_store)
      (rw
        (replay_wal-cut replay_command apply_payload Encoded replay_command-Encoded n base
          (map encode_command cmds) (All-Fits cmds l) (All-Encoded cmds l))
        (ap₂
          (λ m content. ok (record {
            data_map = m;
            wal = open_wal content;
            wal_open = true;
            wal_named = true;
            snapshot_file = snap;
            renamed = none;
            snapshot_tmp = missing;
          }))
          (ap (foldl apply_payload base) (take-map _ encode_command cmds)
            ∙ foldl-payloads base (take (kept_commands n cmds) cmds)
                (All-take IsLoggable (kept_commands n cmds) cmds l))
          (ap (truncate_torn (some (take n (log_of cmds)))) (omega arith)
            ∙ (truncate_torn-cut n (map encode_command cmds)
                ∙ ap frames (take-map _ encode_command cmds)))))

-- A log that is cut anywhere recovers what the commands that it holds whole build.
pub Recovers-cut :
    (n : ℕ) (snap : File) (base m : Data) (cmds : List Command)
    → load_snapshot snap [] ≡ ok base
    → All IsLoggable cmds
    → SameMap (foldl apply base (take (kept_commands n cmds) cmds)) m
    → Recovers (record { snapshot_bin = snap; wal_log = some (take n (log_of cmds)) }) m
Recovers-cut n snap base m cmds h l same = (
  opened snap base kept,
  open_store-cut n snap base cmds h l,
  record {
    base = base;
    cmds = kept;
    loads = h;
    loggable = All-take IsLoggable _ cmds l;
    log = refl;
    settled = refl;
    content = λ k. refl;
  },
  same,
)
  where
    kept : List Command
    kept = take (kept_commands n cmds) cmds

-- The whole log.
pub Recovers-log :
    (snap : File) (base m : Data) (cmds : List Command)
    → load_snapshot snap [] ≡ ok base
    → All IsLoggable cmds
    → SameMap (foldl apply base cmds) m
    → Recovers (record { snapshot_bin = snap; wal_log = some (log_of cmds) }) m
Recovers-log snap base m cmds h l same =
    subst (λ b. Recovers (record { snapshot_bin = snap; wal_log = some b }) m)
      (take_all (length (log_of cmds)) (log_of cmds) (omega arith))
      (Recovers-cut (length (log_of cmds)) snap base m cmds h l (
        rw (whole_all (length (log_of cmds)) (map encode_command cmds) (omega arith))
          (rw (take_all (length (map encode_command cmds)) cmds (length-map cmds)) same)))
