-- ===== src/Storage/Store/Crash.antt =====
-- internal/storage/store.go: logAndApply, and crashes inside it.
use kill_my_cluster.Prelude.{
  ℕ, suc, ◌+◌, ◌-◌, ◌≤◌, list_eq, Bool, true, false, if◌then◌else◌, ◌&&◌, none, some, List, [], ◌∷◌,
  ◌++◌, map, ◌≡◌, refl, ap, ◌∙◌, sym, arith, min, length, take, All-append, append-nil,
  append_assoc, take-append, take-append_ge, take-append_le, length-append, Bool-cases, inl, inr,
  ◌⊎◌, take_all,
}
use mathlib.Core.Path.{ap₂}
use mathlib.Core.List.{foldl}
use kill_my_cluster.Prelude.Bytes.{Bytes}
use kill_my_cluster.Prelude.Map.{SameMap}
use kill_my_cluster.Storage.Record.{Command, encode_command}
use kill_my_cluster.Storage.Wal.{Wal, Io, frame, header, open_wal, append, sync, crash}
use kill_my_cluster.Storage.Wal.Recovery.{whole, whole_hit, take_nil, length-header}
use kill_my_cluster.Storage.Store.{Store, Data, apply, log_payload, log_and_apply, crashed}
use kill_my_cluster.Storage.Store.State.{SameMap-foldl}
use kill_my_cluster.Storage.Store.Recovery.{
  IsLoggable, log_of, IsDurable, Recovers, kept_commands, Recovers-cut, Recovers-log,
}

pub crash-open_wal : (n : ℕ) (content : Bytes) → crash n (open_wal content) ≡ content
crash-open_wal n content = rw take_nil (append-nil content)

-- With no rename in flight, only the log depends on the crash.
pub files_settled :
    (s : Store) (kept : ℕ) (new_name : Bool) (content : Bytes)
    → crash kept s.wal ≡ content
    → s.renamed ≡ none
    → crashed kept new_name s ≡ record { snapshot_bin = s.snapshot_file; wal_log = some content }
unfolding crashed
files_settled s kept new_name content wal settled =
    ap₂ (λ snap b. record { snapshot_bin = snap; wal_log = some b }) (ground arith) wal

-- A store at rest loses nothing in a crash.
pub crash-IsDurable :
    (s : Store) (kept : ℕ) (new_name : Bool)
    → IsDurable s
    → Recovers (crashed kept new_name s) s.data_map
crash-IsDurable s kept new_name d =
    rw
      (files_settled s kept new_name (log_of d.cmds)
        (ap (crash kept) d.log ∙ crash-open_wal kept (log_of d.cmds)) d.settled)
      (Recovers-log s.snapshot_file d.base s.data_map d.cmds d.loads d.loggable d.content)

append_log :
    (cmds : List Command) (c : Command)
    → log_of (cmds ++ (c ∷ [])) ≡ log_of cmds ++ frame (encode_command c)
append_log [] c = rw append-nil
append_log (d ∷ cs) c =
    rw (append_log cs c)
      (sym (append_assoc (frame (encode_command d)) (log_of cs) (frame (encode_command c))))

-- A log that holds all the old commands and some of the new one.
kept_one_more :
    (n : ℕ) (cmds : List Command) (c : Command)
    → length (log_of cmds) ≤ n
    → (take (kept_commands n (cmds ++ (c ∷ []))) (cmds ++ (c ∷ [])) ≡ cmds)
      ⊎ (take (kept_commands n (cmds ++ (c ∷ []))) (cmds ++ (c ∷ [])) ≡ cmds ++ (c ∷ []))
unfolding whole
kept_one_more n [] c h = ground arith
kept_one_more n (d ∷ cs) c h =
    elim (kept_one_more (n - length (frame (encode_command d))) cs c
      (omega (arith, length-append (frame (encode_command d)) (log_of cs)))) [
        | inl e ↦ inl (hit (ap (λ t. d ∷ t) e))
        | inr e ↦ inr (hit (ap (λ t. d ∷ t) e))
      ]
  where
    fits : length (frame (encode_command d)) ≤ n
    fits = omega (arith, length-append (frame (encode_command d)) (log_of cs))

    hit :
        {r : List Command}
        → take
            (suc (kept_commands (n - length (frame (encode_command d))) (cs ++ (c ∷ []))))
            (d ∷ (cs ++ (c ∷ [])))
          ≡ r
        → take (kept_commands n (d ∷ (cs ++ (c ∷ [])))) (d ∷ (cs ++ (c ∷ []))) ≡ r
    hit e = rw (whole_hit n (encode_command d) (map encode_command (cs ++ (c ∷ []))) fits) e

cut_after : (k : ℕ) (xs ys : Bytes) → take (length xs + k) (xs ++ ys) ≡ xs ++ take k ys
cut_after k xs ys =
    take-append_ge (length xs + k) xs ys (omega arith) ∙ ap (λ j. xs ++ take j ys) (omega arith)

-- Whatever call of the write path fails, a crash leaves the old log and a prefix of one frame.
module _ (io : Io) (payload old : Bytes) where
  abbrev grown : Bytes
  grown = old ++ frame payload

  abbrev logged : Wal
  logged = (log_payload io payload (open_wal old)).0

  no_header : (kept : ℕ) → io.header_written ≡ false → crash kept logged ≡ take (length old) grown
  unfolding log_payload append sync
  no_header kept e =
      rw e (crash-open_wal kept old ∙ sym (take-append (length old) old (frame payload) refl))

  no_payload :
      (kept : ℕ)
      → io.header_written ≡ true
      → io.payload_written ≡ false
      → crash kept logged ≡ take (length old + min kept 8) grown
  unfolding log_payload append sync
  no_payload kept e f =
      rw (e, f, cut_after (min kept 8) old (frame payload)) (ap (λ t. old ++ t) header_cut)
    where
      header_cut : take kept (header payload) ≡ take (min kept 8) (frame payload)
      header_cut = ground (
        arith,
        length-header payload,
        take-append_le (min kept 8) (header payload) payload,
        take_all kept (header payload),
        take_all 8 (header payload),
      )

  not_synced :
      (kept : ℕ)
      → io.header_written ≡ true
      → io.payload_written ≡ true
      → io.flushed && io.synced ≡ false
      → crash kept logged ≡ take (length old + kept) grown
  unfolding log_payload append sync
  not_synced kept e f g =
      rw (cut_after kept old (frame payload)) (ground (arith, append-nil (frame payload)))

  synced :
      io.header_written ≡ true
      → io.payload_written ≡ true
      → io.flushed && io.synced ≡ true
      → log_payload io payload (open_wal old) ≡ (open_wal grown, true)
  unfolding log_payload append sync
  synced e f g = ground arith

  log_payload-crash : (kept : ℕ) → (n : ℕ) × (length old ≤ n) × (crash kept logged ≡ take n grown)
  log_payload-crash kept = elim (Bool-cases io.header_written) [
    | inr e ↦ (length old, omega arith, no_header kept e)
    | inl e ↦ elim (Bool-cases io.payload_written) [
      | inr f ↦ (length old + min kept 8, omega arith, no_payload kept e f)
      | inl f ↦ elim (Bool-cases (io.flushed && io.synced)) [
        | inr g ↦ (length old + kept, omega arith, not_synced kept e f g)
        | inl g ↦ (
          length grown,
          omega (arith, length-append old (frame payload)),
          ap (λ r. crash kept r.0) (synced e f g)
              ∙ (crash-open_wal kept grown ∙ sym (take_all (length grown) grown (omega arith))),
        )
      ]
    ]
  ]

  log_payload-ok : (log_payload io payload (open_wal old)).1 ≡ true → logged ≡ open_wal grown
  log_payload-ok h = elim (Bool-cases (io.flushed && io.synced)) [
    | inl g ↦ ap (λ r. r.0) (synced (ok_needs h).0 (ok_needs h).1 g)
    | inr g ↦ absurd (ok_flushes h g)
  ]
    where
      ok_needs :
          (log_payload io payload (open_wal old)).1 ≡ true
          → (io.header_written ≡ true) × (io.payload_written ≡ true)
      ok_needs = unfold log_payload append sync in ground arith

      ok_flushes :
          (log_payload io payload (open_wal old)).1 ≡ true → io.flushed && io.synced ≡ false → ⊥
      ok_flushes = unfold log_payload append sync in ground arith

-- What the write path does to the rest of the store.
module _ (io : Io) (c : Command) (s : Store) where
  abbrev result : Store × Bool
  result = log_and_apply io c s

  written_wal : result.0.wal ≡ (log_payload io (encode_command c) s.wal).0
  unfolding log_and_apply
  written_wal = ground arith

  written_ok : result.1 ≡ (log_payload io (encode_command c) s.wal).1
  unfolding log_and_apply
  written_ok = ground arith

  pub written_rest : (result.0.renamed ≡ s.renamed) × (result.0.snapshot_file ≡ s.snapshot_file)
  unfolding log_and_apply
  written_rest = (ground arith, ground arith)

  written_data : result.0.data_map ≡ (if result.1 then apply s.data_map c else s.data_map)
  unfolding log_and_apply
  written_data = ground arith

-- For a store at rest and a command that fits the format: whichever system call of the write
-- fails, and whatever prefix of the unsynced bytes a crash that keeps the name of the log keeps, opening
-- the directory succeeds and gives the content before the write or the content after it.
pub log_and_apply-crash :
    (io : Io) (c : Command) (s : Store) (kept : ℕ) (new_name : Bool)
    → IsDurable s
    → IsLoggable c
    → Recovers (crashed kept new_name (log_and_apply io c s).0) s.data_map
      ⊎ Recovers (crashed kept new_name (log_and_apply io c s).0) (apply s.data_map c)
log_and_apply-crash io c s kept new_name d l =
    let (n, old, cut) = log_payload-crash io (encode_command c) (log_of d.cmds) kept in
    let files : crashed kept new_name (log_and_apply io c s).0 ≡ record {
      snapshot_bin = s.snapshot_file;
      wal_log = some (take n (log_of (d.cmds ++ (c ∷ []))));
    } =
      files_settled (log_and_apply io c s).0 kept new_name _
        (ap (crash kept) (written_wal io c s)
          ∙ (ap (λ w. crash kept (log_payload io (encode_command c) w).0) d.log
              ∙ (cut ∙ ap (take n) (sym (append_log d.cmds c)))))
        ((written_rest io c s).0 ∙ d.settled)
      ∙ ap (λ f. record { snapshot_bin = f; wal_log = some (take n (log_of (d.cmds ++ (c ∷ [])))) })
          (written_rest io c s).1 in
    elim (kept_one_more n d.cmds c old) [
      | inl e ↦ inl (rw files (cut_log s.data_map n (rw e d.content)))
      | inr e ↦ inr (
          rw files (
            cut_log (apply s.data_map c) n
              (rw e (SameMap-foldl d.base s.data_map d.cmds c d.content))))
    ]
  where
    cut_log :
        (m : Data) (n : ℕ)
        → SameMap
            (foldl apply d.base (take (kept_commands n (d.cmds ++ (c ∷ []))) (d.cmds ++ (c ∷ []))))
            m
        → Recovers
            (record {
              snapshot_bin = s.snapshot_file;
              wal_log = some (take n (log_of (d.cmds ++ (c ∷ []))));
            })
            m
    cut_log m n =
        Recovers-cut n s.snapshot_file d.base m (d.cmds ++ (c ∷ [])) d.loads
          (All-append IsLoggable d.cmds (c ∷ []) d.loggable (l, tt))

-- A write that returned no error leaves the store at rest, with the command applied.
pub log_and_apply-IsDurable :
    (io : Io) (c : Command) (s : Store)
    → IsDurable s
    → IsLoggable c
    → (log_and_apply io c s).1 ≡ true
    → IsDurable (log_and_apply io c s).0 × ((log_and_apply io c s).0.data_map ≡ apply s.data_map c)
log_and_apply-IsDurable io c s d l h = (
  record {
    base = d.base;
    cmds = d.cmds ++ (c ∷ []);
    loads = rw (written_rest io c s).1 d.loads;
    loggable = All-append IsLoggable d.cmds (c ∷ []) d.loggable (l, tt);
    log =
        written_wal io c s
        ∙ (ap (λ w. (log_payload io (encode_command c) w).0) d.log
            ∙ (log_payload-ok io (encode_command c) (log_of d.cmds) at_rest_ok
                ∙ ap open_wal (sym (append_log d.cmds c))));
    settled = (written_rest io c s).0 ∙ d.settled;
    content = rw applied (SameMap-foldl d.base s.data_map d.cmds c d.content);
  },
  applied,
)
  where
    at_rest_ok : (log_payload io (encode_command c) (open_wal (log_of d.cmds))).1 ≡ true
    at_rest_ok =
        ap (λ w. (log_payload io (encode_command c) w).1) (sym d.log)
        ∙ (sym (written_ok io c s) ∙ h)

    applied : (log_and_apply io c s).0.data_map ≡ apply s.data_map c
    applied = written_data io c s ∙ ap (λ b. if b then apply s.data_map c else s.data_map) h
