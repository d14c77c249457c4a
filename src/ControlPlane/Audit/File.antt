-- ===== src/ControlPlane/Audit/File.antt =====
-- internal/controlplane/audit.go: the file of the log, its rotation, and the reading of its last lines.
pub mod Tail
pub mod Size
use kill_my_cluster.Prelude.{
  ℕ, ◌+◌, ◌-◌, ◌*◌, ◌^◌, Bool, true, false, not, ◌&&◌, Option, none, some, List, [], ◌∷◌, ◌++◌, leb,
  ltb, ◌==◌, if◌then◌else◌, length, take, drop, list_beq,
}
use kill_my_cluster.Prelude.Bytes.{Bytes}
use kill_my_cluster.ControlPlane.Audit.{AuditEntry}

abbrev pub audit_max_bytes : ℕ
audit_max_bytes = 8 * 2 ^ 20

-- The file, the one that it was rotated to, and what the log knows of them.
pub record AuditLog : Type 0 where
  pub content : Bytes
  pub rotated : Bytes
  pub size : ℕ
  pub is_open : Bool

-- How the calls on the file system end. A write that fails may have written the first bytes, `torn` of
-- them.
pub record Calls : Type 0 where
  pub written : Bool
  pub torn : ℕ
  pub renamed : Bool
  pub reopened : Bool

unfoldable pub rotate : Calls → AuditLog → AuditLog
rotate io a =
    if not a.is_open
    then a
    else if not io.renamed
    then record a { is_open = io.reopened }
    else if not io.reopened
    then record a { content = []; rotated = a.content; is_open = false }
    else record { content = []; rotated = a.content; size = 0; is_open = true }

abbrev pub write_line : Calls → Option Bytes → AuditLog → AuditLog
write_line io none a = a
write_line io (some b) a =
    let a' = record a {
      content = a.content ++ (b ++ (10 ∷ []));
      size = a.size + length (b ++ (10 ∷ []));
    } in
    if not io.written
    then record a { content = a.content ++ take io.torn (b ++ (10 ∷ [])) }
    else if leb audit_max_bytes a'.size
    then rotate io a'
    else a'

-- encoding/json, by a parameter: `none` is an error.
module _ (marshal : AuditEntry → Option Bytes) where
  unfoldable pub write : Calls → AuditEntry → AuditLog → AuditLog
  unfolding rotate
  write io e a = if not a.is_open then a else write_line io (marshal e) a

abbrev pub is_empty : Bytes → Bool
is_empty [] = true
is_empty (b ∷ bs) = false

-- The loop of tailAudit over the bytes, with the line that has begun.
unfoldable pub split_lines : Bytes → Bytes → List Bytes
split_lines line [] = if is_empty line then [] else line ∷ []
split_lines line (b ∷ bs) =
    let ended = split_lines [] bs in
    let going = split_lines (line ++ (b ∷ [])) bs in
    if b == 10 then (if is_empty line then ended else line ∷ ended) else going

unfoldable pub tail_audit : ℕ → Bytes → List Bytes
unfolding split_lines
tail_audit limit content =
    let out = split_lines [] content in
    if ltb 0 limit && ltb limit (length out) then drop (length out - limit) out else out
