-- ===== src/ControlPlane/Audit/File/Size.antt =====
-- internal/controlplane/audit.go: the size that the log counts, and the file's.
use kill_my_cluster.Prelude.{
  ℕ, ◌+◌, ◌≤◌, ◌<◌, ◌≡◌, refl, not, true, false, Option, none, some, [], ◌∷◌, ◌++◌, leb,
  if◌then◌else◌, if_case, arith, length, length-append, length-take-le, take,
}
use kill_my_cluster.Prelude.Bytes.{Bytes}
use kill_my_cluster.ControlPlane.Audit.{AuditEntry}
use kill_my_cluster.ControlPlane.Audit.File.{
  AuditLog, Calls, rotate, write_line, write, audit_max_bytes,
}

-- What the log may rely on between writes; `lost` bytes of the file are not counted.
pub record IsSized (lost : ℕ) (a : AuditLog) : Type 0 where
  pub exact : a.size + lost ≡ length a.content
  pub small : a.size < audit_max_bytes

-- The bytes that the file has and the size has not are those that failed writes leave.
abbrev pub IsSizedAfter : Calls → ℕ → AuditLog → Type 0
IsSizedAfter io lost a =
    (more : ℕ) × IsSized more a × (more ≤ lost + (if io.written then 0 else io.torn))

-- Where the calls of a rotation succeed, every write leaves a log whose size is below 8 MB, as it was
-- before, and falls short of the file's by no more bytes than it did before and than this write leaves
-- when it fails: whether the entry can be encoded, whether it is written, and however long it is. So
-- the size is the file's, where it was so before and the write succeeds or leaves nothing.
pub write-IsSized :
    (marshal : AuditEntry → Option Bytes) (io : Calls) (e : AuditEntry) (a : AuditLog) (lost : ℕ)
    → io.renamed ≡ true
    → io.reopened ≡ true
    → IsSized lost a
    → IsSizedAfter io lost (write marshal io e a)
unfolding write rotate
write-IsSized marshal io e a lost renamed reopened h =
    if_case (IsSizedAfter io lost) (not a.is_open) a _ (λ _. kept) (λ up. line (marshal e) up)
  where
    kept : IsSizedAfter io lost a
    kept = (lost, h, omega arith)

    line : (o : Option Bytes) → not a.is_open ≡ false → IsSizedAfter io lost (write_line io o a)
    line none up = kept
    line (some b) up =
        if_case (IsSizedAfter io lost) (not io.written) torn _ (λ failed. cut (ground arith))
          (λ _.
            if_case (IsSizedAfter io lost) (leb audit_max_bytes longer.size) (rotate io longer)
              longer (λ _. rotated up)
              (λ fits. (lost, record { exact = measured; small = ground arith }, omega arith)))
      where
        torn : AuditLog
        torn = record a { content = a.content ++ take io.torn (b ++ (10 ∷ [])) }

        cut : io.written ≡ false → IsSizedAfter io lost torn
        cut failed = rw (failed) (
          lost + length (take io.torn (b ++ (10 ∷ []))),
          record {
            exact = omega (arith, h.exact, length-append a.content (take io.torn (b ++ (10 ∷ []))));
            small = h.small;
          },
          omega (arith, length-take-le io.torn (b ++ (10 ∷ []))),
        )

        longer : AuditLog
        longer = record a {
          content = a.content ++ (b ++ (10 ∷ []));
          size = a.size + length (b ++ (10 ∷ []));
        }

        measured : longer.size + lost ≡ length longer.content
        measured = omega (arith, h.exact, length-append a.content (b ++ (10 ∷ [])))

        rotated : not a.is_open ≡ false → IsSizedAfter io lost (rotate io longer)
        rotated open_file =
            rw (open_file, renamed, reopened, rotate)
              (0, record { exact = refl; small = omega arith }, omega arith)
