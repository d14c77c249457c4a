-- ===== src/ControlPlane/Audit/File/Tail.antt =====
-- internal/controlplane/audit.go: what is read back of the lines that were written.
use kill_my_cluster.Prelude.{
  ℕ, ◌-◌, ◌≡◌, refl, ap, ◌∙◌, false, ◌&&◌, List, [], ◌∷◌, ◌++◌, append-nil, append_assoc, ltb, ◌==◌,
  if◌then◌else◌, arith, length, drop, has, All, Bool-cases, inl, inr, ltb→le,
}
use kill_my_cluster.Prelude.Bytes.{Bytes}
use kill_my_cluster.ControlPlane.Audit.File.{split_lines, tail_audit, is_empty}

-- A JSON text in one line: not empty, and without a newline.
abbrev pub IsLine : Bytes → Type 0
IsLine line = (is_empty line ≡ false) × (has 10 line ≡ false)

abbrev pub joined : List Bytes → Bytes
joined [] = []
joined (l ∷ ls) = l ++ ((10 ∷ []) ++ joined ls)

grown : (xs : Bytes) (y : ℕ) → is_empty (xs ++ (y ∷ [])) ≡ false
grown [] y = refl
grown (x ∷ xs) y = refl

-- The loop runs over a line to its newline.
split_lines-line :
    (seen line rest : Bytes)
    → has 10 line ≡ false
    → is_empty (seen ++ line) ≡ false
    → split_lines seen (line ++ ((10 ∷ []) ++ rest)) ≡ (seen ++ line) ∷ split_lines [] rest
unfolding split_lines
split_lines-line seen [] rest clean some_bytes =
    ground (arith, append-nil seen, ap is_empty (append-nil seen))
split_lines-line seen (b ∷ line) rest clean some_bytes =
    not_newline (ground arith)
    ∙ (split_lines-line (seen ++ (b ∷ [])) line rest (ground arith)
          (ap is_empty (append_assoc seen (b ∷ []) line) ∙ some_bytes)
        ∙ ap (λ l. l ∷ split_lines [] rest) (append_assoc seen (b ∷ []) line))
  where
    not_newline :
        (b == 10) ≡ false
        → split_lines seen ((b ∷ line) ++ ((10 ∷ []) ++ rest))
          ≡ split_lines (seen ++ (b ∷ [])) (line ++ ((10 ∷ []) ++ rest))
    not_newline e = ground arith

split_lines-joined : (ls : List Bytes) → All IsLine ls → split_lines [] (joined ls) ≡ ls
unfolding split_lines
split_lines-joined [] all = refl
split_lines-joined (l ∷ ls) all =
    split_lines-line [] l (joined ls) all.0.1 all.0.0
    ∙ ap (λ rest. l ∷ rest) (split_lines-joined ls all.1)

-- The last lines: all, where there are no more than the limit or the limit is 0.
abbrev pub last_of : ℕ → List Bytes → List Bytes
last_of limit ls = if limit == 0 then ls else drop (length ls - limit) ls

-- Reading a log that consists of lines, which are not empty and have no newline inside, gives back the
-- lines in their order, the last ones up to the limit, or all for a limit of 0.
pub tail_audit-joined :
    (limit : ℕ) (ls : List Bytes) → All IsLine ls → tail_audit limit (joined ls) ≡ last_of limit ls
unfolding tail_audit
tail_audit-joined limit ls all = rw (split_lines-joined ls all) chosen
  where
    all_kept : length ls - limit ≡ 0 → drop (length ls - limit) ls ≡ ls
    all_kept e = rw e refl

    chosen :
        (if ltb 0 limit && ltb limit (length ls) then drop (length ls - limit) ls else ls)
        ≡ last_of limit ls
    chosen = elim (Bool-cases (ltb limit (length ls))) [
      | inl more ↦ ground arith
      | inr few ↦ ground (arith, all_kept (omega (arith, ltb→le limit (length ls) few)))
    ]
