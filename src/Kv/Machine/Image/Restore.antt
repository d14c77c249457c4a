-- ===== src/Kv/Machine/Image/Restore.antt =====
-- internal/kv/machine.go: Snapshot, Restore and the commands applied after it.
use kill_my_cluster.Prelude.{
  ℕ, ◌≡◌, refl, ap, ◌∙◌, sym, subst, Bool, true, false, Option, none, some, List, [], ◌∷◌, ◌++◌,
  All, ◌==◌, length, if◌then◌else◌, arith, list_eq, beq, if_case, Bool-cases, inl, inr,
  Option-cases,
}
use mathlib.Core.Path.{ap₂}
use kill_my_cluster.Prelude.Bytes.{Bytes}
use kill_my_cluster.Prelude.Map.{Map}
use kill_my_cluster.Prelude.Map
use kill_my_cluster.Kv.Command.{Command, ApplyResult}
use kill_my_cluster.Kv.Machine.Once.{apply-seen, apply-new, apply-untracked, executed}
use kill_my_cluster.Kv.Machine.{
  DedupKey, dedup_eq, Machine, Applied, counted, counted_max, sweep_due, new_machine, stale, sweep,
  sweep_dedup, tracked, key_of, remember, execute, cas, apply_fresh, apply_seen, apply, replay,
}
use kill_my_cluster.Kv.Machine.Image.{SnapshotData, copy_applied, snapshot_data, snapshot, restore}

-- No entry of the table is marked as a duplicate.
abbrev pub Unmarked : Map DedupKey ApplyResult → Type 0
Unmarked applied = All (λ e. e.1.duplicate ≡ false) applied

Unmarked-put :
    (k : DedupKey) (r : ApplyResult) (applied : Map DedupKey ApplyResult)
    → r.duplicate ≡ false
    → Unmarked applied
    → Unmarked (Map.put k r applied)
unfolding Map.put
Unmarked-put k r [] h a = (h, tt)
Unmarked-put k r ((j, s) ∷ applied) h a =
    if_case Unmarked (beq j k) _ _ (λ _. (h, a.1)) (λ _. (a.0, Unmarked-put k r applied h a.1))

Unmarked-sweep :
    (max_req : Map Bytes ℕ) (applied : Map DedupKey ApplyResult)
    → Unmarked applied
    → Unmarked (sweep max_req applied)
unfolding sweep
Unmarked-sweep max_req [] a = tt
Unmarked-sweep max_req ((k, r) ∷ applied) a =
    if_case Unmarked (stale max_req k) _ _ (λ _. Unmarked-sweep max_req applied a.1)
      (λ _. (a.0, Unmarked-sweep max_req applied a.1))

Unmarked-remember :
    (cmd : Command) (res : ApplyResult) (m : Machine)
    → Unmarked m.applied
    → Unmarked (remember cmd res m).applied
unfolding remember sweep_dedup
Unmarked-remember cmd res m a =
    if_case {A = Machine} (λ n. Unmarked n.applied) (sweep_due (counted cmd res m))
      (sweep_dedup (counted cmd res m)) (counted cmd res m)
      (λ _. Unmarked-sweep (counted_max cmd m) (counted cmd res m).applied entered) (λ _. entered)
  where
    entered : Unmarked (counted cmd res m).applied
    entered = Unmarked-put (key_of cmd) (record res { duplicate = false }) m.applied refl a

-- Apply never stores a mark: a replay of a duplicate is marked in the answer only.
Unmarked-apply :
    (cmd : Command) (m : Machine) → Unmarked m.applied → Unmarked (apply cmd m).machine.applied
Unmarked-apply cmd m a = elim (Bool-cases (tracked cmd)) [
  | inr t ↦ subst Unmarked (sym (apply-untracked cmd m t)) a
  | inl t ↦ elim (Option-cases (Map.get (key_of cmd) m.applied)) [
    | inr (prev, e) ↦
        subst {A = Applied} (λ x. Unmarked x.machine.applied) (sym (apply-seen cmd m prev t e)) a
    | inl e ↦
        subst {A = Machine} (λ x. Unmarked x.applied) (sym (apply-new cmd m t e))
          (Unmarked-remember cmd (execute cmd m).res (executed cmd m) a)
  ]
]

pub Unmarked-replay :
    (cmds : List Command) (m : Machine) → Unmarked m.applied → Unmarked (replay m cmds).applied
Unmarked-replay [] m a = a
Unmarked-replay (c ∷ cs) m a = Unmarked-replay cs (apply c m).machine (Unmarked-apply c m a)

copy_applied-Unmarked :
    (applied : Map DedupKey ApplyResult) → Unmarked applied → copy_applied applied ≡ applied
unfolding copy_applied
copy_applied-Unmarked [] a = refl
copy_applied-Unmarked ((k, r) ∷ applied) a =
    ap₂ (λ x xs. (k, x) ∷ xs)
      (if_case (λ x. x ≡ r) (length r.value == 0) _ _ (λ _. refl)
        (λ _. ap {A = Bool} (λ b. record r { duplicate = b }) (sym a.0)))
      (copy_applied-Unmarked applied a.1)

-- The same state, with other watchers.
abbrev pub with_watchers : Map Bytes (List ℕ) → Machine → Machine
with_watchers w m = record m { watchers = w }

cas-with_watchers :
    (cmd : Command) (m : Machine) (w : Map Bytes (List ℕ)) (o : Option Bytes)
    → ((cas cmd (with_watchers w m) o).data_map ≡ (cas cmd m o).data_map)
      × ((cas cmd (with_watchers w m) o).res ≡ (cas cmd m o).res)
unfolding cas
cas-with_watchers cmd m w none = (ground arith, ground arith)
cas-with_watchers cmd m w (some cur) = (ground arith, ground arith)

execute-with_watchers :
    (cmd : Command) (m : Machine) (w : Map Bytes (List ℕ))
    → ((execute cmd (with_watchers w m)).data_map ≡ (execute cmd m).data_map)
      × ((execute cmd (with_watchers w m)).res ≡ (execute cmd m).res)
unfolding execute
execute-with_watchers cmd m w =
    let (a, b) = cas-with_watchers cmd m w (Map.get cmd.key m.data_map) in
    (ground (arith, a), ground (arith, b))

if_ap {ℓ κ} :
    {A : Type ℓ} {B : Type κ} (f : A → B) (b : Bool) (x y : A)
    → (if b then f x else f y) ≡ f (if b then x else y)
if_ap f true x y = refl
if_ap f false x y = refl

remember-with_watchers :
    (cmd : Command) (res : ApplyResult) (m : Machine) (w : Map Bytes (List ℕ))
    → remember cmd res (with_watchers w m) ≡ with_watchers w (remember cmd res m)
unfolding remember sweep_dedup
remember-with_watchers cmd res m w =
    if_ap {A = Machine} {B = Machine} (with_watchers w) (sweep_due (counted cmd res m))
      (sweep_dedup (counted cmd res m)) (counted cmd res m)

module _ (cmd : Command) (m : Machine) (w : Map Bytes (List ℕ)) where
  apply_fresh-with_watchers :
      ((apply_fresh cmd (with_watchers w m)).machine ≡ with_watchers w (apply_fresh cmd m).machine)
      × ((apply_fresh cmd (with_watchers w m)).res ≡ (apply_fresh cmd m).res)
  unfolding apply_fresh
  apply_fresh-with_watchers =
      let (same, res) = execute-with_watchers cmd m w in
      (
        ap₂ (built (tracked cmd) (with_watchers w m)) same res
            ∙ same_built (tracked cmd) (execute cmd m).data_map (execute cmd m).res,
        res,
      )
    where
      built : Bool → Machine → Map Bytes Bytes → ApplyResult → Machine
      built b n d r =
          if b then remember cmd r (record n { data_map = d }) else record n { data_map = d }

      same_built :
          (b : Bool) (d : Map Bytes Bytes) (r : ApplyResult)
          → built b (with_watchers w m) d r ≡ with_watchers w (built b m d r)
      same_built true d r = remember-with_watchers cmd r (record m { data_map = d }) w
      same_built false d r = refl

  -- Watchers have no influence on what a command does and answers.
  pub apply-with_watchers :
      ((apply cmd (with_watchers w m)).machine ≡ with_watchers w (apply cmd m).machine)
      × ((apply cmd (with_watchers w m)).res ≡ (apply cmd m).res)
  unfolding apply
  apply-with_watchers = gated (tracked cmd) (Map.get (key_of cmd) m.applied)
    where
      gate : Bool → Option ApplyResult → Machine → Applied
      gate b o n = if b then apply_seen o cmd n else apply_fresh cmd n

      gated :
          (b : Bool) (o : Option ApplyResult)
          → ((gate b o (with_watchers w m)).machine ≡ with_watchers w (gate b o m).machine)
            × ((gate b o (with_watchers w m)).res ≡ (gate b o m).res)
      gated true (some prev) = (refl, refl)
      gated true none = apply_fresh-with_watchers
      gated false o = apply_fresh-with_watchers

replay-with_watchers :
    (cmds : List Command) (m : Machine) (w : Map Bytes (List ℕ))
    → replay (with_watchers w m) cmds ≡ with_watchers w (replay m cmds)
replay-with_watchers [] m w = refl
replay-with_watchers (c ∷ cs) m w =
    ap (λ n. replay n cs) (apply-with_watchers c m w).0
    ∙ replay-with_watchers cs (apply c m).machine w

replay-append :
    (cmds tail : List Command) (m : Machine) → replay m (cmds ++ tail) ≡ replay (replay m cmds) tail
replay-append [] tail m = refl
replay-append (c ∷ cs) tail m = replay-append cs tail (apply c m).machine

module _ (gob_encode : SnapshotData → Option Bytes) (gob_decode : Bytes → Option SnapshotData)
    (decode-encode : (x : SnapshotData) (b : Bytes)
      → gob_encode x ≡ some b
      → gob_decode b ≡ some x) where
  -- Where gob decodes what it has encoded and no entry of the dedup table is marked as a
  -- duplicate, restoring a machine's snapshot succeeds and gives its whole state, the watchers
  -- excepted, which stay.
  pub restore-snapshot :
      (m n : Machine) (raw : Bytes)
      → Unmarked m.applied
      → snapshot gob_encode m ≡ some raw
      → restore gob_decode raw n ≡ (with_watchers n.watchers m, true)
  unfolding snapshot restore snapshot_data
  restore-snapshot m n raw a e =
      rw (decode-encode (snapshot_data m) raw e, restore)
        (ap (λ t. (record m { applied = t; watchers = n.watchers }, true))
          (copy_applied-Unmarked m.applied a))

  -- Where gob decodes what it has encoded, a replica that restores the snapshot of a log and then
  -- applies a tail is in the state of one that applied the log and the tail, its dedup table and
  -- sweep count included and its watchers excepted.
  pub catch_up :
      (log tail : List Command) (n : Machine) (raw : Bytes)
      → snapshot gob_encode (replay new_machine log) ≡ some raw
      → replay (restore gob_decode raw n).0 tail
        ≡ with_watchers n.watchers (replay new_machine (log ++ tail))
  catch_up log tail n raw e =
      ap (λ r. replay r.0 tail)
        (restore-snapshot (replay new_machine log) n raw (Unmarked-replay log new_machine tt) e)
      ∙ (replay-with_watchers tail (replay new_machine log) n.watchers
          ∙ ap (with_watchers n.watchers) (sym (replay-append log tail new_machine)))
