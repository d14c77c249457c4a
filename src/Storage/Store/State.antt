-- ===== src/Storage/Store/State.antt =====
-- internal/storage/store.go: what a log of commands does to one key.
use kill_my_cluster.Prelude.{
  list_eq, beq, Option, none, some, List, [], ◌∷◌, ◌++◌, ◌≡◌, refl, ap, ◌∙◌, sym, arith, ◌==◌,
  if◌then◌else◌,
}
use mathlib.Core.List.{foldl}
use kill_my_cluster.Prelude.Bytes.{Bytes}
use kill_my_cluster.Prelude.Map
use kill_my_cluster.Prelude.Map.{SameMap, get-put, get-remove}
use kill_my_cluster.Storage.Record.{Command, op_put, op_delete}
use kill_my_cluster.Storage.Store.{Data, apply, copy_into}

-- `none`: the command leaves the key alone; `some w`: the key's entry is `w` afterwards.
pub touch : Bytes → Command → Option (Option Bytes)
touch k cmd =
    if beq cmd.key k
    then (if cmd.op == op_put
        then some (some cmd.value)
        else if cmd.op == op_delete
        then some none
        else none)
    else none

abbrev pub later {ℓ} : {A : Type ℓ} → Option A → Option A → Option A
later none first = first
later (some w) first = some w

abbrev pub over {ℓ} : {A : Type ℓ} → Option A → A → A
over none old = old
over (some w) old = w

pub effect : Bytes → List Command → Option (Option Bytes)
effect k [] = none
effect k (c ∷ cs) = later (effect k cs) (touch k c)

pub get-apply :
    (k : Bytes) (c : Command) (m : Data) → Map.get k (apply m c) ≡ over (touch k c) (Map.get k m)
unfolding apply touch
get-apply k c m = ground (arith, get-put c.key k c.value m, get-remove c.key k m)

over-later {ℓ} : {A : Type ℓ} (a b : Option A) (x : A) → over a (over b x) ≡ over (later a b) x
over-later none b x = refl
over-later (some w) b x = refl

over_twice {ℓ} : {A : Type ℓ} (a : Option A) (x : A) → over a (over a x) ≡ over a x
over_twice none x = refl
over_twice (some w) x = refl

-- After a log an entry is what the log's last word on it says, or else what it was.
pub get-foldl :
    (k : Bytes) (cmds : List Command) (m : Data)
    → Map.get k (foldl apply m cmds) ≡ over (effect k cmds) (Map.get k m)
unfolding effect
get-foldl k [] m = refl
get-foldl k (c ∷ cs) m =
    get-foldl k cs (apply m c)
    ∙ (ap (over (effect k cs)) (get-apply k c m)
        ∙ over-later (effect k cs) (touch k c) (Map.get k m))

-- Where a log over `base` gives the content `m`, the same log over a state that already has the
-- content `m` gives the content `m` again.
pub replay_idempotent :
    (base m n : Data) (cmds : List Command)
    → SameMap (foldl apply base cmds) m
    → SameMap n m
    → SameMap (foldl apply n cmds) m
replay_idempotent base m n cmds h same k =
    get-foldl k cmds n
    ∙ (ap (over (effect k cmds)) (same k ∙ (sym (h k) ∙ get-foldl k cmds base))
        ∙ (over_twice (effect k cmds) (Map.get k base) ∙ (sym (get-foldl k cmds base) ∙ h k)))

abbrev first_of_two {ℓ} : {A : Type ℓ} → Option A → Option A → Option A
first_of_two none y = y
first_of_two (some a) y = some a

get-copy_into :
    (k : Bytes) (to from : Data)
    → Map.get k (copy_into to from) ≡ first_of_two (Map.get k from) (Map.get k to)
unfolding copy_into Map.get
get-copy_into k to [] = refl
get-copy_into k to ((j, v) ∷ from) =
    ground (arith, get-put j k v (copy_into to from), get-copy_into k to from)

-- A copy, as the snapshot file holds it or as it is loaded, has the same content.
pub copy_into-SameMap : (from : Data) → SameMap (copy_into [] from) from
copy_into-SameMap from k = get-copy_into k [] from ∙ or_nothing (Map.get k from)
  where
    or_nothing : (o : Option Bytes) → first_of_two o (Map.get k []) ≡ o
    or_nothing none = unfold Map.get in refl
    or_nothing (some v) = refl

pub SameMap-apply : (c : Command) (m n : Data) → SameMap m n → SameMap (apply m c) (apply n c)
SameMap-apply c m n same k =
    get-apply k c m ∙ (ap (over (touch k c)) (same k) ∙ sym (get-apply k c n))

-- One more command at the end of the log is one more step of the state.
pub SameMap-foldl :
    (base m : Data) (cmds : List Command) (c : Command)
    → SameMap (foldl apply base cmds) m
    → SameMap (foldl apply base (cmds ++ (c ∷ []))) (apply m c)
SameMap-foldl base m [] c same = SameMap-apply c base m same
SameMap-foldl base m (d ∷ cs) c same = SameMap-foldl (apply base d) m cs c same
