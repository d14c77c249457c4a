-- ===== src/Kv/Machine.antt =====
-- internal/kv/machine.go: the deterministic state machine with its dedup table.
pub mod Once
pub mod Image
use kill_my_cluster.Prelude.{
  ℕ, ◌+◌, ◌%◌, ◌≡◌, refl, ◌↔◌, Bool, true, false, not, ◌&&◌, ◌||◌, Option, none, some, List, [],
  ◌∷◌, ◌++◌, leb, ltb, ◌==◌, if◌then◌else◌, length, list_beq, list_beq_iff, list_eq, ==_iff, Eq,
  arith, subst,
}
use mathlib.Core.List.{foldl}
use mathlib.Core.Option
use mathlib.Core.Path.{ap₂}
use kill_my_cluster.Prelude.Bytes.{Bytes, add64}
use kill_my_cluster.Prelude.Map.{Map}
use kill_my_cluster.Prelude.Map
use kill_my_cluster.Kv.Command.{
  Command, ApplyResult, op_get, op_put, op_cas, op_checkpoint, checkpoint_key,
}

pub record DedupKey : Type 0 where
  pub client : Bytes
  pub request_id : ℕ

abbrev dedup_beq : DedupKey → DedupKey → Bool
dedup_beq a b = list_beq a.client b.client && a.request_id == b.request_id

dedup_beq_refl : (a : DedupKey) → dedup_beq a a ≡ true
dedup_beq_refl a = ground (arith, (list_beq_iff a.client a.client).1 refl)

pub dedup_beq_iff : (a b : DedupKey) → (dedup_beq a b ≡ true) ↔ (a ≡ b)
dedup_beq_iff a b = (
  λ h.
      ap₂ {A = Bytes} {B = ℕ} (λ c r. record { client = c; request_id = r }) (same_client h)
        (same_request h),
  λ e. subst (λ x. dedup_beq a x ≡ true) e (dedup_beq_refl a),
)
  where
    same_client : dedup_beq a b ≡ true → a.client ≡ b.client
    same_client h = (list_beq_iff a.client b.client).0 (ground arith)

    same_request : dedup_beq a b ≡ true → a.request_id ≡ b.request_id
    same_request h = ground arith

instance abbrev pub dedup_eq : Eq DedupKey
dedup_eq = record { beq = dedup_beq; beq_iff = dedup_beq_iff }

abbrev pub dedup_window : ℕ
dedup_window = 128

abbrev pub dedup_high_water : ℕ
dedup_high_water = 16384

abbrev pub dedup_sweep_every : ℕ
dedup_sweep_every = 1024

pub record WatchEvent : Type 0 where
  pub key : Bytes
  pub value : Bytes
  pub found : Bool

-- A channel is a number. Watchers are per key, in the order in which they came.
pub record Machine : Type 0 where
  pub data_map : Map Bytes Bytes
  pub applied : Map DedupKey ApplyResult
  pub max_req : Map Bytes ℕ
  pub apply_count : ℕ
  pub watchers : Map Bytes (List ℕ)

abbrev pub new_machine : Machine
new_machine = record { data_map = []; applied = []; max_req = []; apply_count = 0; watchers = [] }

-- m.maxReq[client]: 0 for a client that is not there.
abbrev pub newest : Bytes → Map Bytes ℕ → ℕ
newest client max_req = Option.get_or (Map.get client max_req) 0

-- k.RequestID+dedupWindow < m.maxReq[k.Client]
abbrev pub stale : Map Bytes ℕ → DedupKey → Bool
stale max_req k = ltb (add64 k.request_id dedup_window) (newest k.client max_req)

unfoldable pub sweep : Map Bytes ℕ → Map DedupKey ApplyResult → Map DedupKey ApplyResult
sweep max_req [] = []
sweep max_req ((k, r) ∷ applied) =
    let rest = sweep max_req applied in if stale max_req k then rest else (k, r) ∷ rest

-- sweepDedupLocked
unfoldable pub sweep_dedup : Machine → Machine
unfolding sweep
sweep_dedup m = record m { applied = sweep m.max_req m.applied }

-- A send that is offered to a channel; a full channel drops it.
abbrev pub Offer : Type 0
Offer = ℕ × WatchEvent

abbrev offers : WatchEvent → List ℕ → List Offer
offers ev [] = []
offers ev (ch ∷ chs) = (ch, ev) ∷ offers ev chs

unfoldable pub notify : Bytes → Bytes → Bool → Machine → List Offer
notify key value found m =
    offers (record { key = key; value = value; found = found })
      (Option.get_or (Map.get key m.watchers) [])

-- The data that a command leaves, its result, and the watch events.
pub record Effect : Type 0 where
  pub data_map : Map Bytes Bytes
  pub res : ApplyResult
  pub events : List Offer

abbrev result : Bool → Bytes → ApplyResult
result found value = record { found = found; value = value; duplicate = false }

abbrev value_or_nil : Option Bytes → Bytes
value_or_nil none = []
value_or_nil (some v) = v

abbrev is_some : Option Bytes → Bool
is_some none = false
is_some (some v) = true

-- OpCAS, on the value that stands under the key.
unfoldable pub cas : Command → Machine → Option Bytes → Effect
unfolding notify
cas cmd m none =
    if not (length cmd.expect == 0)
    then record { data_map = m.data_map; res = result false []; events = [] }
    else record {
      data_map = Map.put cmd.key cmd.value m.data_map;
      res = result true [];
      events = notify cmd.key cmd.value true m;
    }
cas cmd m (some cur) =
    if list_beq cur cmd.expect
    then record {
      data_map = Map.put cmd.key cmd.value m.data_map;
      res = result true cur;
      events = notify cmd.key cmd.value true m;
    }
    else record { data_map = m.data_map; res = result false cur; events = [] }

-- The switch on cmd.Op.
unfoldable pub execute : Command → Machine → Effect
unfolding cas notify
execute cmd m =
    let old = Map.get cmd.key m.data_map in
    if cmd.op == op_get
    then record {
      data_map = m.data_map;
      res = result (is_some old) (value_or_nil old);
      events = [];
    }
    else if cmd.op == op_put
    then record {
      data_map = Map.put cmd.key cmd.value m.data_map;
      res = result true (value_or_nil old);
      events = notify cmd.key cmd.value true m;
    }
    else if cmd.op == op_cas
    then cas cmd m old
    else if cmd.op == op_checkpoint
    then record {
      data_map = Map.put (checkpoint_key cmd.client_id) cmd.value m.data_map;
      res = result true cmd.value;
      events = [];
    }
    else record { data_map = m.data_map; res = result false []; events = [] }

-- cmd.ClientID != "" && cmd.RequestID != 0
abbrev pub tracked : Command → Bool
tracked cmd = not (length cmd.client_id == 0) && not (cmd.request_id == 0)

abbrev pub key_of : Command → DedupKey
key_of cmd = record { client = cmd.client_id; request_id = cmd.request_id }

abbrev pub counted_max : Command → Machine → Map Bytes ℕ
counted_max cmd m =
    if ltb (newest cmd.client_id m.max_req) cmd.request_id
    then Map.put cmd.client_id cmd.request_id m.max_req
    else m.max_req

abbrev pub counted : Command → ApplyResult → Machine → Machine
counted cmd res m = record m {
  applied = Map.put (key_of cmd) (record res { duplicate = false }) m.applied;
  max_req = counted_max cmd m;
  apply_count = add64 m.apply_count 1;
}

abbrev pub sweep_due : Machine → Bool
sweep_due m = leb dedup_high_water (length m.applied) && (m.apply_count % dedup_sweep_every) == 0

-- The block behind the switch: the result is remembered, and now and then the table is swept.
unfoldable pub remember : Command → ApplyResult → Machine → Machine
unfolding sweep_dedup
remember cmd res m =
    if sweep_due (counted cmd res m) then sweep_dedup (counted cmd res m) else counted cmd res m

-- What Apply returns and leaves, and the watch events that it sends.
pub record Applied : Type 0 where
  pub machine : Machine
  pub res : ApplyResult
  pub events : List Offer

unfoldable pub apply_fresh : Command → Machine → Applied
unfolding execute remember
apply_fresh cmd m =
    let e = execute cmd m in
    let after = record m { data_map = e.data_map } in
    record {
      machine = if tracked cmd then remember cmd e.res after else after;
      res = e.res;
      events = e.events;
    }

abbrev pub apply_seen : Option ApplyResult → Command → Machine → Applied
apply_seen (some prev) cmd m = record {
  machine = m;
  res = record prev { duplicate = true };
  events = [];
}
apply_seen none cmd m = apply_fresh cmd m

-- Apply, behind the exactly-once gate.
unfoldable pub apply : Command → Machine → Applied
unfolding apply_fresh
apply cmd m =
    if tracked cmd then apply_seen (Map.get (key_of cmd) m.applied) cmd m else apply_fresh cmd m

unfoldable pub get : Bytes → Machine → Option Bytes
get key m = Map.get key m.data_map

unfoldable pub watch : Bytes → ℕ → Machine → Machine
watch key ch m = record m {
  watchers = Map.put key (Option.get_or (Map.get key m.watchers) [] ++ (ch ∷ [])) m.watchers;
}

-- The first of the subscribers that is `ch` goes.
abbrev without : ℕ → List ℕ → List ℕ
without ch [] = []
without ch (c ∷ cs) = if c == ch then cs else c ∷ without ch cs

unfoldable pub unwatch : Bytes → ℕ → Machine → Machine
unwatch key ch m = elim (Map.get key m.watchers) [
  | none ↦ m
  | some subs ↦ record m { watchers = Map.put key (without ch subs) m.watchers }
]

-- The commands of a log, in order.
abbrev pub replay : Machine → List Command → Machine
replay m cmds = foldl (λ m cmd. (apply cmd m).machine) m cmds
