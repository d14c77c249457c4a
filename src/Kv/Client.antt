-- ===== src/Kv/Client.antt =====
-- internal/kv/client.go: the remote client, which walks the nodes until one answers as the leader.
-- Times are in nanoseconds.
pub mod Order
pub mod Walk
mod Tests
use kill_my_cluster.Prelude.{
  ℕ, zero, suc, ◌+◌, ◌*◌, ◌≡◌, Bool, true, false, not, ◌||◌, Option, none, some, List, [], ◌∷◌,
  ◌++◌, leb, ltb, ◌==◌, if◌then◌else◌, nat_eq, has, others,
}
use kill_my_cluster.Prelude.Bytes.{Bytes}
use kill_my_cluster.Prelude.Map.{Map}
use kill_my_cluster.Prelude.Map
use kill_my_cluster.Raft.Node.{at_or_zero}
use kill_my_cluster.Kv.Command.{Command, op_put, op_cas}

abbrev pub millisecond : ℕ
millisecond = 1000000

abbrev pub peer_penalty : ℕ
peer_penalty = 2000 * millisecond

-- The nodes with an open connection are in `conns`; the zero time is 0.
pub record Client : Type 0 where
  pub addrs : Map ℕ Bytes
  pub conns : List ℕ
  pub order : List ℕ
  pub bad_until : Map ℕ ℕ
  pub leader : ℕ

-- slices.Sort
abbrev insert : ℕ → List ℕ → List ℕ
insert x [] = x ∷ []
insert x (y ∷ ys) = let rest = insert x ys in if leb x y then x ∷ (y ∷ ys) else y ∷ rest

abbrev ascending : Map ℕ Bytes → List ℕ
ascending [] = []
ascending ((id, addr) ∷ addrs) = insert id (ascending addrs)

abbrev pub new_client : Map ℕ Bytes → Client
new_client addrs = record {
  addrs = addrs;
  conns = [];
  order = ascending addrs;
  bad_until = [];
  leader = 0;
}

abbrev pub is_known : Option Bytes → Bool
is_known none = false
is_known (some addr) = true

-- The bool says that there is a stub; `dials` says whether grpc.NewClient succeeds.
unfoldable pub stub : Bool → ℕ → Client → Client × Bool
stub dials id c =
    if has id c.conns
    then (c, true)
    else if not (is_known (Map.get id c.addrs))
    then (c, false)
    else if not dials
    then (c, false)
    else (record c { conns = id ∷ c.conns }, true)

abbrev pub penalised : ℕ → Client → ℕ → Bool
penalised now c id = ltb now (at_or_zero (Map.get id c.bad_until))

-- The loop of tryOrder over the rest: who goes first, and who goes last.
unfoldable pub split : ℕ → ℕ → Client → List ℕ → List ℕ × List ℕ
split now prefer c [] = ([], [])
split now prefer c (id ∷ ids) =
    let (out, bad) = split now prefer c ids in
    if id == prefer
    then (out, bad)
    else if penalised now c id
    then (out, id ∷ bad)
    else (id ∷ out, bad)

unfoldable pub try_order : ℕ → ℕ → Client → List ℕ
unfolding split
try_order now prefer c =
    let (out, bad) = split now prefer c c.order in
    if prefer == 0
    then out ++ bad
    else if penalised now c prefer
    then out ++ (prefer ∷ bad)
    else prefer ∷ (out ++ bad)

unfoldable pub demote : ℕ → ℕ → Client → Client
demote now id c = record c {
  bad_until = Map.put id (now + peer_penalty) c.bad_until;
  leader = if c.leader == id then 0 else c.leader;
}

unfoldable pub invalidate : ℕ → Client → Client
invalidate id c = record c { conns = others id c.conns }

-- What comes of an attempt: the context is over before it, the RPC fails (at a time, the connection
-- broken or not), the node does not lead and hints at who does, or it answers.
pub data Reply : Type 0 where
  context_over : Reply
  fails : Bool → ℕ → Reply
  redirects : ℕ → Reply
  serves : Reply

-- How a call ends.
pub data Outcome : Type 0 where
  cancelled no_leader : Outcome
  answered_by : ℕ → Outcome

-- One sweep: its time, what the nodes reply, which can be dialled, and whether the context is over
-- before it, or while it waits for the next.
pub record Sweep : Type 0 where
  pub now : ℕ
  pub reply : ℕ → Reply
  pub dials : ℕ → Bool
  pub over_before : Bool
  pub over_after : Bool

-- Where the walk stands: it has ended, or it goes on with the preferred node.
abbrev pub Progress : Type 0
Progress = Client × (Option Outcome × ℕ)

abbrev pub hear : Reply → ℕ → ℕ → Client → Progress
hear context_over id prefer c = (c, (some cancelled, prefer))
hear (fails broken at) id prefer c =
    (demote at id (if broken then invalidate id c else c), (none, prefer))
hear (redirects hint) id prefer c = (c, (none, if hint == 0 then prefer else hint))
hear serves id prefer c = (record c { leader = id }, (some (answered_by id), prefer))

abbrev pub is_over : Reply → Bool
is_over context_over = true
is_over _ = false

-- One turn of the inner loop.
unfoldable pub attempt : Sweep → ℕ → ℕ → Client → Progress
unfolding stub demote invalidate
attempt s id prefer c =
    let (c', there) = stub (s.dials id) id c in
    if is_over (s.reply id)
    then (c, (some cancelled, prefer))
    else if not there
    then (c', (none, prefer))
    else hear (s.reply id) id prefer c'

abbrev pub unless_ended : Progress → (ℕ → Client → Progress) → Progress
unless_ended (c, (some end, prefer)) next = (c, (some end, prefer))
unless_ended (c, (none, prefer)) next = next prefer c

-- The inner loop of viaLeader.
unfoldable pub walk : Sweep → List ℕ → ℕ → Client → Progress
unfolding attempt
walk s [] prefer c = (c, (none, prefer))
walk s (id ∷ ids) prefer c = unless_ended (attempt s id prefer c) (λ p d. walk s ids p d)

-- What follows a sweep: its end, or the wait for the next one.
abbrev pub after_sweep :
    Bool → Progress → (ℕ → Client → Option (Client × Outcome)) → Option (Client × Outcome)
after_sweep over (c, (some end, prefer)) next = some (c, end)
after_sweep over (c, (none, prefer)) next = if over then some (c, cancelled) else next prefer c

-- viaLeader from sweep `k` on; `none` where the fuel is spent.
unfoldable pub via_leader : (ℕ → Sweep) → ℕ → ℕ → ℕ → ℕ → Client → Option (Client × Outcome)
unfolding walk try_order
via_leader sweeps deadline zero k prefer c = none
via_leader sweeps deadline (suc fuel) k prefer c =
    let s = sweeps k in
    let next =
      after_sweep s.over_after (walk s (try_order s.now prefer c) prefer c)
        (λ p d. via_leader sweeps deadline fuel (k + 1) p d) in
    if not (ltb s.now deadline)
    then some (c, no_leader)
    else if s.over_before
    then some (c, cancelled)
    else next

-- ExecuteOnce's check; Get has none.
unfoldable pub may_execute : Command → Bool
may_execute cmd = cmd.op == op_put || cmd.op == op_cas
