-- ===== src/Kv/Machine/Once.antt =====
-- internal/kv/machine.go: the exactly-once gate of Apply, across other commands and sweeps.
use kill_my_cluster.Prelude.{
  ℕ, ◌+◌, ◌<◌, ◌≤◌, ◌≡◌, ap, ◌∙◌, sym, subst, true, false, none, some, List, [], ◌∷◌, if◌then◌else◌,
  arith, list_eq, beq, Bool-cases, Option-cases, inl, inr, if_case,
}
use kill_my_cluster.Prelude.Bytes.{Bytes, u64_mod}
use kill_my_cluster.Prelude.Map.{Map, get-put, get-put_self, beq_refl}
use kill_my_cluster.Prelude.Map
use kill_my_cluster.Kv.Command.{Command, ApplyResult}
use kill_my_cluster.Kv.Machine.{
  DedupKey, dedup_eq, dedup_window, counted, counted_max, sweep_due, Machine, Applied, newest,
  stale, sweep, sweep_dedup, tracked, key_of, remember, execute, apply_fresh, apply, replay,
}

-- The sweep drops exactly the entries that are out of their client's window.
get-sweep :
    (max_req : Map Bytes ℕ) (k : DedupKey) (applied : Map DedupKey ApplyResult)
    → Map.get k (sweep max_req applied) ≡ (if stale max_req k then none else Map.get k applied)
unfolding sweep Map.get
get-sweep max_req k [] = ground arith
get-sweep max_req k ((j, r) ∷ applied) =
    ground (arith, dedup_eq.beq_iff j k, get-sweep max_req k applied)

-- A request that is in the window of what its client has last asked for.
abbrev pub InWindow : DedupKey → Machine → Type 0
InWindow k m = newest k.client m.max_req ≤ k.request_id + dedup_window

newest-put :
    (c d : Bytes) (r : ℕ) (max_req : Map Bytes ℕ)
    → newest c max_req < r
    → newest d max_req ≤ newest d (Map.put c r max_req)
newest-put c d r max_req h = ground (arith, get-put c d r max_req, list_eq.beq_iff c d)

max_req-remember :
    (cmd : Command) (res : ApplyResult) (m : Machine)
    → (remember cmd res m).max_req ≡ counted_max cmd m
unfolding remember sweep_dedup
max_req-remember cmd res m = ground arith

newest-remember :
    (cmd : Command) (res : ApplyResult) (m : Machine) (d : Bytes)
    → newest d m.max_req ≤ newest d (remember cmd res m).max_req
newest-remember cmd res m d = rw (max_req-remember cmd res m) grown
  where
    grown : newest d m.max_req ≤ newest d (counted_max cmd m)
    grown = ground (arith, newest-put cmd.client_id d cmd.request_id m.max_req)

-- The table after a command: its own entry is new, the others stay, and a sweep may follow.
get-remember :
    (cmd : Command) (res : ApplyResult) (m : Machine) (k : DedupKey)
    → k.request_id + dedup_window < u64_mod
    → newest k.client (counted_max cmd m) ≤ k.request_id + dedup_window
    → Map.get k (remember cmd res m).applied ≡ (
        if beq (key_of cmd) k then some (record res { duplicate = false }) else Map.get k m.applied)
unfolding remember sweep_dedup
get-remember cmd res m k room inside =
    if_case Q (sweep_due (counted cmd res m)) _ _
      (λ _. get-sweep (counted_max cmd m) k put_in ∙ (fresh ∙ stored)) (λ _. stored)
  where
    put_in : Map DedupKey ApplyResult
    put_in = Map.put (key_of cmd) (record res { duplicate = false }) m.applied

    Q : Machine → Type 0
    Q n = Map.get k n.applied ≡ (
        if beq (key_of cmd) k then some (record res { duplicate = false }) else Map.get k m.applied)

    stored : Map.get k put_in ≡ (
        if beq (key_of cmd) k then some (record res { duplicate = false }) else Map.get k m.applied)
    stored = get-put (key_of cmd) k (record res { duplicate = false }) m.applied

    in_window : stale (counted_max cmd m) k ≡ false
    in_window = ground arith

    fresh : (if stale (counted_max cmd m) k then none else Map.get k put_in) ≡ Map.get k put_in
    fresh = rw in_window

-- What a command leaves of the table, by the gate's two cases.
abbrev Kept : DedupKey → ApplyResult → Machine → Type 0
Kept k r m = Map.get k m.applied ≡ some r

-- The table remembers a result that has the command's answer.
abbrev Remembered : DedupKey → ApplyResult → Machine → Type 0
Remembered k answer m =
    (r : ApplyResult) × Kept k r m
    × (record r { duplicate = true } ≡ record answer { duplicate = true })

module _ (cmd : Command) (m : Machine) where
  newest-apply : (d : Bytes) → newest d m.max_req ≤ newest d (apply cmd m).machine.max_req
  unfolding apply apply_fresh
  newest-apply d = ground (
    arith,
    newest-remember cmd (execute cmd m).res (record m { data_map = (execute cmd m).data_map }) d,
  )

  pub apply-seen :
      (r : ApplyResult)
      → tracked cmd ≡ true
      → Kept (key_of cmd) r m
      → apply cmd m ≡ record { machine = m; res = record r { duplicate = true }; events = [] }
  unfolding apply
  apply-seen r t e = ground (arith)

  pub apply-new :
      tracked cmd ≡ true
      → Map.get (key_of cmd) m.applied ≡ none
      → (apply cmd m).machine
        ≡ remember cmd (execute cmd m).res (record m { data_map = (execute cmd m).data_map })
  unfolding apply apply_fresh
  apply-new t e = ground (arith)

  pub apply-untracked : tracked cmd ≡ false → (apply cmd m).machine.applied ≡ m.applied
  unfolding apply apply_fresh
  apply-untracked t = ground arith

  apply-res : Map.get (key_of cmd) m.applied ≡ none → (apply cmd m).res ≡ (execute cmd m).res
  unfolding apply apply_fresh
  apply-res e = ground arith

  abbrev pub executed : Machine
  executed = record m { data_map = (execute cmd m).data_map }

  module _ (k : DedupKey) (room : k.request_id + dedup_window < u64_mod)
      (inside : InWindow k (apply cmd m).machine) where
    get-new :
        tracked cmd ≡ true
        → Map.get (key_of cmd) m.applied ≡ none
        → Map.get k (apply cmd m).machine.applied ≡ (
            if beq (key_of cmd) k
            then some (record (execute cmd m).res { duplicate = false })
            else Map.get k m.applied)
    get-new t e =
        ap (λ n. Map.get k n.applied) (apply-new t e)
        ∙ get-remember cmd (execute cmd m).res executed k room (
            subst (λ x. newest k.client x ≤ k.request_id + dedup_window)
              (ap (λ n. n.max_req) (apply-new t e)
                ∙ max_req-remember cmd (execute cmd m).res executed)
              inside)

    -- A command leaves the entries that are in the window after it.
    Kept-apply : (r : ApplyResult) → Kept k r m → Kept k r (apply cmd m).machine
    Kept-apply r h = elim (Bool-cases (tracked cmd)) [
      | inr t ↦ ap (Map.get k) (apply-untracked t) ∙ h
      | inl t ↦ elim (Option-cases (Map.get (key_of cmd) m.applied)) [
        | inr (prev, e) ↦ ap (λ a. Map.get k a.machine.applied) (apply-seen prev t e) ∙ h
        | inl e ↦ get-new t e ∙ ground (arith, dedup_eq.beq_iff (key_of cmd) k)
      ]
    ]

  Remembered-apply :
      tracked cmd ≡ true
      → cmd.request_id + dedup_window < u64_mod
      → InWindow (key_of cmd) (apply cmd m).machine
      → Remembered (key_of cmd) (apply cmd m).res (apply cmd m).machine
  Remembered-apply t room inside = elim (Option-cases (Map.get (key_of cmd) m.applied)) [
    | inr (prev, e) ↦ (
      prev,
      ap (λ a. Map.get (key_of cmd) a.machine.applied) (apply-seen prev t e) ∙ e,
      ap {A = Applied} (λ a. record a.res { duplicate = true }) (sym (apply-seen prev t e)),
    )
    | inl e ↦ (
      record (execute cmd m).res { duplicate = false },
      get-new (key_of cmd) room inside t e ∙ ground (arith, beq_refl (key_of cmd)),
      ap {A = ApplyResult} (λ a. record a { duplicate = true }) (sym (apply-res e)),
    )
  ]

-- The newest request of a client never goes back.
newest-replay :
    (cmds : List Command) (m : Machine) (d : Bytes)
    → newest d m.max_req ≤ newest d (replay m cmds).max_req
newest-replay [] m d = omega arith
newest-replay (c ∷ cs) m d =
    omega (arith, newest-apply c m d, newest-replay cs (apply c m).machine d)

Kept-replay :
    (cmds : List Command) (m : Machine) (k : DedupKey) (r : ApplyResult)
    → k.request_id + dedup_window < u64_mod
    → InWindow k (replay m cmds)
    → Kept k r m
    → Kept k r (replay m cmds)
Kept-replay [] m k r room inside h = h
Kept-replay (c ∷ cs) m k r room inside h =
    Kept-replay cs (apply c m).machine k r room inside
      (Kept-apply c m k room (omega (arith, newest-replay cs (apply c m).machine k.client)) r h)

-- A command with a client and a request id that is applied again, after any other commands,
-- changes nothing, wakes no watcher and returns the first answer marked as a duplicate: where its
-- request id plus the window of 128 is below 2 ^ 64, and its client's newest request is at most
-- the window past it.
pub apply_once :
    (m : Machine) (cmd : Command) (cmds : List Command)
    → tracked cmd ≡ true
    → cmd.request_id + dedup_window < u64_mod
    → InWindow (key_of cmd) (replay (apply cmd m).machine cmds)
    → apply cmd (replay (apply cmd m).machine cmds) ≡ record {
      machine = replay (apply cmd m).machine cmds;
      res = record (apply cmd m).res { duplicate = true };
      events = [];
    }
apply_once m cmd cmds t room inside =
    let (r, kept, same) =
      Remembered-apply cmd m t room
        (omega (arith, newest-replay cmds (apply cmd m).machine cmd.client_id)) in
    apply-seen cmd (replay (apply cmd m).machine cmds) r t
      (Kept-replay cmds (apply cmd m).machine (key_of cmd) r room inside kept)
    ∙ ap (λ a. record { machine = replay (apply cmd m).machine cmds; res = a; events = [] }) same
