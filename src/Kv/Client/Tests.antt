-- ===== src/Kv/Client/Tests.antt =====
-- Runs of the client's theorems on three nodes.
use kill_my_cluster.Prelude.{
  ℕ, ◌+◌, ◌*◌, ◌≡◌, ◌⊎◌, inr, refl, arith, true, false, some, List, [], ◌∷◌, nat_eq, if◌then◌else◌,
  ◌==◌,
}
use kill_my_cluster.Prelude.Map
use kill_my_cluster.Kv.Client.{
  Client, new_client, demote, try_order, penalised, Reply, fails, redirects, serves, Sweep, Outcome,
  walk, via_leader, millisecond,
}
use kill_my_cluster.Kv.Client.Order.{Walks, try_order-Walks}
use kill_my_cluster.Kv.Client.Walk.{Answered, walk-Answered, via_leader_terminates}

abbrev three : Client
three = new_client ((3, 97 ∷ []) ∷ (1, 98 ∷ []) ∷ (2, 99 ∷ []) ∷ [])

-- Node 1 has failed at time 0; node 3 is preferred.
abbrev one_failed : Client
one_failed = demote 0 1 three

try_order-Walks_example :
    Walks 5 one_failed one_failed.order (try_order 5 3 one_failed)
    × ((◌≡◌ {A = ℕ} 3 0)
        ⊎ ((penalised 5 one_failed 3 ≡ true)
            ⊎ ((rest : List ℕ) × (try_order 5 3 one_failed ≡ 3 ∷ rest))))
unfolding demote
try_order-Walks_example = try_order-Walks 5 3 one_failed (refl, (refl, (refl, tt))) refl (inr refl)

-- Node 1 does not answer, node 2 points at node 3, and node 3 leads.
abbrev replies : ℕ → Reply
replies id = if id == 1 then fails true 7 else if id == 2 then redirects 3 else serves

abbrev sweep_at : ℕ → Sweep
sweep_at t = record {
  now = t;
  reply = replies;
  dials = λ id. true;
  over_before = false;
  over_after = false;
}

walk-Answered_example : Answered (sweep_at 5) (walk (sweep_at 5) three.order 0 three)
unfolding Map.get
walk-Answered_example =
    walk-Answered (sweep_at 5) 3 refl refl three.order 0 three refl refl (λ x. ground arith)

-- Nobody can be dialled.
abbrev nobody : ℕ → Sweep
nobody k = record (sweep_at (k * (250 * millisecond))) { dials = λ id. false }

via_leader_terminates_example :
    (r : Client × Outcome) × (via_leader nobody
        ((nobody 0).now + 8000 * millisecond)
        33
        0
        three.leader
        three
      ≡ some r)
via_leader_terminates_example = via_leader_terminates nobody three (λ k. omega arith)
