-- ===== src/Raft/Applier/Order.antt =====
-- internal/raft/node.go: what a pass of the applier sends, and in which order.
use kill_my_cluster.Prelude.{
  ℕ, zero, suc, ◌+◌, ◌-◌, ◌≤◌, ◌<◌, ◌≡◌, refl, ap, ◌∙◌, false, arith, none, some, List, ◌∷◌, length,
  get_elem?,
}
use kill_my_cluster.Raft.Log.{Entry, RaftLog, first_index, last_index, entry}
use kill_my_cluster.Raft.Log.Shape.{IsChained, entry_at-IsChained}
use kill_my_cluster.Raft.Node.{Node}
use kill_my_cluster.Raft.Applier.{ApplyMsg, command, collect, apply_pass}

length-collect : (l : RaftLog) (i rounds : ℕ) → length (collect l i rounds) ≡ rounds
unfolding collect
length-collect l i zero = refl
length-collect l i (suc rounds) = ap suc (length-collect l (i + 1) rounds)

get_elem?-collect :
    (l : RaftLog) (i rounds k : ℕ)
    → k < rounds
    → get_elem? (collect l i rounds) k ≡ some (command (entry l (i + k)))
unfolding collect
get_elem?-collect l i zero k h = absurd (omega arith)
get_elem?-collect l i (suc rounds) zero h = ap (λ j. some (command (entry l j))) (omega arith)
get_elem?-collect l i (suc rounds) (suc k) h =
    get_elem?-collect l (i + 1) rounds k (omega arith)
    ∙ ap (λ j. some (command (entry l j))) (omega arith)

-- Message `k` of a batch is the log's entry of index lastApplied + 1 + k.
abbrev pub Delivers : Node → List ApplyMsg → ℕ → Type 0
Delivers n batch k =
    (e : Entry) × (get_elem? batch k ≡ some (command e))
    × (e.index ≡ n.last_applied + 1 + k)
    × (get_elem? (n.log.sentinel ∷ n.log.reals) (n.last_applied + 1 + k - first_index n.log)
        ≡ some e)

-- On a node that is not stopped and has no snapshot to hand over, whose log has consecutive indexes and
-- terms that do not fall, both from the sentinel on, starts at or before lastApplied and reaches
-- commitIndex: a pass of the applier moves lastApplied to
-- commitIndex and sends as many messages as there are indices between, of which message k, for every
-- k, is the log's entry of index lastApplied + 1 + k.
pub apply_pass-Delivers :
    (n : Node) (k : ℕ)
    → n.stopped ≡ false
    → n.pending_snapshot ≡ none
    → IsChained n.log
    → first_index n.log ≤ n.last_applied
    → n.commit_index ≤ last_index n.log
    → n.last_applied + k < n.commit_index
    → ((apply_pass n).0.last_applied ≡ n.commit_index)
      × (length (apply_pass n).1 ≡ n.commit_index - n.last_applied)
      × Delivers n (apply_pass n).1 k
unfolding apply_pass
apply_pass-Delivers n k up ready chained lo hi inside =
    let (e, found, at, _, same) =
      entry_at-IsChained n.log (n.last_applied + 1 + k) chained (omega arith) (omega arith) in
    rw (up, ready, apply_pass)
      (
        refl,
        length-collect n.log (n.last_applied + 1) (n.commit_index - n.last_applied),
        (
          e,
          get_elem?-collect n.log (n.last_applied + 1) (n.commit_index - n.last_applied) k
                (omega arith)
              ∙ ap (λ x. some (command x)) same,
          at,
          found,
        ),
      )
