-- ===== src/Raft/Commit.antt =====
-- How commit indices move: maybeAdvanceCommitLocked (internal/raft/replicate.go) on the leader, and
-- HandleAppendEntries (internal/raft/node.go) on a follower.
use kill_my_cluster.Prelude.{
  nat_eq, ℕ, zero, suc, ◌+◌, ◌-◌, ◌≤◌, ◌<◌, ◌≡◌, refl, ◌⊎◌, inl, inr, arith, true, false, not, ◌||◌,
  ◌==◌, leb, leb→le, if_case, List, [], ◌∷◌, length, All, Bool-cases,
}
use kill_my_cluster.Prelude.Chosen.{Chosen, none_left, takes, leaves, MostOf}
use kill_my_cluster.Prelude.Map
use kill_my_cluster.Raft.Log.{last_index, term}
use kill_my_cluster.Raft.Node.{
  Node, Env, AppendRequest, majority, at_or_zero, become_follower, reset_election_timer,
}
use kill_my_cluster.Raft.Handlers.{
  adopt, accept, advance_commit, hear_leader, store_entries, check_entries, handle_append_entries,
  walk, Walk,
}
use kill_my_cluster.Raft.Leader.{holders, advance_loop, maybe_advance_commit}

-- The peer has the entries up to `i`, by its match index.
abbrev pub Holds : Node → ℕ → ℕ → Type 0
Holds n i p = i ≤ at_or_zero (Map.get p n.match_index)

-- Entry `i` is of the leader's own term, and some of the peers hold it that are, with the leader, more
-- than half of the cluster.
pub record Backed (n : Node) (i : ℕ) : Type 0 where
  pub above : n.commit_index < i
  pub own_term : term n.log i ≡ (n.current_term, true)
  pub held : MostOf (Holds n i) n.peers

-- The peers that are counted.
holders-Chosen :
    (i : ℕ) (ps : List ℕ) (n : Node)
    → (qs : List ℕ) × Chosen qs ps × All (Holds n i) qs × (length qs ≡ holders i ps n)
unfolding holders
holders-Chosen i [] n = ([], none_left, tt, refl)
holders-Chosen i (p ∷ ps) n =
    let (qs, sub, all, e) = holders-Chosen i ps n in
    elim (Bool-cases (leb i (at_or_zero (Map.get p n.match_index)))) [
      | inl has_it ↦ (p ∷ qs, takes sub, (leb→le _ _ has_it, all), ground (arith, e))
      | inr lacks ↦ (qs, leaves sub, all, ground (arith, e))
    ]

holders-MostOf :
    (i : ℕ) (n : Node) → majority n ≤ 1 + holders i n.peers n → MostOf (Holds n i) n.peers
holders-MostOf i n enough =
    let (qs, sub, all, e) = holders-Chosen i n.peers n in
    record { chosen = qs; among = sub; each = all; most = omega (arith, e, enough) }

advance_loop-Backed :
    (now : ℕ) (n : Node) (k : ℕ)
    → ((advance_loop now n k).commit_index ≡ n.commit_index)
      ⊎ Backed n (advance_loop now n k).commit_index
unfolding advance_loop
advance_loop-Backed now n zero = inl refl
advance_loop-Backed now n (suc k) =
    if_case Q (not (term n.log i).1 || not ((term n.log i).0 == n.current_term)) _ _ (λ _. inl refl)
      (λ own.
        if_case Q (leb (majority n) (1 + holders i n.peers n)) _ _ (λ held. inr (backed own held))
          (λ _. advance_loop-Backed now n k))
  where
    i : ℕ
    i = n.commit_index + suc k

    Q : Node → Type 0
    Q m = (m.commit_index ≡ n.commit_index) ⊎ Backed n m.commit_index

    in_term :
        (not (term n.log i).1 || not ((term n.log i).0 == n.current_term)) ≡ false
        → term n.log i ≡ (n.current_term, true)
    in_term own = ground arith

    backed :
        (not (term n.log i).1 || not ((term n.log i).0 == n.current_term)) ≡ false
        → leb (majority n) (1 + holders i n.peers n) ≡ true
        → Backed n i
    backed own held = record {
      above = omega arith;
      own_term = in_term own;
      held = holders-MostOf i n (leb→le _ _ held);
    }

-- The leader's commit index stays, or moves up to an entry of the leader's own term, for which there are
-- peers, each counted once for its place in the list of peers, whose match index is at least the
-- entry's, and which with the leader are more than half of the cluster.
pub maybe_advance_commit-Backed :
    (now : ℕ) (n : Node)
    → ((maybe_advance_commit now n).commit_index ≡ n.commit_index)
      ⊎ Backed n (maybe_advance_commit now n).commit_index
unfolding maybe_advance_commit
maybe_advance_commit-Backed now n = advance_loop-Backed now n (last_index n.log - n.commit_index)

module _ (env : Env) (req : AppendRequest) where
  store_entries-commit :
      (w : Walk) (n : Node) → n.commit_index ≤ (store_entries env req w n).0.commit_index
  unfolding store_entries accept advance_commit
  store_entries-commit w n = ground arith

  check_entries-commit : (n : Node) → n.commit_index ≤ (check_entries env req n).0.commit_index
  unfolding check_entries
  check_entries-commit n =
      ground (arith, store_entries-commit (walk env.truncation_saved n.log n.persist req.entries) n)

  store_entries-term :
      (w : Walk) (n : Node) → (store_entries env req w n).0.current_term ≡ n.current_term
  unfolding store_entries accept advance_commit
  store_entries-term w n = ground arith

  check_entries-term : (n : Node) → (check_entries env req n).0.current_term ≡ n.current_term
  unfolding check_entries
  check_entries-term n =
      ground (arith, store_entries-term (walk env.truncation_saved n.log n.persist req.entries) n)

  -- On a node that is not stopped, HandleAppendEntries never lowers the commit index or the term,
  -- and leaves a term that is at least the message's, whatever the message holds and whichever of
  -- the writes fail.
  pub handle_append_entries_monotone :
      (n : Node)
      → n.stopped ≡ false
      → (n.commit_index ≤ (handle_append_entries env req n).0.commit_index)
        × (n.current_term ≤ (handle_append_entries env req n).0.current_term)
        × (req.term ≤ (handle_append_entries env req n).0.current_term)
  unfolding handle_append_entries hear_leader reset_election_timer become_follower
  handle_append_entries_monotone n up = ground (
    arith,
    check_entries-commit (hear_leader env req.leader_id (adopt env req.term n)),
    check_entries-term (hear_leader env req.leader_id (adopt env req.term n)),
  )
