-- ===== src/Raft/Duplicate.antt =====
-- HandleAppendEntries (internal/raft/node.go) on entries that the log has already.
use kill_my_cluster.Prelude.{
  nat_eq, ◌≤◌, ◌≡◌, refl, sym, ◌⊎◌, inl, inr, arith, true, false, not, ◌&&◌, ◌||◌, ◌==◌, leb, ltb,
  if◌then◌else◌, List, [], ◌∷◌, All, subst, if_case, ltb→lt, leb→le, Bool-cases,
}
use kill_my_cluster.Raft.Log.{Entry, RaftLog, first_index, last_index, term}
use kill_my_cluster.Raft.Disk.{Disk, Outcome}
use kill_my_cluster.Raft.Node.{Node, Env, AppendRequest, AppendResponse, reset_election_timer}
use kill_my_cluster.Raft.Handlers.{
  refuse, walk, adopt, accept, advance_commit, hear_leader, store_entries, check_entries,
  handle_append_entries,
}

-- An entry that is in the snapshot, or in the log with its term.
abbrev pub Present : RaftLog → Entry → Type 0
Present l e = (e.index ≤ first_index l) ⊎ ((e.index ≤ last_index l) × ((term l e.index).0 ≡ e.term))

walk-Present :
    (o : Outcome) (l : RaftLog) (d : Disk) (es : List Entry)
    → All (Present l) es
    → walk o l d es ≡ record { log = l; disk = d; new_entries = []; ok = true }
unfolding walk
walk-Present o l d [] h = refl
walk-Present o l d (e ∷ es) (inl old, rest) = ground (arith, walk-Present o l d es rest)
walk-Present o l d (e ∷ es) (inr (inside, same), rest) = ground (arith, walk-Present o l d es rest)

module _ (env : Env) (req : AppendRequest) where
  -- The log and the disk of a node, and that it answers with success.
  abbrev Untouched : Node → Node × AppendResponse → Type 0
  Untouched n (m, resp) = (m.log ≡ n.log) × (m.persist ≡ n.persist) × (resp.success ≡ true)

  store_nothing :
      (n : Node)
      → Untouched n (
          store_entries env req
            (record { log = n.log; disk = n.persist; new_entries = []; ok = true })
            n)
  unfolding store_entries accept advance_commit
  store_nothing n = (ground arith, ground arith, ground arith)

  check-Present :
      (n : Node)
      → req.prev_log_index ≤ last_index n.log
      → (first_index n.log ≤ req.prev_log_index
          → term n.log req.prev_log_index ≡ (req.prev_log_term, true))
      → All (Present n.log) req.entries
      → Untouched n (check_entries env req n)
  unfolding check_entries
  check-Present n fits agrees present =
      if_case (Untouched n) (ltb (last_index n.log) req.prev_log_index) _ _
        (λ short. absurd (omega (arith, ltb→lt _ _ short)))
        (λ _.
          if_case (Untouched n)
            (leb (first_index n.log) req.prev_log_index
              && (not (term n.log req.prev_log_index).1
                  || not ((term n.log req.prev_log_index).0 == req.prev_log_term)))
            _ _ (λ conflict. absurd (no_conflict conflict)) (λ _. stored))
    where
      no_conflict :
          (leb (first_index n.log) req.prev_log_index
              && (not (term n.log req.prev_log_index).1
                  || not ((term n.log req.prev_log_index).0 == req.prev_log_term)))
            ≡ true
          → ⊥
      no_conflict conflict = elim (Bool-cases (leb (first_index n.log) req.prev_log_index)) [
        | inr below ↦ ground arith
        | inl above ↦ ground (arith, agrees (leb→le _ _ above))
      ]

      stored :
          Untouched n
            (store_entries env req (walk env.truncation_saved n.log n.persist req.entries) n)
      stored =
          subst (λ w. Untouched n (store_entries env req w n))
            (sym (walk-Present env.truncation_saved n.log n.persist req.entries present))
            (store_nothing n)

  heard_log : (n : Node) → (hear_leader env req.leader_id n).log ≡ n.log
  unfolding hear_leader reset_election_timer
  heard_log n = refl

  heard_persist : (n : Node) → (hear_leader env req.leader_id n).persist ≡ n.persist
  unfolding hear_leader reset_election_timer
  heard_persist n = refl

  -- On a node that is not stopped and is in the message's term, whose log reaches prevLogIndex and has
  -- the message's prevLogTerm there unless that is before its snapshot, and which has each entry of
  -- the message, in its snapshot or with the same term: HandleAppendEntries answers with success and
  -- leaves the log and the disk as they are.
  pub handle_append_entries-Present :
      (n : Node)
      → n.stopped ≡ false
      → req.term ≡ n.current_term
      → req.prev_log_index ≤ last_index n.log
      → (first_index n.log ≤ req.prev_log_index
          → term n.log req.prev_log_index ≡ (req.prev_log_term, true))
      → All (Present n.log) req.entries
      → ((handle_append_entries env req n).0.log ≡ n.log)
        × ((handle_append_entries env req n).0.persist ≡ n.persist)
        × ((handle_append_entries env req n).1.success ≡ true)
  unfolding handle_append_entries
  handle_append_entries-Present n up same fits agrees present =
      if_case (Untouched n) n.stopped _ _ (λ e. ground arith)
        (λ _.
          subst
            (λ m. Untouched n (
              if ltb req.term m.current_term
              then (m, refuse m 0 0)
              else check_entries env req (hear_leader env req.leader_id m)))
            (sym adopted)
            (if_case (Untouched n) (ltb req.term n.current_term) _ _
              (λ old. absurd (omega (arith, ltb→lt _ _ old))) (λ _. checked)))
    where
      adopted : adopt env req.term n ≡ n
      adopted = ground arith

      checked : Untouched n (check_entries env req (hear_leader env req.leader_id n))
      checked =
          unfold hear_leader reset_election_timer in
          check-Present (hear_leader env req.leader_id n) fits agrees present
