-- ===== src/Raft/Votes/Responses.antt =====
-- internal/raft/node.go and replicate.go: the record of votes across the responses that a leader
-- and a candidate hear.
use kill_my_cluster.Prelude.{
  ℕ, zero, suc, ◌+◌, ◌≡◌, refl, ap, arith, Bool, not, List, ltb, ltb→lt, ◌==◌,
}
use kill_my_cluster.Raft.Log.{last_index}
use kill_my_cluster.Raft.Disk.Hard.{hard_of}
use kill_my_cluster.Raft.Node.{Node, Env, VoteResponse, AppendRequest, AppendResponse}
use kill_my_cluster.Raft.Votes.{Grant}
use kill_my_cluster.Raft.Votes.Invariant.{in_memory, on_disk}
use kill_my_cluster.Prelude.{if_case, ◌||◌, length, nat_eq, ◌-◌}
use kill_my_cluster.Prelude.Map
use kill_my_cluster.Prelude.Bytes.{add64}
use kill_my_cluster.Raft.Node.{is_candidate, majority, at_or_zero}
use kill_my_cluster.Raft.Leader.{
  backed_up, leads, note_contact, advance_cursors, advance_loop, maybe_advance_commit,
  append_response, snapshot_response,
}
use kill_my_cluster.Raft.Election.{become_leader, vote_response}
use kill_my_cluster.Raft.Votes.Moves.{IsHonest, same-IsHonest, become_follower-IsHonest}

module _ (gs : List Grant) where
  advance_loop-memory : (now k : ℕ) (n : Node) → in_memory (advance_loop now n k) ≡ in_memory n
  unfolding advance_loop
  advance_loop-memory now zero n = refl
  advance_loop-memory now (suc k) n = ground (arith, advance_loop-memory now k n)

  advance_loop-persist : (now k : ℕ) (n : Node) → (advance_loop now n k).persist ≡ n.persist
  unfolding advance_loop
  advance_loop-persist now zero n = refl
  advance_loop-persist now (suc k) n = ground (arith, advance_loop-persist now k n)

  pub append_response-IsHonest :
      (env : Env) (peer t : ℕ) (req : AppendRequest) (resp : AppendResponse) (n : Node)
      → IsHonest gs n
      → IsHonest gs (append_response env peer t req resp n).0
  unfolding append_response
  append_response-IsHonest env peer t req resp n h =
      if_case Q n.stopped _ _ (λ _. h)
        (λ _.
          if_case Q (ltb n.current_term resp.term) _ _
            (λ e. become_follower-IsHonest gs env resp.term n (ltb→lt _ _ e) h)
            (λ _.
              if_case Q (not (leads t n)) _ _ (λ _. h)
                (λ _.
                  if_case Q resp.success _ _ (λ _. acked (note_contact env.now peer n) h)
                    (λ _. same-IsHonest gs n rejected refl refl h))))
    where
      Q : Node × (Bool × Bool) → Type 0
      Q r = IsHonest gs r.0

      rejected : Node
      rejected = record (note_contact env.now peer n) {
        next_index =
            Map.put peer (backed_up n.log (at_or_zero (Map.get peer n.next_index)) resp)
              n.next_index;
      }

      matched : ℕ
      matched = add64 req.prev_log_index (length req.entries)

      acked :
          (m : Node)
          → IsHonest gs m
          → IsHonest gs (maybe_advance_commit env.now (advance_cursors peer matched m))
      acked m =
          same-IsHonest gs m (maybe_advance_commit env.now (advance_cursors peer matched m))
            (kept_memory m) (kept_disk m)
        where
          kept_memory :
              (m : Node)
              → in_memory (maybe_advance_commit env.now (advance_cursors peer matched m))
                ≡ in_memory m
          kept_memory m =
              unfold maybe_advance_commit advance_cursors in
              advance_loop-memory env.now (last_index m.log - m.commit_index)
                (advance_cursors peer matched m)

          kept_disk :
              (m : Node)
              → on_disk (maybe_advance_commit env.now (advance_cursors peer matched m)) ≡ on_disk m
          kept_disk m =
              unfold maybe_advance_commit advance_cursors in
              ap hard_of (
                advance_loop-persist env.now (last_index m.log - m.commit_index)
                  (advance_cursors peer matched m))

  pub snapshot_response-IsHonest :
      (env : Env) (peer t index resp_term : ℕ) (n : Node)
      → IsHonest gs n
      → IsHonest gs (snapshot_response env peer t index resp_term n).0
  unfolding snapshot_response
  snapshot_response-IsHonest env peer t index resp_term n h =
      if_case Q n.stopped _ _ (λ _. h)
        (λ _.
          if_case Q (ltb n.current_term resp_term) _ _
            (λ e. become_follower-IsHonest gs env resp_term n (ltb→lt _ _ e) h)
            (λ _.
              if_case Q (not (leads t n)) _ _ (λ _. h)
                (λ _. cursors (note_contact env.now peer n) h)))
    where
      Q : Node × (Bool × Bool) → Type 0
      Q r = IsHonest gs r.0

      cursors : (m : Node) → IsHonest gs m → IsHonest gs (advance_cursors peer index m)
      cursors m =
          same-IsHonest gs m (advance_cursors peer index m) (kept_memory m)
            (ap hard_of (kept_disk m))
        where
          kept_memory : (m : Node) → in_memory (advance_cursors peer index m) ≡ in_memory m
          kept_memory m = unfold advance_cursors in refl

          kept_disk : (m : Node) → (advance_cursors peer index m).persist ≡ m.persist
          kept_disk m = unfold advance_cursors in refl

  pub vote_response-IsHonest :
      (env : Env) (t : ℕ) (resp : VoteResponse) (n : Node)
      → IsHonest gs n
      → IsHonest gs (vote_response env t resp n)
  unfolding vote_response
  vote_response-IsHonest env t resp n h =
      if_case (IsHonest gs) n.stopped _ _ (λ _. h)
        (λ _.
          if_case (IsHonest gs) (ltb n.current_term resp.term) _ _
            (λ e. become_follower-IsHonest gs env resp.term n (ltb→lt _ _ e) h)
            (λ _.
              if_case (IsHonest gs)
                (not (is_candidate n.role) || (not (n.current_term == t) || not resp.vote_granted))
                _ _ (λ _. h)
                (λ _.
                  if_case (IsHonest gs) (n.votes + 1 == majority n) _ _ (λ _. elected counted h)
                    (λ _. same-IsHonest gs n counted refl refl h))))
    where
      counted : Node
      counted = record n { votes = n.votes + 1 }

      elected : (m : Node) → IsHonest gs m → IsHonest gs (become_leader env m)
      elected m =
          same-IsHonest gs m (become_leader env m) (kept_memory m) (ap hard_of (kept_disk m))
        where
          kept_memory : (m : Node) → in_memory (become_leader env m) ≡ in_memory m
          kept_memory m = unfold become_leader in refl

          kept_disk : (m : Node) → (become_leader env m).persist ≡ m.persist
          kept_disk m = unfold become_leader in refl
