-- ===== src/Raft/Cluster/Calm.antt =====
-- internal/raft/node.go, replicate.go and batch.go: what a step does to a node's role, term and count
-- of votes.
use kill_my_cluster.Prelude.{
  nat_eq, ℕ, zero, suc, ◌-◌, ◌≡◌, refl, ap, ◌∙◌, ◌⊎◌, inl, inr, arith, Bool, true, not, ◌&&◌, ◌||◌,
  ◌==◌, leb, ltb, List, if_case, length,
}
use kill_my_cluster.Prelude.Bytes.{Bytes, add64}
use kill_my_cluster.Prelude.Map
use kill_my_cluster.Raft.Log.{first_index, last_index, term}
use kill_my_cluster.Raft.Node.{
  Node, Env, VoteRequest, VoteResponse, AppendRequest, AppendResponse, SnapshotRequest,
  become_follower, reset_election_timer, step_down, new_node, is_follower, at_or_zero,
  heard_leader_recently,
}
use kill_my_cluster.Raft.Handlers.{
  adopt, accept, advance_commit, grant_vote, walk, Walk, hear_leader, store_entries, check_entries,
  handle_append_entries, handle_request_vote, handle_install_snapshot, install_snapshot, snapshot,
}
use kill_my_cluster.Raft.Leader.{
  commit_prop_batch, leads, note_contact, advance_cursors, advance_loop, maybe_advance_commit,
  replicate_send, send_snapshot, append_response, snapshot_response, backed_up,
}
use kill_my_cluster.Raft.Election.{check_commit_stall, commit_stall}

-- The same member of the cluster.
abbrev pub SameMember : Node → Node → Type 0
SameMember n m = (m.id ≡ n.id) × (m.peers ≡ n.peers)

abbrev pub SameStanding : Node → Node → Type 0
SameStanding n m = (m.role ≡ n.role) × (m.current_term ≡ n.current_term) × (m.votes ≡ n.votes)

-- The node stands where it stood, or it is a follower.
abbrev pub Calm : Node → Node → Type 0
Calm n m = SameMember n m × ((is_follower m.role ≡ true) ⊎ SameStanding n m)

pub stays : (n m : Node) → SameMember n m → SameStanding n m → Calm n m
stays n m a b = (a, inr b)

pub follows : (n m : Node) → SameMember n m → is_follower m.role ≡ true → Calm n m
follows n m a b = (a, inl b)

pub Calm-refl : (n : Node) → Calm n n
Calm-refl n = stays n n (refl, refl) (refl, refl, refl)

pub Calm-trans : (n m k : Node) → Calm n m → Calm m k → Calm n k
Calm-trans n m k (a, p) (b, inl q) = ((b.0 ∙ a.0, b.1 ∙ a.1), inl q)
Calm-trans n m k (a, inl p) (b, inr q) = ((b.0 ∙ a.0, b.1 ∙ a.1), inl (ap is_follower q.0 ∙ p))
Calm-trans n m k (a, inr p) (b, inr q) =
    ((b.0 ∙ a.0, b.1 ∙ a.1), inr (q.0 ∙ p.0, q.1 ∙ p.1, q.2 ∙ p.2))

pub replicate_send-Calm : (peer t : ℕ) (n : Node) → Calm n (replicate_send peer t n).0
unfolding replicate_send send_snapshot
replicate_send-Calm peer t n = (ground arith, ground arith)

module _ (env : Env) where
  pub become_follower-Calm : (t : ℕ) (n : Node) → Calm n (become_follower env t n)
  unfolding become_follower reset_election_timer
  become_follower-Calm t n = ((refl, refl), inl refl)

  pub step_down-Calm : (n : Node) → Calm n (step_down env n)
  unfolding step_down reset_election_timer
  step_down-Calm n = ((refl, refl), inl refl)

  adopt-Calm : (t : ℕ) (n : Node) → Calm n (adopt env t n)
  adopt-Calm t n =
      if_case (Calm n) (ltb n.current_term t) _ _ (λ _. become_follower-Calm t n) (λ _. Calm-refl n)

  grant_vote-Calm : (req : VoteRequest) (n : Node) → Calm n (grant_vote env req n).0
  unfolding grant_vote reset_election_timer
  grant_vote-Calm req n = (ground arith, ground arith)

  pub handle_request_vote-Calm :
      (req : VoteRequest) (n : Node) → Calm n (handle_request_vote env req n).0
  unfolding handle_request_vote
  handle_request_vote-Calm req n =
      if_case Q n.stopped _ _ (λ _. Calm-refl n)
        (λ _.
          if_case Q req.pre_vote _ _ (λ _. Calm-refl n)
            (λ _.
              if_case Q (ltb n.current_term req.term && heard_leader_recently env n) _ _
                (λ _. Calm-refl n)
                (λ _.
                  if_case Q (ltb req.term n'.current_term) _ _ (λ _. adopted)
                    (λ _.
                      Calm-trans n n' (grant_vote env req n').0 adopted (grant_vote-Calm req n')))))
    where
      Q : Node × VoteResponse → Type 0
      Q r = Calm n r.0

      n' : Node
      n' = adopt env req.term n

      adopted : Calm n n'
      adopted = adopt-Calm req.term n

  store_entries-Calm :
      (req : AppendRequest) (w : Walk) (n : Node) → Calm n (store_entries env req w n).0
  unfolding store_entries accept advance_commit
  store_entries-Calm req w n = (ground arith, ground arith)

  check_entries-Calm : (req : AppendRequest) (n : Node) → Calm n (check_entries env req n).0
  unfolding check_entries
  check_entries-Calm req n =
      if_case Q (ltb (last_index n.log) req.prev_log_index) _ _ (λ _. Calm-refl n)
        (λ _.
          if_case Q
            (leb (first_index n.log) req.prev_log_index
              && (not (term n.log req.prev_log_index).1
                  || not ((term n.log req.prev_log_index).0 == req.prev_log_term)))
            _ _ (λ _. Calm-refl n)
            (λ _. store_entries-Calm req (walk env.truncation_saved n.log n.persist req.entries) n))
    where
      Q : Node × AppendResponse → Type 0
      Q r = Calm n r.0

  hear_leader-Calm : (l : ℕ) (n : Node) → Calm n (hear_leader env l n)
  unfolding hear_leader reset_election_timer
  hear_leader-Calm l n = ((refl, refl), inl refl)

  pub handle_append_entries-Calm :
      (req : AppendRequest) (n : Node) → Calm n (handle_append_entries env req n).0
  unfolding handle_append_entries
  handle_append_entries-Calm req n =
      if_case Q n.stopped _ _ (λ _. Calm-refl n)
        (λ _.
          if_case Q (ltb req.term n'.current_term) _ _ (λ _. adopted)
            (λ _.
              Calm-trans n n' (check_entries env req (hear_leader env req.leader_id n')).0 adopted (
                Calm-trans n' (hear_leader env req.leader_id n')
                  (check_entries env req (hear_leader env req.leader_id n')).0
                  (hear_leader-Calm req.leader_id n')
                  (check_entries-Calm req (hear_leader env req.leader_id n')))))
    where
      Q : Node × AppendResponse → Type 0
      Q r = Calm n r.0

      n' : Node
      n' = adopt env req.term n

      adopted : Calm n n'
      adopted = adopt-Calm req.term n

  install_snapshot-Calm : (req : SnapshotRequest) (n : Node) → Calm n (install_snapshot env req n)
  unfolding install_snapshot
  install_snapshot-Calm req n = (ground arith, ground arith)

  pub handle_install_snapshot-Calm :
      (req : SnapshotRequest) (n : Node) → Calm n (handle_install_snapshot env req n).0
  unfolding handle_install_snapshot
  handle_install_snapshot-Calm req n =
      if_case Q n.stopped _ _ (λ _. Calm-refl n)
        (λ _.
          if_case Q (ltb req.term n'.current_term) _ _ (λ _. adopted)
            (λ _.
              if_case Q (leb req.last_included_index heard.commit_index) _ _ (λ _. led)
                (λ _.
                  Calm-trans n heard (install_snapshot env req heard) led
                    (install_snapshot-Calm req heard))))
    where
      Q : Node × ℕ → Type 0
      Q r = Calm n r.0

      n' : Node
      n' = adopt env req.term n

      adopted : Calm n n'
      adopted = adopt-Calm req.term n

      heard : Node
      heard = hear_leader env req.leader_id n'

      led : Calm n heard
      led = Calm-trans n n' heard adopted (hear_leader-Calm req.leader_id n')

  pub snapshot-Calm :
      (index : ℕ) (payload : Bytes) (n : Node) → Calm n (snapshot env index payload n).0
  unfolding snapshot
  snapshot-Calm index payload n = (ground arith, ground arith)

  pub commit_prop_batch-Calm :
      (batch : List Bytes) (n : Node) → Calm n (commit_prop_batch env batch n).0
  unfolding commit_prop_batch
  commit_prop_batch-Calm batch n = (ground arith, ground arith)

  advance_loop-Calm : (now k : ℕ) (n : Node) → Calm n (advance_loop now n k)
  unfolding advance_loop
  advance_loop-Calm now zero n = Calm-refl n
  advance_loop-Calm now (suc k) n =
      (ground (arith, advance_loop-Calm now k n), ground (arith, advance_loop-Calm now k n))

  -- What the leader does with an answer that it may use.
  acked-Calm :
      (peer matched : ℕ) (n : Node)
      → Calm n (
          maybe_advance_commit env.now (advance_cursors peer matched (note_contact env.now peer n)))
  unfolding maybe_advance_commit advance_cursors
  acked-Calm peer matched n =
      advance_loop-Calm env.now (last_index n.log - n.commit_index)
        (advance_cursors peer matched (note_contact env.now peer n))

  pub append_response-Calm :
      (peer t : ℕ) (req : AppendRequest) (resp : AppendResponse) (n : Node)
      → Calm n (append_response env peer t req resp n).0
  unfolding append_response
  append_response-Calm peer t req resp n =
      if_case Q n.stopped _ _ (λ _. Calm-refl n)
        (λ _.
          if_case Q (ltb n.current_term resp.term) _ _ (λ _. become_follower-Calm resp.term n)
            (λ _.
              if_case Q (not (leads t n)) _ _ (λ _. Calm-refl n)
                (λ _.
                  if_case Q resp.success _ _
                    (λ _. acked-Calm peer (add64 req.prev_log_index (length req.entries)) n)
                    (λ _. stays n rejected (refl, refl) (refl, refl, refl)))))
    where
      Q : Node × (Bool × Bool) → Type 0
      Q r = Calm n r.0

      rejected : Node
      rejected = record (note_contact env.now peer n) {
        next_index =
            Map.put peer (backed_up n.log (at_or_zero (Map.get peer n.next_index)) resp)
              n.next_index;
      }

  pub snapshot_response-Calm :
      (peer t index resp_term : ℕ) (n : Node)
      → Calm n (snapshot_response env peer t index resp_term n).0
  unfolding snapshot_response advance_cursors
  snapshot_response-Calm peer t index resp_term n =
      if_case Q n.stopped _ _ (λ _. Calm-refl n)
        (λ _.
          if_case Q (ltb n.current_term resp_term) _ _ (λ _. become_follower-Calm resp_term n)
            (λ _.
              if_case Q (not (leads t n)) _ _ (λ _. Calm-refl n)
                (λ _.
                  stays n (advance_cursors peer index (note_contact env.now peer n)) (refl, refl)
                    (refl, refl, refl))))
    where
      Q : Node × (Bool × Bool) → Type 0
      Q r = Calm n r.0

  pub new_node-Calm :
      (n : Node) → Calm n (new_node env n.id n.peers n.tm n.snapshot_retain n.persist)
  unfolding new_node reset_election_timer
  new_node-Calm n = ((refl, refl), inl refl)

  pub check_commit_stall-Calm : (n : Node) → Calm n (check_commit_stall env n)
  unfolding check_commit_stall commit_stall step_down reset_election_timer
  check_commit_stall-Calm n = (ground arith, ground arith)
