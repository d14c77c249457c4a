-- ===== src/Raft/Reads/Heartbeat.antt =====
-- internal/raft/batch.go and node.go: a heartbeat of a read, the peer that takes it, and the answer.
use kill_my_cluster.Prelude.{
  ℕ, ◌≤◌, ◌≡◌, refl, ap, ◌∙◌, subst, ltb→le, true, false, not, ◌&&◌, ◌||◌, Option, some, leb, ltb,
  ◌==◌, if_case, arith, nat_eq,
}
use kill_my_cluster.Prelude.Map
use kill_my_cluster.Raft.Node.{
  Node, Env, AppendRequest, AppendResponse, is_follower, become_follower, reset_election_timer,
  at_or_zero,
}
use kill_my_cluster.Raft.Log.{last_index, first_index, term}
use kill_my_cluster.Raft.Handlers.{
  handle_append_entries, check_entries, store_entries, accept, advance_commit, adopt, hear_leader,
  walk, Walk,
}
use kill_my_cluster.Raft.Leader.{leads}
use kill_my_cluster.Raft.Reads.{heartbeat, heartbeat_response}

-- What the rest of HandleAppendEntries leaves of what hear_leader has set.
record Settled (n : Node) (r : Node × AppendResponse) : Type 0 where
  role : r.0.role ≡ n.role
  current_term : r.0.current_term ≡ n.current_term
  leader_id : r.0.leader_id ≡ n.leader_id
  answer : r.1.term ≡ n.current_term

module _ (env : Env) (req : AppendRequest) where
  store_entries-Settled : (w : Walk) (n : Node) → Settled n (store_entries env req w n)
  unfolding store_entries accept advance_commit
  store_entries-Settled w n = record {
    role = ground arith;
    current_term = ground arith;
    leader_id = ground arith;
    answer = ground arith;
  }

  check_entries-Settled : (n : Node) → Settled n (check_entries env req n)
  unfolding check_entries
  check_entries-Settled n =
      if_case (Settled n) (ltb (last_index n.log) req.prev_log_index) _ _ (λ _. same _ refl)
        (λ _.
          if_case (Settled n)
            (leb (first_index n.log) req.prev_log_index
              && (not (term n.log req.prev_log_index).1
                  || not ((term n.log req.prev_log_index).0 == req.prev_log_term)))
            _ _ (λ _. same _ refl)
            (λ _. store_entries-Settled (walk env.truncation_saved n.log n.persist req.entries) n))
    where
      same : (a : AppendResponse) → a.term ≡ n.current_term → Settled n (n, a)
      same a e = record { role = refl; current_term = refl; leader_id = refl; answer = e }

-- The peer follows the leader in its term.
pub record Follows (leader : Node) (t : ℕ) (peer : Node) : Type 0 where
  pub same_term : peer.current_term ≡ t
  pub follows : is_follower peer.role ≡ true
  pub knows : peer.leader_id ≡ leader.id

-- A refusal is no success.
handled :
    (env : Env) (req : AppendRequest) (m leader : Node)
    → req.leader_id ≡ leader.id
    → (handle_append_entries env req m).1.success ≡ true
    → Follows leader req.term (handle_append_entries env req m).0
      × ((handle_append_entries env req m).1.term ≡ req.term)
unfolding handle_append_entries
handled env req m leader from =
    if_case Q m.stopped _ _ (λ _ e. cc)
      (λ _.
        if_case Q (ltb req.term m'.current_term) _ _ (λ _ e. cc)
          (λ not_past _. settled not_past (check_entries-Settled env req heard)))
  where
    Q : Node × AppendResponse → Type 0
    Q r = r.1.success ≡ true → Follows leader req.term r.0 × (r.1.term ≡ req.term)

    m' : Node
    m' = adopt env req.term m

    heard : Node
    heard = hear_leader env req.leader_id m'

    adopted : req.term ≤ m'.current_term
    adopted = unfold become_follower reset_election_timer in ground arith

    follows :
        (is_follower heard.role ≡ true)
        × (heard.leader_id ≡ req.leader_id)
        × (heard.current_term ≡ m'.current_term)
    follows = unfold hear_leader reset_election_timer in (refl, refl, refl)

    settled :
        ltb req.term m'.current_term ≡ false
        → Settled heard (check_entries env req heard)
        → Follows leader req.term (check_entries env req heard).0
          × ((check_entries env req heard).1.term ≡ req.term)
    settled not_past s = (
      record {
        same_term = s.current_term ∙ heard_term;
        follows = ap is_follower s.role ∙ follows.0;
        knows = s.leader_id ∙ (follows.1 ∙ from);
      },
      s.answer ∙ heard_term,
    )
      where
        heard_term : heard.current_term ≡ req.term
        heard_term = omega (arith, follows.2, adopted, ltb→le req.term m'.current_term not_past)

asked_for :
    (peer t : ℕ) (n : Node) (req : AppendRequest)
    → heartbeat peer t n ≡ some req
    → (req.term ≡ t) × (req.leader_id ≡ n.id)
unfolding heartbeat
asked_for peer t n req =
    if_case Q (not (leads t n)) _ _ (λ _ e. cc)
      (λ _.
        if_case Q (leb (at_or_zero (Map.get peer n.next_index)) (first_index n.log)) _ _ (λ _ e. cc)
          (λ _ e. (cc, cc)))
  where
    Q : Option AppendRequest → Type 0
    Q o = o ≡ some req → (req.term ≡ t) × (req.leader_id ≡ n.id)

-- The peer whose answer to a read's heartbeat is counted follows the leader, in the leader's term, once
-- it has answered: whatever has become of the leader since it asked.
pub heartbeat-Follows :
    (env later : Env) (peer t : ℕ) (n now m : Node) (req : AppendRequest)
    → heartbeat peer t n ≡ some req
    → (heartbeat_response later peer t (handle_append_entries env req m).1 now).1 ≡ true
    → Follows n t (handle_append_entries env req m).0
unfolding heartbeat_response
heartbeat-Follows env later peer t n now m req sent counted =
    subst (λ x. Follows n x (handle_append_entries env req m).0) (asked_for peer t n req sent).0
      (handled env req m n (asked_for peer t n req sent).1 (ground arith)).0
