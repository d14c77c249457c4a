-- ===== src/Raft/Cluster/Steps.antt =====
-- Each kind of step of the cluster, and what its nodes, votes and calls know of each other.
use kill_my_cluster.Prelude.{
  has, others, ℕ, ◌+◌, ◌≤◌, ◌<◌, ◌≡◌, refl, ap, ◌∙◌, sym, subst, ◌⊎◌, inl, inr, arith, true, false,
  ◌&&◌, List, [], ◌++◌, if_case, ltb,
}
use kill_my_cluster.Raft.Node.{
  Node, Env, VoteRequest, VoteResponse, become_follower, reset_election_timer,
  heard_leader_recently,
}
use kill_my_cluster.Raft.Disk.{saved, no_vote}
use kill_my_cluster.Raft.Handlers.{handle_request_vote, adopt, grant_vote}
use kill_my_cluster.Raft.Election.{Polling, vote_response, tick, pre_vote_response}
use kill_my_cluster.Raft.Votes
use kill_my_cluster.Raft.Votes.{
  Grant, granted, stood, votes, ticks, hears_pre_vote, appends, installs, compacts, proposes,
  hears_snapshot, sends, hears_append, hears_vote, restarts,
}
use kill_my_cluster.Raft.Votes.Moves.{IsHonest}
use kill_my_cluster.Raft.Votes.Once.{Step-IsHonest}
use kill_my_cluster.Raft.Cluster.{
  Call, asked, replied, heard, World, set, set_call, poll, Plain, elects, Step, acts, wakes,
  hears_poll, answers, hears,
}
use kill_my_cluster.Raft.Cluster.Calm.{
  Calm, Calm-refl, handle_request_vote-Calm, handle_append_entries-Calm,
  handle_install_snapshot-Calm, snapshot-Calm, commit_prop_batch-Calm, replicate_send-Calm,
  append_response-Calm, snapshot_response-Calm, new_node-Calm,
}
use kill_my_cluster.Raft.Cluster.Ballot.{
  Opens, Tallied, pre_vote_response-Opens, tick-Opens, vote_response-Tallied,
}
use kill_my_cluster.Raft.Cluster.Invariant.{
  gave, is_idle, granted_in, yes, NodeInv, CallsInv, Inv, at_set,
}
use kill_my_cluster.Raft.Cluster.Moves.{Grows, NodeInv-Calm, NodeInv-Runs, NodeInv-Tallied}
use kill_my_cluster.Raft.Cluster.Calls.{
  told_more, CallsInv-told, CallsInv-set_call, set_call-Grows, poll-Harmless, poll-Grows,
  poll-CallsInv,
}

Plain-Calm : (n : Node) (gs : List Grant) (m : Node) (s : Votes.Step n gs m) → Plain s → Calm n m
Plain-Calm n _ _ (votes env req real safe) p = handle_request_vote-Calm env req n
Plain-Calm n _ _ (appends env req) p = handle_append_entries-Calm env req n
Plain-Calm n _ _ (installs env req) p = handle_install_snapshot-Calm env req n
Plain-Calm n _ _ (compacts env index payload) p = snapshot-Calm env index payload n
Plain-Calm n _ _ (proposes env batch) p = commit_prop_batch-Calm env batch n
Plain-Calm n _ _ (hears_snapshot env peer t index resp_term) p =
    snapshot_response-Calm env peer t index resp_term n
Plain-Calm n _ _ (sends peer t) p = replicate_send-Calm peer t n
Plain-Calm n _ _ (hears_append env peer t req resp) p = append_response-Calm env peer t req resp n
Plain-Calm n _ _ (restarts env) p = new_node-Calm env n
Plain-Calm n _ _ (ticks env real room) p = absurd p
Plain-Calm n _ _ (hears_pre_vote env t round resp real room) p = absurd p
Plain-Calm n _ _ (hears_vote env t resp) p = absurd p

-- A vote that is granted is of the term that was asked for.
granted_term :
    (env : Env) (req : VoteRequest) (n : Node)
    → req.pre_vote ≡ false
    → (handle_request_vote env req n).1.vote_granted ≡ true
    → (handle_request_vote env req n).1.term ≡ req.term
unfolding handle_request_vote
granted_term env req n real =
    if_case Q n.stopped _ _ (λ _ e. cc)
      (λ _.
        if_case Q req.pre_vote _ _ (λ pre. cc)
          (λ _.
            if_case Q (ltb n.current_term req.term && heard_leader_recently env n) _ _ (λ _ e. cc)
              (λ _.
                if_case Q (ltb req.term n'.current_term) _ _ (λ _ e. cc)
                  (λ not_past _. omega (arith, adopted, le_of not_past, grant_term n')))))
  where
    Q : Node × VoteResponse → Type 0
    Q r = r.1.vote_granted ≡ true → r.1.term ≡ req.term

    n' : Node
    n' = adopt env req.term n

    adopted : req.term ≤ n'.current_term
    adopted = unfold become_follower reset_election_timer in ground arith

    le_of : ltb req.term n'.current_term ≡ false → n'.current_term ≤ req.term
    le_of e = ground arith

    grant_term : (k : Node) → (grant_vote env req k).1.term ≡ k.current_term
    grant_term k = unfold grant_vote reset_election_timer in ground arith

set_same : {A : Type 0} (i : ℕ) (a : A) (f : ℕ → A) → set i a f i ≡ a
set_same i a f = ground arith

set_call_same : (c t v : ℕ) (s : Call) (calls : ℕ → ℕ → ℕ → Call) → set_call c t v s calls c t v ≡ s
set_call_same c t v s calls = ground arith

module _ (members : List ℕ) (w : World) (inv : Inv members w) where
  -- A step of one node that grants what it grants, beside calls that lose no answer.
  moved :
      (i : ℕ) (m : Node) (hs : List Grant) (calls' : ℕ → ℕ → ℕ → Call)
      → ((j : ℕ) → Grows (w.calls j) (calls' j))
      → NodeInv members (calls' i) i m (hs ++ w.told i)
      → CallsInv members calls' (set i (hs ++ w.told i) w.told)
      → Inv members
          (record { nodes = set i m w.nodes; told = set i (hs ++ w.told i) w.told; calls = calls' })
  moved i m hs calls' grows here calls_inv = (
    at_set (λ j n gs. NodeInv members (calls' j) j n gs) i m (hs ++ w.told i) w.nodes w.told here
        (λ j.
          NodeInv-Calm members (w.calls j) (calls' j) (grows j) j (w.nodes j) (w.nodes j) (w.told j)
            [] (NodeInv.honest (inv.0 j)) (Calm-refl (w.nodes j)) (inv.0 j)),
    calls_inv,
  )

  pub acts-Inv :
      (i : ℕ) (gs : List Grant) (m : Node) (s : Votes.Step (w.nodes i) gs m)
      → Plain s
      → Inv members (record w { nodes = set i m w.nodes; told = set i (gs ++ w.told i) w.told })
  acts-Inv i gs m s plain =
      moved i m gs w.calls (λ j t v e. e)
        (NodeInv-Calm members (w.calls i) (w.calls i) (λ t v e. e) i (w.nodes i) m (w.told i) gs
          (Step-IsHonest (w.told i) (w.nodes i) gs m s (NodeInv.honest (inv.0 i)))
          (Plain-Calm (w.nodes i) gs m s plain) (inv.0 i))
        (CallsInv-told members w.calls w.told (set i (gs ++ w.told i) w.told)
          (told_more i gs w.told) inv.1)

  pub elects-Inv :
      (i : ℕ) (r : Polling)
      → IsHonest (stood (w.nodes i) r.0 ++ w.told i) r.0
      → Opens (w.nodes i) r
      → Inv members (elects w i r)
  elects-Inv i r honest (inl (calm, harmless)) =
      subst
        (λ cs. Inv members (record {
          nodes = set i r.0 w.nodes;
          told = set i (stood (w.nodes i) r.0 ++ w.told i) w.told;
          calls = cs;
        }))
        (sym (poll-Harmless r.0 r.1 w.calls harmless))
        (moved i r.0 (stood (w.nodes i) r.0) w.calls (λ j t v e. e)
          (NodeInv-Calm members (w.calls i) (w.calls i) (λ t v e. e) i (w.nodes i) r.0 (w.told i)
            (stood (w.nodes i) r.0) honest calm (inv.0 i))
          (CallsInv-told members w.calls w.told (set i (stood (w.nodes i) r.0 ++ w.told i) w.told)
            (told_more i (stood (w.nodes i) r.0) w.told) inv.1))
  elects-Inv i r honest (inr runs) =
      moved i r.0 (stood (w.nodes i) r.0) (poll r w.calls) grows here (
        poll-CallsInv members (w.nodes i) r.0 r.1 i w.calls w.told
          (set i (stood (w.nodes i) r.0 ++ w.told i) w.told) inv.1 (inv.0 i) runs.request here.known
          own (told_more i (stood (w.nodes i) r.0) w.told))
    where
      grows : (j : ℕ) → Grows (w.calls j) (poll r w.calls j)
      grows =
          poll-Grows members (w.nodes i) r.0 r.1 i w.calls w.told w.told inv.1 (inv.0 i)
            runs.request

      here : NodeInv members (poll r w.calls i) i r.0 (stood (w.nodes i) r.0 ++ w.told i)
      here =
          NodeInv-Runs members (w.calls i) (poll r w.calls i) (grows i) i (w.nodes i) r.0 (w.told i)
            (stood (w.nodes i) r.0) r refl refl honest runs (inv.0 i)

      own :
          gave ((w.nodes i).current_term + 1) i (set i (stood (w.nodes i) r.0 ++ w.told i) w.told i)
          ≡ true
      own = rw (set_same i (stood (w.nodes i) r.0 ++ w.told i) w.told) (
          subst (λ x. gave x i (stood (w.nodes i) r.0 ++ w.told i) ≡ true) runs.next_term
            (here.own_vote runs.stands))

  pub answers-Inv :
      (c t v : ℕ) (env : Env) (req : VoteRequest)
      → w.calls c t v ≡ asked
      → req.candidate_id ≡ c
      → req.term ≡ t
      → req.pre_vote ≡ false
      → 0 < req.candidate_id
      → ((w.nodes v).voted_for ≡ no_vote) ⊎ (env.vote_saved ≡ saved)
      → Inv members (record {
        nodes = set v (handle_request_vote env req (w.nodes v)).0 w.nodes;
        told = set v (granted req (handle_request_vote env req (w.nodes v)) ++ w.told v) w.told;
        calls = set_call c t v (replied (handle_request_vote env req (w.nodes v)).1) w.calls;
      })
  answers-Inv c t v env req open_call candidate term real pos safe =
      moved v after.0 new_votes (set_call c t v (replied after.1) w.calls) grows
        (NodeInv-Calm members (w.calls v) (set_call c t v (replied after.1) w.calls v) (grows v) v
          (w.nodes v) after.0 (w.told v) new_votes
          (Step-IsHonest (w.told v) (w.nodes v) new_votes after.0 (votes env req pos safe)
            (NodeInv.honest (inv.0 v)))
          (handle_request_vote-Calm env req (w.nodes v)) (inv.0 v))
        (CallsInv-set_call members c t v (replied after.1) w.calls told'
          (more c t c begun.0, begun.1) give
          (CallsInv-told members w.calls w.told told' more inv.1))
    where
      after : Node × VoteResponse
      after = handle_request_vote env req (w.nodes v)

      new_votes : List Grant
      new_votes = granted req after

      told' : ℕ → List Grant
      told' = set v (new_votes ++ w.told v) w.told

      more : (j u d : ℕ) → gave u d (w.told j) ≡ true → gave u d (told' j) ≡ true
      more = told_more v new_votes w.told

      begun : (gave t c (w.told c) ≡ true) × (has v (others c members) ≡ true)
      begun = CallsInv.opened inv.1 c t v (ap is_idle open_call)

      grows : (j : ℕ) → Grows (w.calls j) (set_call c t v (replied after.1) w.calls j)
      grows = set_call-Grows c t v (replied after.1) w.calls (ap yes open_call)

      new_vote :
          (r : Node × VoteResponse)
          → r.1.vote_granted ≡ true
          → r.1.term ≡ t
          → gave t c (granted req r ++ w.told v) ≡ true
      new_vote r e f = ground (arith, real, candidate)

      give : after.1.vote_granted ≡ true → gave t c (told' v) ≡ true
      give e =
          rw (set_same v (new_votes ++ w.told v) w.told)
            (new_vote after e (granted_term env req (w.nodes v) real e ∙ term))

  pub hears-Inv :
      (c t v : ℕ) (env : Env) (resp : VoteResponse)
      → w.calls c t v ≡ replied resp
      → Inv members (record w {
        nodes = set c (vote_response env t resp (w.nodes c)) w.nodes;
        calls = set_call c t v (heard resp) w.calls;
      })
  hears-Inv c t v env resp was = (
    at_set (λ j n _. NodeInv members (calls' j) j n (w.told j)) c
        (vote_response env t resp (w.nodes c)) [] w.nodes w.told
        (here (vote_response-Tallied env t resp (w.nodes c)))
        (λ j.
          NodeInv-Calm members (w.calls j) (calls' j) (grows j) j (w.nodes j) (w.nodes j) (w.told j)
            [] (NodeInv.honest (inv.0 j)) (Calm-refl (w.nodes j)) (inv.0 j)),
    CallsInv-set_call members c t v (heard resp) w.calls w.told begun
        (λ e. CallsInv.given inv.1 c t v (ap granted_in was ∙ e)) inv.1,
  )
    where
      calls' : ℕ → ℕ → ℕ → Call
      calls' = set_call c t v (heard resp) w.calls

      begun : (gave t c (w.told c) ≡ true) × (has v (others c members) ≡ true)
      begun = CallsInv.opened inv.1 c t v (ap is_idle was)

      grows : (j : ℕ) → Grows (w.calls j) (calls' j)
      grows = set_call-Grows c t v (heard resp) w.calls (ap yes was)

      honest : IsHonest (w.told c) (vote_response env t resp (w.nodes c))
      honest =
          Step-IsHonest (w.told c) (w.nodes c) [] (vote_response env t resp (w.nodes c))
            (hears_vote env t resp) (NodeInv.honest (inv.0 c))

      here :
          Calm (w.nodes c) (vote_response env t resp (w.nodes c))
            ⊎ Tallied (w.nodes c) (vote_response env t resp (w.nodes c)) t resp
          → NodeInv members (calls' c) c (vote_response env t resp (w.nodes c)) (w.told c)
      here (inl calm) =
          NodeInv-Calm members (w.calls c) (calls' c) (grows c) c (w.nodes c)
            (vote_response env t resp (w.nodes c)) (w.told c) [] honest calm (inv.0 c)
      here (inr tallied) =
          NodeInv-Tallied members (w.calls c) (calls' c) (grows c) c (w.nodes c)
            (vote_response env t resp (w.nodes c)) (w.told c) [] t v resp was
            (set_call_same c t v (heard resp) w.calls) begun.1 honest tallied (inv.0 c)

pub Step-Inv : (members : List ℕ) (w x : World) → Inv members w → Step w x → Inv members x
Step-Inv members w _ inv (acts i gs m s plain) = acts-Inv members w inv i gs m s plain
Step-Inv members w _ inv (wakes i env real room) =
    elects-Inv members w inv i (tick env (w.nodes i))
      (Step-IsHonest (w.told i) (w.nodes i) _ _ (ticks env real room) (NodeInv.honest (inv.0 i)))
      (tick-Opens env (w.nodes i) room)
Step-Inv members w _ inv (hears_poll i env t round resp real room) =
    elects-Inv members w inv i (pre_vote_response env t round resp (w.nodes i))
      (Step-IsHonest (w.told i) (w.nodes i) _ _ (hears_pre_vote env t round resp real room)
        (NodeInv.honest (inv.0 i)))
      (pre_vote_response-Opens env (w.nodes i) room t round resp)
Step-Inv members w _ inv (answers c t v env req open_call candidate term real pos safe) =
    answers-Inv members w inv c t v env req open_call candidate term real pos safe
Step-Inv members w _ inv (hears c t v env resp was) = hears-Inv members w inv c t v env resp was
