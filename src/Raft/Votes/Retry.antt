-- ===== src/Raft/Votes/Retry.antt =====
-- HandleRequestVote (internal/raft/node.go) when a vote is asked for again and the disk fails.
use kill_my_cluster.Prelude.{ℕ, ◌≡◌, refl, arith, true, false}
use kill_my_cluster.Raft.Disk.{saved, failed, save_hard_state, no_vote}
use kill_my_cluster.Raft.Node.{Node, Env, VoteRequest, reset_election_timer}
use kill_my_cluster.Raft.Handlers.{handle_request_vote, grant_vote, up_to_date}

-- A binding request of the node's own term, from a candidate whose log is new enough.
pub record Eligible (req : VoteRequest) (n : Node) : Type 0 where
  pub binding : req.pre_vote ≡ false
  pub same_term : req.term ≡ n.current_term
  pub restriction : up_to_date req n.log ≡ true

module _ (n : Node) (req other : VoteRequest) (up : n.stopped ≡ false) (e : Eligible req n)
    (f : Eligible other n) where
  refused :
      (env : Env) (k : ℕ)
      → n.voted_for ≡ req.candidate_id
      → env.vote_saved ≡ failed k
      → (handle_request_vote env req n).0 ≡ record n {
        voted_for = no_vote;
        persist = (save_hard_state (failed k) n.current_term req.candidate_id n.persist).0;
      }
  unfolding handle_request_vote grant_vote save_hard_state
  refused env k voted bad = ground (arith, e.binding, e.same_term, e.restriction)

  granted_again :
      (m : Node) (env : Env)
      → m.stopped ≡ false
      → Eligible other m
      → m.voted_for ≡ no_vote
      → env.vote_saved ≡ saved
      → (handle_request_vote env other m).1 ≡ record { term = m.current_term; vote_granted = true }
  unfolding handle_request_vote grant_vote save_hard_state reset_election_timer
  granted_again m env up e free good = ground (arith, e.binding, e.same_term, e.restriction)

  -- Where a node has voted for a candidate, that candidate asks again in the same term, and saving
  -- the vote fails, the node grants its vote in the same term to any other candidate whose log is
  -- new enough and whose request it can save.
  pub second_vote :
      (env env' : Env) (k : ℕ)
      → n.voted_for ≡ req.candidate_id
      → env.vote_saved ≡ failed k
      → env'.vote_saved ≡ saved
      → (handle_request_vote env' other (handle_request_vote env req n).0).1
        ≡ record { term = n.current_term; vote_granted = true }
  second_vote env env' k voted bad good = rw (refused env k voted bad) (
      granted_again
        (record n {
          voted_for = no_vote;
          persist = (save_hard_state (failed k) n.current_term req.candidate_id n.persist).0;
        })
        env' up
        (record { binding = f.binding; same_term = f.same_term; restriction = f.restriction }) refl
        good)
