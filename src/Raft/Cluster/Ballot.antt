-- ===== src/Raft/Cluster/Ballot.antt =====
-- internal/raft/node.go: how a tick and the answer to a pre-vote may open an election.
use kill_my_cluster.Prelude.{
  ℕ, ◌+◌, ◌≤◌, ◌<◌, ◌≡◌, refl, ap, ◌∙◌, ◌⊎◌, inl, inr, arith, Bool, true, false, not, ◌||◌, ◌==◌,
  leb, ltb, if_case, if◌then◌else◌, leb→le, ==_iff, Option, none, some,
}
use kill_my_cluster.Prelude.Bytes.{u64_mod, add64}
use kill_my_cluster.Raft.Disk.{saved, failed, save_hard_state}
use kill_my_cluster.Raft.Node.{
  Role, follower, candidate, leader, Node, Env, VoteRequest, VoteResponse, become_follower,
  reset_election_timer, step_down, is_follower, is_leader, is_candidate, majority,
}
use kill_my_cluster.Raft.Election.{
  become_leader, start_election, start_pre_vote, pre_vote_response, vote_response, tick,
  check_commit_stall, quorum_active, Polling,
}
use kill_my_cluster.Raft.Votes.Moves.{Outcome-cases}
use kill_my_cluster.Raft.Cluster.Calm.{
  SameMember, SameStanding, Calm, Calm-refl, Calm-trans, stays, become_follower-Calm,
  step_down-Calm, check_commit_stall-Calm,
}

-- No request that binds anybody.
abbrev pub Harmless : Option VoteRequest → Type 0
Harmless none = Unit {0}
Harmless (some req) = req.pre_vote ≡ true

-- The request of the election that `n` opens.
abbrev pub Binds : Node → Option VoteRequest → Type 0
Binds n none = Unit {0}
Binds n (some req) =
    (req.pre_vote ≡ false) × (req.candidate_id ≡ n.id) × (req.term ≡ n.current_term + 1)

pub record Runs (n : Node) (r : Polling) : Type 0 where
  pub member : SameMember n r.0
  pub next_term : r.0.current_term ≡ n.current_term + 1
  pub stands : is_follower r.0.role ≡ false
  pub own_vote : r.0.votes ≡ 1
  pub alone : is_leader r.0.role ≡ true → majority r.0 ≤ 1
  pub request : Binds n r.1

abbrev pub Opens : Node → Polling → Type 0
Opens n r = (Calm n r.0 × Harmless r.1) ⊎ Runs n r

module _ (env : Env) (n : Node) (room : n.current_term + 1 < u64_mod) where
  election_failed : (k : ℕ) → env.vote_saved ≡ failed k → Opens n (start_election env n)
  unfolding start_election reset_election_timer save_hard_state
  election_failed k bad = rw (bad, save_hard_state) (inl (((refl, refl), inl refl), tt))

  election_saved : env.vote_saved ≡ saved → Opens n (start_election env n)
  unfolding start_election reset_election_timer save_hard_state
  election_saved ok =
      rw (ok, save_hard_state)
        (inr (
          if_case (Runs n) (leb (majority n) 1) _ _
            (λ few. record {
              member = (refl, refl);
              next_term = next;
              stands = refl;
              own_vote = refl;
              alone = λ _. leb→le (majority n) 1 few;
              request = tt;
            })
            (λ _. record {
              member = (refl, refl);
              next_term = next;
              stands = refl;
              own_vote = refl;
              alone = λ leads. cc;
              request = (refl, refl, next);
            })))
    where
      next : add64 n.current_term 1 ≡ n.current_term + 1
      next = omega arith

  start_election-Opens : Opens n (start_election env n)
  start_election-Opens = elim (Outcome-cases env.vote_saved) [
    | inl ok ↦ election_saved ok
    | inr (k, bad) ↦ election_failed k bad
  ]

same-Binds :
    (n p : Node) (o : Option VoteRequest)
    → p.id ≡ n.id
    → p.current_term ≡ n.current_term
    → Binds p o
    → Binds n o
same-Binds n p none i t b = tt
same-Binds n p (some req) i t b = (b.0, b.1 ∙ i, b.2 ∙ ap (λ x. x + 1) t)

-- The same for a node that differs in nothing that counts.
same-Opens : (n p : Node) (r : Polling) → SameMember n p → SameStanding n p → Opens p r → Opens n r
same-Opens n p r a b (inl (calm, harmless)) =
    inl (Calm-trans n p r.0 (stays n p a b) calm, harmless)
same-Opens n p r a b (inr runs) = inr (record {
  member = (runs.member.0 ∙ a.0, runs.member.1 ∙ a.1);
  next_term = runs.next_term ∙ ap (λ x. x + 1) b.1;
  stands = runs.stands;
  own_vote = runs.own_vote;
  alone = runs.alone;
  request = same-Binds n p r.1 a.0 b.1 runs.request;
})

module _ (env : Env) (n : Node) (room : n.current_term + 1 < u64_mod) where
  start_pre_vote-Opens : Opens n (start_pre_vote env n)
  unfolding start_pre_vote reset_election_timer
  start_pre_vote-Opens =
      if_case (Opens n) (leb (majority n) 1) _ _
        (λ _.
          same-Opens n polling (start_election env polling) (refl, refl) (refl, refl, refl)
            (start_election-Opens env polling room))
        (λ _. inl (stays n polling (refl, refl) (refl, refl, refl), refl))
    where
      polling : Node
      polling =
          record (reset_election_timer env
            (record n { election_attempts = n.election_attempts + 1 })) {
              pre_vote_round = add64 n.pre_vote_round 1;
              pre_votes = 1;
            }

  pub pre_vote_response-Opens :
      (t round : ℕ) (resp : VoteResponse) → Opens n (pre_vote_response env t round resp n)
  unfolding pre_vote_response
  pre_vote_response-Opens t round resp =
      if_case (Opens n) n.stopped (n, none) in_office (λ _. inl (Calm-refl n, tt))
        (λ _.
          if_case (Opens n) (ltb n.current_term resp.term) (become_follower env resp.term n, none)
            current (λ _. inl (become_follower-Calm env resp.term n, tt))
            (λ _.
              if_case (Opens n) unfit (n, none) fitting (λ _. inl (Calm-refl n, tt))
                (λ _.
                  if_case (Opens n) (counted.pre_votes == majority n) (start_election env counted)
                    (counted, none)
                    (λ _.
                      same-Opens n counted (start_election env counted) (refl, refl)
                        (refl, refl, refl) (start_election-Opens env counted room))
                    (λ _. inl (stays n counted (refl, refl) (refl, refl, refl), tt)))))
    where
      counted : Node
      counted = record n { pre_votes = n.pre_votes + 1 }

      unfit : Bool
      unfit =
          not (is_follower n.role)
          || (not (n.current_term == t)
              || (not (n.pre_vote_round == round) || not resp.vote_granted))

      fitting : Polling
      fitting =
          if counted.pre_votes == majority n then start_election env counted else (counted, none)

      current : Polling
      current = if unfit then (n, none) else fitting

      in_office : Polling
      in_office =
          if ltb n.current_term resp.term then (become_follower env resp.term n, none) else current

  pub tick-Opens : Opens n (tick env n)
  unfolding tick
  tick-Opens =
      if_case (Opens n) n.stopped (n, none) running (λ _. inl (Calm-refl n, tt))
        (λ _.
          if_case (Opens n) (is_leader n.role) leading waiting
            (λ _.
              if_case (Opens n) due looked (check_commit_stall env n, none)
                (λ _.
                  if_case (Opens n) (quorum_active env.now checked)
                    (check_commit_stall env checked, none) (step_down env checked, none)
                    (λ _. inl (
                      Calm-trans n checked (check_commit_stall env checked) same
                          (check_commit_stall-Calm env checked),
                      tt,
                    ))
                    (λ _. inl (
                      Calm-trans n checked (step_down env checked) same
                          (step_down-Calm env checked),
                      tt,
                    )))
                (λ _. inl (check_commit_stall-Calm env n, tt)))
            (λ _.
              if_case (Opens n) early (n, none) (start_pre_vote env n) (λ _. inl (Calm-refl n, tt))
                (λ _. start_pre_vote-Opens)))
    where
      due : Bool
      due = not (ltb env.now (n.last_quorum_check + n.tm.election_timeout_max))

      early : Bool
      early = ltb env.now (n.election_reset + n.election_timeout)

      checked : Node
      checked = record n { last_quorum_check = env.now }

      same : Calm n checked
      same = stays n checked (refl, refl) (refl, refl, refl)

      looked : Polling
      looked =
          if quorum_active env.now checked
          then (check_commit_stall env checked, none)
          else (step_down env checked, none)

      leading : Polling
      leading = if due then looked else (check_commit_stall env n, none)

      waiting : Polling
      waiting = if early then (n, none) else start_pre_vote env n

      running : Polling
      running = if is_leader n.role then leading else waiting

-- An answer to a vote request: nothing, or one vote more, which may be the one that wins.
pub record Tallied (n m : Node) (t : ℕ) (resp : VoteResponse) : Type 0 where
  pub member : SameMember n m
  pub stood : is_follower n.role ≡ false
  pub asked_term : n.current_term ≡ t
  pub same_term : m.current_term ≡ n.current_term
  pub granted : resp.vote_granted ≡ true
  pub one_more : m.votes ≡ n.votes + 1
  pub wins : is_leader m.role ≡ true → majority n ≤ n.votes + 1

pub vote_response-Tallied :
    (env : Env) (t : ℕ) (resp : VoteResponse) (n : Node)
    → Calm n (vote_response env t resp n) ⊎ Tallied n (vote_response env t resp n) t resp
unfolding vote_response become_leader
vote_response-Tallied env t resp n =
    if_case Q n.stopped _ _ (λ _. inl (Calm-refl n))
      (λ _.
        if_case Q (ltb n.current_term resp.term) _ _
          (λ _. inl (become_follower-Calm env resp.term n))
          (λ _.
            if_case Q unfit _ _ (λ _. inl (Calm-refl n))
              (λ fit.
                if_case Q (counted.votes == majority n) _ _
                  (λ enough. inr (
                    tallied (become_leader env counted) fit (refl, refl) refl refl
                      (λ _. omega (arith, (==_iff (n.votes + 1) (majority n)).0 enough))))
                  (λ _. inr (
                    tallied counted fit (refl, refl) refl refl
                      (λ leads. absurd (no_leader fit leads)))))))
  where
    Q : Node → Type 0
    Q m = Calm n m ⊎ Tallied n m t resp

    counted : Node
    counted = record n { votes = n.votes + 1 }

    unfit : Bool
    unfit = not (is_candidate n.role) || (not (n.current_term == t) || not resp.vote_granted)

    fit_role :
        (r : Role)
        → (not (is_candidate r) || (not (n.current_term == t) || not resp.vote_granted)) ≡ false
        → (is_follower r ≡ false) × (is_leader r ≡ false)
    fit_role follower h = cc
    fit_role candidate h = (refl, refl)
    fit_role leader h = cc

    no_leader : unfit ≡ false → is_leader n.role ≡ true → ⊥
    no_leader fit leads = cc (leads, (fit_role n.role fit).1)

    tallied :
        (m : Node)
        → unfit ≡ false
        → SameMember n m
        → m.current_term ≡ n.current_term
        → m.votes ≡ n.votes + 1
        → (is_leader m.role ≡ true → majority n ≤ n.votes + 1)
        → Tallied n m t resp
    tallied m fit a b c d = record {
      member = a;
      stood = (fit_role n.role fit).0;
      asked_term = ground arith;
      same_term = b;
      granted = ground arith;
      one_more = c;
      wins = d;
    }
