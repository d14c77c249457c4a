-- ===== src/Raft/Votes/Standing.antt =====
-- internal/raft/node.go: the record of votes across elections, pre-votes and ticks.
use kill_my_cluster.Prelude.{
  ℕ, ◌+◌, ◌<◌, ◌≡◌, refl, ap, ◌∙◌, sym, subst, inl, inr, arith, Bool, not, ◌||◌, leb, if_case, List,
  [], ◌∷◌, ◌++◌, none, ltb, ltb→lt, ◌==◌,
}
use mathlib.Core.Path.{subst₂}
use kill_my_cluster.Prelude.Bytes.{u64_mod, add64}
use kill_my_cluster.Raft.Disk.{saved, failed, save_hard_state}
use kill_my_cluster.Raft.Disk.Hard.{HardState, hard_of, hard_of-save}
use kill_my_cluster.Raft.Node.{
  Node, Env, VoteResponse, become_follower, reset_election_timer, step_down, is_follower, is_leader,
  majority,
}
use kill_my_cluster.Raft.Votes.{Grant, stood}
use kill_my_cluster.Raft.Votes.Invariant.{in_memory, on_disk, Honest, Honest-higher, Honest-grant}
use kill_my_cluster.Raft.Election.{
  start_election, start_pre_vote, pre_vote_response, tick, become_leader, check_commit_stall,
  commit_stall, Polling, quorum_active,
}
use kill_my_cluster.Raft.Votes.Moves.{
  IsHonest, same-IsHonest, saved-Honest, become_follower-IsHonest, Outcome-cases,
}

module _ (env : Env) (n : Node) (room : n.current_term + 1 < u64_mod) where
  abbrev standing : HardState
  standing = record { term = n.current_term + 1; voted_for = n.id }

  abbrev after : Node
  after = (start_election env n).0

  standing_memory : in_memory after ≡ standing
  unfolding start_election become_leader reset_election_timer
  standing_memory = ground arith

  standing_persist :
      after.persist ≡ (save_hard_state env.vote_saved (n.current_term + 1) n.id n.persist).0
  unfolding start_election become_leader reset_election_timer
  standing_persist = ground arith

  standing_saved :
      env.vote_saved ≡ saved
      → stood n after ≡ record { term = n.current_term + 1; candidate = n.id } ∷ []
  unfolding start_election become_leader reset_election_timer save_hard_state
  standing_saved ok = ground arith

  standing_failed : (k : ℕ) → env.vote_saved ≡ failed k → stood n after ≡ []
  unfolding start_election become_leader reset_election_timer save_hard_state
  standing_failed k bad = ground arith

  standing-Honest : (gs : List Grant) → IsHonest gs n → IsHonest gs after
  standing-Honest gs h =
      subst₂ (Honest gs) (sym standing_memory) (sym (ap hard_of standing_persist)) (
        saved-Honest gs env.vote_saved n.persist standing
          (Honest-higher gs (in_memory n) (on_disk n) (n.current_term + 1) n.id (omega arith) h))

  -- A candidate's own vote is on disk before anybody is asked.
  pub start_election-IsHonest :
      (gs : List Grant) → 0 < n.id → IsHonest gs n → IsHonest (stood n after ++ gs) after
  start_election-IsHonest gs pos h = elim (Outcome-cases env.vote_saved) [
    | inr (k, bad) ↦ rw (standing_failed k bad) (standing-Honest gs h)
    | inl ok ↦ rw (standing_saved ok) (
        subst₂ (Honest (record { term = n.current_term + 1; candidate = n.id } ∷ gs))
          (sym standing_memory) (sym (disk_saved ok))
          (Honest-grant gs standing pos
            (subst₂ (Honest gs) standing_memory (disk_saved ok) (standing-Honest gs h))))
  ]
    where
      disk_saved : env.vote_saved ≡ saved → on_disk after ≡ standing
      disk_saved ok =
          ap hard_of standing_persist
          ∙ (ap (λ o. hard_of (save_hard_state o (n.current_term + 1) n.id n.persist).0) ok
              ∙ hard_of-save (n.current_term + 1) n.id n.persist)

-- A step that starts no election: either the hard states stay, or a higher term is adopted.
pub unstood :
    (gs : List Grant) (n m : Node) → stood n m ≡ [] → IsHonest gs m → IsHonest (stood n m ++ gs) m
unstood gs n m e h = rw e h

module _ (env : Env) (n : Node) (pos : 0 < n.id) (room : n.current_term + 1 < u64_mod)
    (gs : List Grant) (h : IsHonest gs n) where
  -- An election that starts from a node with the same terms, votes and disk.
  elected :
      (p : Node)
      → p.current_term ≡ n.current_term
      → p.id ≡ n.id
      → in_memory p ≡ in_memory n
      → on_disk p ≡ on_disk n
      → IsHonest (stood n (start_election env p).0 ++ gs) (start_election env p).0
  elected p t i m d =
      subst (λ x. IsHonest (x ++ gs) (start_election env p).0) (same_base p t)
        (start_election-IsHonest env p (rw t room) gs (rw i pos) (same-IsHonest gs n p m d h))
    where
      same_base :
          (p : Node)
          → p.current_term ≡ n.current_term
          → stood p (start_election env p).0 ≡ stood n (start_election env p).0
      same_base p t = rw t

  unchanged :
      (m : Node)
      → m.current_term ≡ n.current_term
      → in_memory m ≡ in_memory n
      → on_disk m ≡ on_disk n
      → IsHonest (stood n m ++ gs) m
  unchanged m t e d = rw (not_stood m t) (same-IsHonest gs n m e d h)
    where
      not_stood : (m : Node) → m.current_term ≡ n.current_term → stood n m ≡ []
      not_stood m t = ground arith

  stepped_down :
      (t : ℕ)
      → n.current_term < t
      → IsHonest (stood n (become_follower env t n) ++ gs) (become_follower env t n)
  stepped_down t lt = rw (not_stood t) (become_follower-IsHonest gs env t n lt h)
    where
      not_stood : (t : ℕ) → stood n (become_follower env t n) ≡ []
      not_stood t = unfold become_follower reset_election_timer in ground arith

  abbrev Q : Polling → Type 0
  Q r = IsHonest (stood n r.0 ++ gs) r.0

  down :
      (m : Node)
      → m.current_term ≡ n.current_term
      → in_memory m ≡ in_memory n
      → on_disk m ≡ on_disk n
      → Q (step_down env m, none)
  down m t e d =
      unchanged (step_down env m) (kept_term m ∙ t) (kept_memory m ∙ e)
        (ap hard_of (kept_disk m) ∙ d)
    where
      kept_term : (m : Node) → (step_down env m).current_term ≡ m.current_term
      kept_term m = unfold step_down reset_election_timer in refl

      kept_memory : (m : Node) → in_memory (step_down env m) ≡ in_memory m
      kept_memory m = unfold step_down reset_election_timer in refl

      kept_disk : (m : Node) → (step_down env m).persist ≡ m.persist
      kept_disk m = unfold step_down reset_election_timer in refl

  watched :
      (m : Node)
      → m.current_term ≡ n.current_term
      → in_memory m ≡ in_memory n
      → on_disk m ≡ on_disk n
      → Q (check_commit_stall env m, none)
  watched m t e d =
      unchanged (check_commit_stall env m) (kept_term m ∙ t) (kept_memory m ∙ e)
        (ap hard_of (kept_disk m) ∙ d)
    where
      kept_term : (m : Node) → (check_commit_stall env m).current_term ≡ m.current_term
      kept_term m =
          unfold check_commit_stall commit_stall step_down reset_election_timer in ground arith

      kept_memory : (m : Node) → in_memory (check_commit_stall env m) ≡ in_memory m
      kept_memory m =
          unfold check_commit_stall commit_stall step_down reset_election_timer in ground arith

      kept_disk : (m : Node) → (check_commit_stall env m).persist ≡ m.persist
      kept_disk m =
          unfold check_commit_stall commit_stall step_down reset_election_timer in ground arith

  polled : Q (start_pre_vote env n)
  unfolding start_pre_vote reset_election_timer
  polled =
      if_case Q (leb (majority n) 1) _ _ (λ _. elected polling refl refl refl refl)
        (λ _. unchanged polling refl refl refl)
    where
      polling : Node
      polling =
          record (reset_election_timer env
            (record n { election_attempts = n.election_attempts + 1 })) {
              pre_vote_round = add64 n.pre_vote_round 1;
              pre_votes = 1;
            }

  pub pre_vote_response-IsHonest :
      (t round : ℕ) (resp : VoteResponse)
      → IsHonest
          (stood n (pre_vote_response env t round resp n).0 ++ gs)
          (pre_vote_response env t round resp n).0
  unfolding pre_vote_response
  pre_vote_response-IsHonest t round resp =
      if_case Q n.stopped _ _ (λ _. unchanged n refl refl refl)
        (λ _.
          if_case Q (ltb n.current_term resp.term) _ _ (λ e. stepped_down resp.term (ltb→lt _ _ e))
            (λ _.
              if_case Q
                (not (is_follower n.role)
                  || (not (n.current_term == t)
                      || (not (n.pre_vote_round == round) || not resp.vote_granted)))
                _ _ (λ _. unchanged n refl refl refl)
                (λ _.
                  if_case Q (counted.pre_votes == majority n) _ _
                    (λ _. elected counted refl refl refl refl)
                    (λ _. unchanged counted refl refl refl))))
    where
      counted : Node
      counted = record n { pre_votes = n.pre_votes + 1 }

  pub tick-IsHonest : IsHonest (stood n (tick env n).0 ++ gs) (tick env n).0
  unfolding tick
  tick-IsHonest =
      if_case Q n.stopped _ _ (λ _. unchanged n refl refl refl)
        (λ _.
          if_case Q (is_leader n.role) _ _
            (λ _.
              if_case Q due _ _
                (λ _.
                  if_case Q (quorum_active env.now checked) _ _
                    (λ _. watched checked refl refl refl) (λ _. down checked refl refl refl))
                (λ _. watched n refl refl refl))
            (λ _.
              if_case Q (ltb env.now (n.election_reset + n.election_timeout)) _ _
                (λ _. unchanged n refl refl refl) (λ _. polled)))
    where
      due : Bool
      due = not (ltb env.now (n.last_quorum_check + n.tm.election_timeout_max))

      checked : Node
      checked = record n { last_quorum_check = env.now }
