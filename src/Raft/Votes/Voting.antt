-- ===== src/Raft/Votes/Voting.antt =====
-- internal/raft/node.go: the record of votes across HandleRequestVote.
use kill_my_cluster.Prelude.{
  ℕ, zero, suc, ◌<◌, ◌≡◌, ap, ◌∙◌, sym, ◌⊎◌, inl, inr, arith, Bool, true, false, not, ◌&&◌, ◌||◌,
  List, [], ◌∷◌, ◌++◌, Bool-cases, ltb, ◌==◌,
}
use mathlib.Core.Path.{subst₂}
use kill_my_cluster.Raft.Disk.{saved, failed, no_vote, save_hard_state}
use kill_my_cluster.Raft.Disk.Hard.{HardState, hard_of, hard_of-save, hard_of-save_failed}
use kill_my_cluster.Raft.Node.{
  Node, Env, VoteRequest, VoteResponse, heard_leader_recently, become_follower,
  reset_election_timer,
}
use kill_my_cluster.Raft.Handlers.{adopt, grant_vote, handle_request_vote, up_to_date}
use kill_my_cluster.Raft.Votes.{Grant, granted}
use kill_my_cluster.Raft.Votes.Invariant.{
  in_memory, on_disk, Honest, Honest-flushed, Honest-revote, Honest-grant, Honest-unsure,
}
use kill_my_cluster.Raft.Votes.Moves.{IsHonest, adopt-IsHonest, Outcome-cases}

untold :
    (req : VoteRequest) (n : Node) (t : ℕ)
    → granted req (n, record { term = t; vote_granted = false }) ≡ []
untold req n t = ground arith

untold_pre_vote :
    (req : VoteRequest) (r : Node × VoteResponse) → req.pre_vote ≡ true → granted req r ≡ []
untold_pre_vote req r h = ground arith

abbrev may_vote : VoteRequest → Node → Bool
may_vote req n =
    not (not (n.voted_for == no_vote) && not (n.voted_for == req.candidate_id))
    && up_to_date req n.log

abbrev voted : VoteRequest → Node → HardState
voted req n = record { term = n.current_term; voted_for = req.candidate_id }

module _ (env : Env) (req : VoteRequest) (n : Node) where
  no_change :
      may_vote req n ≡ false
      → grant_vote env req n ≡ (n, record { term = n.current_term; vote_granted = false })
  unfolding grant_vote
  no_change h = ground arith

  module _ (may : may_vote req n ≡ true) where
    free : (n.voted_for ≡ no_vote) ⊎ (n.voted_for ≡ req.candidate_id)
    free = elim (Bool-cases (n.voted_for == no_vote)) [
      | inl e ↦ inl (ground arith)
      | inr e ↦ inr (ground arith)
    ]

    written :
        (grant_vote env req n).0.persist
        ≡ (save_hard_state env.vote_saved n.current_term req.candidate_id n.persist).0
    unfolding grant_vote reset_election_timer
    written = ground arith

    saved_memory : env.vote_saved ≡ saved → in_memory (grant_vote env req n).0 ≡ voted req n
    unfolding grant_vote reset_election_timer save_hard_state
    saved_memory ok = ground arith

    saved_disk : env.vote_saved ≡ saved → on_disk (grant_vote env req n).0 ≡ voted req n
    saved_disk ok =
        ap hard_of written
        ∙ (ap (λ o. hard_of (save_hard_state o n.current_term req.candidate_id n.persist).0) ok
            ∙ hard_of-save n.current_term req.candidate_id n.persist)

    failed_memory :
        (k : ℕ)
        → env.vote_saved ≡ failed k
        → n.voted_for ≡ no_vote
        → in_memory (grant_vote env req n).0 ≡ in_memory n
    unfolding grant_vote save_hard_state
    failed_memory k bad none_yet = ground arith

    failed_disk :
        (k : ℕ)
        → env.vote_saved ≡ failed k
        → on_disk (grant_vote env req n).0
          ≡ hard_of (save_hard_state (failed k) n.current_term req.candidate_id n.persist).0
    failed_disk k bad =
        ap hard_of written
        ∙ ap (λ o. hard_of (save_hard_state o n.current_term req.candidate_id n.persist).0) bad

    failed_granted : (k : ℕ) → env.vote_saved ≡ failed k → granted req (grant_vote env req n) ≡ []
    unfolding grant_vote save_hard_state
    failed_granted k bad = ground arith

    saved_granted :
        env.vote_saved ≡ saved
        → req.pre_vote ≡ false
        → granted req (grant_vote env req n)
          ≡ record { term = n.current_term; candidate = req.candidate_id } ∷ []
    unfolding grant_vote save_hard_state
    saved_granted ok real = ground arith

    voted-Honest : (gs : List Grant) → IsHonest gs n → Honest gs (voted req n) (on_disk n)
    voted-Honest gs h = Honest-revote gs (in_memory n) (on_disk n) req.candidate_id free h

    saved-IsHonest :
        (gs : List Grant)
        → 0 < req.candidate_id
        → req.pre_vote ≡ false
        → env.vote_saved ≡ saved
        → IsHonest gs n
        → IsHonest (granted req (grant_vote env req n) ++ gs) (grant_vote env req n).0
    saved-IsHonest gs pos real ok h = rw (saved_granted ok real) (
        subst₂ (Honest (record { term = n.current_term; candidate = req.candidate_id } ∷ gs))
          (sym (saved_memory ok)) (sym (saved_disk ok))
          (Honest-grant gs (voted req n) pos
            (Honest-flushed gs (voted req n) (on_disk n) (voted-Honest gs h))))

    failed-IsHonest :
        (gs : List Grant) (k : ℕ)
        → n.voted_for ≡ no_vote
        → env.vote_saved ≡ failed k
        → IsHonest gs n
        → IsHonest (granted req (grant_vote env req n) ++ gs) (grant_vote env req n).0
    failed-IsHonest gs k none_yet bad h = rw (failed_granted k bad) (
        subst₂ (Honest gs) (sym (failed_memory k bad none_yet)) (sym (failed_disk k bad))
          (unsure k))
      where
        unsure :
            (j : ℕ)
            → Honest gs
                (in_memory n)
                (hard_of (save_hard_state (failed j) n.current_term req.candidate_id n.persist).0)
        unsure zero = rw (hard_of-save_failed 0 n.current_term req.candidate_id n.persist) h
        unsure (suc j) =
            rw (hard_of-save_failed (suc j) n.current_term req.candidate_id n.persist)
              (Honest-unsure gs (in_memory n) (on_disk n) req.candidate_id none_yet h)

-- A real vote request, behind the checks of the term.
grant_vote-IsHonest :
    (env : Env) (req : VoteRequest) (n : Node) (gs : List Grant)
    → 0 < req.candidate_id
    → req.pre_vote ≡ false
    → (n.voted_for ≡ no_vote) ⊎ (env.vote_saved ≡ saved)
    → IsHonest gs n
    → IsHonest (granted req (grant_vote env req n) ++ gs) (grant_vote env req n).0
grant_vote-IsHonest env req n gs pos real safe h = elim (Bool-cases (may_vote req n)) [
  | inr refused ↦ rw (no_change env req n refused) (unvoted h)
  | inl may ↦ elim (Outcome-cases env.vote_saved) [
    | inl ok ↦ saved-IsHonest env req n may gs pos real ok h
    | inr (k, bad) ↦ failed-IsHonest env req n may gs k (none_yet safe k bad) bad h
  ]
]
  where
    none_yet :
        (n.voted_for ≡ no_vote) ⊎ (env.vote_saved ≡ saved)
        → (k : ℕ) → env.vote_saved ≡ failed k
        → n.voted_for ≡ no_vote
    none_yet (inl e) k bad = e
    none_yet (inr ok) k bad = absurd (cc)

    unvoted :
        IsHonest gs n
        → IsHonest (granted req (n, record { term = n.current_term; vote_granted = false }) ++ gs) n
    unvoted h = rw (untold req n n.current_term) h

abbrev quiet : VoteRequest → Env → Node → Bool
quiet req env n =
    n.stopped || (req.pre_vote || (ltb n.current_term req.term && heard_leader_recently env n))

module _ (env : Env) (req : VoteRequest) (n : Node) where
  adopt_unvoted : n.voted_for ≡ no_vote → (adopt env req.term n).voted_for ≡ no_vote
  unfolding become_follower reset_election_timer
  adopt_unvoted e = ground arith

  module _ (q : quiet req env n ≡ true) where
    silent_node : (handle_request_vote env req n).0 ≡ n
    unfolding handle_request_vote
    silent_node = ground arith

    silent_grants : granted req (handle_request_vote env req n) ≡ []
    unfolding handle_request_vote
    silent_grants = ground arith

-- A vote request, pre-votes and stale ones included.
pub handle_request_vote-IsHonest :
    (env : Env) (req : VoteRequest) (n : Node) (gs : List Grant)
    → 0 < req.candidate_id
    → (n.voted_for ≡ no_vote) ⊎ (env.vote_saved ≡ saved)
    → IsHonest gs n
    → IsHonest (granted req (handle_request_vote env req n) ++ gs) (handle_request_vote env req n).0
handle_request_vote-IsHonest env req n gs pos safe h = elim (Bool-cases (quiet req env n)) [
  | inl q ↦ silent q
  | inr q ↦ elim (Bool-cases (ltb req.term (adopt env req.term n).current_term)) [
    | inl old ↦
        rw (stale q old, untold req (adopt env req.term n) (adopt env req.term n).current_term)
          adopted
    | inr current ↦
        rw (asked q current)
          (grant_vote-IsHonest env req (adopt env req.term n) gs pos (real q) still_safe adopted)
  ]
]
  where
    adopted : IsHonest gs (adopt env req.term n)
    adopted = adopt-IsHonest gs env req.term n h

    real : quiet req env n ≡ false → req.pre_vote ≡ false
    real q = ground arith

    still_safe : ((adopt env req.term n).voted_for ≡ no_vote) ⊎ (env.vote_saved ≡ saved)
    still_safe = elim safe [ inl e ↦ inl (adopt_unvoted env req n e) | inr ok ↦ inr ok ]

    stale :
        quiet req env n ≡ false
        → ltb req.term (adopt env req.term n).current_term ≡ true
        → handle_request_vote env req n ≡ (
          adopt env req.term n,
          record { term = (adopt env req.term n).current_term; vote_granted = false },
        )
    stale q old = unfold handle_request_vote in ground arith

    asked :
        quiet req env n ≡ false
        → ltb req.term (adopt env req.term n).current_term ≡ false
        → handle_request_vote env req n ≡ grant_vote env req (adopt env req.term n)
    asked q current = unfold handle_request_vote in ground arith

    silent :
        quiet req env n ≡ true
        → IsHonest
            (granted req (handle_request_vote env req n) ++ gs)
            (handle_request_vote env req n).0
    silent q = rw (silent_grants env req n q, silent_node env req n q) h
