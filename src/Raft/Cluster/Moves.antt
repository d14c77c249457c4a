-- ===== src/Raft/Cluster/Moves.antt =====
-- One node of the cluster, and its calls, across each kind of step.
use kill_my_cluster.Prelude.{
  has, others, ℕ, ◌+◌, ◌/◌, ◌≤◌, ◌<◌, ◌≡◌, ap, ◌∙◌, sym, subst, inl, inr, arith, Bool, true, false,
  ◌==◌, ==_iff, List, [], ◌∷◌, ◌++◌, Bool-cases, length,
}
use kill_my_cluster.Raft.Node.{
  Role, follower, candidate, leader, Node, VoteResponse, is_follower, is_leader, majority,
}
use kill_my_cluster.Raft.Election.{Polling}
use kill_my_cluster.Raft.Votes.{Grant, stood}
use kill_my_cluster.Raft.Votes.Moves.{IsHonest}
use kill_my_cluster.Raft.Cluster.{Call, replied, heard}
use kill_my_cluster.Raft.Cluster.Quorum.{count, count-le}
use kill_my_cluster.Raft.Cluster.Calm.{Calm, SameMember}
use kill_my_cluster.Raft.Cluster.Ballot.{Runs, Tallied}
use kill_my_cluster.Raft.Cluster.Invariant.{gave, gave-append, yes, NodeInv}

-- No counted answer is lost.
abbrev pub Grows : (ℕ → ℕ → Call) → (ℕ → ℕ → Call) → Type 0
Grows calls calls' = (t v : ℕ) → yes (calls t v) ≡ true → yes (calls' t v) ≡ true

pub count-one-more :
    (p q : ℕ → Bool) (v : ℕ) (xs : List ℕ)
    → has v xs ≡ true
    → p v ≡ false
    → q v ≡ true
    → ((u : ℕ) → p u ≡ true → q u ≡ true)
    → count p xs + 1 ≤ count q xs
count-one-more p q v [] h before now le = ground arith
count-one-more p q v (x ∷ xs) h before now le = elim (Bool-cases (x == v)) [
  | inl e ↦ here ((==_iff x v).0 e)
  | inr e ↦ ground (arith, count-one-more p q v xs, le x, before, now)
]
  where
    here : x ≡ v → count p (x ∷ xs) + 1 ≤ count q (x ∷ xs)
    here e = rw (e, before, now) (omega (arith, count-le p q xs le))

module _ (members : List ℕ) (calls calls' : ℕ → ℕ → Call) (grows : Grows calls calls') (i : ℕ)
    (n m : Node) (gs hs : List Grant) where
  same_majority : SameMember n m → majority m ≡ majority n
  same_majority a = ap (λ ps. (length ps + 1) / 2 + 1) a.1

  -- A step of a node that stays what it was, or follows.
  pub NodeInv-Calm :
      IsHonest (hs ++ gs) m
      → Calm n m
      → NodeInv members calls i n gs
      → NodeInv members calls' i m (hs ++ gs)
  NodeInv-Calm honest (same, inl follows) h = record {
    honest = honest;
    named = same.0 ∙ h.named;
    known = same.1 ∙ h.known;
    own_vote = λ e. cc;
    tally = λ e. cc;
    elected = λ e. absurd (no_leader m.role follows e);
  }
    where
      no_leader : (r : Role) → is_follower r ≡ true → is_leader r ≡ true → ⊥
      no_leader follower a b = cc
      no_leader candidate a b = cc
      no_leader leader a b = cc
  NodeInv-Calm honest (same, inr stands) h = record {
    honest = honest;
    named = same.0 ∙ h.named;
    known = same.1 ∙ h.known;
    own_vote = λ e. rw stands.1 (gave-append n.current_term i hs gs (h.own_vote (stood_before e)));
    tally = λ e.
        rw (stands.1, stands.2)
          (omega (
            arith,
            h.tally (stood_before e),
            count-le (λ v. yes (calls n.current_term v)) (λ v. yes (calls' n.current_term v))
                (others i members) (grows n.current_term),
          ));
    elected = λ e.
        omega (arith, h.elected (sym (ap is_leader stands.0) ∙ e), same_majority same, stands.2);
  }
    where
      stood_before : is_follower m.role ≡ false → is_follower n.role ≡ false
      stood_before e = sym (ap is_follower stands.0) ∙ e

  -- A node that opens an election has one vote, its own, and has told it.
  pub NodeInv-Runs :
      (r : Polling)
      → m ≡ r.0
      → hs ≡ stood n m
      → IsHonest (hs ++ gs) m
      → Runs n r
      → NodeInv members calls i n gs
      → NodeInv members calls' i m (hs ++ gs)
  NodeInv-Runs r is_r is_stood honest runs h = record {
    honest = honest;
    named = named;
    known = ap Node.peers is_r ∙ runs.member.1 ∙ h.known;
    own_vote = λ _. rw (is_stood) (told stands later named);
    tally = λ _. rw (one_vote) (omega arith);
    elected = λ e.
        omega (
          arith,
          runs.alone (ap (λ k. is_leader k.role) (sym is_r) ∙ e),
          one_vote,
          ap majority is_r,
        );
  }
    where
      named : m.id ≡ i
      named = ap Node.id is_r ∙ runs.member.0 ∙ h.named

      one_vote : m.votes ≡ 1
      one_vote = ap Node.votes is_r ∙ runs.own_vote

      stands : is_follower m.role ≡ false
      stands = ap (λ k. is_follower k.role) is_r ∙ runs.stands

      later : n.current_term < m.current_term
      later = omega (arith, ap Node.current_term is_r, runs.next_term)

      told :
          is_follower m.role ≡ false
          → n.current_term < m.current_term
          → m.id ≡ i
          → gave m.current_term i (stood n m ++ gs) ≡ true
      told a b c = ground arith

  -- A candidate counts the answer of a peer once.
  pub NodeInv-Tallied :
      (t v : ℕ) (resp : VoteResponse)
      → calls t v ≡ replied resp
      → calls' t v ≡ heard resp
      → has v (others i members) ≡ true
      → IsHonest gs m
      → Tallied n m t resp
      → NodeInv members calls i n gs
      → NodeInv members calls' i m gs
  NodeInv-Tallied t v resp was now peer honest tallied h = record {
    honest = honest;
    named = tallied.member.0 ∙ h.named;
    known = tallied.member.1 ∙ h.known;
    own_vote = λ e. rw (tallied.same_term) (h.own_vote tallied.stood);
    tally = λ e.
        rw (tallied.same_term, tallied.one_more, tallied.asked_term)
          (omega (
            arith,
            subst (λ x. n.votes ≤ 1 + count (λ u. yes (calls x u)) (others i members))
                tallied.asked_term (h.tally tallied.stood),
            more,
          ));
    elected = λ e. omega (arith, tallied.wins e, tallied.one_more, same_majority tallied.member);
  }
    where
      more :
          count (λ u. yes (calls t u)) (others i members) + 1
          ≤ count (λ u. yes (calls' t u)) (others i members)
      more =
          count-one-more (λ u. yes (calls t u)) (λ u. yes (calls' t u)) v (others i members) peer
            (ap yes was) (ap yes now ∙ tallied.granted) (grows t)
