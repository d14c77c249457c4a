-- ===== src/Raft/Cluster/Safety.antt =====
-- Elections over every sequence of steps of the whole cluster.
use kill_my_cluster.Prelude.{
  IsDistinct, has, length-others, others, ℕ, ◌+◌, ◌/◌, ◌≤◌, ◌<◌, ◌≡◌, refl, ap, inl, inr, arith,
  Bool, true, false, ◌==◌, ==_iff, List, [], length, Bool-cases,
}
use kill_my_cluster.Raft.Node.{Role, follower, candidate, leader, is_follower, is_leader}
use kill_my_cluster.Raft.Votes.Invariant.{Honest, on_disk}
use kill_my_cluster.Raft.Votes.Once.{fresh-IsHonest}
use kill_my_cluster.Raft.Cluster.{Call, idle, heard, World, Reach, begins, goes_on}
use kill_my_cluster.Raft.Cluster.Quorum.{count, with_self, count-others, both}
use kill_my_cluster.Raft.Cluster.Invariant.{
  gave, gave-Unique, is_idle, granted_in, yes, NodeInv, Inv,
}
use kill_my_cluster.Raft.Cluster.Steps.{Step-Inv}

-- A cluster that starts: nobody stands for anything, was told anything or asks anybody, and a
-- node's memory is not behind its disk.
pub record Fresh (members : List ℕ) (w : World) : Type 0 where
  pub nobody_asks : (c t v : ℕ) → w.calls c t v ≡ idle
  pub nothing_told : (i : ℕ) → w.told i ≡ []
  pub all_follow : (i : ℕ) → is_follower (w.nodes i).role ≡ true
  pub named : (i : ℕ) → (w.nodes i).id ≡ i
  pub known : (i : ℕ) → (w.nodes i).peers ≡ others i members
  pub behind : (i : ℕ) → (on_disk (w.nodes i)).term ≤ (w.nodes i).current_term

no_leader : (r : Role) → is_follower r ≡ true → is_leader r ≡ true → ⊥
no_leader follower a b = cc
no_leader candidate a b = cc
no_leader leader a b = cc

stands : (r : Role) → is_leader r ≡ true → is_follower r ≡ false
stands follower a = cc
stands candidate a = refl
stands leader a = refl

Fresh-Inv : (members : List ℕ) (w : World) → Fresh members w → Inv members w
Fresh-Inv members w fresh = (
  λ i. record {
    honest = rw (fresh.nothing_told i) (fresh-IsHonest (w.nodes i) (fresh.behind i));
    named = fresh.named i;
    known = fresh.known i;
    own_vote = λ e. cc (e, fresh.all_follow i);
    tally = λ e. cc (e, fresh.all_follow i);
    elected = λ e. absurd (no_leader (w.nodes i).role (fresh.all_follow i) e);
  },
  record {
    opened = λ c t v e. cc (e, ap is_idle (fresh.nobody_asks c t v));
    given = λ c t v e. cc (e, ap granted_in (fresh.nobody_asks c t v));
  },
)

Reach-Inv :
    (members : List ℕ) (start w : World) → Fresh members start → Reach start w → Inv members w
Reach-Inv members start _ fresh begins = Fresh-Inv members start fresh
Reach-Inv members start _ fresh (goes_on {w = w} {x = x} past s) =
    Step-Inv members w x (Reach-Inv members start w fresh past) s

module _ (members : List ℕ) (w : World) (inv : Inv members w) where
  -- The members that voted for `c` in term `t`, as `c` counts them.
  abbrev voters : ℕ → ℕ → ℕ → Bool
  voters c t = with_self c (λ v. yes (w.calls c t v))

  heard_yes : (s : Call) → yes s ≡ true → granted_in s ≡ true
  heard_yes (heard r) e = e
  heard_yes _ e = cc

  voters-gave :
      (c v : ℕ)
      → is_leader (w.nodes c).role ≡ true
      → voters c (w.nodes c).current_term v ≡ true
      → gave (w.nodes c).current_term c (w.told v) ≡ true
  voters-gave c v leads e = elim (Bool-cases (v == c)) [
    | inl itself ↦ rw ((==_iff v c).0 itself) ((inv.0 c).own_vote (stands (w.nodes c).role leads))
    | inr another ↦
        inv.1.given c (w.nodes c).current_term v
          (heard_yes (w.calls c (w.nodes c).current_term v) (ground arith))
  ]

  -- More than half of the cluster.
  enough :
      (c : ℕ)
      → IsDistinct members
      → has c members ≡ true
      → is_leader (w.nodes c).role ≡ true
      → length members
        < count (voters c (w.nodes c).current_term) members
          + count (voters c (w.nodes c).current_term) members
  enough c distinct member leads = omega (
    arith,
    (inv.0 c).elected leads,
    (inv.0 c).tally (stands (w.nodes c).role leads),
    count-others c (λ v. yes (w.calls c (w.nodes c).current_term v)) members member,
    length-others c members member distinct,
    ap {A = List ℕ} (λ ps. (length ps + 1) / 2 + 1) (inv.0 c).known,
  )

-- At no time after its start does a cluster of distinct members have two leaders in one term: over
-- every sequence of ticks, elections, requests, answers, failed writes, lost answers, repeated
-- requests, crashes and restarts, where candidates' ids are not 0, no term reaches 2 ^ 64 - 1 where
-- a node stands, and no save fails for a vote that is asked for again.
pub one_leader :
    (members : List ℕ) (start w : World) (c d : ℕ)
    → IsDistinct members
    → Fresh members start
    → Reach start w
    → has c members ≡ true
    → has d members ≡ true
    → is_leader (w.nodes c).role ≡ true
    → is_leader (w.nodes d).role ≡ true
    → (w.nodes c).current_term ≡ (w.nodes d).current_term
    → c ≡ d
one_leader members start w c d distinct fresh past c_in d_in c_leads d_leads same = agree (
    both p q members (
      omega (
        arith,
        enough members w inv c distinct c_in c_leads,
        enough members w inv d distinct d_in d_leads,
      )))
  where
    inv : Inv members w
    inv = Reach-Inv members start w fresh past

    p : ℕ → Bool
    p = voters members w inv c (w.nodes c).current_term

    q : ℕ → Bool
    q = voters members w inv d (w.nodes d).current_term

    agree : (v : ℕ) × (p v ≡ true) × (q v ≡ true) → c ≡ d
    agree (v, a, b) =
        gave-Unique (w.nodes c).current_term c d (w.told v)
          (Honest.unique (NodeInv.honest (inv.0 v))) (voters-gave members w inv c v c_leads a)
          (rw same (voters-gave members w inv d v d_leads b))
