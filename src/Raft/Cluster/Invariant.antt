-- ===== src/Raft/Cluster/Invariant.antt =====
-- What the nodes, the votes that were told and the calls of one cluster know of each other.
use kill_my_cluster.Prelude.{
  has, others, ℕ, ◌+◌, ◌≤◌, ◌≡◌, ◌∙◌, sym, subst, inl, inr, arith, Bool, true, false, ◌&&◌, ◌||◌,
  ◌==◌, ==_iff, List, [], ◌∷◌, ◌++◌, All, Bool-cases,
}
use kill_my_cluster.Raft.Disk.Hard.{HardState}
use kill_my_cluster.Raft.Node.{Node, is_follower, is_leader, majority}
use kill_my_cluster.Raft.Votes.{Grant}
use kill_my_cluster.Raft.Votes.Invariant.{Remembers, Unique}
use kill_my_cluster.Raft.Votes.Moves.{IsHonest}
use kill_my_cluster.Raft.Cluster.{Call, idle, replied, heard, World, set}
use kill_my_cluster.Raft.Cluster.Quorum.{count}

abbrev pub gave : ℕ → ℕ → List Grant → Bool
gave t c [] = false
gave t c (g ∷ gs) = (g.term == t && g.candidate == c) || gave t c gs

pub gave-append : (t c : ℕ) (hs gs : List Grant) → gave t c gs ≡ true → gave t c (hs ++ gs) ≡ true
gave-append t c [] gs h = h
gave-append t c (g ∷ hs) gs h = ground (arith, gave-append t c hs gs h)

-- No vote is of a term to come.
pub gave_old :
    (m : HardState) (t c : ℕ) (gs : List Grant)
    → All (Remembers m) gs
    → gave t c gs ≡ true
    → t ≤ m.term
gave_old m t c [] a h = ground arith
gave_old m t c (g ∷ gs) a h = elim (Bool-cases (g.term == t && g.candidate == c)) [
  | inl e ↦ recent a.0 (ground arith)
  | inr e ↦ gave_old m t c gs a.1 (ground arith)
]
  where
    recent : Remembers m g → g.term ≡ t → t ≤ m.term
    recent (inl p) same = omega arith
    recent (inr (p, q)) same = omega arith

gave_agree :
    (t c d : ℕ) (gs : List Grant)
    → All (λ h. h.term ≡ t → h.candidate ≡ c) gs
    → gave t d gs ≡ true
    → d ≡ c
gave_agree t c d [] a h = ground arith
gave_agree t c d (g ∷ gs) a h = elim (Bool-cases (g.term == t && g.candidate == d)) [
  | inl e ↦ sym (ground arith) ∙ a.0 (ground arith)
  | inr e ↦ gave_agree t c d gs a.1 (ground arith)
]

pub gave-Unique :
    (t c d : ℕ) (gs : List Grant) → Unique gs → gave t c gs ≡ true → gave t d gs ≡ true → c ≡ d
gave-Unique t c d [] u h k = ground arith
gave-Unique t c d (g ∷ gs) u h k = elim (Bool-cases (g.term == t && g.candidate == c)) [
  | inl e ↦ elim (Bool-cases (g.term == t && g.candidate == d)) [
    | inl f ↦ ground arith
    | inr f ↦ sym (gave_agree t c d gs (at_head (ground arith) (ground arith)) (ground arith))
  ]
  | inr e ↦ elim (Bool-cases (g.term == t && g.candidate == d)) [
    | inl f ↦ gave_agree t d c gs (at_head (ground arith) (ground arith)) (ground arith)
    | inr f ↦ gave-Unique t c d gs u.1 (ground arith) (ground arith)
  ]
]
  where
    at_head : {x : ℕ} → g.term ≡ t → g.candidate ≡ x → All (λ h. h.term ≡ t → h.candidate ≡ x) gs
    at_head {x} p q =
        subst (λ y. All (λ h. h.term ≡ t → h.candidate ≡ y) gs) q
          (subst (λ y. All (λ h. h.term ≡ y → h.candidate ≡ g.candidate) gs) p u.0)

abbrev pub is_idle : Call → Bool
is_idle idle = true
is_idle _ = false

-- The peer's answer is yes.
abbrev pub granted_in : Call → Bool
granted_in (replied r) = r.vote_granted
granted_in (heard r) = r.vote_granted
granted_in _ = false

-- And the candidate has counted it.
abbrev pub yes : Call → Bool
yes (heard r) = r.vote_granted
yes _ = false

pub record NodeInv (members : List ℕ) (calls : ℕ → ℕ → Call) (i : ℕ) (n : Node) (gs : List Grant)
    : Type 0 where
  pub honest : IsHonest gs n
  pub named : n.id ≡ i
  pub known : n.peers ≡ others i members
  pub own_vote : is_follower n.role ≡ false → gave n.current_term i gs ≡ true
  pub tally :
      is_follower n.role ≡ false
      → n.votes ≤ 1 + count (λ v. yes (calls n.current_term v)) (others i members)
  pub elected : is_leader n.role ≡ true → majority n ≤ n.votes

pub record CallsInv (members : List ℕ) (calls : ℕ → ℕ → ℕ → Call) (told : ℕ → List Grant)
    : Type 0 where
  pub opened :
      (c t v : ℕ)
      → is_idle (calls c t v) ≡ false
      → (gave t c (told c) ≡ true) × (has v (others c members) ≡ true)
  pub given : (c t v : ℕ) → granted_in (calls c t v) ≡ true → gave t c (told v) ≡ true

abbrev pub Inv : List ℕ → World → Type 0
Inv members w =
    ((i : ℕ) → NodeInv members (w.calls i) i (w.nodes i) (w.told i))
    × CallsInv members w.calls w.told

-- One node and what it told change.
pub at_set :
    (P : ℕ → Node → List Grant → Type 0) (i : ℕ) (m : Node) (hs : List Grant) (f : ℕ → Node)
    (g : ℕ → List Grant)
    → P i m hs
    → ((j : ℕ) → P j (f j) (g j))
    → (j : ℕ) → P j (set i m f j) (set i hs g j)
at_set P i m hs f g here rest j = elim (Bool-cases (j == i)) [
  | inl e ↦ rw e (subst (λ k. P k m hs) (sym ((==_iff j i).0 e)) here)
  | inr e ↦ rw e (rest j)
]
