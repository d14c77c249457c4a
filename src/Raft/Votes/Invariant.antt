-- ===== src/Raft/Votes/Invariant.antt =====
-- What a node's memory and its disk know of the votes that it has given.
use kill_my_cluster.Prelude.{
  ℕ, zero, suc, ◌≤◌, ◌<◌, ◌≡◌, refl, ◌∙◌, sym, subst, ◌⊎◌, inl, inr, arith, List, [], ◌∷◌, All,
  some, get_elem?,
}
use kill_my_cluster.Raft.Disk.{no_vote}
use kill_my_cluster.Raft.Disk.Hard.{HardState, hard_of}
use kill_my_cluster.Raft.Node.{Node}
use kill_my_cluster.Raft.Votes.{Grant}

abbrev pub in_memory : Node → HardState
in_memory n = record { term = n.current_term; voted_for = n.voted_for }

abbrev pub on_disk : Node → HardState
on_disk n = hard_of n.persist

-- A vote that was given in an older term, or is the one that is remembered.
abbrev pub Remembers : HardState → Grant → Type 0
Remembers h g = (g.term < h.term) ⊎ ((g.term ≡ h.term) × (g.candidate ≡ h.voted_for))

abbrev pub Unique : List Grant → Type 0
Unique [] = Unit {0}
Unique (g ∷ gs) = All (λ h. h.term ≡ g.term → h.candidate ≡ g.candidate) gs × Unique gs

-- The invariant, over the two hard states.
pub record Honest (gs : List Grant) (memory disk : HardState) : Type 0 where
  pub remembered : All (Remembers memory) gs
  pub stored : All (Remembers disk) gs
  pub behind : disk.term ≤ memory.term
  pub real : All (λ g. 0 < g.candidate) gs
  pub unique : Unique gs

Remembers-higher :
    (h : HardState) (t v : ℕ) (gs : List Grant)
    → h.term < t
    → All (Remembers h) gs
    → All (Remembers (record { term = t; voted_for = v })) gs
Remembers-higher h t v [] lt a = tt
Remembers-higher h t v (g ∷ gs) lt a = (inl (below a.0), Remembers-higher h t v gs lt a.1)
  where
    below : Remembers h g → g.term < t
    below (inl p) = omega arith
    below (inr (p, q)) = omega arith

-- A higher term, with no vote, in memory; on disk or not.
pub Honest-higher :
    (gs : List Grant) (m d : HardState) (t v : ℕ)
    → m.term < t
    → Honest gs m d
    → Honest gs (record { term = t; voted_for = v }) d
Honest-higher gs m d t v lt h = record {
  remembered = Remembers-higher m t v gs lt h.remembered;
  stored = h.stored;
  behind = omega (arith, h.behind);
  real = h.real;
  unique = h.unique;
}

-- The disk takes over what memory has.
pub Honest-flushed : (gs : List Grant) (m d : HardState) → Honest gs m d → Honest gs m m
Honest-flushed gs m d h = record {
  remembered = h.remembered;
  stored = h.remembered;
  behind = omega arith;
  real = h.real;
  unique = h.unique;
}

-- Memory is rebuilt from the disk.
pub Honest-restarted : (gs : List Grant) (m d : HardState) → Honest gs m d → Honest gs d d
Honest-restarted gs m d h = record {
  remembered = h.stored;
  stored = h.stored;
  behind = omega arith;
  real = h.real;
  unique = h.unique;
}

revote :
    (gs : List Grant) (m : HardState) (v : ℕ)
    → (m.voted_for ≡ no_vote) ⊎ (m.voted_for ≡ v)
    → All (λ g. 0 < g.candidate) gs
    → All (Remembers m) gs
    → All (Remembers (record { term = m.term; voted_for = v })) gs
revote [] m v free real a = tt
revote (g ∷ gs) m v free real a = (keep a.0 free, revote gs m v free real.1 a.1)
  where
    keep :
        Remembers m g
        → (m.voted_for ≡ no_vote) ⊎ (m.voted_for ≡ v)
        → Remembers (record { term = m.term; voted_for = v }) g
    keep (inl p) f = inl p
    keep (inr (p, q)) (inl none_yet) = absurd (omega (arith, real.0))
    keep (inr (p, q)) (inr same) = inr (p, q ∙ same)

-- A vote changes in memory where there was none, or none but this one.
pub Honest-revote :
    (gs : List Grant) (m d : HardState) (v : ℕ)
    → (m.voted_for ≡ no_vote) ⊎ (m.voted_for ≡ v)
    → Honest gs m d
    → Honest gs (record { term = m.term; voted_for = v }) d
Honest-revote gs m d v free h = record {
  remembered = revote gs m v free h.real h.remembered;
  stored = h.stored;
  behind = h.behind;
  real = h.real;
  unique = h.unique;
}

All-agree :
    (gs : List Grant) (m : HardState)
    → All (Remembers m) gs
    → All (λ g. g.term ≡ m.term → g.candidate ≡ m.voted_for) gs
All-agree [] m a = tt
All-agree (g ∷ gs) m a = (agree a.0, All-agree gs m a.1)
  where
    agree : Remembers m g → g.term ≡ m.term → g.candidate ≡ m.voted_for
    agree (inl p) e = absurd (omega arith)
    agree (inr (p, q)) e = q

-- The vote that memory and disk agree on may be told.
pub Honest-grant :
    (gs : List Grant) (m : HardState)
    → 0 < m.voted_for
    → Honest gs m m
    → Honest (record { term = m.term; candidate = m.voted_for } ∷ gs) m m
Honest-grant gs m pos h = record {
  remembered = (inr (refl, refl), h.remembered);
  stored = (inr (refl, refl), h.stored);
  behind = h.behind;
  real = (pos, h.real);
  unique = (All-agree gs m h.remembered, h.unique);
}

at_index :
    (P : Grant → Type 0) (gs : List Grant) (i : ℕ) (g : Grant)
    → All P gs
    → get_elem? gs i ≡ some g
    → P g
at_index P [] i g a e = absurd (cc)
at_index P (x ∷ gs) zero g a e = subst P (ground arith) a.0
at_index P (x ∷ gs) (suc i) g a e = at_index P gs i g a.1 e

-- Two votes of one term are for one candidate.
pub Unique-at :
    (gs : List Grant) (i j : ℕ) (g h : Grant)
    → Unique gs
    → get_elem? gs i ≡ some g
    → get_elem? gs j ≡ some h
    → g.term ≡ h.term
    → g.candidate ≡ h.candidate
Unique-at [] i j g h u e f same = absurd (cc)
Unique-at (x ∷ gs) zero zero g h u e f same = ground arith
Unique-at (x ∷ gs) zero (suc j) g h u e f same = sym (
    at_index (λ y. y.term ≡ g.term → y.candidate ≡ g.candidate) gs j h
      (subst {A = Grant} (λ y. All (λ z. z.term ≡ y.term → z.candidate ≡ y.candidate) gs)
        (ground arith) u.0)
      f (sym same))
Unique-at (x ∷ gs) (suc i) zero g h u e f same =
    at_index (λ y. y.term ≡ h.term → y.candidate ≡ h.candidate) gs i g
      (subst {A = Grant} (λ y. All (λ z. z.term ≡ y.term → z.candidate ≡ y.candidate) gs)
        (ground arith) u.0)
      e same
Unique-at (x ∷ gs) (suc i) (suc j) g h u e f same = Unique-at gs i j g h u.1 e f same

-- A vote that was not told may be on disk though memory has none.
pub Honest-unsure :
    (gs : List Grant) (m d : HardState) (v : ℕ)
    → m.voted_for ≡ no_vote
    → Honest gs m d
    → Honest gs m (record { term = m.term; voted_for = v })
Honest-unsure gs m d v none_yet h = record {
  remembered = h.remembered;
  stored = revote gs m v (inl none_yet) h.real h.remembered;
  behind = omega arith;
  real = h.real;
  unique = h.unique;
}
