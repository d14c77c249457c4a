-- ===== src/Raft/Cluster/Calls.antt =====
-- The calls of the cluster, across each kind of step.
use kill_my_cluster.Prelude.{
  has, others, ℕ, ◌+◌, ◌≡◌, refl, ap, ◌∙◌, sym, subst, ◌⊎◌, inl, inr, arith, true, false, ◌&&◌,
  ◌==◌, ==_iff, List, ◌++◌, if_case, Bool-cases, Option, none, some,
}
use kill_my_cluster.Raft.Node.{Node, VoteRequest}
use kill_my_cluster.Raft.Votes.{Grant}
use kill_my_cluster.Raft.Votes.Invariant.{Honest, in_memory}
use kill_my_cluster.Raft.Cluster.{Call, idle, asked, replied, heard, set, set_call, poll}
use kill_my_cluster.Raft.Cluster.Ballot.{Harmless, Binds}
use kill_my_cluster.Raft.Cluster.Invariant.{
  gave, gave-append, gave_old, is_idle, granted_in, yes, NodeInv, CallsInv,
}
use kill_my_cluster.Raft.Cluster.Moves.{Grows}

pub told_more :
    (i : ℕ) (hs : List Grant) (told : ℕ → List Grant) (j t d : ℕ)
    → gave t d (told j) ≡ true
    → gave t d (set i (hs ++ told i) told j) ≡ true
told_more i hs told j t d h = elim (Bool-cases (j == i)) [
  | inl e ↦
      rw (e)
        (gave-append t d hs (told i) (subst (λ k. gave t d (told k) ≡ true) ((==_iff j i).0 e) h))
  | inr e ↦ rw (e) h
]

pub CallsInv-told :
    (members : List ℕ) (calls : ℕ → ℕ → ℕ → Call) (told told' : ℕ → List Grant)
    → ((j t d : ℕ) → gave t d (told j) ≡ true → gave t d (told' j) ≡ true)
    → CallsInv members calls told
    → CallsInv members calls told'
CallsInv-told members calls told told' more h = record {
  opened = λ c t v e. (more c t c (h.opened c t v e).0, (h.opened c t v e).1);
  given = λ c t v e. more v t c (h.given c t v e);
}

-- The call that changes, among the others.
set_call-case :
    (P : ℕ → ℕ → ℕ → Call → Type 0) (c t v : ℕ) (s : Call) (calls : ℕ → ℕ → ℕ → Call)
    → P c t v s
    → ((c' t' v' : ℕ) → P c' t' v' (calls c' t' v'))
    → (c' t' v' : ℕ) → P c' t' v' (set_call c t v s calls c' t' v')
set_call-case P c t v s calls here rest c' t' v' =
    if_case (P c' t' v') (c' == c && (t' == t && v' == v)) s (calls c' t' v')
      (λ e. matched (ground arith) (ground arith) (ground arith)) (λ _. rest c' t' v')
  where
    matched : c ≡ c' → t ≡ t' → v ≡ v' → P c' t' v' s
    matched a b d =
        subst (λ x. P x t' v' s) a (subst (λ x. P c x v' s) b (subst (λ x. P c t x s) d here))

pub CallsInv-set_call :
    (members : List ℕ) (c t v : ℕ) (s : Call) (calls : ℕ → ℕ → ℕ → Call) (told : ℕ → List Grant)
    → (gave t c (told c) ≡ true) × (has v (others c members) ≡ true)
    → (granted_in s ≡ true → gave t c (told v) ≡ true)
    → CallsInv members calls told
    → CallsInv members (set_call c t v s calls) told
CallsInv-set_call members c t v s calls told begun give h = record {
  opened =
      set_call-case
        (λ c t v s.
          is_idle s ≡ false → (gave t c (told c) ≡ true) × (has v (others c members) ≡ true))
        c t v s calls (λ _. begun) h.opened;
  given =
      set_call-case (λ c t v s. granted_in s ≡ true → gave t c (told v) ≡ true) c t v s calls give
        h.given;
}

-- A call that was not counted may change.
pub set_call-Grows :
    (c t v : ℕ) (s : Call) (calls : ℕ → ℕ → ℕ → Call)
    → yes (calls c t v) ≡ false
    → (i : ℕ) → Grows (calls i) (set_call c t v s calls i)
set_call-Grows c t v s calls before i t' v' =
    if_case (λ x. yes (calls i t' v') ≡ true → yes x ≡ true) (i == c && (t' == t && v' == v)) s
      (calls i t' v') (λ e h. absurd (clash (ground arith) (ground arith) (ground arith) h))
      (λ _ h. h)
  where
    clash : c ≡ i → t ≡ t' → v ≡ v' → yes (calls i t' v') ≡ true → ⊥
    clash a b d h = cc (before, a, b, d, h)

pub poll-Harmless :
    (m : Node) (o : Option VoteRequest) (calls : ℕ → ℕ → ℕ → Call)
    → Harmless o
    → poll (m, o) calls ≡ calls
poll-Harmless m none calls h = refl
poll-Harmless m (some req) calls h = rw h refl

-- An election asks peers, in its own term, and overwrites no older call.
pub record Asks (n : Node) (m : Node) (calls calls' : ℕ → ℕ → ℕ → Call) (c t v : ℕ) : Type 0 where
  pub by_itself : c ≡ n.id
  pub next_term : t ≡ n.current_term + 1
  pub peer : has v m.peers ≡ true
  pub now_asked : calls' c t v ≡ asked

poll_cases :
    (n m : Node) (o : Option VoteRequest) (calls : ℕ → ℕ → ℕ → Call)
    → Binds n o
    → (c t v : ℕ)
    → (poll (m, o) calls c t v ≡ calls c t v) ⊎ Asks n m calls (poll (m, o) calls) c t v
poll_cases n m none calls b c t v = inl refl
poll_cases n m (some req) calls b c t v =
    elim (Bool-cases (c == req.candidate_id && (t == req.term && has v m.peers))) [
      | inl e ↦ inr (record {
        by_itself = ground (arith, b.1);
        next_term = ground (arith, b.2);
        peer = ground arith;
        now_asked = rw (b.0, e) refl;
      })
      | inr e ↦ inl (rw (b.0, e) refl)
    ]

-- No call of a node is of a term to come.
no_call_yet :
    (members : List ℕ) (n : Node) (i : ℕ) (calls : ℕ → ℕ → ℕ → Call) (told : ℕ → List Grant)
    → CallsInv members calls told
    → NodeInv members (calls i) i n (told i)
    → (v : ℕ) → is_idle (calls i (n.current_term + 1) v) ≡ false
    → ⊥
no_call_yet members n i calls told cs h v e = omega (
  arith,
  gave_old (in_memory n) (n.current_term + 1) i (told i) (Honest.remembered h.honest)
      (cs.opened i (n.current_term + 1) v e).0,
)

module _ (members : List ℕ) (n m : Node) (o : Option VoteRequest) (i : ℕ) (calls : ℕ → ℕ → ℕ → Call)
    (told told' : ℕ → List Grant) (cs : CallsInv members calls told)
    (h : NodeInv members (calls i) i n (told i)) where
  pub poll-Grows : Binds n o → (j : ℕ) → Grows (calls j) (poll (m, o) calls j)
  poll-Grows b j t v e = elim (poll_cases n m o calls b j t v) [
    | inl same ↦ ap yes same ∙ e
    | inr asks ↦ absurd (no_call_yet members n i calls told cs h v (open_then asks))
  ]
    where
      answered : (s : Call) → yes s ≡ true → is_idle s ≡ false
      answered (heard r) a = refl
      answered idle a = cc
      answered asked a = cc
      answered (replied r) a = cc

      open_then :
          Asks n m calls (poll (m, o) calls) j t v
          → is_idle (calls i (n.current_term + 1) v) ≡ false
      open_then asks =
          subst (λ x. is_idle (calls i x v) ≡ false) asks.next_term
            (subst (λ x. is_idle (calls x t v) ≡ false) (asks.by_itself ∙ h.named)
              (answered (calls j t v) e))

  pub poll-CallsInv :
      Binds n o
      → m.peers ≡ others i members
      → gave (n.current_term + 1) i (told' i) ≡ true
      → ((j t d : ℕ) → gave t d (told j) ≡ true → gave t d (told' j) ≡ true)
      → CallsInv members (poll (m, o) calls) told'
  poll-CallsInv b peers own more = record {
    opened = λ c t v e. elim (poll_cases n m o calls b c t v) [
      | inl same ↦ (
        more c t c (cs.opened c t v (ap is_idle (sym same) ∙ e)).0,
        (cs.opened c t v (ap is_idle (sym same) ∙ e)).1,
      )
      | inr asks ↦ asked_by asks
    ];
    given = λ c t v e. elim (poll_cases n m o calls b c t v) [
      | inl same ↦ more v t c (cs.given c t v (ap granted_in (sym same) ∙ e))
      | inr asks ↦ cc (e, asks.now_asked)
    ];
  }
    where
      asked_by :
          {c t v : ℕ}
          → Asks n m calls (poll (m, o) calls) c t v
          → (gave t c (told' c) ≡ true) × (has v (others c members) ≡ true)
      asked_by {c} {t} {v} asks = (
        rw (asks.by_itself, h.named, asks.next_term) own,
        rw (asks.by_itself, h.named) (subst (λ ps. has v ps ≡ true) peers asks.peer),
      )
