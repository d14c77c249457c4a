-- ===== src/Raft/Cluster.antt =====
-- internal/raft: the nodes of one cluster, and the vote requests and answers between them.
pub mod Quorum
pub mod Calm
pub mod Ballot
pub mod Invariant
pub mod Moves
pub mod Calls
pub mod Steps
pub mod Safety
mod Tests
use kill_my_cluster.Prelude.{
  has, nat_eq, ℕ, ◌+◌, ◌<◌, ◌≡◌, ◌⊎◌, Bool, true, false, not, ◌&&◌, ◌||◌, Option, none, some, List,
  [], ◌∷◌, ◌++◌, ◌==◌, if◌then◌else◌,
}
use kill_my_cluster.Prelude.Bytes.{u64_mod}
use kill_my_cluster.Raft.Disk.{saved, no_vote}
use kill_my_cluster.Raft.Node.{Node, Env, VoteRequest, VoteResponse, is_follower}
use kill_my_cluster.Raft.Handlers.{handle_request_vote}
use kill_my_cluster.Raft.Election.{Polling, tick, pre_vote_response, vote_response}
use kill_my_cluster.Raft.Votes
use kill_my_cluster.Raft.Votes.{
  Grant, granted, stood, votes, ticks, hears_pre_vote, appends, installs, compacts, proposes,
  hears_snapshot, sends, hears_append, hears_vote, restarts,
}

-- The goroutine in which a candidate asks one peer in one election: it has sent its request, the
-- peer has answered, or the candidate has looked at the answer. Each RPC ends at most once.
pub data Call : Type 0 where
  idle asked : Call
  replied heard : VoteResponse → Call

-- What all nodes are, the votes that each has told somebody of, and the calls, by candidate, term
-- and voter.
pub record World : Type 0 where
  pub nodes : ℕ → Node
  pub told : ℕ → List Grant
  pub calls : ℕ → ℕ → ℕ → Call

abbrev pub set {ℓ} : {A : Type ℓ} → ℕ → A → (ℕ → A) → ℕ → A
set i a f j = if j == i then a else f j

abbrev pub set_call : ℕ → ℕ → ℕ → Call → (ℕ → ℕ → ℕ → Call) → ℕ → ℕ → ℕ → Call
set_call c t v s calls c' t' v' = if c' == c && (t' == t && v' == v) then s else calls c' t' v'

-- An election sends its request to every peer; a pre-vote binds nobody and is not followed here.
abbrev pub poll : Polling → (ℕ → ℕ → ℕ → Call) → ℕ → ℕ → ℕ → Call
poll (n, none) calls = calls
poll (n, some req) calls = if req.pre_vote then calls else λ c t v.
    if c == req.candidate_id && (t == req.term && has v n.peers) then asked else calls c t v

-- The steps of a node that concern no election of its own.
abbrev pub Plain : {n m : Node} {gs : List Grant} → Votes.Step n gs m → Type 0
Plain (ticks env real room) = ⊥
Plain (hears_pre_vote env t round resp real room) = ⊥
Plain (hears_vote env t resp) = ⊥
Plain _ = Unit {0}

abbrev pub elects : World → ℕ → Polling → World
elects w i p = record {
  nodes = set i p.0 w.nodes;
  told = set i (stood (w.nodes i) p.0 ++ w.told i) w.told;
  calls = poll p w.calls;
}

pub data Step (w : World) : World → Type 0 where
  acts :
      (i : ℕ) (gs : List Grant) (m : Node) (s : Votes.Step (w.nodes i) gs m)
      → Plain s
      → Step w (record w { nodes = set i m w.nodes; told = set i (gs ++ w.told i) w.told })
  wakes :
      (i : ℕ) (env : Env)
      → 0 < (w.nodes i).id
      → (w.nodes i).current_term + 1 < u64_mod
      → Step w (elects w i (tick env (w.nodes i)))
  hears_poll :
      (i : ℕ) (env : Env) (term round : ℕ) (resp : VoteResponse)
      → 0 < (w.nodes i).id
      → (w.nodes i).current_term + 1 < u64_mod
      → Step w (elects w i (pre_vote_response env term round resp (w.nodes i)))
  answers :
      (c t v : ℕ) (env : Env) (req : VoteRequest)
      → w.calls c t v ≡ asked
      → req.candidate_id ≡ c
      → req.term ≡ t
      → req.pre_vote ≡ false
      → 0 < req.candidate_id
      → ((w.nodes v).voted_for ≡ no_vote) ⊎ (env.vote_saved ≡ saved)
      → Step w (record {
        nodes = set v (handle_request_vote env req (w.nodes v)).0 w.nodes;
        told = set v (granted req (handle_request_vote env req (w.nodes v)) ++ w.told v) w.told;
        calls = set_call c t v (replied (handle_request_vote env req (w.nodes v)).1) w.calls;
      })
  hears :
      (c t v : ℕ) (env : Env) (resp : VoteResponse)
      → w.calls c t v ≡ replied resp
      → Step w (record w {
        nodes = set c (vote_response env t resp (w.nodes c)) w.nodes;
        calls = set_call c t v (heard resp) w.calls;
      })

pub data Reach (start : World) : World → Type 0 where
  begins : Reach start start
  goes_on : {w x : World} → Reach start w → Step w x → Reach start x
