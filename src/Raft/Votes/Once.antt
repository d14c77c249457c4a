-- ===== src/Raft/Votes/Once.antt =====
-- The record of votes over a node's whole life.
use kill_my_cluster.Prelude.{ℕ, ◌≤◌, ◌≡◌, List, [], ◌++◌, some, get_elem?}
use kill_my_cluster.Raft.Node.{Node}
use kill_my_cluster.Raft.Votes.{
  Grant, Step, Life, begins, goes_on, votes, ticks, hears_pre_vote, appends, installs, compacts,
  proposes, hears_snapshot, sends, hears_append, hears_vote, restarts,
}
use kill_my_cluster.Raft.Votes.Invariant.{on_disk, Honest, Unique-at}
use kill_my_cluster.Raft.Votes.Moves.{IsHonest, handle_append_entries-IsHonest}
use kill_my_cluster.Raft.Votes.Voting.{handle_request_vote-IsHonest}
use kill_my_cluster.Raft.Votes.Standing.{tick-IsHonest, pre_vote_response-IsHonest}
use kill_my_cluster.Raft.Votes.Others.{
  handle_install_snapshot-IsHonest, snapshot-IsHonest, commit_prop_batch-IsHonest,
  replicate_send-IsHonest, new_node-IsHonest,
}
use kill_my_cluster.Raft.Votes.Responses.{
  append_response-IsHonest, snapshot_response-IsHonest, vote_response-IsHonest,
}

pub Step-IsHonest :
    (gs : List Grant) (n : Node) (hs : List Grant) (m : Node)
    → Step n hs m
    → IsHonest gs n
    → IsHonest (hs ++ gs) m
Step-IsHonest gs n _ _ (votes env req real safe) h =
    handle_request_vote-IsHonest env req n gs real safe h
Step-IsHonest gs n _ _ (ticks env real room) h = tick-IsHonest env n real room gs h
Step-IsHonest gs n _ _ (hears_pre_vote env t round resp real room) h =
    pre_vote_response-IsHonest env n real room gs h t round resp
Step-IsHonest gs n _ _ (appends env req) h = handle_append_entries-IsHonest env req gs n h
Step-IsHonest gs n _ _ (installs env req) h = handle_install_snapshot-IsHonest gs env req n h
Step-IsHonest gs n _ _ (compacts env index payload) h = snapshot-IsHonest gs env index payload n h
Step-IsHonest gs n _ _ (proposes env batch) h = commit_prop_batch-IsHonest gs env batch n h
Step-IsHonest gs n _ _ (hears_snapshot env peer t index resp_term) h =
    snapshot_response-IsHonest gs env peer t index resp_term n h
Step-IsHonest gs n _ _ (sends peer t) h = replicate_send-IsHonest gs peer t n h
Step-IsHonest gs n _ _ (hears_append env peer t req resp) h =
    append_response-IsHonest gs env peer t req resp n h
Step-IsHonest gs n _ _ (hears_vote env t resp) h = vote_response-IsHonest gs env t resp n h
Step-IsHonest gs n _ _ (restarts env) h =
    new_node-IsHonest gs env n.id n.peers n.tm n.snapshot_retain n h

pub fresh-IsHonest : (n : Node) → (on_disk n).term ≤ n.current_term → IsHonest [] n
fresh-IsHonest n le = record { remembered = tt; stored = tt; behind = le; real = tt; unique = tt }

Life-IsHonest :
    (start n : Node) (gs : List Grant)
    → (on_disk start).term ≤ start.current_term
    → Life start gs n
    → IsHonest gs n
Life-IsHonest start n _ le begins = fresh-IsHonest n le
Life-IsHonest start n _ le (goes_on {gs = gs} {hs = hs} {n = p} {m = m} l s) =
    Step-IsHonest gs p hs m s (Life-IsHonest start p gs le l)

-- Over a node's life of handlers, timeouts, elections, failed writes and restarts, any two votes
-- that it gives in one term are for one candidate: where the node starts with a term that is not
-- behind its disk's, candidates' ids and its own are not 0, its term stays below 2 ^ 64 - 1 where
-- it stands, and no save fails for a vote that is asked for again.
pub votes_once :
    (start n : Node) (gs : List Grant) (i j : ℕ) (g h : Grant)
    → (on_disk start).term ≤ start.current_term
    → Life start gs n
    → get_elem? gs i ≡ some g
    → get_elem? gs j ≡ some h
    → g.term ≡ h.term
    → g.candidate ≡ h.candidate
votes_once start n gs i j g h le l =
    Unique-at gs i j g h (Honest.unique (Life-IsHonest start n gs le l))
