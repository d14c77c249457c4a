-- ===== src/Raft/Reads.antt =====
-- internal/raft/batch.go and node.go: linearizable reads, by a majority's answers or by the lease.
pub mod Confirmed
pub mod Heartbeat
mod Tests
use kill_my_cluster.Prelude.{
  nat_eq, ℕ, suc, ◌+◌, ◌-◌, ◌/◌, Bool, true, false, not, ◌&&◌, ◌||◌, Option, none, some, List, [],
  ◌∷◌, leb, ltb, ◌==◌, if◌then◌else◌,
}
use kill_my_cluster.Prelude.Map
use kill_my_cluster.Raft.Log.{first_index, term}
use kill_my_cluster.Raft.Node.{
  Node, Env, AppendRequest, AppendResponse, is_leader, majority, at_or_zero, become_follower,
}
use kill_my_cluster.Raft.Handlers.{handle_append_entries}
use kill_my_cluster.Raft.Leader.{leads, note_contact}

-- The first half of serveReadBatch: the term, the read index, and whether the lease holds.
pub record Opening : Type 0 where
  pub term : ℕ
  pub read_index : ℕ
  pub lease_ok : Bool

unfoldable pub open_batch : ℕ → Node → Option Opening
open_batch now n =
    if not (is_leader n.role)
    then none
    else some (record {
      term = n.current_term;
      read_index = n.commit_index;
      lease_ok = ltb now n.read_lease_until;
    })

-- heartbeatAck up to the RPC; `none` where nothing is sent.
unfoldable pub heartbeat : ℕ → ℕ → Node → Option AppendRequest
heartbeat peer t n =
    let next = at_or_zero (Map.get peer n.next_index) in
    if not (leads t n)
    then none
    else if leb next (first_index n.log)
    then none
    else some (record {
      term = t;
      leader_id = n.id;
      prev_log_index = next - 1;
      prev_log_term = (term n.log (next - 1)).0;
      entries = [];
      leader_commit = n.commit_index;
    })

-- heartbeatAck from the response on; the bool says whether it counts.
unfoldable pub heartbeat_response : Env → ℕ → ℕ → AppendResponse → Node → Node × Bool
heartbeat_response env peer t resp n =
    if ltb n.current_term resp.term then (become_follower env resp.term n, false) else (
      if is_leader n.role && n.current_term == t then note_contact env.now peer n else n,
      resp.success && resp.term == t,
    )

unfoldable pub acks : (ℕ → Bool) → List ℕ → ℕ
acks acked [] = 0
acks acked (p ∷ ps) = let rest = acks acked ps in if acked p then suc rest else rest

-- A heartbeat of a round that reached its peer and came back: the leader when it asks and when it has the
-- answer, and the peer.
pub record Exchange : Type 0 where
  pub asking : Node
  pub peer : Node
  pub handling : Env
  pub back : Node
  pub closing : Env

-- heartbeatAck with the peer's HandleAppendEntries between its halves.
abbrev pub acked_after : ℕ → ℕ → Exchange → Option AppendRequest → Bool
acked_after p t x none = false
acked_after p t x (some req) =
    (heartbeat_response x.closing p t (handle_append_entries x.handling req x.peer).1 x.back).1

abbrev pub acked_in : ℕ → ℕ → Option Exchange → Bool
acked_in p t none = false
acked_in p t (some x) = acked_after p t x (heartbeat p t x.asking)

-- The answers that count, of a round in which the peers with an exchange were reached in time.
abbrev pub acked_by : ℕ → (ℕ → Option Exchange) → ℕ → Bool
acked_by t round p = acked_in p t (round p)

-- confirmLeadership: the leader itself counts. `acked` is what the peers have answered when the round
-- ends, by a majority, by everybody's answer, or by the context's end.
unfoldable pub confirm : (ℕ → Bool) → ℕ → Node → Bool
unfolding acks
confirm acked t n = leads t n && leb (majority n) (1 + acks acked n.peers)

-- The second half of serveReadBatch, after a round that was confirmed: the lease is renewed, and the
-- read index goes up with the commit index.
unfoldable pub close_round : ℕ → Opening → Node → Node × Option ℕ
close_round now o n = (
  record n { read_lease_until = now + n.tm.election_timeout_min / 3 },
  if is_leader n.role && n.current_term == o.term
      then some (if ltb o.read_index n.commit_index then n.commit_index else o.read_index)
      else none,
)

abbrev pub serve_opened : ℕ → (ℕ → Bool) → Node → Node → Option Opening → Option ℕ
serve_opened later acked asked answered none = none
serve_opened later acked asked answered (some o) =
    if o.lease_ok
    then some o.read_index
    else if confirm acked o.term asked
    then (close_round later o answered).1
    else none

-- WaitApplied, whose first look is at the node `first` and, where that is too early, whose last one at
-- `last`: when the index is applied, or it gives up.
unfoldable pub wait_applied : ℕ → Node → Node → Bool
wait_applied index first last =
    leb index first.last_applied || (not last.stopped && leb index last.last_applied)

abbrev pub after_wait : Node → Node → Option ℕ → Option ℕ
after_wait first last none = none
after_wait first last (some index) = if wait_applied index first last then some index else none

-- A batch of reads: `opened` when it comes, `asked` when the round starts and `answered` when it has
-- ended are what the node is at these times, `first` and `last` what WaitApplied sees.
unfoldable pub serve_batch : ℕ → ℕ → (ℕ → Bool) → Node → Node → Node → Node → Node → Option ℕ
unfolding open_batch confirm close_round wait_applied
serve_batch now later acked opened asked answered first last =
    after_wait first last (serve_opened later acked asked answered (open_batch now opened))

-- ReadIndex without a batch, while the lease holds.
unfoldable pub lease_read : ℕ → Node → Option ℕ
lease_read now n =
    if is_leader n.role && ltb now n.read_lease_until then some n.commit_index else none
