-- ===== src/Raft/Reads/Confirmed.antt =====
-- internal/raft/batch.go: what a read that is served knows.
use kill_my_cluster.Prelude.{ℕ, ◌≤◌, ◌<◌, ◌≡◌, ◌⊎◌, Bool, true, Option, some}
use kill_my_cluster.Raft.Node.{Node, AppendRequest, is_leader}
use kill_my_cluster.Raft.Handlers.{handle_append_entries}
use kill_my_cluster.Raft.Reads.{Exchange, heartbeat}
use kill_my_cluster.Raft.Reads.Heartbeat.{Follows}
use kill_my_cluster.Prelude.Chosen.{Chosen, MostOf}

-- The peer was reached in the round, and followed the leader in term `t` once it had answered.
abbrev pub Reached : ℕ → (ℕ → Option Exchange) → ℕ → Type 0
Reached t round p =
    (x : Exchange) × (req : AppendRequest) × (round p ≡ some x)
    × (heartbeat p t x.asking ≡ some req)
    × Follows x.asking t (handle_append_entries x.handling req x.peer).0

abbrev Acked : (ℕ → Bool) → ℕ → Type 0
Acked acked p = acked p ≡ true

-- The leader of one term at the three times, and peers with `P` that are with it more than half of the
-- cluster.
pub record Confirmed (P : ℕ → Type 0) (index : ℕ) (opened asked answered : Node) : Type 0 where
  pub led :
      (is_leader opened.role ≡ true)
      × (is_leader asked.role ≡ true)
      × (is_leader answered.role ≡ true)
  pub same_term :
      (asked.current_term ≡ opened.current_term) × (answered.current_term ≡ opened.current_term)
  pub behind_it : MostOf P asked.peers
  pub at_least : (opened.commit_index ≤ index) × (answered.commit_index ≤ index)
  pub committed : (index ≡ opened.commit_index) ⊎ (index ≡ answered.commit_index)

-- The node led when the batch came, by a lease that had not run out.
abbrev pub Leased : ℕ → ℕ → Node → Type 0
Leased now index opened =
    (is_leader opened.role ≡ true) × (now < opened.read_lease_until) × (index ≡ opened.commit_index)
