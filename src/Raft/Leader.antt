-- ===== src/Raft/Leader.antt =====
-- internal/raft/replicate.go and the propose batches of batch.go: the leader's side.
use kill_my_cluster.Prelude.{
  nat_eq, ℕ, zero, suc, ◌+◌, ◌-◌, not, ◌==◌, Bool, true, false, ◌&&◌, ◌||◌, Option, none, some,
  List, [], ◌∷◌, leb, ltb, if◌then◌else◌, length, take,
}
use kill_my_cluster.Prelude.Bytes.{Bytes, add64}
use kill_my_cluster.Prelude.Map
use kill_my_cluster.Raft.Log
use kill_my_cluster.Raft.Log.{
  Entry, RaftLog, first_index, last_index, term, suffix, last_index_of_term,
}
use kill_my_cluster.Raft.Disk.{Snapshot, snapshot_of, append_entries}
use kill_my_cluster.Raft.Node.{
  Node, Env, AppendRequest, AppendResponse, SnapshotRequest, is_leader, at_or_zero, majority,
  become_follower,
}

-- The outcome of one Propose: (index, term), or `none` where this node does not lead.
abbrev pub PropResult : Type 0
PropResult = Option (ℕ × ℕ)

-- The entries that a batch becomes, each at the end of the log as it then is.
unfoldable pub assign : ℕ → RaftLog → List Bytes → RaftLog × List Entry
assign t l [] = (l, [])
assign t l (payload ∷ batch) =
    let e : Entry = record { index = add64 (last_index l) 1; term = t; payload = payload } in
    let (l', es) = assign t (Log.append l (e ∷ [])) batch in (l', e ∷ es)

abbrev results : List Entry → List PropResult
results [] = []
results (e ∷ es) = some (e.index, e.term) ∷ results es

abbrev fail_props : List Bytes → List PropResult
fail_props [] = []
fail_props (b ∷ bs) = none ∷ fail_props bs

-- commitPropBatch: one fsync for the batch, and the batch is taken back where it fails.
unfoldable pub commit_prop_batch : Env → List Bytes → Node → Node × List PropResult
unfolding assign
commit_prop_batch env batch n =
    let (l, entries) = assign n.current_term n.log batch in
    let (disk, saved) = append_entries env.entries_saved entries n.persist in
    if not (is_leader n.role)
    then (n, fail_props batch)
    else if saved
    then (record n { log = l; persist = disk }, results entries)
    else (
      record n { log = Log.truncate_from l (add64 (last_index n.log) 1); persist = disk },
      fail_props batch,
    )

abbrev pub max_append_entries : ℕ
max_append_entries = 64

-- What replicateOnce sends: the leadership is over, there is nothing to ship, or a request.
pub data Sending : Type 0 where
  over nothing : Sending
  entries_to : AppendRequest → Sending
  image_to : SnapshotRequest → Sending

abbrev pub leads : ℕ → Node → Bool
leads t n = not n.stopped && (is_leader n.role && n.current_term == t)

image_request : ℕ → Snapshot → Node → SnapshotRequest
image_request t snap n = record {
  term = t;
  leader_id = n.id;
  last_included_index = snap.index;
  last_included_term = snap.term;
  payload = snap.payload;
}

-- The first half of sendSnapshotLocked: the image in memory, or else the one on disk.
unfoldable pub send_snapshot : ℕ → Node → Node × Sending
unfolding image_request
send_snapshot t n =
    let on_disk = snapshot_of n.persist.snapshot in
    if not (n.snap_cache.index == 0)
    then (n, image_to (image_request t n.snap_cache n))
    else if on_disk.index == 0
    then (n, nothing)
    else (record n { snap_cache = on_disk }, image_to (image_request t on_disk n))

unfoldable pub entries_request : ℕ → ℕ → Node → AppendRequest
entries_request t next n = record {
  term = t;
  leader_id = n.id;
  prev_log_index = next - 1;
  prev_log_term = (term n.log (next - 1)).0;
  entries = take max_append_entries (suffix n.log next);
  leader_commit = n.commit_index;
}

-- replicateOnce up to the RPC.
unfoldable pub replicate_send : ℕ → ℕ → Node → Node × Sending
unfolding send_snapshot entries_request
replicate_send peer t n =
    let next = at_or_zero (Map.get peer n.next_index) in
    if not (leads t n)
    then (n, over)
    else if leb next (first_index n.log)
    then send_snapshot t n
    else (n, entries_to (entries_request t next n))

-- The peers that hold the entry at `idx`, the leader not counted.
unfoldable pub holders : ℕ → List ℕ → Node → ℕ
holders idx [] n = 0
holders idx (p ∷ ps) n =
    let rest = holders idx ps n in
    if leb idx (at_or_zero (Map.get p n.match_index)) then suc rest else rest

-- noteCommitProgressLocked
abbrev pub note_progress : ℕ → Node → Node
note_progress now n = record n {
  last_commit_progress = some now;
  last_progress_index = n.commit_index;
}

-- The loop of maybeAdvanceCommitLocked over idx = commitIndex + rounds, ..., commitIndex + 1.
unfoldable pub advance_loop : ℕ → Node → ℕ → Node
unfolding holders
advance_loop now n zero = n
advance_loop now n (suc k) =
    let idx = n.commit_index + suc k in
    let (t, in_log) = term n.log idx in
    let lower = advance_loop now n k in
    if not in_log || not (t == n.current_term)
    then n
    else if leb (majority n) (1 + holders idx n.peers n)
    then note_progress now (record n { commit_index = idx })
    else lower

unfoldable pub maybe_advance_commit : ℕ → Node → Node
unfolding advance_loop
maybe_advance_commit now n = advance_loop now n (last_index n.log - n.commit_index)

-- noteContactLocked
abbrev pub note_contact : ℕ → ℕ → Node → Node
note_contact now peer n = record n { last_contact = Map.put peer now n.last_contact }

-- The cursors of a follower that holds everything up to `matched`.
unfoldable pub advance_cursors : ℕ → ℕ → Node → Node
advance_cursors peer matched n = record n {
  match_index =
      if ltb (at_or_zero (Map.get peer n.match_index)) matched
      then Map.put peer matched n.match_index
      else n.match_index;
  next_index =
      if ltb (at_or_zero (Map.get peer n.next_index)) (add64 matched 1)
      then Map.put peer (add64 matched 1) n.next_index
      else n.next_index;
}

-- Where nextIndex goes after a rejection (§5.3 fast backup).
unfoldable pub backed_up : RaftLog → ℕ → AppendResponse → ℕ
backed_up l next resp =
    let last = last_index_of_term l resp.conflict_term in
    let moved =
      if not (resp.conflict_term == 0)
      then (if not (last == 0) then add64 last 1 else resp.conflict_index)
      else if not (resp.conflict_index == 0)
      then resp.conflict_index
      else if ltb 1 next
      then next - 1
      else next in
    if ltb moved 1 then 1 else moved

-- replicateOnce from the response on; the pair is (again, alive).
unfoldable pub append_response :
    Env → ℕ → ℕ → AppendRequest → AppendResponse → Node → Node × (Bool × Bool)
unfolding advance_cursors maybe_advance_commit backed_up
append_response env peer t req resp n =
    let heard = note_contact env.now peer n in
    let acked =
      maybe_advance_commit env.now
        (advance_cursors peer (add64 req.prev_log_index (length req.entries)) heard) in
    let next = at_or_zero (Map.get peer n.next_index) in
    if n.stopped
    then (n, (false, false))
    else if ltb n.current_term resp.term
    then (become_follower env resp.term n, (false, false))
    else if not (leads t n)
    then (n, (false, false))
    else if resp.success
    then (acked, (leb (at_or_zero (Map.get peer acked.next_index)) (last_index acked.log), true))
    else (
      record heard { next_index = Map.put peer (backed_up n.log next resp) n.next_index },
      (true, true),
    )

-- The second half of sendSnapshotLocked.
unfoldable pub snapshot_response : Env → ℕ → ℕ → ℕ → ℕ → Node → Node × (Bool × Bool)
unfolding advance_cursors
snapshot_response env peer t snap_index resp_term n =
    if n.stopped
    then (n, (false, false))
    else if ltb n.current_term resp_term
    then (become_follower env resp_term n, (false, false))
    else if not (leads t n)
    then (n, (false, false))
    else (advance_cursors peer snap_index (note_contact env.now peer n), (true, true))
