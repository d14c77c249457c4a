-- ===== src/Raft/Handlers.antt =====
-- internal/raft/node.go: the three RPC handlers and Snapshot, the receiving side of the protocol.
use kill_my_cluster.Prelude.{
  nat_eq, ℕ, ◌-◌, min, max, not, ◌==◌, Bool, true, false, ◌&&◌, ◌||◌, some, List, [], ◌∷◌, leb, ltb,
  if◌then◌else◌, length,
}
use kill_my_cluster.Prelude.Bytes.{Bytes, add64}
use kill_my_cluster.Raft.Log
use kill_my_cluster.Raft.Log.{
  Entry, RaftLog, first_index, last_index, last_term, term, first_index_of_term, compact_to,
  all_entries,
}
use kill_my_cluster.Raft.Disk
use kill_my_cluster.Raft.Disk.{
  Disk, Outcome, SnapshotOutcome, Snapshot, no_vote, save_hard_state, append_entries, save_snapshot,
}
use kill_my_cluster.Raft.Node.{
  Node, Env, VoteRequest, VoteResponse, AppendRequest, AppendResponse, SnapshotRequest, follower,
  reset_election_timer, heard_leader_recently, become_follower,
}

-- The election restriction (§5.4.1).
abbrev pub up_to_date : VoteRequest → RaftLog → Bool
up_to_date req l =
    ltb (last_term l) req.last_log_term
    || (req.last_log_term == last_term l && leb (last_index l) req.last_log_index)

abbrev vote : Node → Bool → VoteResponse
vote n granted = record { term = n.current_term; vote_granted = granted }

-- `if req.Term > n.currentTerm { n.becomeFollowerLocked(req.Term) }`
abbrev pub adopt : Env → ℕ → Node → Node
adopt env term n = if ltb n.current_term term then become_follower env term n else n

-- The part of HandleRequestVote behind the term checks.
unfoldable pub grant_vote : Env → VoteRequest → Node → Node × VoteResponse
grant_vote env req n =
    if not (n.voted_for == no_vote) && not (n.voted_for == req.candidate_id)
    then (n, vote n false)
    else if not (up_to_date req n.log)
    then (n, vote n false)
    else let (disk, saved) =
        save_hard_state env.vote_saved n.current_term req.candidate_id n.persist in
      if saved
      then (
        reset_election_timer env (record n { voted_for = req.candidate_id; persist = disk }),
        vote n true,
      )
      else (record n { voted_for = no_vote; persist = disk }, vote n false)

unfoldable pub handle_request_vote : Env → VoteRequest → Node → Node × VoteResponse
handle_request_vote env req n =
    if n.stopped
    then (n, vote n false)
    else if req.pre_vote
    then (
      n,
      vote n (
          not (leb req.term n.current_term)
          && (not (heard_leader_recently env n) && up_to_date req n.log)),
    )
    else if ltb n.current_term req.term && heard_leader_recently env n
    then (n, vote n false)
    else let n' = adopt env req.term n in
      if ltb req.term n'.current_term then (n', vote n' false) else grant_vote env req n'

abbrev pub refuse : Node → ℕ → ℕ → AppendResponse
refuse n index term = record {
  term = n.current_term;
  success = false;
  conflict_index = index;
  conflict_term = term;
}

-- The loop over the incoming entries: the log and the disk, which a conflict truncates, the entries
-- that are left to append, and whether the truncation was saved.
pub record Walk : Type 0 where
  pub log : RaftLog
  pub disk : Disk
  pub new_entries : List Entry
  pub ok : Bool

unfoldable pub walk : Outcome → RaftLog → Disk → List Entry → Walk
walk o l d [] = record { log = l; disk = d; new_entries = []; ok = true }
walk o l d (e ∷ es) =
    let skip = walk o l d es in
    let (d', saved) = Disk.truncate_from o e.index d in
    if leb e.index (first_index l)
    then skip
    else if ltb (last_index l) e.index
    then record { log = l; disk = d; new_entries = e ∷ es; ok = true }
    else if not ((term l e.index).0 == e.term)
    then record { log = Log.truncate_from l e.index; disk = d'; new_entries = e ∷ es; ok = saved }
    else skip

-- `min(req.LeaderCommit, max(lastNew, n.commitIndex))`
unfoldable pub advance_commit : AppendRequest → Node → Node
advance_commit req n =
    if ltb n.commit_index req.leader_commit
    then record n {
      commit_index =
          min req.leader_commit
            (max (add64 req.prev_log_index (length req.entries)) n.commit_index);
    }
    else n

abbrev pub is_nil : List Entry → Bool
is_nil [] = true
is_nil (x ∷ xs) = false

unfoldable pub accept : AppendRequest → Node → Node × AppendResponse
accept req n = (advance_commit req n, record (refuse n 0 0) { success = true })

-- Append what is new, to memory first and then to disk.
unfoldable pub store_entries : Env → AppendRequest → Walk → Node → Node × AppendResponse
store_entries env req w n =
    let walked = record n { log = w.log; persist = w.disk } in
    let (disk, saved) = append_entries env.entries_saved w.new_entries w.disk in
    let stored = record n { log = Log.append w.log w.new_entries; persist = disk } in
    if not w.ok
    then (walked, refuse n 0 0)
    else if is_nil w.new_entries
    then accept req walked
    else if saved
    then accept req stored
    else (stored, refuse n 0 0)

-- The consistency check (§5.3), and then the entries.
unfoldable pub check_entries : Env → AppendRequest → Node → Node × AppendResponse
check_entries env req n =
    let (our_term, in_log) = term n.log req.prev_log_index in
    let first = first_index_of_term n.log our_term in
    let go = store_entries env req (walk env.truncation_saved n.log n.persist req.entries) n in
    if ltb (last_index n.log) req.prev_log_index
    then (n, refuse n (add64 (last_index n.log) 1) 0)
    else if leb (first_index n.log) req.prev_log_index
        && (not in_log || not (our_term == req.prev_log_term))
    then (n, refuse n (if first == 0 then add64 (first_index n.log) 1 else first) our_term)
    else go

-- What a message from the leader of the current term does before its content is looked at.
unfoldable pub hear_leader : Env → ℕ → Node → Node
unfolding reset_election_timer
hear_leader env leader_id n =
    reset_election_timer env
      (record n { role = follower; leader_id = leader_id; election_attempts = 0 })

unfoldable pub handle_append_entries : Env → AppendRequest → Node → Node × AppendResponse
handle_append_entries env req n =
    let n' = adopt env req.term n in
    if n.stopped
    then (n, refuse n 0 0)
    else if ltb req.term n'.current_term
    then (n', refuse n' 0 0)
    else check_entries env req (hear_leader env req.leader_id n')

-- The response is the term.
unfoldable pub install_snapshot : Env → SnapshotRequest → Node → Node
install_snapshot env req n =
    let l = compact_to n.log req.last_included_index req.last_included_term in
    let snap : Snapshot = record {
      index = req.last_included_index;
      term = req.last_included_term;
      payload = req.payload;
    } in
    let (disk, saved) =
      save_snapshot env.image_saved snap n.current_term n.voted_for (all_entries l) n.persist in
    if saved
    then record n {
      log = l;
      persist = disk;
      snap_cache = snap;
      commit_index = req.last_included_index;
      last_applied = req.last_included_index;
      pending_snapshot = some snap;
    }
    else record n { log = l; persist = disk }

unfoldable pub handle_install_snapshot : Env → SnapshotRequest → Node → Node × ℕ
handle_install_snapshot env req n =
    let n' = adopt env req.term n in
    let heard = hear_leader env req.leader_id n' in
    if n.stopped
    then (n, n.current_term)
    else if ltb req.term n'.current_term
    then (n', n'.current_term)
    else if leb req.last_included_index heard.commit_index
    then (heard, n'.current_term)
    else (install_snapshot env req heard, n'.current_term)

-- Where Snapshot cuts the log: `retain` entries stay behind the snapshot point.
abbrev pub cut_point : ℕ → ℕ → ℕ
cut_point retain index =
    if ltb 0 retain then (if ltb retain index then index - retain else 0) else index

abbrev pub compact_if_there : RaftLog → ℕ → RaftLog
compact_if_there l cut =
    if ltb (first_index l) cut && (term l cut).1 then compact_to l cut (term l cut).0 else l

-- The state machine's request to compact; the bool says that no error was returned.
unfoldable pub snapshot : Env → ℕ → Bytes → Node → Node × Bool
snapshot env index payload n =
    let (snap_term, in_log) = term n.log index in
    let l = compact_if_there n.log (cut_point n.snapshot_retain index) in
    let snap : Snapshot = record { index = index; term = snap_term; payload = payload } in
    let (disk, saved) =
      save_snapshot env.image_saved snap n.current_term n.voted_for (all_entries l) n.persist in
    if leb index (first_index n.log)
    then (n, true)
    else if ltb n.last_applied index
    then (n, false)
    else if not in_log
    then (n, false)
    else if saved
    then (record n { log = l; persist = disk; snap_cache = snap }, true)
    else (record n { log = l; persist = disk }, false)
