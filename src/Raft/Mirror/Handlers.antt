-- ===== src/Raft/Mirror/Handlers.antt =====
-- internal/raft/node.go and batch.go: the log in memory and the log on disk, across the handlers, where
-- their writes succeed.
use kill_my_cluster.Prelude.{
  ℕ, suc, ◌+◌, ◌-◌, ◌≤◌, ◌<◌, ◌≡◌, sym, subst, arith, false, not, ◌&&◌, ◌||◌, ◌==◌, leb, ltb,
  ltb→lt, ltb→le, leb→le, List, [], ◌∷◌, length, length-take, take, if_case,
}
use kill_my_cluster.Raft.Log
use kill_my_cluster.Raft.Log.{
  Entry, RaftLog, marker, new_raft_log, first_index, last_index, last_of, term, compact_to,
  all_entries,
}
use kill_my_cluster.Raft.Disk.{
  Disk, no_vote, saved, snapshot_saved, save_hard_state, append_entries,
}
use kill_my_cluster.Raft.Node.{
  Node, Env, AppendRequest, AppendResponse, VoteRequest, VoteResponse, become_follower,
  reset_election_timer, heard_leader_recently,
}
use kill_my_cluster.Raft.Handlers.{
  up_to_date, is_nil, Walk, walk, adopt, accept, advance_commit, store_entries, check_entries,
  hear_leader, handle_append_entries, grant_vote, handle_request_vote,
}
use kill_my_cluster.Raft.Mirror.{Indexed, Mirrored}
use kill_my_cluster.Raft.Mirror.Records.{
  Indexed-take, last_of-Indexed, append-Mirrored, truncate_from-Mirrored, save_hard_state-Mirrored,
}

abbrev pub IsMirrored : Node → Type 0
IsMirrored n = Mirrored n.log n.persist

-- All writes succeed.
pub record Succeeds (env : Env) : Type 0 where
  pub term_ok : env.term_saved ≡ saved
  pub vote_ok : env.vote_saved ≡ saved
  pub truncation_ok : env.truncation_saved ≡ saved
  pub entries_ok : env.entries_saved ≡ saved
  pub image_ok : env.image_saved ≡ snapshot_saved

-- What the walk leaves fits together: the log that is kept, and the entries that follow it.
record Walked (w : Walk) : Type 0 where
  mirrored : Mirrored w.log w.disk
  next : Indexed (last_index w.log) w.new_entries

last_index-cut :
    (l : RaftLog) (i : ℕ)
    → Indexed (first_index l) l.reals
    → first_index l < i
    → i ≤ last_index l
    → last_index (Log.truncate_from l i) + 1 ≡ i
unfolding Log.truncate_from
last_index-cut l i h lo hi = rw (past) (
    omega (
      arith,
      last_of-Indexed l.sentinel (take (i - first_index l - 1) l.reals)
          (Indexed-take (first_index l) (i - first_index l - 1) l.reals h),
      length-take (i - first_index l - 1) l.reals
          (omega (arith, last_of-Indexed l.sentinel l.reals h)),
    ))
  where
    past : leb i (first_index l) ≡ false
    past = ground arith

walk-Walked :
    (es : List Entry) (p : ℕ) (l : RaftLog) (d : Disk)
    → Mirrored l d
    → Indexed p es
    → p ≤ last_index l
    → Walked (walk saved l d es)
unfolding walk
walk-Walked [] p l d m h le = record { mirrored = m; next = tt }
walk-Walked (e ∷ es) p l d m h le = cases (walk-Walked es (suc p) l d m h.1)
  where
    ends : last_index l ≡ first_index l + length l.reals
    ends = last_of-Indexed l.sentinel l.reals m.indexed

    whole : last_index l ≡ p → Indexed (last_index l) (e ∷ es)
    whole q = subst (λ n. Indexed n (e ∷ es)) (sym q) h

    cut :
        first_index l < e.index
        → e.index ≤ last_index l
        → Indexed (last_index (Log.truncate_from l e.index)) (e ∷ es)
    cut lo hi =
        subst (λ n. Indexed n (e ∷ es))
          (omega (arith, last_index-cut l e.index m.indexed lo hi, h.0)) h

    cases : (suc p ≤ last_index l → Walked (walk saved l d es)) → Walked (walk saved l d (e ∷ es))
    cases skip =
        unfold walk in
        if_case Walked (leb e.index (first_index l)) _ _
          (λ old. skip (omega (arith, leb→le e.index (first_index l) old, ends, h.0)))
          (λ past.
            if_case Walked (ltb (last_index l) e.index) _ _
              (λ new. record {
                mirrored = m;
                next = whole (omega (arith, ltb→lt (last_index l) e.index new, h.0));
              })
              (λ there.
                if_case Walked (not ((term l e.index).0 == e.term)) _ _
                  (λ _. record {
                    mirrored = truncate_from-Mirrored l d m e.index (ground arith);
                    next = cut (ground arith) (ltb→le (last_index l) e.index there);
                  })
                  (λ _. skip (omega (arith, ltb→le (last_index l) e.index there, h.0)))))

module _ (env : Env) (ok : Succeeds env) where
  pub become_follower-Mirrored :
      (t : ℕ) (n : Node) → IsMirrored n → IsMirrored (become_follower env t n)
  unfolding become_follower reset_election_timer
  become_follower-Mirrored t n m =
      rw (ok.term_ok) (save_hard_state-Mirrored n.log n.persist m t no_vote)

  pub adopt-Mirrored : (t : ℕ) (n : Node) → IsMirrored n → IsMirrored (adopt env t n)
  adopt-Mirrored t n m =
      if_case IsMirrored (ltb n.current_term t) _ _ (λ _. become_follower-Mirrored t n m) (λ _. m)

  pub hear_leader-Mirrored : (l : ℕ) (n : Node) → IsMirrored n → IsMirrored (hear_leader env l n)
  unfolding hear_leader reset_election_timer
  hear_leader-Mirrored l n m = m

  grant_vote-Mirrored :
      (req : VoteRequest) (n : Node) → IsMirrored n → IsMirrored (grant_vote env req n).0
  unfolding grant_vote reset_election_timer save_hard_state
  grant_vote-Mirrored req n m =
      if_case Q (not (n.voted_for == no_vote) && not (n.voted_for == req.candidate_id)) _ _ (λ _. m)
        (λ _.
          if_case Q (not (up_to_date req n.log)) _ _ (λ _. m)
            (λ _.
              rw (ok.vote_ok)
                (save_hard_state-Mirrored n.log n.persist m n.current_term req.candidate_id)))
    where
      Q : Node × VoteResponse → Type 0
      Q r = IsMirrored r.0

  pub handle_request_vote-Mirrored :
      (req : VoteRequest) (n : Node) → IsMirrored n → IsMirrored (handle_request_vote env req n).0
  unfolding handle_request_vote
  handle_request_vote-Mirrored req n m =
      if_case Q n.stopped _ _ (λ _. m)
        (λ _.
          if_case Q req.pre_vote _ _ (λ _. m)
            (λ _.
              if_case Q (ltb n.current_term req.term && heard_leader_recently env n) _ _ (λ _. m)
                (λ _.
                  if_case Q (ltb req.term n'.current_term) _ _ (λ _. adopted)
                    (λ _. granted adopted))))
    where
      Q : Node × VoteResponse → Type 0
      Q r = IsMirrored r.0

      n' : Node
      n' = adopt env req.term n

      adopted : IsMirrored n'
      adopted = adopt-Mirrored req.term n m

      granted : IsMirrored n' → IsMirrored (grant_vote env req n').0
      granted a = grant_vote-Mirrored req n' a

  accept-Mirrored : (req : AppendRequest) (n : Node) → IsMirrored n → IsMirrored (accept req n).0
  unfolding accept advance_commit
  accept-Mirrored req n m =
      if_case IsMirrored (ltb n.commit_index req.leader_commit) _ _ (λ _. m) (λ _. m)

  store_entries-Mirrored :
      (req : AppendRequest) (w : Walk) (n : Node)
      → Walked w
      → IsMirrored (store_entries env req w n).0
  unfolding store_entries append_entries
  store_entries-Mirrored req w n k =
      if_case Q (not w.ok) _ _ (λ _. k.mirrored)
        (λ _.
          if_case Q (is_nil w.new_entries) _ _
            (λ _. accept-Mirrored req (record n { log = w.log; persist = w.disk }) k.mirrored)
            (λ _. rw (ok.entries_ok) (
              accept-Mirrored req stored
                (append-Mirrored w.log w.disk k.mirrored w.new_entries k.next))))
    where
      Q : Node × AppendResponse → Type 0
      Q r = IsMirrored r.0

      stored : Node
      stored = record n {
        log = Log.append w.log w.new_entries;
        persist = (append_entries saved w.new_entries w.disk).0;
      }

  -- The entries of a request follow its prevLogIndex.
  abbrev pub IsWellFormed : AppendRequest → Type 0
  IsWellFormed req = Indexed req.prev_log_index req.entries

  check_entries-Mirrored :
      (req : AppendRequest) (n : Node)
      → IsWellFormed req
      → IsMirrored n
      → IsMirrored (check_entries env req n).0
  unfolding check_entries
  check_entries-Mirrored req n fit m =
      if_case Q (ltb (last_index n.log) req.prev_log_index) _ _ (λ _. m)
        (λ there.
          if_case Q
            (leb (first_index n.log) req.prev_log_index
              && (not (term n.log req.prev_log_index).1
                  || not ((term n.log req.prev_log_index).0 == req.prev_log_term)))
            _ _ (λ _. m)
            (λ _.
              store_entries-Mirrored req (walk env.truncation_saved n.log n.persist req.entries) n (
                subst (λ o. Walked (walk o n.log n.persist req.entries)) (sym ok.truncation_ok)
                  (walk-Walked req.entries req.prev_log_index n.log n.persist m fit
                    (ltb→le (last_index n.log) req.prev_log_index there)))))
    where
      Q : Node × AppendResponse → Type 0
      Q r = IsMirrored r.0

  pub handle_append_entries-Mirrored :
      (req : AppendRequest) (n : Node)
      → IsWellFormed req
      → IsMirrored n
      → IsMirrored (handle_append_entries env req n).0
  unfolding handle_append_entries
  handle_append_entries-Mirrored req n fit m =
      if_case Q n.stopped _ _ (λ _. m)
        (λ _.
          if_case Q (ltb req.term n'.current_term) _ _ (λ _. adopted)
            (λ _. check_entries-Mirrored req (hear_leader env req.leader_id n') fit heard))
    where
      Q : Node × AppendResponse → Type 0
      Q r = IsMirrored r.0

      n' : Node
      n' = adopt env req.term n

      adopted : IsMirrored n'
      adopted = adopt-Mirrored req.term n m

      heard : IsMirrored (hear_leader env req.leader_id n')
      heard = hear_leader-Mirrored req.leader_id n' adopted
