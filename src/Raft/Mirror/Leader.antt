-- ===== src/Raft/Mirror/Leader.antt =====
-- internal/raft/batch.go and node.go: the log in memory and the log on disk, across batches of proposals
-- and snapshots, where their writes succeed.
use kill_my_cluster.Prelude.{
  ℕ, zero, suc, ◌+◌, ◌-◌, ◌<◌, ◌≡◌, ap, ◌∙◌, sym, subst, arith, Bool, false, not, ◌&&◌, leb, ltb,
  List, [], ◌∷◌, ◌++◌, append-nil, append_assoc, length, drop, if_case,
}
use kill_my_cluster.Prelude.Bytes.{Bytes, add64, u64_mod}
use kill_my_cluster.Raft.Log
use kill_my_cluster.Raft.Log.{
  Entry, RaftLog, marker, new_raft_log, first_index, last_index, last_of, term, compact_to,
  all_entries,
}
use kill_my_cluster.Raft.Log.Shape.{last_of-append}
use kill_my_cluster.Raft.Disk.{saved, append_entries, save_snapshot}
use kill_my_cluster.Raft.Node.{Node, Env, SnapshotRequest, is_leader}
use kill_my_cluster.Raft.Handlers.{
  adopt, hear_leader, install_snapshot, handle_install_snapshot, cut_point, compact_if_there,
  snapshot,
}
use kill_my_cluster.Raft.Leader.{assign, commit_prop_batch, PropResult}
use kill_my_cluster.Raft.Mirror.{Indexed, Mirrored}
use kill_my_cluster.Raft.Mirror.Records.{append-Mirrored, save_snapshot-Mirrored}
use kill_my_cluster.Raft.Mirror.Handlers.{
  IsMirrored, Succeeds, adopt-Mirrored, hear_leader-Mirrored,
}

-- A batch goes to the end of the log.
assign-append :
    (t : ℕ) (l : RaftLog) (batch : List Bytes)
    → (assign t l batch).0 ≡ Log.append l (assign t l batch).1
unfolding assign Log.append
assign-append t l [] =
    ap {A = List Entry} (λ xs. record l { reals = xs }) (sym (append-nil l.reals))
assign-append t l (b ∷ batch) =
    assign-append t l' batch
    ∙ ap {A = List Entry} (λ xs. record l { reals = xs })
        (append_assoc l.reals (e ∷ []) (assign t l' batch).1)
  where
    e : Entry
    e = record { index = add64 (last_index l) 1; term = t; payload = b }

    l' : RaftLog
    l' = record l { reals = l.reals ++ (e ∷ []) }

assign-Indexed :
    (t : ℕ) (l : RaftLog) (batch : List Bytes)
    → last_index l + length batch < u64_mod
    → Indexed (last_index l) (assign t l batch).1
unfolding assign Log.append
assign-Indexed t l [] room = tt
assign-Indexed t l (b ∷ batch) room = (
  next,
  subst (λ n. Indexed n (assign t l' batch).1) (last ∙ next)
      (assign-Indexed t l' batch (omega (arith, last, next))),
)
  where
    e : Entry
    e = record { index = add64 (last_index l) 1; term = t; payload = b }

    l' : RaftLog
    l' = record l { reals = l.reals ++ (e ∷ []) }

    next : e.index ≡ suc (last_index l)
    next = omega arith

    last : last_index l' ≡ e.index
    last = ap Entry.index (last_of-append l.sentinel l.reals (e ∷ []))

pub drop-Indexed : (k n : ℕ) (xs : List Entry) → Indexed k xs → Indexed (k + n) (drop n xs)
drop-Indexed k zero xs h = subst (λ j. Indexed j xs) (omega arith) h
drop-Indexed k (suc n) [] h = tt
drop-Indexed k (suc n) (x ∷ xs) h =
    subst (λ j. Indexed j (drop n xs)) (omega arith) (drop-Indexed (suc k) n xs h.1)

abbrev IsIndexed : RaftLog → Type 0
IsIndexed l = Indexed (first_index l) l.reals

compact_to-IsIndexed : (l : RaftLog) (index t : ℕ) → IsIndexed l → IsIndexed (compact_to l index t)
unfolding compact_to
compact_to-IsIndexed l index t h =
    if_case IsIndexed (leb index (first_index l)) _ _ (λ _. h)
      (λ past.
        if_case IsIndexed (ltb index (last_index l)) _ _
          (λ _.
            subst (λ j. Indexed j (drop (index - first_index l) l.reals)) (sum past)
              (drop-Indexed (first_index l) (index - first_index l) l.reals h))
          (λ _. tt))
  where
    sum : leb index (first_index l) ≡ false → first_index l + (index - first_index l) ≡ index
    sum past = ground arith

compact_if_there-IsIndexed :
    (l : RaftLog) (cut : ℕ) → IsIndexed l → IsIndexed (compact_if_there l cut)
compact_if_there-IsIndexed l cut h =
    if_case IsIndexed (ltb (first_index l) cut && (term l cut).1) _ _
      (λ _. compact_to-IsIndexed l cut (term l cut).0 h) (λ _. h)

module _ (env : Env) (ok : Succeeds env) where
  pub commit_prop_batch-Mirrored :
      (batch : List Bytes) (n : Node)
      → last_index n.log + length batch < u64_mod
      → IsMirrored n
      → IsMirrored (commit_prop_batch env batch n).0
  unfolding commit_prop_batch append_entries
  commit_prop_batch-Mirrored batch n room m =
      if_case Q (not (is_leader n.role)) _ _ (λ _. m)
        (λ _. rw (ok.entries_ok) (
          subst (λ l. Mirrored l (append_entries saved es n.persist).0)
            (sym (assign-append n.current_term n.log batch))
            (append-Mirrored n.log n.persist m es
              (assign-Indexed n.current_term n.log batch room))))
    where
      Q : Node × List PropResult → Type 0
      Q r = IsMirrored r.0

      es : List Entry
      es = (assign n.current_term n.log batch).1

  pub snapshot-Mirrored :
      (index : ℕ) (payload : Bytes) (n : Node)
      → IsMirrored n
      → IsMirrored (snapshot env index payload n).0
  unfolding snapshot save_snapshot
  snapshot-Mirrored index payload n m =
      if_case Q (leb index (first_index n.log)) _ _ (λ _. m)
        (λ _.
          if_case Q (ltb n.last_applied index) _ _ (λ _. m)
            (λ _.
              if_case Q (not (term n.log index).1) _ _ (λ _. m)
                (λ _. rw (ok.image_ok) (
                  save_snapshot-Mirrored l
                    (record { index = index; term = (term n.log index).0; payload = payload })
                    n.current_term n.voted_for n.persist
                    (compact_if_there-IsIndexed n.log (cut_point n.snapshot_retain index)
                      m.indexed)))))
    where
      Q : Node × Bool → Type 0
      Q r = IsMirrored r.0

      l : RaftLog
      l = compact_if_there n.log (cut_point n.snapshot_retain index)

  install_snapshot-Mirrored :
      (req : SnapshotRequest) (n : Node) → IsMirrored n → IsMirrored (install_snapshot env req n)
  unfolding install_snapshot save_snapshot
  install_snapshot-Mirrored req n m = rw (ok.image_ok) (
      save_snapshot-Mirrored (compact_to n.log req.last_included_index req.last_included_term)
        (record {
          index = req.last_included_index;
          term = req.last_included_term;
          payload = req.payload;
        })
        n.current_term n.voted_for n.persist
        (compact_to-IsIndexed n.log req.last_included_index req.last_included_term m.indexed))

  pub handle_install_snapshot-Mirrored :
      (req : SnapshotRequest) (n : Node)
      → IsMirrored n
      → IsMirrored (handle_install_snapshot env req n).0
  unfolding handle_install_snapshot
  handle_install_snapshot-Mirrored req n m =
      if_case Q n.stopped _ _ (λ _. m)
        (λ _.
          if_case Q (ltb req.term n'.current_term) _ _ (λ _. adopted)
            (λ _.
              if_case Q (leb req.last_included_index heard.commit_index) _ _ (λ _. heard_too)
                (λ _. install_snapshot-Mirrored req heard heard_too)))
    where
      Q : Node × ℕ → Type 0
      Q r = IsMirrored r.0

      n' : Node
      n' = adopt env req.term n

      adopted : IsMirrored n'
      adopted = adopt-Mirrored env ok req.term n m

      heard : Node
      heard = hear_leader env req.leader_id n'

      heard_too : IsMirrored heard
      heard_too = hear_leader-Mirrored env ok req.leader_id n' adopted
