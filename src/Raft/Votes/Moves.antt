-- ===== src/Raft/Votes/Moves.antt =====
-- internal/raft/node.go: the record of votes across a change of term and HandleAppendEntries.
use kill_my_cluster.Prelude.{
  ℕ, zero, suc, ◌<◌, ◌≡◌, refl, sym, ◌⊎◌, inl, inr, arith, Bool, true, false, not, List, [], ◌∷◌,
  Bool-cases, if◌then◌else◌, ltb, ltb→lt,
}
use mathlib.Core.Path.{subst₂}
use kill_my_cluster.Raft.Log.{RaftLog, Entry}
use kill_my_cluster.Raft.Disk.{Disk, Outcome, saved, failed, no_vote, save_hard_state}
use kill_my_cluster.Raft.Disk.Hard.{
  HardState, hard_of, hard_of-save, hard_of-save_failed, hard_of-append_entries,
  hard_of-truncate_from,
}
use kill_my_cluster.Raft.Node.{Node, Env, AppendRequest, become_follower, reset_election_timer}
use kill_my_cluster.Raft.Handlers.{
  adopt, accept, walk, Walk, store_entries, check_entries, hear_leader, advance_commit,
  handle_append_entries,
}
use kill_my_cluster.Raft.Votes.{Grant}
use kill_my_cluster.Raft.Votes.Invariant.{in_memory, on_disk, Honest, Honest-higher, Honest-flushed}

abbrev pub IsHonest : List Grant → Node → Type 0
IsHonest gs n = Honest gs (in_memory n) (on_disk n)

pub same-IsHonest :
    (gs : List Grant) (n m : Node)
    → in_memory m ≡ in_memory n
    → on_disk m ≡ on_disk n
    → IsHonest gs n
    → IsHonest gs m
same-IsHonest gs n m e f h = subst₂ (Honest gs) (sym e) (sym f) h

pub Outcome-cases : (o : Outcome) → (o ≡ saved) ⊎ ((k : ℕ) × (o ≡ failed k))
Outcome-cases saved = inl refl
Outcome-cases (failed k) = inr (k, refl)

-- Saving the hard state that memory has, whether it works or not.
pub saved-Honest :
    (gs : List Grant) (o : Outcome) (d : Disk) (m : HardState)
    → Honest gs m (hard_of d)
    → Honest gs m (hard_of (save_hard_state o m.term m.voted_for d).0)
saved-Honest gs saved d m h =
    rw (hard_of-save m.term m.voted_for d) (Honest-flushed gs m (hard_of d) h)
saved-Honest gs (failed zero) d m h = rw (hard_of-save_failed 0 m.term m.voted_for d) h
saved-Honest gs (failed (suc k)) d m h =
    rw (hard_of-save_failed (suc k) m.term m.voted_for d) (Honest-flushed gs m (hard_of d) h)

pub become_follower-IsHonest :
    (gs : List Grant) (env : Env) (t : ℕ) (n : Node)
    → n.current_term < t
    → IsHonest gs n
    → IsHonest gs (become_follower env t n)
unfolding become_follower
become_follower-IsHonest gs env t n lt h =
    saved-Honest gs env.term_saved n.persist (record { term = t; voted_for = no_vote })
      (Honest-higher gs (in_memory n) (on_disk n) t no_vote lt h)

pub adopt-IsHonest :
    (gs : List Grant) (env : Env) (t : ℕ) (n : Node) → IsHonest gs n → IsHonest gs (adopt env t n)
adopt-IsHonest gs env t n h = elim (Bool-cases (ltb n.current_term t)) [
  | inl up ↦ rw up (become_follower-IsHonest gs env t n (ltb→lt _ _ up) h)
  | inr no_change ↦ rw no_change h
]

-- A handler that first adopts the request's term and then leaves the hard states alone.
pub adopted-IsHonest :
    (gs : List Grant) (env : Env) (t : ℕ) (n m : Node) (b : Bool)
    → in_memory m ≡ in_memory (if b then adopt env t n else n)
    → on_disk m ≡ on_disk (if b then adopt env t n else n)
    → IsHonest gs n
    → IsHonest gs m
adopted-IsHonest gs env t n m true e f h =
    same-IsHonest gs (adopt env t n) m e f (adopt-IsHonest gs env t n h)
adopted-IsHonest gs env t n m false e f h = same-IsHonest gs n m e f h

hard_of-walk :
    (o : Outcome) (l : RaftLog) (d : Disk) (es : List Entry)
    → hard_of (walk o l d es).disk ≡ hard_of d
unfolding walk
hard_of-walk o l d [] = refl
hard_of-walk o l d (e ∷ es) =
    ground (arith, hard_of-walk o l d es, hard_of-truncate_from o e.index d)

module _ (env : Env) (req : AppendRequest) where
  store_entries-memory :
      (w : Walk) (n : Node) → in_memory (store_entries env req w n).0 ≡ in_memory n
  unfolding store_entries accept advance_commit
  store_entries-memory w n = ground arith

  store_entries-disk :
      (w : Walk) (n : Node) → on_disk (store_entries env req w n).0 ≡ hard_of w.disk
  unfolding store_entries accept advance_commit
  store_entries-disk w n =
      ground (arith, hard_of-append_entries env.entries_saved w.new_entries w.disk)

  abbrev walked : Node → Walk
  walked n = walk env.truncation_saved n.log n.persist req.entries

  check_entries-memory : (n : Node) → in_memory (check_entries env req n).0 ≡ in_memory n
  unfolding check_entries
  check_entries-memory n = ground (arith, store_entries-memory (walked n) n)

  check_entries-disk : (n : Node) → on_disk (check_entries env req n).0 ≡ on_disk n
  unfolding check_entries
  check_entries-disk n = ground (
    arith,
    store_entries-disk (walked n) n,
    hard_of-walk env.truncation_saved n.log n.persist req.entries,
  )

  pub handle_append_entries-IsHonest :
      (gs : List Grant) (n : Node) → IsHonest gs n → IsHonest gs (handle_append_entries env req n).0
  unfolding handle_append_entries hear_leader reset_election_timer
  handle_append_entries-IsHonest gs n h =
      adopted-IsHonest gs env req.term n (handle_append_entries env req n).0 (not n.stopped)
        (ground
          (arith, check_entries-memory (hear_leader env req.leader_id (adopt env req.term n))))
        (ground (arith, check_entries-disk (hear_leader env req.leader_id (adopt env req.term n))))
        h
