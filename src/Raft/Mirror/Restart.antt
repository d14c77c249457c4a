-- ===== src/Raft/Mirror/Restart.antt =====
-- internal/raft/persist.go and node.go: the log that NewNode makes of the disk.
use kill_my_cluster.Prelude.{
  ℕ, zero, suc, ◌-◌, ◌≤◌, ◌<◌, ◌≡◌, refl, ap, ◌∙◌, sym, subst, arith, true, false, leb, ltb, ltb→le,
  leb→le, List, [], ◌∷◌, ◌++◌, All, All-append, drop, if_case, Bool-cases, inl, inr,
}
use mathlib.Core.List.{foldl}
use kill_my_cluster.Raft.Log
use kill_my_cluster.Raft.Log.{Entry, RaftLog, marker, new_raft_log, first_index, last_index}
use kill_my_cluster.Raft.Disk.{
  Disk, Rec, Persisted, Snapshot, hard_state, appended, truncated, snapshot_of, no_vote,
  replay_record, live_entries, pop_from, recover,
}
use kill_my_cluster.Raft.Node.{Env, Timings, new_node, reset_election_timer}
use kill_my_cluster.Raft.Mirror.{Indexed, blank, replayed, Mirrored}
use kill_my_cluster.Raft.Mirror.Leader.{drop-Indexed}

-- The entries do not depend on the snapshot that replay starts with.
same_entries :
    (st st' : Persisted) (rs : List Rec)
    → st.entries ≡ st'.entries
    → Persisted.entries (foldl replay_record st rs) ≡ Persisted.entries (foldl replay_record st' rs)
unfolding replay_record
same_entries st st' [] e = e
same_entries st st' (hard_state t v ∷ rs) e =
    same_entries (replay_record st (hard_state t v)) (replay_record st' (hard_state t v)) rs e
same_entries st st' (appended x ∷ rs) e =
    same_entries (replay_record st (appended x)) (replay_record st' (appended x)) rs
      (ap (λ xs. xs ++ (x ∷ [])) e)
same_entries st st' (truncated i ∷ rs) e =
    same_entries (replay_record st (truncated i)) (replay_record st' (truncated i)) rs
      (ap (pop_from i) e)

live-covered :
    (s : ℕ) (xs ys : List Entry)
    → All (λ e. e.index ≤ s) xs
    → live_entries s (xs ++ ys) ≡ live_entries s ys
unfolding live_entries
live-covered s [] ys all = refl
live-covered s (x ∷ xs) ys all = ground (arith, all.0, live-covered s xs ys all.1)

drop_nil : (n : ℕ) → drop {A = Entry} n [] ≡ []
drop_nil zero = refl
drop_nil (suc n) = refl

live-Indexed :
    (k s : ℕ) (xs : List Entry) → Indexed k xs → k ≤ s → live_entries s xs ≡ drop (s - k) xs
unfolding live_entries
live-Indexed k s [] h le = sym (drop_nil (s - k))
live-Indexed k s (x ∷ xs) h le = elim (Bool-cases (leb (suc k) s)) [
  | inl more ↦ dropped more (live-Indexed (suc k) s xs h.1 (leb→le (suc k) s more))
  | inr last ↦ kept last
]
  where
    dropped :
        leb (suc k) s ≡ true
        → live_entries s xs ≡ drop (s - suc k) xs
        → live_entries s (x ∷ xs) ≡ drop (s - k) (x ∷ xs)
    dropped more ih = rw (one_more (leb→le (suc k) s more)) (first more ∙ ih)
      where
        one_more : suc k ≤ s → s - k ≡ suc (s - suc k)
        one_more lt = omega arith

        first : leb (suc k) s ≡ true → live_entries s (x ∷ xs) ≡ live_entries s xs
        first lt = ground (arith, h.0)

    kept : leb (suc k) s ≡ false → live_entries s (x ∷ xs) ≡ drop (s - k) (x ∷ xs)
    kept last = ground (arith, h.0)

-- The entries that are dropped are those that a snapshot covers.
record Split (s : ℕ) (xs : List Entry) : Type 0 where
  dropped : List Entry
  together : xs ≡ dropped ++ live_entries s xs
  covered : All (λ e. (0 < e.index) × (e.index ≤ s)) dropped

live_entries-Split : (s : ℕ) (xs : List Entry) → All (λ e. 0 < e.index) xs → Split s xs
unfolding live_entries
live_entries-Split s [] all = record { dropped = []; together = refl; covered = tt }
live_entries-Split s (x ∷ xs) all = elim (Bool-cases (leb x.index s)) [
  | inl old ↦ more old (live_entries-Split s xs all.1)
  | inr new ↦ record { dropped = []; together = rw (new, live_entries) refl; covered = tt }
]
  where
    more : leb x.index s ≡ true → Split s xs → Split s (x ∷ xs)
    more old r = record {
      dropped = x ∷ r.dropped;
      together = rw (old, live_entries) (ap (λ ys. x ∷ ys) r.together);
      covered = ((all.0, leb→le x.index s old), r.covered);
    }

positive : (k : ℕ) (xs : List Entry) → Indexed k xs → All (λ e. 0 < e.index) xs
positive k [] h = tt
positive k (x ∷ xs) h = (omega (arith, h.0), positive (suc k) xs h.1)

weaker :
    (k s : ℕ) (xs : List Entry)
    → k ≤ s
    → All (λ e. (0 < e.index) × (e.index ≤ k)) xs
    → All (λ e. e.index ≤ s) xs
weaker k s [] le all = tt
weaker k s (x ∷ xs) le all = (omega (arith, all.0.1), weaker k s xs le all.1)

real_ones :
    (k : ℕ) (xs : List Entry)
    → All (λ e. (0 < e.index) × (e.index ≤ k)) xs
    → All (λ e. 0 < e.index) xs
real_ones k [] all = tt
real_ones k (x ∷ xs) all = (all.0.0, real_ones k xs all.1)

none_before : (xs : List Entry) → All (λ e. (0 < e.index) × (e.index ≤ 0)) xs → xs ≡ []
none_before [] all = refl
none_before (x ∷ xs) all = absurd (omega (arith, all.0.0, all.0.1))

-- What the disk's snapshot stands for.
abbrev pub snapped : Disk → Snapshot
snapped d = snapshot_of d.snapshot

module _ (l : RaftLog) (d : Disk) (m : Mirrored l d)
    (within : first_index l ≤ (snapped d).index) where
  pub recovered : (recover d).entries ≡ drop ((snapped d).index - first_index l) l.reals
  unfolding recover
  recovered =
      if_case (λ xs. xs ≡ drop ((snapped d).index - first_index l) l.reals)
        (ltb 0 (snapped d).index) _ _
        (λ _.
          ap (live_entries (snapped d).index) stored
          ∙ (live-covered (snapped d).index m.covered l.reals
                (weaker (first_index l) (snapped d).index m.covered within m.behind)
              ∙ live-Indexed (first_index l) (snapped d).index l.reals m.indexed within))
        (λ zero. stored ∙ unsnapped (ltb→le 0 (snapped d).index zero))
    where
      start : Persisted
      start = record { term = 0; voted_for = no_vote; entries = []; snap = snapped d }

      stored : Persisted.entries (foldl replay_record start d.records) ≡ m.covered ++ l.reals
      stored = same_entries start blank d.records refl ∙ m.same

      unsnapped :
          (snapped d).index ≤ 0
          → m.covered ++ l.reals ≡ drop ((snapped d).index - first_index l) l.reals
      unsnapped le =
          ap (λ xs. xs ++ l.reals)
            (none_before m.covered
              (subst (λ k. All (λ e. (0 < e.index) × (e.index ≤ k)) m.covered) first_zero m.behind))
          ∙ ap (λ n. drop n l.reals) no_gap
        where
          first_zero : first_index l ≡ 0
          first_zero = omega (arith, le)

          no_gap : 0 ≡ (snapped d).index - first_index l
          no_gap = omega (arith, le)

  -- The log that NewNode makes of the disk.
  abbrev pub reborn : RaftLog
  reborn = record {
    sentinel = marker (snapped d).index (snapped d).term;
    reals = (recover d).entries;
  }

  pub reborn-Mirrored : Mirrored reborn d
  unfolding recover
  reborn-Mirrored = record {
    indexed = subst (Indexed (snapped d).index) (sym recovered) (
        subst (λ k. Indexed k (drop ((snapped d).index - first_index l) l.reals)) (omega arith)
          (drop-Indexed (first_index l) ((snapped d).index - first_index l) l.reals m.indexed));
    covered = split.0;
    same = stored ∙ split.1;
    behind = split.2;
  }
    where
      start : Persisted
      start = record { term = 0; voted_for = no_vote; entries = []; snap = snapped d }

      replayed_now : List Entry
      replayed_now = Persisted.entries (foldl replay_record start d.records)

      stored : replayed d.records ≡ replayed_now
      stored = same_entries blank start d.records refl

      all_real : All (λ e. 0 < e.index) replayed_now
      all_real =
          subst (λ xs. All (λ e. 0 < e.index) xs) (sym m.same ∙ stored)
            (All-append (λ e. 0 < e.index) m.covered l.reals
              (real_ones (first_index l) m.covered m.behind)
              (positive (first_index l) l.reals m.indexed))

      Parts : List Entry → Type 0
      Parts xs =
          (dropped : List Entry) × (replayed_now ≡ dropped ++ xs)
          × All (λ e. (0 < e.index) × (e.index ≤ (snapped d).index)) dropped

      split : Parts (recover d).entries
      split =
          if_case Parts (ltb 0 (snapped d).index) _ _
            (λ _. parts (live_entries-Split (snapped d).index replayed_now all_real))
            (λ _. ([], refl, tt))
        where
          parts :
              Split (snapped d).index replayed_now
              → Parts (live_entries (snapped d).index replayed_now)
          parts r = (r.dropped, r.together, r.covered)

same_snap : (st : Persisted) (rs : List Rec) → Persisted.snap (foldl replay_record st rs) ≡ st.snap
unfolding replay_record
same_snap st [] = refl
same_snap st (hard_state t v ∷ rs) = same_snap (replay_record st (hard_state t v)) rs
same_snap st (appended x ∷ rs) = same_snap (replay_record st (appended x)) rs
same_snap st (truncated i ∷ rs) = same_snap (replay_record st (truncated i)) rs

pub reborn_log :
    (env : Env) (id : ℕ) (peers : List ℕ) (tm : Timings) (retain : ℕ) (d : Disk)
    → (new_node env id peers tm retain d).log
      ≡ record { sentinel = marker (snapped d).index (snapped d).term; reals = (recover d).entries }
unfolding new_node reset_election_timer Log.append recover
reborn_log env id peers tm retain d =
    ap {A = Snapshot}
      (λ sn. record { sentinel = marker sn.index sn.term; reals = (recover d).entries })
      (same_snap (record { term = 0; voted_for = no_vote; entries = []; snap = snapped d })
        d.records)
