-- ===== src/Raft/Mirror/Records.antt =====
-- internal/raft/persist.go: what the records of one call add to the log on disk.
use kill_my_cluster.Prelude.{
  ℕ, zero, suc, ◌+◌, ◌-◌, ◌≤◌, ◌<◌, ◌≡◌, refl, ap, ◌∙◌, sym, subst, arith, false, leb, ltb, List,
  [], ◌∷◌, ◌++◌, append_assoc, append-nil, All, map, take, length, ltb→lt, ltb→le, Bool-cases, inl,
  inr,
}
use mathlib.Core.List.{foldl}
use kill_my_cluster.Raft.Log
use kill_my_cluster.Raft.Log.{
  Entry, RaftLog, first_index, last_index, last_of, truncate_from, all_entries,
}
use kill_my_cluster.Raft.Disk.{
  Disk, Persisted, Rec, hard_state, appended, truncated, saved, pop_from, replay_record,
  append_entries, save_hard_state, Snapshot, save_snapshot, snapshot_saved,
}
use kill_my_cluster.Raft.Disk
use kill_my_cluster.Raft.Mirror.{Indexed, blank, replayed, Mirrored}

foldl-append :
    (st : Persisted) (rs ss : List Rec)
    → foldl replay_record st (rs ++ ss) ≡ foldl replay_record (foldl replay_record st rs) ss
foldl-append st [] ss = refl
foldl-append st (r ∷ rs) ss = foldl-append (replay_record st r) rs ss

entries-appended :
    (st : Persisted) (es : List Entry)
    → Persisted.entries (foldl replay_record st (map appended es)) ≡ st.entries ++ es
unfolding replay_record
entries-appended st [] = sym (append-nil st.entries)
entries-appended st (e ∷ es) =
    entries-appended (replay_record st (appended e)) es ∙ append_assoc st.entries (e ∷ []) es

pub replayed-appended :
    (rs : List Rec) (es : List Entry) → replayed (rs ++ map appended es) ≡ replayed rs ++ es
replayed-appended rs es =
    ap Persisted.entries (foldl-append blank rs (map appended es))
    ∙ entries-appended (foldl replay_record blank rs) es

pub replayed-truncated :
    (rs : List Rec) (i : ℕ) → replayed (rs ++ (truncated i ∷ [])) ≡ pop_from i (replayed rs)
unfolding replay_record
replayed-truncated rs i = ap Persisted.entries (foldl-append blank rs (truncated i ∷ []))

pub replayed-hard_state :
    (rs : List Rec) (t v : ℕ) → replayed (rs ++ (hard_state t v ∷ [])) ≡ replayed rs
unfolding replay_record
replayed-hard_state rs t v = ap Persisted.entries (foldl-append blank rs (hard_state t v ∷ []))

pub replayed-rewritten :
    (t v : ℕ) (es : List Entry) → replayed (hard_state t v ∷ map appended es) ≡ es
unfolding replay_record
replayed-rewritten t v es = entries-appended (replay_record blank (hard_state t v)) es

-- Popping stops at the first entry from the end that is below.
pop_from-below : (i : ℕ) (xs : List Entry) → All (λ e. e.index < i) xs → pop_from i xs ≡ xs
unfolding pop_from
pop_from-below i [] all = refl
pop_from-below i (x ∷ xs) all = ground (arith, pop_from-below i xs all.1, all.0)

pop_from-append :
    (i : ℕ) (xs ys : List Entry)
    → All (λ e. e.index < i) xs
    → pop_from i (xs ++ ys) ≡ xs ++ pop_from i ys
unfolding pop_from
pop_from-append i [] ys all = refl
pop_from-append i (x ∷ xs) ys all = ground (arith, pop_from-append i xs ys all.1, all.0)

take_nil : (n : ℕ) → take {A = Entry} n [] ≡ []
take_nil zero = refl
take_nil (suc n) = refl

pop_from_all : (k i : ℕ) (xs : List Entry) → Indexed k xs → i ≤ suc k → pop_from i xs ≡ []
unfolding pop_from
pop_from_all k i [] h le = refl
pop_from_all k i (x ∷ xs) h le = ground (arith, pop_from_all (suc k) i xs h.1, h.0)

-- On consecutive indexes, a truncation on disk is the one in memory.
pop_from-Indexed :
    (k i : ℕ) (xs : List Entry) → Indexed k xs → k < i → pop_from i xs ≡ take (i - k - 1) xs
unfolding pop_from
pop_from-Indexed k i [] h lt = sym (take_nil (i - k - 1))
pop_from-Indexed k i (x ∷ xs) h lt = elim (Bool-cases (ltb (suc k) i)) [
  | inl more ↦
      kept (omega (arith, ltb→lt (suc k) i more))
        (pop_from-Indexed (suc k) i xs h.1 (ltb→lt (suc k) i more))
  | inr last ↦
      pop_from_all k i (x ∷ xs) h (ltb→le (suc k) i last)
      ∙ ap (λ n. take n (x ∷ xs)) (none_left (ltb→le (suc k) i last))
]
  where
    none_left : i ≤ suc k → 0 ≡ i - k - 1
    none_left le = omega arith

    kept :
        i - k - 1 ≡ suc (i - suc k - 1)
        → pop_from i xs ≡ take (i - suc k - 1) xs
        → pop_from i (x ∷ xs) ≡ take (i - k - 1) (x ∷ xs)
    kept e ih = rw (e) (not_popped ∙ ap (λ ys. x ∷ ys) ih)
      where
        not_popped : pop_from i (x ∷ xs) ≡ x ∷ pop_from i xs
        not_popped = ground (arith, h.0)

pub Indexed-take : (k n : ℕ) (xs : List Entry) → Indexed k xs → Indexed k (take n xs)
Indexed-take k zero xs h = tt
Indexed-take k (suc n) [] h = tt
Indexed-take k (suc n) (x ∷ xs) h = (h.0, Indexed-take (suc k) n xs h.1)

pub Indexed-append :
    (k : ℕ) (xs ys : List Entry) → Indexed k xs → Indexed (k + length xs) ys → Indexed k (xs ++ ys)
Indexed-append k [] ys h g = subst (λ n. Indexed n ys) (omega arith) g
Indexed-append k (x ∷ xs) ys h g =
    (h.0, Indexed-append (suc k) xs ys h.1 (subst (λ n. Indexed n ys) (omega arith) g))

pub last_of-Indexed :
    (e : Entry) (xs : List Entry) → Indexed e.index xs → (last_of e xs).index ≡ e.index + length xs
last_of-Indexed e [] h = omega arith
last_of-Indexed e (x ∷ xs) h =
    last_of-Indexed x xs (subst (λ n. Indexed n xs) (sym h.0) h.1) ∙ omega (arith, h.0)

module _ (l : RaftLog) (d : Disk) (m : Mirrored l d) where
  pub append-Mirrored :
      (es : List Entry)
      → Indexed (last_index l) es
      → Mirrored (Log.append l es) (append_entries saved es d).0
  unfolding Log.append append_entries
  append-Mirrored es h = record {
    indexed =
        Indexed-append (first_index l) l.reals es m.indexed
          (subst (λ n. Indexed n es) (last_of-Indexed l.sentinel l.reals m.indexed) h);
    covered = m.covered;
    same =
        replayed-appended d.records es
        ∙ (ap (λ xs. xs ++ es) m.same ∙ append_assoc m.covered l.reals es);
    behind = m.behind;
  }

  pub truncate_from-Mirrored :
      (i : ℕ) → first_index l < i → Mirrored (truncate_from l i) (Disk.truncate_from saved i d).0
  unfolding truncate_from Disk.truncate_from
  truncate_from-Mirrored i lt = rw (past) (record {
    indexed = Indexed-take (first_index l) (i - first_index l - 1) l.reals m.indexed;
    covered = m.covered;
    same =
        replayed-truncated d.records i
        ∙ (ap (pop_from i) m.same
            ∙ (pop_from-append i m.covered l.reals (all_below m.covered m.behind)
                ∙ ap (λ xs. m.covered ++ xs)
                    (pop_from-Indexed (first_index l) i l.reals m.indexed lt)));
    behind = m.behind;
  })
    where
      past : leb i (first_index l) ≡ false
      past = ground arith

      all_below :
          (xs : List Entry)
          → All (λ e. (0 < e.index) × (e.index ≤ first_index l)) xs
          → All (λ e. e.index < i) xs
      all_below [] all = tt
      all_below (x ∷ xs) all = (omega (arith, all.0.1), all_below xs all.1)

  pub save_hard_state-Mirrored : (t v : ℕ) → Mirrored l (save_hard_state saved t v d).0
  unfolding save_hard_state
  save_hard_state-Mirrored t v = record {
    indexed = m.indexed;
    covered = m.covered;
    same = replayed-hard_state d.records t v ∙ m.same;
    behind = m.behind;
  }

-- A new log on disk has what is in memory, and nothing else.
pub save_snapshot-Mirrored :
    (l : RaftLog) (snap : Snapshot) (t v : ℕ) (d : Disk)
    → Indexed (first_index l) l.reals
    → Mirrored l (save_snapshot snapshot_saved snap t v (all_entries l) d).0
unfolding save_snapshot
save_snapshot-Mirrored l snap t v d h = record {
  indexed = h;
  covered = [];
  same = replayed-rewritten t v l.reals;
  behind = tt;
}
