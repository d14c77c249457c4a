-- ===== src/Raft/Log/Shape.antt =====
-- internal/raft/log.go: the log's shape, consecutive indexes after the sentinel and rising terms.
use kill_my_cluster.Prelude.{
  ℕ, zero, suc, ◌+◌, ◌-◌, ◌≤◌, ◌<◌, ◌≡◌, refl, arith, true, some, List, [], ◌∷◌, ◌++◌, length,
  get_elem?, take, drop,
}
use native.Mathlib.Decide.{dec_lt}
use kill_my_cluster.Raft.Log.{
  Entry, RaftLog, marker, new_raft_log, last_of, first_index, last_index, entry_at, term, entry,
  append, truncate_from, compact_to,
}

-- Each entry follows the one before it: the next index, and a term that is no smaller.
abbrev pub IsChain : Entry → List Entry → Type 0
IsChain e [] = Unit {0}
IsChain e (x ∷ xs) = (x.index ≡ suc e.index) × (e.term ≤ x.term) × IsChain x xs

abbrev pub IsChained : RaftLog → Type 0
IsChained l = IsChain l.sentinel l.reals

pub last_of-index :
    (e : Entry) (xs : List Entry) → IsChain e xs → (last_of e xs).index ≡ e.index + length xs
last_of-index e [] c = omega arith
last_of-index e (x ∷ xs) c = omega (arith, last_of-index x xs c.2)

pub last_of-append :
    (e : Entry) (xs ys : List Entry) → last_of e (xs ++ ys) ≡ last_of (last_of e xs) ys
last_of-append e [] ys = refl
last_of-append e (x ∷ xs) ys = last_of-append x xs ys

pub term-le-last : (e : Entry) (xs : List Entry) → IsChain e xs → e.term ≤ (last_of e xs).term
term-le-last e [] c = omega arith
term-le-last e (x ∷ xs) c = omega (arith, term-le-last x xs c.2)

pub IsChain-append :
    (e : Entry) (xs ys : List Entry)
    → IsChain e xs
    → IsChain (last_of e xs) ys
    → IsChain e (xs ++ ys)
IsChain-append e [] ys c d = d
IsChain-append e (x ∷ xs) ys c d = (c.0, c.1, IsChain-append x xs ys c.2 d)

pub IsChain-take : (n : ℕ) (e : Entry) (xs : List Entry) → IsChain e xs → IsChain e (take n xs)
IsChain-take zero e xs c = tt
IsChain-take (suc n) e [] c = tt
IsChain-take (suc n) e (x ∷ xs) c = (c.0, c.1, IsChain-take n x xs c.2)

-- The entry at a slice position has the index of that position.
pub get_elem?-IsChain :
    (e : Entry) (xs : List Entry) (k : ℕ)
    → IsChain e xs
    → k ≤ length xs
    → (x : Entry) × (get_elem? (e ∷ xs) k ≡ some x) × (x.index ≡ e.index + k)
get_elem?-IsChain e xs zero c h = (e, refl, omega arith)
get_elem?-IsChain e [] (suc k) c h = absurd (omega arith)
get_elem?-IsChain e (x ∷ xs) (suc k) c h =
    let (y, found, at) = get_elem?-IsChain x xs k c.2 (omega arith) in (y, found, omega arith)

-- In a log of consecutive indexes whose terms do not fall, both counted from the sentinel on, for an
-- index between the first and the last one: the slice access is within bounds and finds the entry of
-- that index, and `term` and `entry` answer with it.
pub entry_at-IsChained :
    (l : RaftLog) (i : ℕ)
    → IsChained l
    → first_index l ≤ i
    → i ≤ last_index l
    → (x : Entry) × (get_elem? (l.sentinel ∷ l.reals) (i - first_index l) ≡ some x)
      × (x.index ≡ i)
      × (term l i ≡ (x.term, true))
      × (entry l i ≡ x)
unfolding term entry entry_at
entry_at-IsChained l i c lo hi =
    let (x, found, at) =
      get_elem?-IsChain l.sentinel l.reals (i - first_index l) c
        (omega (arith, last_of-index l.sentinel l.reals c)) in
    (x, found, omega arith, ground (arith, found), ground (arith, found))

-- The last entry of a part of the log is the entry at that position.
last_of-take :
    (e : Entry) (xs : List Entry) (k : ℕ)
    → IsChain e xs
    → k ≤ length xs
    → (last_of e (take k xs)).index ≡ e.index + k
last_of-take e xs zero c h = omega arith
last_of-take e [] (suc k) c h = absurd (omega arith)
last_of-take e (x ∷ xs) (suc k) c h = omega (arith, last_of-take x xs k c.2 (omega arith))

pub append-IsChained :
    (l : RaftLog) (es : List Entry)
    → IsChained l
    → IsChain (last_of l.sentinel l.reals) es
    → IsChained (append l es)
unfolding append
append-IsChained l es c d = IsChain-append l.sentinel l.reals es c d

pub truncate_from-IsChained : (l : RaftLog) (i : ℕ) → IsChained l → IsChained (truncate_from l i)
unfolding truncate_from
truncate_from-IsChained l i c = IsChain-take _ l.sentinel l.reals c

-- In a log of consecutive indexes whose terms do not fall, a truncation at an index after the first
-- and up to the last one leaves a log that ends just before that index.
last_index-truncate_from :
    (l : RaftLog) (i : ℕ)
    → IsChained l
    → first_index l < i
    → i ≤ last_index l
    → last_index (truncate_from l i) + 1 ≡ i
unfolding truncate_from
last_index-truncate_from l i c lo hi = ground (
  arith,
  last_of-take l.sentinel l.reals (i - first_index l - 1) c,
  last_of-index l.sentinel l.reals c,
)

drop-IsChain :
    (e : Entry) (xs : List Entry) (k : ℕ) (m : Entry)
    → IsChain e xs
    → m.index ≡ e.index + k
    → ((x : Entry) → get_elem? (e ∷ xs) k ≡ some x → m.term ≤ x.term)
    → IsChain m (drop k xs)
drop-IsChain e [] zero m c h t = tt
drop-IsChain e [] (suc k) m c h t = tt
drop-IsChain e (x ∷ xs) zero m c h t = (omega arith, omega (arith, t e refl), c.2)
drop-IsChain e (x ∷ xs) (suc k) m c h t = drop-IsChain x xs k m c.2 (omega arith) t

compact_to_old : (l : RaftLog) (index t : ℕ) → index ≤ first_index l → compact_to l index t ≡ l
unfolding compact_to
compact_to_old l index t h = ground arith

compact_to_part :
    (l : RaftLog) (index t : ℕ)
    → first_index l < index
    → index < last_index l
    → compact_to l index t
      ≡ record { sentinel = marker index t; reals = drop (index - first_index l) l.reals }
unfolding compact_to
compact_to_part l index t h k = ground arith

compact_to_all :
    (l : RaftLog) (index t : ℕ)
    → first_index l < index
    → last_index l ≤ index
    → compact_to l index t ≡ new_raft_log index t
unfolding compact_to
compact_to_all l index t h k = ground arith

-- Compaction keeps indexes consecutive and terms rising, where the given term is the term that the
-- log has at the index, if the index is not past the log's end.
pub compact_to-IsChained :
    (l : RaftLog) (index t : ℕ)
    → IsChained l
    → (index ≤ last_index l → term l index ≡ (t, true))
    → IsChained (compact_to l index t)
compact_to-IsChained l index t c agrees = elim (dec_lt (first_index l) index) [
  | no old ↦ rw (compact_to_old l index t (omega arith)) c
  | yes new ↦ elim (dec_lt index (last_index l)) [
    | no all ↦ rw (compact_to_all l index t new (omega arith)) tt
    | yes part ↦ rw (compact_to_part l index t new part) (kept new part)
  ]
]
  where
    kept :
        first_index l < index
        → index < last_index l
        → IsChain (marker index t) (drop (index - first_index l) l.reals)
    kept new part =
        drop-IsChain l.sentinel l.reals (index - first_index l) (marker index t) c (omega arith)
          (λ x at.
            let (y, found, _, reads, _) =
              entry_at-IsChained l index c (omega arith) (omega arith) in
            ground (arith, agrees (omega arith), reads, found, at))
