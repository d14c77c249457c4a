-- ===== src/Raft/Log.antt =====
-- internal/raft/log.go: the part of the replicated log that is in memory.
pub mod Shape
pub mod Search
use kill_my_cluster.Prelude.{
  ℕ, zero, suc, ◌+◌, ◌-◌, ◌/◌, ◌==◌, Bool, true, false, ◌&&◌, ◌||◌, Option, none, some, List, [],
  ◌∷◌, ◌++◌, ltb, leb, if◌then◌else◌, length, get_elem?, take, drop,
}
use mathlib.Core.Option
use kill_my_cluster.Prelude.Bytes.{Bytes, add64}

pub record Entry : Type 0 where
  pub index : ℕ
  pub term : ℕ
  pub payload : Bytes

-- entries[0], which is always there, and entries[1:].
pub record RaftLog : Type 0 where
  pub sentinel : Entry
  pub reals : List Entry

abbrev pub marker : ℕ → ℕ → Entry
marker index term = record { index = index; term = term; payload = [] }

abbrev pub new_raft_log : ℕ → ℕ → RaftLog
new_raft_log index term = record { sentinel = marker index term; reals = [] }

abbrev pub last_of : Entry → List Entry → Entry
last_of e [] = e
last_of e (x ∷ xs) = last_of x xs

abbrev pub first_index : RaftLog → ℕ
first_index l = l.sentinel.index

abbrev pub last_index : RaftLog → ℕ
last_index l = (last_of l.sentinel l.reals).index

abbrev pub last_term : RaftLog → ℕ
last_term l = (last_of l.sentinel l.reals).term

-- l.entries[k]; a position out of the slice, where Go panics, gives the empty marker.
unfoldable pub entry_at : RaftLog → ℕ → Entry
entry_at l k = Option.get_or (get_elem? (l.sentinel ∷ l.reals) k) (marker 0 0)

unfoldable pub term : RaftLog → ℕ → ℕ × Bool
unfolding entry_at
term l i =
    if ltb i (first_index l) || ltb (last_index l) i
    then (0, false)
    else ((entry_at l (i - first_index l)).term, true)

unfoldable pub entry : RaftLog → ℕ → Entry
unfolding entry_at
entry l i = entry_at l (i - first_index l)

unfoldable pub suffix : RaftLog → ℕ → List Entry
suffix l from =
    if leb from (first_index l) || ltb (last_index l) from
    then []
    else drop (from - first_index l) (l.sentinel ∷ l.reals)

unfoldable pub append : RaftLog → List Entry → RaftLog
append l entries = record l { reals = l.reals ++ entries }

-- The sentinel is never dropped: the slice keeps at least one entry.
unfoldable pub truncate_from : RaftLog → ℕ → RaftLog
truncate_from l i =
    let i' = if leb i (first_index l) then add64 (first_index l) 1 else i in
    record l { reals = take (i' - first_index l - 1) l.reals }

-- sort.Search(n, f), whose loop halves the interval; `n` rounds are enough.
unfoldable pub search_loop : (ℕ → Bool) → ℕ → ℕ → ℕ → ℕ
search_loop f zero i j = i
search_loop f (suc rounds) i j =
    let h = (i + j) / 2 in
    let right = search_loop f rounds (h + 1) j in
    let left = search_loop f rounds i h in if ltb i j then (if f h then left else right) else i

unfoldable pub sort_search : ℕ → (ℕ → Bool) → ℕ
unfolding search_loop
sort_search n f = search_loop f n 0 n

abbrev pub term_at : List Entry → ℕ → ℕ
term_at reals j = (Option.get_or (get_elem? reals j) (marker 0 0)).term

abbrev pub index_at : List Entry → ℕ → ℕ
index_at reals j = (Option.get_or (get_elem? reals j) (marker 0 0)).index

unfoldable pub first_index_of_term : RaftLog → ℕ → ℕ
unfolding sort_search
first_index_of_term l t =
    let i = sort_search (length l.reals) (λ j. leb t (term_at l.reals j)) in
    if ltb i (length l.reals) && term_at l.reals i == t then index_at l.reals i else 0

unfoldable pub last_index_of_term : RaftLog → ℕ → ℕ
unfolding sort_search
last_index_of_term l t =
    let i = sort_search (length l.reals) (λ j. ltb t (term_at l.reals j)) in
    if ltb 0 i && term_at l.reals (i - 1) == t then index_at l.reals (i - 1) else 0

unfoldable pub compact_to : RaftLog → ℕ → ℕ → RaftLog
compact_to l index term =
    if leb index (first_index l)
    then l
    else if ltb index (last_index l)
    then record { sentinel = marker index term; reals = drop (index - first_index l) l.reals }
    else new_raft_log index term

abbrev pub all_entries : RaftLog → List Entry
all_entries l = l.reals
