-- ===== src/Raft/Log/Search.antt =====
-- The binary searches over the terms of the log.
use kill_my_cluster.Prelude.{
  ℕ, zero, suc, ◌+◌, ◌-◌, ◌/◌, ◌≤◌, ◌<◌, ◌≡◌, ◌≢◌, refl, ◌∙◌, sym, arith, Bool, true, false, ◌&&◌,
  List, [], ◌∷◌, length, Bool-cases, inl, inr, ltb, leb, ltb→lt, if◌then◌else◌, ◌==◌,
}
use mathlib.Core.Bool.{false≢true}
use kill_my_cluster.Raft.Log.{
  Entry, RaftLog, search_loop, sort_search, term_at, index_at, first_index_of_term,
  last_index_of_term,
}
use kill_my_cluster.Raft.Log.Shape.{IsChain, IsChained}

-- Where the answer of the search stands: the test fails before it, and holds from it on.
abbrev pub IsFirst : (ℕ → Bool) → ℕ → ℕ → Type 0
IsFirst f n i = (i ≤ n) × ((a : ℕ) → a < i → f a ≡ false) × ((a : ℕ) → i ≤ a → a < n → f a ≡ true)

search_loop-IsFirst :
    (f : ℕ → Bool) (n rounds i j : ℕ)
    → ((a b : ℕ) → a ≤ b → b < n → f a ≡ true → f b ≡ true)
    → j ≤ i + rounds
    → i ≤ j
    → j ≤ n
    → ((a : ℕ) → a < i → f a ≡ false)
    → ((a : ℕ) → j ≤ a → a < n → f a ≡ true)
    → IsFirst f n (search_loop f rounds i j)
unfolding search_loop
search_loop-IsFirst f n zero i j mono enough le top low high =
    (omega arith, low, λ a h k. high a (omega arith) k)
search_loop-IsFirst f n (suc rounds) i j mono enough le top low high = elim (Bool-cases (ltb i j)) [
  | inr done ↦ rw done (omega arith, low, λ a h k. high a (ground arith) k)
  | inl more ↦
      let half : i < j = ltb→lt i j more in
      elim (Bool-cases (f ((i + j) / 2))) [
        | inl holds ↦
            rw (more, holds)
              (search_loop-IsFirst f n rounds i ((i + j) / 2) mono (omega arith) (omega arith)
                (omega arith) low (λ a h k. mono ((i + j) / 2) a h k holds))
        | inr fails ↦
            rw (more, fails)
              (search_loop-IsFirst f n rounds ((i + j) / 2 + 1) j mono (omega arith) (omega arith)
                top (λ a h. below a ((i + j) / 2) (omega arith) (omega arith) fails) high)
      ]
]
  where
    below : (a h : ℕ) → a ≤ h → h < n → f h ≡ false → f a ≡ false
    below a h k top fails = elim (Bool-cases (f a)) [
      | inl holds ↦ absurd (false≢true (sym fails ∙ mono a h k top holds))
      | inr e ↦ e
    ]

-- sort.Search finds where the test turns true.
pub sort_search-IsFirst :
    (f : ℕ → Bool) (n : ℕ)
    → ((a b : ℕ) → a ≤ b → b < n → f a ≡ true → f b ≡ true)
    → IsFirst f n (sort_search n f)
unfolding sort_search
sort_search-IsFirst f n mono =
    search_loop-IsFirst f n n 0 n mono (omega arith) (omega arith) (omega arith)
      (λ a h. absurd (omega arith)) (λ a h k. absurd (omega arith))

first_term-le :
    (e : Entry) (xs : List Entry) (k : ℕ) → IsChain e xs → k < length xs → e.term ≤ term_at xs k
first_term-le e [] k c h = absurd (omega arith)
first_term-le e (x ∷ xs) zero c h = c.1
first_term-le e (x ∷ xs) (suc k) c h = omega (arith, first_term-le x xs k c.2 (omega arith))

term_at_mono :
    (e : Entry) (xs : List Entry) (a b : ℕ)
    → IsChain e xs
    → a ≤ b
    → b < length xs
    → term_at xs a ≤ term_at xs b
term_at_mono e [] a b c h k = absurd (omega arith)
term_at_mono e (x ∷ xs) zero zero c h k = omega arith
term_at_mono e (x ∷ xs) zero (suc b) c h k = first_term-le x xs b c.2 (omega arith)
term_at_mono e (x ∷ xs) (suc a) zero c h k = absurd (omega arith)
term_at_mono e (x ∷ xs) (suc a) (suc b) c h k =
    term_at_mono x xs a b c.2 (omega arith) (omega arith)

index_at-IsChain :
    (e : Entry) (xs : List Entry) (k : ℕ)
    → IsChain e xs
    → k < length xs
    → index_at xs k ≡ e.index + 1 + k
index_at-IsChain e [] k c h = absurd (omega arith)
index_at-IsChain e (x ∷ xs) zero c h = omega arith
index_at-IsChain e (x ∷ xs) (suc k) c h = omega (arith, index_at-IsChain x xs k c.2 (omega arith))

-- What a search by term returns: an index of that term which is the first (last) one of the log, or
-- 0 if the log has no entry of that term.
pub data Finds (l : RaftLog) (t : ℕ) (Extreme : ℕ → Type 0) : ℕ → Type 0 where
  found :
      (k r : ℕ)
      → k < length l.reals
      → term_at l.reals k ≡ t
      → Extreme k
      → r ≡ l.sentinel.index + 1 + k
      → Finds l t Extreme r
  absent :
      (r : ℕ) → ((k : ℕ) → k < length l.reals → term_at l.reals k ≢ t) → r ≡ 0 → Finds l t Extreme r

-- No entry before (after) position `k` has the term.
abbrev pub IsFirstOf : RaftLog → ℕ → ℕ → Type 0
IsFirstOf l t k = (a : ℕ) → a < k → term_at l.reals a ≢ t

abbrev pub IsLastOf : RaftLog → ℕ → ℕ → Type 0
IsLastOf l t k = (a : ℕ) → k < a → a < length l.reals → term_at l.reals a ≢ t

module _ (l : RaftLog) (t : ℕ) (c : IsChained l) where
  abbrev count : ℕ
  count = length l.reals

  abbrev term_of : ℕ → ℕ
  term_of = term_at l.reals

  rises : (a b : ℕ) → a ≤ b → b < count → term_of a ≤ term_of b
  rises a b h k = term_at_mono l.sentinel l.reals a b c h k

  at_least : IsFirst (λ j. leb t (term_of j)) count (sort_search count (λ j. leb t (term_of j)))
  at_least = sort_search-IsFirst _ count (λ a b h k p. ground (arith, rises a b h k))

  above : IsFirst (λ j. ltb t (term_of j)) count (sort_search count (λ j. ltb t (term_of j)))
  above = sort_search-IsFirst _ count (λ a b h k p. ground (arith, rises a b h k))

  first_found :
      (i : ℕ)
      → IsFirst (λ j. leb t (term_of j)) count i
      → Finds l t (IsFirstOf l t) (if ltb i count && term_of i == t then index_at l.reals i else 0)
  first_found i (top, low, high) = elim (Bool-cases (ltb i count && term_of i == t)) [
    | inl hit ↦ rw hit (
        found i _ (ground arith) (ground arith) (λ a h e. ground (arith, low a h))
          (ground (arith, index_at-IsChain l.sentinel l.reals i c)))
    | inr miss ↦ rw miss (absent 0 (λ k h e. ground (arith, low k, high i, rises i k)) refl)
  ]

  last_found :
      (i : ℕ)
      → IsFirst (λ j. ltb t (term_of j)) count i
      → Finds l t
          (IsLastOf l t)
          (if ltb 0 i && term_of (i - 1) == t then index_at l.reals (i - 1) else 0)
  last_found i (top, low, high) = elim (Bool-cases (ltb 0 i && term_of (i - 1) == t)) [
    | inl hit ↦ rw hit (
        found (i - 1) _ (ground arith) (ground arith) (λ a h k e. ground (arith, high a))
          (ground (arith, index_at-IsChain l.sentinel l.reals (i - 1) c)))
    | inr miss ↦
        rw miss
          (absent 0 (λ k h e. ground (arith, high k, low k, low (i - 1), rises k (i - 1))) refl)
  ]

-- In a log of consecutive indexes and rising terms, firstIndexOfTerm returns the smallest index
-- after the sentinel's whose entry has the term, or 0 where no entry has it.
pub first_index_of_term-Finds :
    (l : RaftLog) (t : ℕ) → IsChained l → Finds l t (IsFirstOf l t) (first_index_of_term l t)
unfolding first_index_of_term
first_index_of_term-Finds l t c = first_found l t c _ (at_least l t c)

-- In a log of consecutive indexes and rising terms, lastIndexOfTerm returns the largest index
-- after the sentinel's whose entry has the term, or 0 where no entry has it.
pub last_index_of_term-Finds :
    (l : RaftLog) (t : ℕ) → IsChained l → Finds l t (IsLastOf l t) (last_index_of_term l t)
unfolding last_index_of_term
last_index_of_term-Finds l t c = last_found l t c _ (above l t c)
