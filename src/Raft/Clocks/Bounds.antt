-- ===== src/Raft/Clocks/Bounds.antt =====
-- internal/raft/node.go: the range of an election timeout.
use kill_my_cluster.Prelude.{
  ℕ, zero, suc, ◌+◌, ◌-◌, ◌*◌, ◌^◌, ◌%◌, ◌≤◌, ◌<◌, ◌≡◌, refl, ◌⊎◌, inl, inr, min, arith,
}
use native.Mathlib.Nat.{mod-lt}
use kill_my_cluster.Raft.Node.{Node, Env, Timings, timeout_range, reset_election_timer}
use kill_my_cluster.Raft.Clocks.{
  ℤ, pos, negsuc, RawTimings, or_default, repaired, above, with_defaults, millisecond,
}

-- A setting that is at most `b`, or negative.
abbrev pub AtMost : ℕ → ℤ → Type 0
AtMost b (pos n) = n ≤ b
AtMost b (negsuc n) = Unit {0}

-- 2 ^ 59 nanoseconds are 18 years.
abbrev pub longest : ℕ
longest = 2 ^ 59

or_default-le : (d : ℕ) (z : ℤ) → d ≤ longest → AtMost longest z → or_default d z ≤ longest
or_default-le d (pos zero) le h = le
or_default-le d (pos (suc n)) le h = h
or_default-le d (negsuc n) le h = le

repaired-bounds :
    (least : ℕ) → least ≤ longest → (least < repaired least) × (repaired least ≤ least + longest)
repaired-bounds least h = (ground (arith, h), ground (arith, h))

above-bounds :
    (least : ℕ) (z : ℤ)
    → least ≤ longest
    → AtMost longest z
    → (least < above least z) × (above least z ≤ least + longest)
above-bounds least (pos n) h at_most = (
  ground (arith, (repaired-bounds least h).0, at_most),
  ground (arith, (repaired-bounds least h).1, at_most),
)
above-bounds least (negsuc n) h at_most = repaired-bounds least h

three : (k : ℕ) → min (suc (suc (suc k))) 3 ≡ 3
three k = omega arith

powers : (k : ℕ) → (2 ^ min k 3 ≡ 1) ⊎ ((2 ^ min k 3 ≡ 2) ⊎ ((2 ^ min k 3 ≡ 4) ⊎ (2 ^ min k 3 ≡ 8)))
powers zero = inl refl
powers (suc zero) = inr (inl refl)
powers (suc (suc zero)) = inr (inr (inl refl))
powers (suc (suc (suc k))) = inr (inr (inr (rw (three k) refl)))

scaled :
    (s p : ℕ) → 0 < s → (p ≡ 1) ⊎ ((p ≡ 2) ⊎ ((p ≡ 4) ⊎ (p ≡ 8))) → (0 < s * p) × (s * p ≤ 8 * s)
scaled s p h (inl e) = rw (e) (omega arith, omega arith)
scaled s p h (inr (inl e)) = rw (e) (omega arith, omega arith)
scaled s p h (inr (inr (inl e))) = rw (e) (omega arith, omega arith)
scaled s p h (inr (inr (inr e))) = rw (e) (omega arith, omega arith)

abbrev pub spread : Timings → ℕ
spread t = t.election_timeout_max - t.election_timeout_min

wrapped :
    (a b p : ℕ)
    → b ≤ longest
    → b ≤ a
    → a ≤ b + longest
    → (p ≡ 1) ⊎ ((p ≡ 2) ⊎ ((p ≡ 4) ⊎ (p ≡ 8)))
    → (a + 2 ^ 64 - b) * p % 2 ^ 64 ≡ (a - b) * p
wrapped a b p small le near (inl e) = rw (e) (omega arith)
wrapped a b p small le near (inr (inl e)) = rw (e) (omega arith)
wrapped a b p small le near (inr (inr (inl e))) = rw (e) (omega arith)
wrapped a b p small le near (inr (inr (inr e))) = rw (e) (omega arith)

-- With the clocks that a node is given, which were configured to no more than 18 years (2 ^ 59 ns), but
-- may be zero, negative or the wrong way round, and after however many failed rounds: the range of the
-- random number, as the int64 arithmetic computes it, is one that rand.Int63n takes without a panic,
-- and the election timeout is at least the minimum, and less than the minimum and 8 spreads.
pub reset_election_timer-with_defaults :
    (raw : RawTimings) (env : Env) (n : Node)
    → AtMost longest raw.election_timeout_min
    → AtMost longest raw.election_timeout_max
    → n.tm ≡ (with_defaults raw).tm
    → (0 < timeout_range n)
      × (timeout_range n < 2 ^ 63)
      × (n.tm.election_timeout_min ≤ (reset_election_timer env n).election_timeout)
      × ((reset_election_timer env n).election_timeout
          < n.tm.election_timeout_min + 8 * spread n.tm)
unfolding reset_election_timer
reset_election_timer-with_defaults raw env n min_fits max_fits given = (
  omega (arith, unwrapped, range.0),
  omega (arith, unwrapped, range.1, ordered.1),
  omega (arith, unwrapped, range.1, ordered.1, fits, drawn),
  omega (arith, unwrapped, range.1, ordered.1, fits, drawn),
)
  where
    least : ℕ
    least = or_default (750 * millisecond) raw.election_timeout_min

    fits : n.tm.election_timeout_min ≤ longest
    fits = rw (given) (
        unfold with_defaults in
        or_default-le (750 * millisecond) raw.election_timeout_min (omega arith) min_fits)

    ordered :
        (n.tm.election_timeout_min < n.tm.election_timeout_max)
        × (n.tm.election_timeout_max ≤ n.tm.election_timeout_min + longest)
    ordered = rw (given) (
        unfold with_defaults in
        above-bounds least raw.election_timeout_max
          (or_default-le (750 * millisecond) raw.election_timeout_min (omega arith) min_fits)
          max_fits)

    range :
        (0 < spread n.tm * 2 ^ min n.election_attempts 3)
        × (spread n.tm * 2 ^ min n.election_attempts 3 ≤ 8 * spread n.tm)
    range =
        scaled (spread n.tm) (2 ^ min n.election_attempts 3) (omega (arith, ordered.0))
          (powers n.election_attempts)

    unwrapped : timeout_range n ≡ spread n.tm * 2 ^ min n.election_attempts 3
    unwrapped =
        wrapped n.tm.election_timeout_max n.tm.election_timeout_min (2 ^ min n.election_attempts 3)
          fits (omega (arith, ordered.0)) ordered.1 (powers n.election_attempts)

    drawn : env.random % timeout_range n < timeout_range n
    drawn = mod-lt env.random (omega (arith, unwrapped, range.0))
