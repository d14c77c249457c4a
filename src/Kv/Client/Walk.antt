-- ===== src/Kv/Client/Walk.antt =====
-- internal/kv/client.go: how the walk over the nodes ends.
use kill_my_cluster.Prelude.{
  ℕ, zero, suc, ◌+◌, ◌*◌, ◌≤◌, ◌≡◌, refl, ap, ◌∙◌, ◌==◌, ==_iff, nat_eq, has, ◌⊎◌, inl, inr, Bool,
  true, false, not, Option, none, some, List, [], ◌∷◌, ltb, ltb→lt, if◌then◌else◌, if_case, arith,
  Bool-cases,
}
use kill_my_cluster.Prelude.Map
use kill_my_cluster.Kv.Client.{
  Client, Reply, context_over, fails, redirects, serves, is_over, hear, is_known, stub, demote,
  invalidate, Sweep, Outcome, answered_by, cancelled, no_leader, Progress, walk, attempt,
  unless_ended, try_order, after_sweep, via_leader, millisecond,
}

Ends : Option (Client × Outcome) → Type 0
Ends o = (r : Client × Outcome) × (o ≡ some r)

module _ (sweeps : ℕ → Sweep) (deadline : ℕ)
    (waits : (k : ℕ) → (sweeps k).now + 250 * millisecond ≤ (sweeps (k + 1)).now) where
  Ends-after_sweep :
      (over : Bool) (p : Progress) (next : ℕ → Client → Option (Client × Outcome))
      → ((q : ℕ) (d : Client) → Ends (next q d))
      → Ends (after_sweep over p next)
  unfolding Ends
  Ends-after_sweep over (c, (some end, prefer)) next h = ((c, end), refl)
  Ends-after_sweep true (c, (none, prefer)) next h = ((c, cancelled), refl)
  Ends-after_sweep false (c, (none, prefer)) next h = h prefer c

  turn :
      (k prefer : ℕ) (c : Client) (next : ℕ → Client → Option (Client × Outcome))
      → (deadline ≤ (sweeps k).now) ⊎ ((q : ℕ) (d : Client) → Ends (next q d))
      → Ends (
          if not (ltb (sweeps k).now deadline)
          then some (c, no_leader)
          else if (sweeps k).over_before
          then some (c, cancelled)
          else after_sweep
              (sweeps k).over_after
              (walk (sweeps k) (try_order (sweeps k).now prefer c) prefer c)
              next)
  unfolding Ends
  turn k prefer c next h =
      if_case Ends (not (ltb (sweeps k).now deadline)) _ _ (λ _. ((c, no_leader), refl))
        (λ early.
          if_case Ends (sweeps k).over_before _ _ (λ _. ((c, cancelled), refl))
            (λ _. swept h early))
    where
      swept :
          (deadline ≤ (sweeps k).now) ⊎ ((q : ℕ) (d : Client) → Ends (next q d))
          → not (ltb (sweeps k).now deadline) ≡ false
          → Ends (
              after_sweep
                (sweeps k).over_after
                (walk (sweeps k) (try_order (sweeps k).now prefer c) prefer c)
                next)
      swept (inl late) early = absurd (omega (arith, ltb→lt (sweeps k).now deadline (ground arith)))
      swept (inr goes_on) early =
          Ends-after_sweep (sweeps k).over_after
            (walk (sweeps k) (try_order (sweeps k).now prefer c) prefer c) next goes_on

  fuel_left :
      (fuel k prefer : ℕ) (c : Client)
      → deadline ≤ (sweeps k).now + fuel * (250 * millisecond)
      → Ends (via_leader sweeps deadline (suc fuel) k prefer c)
  unfolding via_leader
  fuel_left zero k prefer c enough =
      turn k prefer c (λ p d. via_leader sweeps deadline zero (k + 1) p d) (inl (omega arith))
  fuel_left (suc fuel) k prefer c enough =
      turn k prefer c (λ p d. via_leader sweeps deadline (suc fuel) (k + 1) p d)
        (inr (λ q d. fuel_left fuel (k + 1) q d (omega (arith, waits k))))

-- A call ends: where each sweep starts at least 250 ms after the one before it, and the deadline is
-- 8 s after the first, 33 sweeps are enough for an answer or an error, whatever the nodes reply.
pub via_leader_terminates :
    (sweeps : ℕ → Sweep) (c : Client)
    → ((k : ℕ) → (sweeps k).now + 250 * millisecond ≤ (sweeps (k + 1)).now)
    → (r : Client × Outcome) × (via_leader sweeps
          ((sweeps 0).now + 8000 * millisecond)
          33
          0
          c.leader
          c
        ≡ some r)
unfolding Ends
via_leader_terminates sweeps c waits =
    fuel_left sweeps ((sweeps 0).now + 8000 * millisecond) waits 32 0 c.leader c (omega arith)

-- The sweep ended at a node that answered, and that node is the first to be asked next time.
abbrev pub Answered : Sweep → Progress → Type 0
Answered s (c, (o, prefer)) = (s.reply c.leader ≡ serves) × (o ≡ some (answered_by c.leader))

GoesOn : Client → Progress → Type 0
GoesOn c (d, (o, prefer)) = (o ≡ none) × (d.addrs ≡ c.addrs)

stub-addrs : (dials : Bool) (id : ℕ) (c : Client) → (stub dials id c).0.addrs ≡ c.addrs
unfolding stub
stub-addrs dials id c = ground arith

Outcomes : Sweep → Client → Progress → Type 0
Outcomes s c p = GoesOn c p ⊎ Answered s p

module _ (s : Sweep) (id prefer : ℕ) (c : Client) where
  heard :
      (r : Reply) (d : Client)
      → s.reply id ≡ r
      → is_over r ≡ false
      → d.addrs ≡ c.addrs
      → Outcomes s c (hear r id prefer d)
  unfolding Outcomes GoesOn demote invalidate
  heard context_over d e live same = cc
  heard (fails true at) d e live same = inl (refl, same)
  heard (fails false at) d e live same = inl (refl, same)
  heard (redirects hint) d e live same = inl (refl, same)
  heard serves d e live same = inr (e, refl)

  no_stub : (d : Client) → d.addrs ≡ c.addrs → Outcomes s c (d, (none, prefer))
  unfolding Outcomes GoesOn
  no_stub d same = inl (refl, same)

  attempt_cases : is_over (s.reply id) ≡ false → Outcomes s c (attempt s id prefer c)
  unfolding attempt
  attempt_cases live =
      if_case (Outcomes s c) (is_over (s.reply id)) _ _ (λ over. absurd (cc (live, over)))
        (λ _.
          if_case (Outcomes s c) (not (stub (s.dials id) id c).1) _ _
            (λ _. no_stub (stub (s.dials id) id c).0 (stub-addrs (s.dials id) id c))
            (λ _.
              heard (s.reply id) (stub (s.dials id) id c).0 refl live
                (stub-addrs (s.dials id) id c)))

  -- A node that can be reached and serves ends the walk.
  attempt_serves :
      s.dials id ≡ true
      → is_known (Map.get id c.addrs) ≡ true
      → s.reply id ≡ serves
      → (attempt s id prefer c).1.0 ≡ some (answered_by id)
  unfolding attempt stub
  attempt_serves dialled known says = rw (says) (ground (arith, dialled, known))

-- The nodes of a sweep, of which `id` can be reached and serves.
module _ (s : Sweep) (id : ℕ) (dialled : s.dials id ≡ true) (says : s.reply id ≡ serves) where
  walk_progress :
      (x : ℕ) (ids : List ℕ) (p : Progress) (c : Client)
      → Outcomes s c p
      → (p.1.0 ≡ none → p.0.addrs ≡ c.addrs → Answered s (walk s ids p.1.1 p.0))
      → Answered s (unless_ended p (λ q d. walk s ids q d))
  unfolding Outcomes GoesOn
  walk_progress x ids (d, (none, q)) c h rest = rest refl (going h)
    where
      going : Outcomes s c (d, (none, q)) → d.addrs ≡ c.addrs
      going (inl (_, same)) = same
      going (inr (_, ended)) = absurd (cc)
  walk_progress x ids (d, (some o, q)) c (inl (going, same)) rest = absurd (cc)
  walk_progress x ids (d, (some o, q)) c (inr answered) rest = answered

  -- A sweep over nodes of which one can be reached and serves, while the context lives, ends at a node
  -- that answers, which becomes the client's leader: whatever the other nodes reply.
  pub walk-Answered :
      (ids : List ℕ) (prefer : ℕ) (c : Client)
      → has id ids ≡ true
      → is_known (Map.get id c.addrs) ≡ true
      → ((x : ℕ) → is_over (s.reply x) ≡ false)
      → Answered s (walk s ids prefer c)
  unfolding walk
  walk-Answered [] prefer c there known live = cc
  walk-Answered (x ∷ ids) prefer c there known live =
      walk_progress x ids (attempt s x prefer c) c (attempt_cases s x prefer c (live x))
        (λ none_yet same. elim (Bool-cases (x == id)) [
          | inl e ↦ absurd (
              cc (
                none_yet,
                ap (λ k. (attempt s k prefer c).1.0) ((==_iff x id).0 e),
                attempt_serves s id prefer c dialled known says,
              ))
          | inr e ↦
              walk-Answered ids (attempt s x prefer c).1.1 (attempt s x prefer c).0 (ground arith)
                (ap (λ m. is_known (Map.get id m)) same ∙ known) live
        ])
