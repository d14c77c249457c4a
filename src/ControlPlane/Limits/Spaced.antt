-- ===== src/ControlPlane/Limits/Spaced.antt =====
-- internal/controlplane/engine.go: the disruptions of one client.
use kill_my_cluster.Prelude.{
  ℕ, ◌+◌, ◌-◌, ◌≤◌, ◌≡◌, ap, ◌∙◌, sym, subst, true, false, some, List, [], ◌∷◌, All, if◌then◌else◌,
  list_eq, arith, Bool-cases, inl, inr, ltb→le,
}
use kill_my_cluster.Prelude.Bytes.{Bytes}
use kill_my_cluster.Prelude.Map.{Map, get-put, get-put_self}
use kill_my_cluster.Prelude.Map
use kill_my_cluster.ControlPlane.Limits.{client_key, cools, allow_disrupt}

-- A request to disrupt, or one that was allowed.
pub record Disruption : Type 0 where
  pub client : Bytes
  pub time : ℕ

-- The requests that are allowed, the newest first, and what the engine remembers.
unfoldable pub allowed : ℕ → List Disruption → List Disruption × Map Bytes ℕ
unfolding allow_disrupt
allowed cooldown [] = ([], [])
allowed cooldown (r ∷ older) =
    let (past, ip_last) = allowed cooldown older in
    let (ip_last', may) = allow_disrupt cooldown r.time r.client ip_last in
    (if may then r ∷ past else past, ip_last')

-- A client's disruptions are at least the cooldown apart.
abbrev pub Spaced : ℕ → List Disruption → Type 0
Spaced cooldown [] = Unit {0}
Spaced cooldown (r ∷ older) =
    All (λ o. client_key o.client ≡ client_key r.client → o.time + cooldown ≤ r.time) older
    × Spaced cooldown older

abbrev Known : Map Bytes ℕ → Disruption → Type 0
Known m o = (last : ℕ) × (Map.get (client_key o.client) m ≡ some last) × (o.time ≤ last)

-- The requests, the newest first, in the order of their times.
abbrev pub InOrder : List Disruption → Type 0
InOrder [] = Unit {0}
InOrder (r ∷ older) = All (λ o. o.time ≤ r.time) older × InOrder older

module _ (cooldown : ℕ) (r : Disruption) (m : Map Bytes ℕ) where
  -- What is remembered is the last time, which is not after this one.
  Remembers : Type 0
  Remembers = (last : ℕ) → Map.get (client_key r.client) m ≡ some last → last ≤ r.time

  apart :
      (past : List Disruption)
      → cools cooldown r.time (Map.get (client_key r.client) m) ≡ false
      → Remembers
      → All (Known m) past
      → All (λ o. client_key o.client ≡ client_key r.client → o.time + cooldown ≤ r.time) past
  unfolding Remembers
  apart [] free behind all = tt
  apart (o ∷ past) free behind all = (one all.0, apart past free behind all.1)
    where
      one : Known m o → client_key o.client ≡ client_key r.client → o.time + cooldown ≤ r.time
      one (last, found, before) same = omega (
        arith,
        before,
        behind last here,
        ltb→le (r.time - last) cooldown (sym (ap (cools cooldown r.time) here) ∙ free),
      )
        where
          here : Map.get (client_key r.client) m ≡ some last
          here = subst (λ k. Map.get k m ≡ some last) same found

  Known-put :
      (past : List Disruption)
      → Remembers
      → All (Known m) past
      → All (Known (Map.put (client_key r.client) r.time m)) past
  unfolding Remembers
  Known-put [] behind all = tt
  Known-put (o ∷ past) behind all = (one all.0, Known-put past behind all.1)
    where
      one : Known m o → Known (Map.put (client_key r.client) r.time m) o
      one (last, found, before) =
          elim (Bool-cases (list_eq.beq (client_key r.client) (client_key o.client))) [
            | inl same ↦ (
              r.time,
              get-put (client_key r.client) (client_key o.client) r.time m
                  ∙ ap (λ b. if b then some r.time else Map.get (client_key o.client) m) same,
              omega (arith, before, behind last (mine same)),
            )
            | inr other ↦ (
              last,
              get-put (client_key r.client) (client_key o.client) r.time m
                  ∙ ap (λ b. if b then some r.time else Map.get (client_key o.client) m) other
                  ∙ found,
              before,
            )
          ]
        where
          mine :
              list_eq.beq (client_key r.client) (client_key o.client) ≡ true
              → Map.get (client_key r.client) m ≡ some last
          mine same =
              subst (λ k. Map.get k m ≡ some last)
                (sym ((list_eq.beq_iff (client_key r.client) (client_key o.client)).0 same)) found

-- Nothing that is remembered is after `b`.
abbrev Below : ℕ → Map Bytes ℕ → Type 0
Below b m = (k : Bytes) (last : ℕ) → Map.get k m ≡ some last → last ≤ b

Below-put : (b t : ℕ) (c : Bytes) (m : Map Bytes ℕ) → t ≤ b → Below b m → Below b (Map.put c t m)
Below-put b t c m le below k last found = ground (arith, le, below k last, found, get-put c k t m)

module _ (cooldown : ℕ) where
  Kept : List Disruption → List Disruption × Map Bytes ℕ → Type 0
  Kept rs (past, m) =
      Spaced cooldown past × All (Known m) past × ((b : ℕ) → All (λ o. o.time ≤ b) rs → Below b m)

  Kept-step :
      (r : Disruption) (rs past : List Disruption) (m : Map Bytes ℕ)
      → All (λ o. o.time ≤ r.time) rs
      → Kept rs (past, m)
      → Kept (r ∷ rs) (
          let (ip_last, may) = allow_disrupt cooldown r.time r.client m in
          (if may then r ∷ past else past, ip_last))
  unfolding Kept allow_disrupt Remembers
  Kept-step r rs past m order (spaced, known, below) =
      elim (Bool-cases (cools cooldown r.time (Map.get (client_key r.client) m))) [
        | inl busy ↦ rw (busy) (spaced, known, λ b all. below b all.1)
        | inr free ↦ rw (free) (
          (apart cooldown r m past free behind known, spaced),
          (
            (r.time, get-put_self (client_key r.client) r.time m, omega arith),
            Known-put cooldown r m past behind known,
          ),
          λ b all. Below-put b r.time (client_key r.client) m all.0 (below b all.1),
        )
      ]
    where
      behind : Remembers cooldown r m
      behind last found = below r.time order (client_key r.client) last found

  allowed-Kept : (rs : List Disruption) → InOrder rs → Kept rs (allowed cooldown rs)
  unfolding Kept allowed Map.get
  allowed-Kept [] order = (tt, tt, λ b all k last found. ground (arith, found))
  allowed-Kept (r ∷ rs) order =
      let (past, m) = allowed cooldown rs in Kept-step r rs past m order.0 (allowed-Kept rs order.1)

  -- Of requests to disrupt in the order of their times, those that are allowed are spaced: for each
  -- client, two of them are at least the cooldown apart. A request without an address counts as one
  -- of the client "unknown".
  pub allowed-Spaced : (rs : List Disruption) → InOrder rs → Spaced cooldown (allowed cooldown rs).0
  unfolding Kept
  allowed-Spaced rs order = (allowed-Kept rs order).0
