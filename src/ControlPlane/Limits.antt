-- ===== src/ControlPlane/Limits.antt =====
-- internal/controlplane/engine.go: who may disrupt the cluster, and when. Times are in nanoseconds and
-- do not go back.
pub mod Spaced
use kill_my_cluster.Prelude.{
  ℕ, ◌-◌, Bool, true, false, not, Option, none, some, List, [], ◌∷◌, ltb, if◌then◌else◌, list_eq,
}
use kill_my_cluster.Prelude.Bytes.{Bytes}
use kill_my_cluster.Prelude.Map.{Map}
use kill_my_cluster.Prelude.Map

-- "unknown"
abbrev pub unknown : Bytes
unknown = 117 ∷ 110 ∷ 107 ∷ 110 ∷ 111 ∷ 119 ∷ 110 ∷ []

abbrev pub client_key : Bytes → Bytes
client_key [] = unknown
client_key (c ∷ cs) = c ∷ cs

abbrev pub cools : ℕ → ℕ → Option ℕ → Bool
cools cooldown now none = false
cools cooldown now (some last) = ltb (now - last) cooldown

-- allowDisrupt on ipLast; the bool says that the client may.
unfoldable pub allow_disrupt : ℕ → ℕ → Bytes → Map Bytes ℕ → Map Bytes ℕ × Bool
allow_disrupt cooldown now client_ip ip_last =
    if cools cooldown now (Map.get (client_key client_ip) ip_last)
    then (ip_last, false)
    else (Map.put (client_key client_ip) now ip_last, true)
