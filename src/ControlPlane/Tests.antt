-- ===== src/ControlPlane/Tests.antt =====
-- Runs of the theorems on the audit log.
use kill_my_cluster.Prelude.{ℕ, ◌≡◌, refl, arith, true, false, Option, some, List, [], ◌∷◌}
use kill_my_cluster.Prelude.Bytes.{Bytes}
use kill_my_cluster.ControlPlane.View.{Status, build_snapshot}
use kill_my_cluster.ControlPlane.Audit.{
  Memory, Observation, AuditEntry, controlplane_started, first_memory, entry_from,
}
use kill_my_cluster.ControlPlane.Audit.Edges.{read_log, believes, observe_all, read_log-observe_all}
use kill_my_cluster.ControlPlane.Audit.File.{AuditLog, Calls, write, tail_audit}
use kill_my_cluster.ControlPlane.Audit.File.Size.{IsSizedAfter, write-IsSized}
use kill_my_cluster.ControlPlane.Audit.File.Tail.{joined, last_of, tail_audit-joined}
use kill_my_cluster.ControlPlane.Limits.Spaced.{Disruption, allowed, Spaced, allowed-Spaced}

abbrev up : ℕ → ℕ → Status
up id commit = record {
  id = id;
  running = true;
  partitioned = false;
  term = 1;
  commit_index = commit;
  leader_id = 1;
  is_leader = false;
}

abbrev down : ℕ → Status
down id = record (up id 0) { running = false; leader_id = 0 }

abbrev seen : List Status → ℕ → Observation
seen nodes t = record {
  snap = build_snapshot nodes;
  stepdowns = some 0;
  now = t;
  clock = λ k. t;
  is_written = λ k. true;
}

-- Three nodes, then one alone, then two again, which do not commit for two minutes.
abbrev bad_day : List Observation
bad_day =
    seen (up 1 9 ∷ down 2 ∷ down 3 ∷ []) 2000000000
    ∷ seen (up 1 9 ∷ up 2 9 ∷ down 3 ∷ []) 120000000000
    ∷ []

abbrev morning : Memory
morning = first_memory (seen (up 1 9 ∷ up 2 9 ∷ up 3 9 ∷ []) 0)

read_log-observe_all_example :
    read_log (observe_all bad_day morning).1 (believes morning)
    ≡ some (believes (observe_all bad_day morning).0)
unfolding first_memory
read_log-observe_all_example =
    read_log-observe_all bad_day morning refl ((λ k. refl), ((λ k. refl), tt))

tail_audit-joined_example :
    tail_audit 1 (joined ((97 ∷ []) ∷ (98 ∷ 99 ∷ []) ∷ []))
    ≡ last_of 1 ((97 ∷ []) ∷ (98 ∷ 99 ∷ []) ∷ [])
tail_audit-joined_example =
    tail_audit-joined 1 ((97 ∷ []) ∷ (98 ∷ 99 ∷ []) ∷ []) ((refl, refl), ((refl, refl), tt))

one_line : AuditEntry → Option Bytes
one_line e = some (123 ∷ 125 ∷ [])

abbrev new_log : AuditLog
new_log = record { content = []; rotated = []; size = 0; is_open = true }

-- A write that fails after 2 of its 3 bytes.
abbrev disk_full : Calls
disk_full = record { written = false; torn = 2; renamed = true; reopened = true }

abbrev opened : AuditEntry
opened = entry_from 0 controlplane_started (build_snapshot (up 1 9 ∷ [])) 9

write-IsSized_example : IsSizedAfter disk_full 0 (write one_line disk_full opened new_log)
write-IsSized_example =
    write-IsSized one_line disk_full opened new_log 0 refl refl
      (record { exact = refl; small = omega arith })

-- Two clients, and one of them without an address; the second request of each comes too soon.
abbrev asked : List Disruption
asked =
    record { client = 55 ∷ []; time = 40 }
    ∷ record { client = []; time = 25 }
    ∷ record { client = 55 ∷ []; time = 20 }
    ∷ record { client = []; time = 12 }
    ∷ record { client = 55 ∷ []; time = 10 }
    ∷ []

allowed-Spaced_example : Spaced 20 (allowed 20 asked).0
allowed-Spaced_example = allowed-Spaced 20 asked (
  (omega arith, (omega arith, (omega arith, (omega arith, tt)))),
  (
    (omega arith, (omega arith, (omega arith, tt))),
    ((omega arith, (omega arith, tt)), ((omega arith, tt), (tt, tt))),
  ),
)
