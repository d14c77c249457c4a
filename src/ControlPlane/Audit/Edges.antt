-- ===== src/ControlPlane/Audit/Edges.antt =====
-- internal/controlplane/audit.go: what the log tells of the quorum and of stalls.
use kill_my_cluster.Prelude.{
  ℕ, ◌-◌, ◌≡◌, refl, ap, ◌∙◌, Bool, true, false, not, ◌&&◌, Option, none, some, List, [], ◌∷◌, ◌++◌,
  if◌then◌else◌, if_case, arith, All,
}
use kill_my_cluster.ControlPlane.Audit.{
  Kind, quorum_regained, quorum_lost, progress_resumed, progress_stalled, Memory, Observation,
  max_commit_index, quorum_edge, leader_edge, progress_edge, stepdown_edge, stalls, moved,
  next_memory, logged, observe,
}

-- What a reader of the log believes.
pub record Belief : Type 0 where
  pub quorum : Bool
  pub stalled : Bool

-- A reader who takes one line; `none` where the line contradicts what was read before.
abbrev pub read_line : Kind → Belief → Option Belief
read_line quorum_regained b = if b.quorum then none else some (record b { quorum = true })
read_line (quorum_lost alive total) b =
    if b.quorum then some (record b { quorum = false }) else none
read_line (progress_stalled commit since) b =
    if b.quorum && not b.stalled then some (record b { stalled = true }) else none
read_line (progress_resumed since commit) b =
    if b.stalled then some (record b { stalled = false }) else none
read_line _ b = some b

abbrev pub read_then : Option Belief → (Belief → Option Belief) → Option Belief
read_then none next = none
read_then (some b) next = next b

unfoldable pub read_log : List Kind → Belief → Option Belief
read_log [] b = some b
read_log (k ∷ ks) b = read_then (read_line k b) (read_log ks)

abbrev pub believes : Memory → Belief
believes m = record { quorum = m.last_quorum; stalled = m.stalled }

-- observe on one tick after another.
unfoldable pub observe_all : List Observation → Memory → Memory × List Kind
observe_all [] m = (m, [])
observe_all (o ∷ os) m =
    let (m', ks) = observe o m in let (m'', rest) = observe_all os m' in (m'', ks ++ rest)

read_log-append :
    (xs ys : List Kind) (b c : Belief)
    → read_log xs b ≡ some c
    → read_log (xs ++ ys) b ≡ read_log ys c
unfolding read_log
read_log-append [] ys b c h = ap (λ o. read_then o (read_log ys)) h
read_log-append (k ∷ xs) ys b c h = step (λ d. read_log-append xs ys d c) (read_line k b) h
  where
    step :
        ((d : Belief) → read_log xs d ≡ some c → read_log (xs ++ ys) d ≡ read_log ys c)
        → (o : Option Belief) → read_then o (read_log xs) ≡ some c
        → read_then o (read_log (xs ++ ys)) ≡ read_log ys c
    step rest none e = cc
    step rest (some d) e = rest d e

quorum_part :
    (q p s : Bool) (a t : ℕ)
    → read_log
        (if q
          then (if p then [] else quorum_regained ∷ [])
          else if p
          then quorum_lost a t ∷ []
          else [])
        (record { quorum = p; stalled = s })
      ≡ some (record { quorum = q; stalled = s })
unfolding read_log
quorum_part true true s a t = refl
quorum_part true false s a t = refl
quorum_part false true s a t = refl
quorum_part false false s a t = refl

progress_part :
    (mv st was q : Bool) (a b c d : ℕ)
    → (st ≡ true → (q ≡ true) × (was ≡ false))
    → read_log
        (if mv
          then (if was then progress_resumed a b ∷ [] else [])
          else if st
          then progress_stalled c d ∷ []
          else [])
        (record { quorum = q; stalled = was })
      ≡ some (record { quorum = q; stalled = if mv then false else if st then true else was })
unfolding read_log
progress_part true st true q a b c d h = refl
progress_part true st false q a b c d h = refl
progress_part false true was q a b c d h = rw ((h refl).0, (h refl).1) refl
progress_part false false was q a b c d h = refl

-- No line of this tick fails to be written.
abbrev pub AllWritten : Observation → Type 0
AllWritten o = (k : Kind) → o.is_written k ≡ true

logged-all : (o : Observation) → AllWritten o → (ks : List Kind) → logged o.is_written ks ≡ ks
unfolding logged
logged-all o ok [] = refl
logged-all o ok (k ∷ ks) = rw (ok k, logged-all o ok ks) refl

module _ (o : Observation) (m : Memory) where
  read_quorum :
      (s : Bool)
      → read_log (quorum_edge o m) (record { quorum = m.last_quorum; stalled = s })
        ≡ some (record { quorum = o.snap.quorum; stalled = s })
  unfolding read_log
  read_quorum s = quorum_part o.snap.quorum m.last_quorum s o.snap.alive o.snap.total

  read_leader : (b : Belief) → read_log (leader_edge o m) b ≡ some b
  unfolding read_log
  read_leader b = ground arith

  read_progress :
      read_log (progress_edge o m) (record { quorum = o.snap.quorum; stalled = m.stalled })
      ≡ some (record { quorum = o.snap.quorum; stalled = (next_memory o m).stalled })
  unfolding read_log next_memory
  read_progress =
      progress_part (moved o m) (stalls o m) m.stalled o.snap.quorum (o.now - m.commit_since)
        m.last_commit (max_commit_index o.snap.nodes) (o.now - m.commit_since)
        (λ e. (ground arith, ground arith))

  read_stepdown : (s : Option ℕ) (b : Belief) → read_log (stepdown_edge s m) b ≡ some b
  unfolding read_log
  read_stepdown none b = refl
  read_stepdown (some n) b = ground arith

  read_observe :
      m.started ≡ true
      → AllWritten o
      → (read_log (observe o m).1 (believes m) ≡ some (believes (observe o m).0))
        × ((observe o m).0.started ≡ true)
  unfolding observe
  read_observe up ok =
      if_case Q (not m.started) _ (next_memory o m, logged o.is_written edges)
        (λ e. absurd (cc (up, e)))
        (λ _. (
          ap (λ ks. read_log ks (believes m)) (logged-all o ok edges)
              ∙ (read_log-append (quorum_edge o m) _ (believes m) held (read_quorum m.stalled)
                  ∙ (read_log-append (leader_edge o m) _ held held (read_leader held)
                      ∙ (read_log-append (progress_edge o m) (stepdown_edge o.stepdowns m) held
                            after read_progress
                          ∙ (read_stepdown o.stepdowns after ∙ same)))),
          started,
        ))
    where
      held : Belief
      held = record { quorum = o.snap.quorum; stalled = m.stalled }

      after : Belief
      after = record { quorum = o.snap.quorum; stalled = (next_memory o m).stalled }

      same : some after ≡ some (believes (next_memory o m))
      same = unfold next_memory in refl

      started : (next_memory o m).started ≡ true
      started = unfold next_memory in refl

      edges : List Kind
      edges =
          quorum_edge o m ++ (leader_edge o m ++ (progress_edge o m ++ stepdown_edge o.stepdowns m))

      Q : Memory × List Kind → Type 0
      Q r = (read_log r.1 (believes m) ≡ some (believes r.0)) × (r.0.started ≡ true)

-- The log is a true memory of the quorum and of stalls, where every line that observe writes gets into
-- it: once it has started, over any ticks, no line contradicts what the lines before it say (no quorum is
-- lost or regained twice running, no stall is reported within another or without a quorum, none is
-- resumed that was not reported), and who has read all lines knows whether there is a quorum and a
-- stall now.
pub read_log-observe_all :
    (os : List Observation) (m : Memory)
    → m.started ≡ true
    → All AllWritten os
    → read_log (observe_all os m).1 (believes m) ≡ some (believes (observe_all os m).0)
unfolding observe_all
read_log-observe_all [] m up ok = unfold read_log in refl
read_log-observe_all (o ∷ os) m up ok =
    read_log-append (observe o m).1 (observe_all os (observe o m).0).1 (believes m)
      (believes (observe o m).0) (read_observe o m up ok.0).0
    ∙ read_log-observe_all os (observe o m).0 (read_observe o m up ok.0).1 ok.1
