-- ===== src/Storage/Wal/Recovery.antt =====
-- internal/storage/wal.go: what replayWAL finds in a log that was cut.
use kill_my_cluster.Prelude.{
  ℕ, zero, suc, ◌+◌, ◌-◌, ◌≤◌, ◌<◌, ◌≡◌, refl, sym, ap, ◌∙◌, List, [], ◌∷◌, ◌++◌, arith, some,
  length, length-append, leb, if◌then◌else◌, take, length-take-le, take-append, take-append_ge,
  take-append_le, drop-append, append_assoc, All,
}
use mathlib.Core.List.{foldl}
use native.Mathlib.Decide.{dec_lt}
use kill_my_cluster.Prelude.Bytes.{Bytes, u32_mod, be32, uint32}
use kill_my_cluster.Prelude.Result.{Result, ok}
use kill_my_cluster.Storage.Wal.{
  stop, valid, Replay, checksum, header, frame, read_frame, replay_loop, replay_wal,
}

abbrev pub Fits : Bytes → Type 0
Fits payload = length payload < u32_mod

abbrev pub frames : List Bytes → Bytes
frames [] = []
frames (p ∷ ps) = frame p ++ frames ps

checksum-lt : (p : Bytes) → checksum p < u32_mod
unfolding checksum
checksum-lt p = omega arith

pub length-header : (p : Bytes) → length (header p) ≡ 8
unfolding header be32
length-header p = refl

-- A whole frame is read back, whatever follows it.
read_frame-frame : (p rest : Bytes) → Fits p → read_frame (frame p ++ rest) ≡ valid p rest
unfolding read_frame header be32 uint32
read_frame-frame p rest h = ground (
  arith,
  checksum-lt p,
  length-append p rest,
  take-append (length p) p rest,
  drop-append (length p) 0 p rest,
)

torn_header : (n : ℕ) (bytes : Bytes) → n < 8 → read_frame (take n bytes) ≡ stop
unfolding read_frame
torn_header n bytes h = ground (arith, length-take-le n bytes)

torn_payload :
    (n : ℕ) (p : Bytes)
    → Fits p
    → n < length p
    → read_frame (take (suc (suc (suc (suc (suc (suc (suc (suc n)))))))) (frame p)) ≡ stop
unfolding read_frame header be32 uint32
torn_payload n p h short = ground (arith, length-take-le n p)

-- A frame that was cut short ends the replay.
read_frame-torn :
    (n : ℕ) (p : Bytes) → Fits p → n < length (frame p) → read_frame (take n (frame p)) ≡ stop
read_frame-torn (suc (suc (suc (suc (suc (suc (suc (suc n)))))))) p h short =
    torn_payload n p h (omega (arith, length-append (header p) p, length-header p))
read_frame-torn n p h short = torn_header n (frame p) (omega arith)

-- How many of the frames a log that was cut after `n` bytes holds whole.
unfoldable pub whole : ℕ → List Bytes → ℕ
whole n [] = 0
whole n (p ∷ ps) =
    let rest = whole (n - length (frame p)) ps in if leb (length (frame p)) n then suc rest else 0

pub length-frame : (p : Bytes) → length (frame p) ≡ 8 + length p
length-frame p = omega (arith, length-append (header p) p, length-header p)

pub take_nil {ℓ} : {A : Type ℓ} (n : ℕ) → take {A = A} n [] ≡ []
take_nil zero = refl
take_nil (suc n) = refl

pub whole_all : (n : ℕ) (ps : List Bytes) → length (frames ps) ≤ n → whole n ps ≡ length ps
unfolding whole
whole_all n [] h = refl
whole_all n (p ∷ ps) h =
    ground (arith, length-append (frame p) (frames ps), whole_all (n - length (frame p)) ps)

pub whole_le : (n : ℕ) (ps : List Bytes) → whole n ps ≤ length ps
unfolding whole
whole_le n [] = omega arith
whole_le n (p ∷ ps) = ground (arith, whole_le (n - length (frame p)) ps)

pub whole_hit :
    (n : ℕ) (p : Bytes) (ps : List Bytes)
    → length (frame p) ≤ n
    → whole n (p ∷ ps) ≡ suc (whole (n - length (frame p)) ps)
unfolding whole
whole_hit n p ps h = ground arith

pub whole_miss : (n : ℕ) (p : Bytes) (ps : List Bytes) → n < length (frame p) → whole n (p ∷ ps) ≡ 0
unfolding whole
whole_miss n p ps h = ground arith

-- A callback that never fails on the payloads at hand.
module _ {E S : Type 0} (fn : S → Bytes → Result E S) (step : S → Bytes → S) (P : Bytes → Type 0)
    (total : (s : S) (p : Bytes) → P p → fn s p ≡ ok (step s p)) where
  abbrev replayed : ℕ → S → List Bytes → Replay E S
  replayed offset s ps = record {
    state = foldl step s ps;
    valid_offset = offset + length (frames ps);
    outcome = ok tt;
  }

  replay_loop-nil :
      (fuel offset : ℕ) (s : S) (file : Bytes)
      → read_frame file ≡ stop
      → replay_loop fn fuel file offset s ≡ replayed offset s []
  unfolding replay_loop
  replay_loop-nil zero offset s file h = ground arith
  replay_loop-nil (suc fuel) offset s file h = rw (h, replay_loop) (ground arith)

  replay_loop-step :
      (fuel offset : ℕ) (s : S) (p file rest : Bytes)
      → P p
      → read_frame file ≡ valid p rest
      → replay_loop fn (suc fuel) file offset s
        ≡ replay_loop fn fuel rest (offset + 8 + length p) (step s p)
  unfolding replay_loop
  replay_loop-step fuel offset s p file rest good h =
      rw (h, replay_loop) (rw (total s p good, replay_loop))

  replayed-cons :
      (offset : ℕ) (s : S) (p : Bytes) (ps : List Bytes)
      → replayed (offset + 8 + length p) (step s p) ps ≡ replayed offset s (p ∷ ps)
  replayed-cons offset s p ps = ground (arith, length-append (frame p) (frames ps), length-frame p)

  one_more :
      (fuel offset : ℕ) (s : S) (p rest : Bytes) (ps : List Bytes)
      → Fits p
      → P p
      → length (frame p ++ rest) ≤ fuel
      → ((k : ℕ)
          → length rest ≤ k
          → replay_loop fn k rest (offset + 8 + length p) (step s p)
            ≡ replayed (offset + 8 + length p) (step s p) ps)
      → replay_loop fn fuel (frame p ++ rest) offset s ≡ replayed offset s (p ∷ ps)
  one_more zero offset s p rest ps fits good enough ih =
      absurd (omega (arith, length-append (frame p) rest, length-frame p))
  one_more (suc fuel) offset s p rest ps fits good enough ih =
      replay_loop-step fuel offset s p (frame p ++ rest) rest good (read_frame-frame p rest fits)
      ∙ (ih fuel (omega (arith, length-append (frame p) rest, length-frame p))
          ∙ replayed-cons offset s p ps)

  replay_loop-cut :
      (fuel n offset : ℕ) (s : S) (ps : List Bytes)
      → All Fits ps
      → All P ps
      → length (take n (frames ps)) ≤ fuel
      → replay_loop fn fuel (take n (frames ps)) offset s ≡ replayed offset s (take (whole n ps) ps)
  replay_loop-cut fuel n offset s [] fits good enough =
      rw (take_nil (whole n []))
        (replay_loop-nil fuel offset s (take n []) (rw take_nil (torn_header 0 [] (omega arith))))
  replay_loop-cut fuel n offset s (p ∷ ps) fits good enough = elim (dec_lt n (length (frame p))) [
    | yes cut ↦
        rw (whole_miss n p ps cut, take-append_le n (frame p) (frames ps) (omega arith))
          (replay_loop-nil fuel offset s _ (read_frame-torn n p fits.0 cut))
    | no all ↦
        rw (whole_hit n p ps (omega arith), take-append_ge n (frame p) (frames ps) (omega arith))
          (one_more fuel offset s p _ _ fits.0 good.0
            (omega (arith, ap length (take-append_ge n (frame p) (frames ps) (omega arith))))
            (λ k h. replay_loop-cut k (n - length (frame p)) _ _ ps fits.1 good.1 h))
  ]

  -- Where each payload fits a frame and the callback does not fail on it, replaying a log that is
  -- cut after `n` bytes runs the callback on exactly the payloads whose frames are whole, in
  -- order, and returns the offset of the end of these frames and no error.
  pub replay_wal-cut :
      (n : ℕ) (s : S) (ps : List Bytes)
      → All Fits ps
      → All P ps
      → replay_wal fn (some (take n (frames ps))) s ≡ replayed 0 s (take (whole n ps) ps)
  unfolding replay_wal
  replay_wal-cut n s ps fits good =
      replay_loop-cut (length (take n (frames ps))) n 0 s ps fits good (omega arith)

-- A log that was cut is its whole frames and a torn rest.
pub cut_frames :
    (n : ℕ) (ps : List Bytes)
    → (torn : Bytes) × (take n (frames ps) ≡ frames (take (whole n ps) ps) ++ torn)
cut_frames n [] = ([], rw (take_nil n, take_nil (whole n [])))
cut_frames n (p ∷ ps) = elim (dec_lt n (length (frame p))) [
  | yes cut ↦ (
    take n (frame p),
    rw (whole_miss n p ps cut, take-append_le n (frame p) (frames ps) (omega arith)),
  )
  | no all ↦
      let (torn, e) = cut_frames (n - length (frame p)) ps in
      (
        torn,
        rw (whole_hit n p ps (omega arith), take-append_ge n (frame p) (frames ps) (omega arith), e)
            (sym (append_assoc (frame p) _ torn)),
      )
]
