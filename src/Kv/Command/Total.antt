-- ===== src/Kv/Command/Total.antt =====
-- internal/kv/command.go: Decode on any bytes.
use kill_my_cluster.Prelude.{
  ℕ, ◌+◌, ◌-◌, ◌≤◌, ◌≡◌, ◌≢◌, refl, some, [], ◌∷◌, arith, length, length-drop, ltb, take, drop,
  get_elem?, ltb→le, Bool-cases, inl, inr,
}
use kill_my_cluster.Prelude.Bytes.{Bytes, uint64, slice-some, slice_from-some, uint32-some}
use kill_my_cluster.Prelude.Result.{panic}
use kill_my_cluster.Kv.Command.{read32, read64, decode_expect, decode_key, decode}

uint64-some : (b : Bytes) → 8 ≤ length b → (n : ℕ) × (uint64 b ≡ some n)
unfolding uint64
uint64-some [] h = absurd (omega arith)
uint64-some (_ ∷ []) h = absurd (omega arith)
uint64-some (_ ∷ _ ∷ []) h = absurd (omega arith)
uint64-some (_ ∷ _ ∷ _ ∷ []) h = absurd (omega arith)
uint64-some (_ ∷ _ ∷ _ ∷ _ ∷ []) h = absurd (omega arith)
uint64-some (_ ∷ _ ∷ _ ∷ _ ∷ _ ∷ []) h = absurd (omega arith)
uint64-some (_ ∷ _ ∷ _ ∷ _ ∷ _ ∷ _ ∷ []) h = absurd (omega arith)
uint64-some (_ ∷ _ ∷ _ ∷ _ ∷ _ ∷ _ ∷ _ ∷ []) h = absurd (omega arith)
uint64-some (a ∷ b ∷ c ∷ d ∷ e ∷ f ∷ g ∷ k ∷ rest) h = (_, refl)

read32-some : (b : Bytes) (off : ℕ) → off + 4 ≤ length b → (n : ℕ) × (read32 b off ≡ some n)
unfolding read32
read32-some b off h =
    let (n, e) = uint32-some (drop off b) (omega (arith, length-drop off b)) in
    (n, rw (slice_from-some b off (omega arith), read32) e)

read64-some : (b : Bytes) (off : ℕ) → off + 8 ≤ length b → (n : ℕ) × (read64 b off ≡ some n)
unfolding read64
read64-some b off h =
    let (n, e) = uint64-some (drop off b) (omega (arith, length-drop off b)) in
    (n, rw (slice_from-some b off (omega arith), read64) e)

module _ (payload : Bytes) where
  decode_expect-ne-panic :
      (off op : ℕ) (client_id : Bytes) (request_id : ℕ) (key : Bytes)
      → decode_expect payload off op client_id request_id key ≢ panic
  unfolding decode_expect
  decode_expect-ne-panic off op client_id request_id key p =
      elim (Bool-cases (ltb (length payload) (off + 4))) [
        | inl short ↦ ground arith
        | inr fits ↦
            let (n, e) = read32-some payload off (ltb→le _ _ fits) in
            ground (
              arith,
              e,
              slice-some payload (off + 4) (off + 4 + n),
              slice_from-some payload (off + 4 + n),
            )
      ]

  decode_key-ne-panic :
      (off op : ℕ) (client_id : Bytes) (request_id : ℕ)
      → decode_key payload off op client_id request_id ≢ panic
  unfolding decode_key
  decode_key-ne-panic off op client_id request_id p =
      elim (Bool-cases (ltb (length payload) (off + 4))) [
        | inl short ↦ ground arith
        | inr fits ↦
            let (n, e) = read32-some payload off (ltb→le _ _ fits) in
            ground (
              arith,
              e,
              slice-some payload (off + 4) (off + 4 + n),
              decode_expect-ne-panic (off + 4 + n) op client_id request_id
                  (take (off + 4 + n - (off + 4)) (drop (off + 4) payload)),
            )
      ]

head_of : (b : Bytes) → 1 ≤ length b → (x : ℕ) × (get_elem? b 0 ≡ some x)
head_of [] h = absurd (omega arith)
head_of (x ∷ xs) h = (x, refl)

-- Decode does not panic on any bytes.
pub decode-ne-panic : (payload : Bytes) → decode payload ≢ panic
unfolding decode
decode-ne-panic payload p = elim (Bool-cases (ltb (length payload) (1 + 4 + 8 + 4 + 4))) [
  | inl short ↦ ground arith
  | inr long ↦
      let (op, first) = head_of payload (omega (arith, ltb→le _ _ long)) in
      let (n, e) = read32-some payload 1 (omega (arith, ltb→le _ _ long)) in
      elim (Bool-cases (ltb (length payload) (5 + n + 8 + 4))) [
        | inl cut ↦ ground (arith, first, e)
        | inr room ↦
            let (r, f) = read64-some payload (5 + n) (omega (arith, ltb→le _ _ room)) in
            ground (
              arith,
              first,
              e,
              f,
              slice-some payload 5 (5 + n),
              decode_key-ne-panic payload (5 + n + 8) op (take (5 + n - 5) (drop 5 payload)) r,
            )
      ]
]
