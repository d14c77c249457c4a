-- ===== src/Kv/Command/Codec.antt =====
-- internal/kv/command.go: Decode on what Encode writes.
use kill_my_cluster.Prelude.{
  ℕ, ◌+◌, ◌<◌, ◌≡◌, refl, ap, ◌∙◌, sym, some, [], ◌∷◌, ◌++◌, arith, length, length-append,
  append_assoc,
}
use kill_my_cluster.Prelude.Bytes.{
  Bytes, u32_mod, u64_mod, slice, slice_from, be32, be64, uint32-be32, uint64-be64, length-be32,
  length-be64, slice-append, slice_from-append,
}
use kill_my_cluster.Prelude.Result.{ok}
use kill_my_cluster.Kv.Command.{Command, encode, read32, read64, decode_expect, decode_key, decode}

-- What fits the format.
pub record IsEncodable (c : Command) : Type 0 where
  pub op_byte : c.op < 256
  pub client_fits : length c.client_id < u32_mod
  pub request_fits : c.request_id < u64_mod
  pub key_fits : length c.key < u32_mod
  pub expect_fits : length c.expect < u32_mod

-- A number that stands behind `xs`.
read32-append :
    (off n : ℕ) (xs rest : Bytes)
    → off ≡ length xs
    → n < u32_mod
    → read32 (xs ++ (be32 n ++ rest)) off ≡ some n
unfolding read32
read32-append off n xs rest e h =
    rw (slice_from-append off xs (be32 n ++ rest) e, read32) (uint32-be32 n rest h)

read64-append :
    (off n : ℕ) (xs rest : Bytes)
    → off ≡ length xs
    → n < u64_mod
    → read64 (xs ++ (be64 n ++ rest)) off ≡ some n
unfolding read64
read64-append off n xs rest e h =
    rw (slice_from-append off xs (be64 n ++ rest) e, read64) (uint64-be64 n rest h)

-- A part behind its 32-bit length.
module _ (xs ys rest : Bytes) (n off : ℕ) (e : off ≡ length xs) where
  length-part : length (xs ++ (be32 n ++ (ys ++ rest))) ≡ off + 4 + length ys + length rest
  length-part = omega (
    arith,
    length-append xs (be32 n ++ (ys ++ rest)),
    length-append (be32 n) (ys ++ rest),
    length-be32 n,
    length-append ys rest,
  )

  slice-part : slice (xs ++ (be32 n ++ (ys ++ rest))) (off + 4) (off + 4 + length ys) ≡ some ys
  slice-part =
      ap (λ b. slice b (off + 4) (off + 4 + length ys))
        (sym (append_assoc xs (be32 n) (ys ++ rest)))
      ∙ slice-append (off + 4) (off + 4 + length ys) (xs ++ be32 n) ys rest
          (omega (arith, length-append xs (be32 n), length-be32 n))
          (omega (arith, length-append xs (be32 n), length-be32 n))

  slice_from-part : slice_from (xs ++ (be32 n ++ (ys ++ rest))) (off + 4 + length ys) ≡ some rest
  slice_from-part =
      ap (λ b. slice_from b (off + 4 + length ys))
        (sym (append_assoc xs (be32 n) (ys ++ rest)) ∙ sym (append_assoc (xs ++ be32 n) ys rest))
      ∙ slice_from-append (off + 4 + length ys) ((xs ++ be32 n) ++ ys) rest
          (omega (arith, length-append xs (be32 n), length-be32 n, length-append (xs ++ be32 n) ys))

  part_assoc : xs ++ (be32 n ++ (ys ++ rest)) ≡ (xs ++ (be32 n ++ ys)) ++ rest
  part_assoc =
      ap (λ b. xs ++ b) (sym (append_assoc (be32 n) ys rest))
      ∙ sym (append_assoc xs (be32 n ++ ys) rest)

decode_expect-append :
    (xs : Bytes) (off : ℕ) (c : Command)
    → off ≡ length xs
    → length c.expect < u32_mod
    → decode_expect
        (xs ++ (be32 (length c.expect) ++ (c.expect ++ c.value)))
        off
        c.op
        c.client_id
        c.request_id
        c.key
      ≡ ok c
unfolding decode_expect
decode_expect-append xs off c e h = ground (
  arith,
  length-part xs c.expect c.value (length c.expect) off e,
  read32-append off (length c.expect) xs (c.expect ++ c.value) e h,
  slice-part xs c.expect c.value (length c.expect) off e,
  slice_from-part xs c.expect c.value (length c.expect) off e,
)

decode_key-append :
    (xs : Bytes) (off : ℕ) (c : Command)
    → off ≡ length xs
    → length c.key < u32_mod
    → length c.expect < u32_mod
    → decode_key
        (xs
          ++ (be32 (length c.key) ++ (c.key ++ (be32 (length c.expect) ++ (c.expect ++ c.value)))))
        off
        c.op
        c.client_id
        c.request_id
      ≡ ok c
unfolding decode_key
decode_key-append xs off c e h k = ground (
  arith,
  length-part xs c.key rest (length c.key) off e,
  length-part [] c.expect c.value (length c.expect) 0 refl,
  read32-append off (length c.key) xs (c.key ++ rest) e h,
  slice-part xs c.key rest (length c.key) off e,
  part_assoc xs c.key rest (length c.key) off e,
  decode_expect-append (xs ++ (be32 (length c.key) ++ c.key)) (off + 4 + length c.key) c end k,
)
  where
    rest : Bytes
    rest = be32 (length c.expect) ++ (c.expect ++ c.value)

    end : off + 4 + length c.key ≡ length (xs ++ (be32 (length c.key) ++ c.key))
    end = omega (
      arith,
      length-append xs (be32 (length c.key) ++ c.key),
      length-append (be32 (length c.key)) c.key,
      length-be32 (length c.key),
    )

-- Decoding an encoded command gives the command back, where the op is a byte, the lengths of the
-- client id, key and expected value fit in 32 bits, and the request id in 64.
pub decode-encode : (c : Command) → IsEncodable c → decode (encode c) ≡ ok c
unfolding decode encode
decode-encode c h = ground (
  arith,
  h.op_byte,
  length-part (c.op ∷ []) c.client_id tail (length c.client_id) 1 refl,
  length-append (be64 c.request_id) key_part,
  length-be64 c.request_id,
  length-part [] c.key expect_part (length c.key) 0 refl,
  length-part [] c.expect c.value (length c.expect) 0 refl,
  read32-append 1 (length c.client_id) (c.op ∷ []) (c.client_id ++ tail) refl h.client_fits,
  slice-part (c.op ∷ []) c.client_id tail (length c.client_id) 1 refl,
  ap (λ b. read64 b (5 + length c.client_id)) whole,
  read64-append (5 + length c.client_id) c.request_id front key_part at_request h.request_fits,
  ap (λ b. decode_key b (5 + length c.client_id + 8) c.op c.client_id c.request_id) whole_key,
  decode_key-append (front ++ be64 c.request_id) (5 + length c.client_id + 8) c at_key h.key_fits
      h.expect_fits,
)
  where
    expect_part : Bytes
    expect_part = be32 (length c.expect) ++ (c.expect ++ c.value)

    key_part : Bytes
    key_part = be32 (length c.key) ++ (c.key ++ expect_part)

    tail : Bytes
    tail = be64 c.request_id ++ key_part

    front : Bytes
    front = c.op ∷ (be32 (length c.client_id) ++ c.client_id)

    whole : c.op ∷ be32 (length c.client_id) ++ (c.client_id ++ tail) ≡ front ++ tail
    whole = part_assoc (c.op ∷ []) c.client_id tail (length c.client_id) 1 refl

    whole_key :
        c.op ∷ be32 (length c.client_id) ++ (c.client_id ++ tail)
        ≡ (front ++ be64 c.request_id) ++ key_part
    whole_key = whole ∙ sym (append_assoc front (be64 c.request_id) key_part)

    at_request : 5 + length c.client_id ≡ length front
    at_request = omega (
      arith,
      length-append (be32 (length c.client_id)) c.client_id,
      length-be32 (length c.client_id),
    )

    at_key : 5 + length c.client_id + 8 ≡ length (front ++ be64 c.request_id)
    at_key =
        omega (arith, at_request, length-append front (be64 c.request_id), length-be64 c.request_id)
