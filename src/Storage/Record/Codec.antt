-- ===== src/Storage/Record/Codec.antt =====
-- internal/storage/record.go: decodeCommand on what encodeCommand writes, and on any bytes.
use kill_my_cluster.Prelude.{
  ℕ, ◌+◌, ◌*◌, ◌%◌, some, append_assoc, ◌<◌, ◌≡◌, ◌≢◌, [], ◌∷◌, ◌++◌, arith, length, length-append,
  append-nil,
}
use kill_my_cluster.Prelude.Bytes.{
  Bytes, u32_mod, be32, uint32, uint32-be32, slice-append, slice_from-append, slice-some,
  slice_from-some,
}
use kill_my_cluster.Prelude.Result.{ok, panic}
use kill_my_cluster.Storage.Record.{Command, encode_command, decode_command}

-- What fits the format: the key's length and the five bytes before it are counted in 32 bits.
pub record IsEncodable (c : Command) : Type 0 where
  pub op_byte : c.op < 256
  pub key_fits : length c.key + 5 < u32_mod

-- The five bytes before the key.
abbrev prefix : Command → Bytes
prefix c = (c.op % 256) ∷ be32 (length c.key)

payload_length : (c : Command) → length (encode_command c) ≡ 5 + length c.key + length c.value
unfolding encode_command be32
payload_length c = omega (arith, length-append c.key c.value)

key_len_read : (c : Command) → IsEncodable c → uint32 (be32 (length c.key)) ≡ some (length c.key)
key_len_read c h = rw append-nil at (uint32-be32 (length c.key) [] (omega arith))

-- Decoding an encoded command gives the command back, where the op is a byte and the key's length
-- plus 5 fits in 32 bits.
pub decode_command-encode_command :
    (c : Command) → IsEncodable c → decode_command (encode_command c) ≡ ok c
unfolding decode_command encode_command be32 uint32
decode_command-encode_command c h = ground (
  arith,
  payload_length c,
  key_len_read c h,
  slice-some (encode_command c) 1 5,
  slice-append 5 (5 + length c.key) (prefix c) c.key c.value,
  slice_from-append (5 + length c.key) (prefix c ++ c.key) c.value,
  append_assoc (prefix c) c.key c.value,
)

-- On a payload shorter than 2 ^ 32 bytes, whatever the bytes are, decodeCommand does not panic.
pub decode_command-ne-panic :
    (payload : Bytes) → length payload < u32_mod → decode_command payload ≢ panic
unfolding decode_command uint32
decode_command-ne-panic [] h e = cc
decode_command-ne-panic (_ ∷ []) h e = cc
decode_command-ne-panic (_ ∷ _ ∷ []) h e = cc
decode_command-ne-panic (_ ∷ _ ∷ _ ∷ []) h e = cc
decode_command-ne-panic (_ ∷ _ ∷ _ ∷ _ ∷ []) h e = cc
decode_command-ne-panic (o ∷ a ∷ b ∷ c ∷ d ∷ rest) h e = ground (
  arith,
  slice-some (o ∷ a ∷ b ∷ c ∷ d ∷ rest) 1 5,
  slice-some (o ∷ a ∷ b ∷ c ∷ d ∷ rest) 5 (5 + key_len),
  slice_from-some (o ∷ a ∷ b ∷ c ∷ d ∷ rest) (5 + key_len),
)
  where
    key_len : ℕ
    key_len = ((a * 256 + b) * 256 + c) * 256 + d
