-- ===== src/Kv/Command.antt =====
-- internal/kv/command.go: commands and their bytes in a Raft log entry.
pub mod Codec
pub mod Total
use kill_my_cluster.Prelude.{
  ℕ, ◌+◌, ◌%◌, List, [], ◌∷◌, ◌++◌, Bool, Option, none, some, ltb, length, get_elem?,
}
use kill_my_cluster.Prelude.Bytes.{Bytes, slice, slice_from, uint32, uint64, be32, be64}
use kill_my_cluster.Prelude.Result.{Result, ok, ◌>>=◌, ◌>>◌, fail_if, or_panic}

-- OpType is a byte: any value may come out of the log.
abbrev pub op_get : ℕ
op_get = 1

abbrev pub op_put : ℕ
op_put = 2

abbrev pub op_cas : ℕ
op_cas = 3

abbrev pub op_checkpoint : ℕ
op_checkpoint = 4

pub record Command : Type 0 where
  pub op : ℕ
  pub client_id : Bytes
  pub request_id : ℕ
  pub key : Bytes
  pub value : Bytes
  pub expect : Bytes

pub record ApplyResult : Type 0 where
  pub found : Bool
  pub value : Bytes
  pub duplicate : Bool

pub data Error : Type 0 where
  payload_too_short : Error
  truncated_client_len truncated_client : Error
  truncated_key_len truncated_key : Error
  truncated_expect_len truncated_expect : Error

-- "_checkpoint/" + clientID
abbrev pub checkpoint_key : Bytes → Bytes
checkpoint_key client_id =
    (95 ∷ 99 ∷ 104 ∷ 101 ∷ 99 ∷ 107 ∷ 112 ∷ 111 ∷ 105 ∷ 110 ∷ 116 ∷ 47 ∷ []) ++ client_id

unfoldable pub encode : Command → Bytes
encode c =
    (c.op % 256) ∷ be32 (length c.client_id)
    ++ (c.client_id
        ++ (be64 c.request_id
            ++ (be32 (length c.key)
                ++ (c.key ++ (be32 (length c.expect) ++ (c.expect ++ c.value))))))

abbrev read_with : (Bytes → Option ℕ) → Option Bytes → Option ℕ
read_with number none = none
read_with number (some b) = number b

-- binary.BigEndian.Uint32(payload[off:]) and Uint64(payload[off:])
unfoldable pub read32 : Bytes → ℕ → Option ℕ
read32 payload off = read_with uint32 (slice_from payload off)

unfoldable pub read64 : Bytes → ℕ → Option ℕ
read64 payload off = read_with uint64 (slice_from payload off)

-- Decode from expectLen on, which stands at `off`. An int has 64 bits: sums of lengths do not wrap.
unfoldable pub decode_expect : Bytes → ℕ → ℕ → Bytes → ℕ → Bytes → Result Error Command
decode_expect payload off op client_id request_id key = do
  fail_if (ltb (length payload) (off + 4)) truncated_expect_len
  expect_len ← or_panic (read32 payload off)
  fail_if (ltb (length payload) (off + 4 + expect_len)) truncated_expect
  expect ← or_panic (slice payload (off + 4) (off + 4 + expect_len))
  value ← or_panic (slice_from payload (off + 4 + expect_len))
  ok (record {
    op = op;
    client_id = client_id;
    request_id = request_id;
    key = key;
    value = value;
    expect = expect;
  })

-- Decode from keyLen on.
unfoldable pub decode_key : Bytes → ℕ → ℕ → Bytes → ℕ → Result Error Command
decode_key payload off op client_id request_id = do
  fail_if (ltb (length payload) (off + 4)) truncated_key_len
  key_len ← or_panic (read32 payload off)
  fail_if (ltb (length payload) (off + 4 + key_len + 4)) truncated_key
  key ← or_panic (slice payload (off + 4) (off + 4 + key_len))
  decode_expect payload (off + 4 + key_len) op client_id request_id key

unfoldable pub decode : Bytes → Result Error Command
decode payload = do
  fail_if (ltb (length payload) (1 + 4 + 8 + 4 + 4)) payload_too_short
  op ← or_panic (get_elem? payload 0)
  fail_if (ltb (length payload) (1 + 4)) truncated_client_len
  client_len ← or_panic (read32 payload 1)
  fail_if (ltb (length payload) (5 + client_len + 8 + 4)) truncated_client
  client_id ← or_panic (slice payload 5 (5 + client_len))
  request_id ← or_panic (read64 payload (5 + client_len))
  decode_key payload (5 + client_len + 8) op client_id request_id
