-- ===== src/Storage/Record.antt =====
-- internal/storage/record.go: commands and their byte payloads.
pub mod Codec
use kill_my_cluster.Prelude.{ℕ, ◌+◌, ◌-◌, ◌%◌, List, [], ◌∷◌, ◌++◌, ltb, length, get_elem?}
use kill_my_cluster.Prelude.Bytes.{Bytes, u32_mod, slice, slice_from, uint32, be32}
use kill_my_cluster.Prelude.Result.{Result, ok, ◌>>=◌, ◌>>◌, fail_if, or_panic}

-- OpType is a byte: any value may come off the disk.
abbrev pub op_put : ℕ
op_put = 1

abbrev pub op_delete : ℕ
op_delete = 2

pub record Command : Type 0 where
  pub op : ℕ
  pub key : Bytes
  pub value : Bytes

pub data Error : Type 0 where
  payload_too_short key_len_exceeds bad_snapshot : Error

unfoldable pub encode_command : Command → Bytes
encode_command c = (c.op % 256) ∷ be32 (length c.key) ++ (c.key ++ c.value)

-- The end of the key is computed in uint32.
unfoldable pub decode_command : Bytes → Result Error Command
decode_command payload = do
  fail_if (ltb (length payload) 5) payload_too_short
  op ← or_panic (get_elem? payload 0)
  len_bytes ← or_panic (slice payload 1 5)
  key_len ← or_panic (uint32 len_bytes)
  fail_if (ltb (length payload - 5) key_len) key_len_exceeds
  let key_end = (5 + key_len) % u32_mod
  key ← or_panic (slice payload 5 key_end)
  value ← or_panic (slice_from payload key_end)
  ok (record { op = op; key = key; value = value })
