-- ===== src/Storage/Wal.antt =====
-- internal/storage/wal.go: framing, appending, fsync and replay.
pub mod Recovery
use kill_my_cluster.Prelude.{
  ℕ, zero, suc, ◌+◌, ◌/◌, ◌%◌, Bool, true, false, not, Option, none, some, List, [], ◌∷◌, ◌++◌,
  bit_xor, ltb, ◌==◌, if◌then◌else◌, length, take, drop,
}
use kill_my_cluster.Prelude.Bytes.{Bytes, u32_mod, be32, uint32}
use kill_my_cluster.Prelude.Result.{Result, ok, err, panic}
use mathlib.Core.List.{foldl}

-- hash/crc32 with the Castagnoli polynomial, bit by bit from the lowest.
abbrev castagnoli : ℕ
castagnoli = 0x82f6_3b78

crc_bit : ℕ → ℕ
crc_bit c = if c % 2 == 1 then bit_xor (c / 2) castagnoli else c / 2

crc_byte : ℕ → ℕ → ℕ
unfolding crc_bit
crc_byte c b =
    crc_bit (crc_bit (crc_bit (crc_bit (crc_bit (crc_bit (crc_bit (crc_bit (bit_xor c b))))))))

unfoldable pub checksum : Bytes → ℕ
unfolding crc_byte
checksum payload = bit_xor (foldl crc_byte 0xffff_ffff payload) 0xffff_ffff % u32_mod

-- | payloadLen | crc32c(payload) |
unfoldable pub header : Bytes → Bytes
header payload = be32 (length payload) ++ be32 (checksum payload)

abbrev pub frame : Bytes → Bytes
frame payload = header payload ++ payload

-- The open log file. `durable` is what an fsync has made stable, `cached` what was written and not
-- yet fsynced, `buffered` what the bufio.Writer still holds.
pub record Wal : Type 0 where
  pub durable : Bytes
  pub cached : Bytes
  pub buffered : Bytes

-- Which of the system calls of an operation succeed.
pub record Io : Type 0 where
  pub header_written : Bool
  pub payload_written : Bool
  pub flushed : Bool
  pub synced : Bool

-- The state that the call leaves, and whether it returned no error.
unfoldable pub append : Io → Bytes → Wal → Wal × Bool
append io payload w =
    if not io.header_written
    then (w, false)
    else if not io.payload_written
    then (record w { buffered = w.buffered ++ header payload }, false)
    else (record w { buffered = w.buffered ++ frame payload }, true)

unfoldable pub sync : Io → Wal → Wal × Bool
sync io w =
    if not io.flushed
    then (w, false)
    else if not io.synced
    then (record w { cached = w.cached ++ w.buffered; buffered = [] }, false)
    else (
      record { durable = w.durable ++ (w.cached ++ w.buffered); cached = []; buffered = [] },
      true,
    )

-- Close flushes and does not fsync.
unfoldable pub close : Bool → Wal → Wal × Bool
close flushed w =
    if not flushed
    then (w, false)
    else (record w { cached = w.cached ++ w.buffered; buffered = [] }, true)

-- OpenWAL on a file that holds these bytes.
abbrev pub open_wal : Bytes → Wal
open_wal content = record { durable = content; cached = []; buffered = [] }

-- What a crash leaves of the file: the durable bytes and some prefix of the rest.
abbrev pub crash : ℕ → Wal → Bytes
crash n w = w.durable ++ take n (w.cached ++ w.buffered)

-- One round of the replay loop: the end of the file, a torn or corrupt frame, or a valid frame and
-- what follows it.
pub data Frame : Type 0 where
  stop : Frame
  valid : Bytes → Bytes → Frame

read_payload : ℕ → ℕ → Bytes → Frame
read_payload payload_len want_crc rest =
    if ltb (length rest) payload_len
    then stop
    else let payload = take payload_len rest in
      if checksum payload == want_crc then valid payload (drop payload_len rest) else stop

abbrev read_header : Option ℕ → Option ℕ → Bytes → Frame
read_header (some payload_len) (some want_crc) rest = read_payload payload_len want_crc rest
read_header _ _ rest = stop

unfoldable pub read_frame : Bytes → Frame
unfolding read_payload
read_frame file =
    if ltb (length file) 8
    then stop
    else read_header (uint32 (take 4 file)) (uint32 (take 4 (drop 4 file))) (drop 8 file)

-- What replayWAL returns, beside the state that its callback has built.
pub record Replay (E : Type 0) (S : Type 0) : Type 0 where
  pub state : S
  pub valid_offset : ℕ
  pub outcome : Result E (Unit {0})

module _ {E S : Type 0} (fn : S → Bytes → Result E S) where
  -- The loop, on fuel; without fuel it stops as at the end of the file.
  unfoldable pub replay_loop : ℕ → Bytes → ℕ → S → Replay E S
  replay_loop zero file offset s = record { state = s; valid_offset = offset; outcome = ok tt }
  replay_loop (suc fuel) file offset s = elim (read_frame file) [
    | stop ↦ record { state = s; valid_offset = offset; outcome = ok tt }
    | valid payload rest ↦ elim (fn s payload) [
      | ok s' ↦ replay_loop fuel rest (offset + 8 + length payload) s'
      | err e ↦ record { state = s; valid_offset = offset; outcome = err e }
      | panic ↦ record { state = s; valid_offset = offset; outcome = panic }
    ]
  ]

  -- A file that is not there has nothing to replay.
  unfoldable pub replay_wal : Option Bytes → S → Replay E S
  unfolding replay_loop
  replay_wal none s = record { state = s; valid_offset = 0; outcome = ok tt }
  replay_wal (some file) s = replay_loop (length file) file 0 s
