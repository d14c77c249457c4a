-- ===== src/Kv/Tests.antt =====
-- Runs of the state machine's theorems on one client.
use kill_my_cluster.Prelude.{
  ℕ, zero, suc, subst, length, take, drop, take-append_left, drop-append_left, ◌≡◌, ◌≢◌, refl,
  arith, true, Option, none, some, [], ◌∷◌, ◌++◌,
}
use kill_my_cluster.Prelude.Bytes.{Bytes}
use kill_my_cluster.Prelude.Result.{ok, panic}
use kill_my_cluster.Kv.Command.{Command, ApplyResult, op_put, op_cas, encode, decode}
use kill_my_cluster.Kv.Command.Codec.{decode-encode}
use kill_my_cluster.Kv.Command.Total.{decode-ne-panic}
use kill_my_cluster.Kv.Machine.{
  DedupKey, new_machine, apply, replay, remember, execute, cas, apply_fresh,
}
use kill_my_cluster.Kv.Machine.Once.{apply_once}
use kill_my_cluster.Kv.Machine.Image.{SnapshotData, snapshot, restore, snapshot_data, copy_applied}
use kill_my_cluster.Kv.Machine.Image.Restore.{with_watchers, restore-snapshot, catch_up}
use kill_my_cluster.Prelude.Map
use kill_my_cluster.Prelude.Map.{Map}
use mathlib.Core.Path.{ap₂}

abbrev put_x : Command
put_x = record {
  op = op_put;
  client_id = 99 ∷ [];
  request_id = 1;
  key = 120 ∷ [];
  value = 1 ∷ [];
  expect = [];
}

abbrev swap_x : Command
swap_x = record {
  op = op_cas;
  client_id = 99 ∷ [];
  request_id = 2;
  key = 120 ∷ [];
  value = 2 ∷ [];
  expect = 1 ∷ [];
}

decode-encode_example : decode (encode swap_x) ≡ ok swap_x
decode-encode_example = decode-encode swap_x (record {
  op_byte = omega arith;
  client_fits = omega arith;
  request_fits = omega arith;
  key_fits = omega arith;
  expect_fits = omega arith;
})

abbrev garbage : Bytes
garbage = 2 ∷ 0 ∷ 0 ∷ 0 ∷ 9 ∷ 0 ∷ 0 ∷ 0 ∷ 0 ∷ 0 ∷ 0 ∷ 0 ∷ 0 ∷ 0 ∷ 0 ∷ 0 ∷ 0 ∷ 0 ∷ 0 ∷ 0 ∷ 0 ∷ 7 ∷ []

decode-ne-panic_example : decode garbage ≢ panic
decode-ne-panic_example = decode-ne-panic garbage

apply_once_example : apply put_x (replay (apply put_x new_machine).machine (swap_x ∷ [])) ≡ record {
  machine = replay (apply put_x new_machine).machine (swap_x ∷ []);
  res = record (apply put_x new_machine).res { duplicate = true };
  events = [];
}
unfolding apply apply_fresh execute cas remember Map.put Map.get
apply_once_example = apply_once new_machine put_x (swap_x ∷ []) refl (omega arith) (omega arith)

-- A codec for the images that have one key and no tracked client.
small_bytes : Map Bytes Bytes → Map DedupKey ApplyResult → Map Bytes ℕ → ℕ → Option Bytes
small_bytes [] a m c = none
small_bytes (e ∷ f ∷ d) a m c = none
small_bytes (e ∷ []) (x ∷ a) m c = none
small_bytes (e ∷ []) [] (y ∷ m) c = none
small_bytes (e ∷ []) [] [] (suc c) = none
small_bytes ((k, v) ∷ []) [] [] zero = some (length k ∷ (k ++ v))

small_encode : SnapshotData → Option Bytes
unfolding small_bytes
small_encode x = small_bytes x.data_map x.applied x.max_req x.apply_count

small_image : Bytes → Bytes → SnapshotData
small_image k v = record { data_map = (k, v) ∷ []; applied = []; max_req = []; apply_count = 0 }

small_decode : Bytes → Option SnapshotData
unfolding small_image
small_decode [] = none
small_decode (n ∷ b) = some (small_image (take n b) (drop n b))

some_injective : {A : Type 0} {x y : A} → some x ≡ some y → x ≡ y
some_injective e = cc

small_bytes-decoded :
    (d : Map Bytes Bytes) (a : Map DedupKey ApplyResult) (m : Map Bytes ℕ) (c : ℕ) (b : Bytes)
    → small_bytes d a m c ≡ some b
    → small_decode b ≡ some (record { data_map = d; applied = a; max_req = m; apply_count = c })
unfolding small_bytes small_decode small_image
small_bytes-decoded [] a m c b h = cc
small_bytes-decoded (e ∷ f ∷ d) a m c b h = cc
small_bytes-decoded (e ∷ []) (x ∷ a) m c b h = cc
small_bytes-decoded (e ∷ []) [] (y ∷ m) c b h = cc
small_bytes-decoded (e ∷ []) [] [] (suc c) b h = cc
small_bytes-decoded ((k, v) ∷ []) [] [] zero b h =
    subst (λ x. small_decode x ≡ some (small_image k v)) (some_injective h)
      (ap₂ (λ x y. some (small_image x y)) (take-append_left k v) (drop-append_left k v))

small_decode-small_encode :
    (x : SnapshotData) (b : Bytes) → small_encode x ≡ some b → small_decode b ≡ some x
unfolding small_encode
small_decode-small_encode x b h =
    small_bytes-decoded x.data_map x.applied x.max_req x.apply_count b h

abbrev put_untracked : Command
put_untracked = record put_x { client_id = [] }

abbrev raw : Bytes
raw = 1 ∷ 120 ∷ 1 ∷ []

restore-snapshot_example :
    restore small_decode raw new_machine
    ≡ (with_watchers [] (replay new_machine (put_untracked ∷ [])), true)
unfolding small_encode small_bytes snapshot snapshot_data copy_applied apply apply_fresh execute
    Map.put
restore-snapshot_example =
    restore-snapshot small_encode small_decode small_decode-small_encode
      (replay new_machine (put_untracked ∷ [])) new_machine raw tt refl

catch_up_example :
    replay (restore small_decode raw new_machine).0 (put_x ∷ swap_x ∷ [])
    ≡ with_watchers [] (replay new_machine (put_untracked ∷ put_x ∷ swap_x ∷ []))
unfolding small_encode small_bytes snapshot snapshot_data copy_applied apply apply_fresh execute
    Map.put
catch_up_example =
    catch_up small_encode small_decode small_decode-small_encode (put_untracked ∷ [])
      (put_x ∷ swap_x ∷ []) new_machine raw refl
