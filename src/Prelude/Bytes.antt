-- ===== src/Prelude/Bytes.antt =====
-- Byte slices, slicing with Go's bounds checks, and encoding/binary's big-endian numbers.
use Prim.Native.Nat.{ℕ, ◌+◌, ◌-◌, ◌*◌, ◌/◌, ◌%◌, ◌^◌, ◌≤◌, ◌<◌}
use mathlib.Core.Path.{◌≡◌, refl, ap}
use mathlib.Core.Bool.{◌&&◌}
use mathlib.Core.List.{List, [], ◌∷◌, ◌++◌}
use mathlib.Core.Option.{Option, none, some}
use native.Mathlib.Omega.{arith}
use kill_my_cluster.Prelude.Tests.{leb, if◌then◌else◌}
use kill_my_cluster.Prelude.Lists.{length, take, drop, take-append, drop-append, length-append}

-- A []byte or a string. nil and the empty slice are one value.
abbrev pub Bytes : Type 0
Bytes = List ℕ

abbrev pub u32_mod : ℕ
u32_mod = 2 ^ 32

abbrev pub u64_mod : ℕ
u64_mod = 2 ^ 64

-- x + y on uint64.
abbrev pub add64 : ℕ → ℕ → ℕ
add64 x y = (x + y) % u64_mod

-- b[lo:hi]
unfoldable pub slice : Bytes → ℕ → ℕ → Option Bytes
slice b lo hi = if leb lo hi && leb hi (length b) then some (take (hi - lo) (drop lo b)) else none

-- b[lo:]
unfoldable pub slice_from : Bytes → ℕ → Option Bytes
slice_from b lo = if leb lo (length b) then some (drop lo b) else none

-- binary.BigEndian.PutUint32 and PutUint64 keep the low bits of the number.
unfoldable pub be32 : ℕ → Bytes
be32 n = (n / 2 ^ 24 % 256) ∷ (n / 2 ^ 16 % 256) ∷ (n / 2 ^ 8 % 256) ∷ (n % 256) ∷ []

unfoldable pub be64 : ℕ → Bytes
unfolding be32
be64 n = be32 (n / 2 ^ 32) ++ be32 n

-- binary.BigEndian.Uint32 and Uint64 panic on a short slice.
unfoldable pub uint32 : Bytes → Option ℕ
uint32 (a ∷ b ∷ c ∷ d ∷ rest) = some (((a * 256 + b) * 256 + c) * 256 + d)
uint32 _ = none

unfoldable pub uint64 : Bytes → Option ℕ
uint64 (a ∷ b ∷ c ∷ d ∷ e ∷ f ∷ g ∷ h ∷ rest) =
    some ((((((((a * 256 + b) * 256 + c) * 256 + d) * 256 + e) * 256 + f) * 256 + g) * 256) + h)
uint64 _ = none

pub length-be32 : (n : ℕ) → length (be32 n) ≡ 4
unfolding be32
length-be32 n = refl

pub length-be64 : (n : ℕ) → length (be64 n) ≡ 8
unfolding be64
length-be64 n = refl

pub uint32-be32 : (n : ℕ) (rest : Bytes) → n < u32_mod → uint32 (be32 n ++ rest) ≡ some n
unfolding be32 uint32
uint32-be32 n rest h = ap some (omega arith)

pub uint64-be64 : (n : ℕ) (rest : Bytes) → n < u64_mod → uint64 (be64 n ++ rest) ≡ some n
unfolding be64 uint64
uint64-be64 n rest h = ap some (omega arith)

-- A slice of a buffer that was put together from parts, by its offsets.
pub slice-append :
    (lo hi : ℕ) (xs ys rest : Bytes)
    → lo ≡ length xs
    → hi ≡ length xs + length ys
    → slice (xs ++ (ys ++ rest)) lo hi ≡ some ys
unfolding slice
slice-append lo hi xs ys rest p q = ground (
  arith,
  length-append xs (ys ++ rest),
  length-append ys rest,
  drop-append lo 0 xs (ys ++ rest),
  take-append (hi - lo) ys rest,
)

pub slice_from-append :
    (lo : ℕ) (xs ys : Bytes) → lo ≡ length xs → slice_from (xs ++ ys) lo ≡ some ys
unfolding slice_from
slice_from-append lo xs ys p = ground (arith, length-append xs ys, drop-append lo 0 xs ys)

-- A slice within the bounds does not panic.
pub slice-some :
    (b : Bytes) (lo hi : ℕ)
    → lo ≤ hi
    → hi ≤ length b
    → slice b lo hi ≡ some (take (hi - lo) (drop lo b))
unfolding slice
slice-some b lo hi p q = ground arith

pub slice_from-some : (b : Bytes) (lo : ℕ) → lo ≤ length b → slice_from b lo ≡ some (drop lo b)
unfolding slice_from
slice_from-some b lo p = ground arith

pub uint32-some : (b : Bytes) → 4 ≤ length b → (n : ℕ) × (uint32 b ≡ some n)
unfolding uint32
uint32-some [] h = absurd (omega arith)
uint32-some (_ ∷ []) h = absurd (omega arith)
uint32-some (_ ∷ _ ∷ []) h = absurd (omega arith)
uint32-some (_ ∷ _ ∷ _ ∷ []) h = absurd (omega arith)
uint32-some (a ∷ b ∷ c ∷ d ∷ rest) h = (((a * 256 + b) * 256 + c) * 256 + d, refl)
