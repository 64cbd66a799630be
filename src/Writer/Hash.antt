-- ===== src/Writer/Hash.antt =====
-- PartitionFor of internal/mqwriter/store.go: the 32-bit FNV-1a hash of hash/fnv, reduced to a
-- partition number.
use Prim.Native.Nat.{bit_xor}
use mathlib.Core.List.{foldl}
use my_queue.Base.{
  ℕ, ◌-◌, ◌*◌, ◌%◌, ◌<◌, ◌≡◌, Option, none, some, arith, ℤ, pos, negsuc, Str, ◌==◌, if◌then◌else◌,
}

-- uint32(n)
abbrev pub uint32 : ℤ → ℕ
uint32 (pos n) = n % 4294967296
uint32 (negsuc n) = 4294967295 - n % 4294967296

-- One byte: hash ^= byte; hash *= prime32.
fnv_byte : ℕ → ℕ → ℕ
fnv_byte hash c = bit_xor hash c * 16777619 % 4294967296

unfoldable pub sum32 : Str → ℕ
unfolding fnv_byte
sum32 = foldl fnv_byte 2166136261

-- A division by zero panics: `none`.
unfoldable pub partition_for : Str → ℤ → Option ℕ
partition_for gpu_id total = if uint32 total == 0 then none else some (sum32 gpu_id % uint32 total)

-- With at least one partition and fewer than 2^32, every GPU ID has a partition below the total.
pub partition_for-bounds :
    (gpu_id : Str) (total : ℕ)
    → 0 < total
    → total < 4294967296
    → (p : ℕ) × (partition_for gpu_id (pos total) ≡ some p) × (p < total)
unfolding partition_for
partition_for-bounds gpu_id total h k = (sum32 gpu_id % total, ground arith, omega arith)
