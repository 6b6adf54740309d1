-- ===== src/Prelude/Int.antt =====
-- Signed integers over the native numbers: JSON-RPC error codes, Redis integer replies, `i64` values.
use Prim.Native.Nat.{ℕ}
use mathlib.Core.Bool.{Bool, false}
use redis_driver_for_per_wor.Prelude.Tests.{leb}

-- `negsuc n` is -(n + 1).
pub data ℤ : Type 0 where
  pos : ℕ → ℤ
  negsuc : ℕ → ℤ

-- `i.max(0) as u64`
abbrev pub to_ℕ : ℤ → ℕ
to_ℕ (pos n) = n
to_ℕ (negsuc n) = 0

-- `0 < i`
abbrev pub is_positive : ℤ → Bool
is_positive (pos n) = leb 1 n
is_positive (negsuc n) = false
