-- ===== src/Base/Words.antt =====
-- Machine words: a w-bit value is its number, and an operation wraps by `%`.
use Prim.Native.Nat.{ℕ, ◌%◌}
use mathlib.Core.List.{List}

abbrev pub u8 : ℕ → ℕ
u8 n = n % 256

abbrev pub u16 : ℕ → ℕ
u16 n = n % 65536

abbrev pub u32 : ℕ → ℕ
u32 n = n % 4294967296

abbrev pub u64 : ℕ → ℕ
u64 n = n % 18446744073709551616

-- A Go string or byte slice, as its bytes.
abbrev pub Bytes : Type 0
Bytes = List ℕ

-- A Go int.
pub data ℤ : Type 0 where
  pos negsuc : ℕ → ℤ
