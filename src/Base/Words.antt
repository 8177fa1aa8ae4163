-- ===== src/Base/Words.antt =====
-- Machine integers as native numbers. A value keeps the range of its C++ type; the wrap-around of an
-- operation is written out at the operation.
use Prim.Native.Nat.{ℕ, ◌%◌, ◌^◌}

-- The casts to std::uint8_t, std::uint16_t, std::uint32_t and std::uint64_t.
abbrev pub u8 : ℕ → ℕ
u8 n = n % 2 ^ 8

abbrev pub u16 : ℕ → ℕ
u16 n = n % 2 ^ 16

abbrev pub u32 : ℕ → ℕ
u32 n = n % 2 ^ 32

abbrev pub u64 : ℕ → ℕ
u64 n = n % 2 ^ 64
