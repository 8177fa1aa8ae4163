-- ===== src/Net/Bytes.antt =====
-- net/ByteCursor.h: little-endian reads and writes at a position that moves over a fixed buffer.
-- `x & 0xff` is `x % 2 ^ 8`, `x >> k` is `x / 2 ^ k` and `x << k` is `x * 2 ^ k`; the shifts left are of
-- bytes and fit their types. Sizes and positions are std::size_t values that do not wrap.
pub mod Laws
pub mod Codec
use Prim.Native.Nat.{bit_or}
use stalker_mp.Base.{
  ℕ, ◌+◌, ◌*◌, ◌/◌, ◌%◌, ◌^◌, List, [], ◌∷◌, length, get_or, set, leb, ltb, if◌then◌else◌,
  ErrorCode, Result, Expected, ok, err, u8,
}
use stalker_mp.Base.State.{Op}

pub record ByteWriter : Type 0 where
  pub buffer : List ℕ
  pub position : ℕ

pub record ByteReader : Type 0 where
  pub bytes : List ℕ
  pub offset : ℕ

-- `m_buffer[m_position++] = value`.
abbrev pub put : ℕ → ByteWriter → ByteWriter
put value w = record { buffer = set w.buffer w.position value; position = w.position + 1 }

unfoldable pub write_u8 : ℕ → Op ByteWriter ErrorCode (Unit {0})
write_u8 value w =
    if ltb (length w.buffer) (w.position + 1)
    then (err ErrorCode.invalid_argument, w)
    else (ok tt, put value w)

unfoldable pub write_u16 : ℕ → Op ByteWriter ErrorCode (Unit {0})
write_u16 value w =
    if ltb (length w.buffer) (w.position + 2)
    then (err ErrorCode.invalid_argument, w)
    else (ok tt, put (u8 (value / 2 ^ 8)) (put (u8 value) w))

unfoldable pub write_u32 : ℕ → Op ByteWriter ErrorCode (Unit {0})
write_u32 value w =
    if ltb (length w.buffer) (w.position + 4) then (err ErrorCode.invalid_argument, w) else (
      ok tt,
      put (u8 (value / 2 ^ 24))
          (put (u8 (value / 2 ^ 16)) (put (u8 (value / 2 ^ 8)) (put (u8 value) w))),
    )

-- `m_buffer[m_position + i]`, inside the buffer where it is called.
abbrev pub byte_at : ByteReader → ℕ → ℕ
byte_at r i = get_or r.bytes (r.offset + i) 0

unfoldable pub read_u8 : Op ByteReader ErrorCode ℕ
read_u8 r =
    if ltb (length r.bytes) (r.offset + 1)
    then (err ErrorCode.invalid_argument, r)
    else (ok (byte_at r 0), record r { offset = r.offset + 1 })

unfoldable pub read_u16 : Op ByteReader ErrorCode ℕ
read_u16 r =
    if ltb (length r.bytes) (r.offset + 2)
    then (err ErrorCode.invalid_argument, r)
    else (ok (bit_or (byte_at r 0) (byte_at r 1 * 2 ^ 8)), record r { offset = r.offset + 2 })

unfoldable pub read_u32 : Op ByteReader ErrorCode ℕ
read_u32 r = if ltb (length r.bytes) (r.offset + 4) then (err ErrorCode.invalid_argument, r) else (
  ok (
      bit_or (bit_or (bit_or (byte_at r 0) (byte_at r 1 * 2 ^ 8)) (byte_at r 2 * 2 ^ 16))
        (byte_at r 3 * 2 ^ 24)),
  record r { offset = r.offset + 4 },
)
